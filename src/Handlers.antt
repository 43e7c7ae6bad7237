-- ===== src/Handlers.antt =====
-- task_handler.go: what a reporter sees of the tasks of an executor.
pub mod Order
use taskrunner.Prelude.{
  ℕ, if◌then◌else◌, Bool, true, false, Option, none, some, List, [], ◌∷◌, Text, bytes,
}
use taskrunner.Task.{Task, InvalidationEvent}
use taskrunner.TaskSet.{State, invalid, running, error, done, canceled, TaskExecution, TaskSet}
use taskrunner.Invalidation.{invalidate_event}
use taskrunner.Executor.{Executor}
use taskrunner.Registry.{insert_sorted}

-- `TaskHandlerExecutionStateMap`
unfoldable pub state_name : State → Text
state_name invalid = bytes "invalid"
state_name running = bytes "running"
state_name error = bytes "error"
state_name done = bytes "done"
state_name canceled = bytes "canceled"

-- `State` of the handler of a task. A task that has no execution has no handler.
unfoldable pub handler_state : TaskSet → ℕ → Option Text
unfolding state_name
handler_state s t = elim (s t) [ none ↦ none | some e ↦ some (state_name e.state) ]

module _ (definition : ℕ → Task) where
  -- `Tasks` of an executor: the tasks of the set, which `range` visits in some order, sorted by
  -- name.
  unfoldable pub executor_tasks : List ℕ → TaskSet → List ℕ
  unfolding insert_sorted
  executor_tasks [] s = []
  executor_tasks (t ∷ order) s =
      let rest = executor_tasks order s in
      elim (s t) [ none ↦ rest | some e ↦ insert_sorted definition t rest ]

  -- `Invalidate` of a handler. Unlike that of the executor it does not wake the loop that
  -- evaluates plans.
  unfoldable pub handler_invalidate : ℕ → InvalidationEvent → ℕ → Executor → Option Executor
  unfolding invalidate_event
  handler_invalidate fuel event t x = elim (invalidate_event definition fuel event t x.tasks) [
    | none ↦ none
    | some (s, did) ↦ some (record x { tasks = s })
  ]
