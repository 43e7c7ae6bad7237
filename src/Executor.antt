-- ===== src/Executor.antt =====
-- executor.go: the state of an executor, `runPass`, `evaluateInvalidationPlan` and
-- `invalidate`, each call cut where it can block or where another goroutine can come between.
pub mod Live
pub mod Pass
use taskrunner.Prelude.{
  ℕ, zero, suc, ◌+◌, if◌then◌else◌, Bool, true, false, not, ◌&&◌, Option, none, some, List, [], ◌∷◌,
  ◌++◌,
}
use taskrunner.Task.{Task, InvalidationEvent}
use taskrunner.TaskSet.{
  State, invalid, running, Context, is_invalid, is_canceled, is_cancelled, TaskExecution, TaskSet,
  update, should_execute,
}
use taskrunner.Invalidation.{invalidate_event}

pub data Event : Type 0 where
  task_started task_completed task_failed task_stopped : ℕ → Event
  task_invalidated : ℕ → List InvalidationEvent → Event

-- How a finished task is judged: stopped by an invalidation, stopped by the end of taskrunner,
-- failed, or completed.
pub data Verdict : Type 0 where
  stopped stopped_for_good failed completed : Verdict

-- Where a goroutine of `runPass` is. The Boolean is whether the task returned an error. `decided`
-- holds the verdict, by which the goroutine has not yet written the state.
pub data Phase : Type 0 where
  spawned : Phase
  executing : Context → Phase
  decided : Context → Bool → Verdict → Phase
  settled flushed notified planned : Context → Bool → Phase

pub record Run : Type 0 where
  pub task : ℕ
  pub phase : Phase

-- Who holds `mu`. `next ts`: `evaluateInvalidationPlan` has `ts` still to invalidate. `wait t ts`:
-- it waits in `invalidate` for the terminal channel of `t`.
pub data Plan : Type 0 where
  idle : Plan
  next : List ℕ → Plan
  wait : ℕ → List ℕ → Plan

pub record Executor : Type 0 where
  pub tasks : TaskSet
  pub runs : List Run
  pub plan : Plan
  pub cancelled : List ℕ  -- the contexts whose cancel function was called
  pub next_ctx : ℕ
  pub invalidation_ch : ℕ  -- values sent so far
  pub events : List Event
  pub errors : ℕ  -- errors returned to the error group

-- The context of the executor itself.
abbrev pub root : Context
root = 0 ∷ []

unfoldable pub publish_event : Event → Executor → Executor
publish_event event x = record x { events = x.events ++ event ∷ [] }

-- The body of the loop of `runPass`.
unfoldable pub try_start : ℕ → Executor → Executor
unfolding should_execute
try_start t x = elim (x.tasks t) [
  | none ↦ x
  | some e ↦
      if should_execute x.tasks e
      then record x {
        tasks = update x.tasks t (record e { state = running });
        runs = record { task = t; phase = spawned } ∷ x.runs;
      }
      else x
]

unfoldable pub start_all : List ℕ → Executor → Executor
unfolding try_start
start_all [] x = x
start_all (t ∷ order) x = start_all order (try_start t x)

-- `runPass`; `order` is the order in which `range e.tasks` visits the tasks.
unfoldable pub run_pass : List ℕ → Executor → Executor
unfolding start_all
run_pass order x = if is_cancelled x.cancelled root then x else start_all order x

abbrev pub is_nil {ℓ} : {A : Type ℓ} → List A → Bool
is_nil [] = true
is_nil (a ∷ l) = false

unfoldable pub to_invalidate : TaskExecution → Bool
to_invalidate e = not (is_nil e.pending_invalidations) && not (is_invalid e.state)

-- The first loop of `evaluateInvalidationPlan`: the tasks to invalidate, and its events.
unfoldable pub collect : TaskSet → List ℕ → List ℕ × List Event
unfolding to_invalidate
collect s [] = ([], [])
collect s (t ∷ order) =
    let (ts, events) = collect s order in
    elim (s t) [
      | none ↦ (ts, events)
      | some e ↦
          if to_invalidate e
          then (t ∷ ts, task_invalidated t e.pending_invalidations ∷ events)
          else (ts, events)
    ]

-- `evaluateInvalidationPlan` up to its second loop.
unfoldable pub evaluate_plan : List ℕ → Executor → Executor
unfolding collect
evaluate_plan order x =
    let (ts, events) = collect x.tasks order in
    record x { plan = next ts; events = x.events ++ events }

abbrev pub cancel : Context → List ℕ → List ℕ
cancel [] cancelled = cancelled
cancel (c ∷ ctx) cancelled = c ∷ cancelled

-- `invalidate` up to `<-e.terminalCh`.
unfoldable pub invalidate_begin : ℕ → List ℕ → TaskExecution → Executor → Executor
invalidate_begin t ts e x =
    if is_invalid e.state
    then record x { plan = next ts }
    else if is_canceled e.state
    then record x { plan = next ts }
    else record x {
      tasks = update x.tasks t (record e { state = invalid; ctx = x.next_ctx ∷ root });
      cancelled = cancel e.ctx x.cancelled;
      next_ctx = x.next_ctx + 1;
      plan = wait t ts;
    }

-- The rest of `invalidate`, once a value could be received.
unfoldable pub invalidate_end : ℕ → List ℕ → TaskExecution → Executor → Executor
invalidate_end t ts e x = record x {
  tasks = update x.tasks t (record e { terminal_ch = 0; pending_invalidations = [] });
  plan = next ts;
}

abbrev receive : ℕ → List ℕ → TaskExecution → ℕ → Executor → Option Executor
receive t ts e zero x = none
receive t ts e (suc n) x = some (invalidate_end t ts e x)

-- The next move of the goroutine that evaluates a plan; `none` if it is blocked, or there is none.
unfoldable pub drain : Plan → Executor → Option Executor
unfolding invalidate_begin invalidate_end
drain idle x = none
drain (next []) x = some (record x { plan = idle })
drain (next (t ∷ ts)) x = elim (x.tasks t) [
  | none ↦ none
  | some e ↦ some (invalidate_begin t ts e x)
]
drain (wait t ts) x = elim (x.tasks t) [ none ↦ none | some e ↦ receive t ts e e.terminal_ch x ]

-- The exported `Invalidate` of an executor.
unfoldable pub invalidate : (ℕ → Task) → ℕ → InvalidationEvent → ℕ → Executor → Option Executor
unfolding invalidate_event
invalidate definition fuel event t x = elim (invalidate_event definition fuel event t x.tasks) [
  | none ↦ none
  | some (s, did) ↦ some (record x {
    tasks = s;
    invalidation_ch = (if did then x.invalidation_ch + 1 else x.invalidation_ch);
  })
]
