-- ===== src/TaskSet.antt =====
-- task_execution.go: the executions of a task set, and `taskSet.add`. An execution is named by
-- its task, since a set holds one for each. A context is its number before those of its
-- ancestors, and is done once one of them is cancelled.
pub mod Closure
pub mod Add
use taskrunner.Prelude.{
  ℕ, zero, suc, ◌+◌, ◌==◌, if◌then◌else◌, Bool, true, false, not, Option, none, some, List, [], ◌∷◌,
  ◌++◌, any,
}
use taskrunner.Task.{Task, InvalidationEvent}

pub data State : Type 0 where
  invalid running error done canceled : State

abbrev pub is_invalid : State → Bool
is_invalid invalid = true
is_invalid _ = false

abbrev pub is_done : State → Bool
is_done done = true
is_done _ = false

abbrev pub is_canceled : State → Bool
is_canceled canceled = true
is_canceled _ = false

abbrev pub Context : Type 0
Context = List ℕ

-- `ctx.Err() != nil`, given the contexts whose cancel function was called.
abbrev pub is_cancelled : List ℕ → Context → Bool
is_cancelled cancelled ctx = any (λ c. any (λ d. c == d) cancelled) ctx

pub record TaskExecution : Type 0 where
  pub definition : ℕ
  pub ctx : Context
  pub state : State
  pub terminal_ch : ℕ  -- values in the channel, which has room for one
  pub dependencies : List ℕ
  pub dependents : List ℕ
  pub pending_invalidations : List InvalidationEvent

abbrev pub TaskSet : Type 0
TaskSet = ℕ → Option TaskExecution

abbrev pub update : TaskSet → ℕ → TaskExecution → TaskSet
update s t e u = if u == t then some e else s u

abbrev pub dep_done : Option TaskExecution → Bool
dep_done none = false
dep_done (some e) = is_done e.state

-- The loop of `ShouldExecute`, which goes on after it has found a dependency that is not done.
unfoldable pub all_done : TaskSet → Bool → List ℕ → Bool
all_done s ready [] = ready
all_done s ready (d ∷ ds) = all_done s (if dep_done (s d) then ready else false) ds

unfoldable pub should_execute : TaskSet → TaskExecution → Bool
unfolding all_done
should_execute s e = if not (is_invalid e.state) then false else all_done s true e.dependencies

-- A task set under construction, with the number of the next context.
pub record Build : Type 0 where
  pub tasks : TaskSet
  pub next_ctx : ℕ

abbrev pub add_dependent : ℕ → ℕ → TaskSet → TaskSet
add_dependent self d s = elim (s d) [
  | none ↦ s
  | some e ↦ update s d (record e { dependents = e.dependents ++ self ∷ [] })
]

abbrev pub new_execution : ℕ → Context → List ℕ → TaskExecution
new_execution task ctx dependencies = record {
  definition = task;
  ctx = ctx;
  state = invalid;
  terminal_ch = 0;
  dependencies = dependencies;
  dependents = [];
  pending_invalidations = [];
}

-- The loop of `add` over the dependencies of `self`; `rec` is the recursive call of `add`.
unfoldable pub add_all :
    (Context → ℕ → Build → Option (Build × List ℕ))
    → Context
    → ℕ
    → List ℕ
    → List ℕ
    → Build
    → Option (Build × List ℕ)
add_all rec ctx self [] acc b = some (b, acc)
add_all rec ctx self (d ∷ ds) acc b = elim (rec ctx d b) [
  | none ↦ none
  | some (b', dep_deps) ↦
      add_all rec ctx self ds ((acc ++ dep_deps) ++ d ∷ [])
        (record b' { tasks = add_dependent self d b'.tasks })
]

abbrev pub register : ℕ → Context → Option (Build × List ℕ) → Option (Build × List ℕ)
register task ctx none = none
register task ctx (some (b, deps)) =
    some (record b { tasks = update b.tasks task (new_execution task ctx deps) }, deps)

-- `taskSet.add`: the new set, and the dependencies of the execution of `task`. The fuel bounds the
-- depth of the recursion; `none` means that it ran out, as it does on a cycle of dependencies.
unfoldable pub add : (ℕ → Task) → ℕ → Context → ℕ → Build → Option (Build × List ℕ)
unfolding add_all
add definition zero ctx task b = none
add definition (suc fuel) ctx task b =
    let self_ctx = b.next_ctx ∷ ctx in
    let rest =
      add_all (add definition fuel) self_ctx task (definition task).dependencies []
        (record b { next_ctx = b.next_ctx + 1 }) in
    elim (b.tasks task) [ some e ↦ some (b, e.dependencies) | none ↦ register task self_ctx rest ]
