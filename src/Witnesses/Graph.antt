-- ===== src/Witnesses/Graph.antt =====
-- The theorems on graphs and passes, on the graph of `test`.
use taskrunner.Prelude.{
  ℕ, zero, suc, ◌+◌, ◌≡◌, ◌≢◌, ◌<◌, ◌≤◌, refl, subst, sym, inl, inr, Bool, true, false, Option,
  none, some, List, [], ◌∷◌, Text, text_eq, bytes, arith, In,
}
use taskrunner.Task.{InvalidationEvent, user_restart}
use taskrunner.TaskSet.{
  invalid, running, done, TaskExecution, TaskSet, Build, add, dep_done, should_execute,
}
use taskrunner.TaskSet.Closure.{direct, Added}
use taskrunner.TaskSet.Add.{add_lem}
use taskrunner.Invalidation.{invalidate_event}
use taskrunner.Invalidation.Frame.{SameFrame}
use taskrunner.Invalidation.Spread.{Grows, Reaches, Holds}
use taskrunner.Invalidation.Contract.{IsLinked, invalidate_event_lem}
use taskrunner.Executor.{Executor, root, run_pass}
use taskrunner.Executor.Live.{live}
use taskrunner.Executor.Pass.{run_pass_lem, start_one}
use taskrunner.Schedule.{
  Label, run, passes, goes, enter, finish, settle, flush, notify, evaluate, drains,
}
use taskrunner.Start.{Outcome, started, start, task_registry, empty_build, initial}
use taskrunner.Start.Graph.{Explains, start-Explains}
use taskrunner.Started.{run-exclusive, run-Needs-done}
use taskrunner.Witnesses.{definition, ranked}

abbrev names : List Text
names = bytes "test" ∷ []

abbrev no_flags : Text → List Text
no_flags name = []

enough : (name : Text) (t : ℕ) → task_registry definition (0 ∷ 1 ∷ []) name ≡ some t → t < 3
unfolding task_registry
enough name t h = ground arith

abbrev outcome : Outcome
outcome = start definition 3 (0 ∷ 1 ∷ []) no_flags (0 ∷ 1 ∷ []) [] names

abbrev executor_of : Outcome → Executor
executor_of (started x) = x
executor_of _ = initial empty_build

abbrev begun : Executor
begun = executor_of outcome

abbrev reached_by : Option Executor → Executor
reached_by (some x) = x
reached_by none = begun

-- `build` runs and completes; its goroutine is about to run a pass.
abbrev labels : List Label
labels =
    passes (0 ∷ 1 ∷ [])
    ∷ goes 0 enter
    ∷ goes 0 (finish false)
    ∷ goes 0 settle
    ∷ goes 0 flush
    ∷ goes 0 notify
    ∷ goes 0 (evaluate (0 ∷ 1 ∷ []))
    ∷ drains
    ∷ []

abbrev now : Executor
now = reached_by (run definition 5 labels begun)

abbrev execution_of : Option TaskExecution → TaskExecution
execution_of (some e) = e
execution_of none = record {
  definition = 0;
  ctx = [];
  state = invalid;
  terminal_ch = 0;
  dependencies = [];
  dependents = [];
  pending_invalidations = [];
}

begun_lem : outcome ≡ started begun
unfolding start text_eq
begun_lem = refl

now_lem : run definition 5 labels begun ≡ some now
unfolding start run text_eq
now_lem = refl

build_lem : now.tasks 0 ≡ some (execution_of (now.tasks 0))
unfolding start run text_eq
build_lem = refl

run-exclusive_example : live 0 now.runs + (execution_of (now.tasks 0)).terminal_ch ≤ 1
run-exclusive_example =
    run-exclusive definition 3 5 (0 ∷ 1 ∷ []) no_flags (0 ∷ 1 ∷ []) [] names (λ t. t) ranked enough
      begun begun_lem labels now now_lem 0 (execution_of (now.tasks 0)) build_lem

starts_lem : live 1 (run_pass (0 ∷ 1 ∷ []) now).runs ≢ live 1 now.runs
unfolding start run run_pass live text_eq
starts_lem h = omega (arith, h)

run-Needs-done_example : dep_done (now.tasks 0) ≡ true
run-Needs-done_example =
    run-Needs-done definition 3 5 (0 ∷ 1 ∷ []) no_flags (0 ∷ 1 ∷ []) [] names (λ t. t) ranked enough
      begun begun_lem labels now now_lem (0 ∷ 1 ∷ []) 1 0 starts_lem (direct (inl refl))

start-Explains_example :
    Explains definition
      (task_registry definition (0 ∷ 1 ∷ []))
      no_flags
      (0 ∷ 1 ∷ [])
      []
      names
      outcome
start-Explains_example =
    start-Explains definition 3 (0 ∷ 1 ∷ []) no_flags (0 ∷ 1 ∷ []) [] names (λ t. t) ranked enough

add_lem_example :
    (b' : Build) × (deps : List ℕ) × (add definition 2 root 1 empty_build ≡ some (b', deps))
    × Added definition 1 empty_build.tasks b'.tasks deps
add_lem_example =
    add_lem definition (λ t. t) ranked 2 root 1 empty_build (omega arith)
      (record {
        sound = λ t l h. absurd (ground arith);
        complete = λ t l h. absurd (ground arith);
        registered = λ t l h. absurd (ground arith);
      })

-- `build` is done, and `test`, which depends on it, is running.
abbrev build_execution : TaskExecution
build_execution = record {
  definition = 0;
  ctx = 1 ∷ root;
  state = done;
  terminal_ch = 1;
  dependencies = [];
  dependents = 1 ∷ [];
  pending_invalidations = [];
}

abbrev test_execution : TaskExecution
test_execution = record {
  definition = 1;
  ctx = 2 ∷ root;
  state = running;
  terminal_ch = 0;
  dependencies = 0 ∷ [];
  dependents = [];
  pending_invalidations = [];
}

abbrev both : TaskSet
both zero = some build_execution
both (suc zero) = some test_execution
both (suc (suc n)) = none

abbrev height : ℕ → ℕ
height zero = 1
height (suc n) = 0

of_execution :
    (e e' : TaskExecution) → some e ≡ some e' → (d : ℕ) → In d e'.dependents → In d e.dependents
of_execution e e' h d i = let q : e ≡ e' = cc in subst (λ x. In d x.dependents) (sym q) i

linked_build : (d : ℕ) → In d (1 ∷ []) → (f : TaskExecution) × (both d ≡ some f) × (height d < 1)
linked_build d (inl e) = rw e (test_execution, refl, omega arith)
linked_build d (inr i) = absurd i

linked : IsLinked height both
linked zero e h d i = linked_build d (of_execution build_execution e h d i)
linked (suc zero) e h d i = absurd (of_execution test_execution e h d i)
linked (suc (suc n)) e h d i = absurd (ground arith)

invalidate_event_lem_example :
    (s' : TaskSet) × (b : Bool) × (invalidate_event definition 2 user_restart 0 both ≡ some (s', b))
    × SameFrame both s'
    × Grows both s'
    × ((u : ℕ) (v : InvalidationEvent)
        → Reaches definition both u v user_restart 0
        → Holds v (s' u))
invalidate_event_lem_example =
    invalidate_event_lem definition height 2 user_restart 0 both build_execution linked refl
      (omega arith)

run_pass_lem_example :
    ((run_pass (1 ∷ 0 ∷ []) begun).tasks 0 ≡ start_one begun.tasks true (begun.tasks 0))
    × (live 0 (run_pass (1 ∷ 0 ∷ []) begun).runs ≡ live 0 begun.runs + 1)
unfolding start text_eq should_execute
run_pass_lem_example = run_pass_lem (1 ∷ 0 ∷ []) begun 0
