-- ===== src/Start.antt =====
-- executor.go: `NewExecutor`, and `Run` up to its first pass. The start hooks are given by
-- whether each returns an error.
pub mod Fresh
pub mod Graph
use taskrunner.Prelude.{
  ℕ, zero, suc, ◌+◌, if◌then◌else◌, Bool, true, false, ◌||◌, Option, none, some, List, [], ◌∷◌,
  Text, bytes, text_eq, any,
}
use taskrunner.Task.{Task}
use taskrunner.TaskSet.{TaskSet, Build, add}
use taskrunner.Executor.{Executor, idle, root, is_nil}

pub data Outcome : Type 0 where
  undefined_task : Text → Outcome
  out_of_fuel : Outcome
  help : List ℕ → Outcome
  hook_errors : List ℕ → Outcome
  started : Executor → Outcome

-- `taskRegistry`: of two tasks with one name it holds the later.
unfoldable pub task_registry : (ℕ → Task) → List ℕ → Text → Option ℕ
task_registry definition [] name = none
task_registry definition (t ∷ ts) name = elim (task_registry definition ts name) [
  | some u ↦ some u
  | none ↦ if text_eq (definition t).name name then some t else none
]

abbrev pub is_help : Text → Bool
is_help arg = text_eq arg (bytes "-h") || text_eq arg (bytes "--help")

-- The tasks of the set that were given a help flag, in the order in which `range e.tasks` visits them.
unfoldable pub with_help : (ℕ → Task) → (Text → List Text) → List ℕ → TaskSet → List ℕ
with_help definition flag_args [] s = []
with_help definition flag_args (t ∷ order) s =
    let rest = with_help definition flag_args order s in
    elim (s t) [
      | none ↦ rest
      | some e ↦ if any is_help (flag_args (definition t).name) then t ∷ rest else rest
    ]

-- The numbers of the hooks that fail.
unfoldable pub failing : ℕ → List Bool → List ℕ
failing i [] = []
failing i (failed ∷ hooks) = let rest = failing (i + 1) hooks in if failed then i ∷ rest else rest

abbrev pub initial : Build → Executor
initial b = record {
  tasks = b.tasks;
  runs = [];
  plan = idle;
  cancelled = [];
  next_ctx = b.next_ctx;
  invalidation_ch = 0;
  events = [];
  errors = 0;
}

abbrev pub empty_build : Build
empty_build = record { tasks = λ t. none; next_ctx = 1 }

-- What a graph of executions leads to.
abbrev pub begin : (ℕ → Task) → (Text → List Text) → List ℕ → List Bool → Build → Outcome
begin definition flag_args order hooks b =
    let helped = with_help definition flag_args order b.tasks in
    let errors = failing 0 hooks in
    if is_nil helped
    then (if is_nil errors then started (initial b) else hook_errors errors)
    else help helped

-- The loop over the task names, and what follows it.
unfoldable pub run_names :
    (ℕ → Task) → ℕ → (Text → Option ℕ) → (Build → Outcome) → List Text → Build → Outcome
unfolding add
run_names definition fuel registry finish [] b = finish b
run_names definition fuel registry finish (name ∷ names) b = elim (registry name) [
  | none ↦ undefined_task name
  | some t ↦ elim (add definition fuel root t b) [
    | none ↦ out_of_fuel
    | some (b', deps) ↦ run_names definition fuel registry finish names b'
  ]
]

module _ (definition : ℕ → Task) (fuel : ℕ) (all : List ℕ) (flag_args : Text → List Text) where
  -- `Run` up to its first pass, for the tasks `all` of the executor.
  unfoldable pub start : List ℕ → List Bool → List Text → Outcome
  unfolding task_registry with_help failing run_names
  start order hooks names =
      run_names definition fuel (task_registry definition all)
        (begin definition flag_args order hooks) names empty_build
