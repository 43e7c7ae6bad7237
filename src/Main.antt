-- ===== src/Main.antt =====
-- runner.go: `Run` from the parsed options to the executor that it makes. What `flags.Parse` and the
-- reading of the configuration gave are arguments.
pub mod Outcomes
use taskrunner.Prelude.{
  ℕ, if◌then◌else◌, Bool, true, false, not, ◌&&◌, ◌||◌, Option, none, some, List, [], ◌∷◌, ◌++◌,
  Text, bytes,
}
use taskrunner.Task.{Task}
use taskrunner.Registry.{Registry, tasks}
use taskrunner.Runner.{FlagGroups, keys, group_task_and_flag_args}
use taskrunner.Options.{Settings, RuntimeCall, run_executor}

-- The options of `newRuntime`, but for the path of the configuration.
pub record Options : Type 0 where
  pub non_interactive : Bool
  pub list_tasks : Bool
  pub list_all_tasks : Bool
  pub watch : Bool
  pub describe_tasks : Bool

pub data Fatal : Type 0 where
  bad_flags unreadable_config no_definitions both_lists invalid_targets : Fatal

-- What `Run` comes to: a fatal error, the text of the list, the rows of the descriptions, or an
-- executor with its tasks and settings, that runs the names given.
pub data Launch : Type 0 where
  fatal : Fatal → Launch
  listed : Text → Launch
  described : List (Text × Text) → Launch
  launched : (tasks : List ℕ) (settings : Settings) (desired : List Text) → Launch

abbrev pub list_heading : Text
list_heading = bytes "Run specified tasks with `taskrunner taskname1 taskname2`\nTasks available:"

abbrev pub is_nil {ℓ} : {A : Type ℓ} → List A → Bool
is_nil [] = true
is_nil (x ∷ xs) = false

module _ (definition : ℕ → Task) where
  unfoldable pub task_list : Bool → List ℕ → Text
  task_list list_tasks [] = []
  task_list list_tasks (t ∷ ts) =
      let rest = task_list list_tasks ts in
      if list_tasks && (definition t).hidden
      then rest
      else bytes "\n\t" ++ ((definition t).name ++ rest)

  unfoldable pub descriptions : List ℕ → List (Text × Text)
  descriptions [] = []
  descriptions (t ∷ ts) = ((definition t).name, (definition t).description) ∷ descriptions ts

  -- The options that `Run` is called with, and `range` over the keys of the groups as `iterate`.
  module _ (options : List (List RuntimeCall)) (iterate : List Text → List Text) where
    -- `Run` from the grouping on.
    unfoldable pub choose : Registry → Options → List Text → List ℕ → FlagGroups × Bool → Launch
    unfolding run_executor
    choose r o default_tasks ts (groups, found_invalid) =
        let desired = iterate (keys groups) in
        if is_nil desired
        then (if found_invalid
            then fatal invalid_targets
            else launched ts (run_executor (not o.non_interactive) groups r.flags_by_task options)
                default_tasks)
        else launched ts (run_executor o.watch groups r.flags_by_task options) desired

    -- `Run`, given what `flags.Parse` and the reading of the configuration gave.
    unfoldable pub run_main : Registry → Option (Options × List Text) → Option (List Text) → Launch
    unfolding group_task_and_flag_args choose task_list descriptions tasks
    run_main r none config = fatal bad_flags
    run_main r (some (o, args)) none = fatal unreadable_config
    run_main r (some (o, args)) (some default_tasks) =
        let ts = tasks definition r in
        if is_nil ts
        then fatal no_definitions
        else if o.list_tasks && o.list_all_tasks
        then fatal both_lists
        else if o.list_tasks || o.list_all_tasks
        then listed (list_heading ++ task_list o.list_tasks ts)
        else if o.describe_tasks
        then described (descriptions ts)
        else choose r o default_tasks ts (group_task_and_flag_args r args)
