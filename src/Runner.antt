-- ===== src/Runner.antt =====
-- runner.go: `groupTaskAndFlagArgs`.
pub mod Groups
pub mod Names
use taskrunner.Prelude.{
  ℕ, if◌then◌else◌, Bool, true, false, not, ◌&&◌, ◌||◌, Option, none, some, List, [], ◌∷◌, ◌++◌,
  Text, bytes, is_empty, has_prefix, lookup, insert,
}
use taskrunner.Task.{Task}
use taskrunner.Registry.{Registry, FlagMap, is_some, tasks}

abbrev pub FlagGroups : Type 0
FlagGroups = List (Text × List Text)

-- `strings.HasPrefix(arg, "-") || strings.HasPrefix(arg, "--")`
unfoldable pub is_flag : Text → Bool
unfolding has_prefix
is_flag arg = has_prefix arg (bytes "-") || has_prefix arg (bytes "--")

-- The variables of the loop: `flagArgsPerTask`, `foundInvalidTasks`, `currTaskName` and
-- `currFlagsList`.
pub record Grouping : Type 0 where
  pub groups : FlagGroups
  pub found_invalid : Bool
  pub curr_task : Text
  pub curr_flags : List Text

abbrev pub ungrouped : Grouping
ungrouped = record { groups = []; found_invalid = false; curr_task = []; curr_flags = [] }

-- The flags collected for the current task are stored, if there is one.
unfoldable pub store : Grouping → FlagGroups
store g = if is_empty g.curr_task then g.groups else insert g.curr_task g.curr_flags g.groups

abbrev pub is_defined : Registry → Text → Bool
is_defined r name = is_some (lookup name r.definitions)

-- The body of the loop.
unfoldable pub group_arg : Registry → Text → Grouping → Grouping
unfolding is_flag store
group_arg r arg g =
    if is_flag arg
    then (if is_empty g.curr_task then g else record g { curr_flags = g.curr_flags ++ arg ∷ [] })
    else if is_defined r arg
    then record g { groups = store g; curr_task = arg; curr_flags = [] }
    else record g {
      groups = store g;
      found_invalid = true;
      curr_task = [];
      curr_flags = if is_empty g.curr_task then g.curr_flags else [];
    }

unfoldable pub group_all : Registry → List Text → Grouping → Grouping
unfolding group_arg
group_all r [] g = g
group_all r (arg ∷ args) g = group_all r args (group_arg r arg g)

-- `groupTaskAndFlagArgs`
unfoldable pub group_task_and_flag_args : Registry → List Text → FlagGroups × Bool
unfolding group_all store
group_task_and_flag_args r args = let g = group_all r args ungrouped in (store g, g.found_invalid)

abbrev pub keys : FlagGroups → List Text
keys [] = []
keys ((name, flags) ∷ m) = name ∷ keys m
