-- ===== src/Registry.antt =====
-- registry.go: `Add`, `Group` and `Tasks` of a registry. A panic leaves what was written before
-- it, so a call gives the registry together with the panic, if any.
pub mod Flags
pub mod Adding
pub mod Sorting
use taskrunner.Prelude.{
  ℕ, ◌==◌, if◌then◌else◌, Bool, true, false, not, ◌&&◌, ◌||◌, Option, none, some, List, [], ◌∷◌,
  Text, bytes, text_eq, is_empty, utf8, lookup, insert, ltb,
}
use taskrunner.Task.{Task, TaskFlag, ValueType, other}

abbrev pub FlagMap : Type 0
FlagMap = List (Text × TaskFlag)

pub record Registry : Type 0 where
  pub definitions : List (Text × ℕ)
  pub flags_by_task : List (Text × FlagMap)

pub data Panic : Type 0 where
  duplicate_task both_run long_name_is_task short_name_is_task unnamed_flag help_reserved : Panic
  h_reserved no_description bad_value_type duplicate_long_name duplicate_short_name : Panic

abbrev pub new_registry : Registry
new_registry = record { definitions = []; flags_by_task = [] }

abbrev pub is_some {ℓ} : {A : Type ℓ} → Option A → Bool
is_some none = false
is_some (some a) = true

abbrev pub is_known : ValueType → Bool
is_known (other s) = false
is_known _ = true

-- What `Add` refuses of a flag by itself, for a task called `name`.
unfoldable pub check_flag : Text → TaskFlag → Option Panic
check_flag name flag =
    if text_eq name flag.long_name
    then some long_name_is_task
    else if text_eq name (utf8 flag.short_name)
    then some short_name_is_task
    else if is_empty flag.long_name && flag.short_name == 0
    then some unnamed_flag
    else if text_eq flag.long_name (bytes "help")
    then some help_reserved
    else if text_eq (utf8 flag.short_name) (bytes "h")
    then some h_reserved
    else if is_empty flag.description
    then some no_description
    else if not (is_known flag.value_type)
    then some bad_value_type
    else none

-- An entry for a name that the flag may lack.
unfoldable pub put_name : Bool → Text → TaskFlag → Panic → FlagMap → FlagMap × Option Panic
put_name given name flag panic m =
    if given
    then (if is_some (lookup name m) then (m, some panic) else (insert name flag m, none))
    else (m, none)

abbrev pub and_then :
    FlagMap × Option Panic → (FlagMap → FlagMap × Option Panic) → FlagMap × Option Panic
and_then (m, none) f = f m
and_then (m, some p) f = (m, some p)

-- The body of the loop over the flags of a task.
unfoldable pub add_flag : Text → TaskFlag → FlagMap → FlagMap × Option Panic
add_flag name flag m = elim (check_flag name flag) [
  | some p ↦ (m, some p)
  | none ↦
      and_then (put_name (not (is_empty flag.long_name)) flag.long_name flag duplicate_long_name m)
        (put_name (not (flag.short_name == 0)) (utf8 flag.short_name) flag duplicate_short_name)
]

unfoldable pub add_flags : Text → List TaskFlag → FlagMap → FlagMap × Option Panic
unfolding add_flag
add_flags name [] m = (m, none)
add_flags name (flag ∷ flags) m = and_then (add_flag name flag m) (add_flags name flags)

-- The order of strings, byte by byte.
unfoldable pub text_le : Text → Text → Bool
text_le [] t = true
text_le (c ∷ s) [] = false
text_le (c ∷ s) (d ∷ t) = ltb c d || c == d && text_le s t

module _ (definition : ℕ → Task) where
  -- `Add` of a task after its options.
  unfoldable pub add : Registry → ℕ → Registry × Option Panic
  unfolding add_flags
  add r t =
      let task = definition t in
      if is_some (lookup task.name r.definitions)
      then (r, some duplicate_task)
      else if task.run && task.run_with_flags
      then (r, some both_run)
      else let (m, panic) = add_flags task.name task.flags [] in
        (
          record {
            definitions = insert task.name t r.definitions;
            flags_by_task = insert task.name m r.flags_by_task;
          },
          panic,
        )

  -- `sort.Slice` by name. The names in a registry differ, so any sort gives the same list.
  unfoldable pub insert_sorted : ℕ → List ℕ → List ℕ
  unfolding text_le
  insert_sorted t [] = t ∷ []
  insert_sorted t (u ∷ us) =
      if text_le (definition t).name (definition u).name then t ∷ u ∷ us else u ∷ insert_sorted t us

  unfoldable pub sort_tasks : List (Text × ℕ) → List ℕ
  unfolding insert_sorted
  sort_tasks [] = []
  sort_tasks ((name, t) ∷ m) = insert_sorted t (sort_tasks m)

  -- `Tasks`: the registered tasks in the order of their names.
  unfoldable pub tasks : Registry → List ℕ
  unfolding sort_tasks
  tasks r = sort_tasks r.definitions

-- The task that `Group` adds: the fields that it does not set are zero values.
abbrev pub group_task : Text → List ℕ → Task
group_task name tasks = record {
  name = name;
  description = [];
  owner = [];
  run = false;
  run_with_flags = false;
  flags = [];
  should_invalidate = none;
  dependencies = tasks;
  keep_alive = false;
  hidden = false;
  sources = [];
  ignore = [];
  is_group = true;
}
