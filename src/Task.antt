-- ===== src/Task.antt =====
-- The data of task.go and invalidation.go. A `*Task` is a number, its address, and the
-- definitions at the addresses are a function `ℕ → Task`. Of `Run` and `RunWithFlags` the model
-- keeps whether they are set: what they return is chosen by the schedule.
use taskrunner.Prelude.{ℕ, Text, bytes, text_eq, ◌==◌, Bool, true, false, Option, List, ◌++◌}

-- The strings of `ValueType`; any other string is `other`.
pub data ValueType : Type 0 where
  string_type bool_type int_type float64_type duration_type : ValueType
  other : Text → ValueType

pub record TaskFlag : Type 0 where
  pub description : Text
  pub short_name : ℕ  -- a rune, 0 if there is none
  pub long_name : Text
  pub default : Text
  pub value_type : ValueType

pub data InvalidationEvent : Type 0 where
  file_change : (file : Text) → InvalidationEvent
  dependency_change : (source : ℕ) → InvalidationEvent
  keep_alive_stopped user_restart : InvalidationEvent

pub data InvalidationReason : Type 0 where
  invalid_reason file_change_reason dependency_change_reason : InvalidationReason
  keep_alive_stopped_reason user_restart_reason : InvalidationReason

unfoldable pub reason : InvalidationEvent → InvalidationReason
reason (file_change f) = file_change_reason
reason (dependency_change t) = dependency_change_reason
reason keep_alive_stopped = keep_alive_stopped_reason
reason user_restart = user_restart_reason

-- Equality of interface values, by which `pendingInvalidations` keys its map.
unfoldable pub event_eq : InvalidationEvent → InvalidationEvent → Bool
event_eq (file_change f) (file_change g) = text_eq f g
event_eq (dependency_change t) (dependency_change u) = t == u
event_eq keep_alive_stopped keep_alive_stopped = true
event_eq user_restart user_restart = true
event_eq _ _ = false

pub record Task : Type 0 where
  pub name : Text
  pub description : Text
  pub owner : Text
  pub run : Bool
  pub run_with_flags : Bool
  pub flags : List TaskFlag
  pub should_invalidate : Option (InvalidationEvent → Bool)
  pub dependencies : List ℕ
  pub keep_alive : Bool
  pub hidden : Bool
  pub sources : List Text
  pub ignore : List Text
  pub is_group : Bool

-- `Description` of an event. It names the source of a dependency change.
unfoldable pub event_description : (ℕ → Task) → InvalidationEvent → Text
event_description definition (file_change f) = bytes "file " ++ (f ++ bytes " changed")
event_description definition (dependency_change t) =
    bytes "dependency " ++ ((definition t).name ++ bytes " was also invalidated")
event_description definition keep_alive_stopped = bytes "task exited, but is marked as keep alive"
event_description definition user_restart = bytes "user requested task restart"
