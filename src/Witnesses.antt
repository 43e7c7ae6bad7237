-- ===== src/Witnesses.antt =====
-- Concrete tasks on which the theorems are applied: `build`, and `test`, which depends on it.
pub mod Graph
pub mod Flags
pub mod Steps
pub mod Files
pub mod Settings
pub mod Reports
pub mod Outputs
pub mod Builds
pub mod Interface
pub mod Channels
use taskrunner.Prelude.{
  ℕ, zero, suc, ◌≡◌, ◌<◌, inl, inr, Bool, true, false, Option, none, some, List, [], ◌∷◌, Text,
  bytes, arith, In,
}
use taskrunner.Task.{Task, TaskFlag, string_type}

-- `--mode` or `-m`
abbrev pub mode : TaskFlag
mode = record {
  description = bytes "the mode";
  short_name = 109;
  long_name = bytes "mode";
  default = bytes "dev";
  value_type = string_type;
}

abbrev pub task : Text → List TaskFlag → List ℕ → Task
task name flags dependencies = record {
  name = name;
  description = [];
  owner = [];
  run = true;
  run_with_flags = false;
  flags = flags;
  should_invalidate = none;
  dependencies = dependencies;
  keep_alive = false;
  hidden = false;
  sources = bytes "a" ∷ [];
  ignore = bytes "b" ∷ [];
  is_group = false;
}

abbrev pub definition : ℕ → Task
definition zero = task (bytes "build") (mode ∷ []) []
definition (suc zero) = task (bytes "test") [] (0 ∷ [])
definition (suc (suc n)) = task (bytes "clean") [] []

pub ranked : (t d : ℕ) → In d (definition t).dependencies → d < t
ranked zero d i = elim i [ ]
ranked (suc zero) d (inl e) = omega arith
ranked (suc zero) d (inr i) = elim i [ ]
ranked (suc (suc n)) d i = elim i [ ]
