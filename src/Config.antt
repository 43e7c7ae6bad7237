-- ===== src/Config.antt =====
-- config/config.go: configuration files that extend one another. What the code takes from
-- path/filepath and from the file system is the record `Os`; `read_file` is the reading and the
-- parsing of a file, `none` for an error. Maps of names are lists without repetition, which Go
-- visits in the order `iterate`.
pub mod Merge
pub mod Chain
use taskrunner.Prelude.{
  ℕ, zero, suc, if◌then◌else◌, if_some, Bool, true, false, Option, none, some, List, [], ◌∷◌, ◌++◌,
  Text, bytes, text_eq, any,
}

-- A slice that the file does not give is nil.
pub record ConfigFile : Type 0 where
  pub config_path : Text
  pub extends : Option Text
  pub path : Option Text
  pub desired_tasks : Option (List Text)

pub record Config : Type 0 where
  pub working_dir : Text
  pub config_path : Text
  pub desired_tasks : List Text

-- What a configuration file holds.
pub record Content : Type 0 where
  pub extends : Option Text
  pub path : Option Text
  pub desired_tasks : Option (List Text)

pub record Os : Type 0 where
  pub abs : Text → Option Text
  pub eval_symlinks : Text → Option Text
  pub dir : Text → Text
  pub join : Text → Text → Text
  pub read_file : Text → Option Content
  pub exists : Text → Bool

pub data Result : Type 0 where
  out_of_fuel failed : Result
  ok : Config → Result

-- A key of a map without values.
unfoldable pub add_key : Text → List Text → List Text
add_key t keys = if any (λ k. text_eq k t) keys then keys else keys ++ t ∷ []

unfoldable pub add_keys : List Text → List Text → List Text
unfolding add_key
add_keys [] keys = keys
add_keys (t ∷ ts) keys = add_keys ts (add_key t keys)

abbrev pub or_nil : Option (List Text) → List Text
or_nil none = []
or_nil (some ts) = ts

module _ (os : Os) where
  -- `resolveWorkingDir`
  unfoldable pub resolve_working_dir : Text → Text → Option Text
  resolve_working_dir file_path path_option = if_some (os.abs file_path) (λ absolute.
      if_some (os.eval_symlinks absolute) (λ real. some (os.join (os.dir real) path_option)))

  abbrev pub config_in : Text → List Text → Option Text → Result
  config_in config_path desired none = failed
  config_in config_path desired (some working_dir) =
      ok (record { working_dir = working_dir; config_path = config_path; desired_tasks = desired })

  -- `ToConfig`
  unfoldable pub to_config : ConfigFile → Result
  unfolding resolve_working_dir
  to_config f = elim f.path [
    | none ↦ failed
    | some path ↦
        config_in f.config_path (or_nil f.desired_tasks) (resolve_working_dir f.config_path path)
  ]

  -- `readConfigFile`
  unfoldable pub read_config_file : Text → Option ConfigFile
  read_config_file path = if_some (os.abs path) (λ resolved.
      if_some (os.read_file resolved) (λ content. some (record {
        config_path = resolved;
        extends = content.extends;
        path = content.path;
        desired_tasks = content.desired_tasks;
      })))

  module _ (iterate : List Text → List Text) where
    abbrev pub merged_tasks : List Text → Option (List Text) → List Text
    merged_tasks base none = base
    merged_tasks base (some ts) = iterate (add_keys ts (add_keys base []))

    -- `With`
    unfoldable pub with_file : Config → ConfigFile → Result
    unfolding resolve_working_dir add_keys
    with_file c f =
        let desired = merged_tasks c.desired_tasks f.desired_tasks in
        elim f.path [
          | none ↦ config_in f.config_path desired (some c.working_dir)
          | some path ↦ config_in f.config_path desired (resolve_working_dir f.config_path path)
        ]

    abbrev pub with_base : ConfigFile → Result → Result
    with_base f (ok c) = with_file c f
    with_base f out_of_fuel = out_of_fuel
    with_base f failed = failed

    -- `ReadConfig`. The fuel bounds the length of the chain of extended files.
    unfoldable pub read_config : ℕ → Text → Result
    unfolding to_config read_config_file with_file
    read_config zero path = out_of_fuel
    read_config (suc fuel) path = elim (read_config_file path) [
      | none ↦ failed
      | some f ↦ elim f.extends [
        | none ↦ to_config f
        | some base ↦ elim (os.abs (os.join (os.dir path) base)) [
          | none ↦ failed
          | some extended ↦ with_base f (read_config fuel extended)
        ]
      ]
    ]

    -- `ReadDefaultConfig`
    unfoldable pub read_default_config : ℕ → Result
    unfolding read_config
    read_default_config fuel =
        let user = bytes "./user.taskrunner.json" in
        read_config fuel (if os.exists user then user else bytes "./workspace.taskrunner.json")
