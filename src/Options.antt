-- ===== src/Options.antt =====
-- The options of executor.go and runner.go: what an executor and the runtime of `Run` are made of. A
-- function that is kept, such as a hook, is a number.
pub mod Order
use taskrunner.Prelude.{ℕ, Bool, false, List, [], ◌∷◌, ◌++◌, Text}
use taskrunner.Registry.{FlagMap}
use taskrunner.Runner.{FlagGroups}
use taskrunner.Shell.{RunOption}

-- The fields of an `Executor` that options set.
pub record Settings : Type 0 where
  pub watcher_enhancers : List ℕ
  pub watch_mode : Bool
  pub shell_run_options : List RunOption
  pub task_flag_args : FlagGroups
  pub task_flags_registry : List (Text × FlagMap)

-- `WithWatcherEnhancer`, `WithWatchMode`, `ShellRunOptions`, and the two options of `Run`.
pub data ExecutorOption : Type 0 where
  with_watcher_enhancer : ℕ → ExecutorOption
  with_watch_mode : Bool → ExecutorOption
  with_shell_run_options : List RunOption → ExecutorOption
  with_flag_args : FlagGroups → ExecutorOption
  with_flags_registry : List (Text × FlagMap) → ExecutorOption

unfoldable pub apply_executor_option : ExecutorOption → Settings → Settings
apply_executor_option (with_watcher_enhancer we) e = record e {
  watcher_enhancers = e.watcher_enhancers ++ we ∷ [];
}
apply_executor_option (with_watch_mode on) e = record e { watch_mode = on }
apply_executor_option (with_shell_run_options opts) e = record e {
  shell_run_options = e.shell_run_options ++ opts;
}
apply_executor_option (with_flag_args groups) e = record e { task_flag_args = groups }
apply_executor_option (with_flags_registry flags) e = record e { task_flags_registry = flags }

unfoldable pub apply_executor_options : List ExecutorOption → Settings → Settings
unfolding apply_executor_option
apply_executor_options [] e = e
apply_executor_options (opt ∷ opts) e = apply_executor_options opts (apply_executor_option opt e)

-- `NewExecutor`
unfoldable pub new_executor : List ExecutorOption → Settings
unfolding apply_executor_options
new_executor opts = apply_executor_options opts (record {
  watcher_enhancers = [];
  watch_mode = false;
  shell_run_options = [];
  task_flag_args = [];
  task_flags_registry = [];
})

-- `Runtime`
pub record Runtime : Type 0 where
  pub subscriptions : List ℕ
  pub on_start_hooks : List ℕ
  pub on_stop_hooks : List ℕ
  pub executor_options : List ExecutorOption

-- What an option of `Run` does with the runtime.
pub data RuntimeCall : Type 0 where
  on_start on_stop subscribes : ℕ → RuntimeCall
  executor_options_call : List ExecutorOption → RuntimeCall

unfoldable pub call : RuntimeCall → Runtime → Runtime
call (on_start f) r = record r { on_start_hooks = r.on_start_hooks ++ f ∷ [] }
call (on_stop f) r = record r { on_stop_hooks = r.on_stop_hooks ++ f ∷ [] }
call (subscribes f) r = record r { subscriptions = r.subscriptions ++ f ∷ [] }
call (executor_options_call opts) r = record r { executor_options = r.executor_options ++ opts }

unfoldable pub call_all : List RuntimeCall → Runtime → Runtime
unfolding call
call_all [] r = r
call_all (c ∷ calls) r = call_all calls (call c r)

abbrev pub new_runtime : Runtime
new_runtime = record {
  subscriptions = [];
  on_start_hooks = [];
  on_stop_hooks = [];
  executor_options = [];
}

-- The loop of `Run` over its options, each the list of the calls that it makes.
unfoldable pub set_up : List (List RuntimeCall) → Runtime → Runtime
unfolding call_all
set_up [] r = r
set_up (option ∷ options) r = set_up options (call_all option r)

-- The executor that `Run` makes.
unfoldable pub run_executor :
    Bool → FlagGroups → List (Text × FlagMap) → List (List RuntimeCall) → Settings
unfolding set_up call new_executor
run_executor watch_mode groups flags options =
    let r =
      call (executor_options_call (with_flag_args groups ∷ [])) (set_up options new_runtime) in
    let r' = call (executor_options_call (with_flags_registry flags ∷ [])) r in
    new_executor (with_watch_mode watch_mode ∷ [] ++ r'.executor_options)

-- `runWatch`: the watcher under its enhancers, given by what they make of a watcher.
unfoldable pub enhance {ℓ} : {W : Type ℓ} → (ℕ → W → W) → List ℕ → W → W
enhance apply [] watcher = watcher
enhance apply (we ∷ enhancers) watcher = enhance apply enhancers (apply we watcher)

-- `Option` of cache/cache.go and of tui/tui.go, and `option` of clireporter/cli.go: their hooks.
abbrev pub cache_option : ℕ → ℕ → List RuntimeCall
cache_option start finish = on_start start ∷ on_stop finish ∷ []

abbrev pub reporter_option : ℕ → ℕ → List RuntimeCall
reporter_option start events = on_start start ∷ subscribes events ∷ []
