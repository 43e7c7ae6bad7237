-- ===== src/Options/Order.antt =====
-- What the options of a run add up to.
use taskrunner.Prelude.{ℕ, ◌≡◌, refl, sym, subst, ◌∙◌, Bool, List, [], ◌∷◌, ◌++◌, Text, append-nil}
use mathlib.Core.List.{append_assoc}
use taskrunner.Registry.{FlagMap}
use taskrunner.Runner.{FlagGroups}
use taskrunner.Shell.{RunOption}
use taskrunner.Options.{
  Settings, ExecutorOption, with_watcher_enhancer, with_watch_mode, with_shell_run_options,
  with_flag_args, with_flags_registry, apply_executor_option, apply_executor_options, new_executor,
  Runtime, RuntimeCall, on_start, on_stop, subscribes, executor_options_call, call, call_all,
  new_runtime, set_up, run_executor,
}

abbrev pub starts : List RuntimeCall → List ℕ
starts [] = []
starts (on_start f ∷ calls) = f ∷ starts calls
starts (_ ∷ calls) = starts calls

abbrev pub stops : List RuntimeCall → List ℕ
stops [] = []
stops (on_stop f ∷ calls) = f ∷ stops calls
stops (_ ∷ calls) = stops calls

abbrev pub readers : List RuntimeCall → List ℕ
readers [] = []
readers (subscribes f ∷ calls) = f ∷ readers calls
readers (_ ∷ calls) = readers calls

abbrev pub given : List RuntimeCall → List ExecutorOption
given [] = []
given (executor_options_call opts ∷ calls) = opts ++ given calls
given (_ ∷ calls) = given calls

abbrev pub flat : List (List RuntimeCall) → List RuntimeCall
flat [] = []
flat (option ∷ options) = option ++ flat options

abbrev pub enhancers : List ExecutorOption → List ℕ
enhancers [] = []
enhancers (with_watcher_enhancer we ∷ opts) = we ∷ enhancers opts
enhancers (_ ∷ opts) = enhancers opts

abbrev pub shell_options : List ExecutorOption → List RunOption
shell_options [] = []
shell_options (with_shell_run_options new ∷ opts) = new ++ shell_options opts
shell_options (_ ∷ opts) = shell_options opts

-- The watch mode of the last option that says one.
abbrev pub last_mode : Bool → List ExecutorOption → Bool
last_mode on [] = on
last_mode on (with_watch_mode new ∷ opts) = last_mode new opts
last_mode on (_ ∷ opts) = last_mode on opts

apply_executor_options-append :
    (xs ys : List ExecutorOption) (e : Settings)
    → apply_executor_options (xs ++ ys) e ≡ apply_executor_options ys (apply_executor_options xs e)
unfolding apply_executor_options
apply_executor_options-append [] ys e = refl
apply_executor_options-append (x ∷ xs) ys e =
    apply_executor_options-append xs ys (apply_executor_option x e)

-- What of the settings is kept apart from the flags.
abbrev Adds : List ExecutorOption → Settings → Settings → Type 0
Adds opts e e' =
    (e'.watcher_enhancers ≡ e.watcher_enhancers ++ enhancers opts)
    × (e'.watch_mode ≡ last_mode e.watch_mode opts)
    × (e'.shell_run_options ≡ e.shell_run_options ++ shell_options opts)

apply_executor_options-Adds :
    (opts : List ExecutorOption) (e : Settings) → Adds opts e (apply_executor_options opts e)
unfolding apply_executor_options apply_executor_option
apply_executor_options-Adds [] e =
    (sym (append-nil e.watcher_enhancers), refl, sym (append-nil e.shell_run_options))
apply_executor_options-Adds (with_watcher_enhancer we ∷ opts) e =
    let (a, b, c) =
      apply_executor_options-Adds opts (apply_executor_option (with_watcher_enhancer we) e) in
    (a ∙ append_assoc e.watcher_enhancers (we ∷ []) (enhancers opts), b, c)
apply_executor_options-Adds (with_watch_mode on ∷ opts) e =
    apply_executor_options-Adds opts (apply_executor_option (with_watch_mode on) e)
apply_executor_options-Adds (with_shell_run_options new ∷ opts) e =
    let (a, b, c) =
      apply_executor_options-Adds opts (apply_executor_option (with_shell_run_options new) e) in
    (a, b, c ∙ append_assoc e.shell_run_options new (shell_options opts))
apply_executor_options-Adds (with_flag_args groups ∷ opts) e =
    apply_executor_options-Adds opts (apply_executor_option (with_flag_args groups) e)
apply_executor_options-Adds (with_flags_registry flags ∷ opts) e =
    apply_executor_options-Adds opts (apply_executor_option (with_flags_registry flags) e)

call_all-append :
    (xs ys : List RuntimeCall) (r : Runtime) → call_all (xs ++ ys) r ≡ call_all ys (call_all xs r)
unfolding call_all
call_all-append [] ys r = refl
call_all-append (x ∷ xs) ys r = call_all-append xs ys (call x r)

set_up-flat :
    (options : List (List RuntimeCall)) (r : Runtime) → set_up options r ≡ call_all (flat options) r
unfolding set_up call_all
set_up-flat [] r = refl
set_up-flat (option ∷ options) r =
    set_up-flat options (call_all option r) ∙ sym (call_all-append option (flat options) r)

abbrev Registers : List RuntimeCall → Runtime → Runtime → Type 0
Registers calls r r' =
    (r'.on_start_hooks ≡ r.on_start_hooks ++ starts calls)
    × (r'.on_stop_hooks ≡ r.on_stop_hooks ++ stops calls)
    × (r'.subscriptions ≡ r.subscriptions ++ readers calls)
    × (r'.executor_options ≡ r.executor_options ++ given calls)

call_all-Registers : (calls : List RuntimeCall) (r : Runtime) → Registers calls r (call_all calls r)
unfolding call_all call
call_all-Registers [] r = (
  sym (append-nil r.on_start_hooks),
  sym (append-nil r.on_stop_hooks),
  sym (append-nil r.subscriptions),
  sym (append-nil r.executor_options),
)
call_all-Registers (on_start f ∷ calls) r =
    let (a, b, c, d) = call_all-Registers calls (call (on_start f) r) in
    (a ∙ append_assoc r.on_start_hooks (f ∷ []) (starts calls), b, c, d)
call_all-Registers (on_stop f ∷ calls) r =
    let (a, b, c, d) = call_all-Registers calls (call (on_stop f) r) in
    (a, b ∙ append_assoc r.on_stop_hooks (f ∷ []) (stops calls), c, d)
call_all-Registers (subscribes f ∷ calls) r =
    let (a, b, c, d) = call_all-Registers calls (call (subscribes f) r) in
    (a, b, c ∙ append_assoc r.subscriptions (f ∷ []) (readers calls), d)
call_all-Registers (executor_options_call opts ∷ calls) r =
    let (a, b, c, d) = call_all-Registers calls (call (executor_options_call opts) r) in
    (a, b, c, d ∙ append_assoc r.executor_options opts (given calls))

-- `Run` registers the hooks and subscriptions of its options in their order, and makes an executor with
-- all their watcher enhancers and shell options in order. Its flags are those of the command line and
-- of the registry whatever the options say, but its watch mode is that of the last option that sets
-- one, and that of the command line only if none does.
pub run_executor_lem :
    (watch_mode : Bool) (groups : FlagGroups) (flags : List (Text × FlagMap))
    (options : List (List RuntimeCall))
    → let r = set_up options new_runtime in
      let e = run_executor watch_mode groups flags options in
      (r.on_start_hooks ≡ starts (flat options))
      × (r.on_stop_hooks ≡ stops (flat options))
      × (r.subscriptions ≡ readers (flat options))
      × (e.watcher_enhancers ≡ enhancers (given (flat options)))
      × (e.watch_mode ≡ last_mode watch_mode (given (flat options)))
      × (e.shell_run_options ≡ shell_options (given (flat options)))
      × (e.task_flag_args ≡ groups)
      × (e.task_flags_registry ≡ flags)
unfolding run_executor new_executor call apply_executor_options apply_executor_option
run_executor_lem watch_mode groups flags options =
    let (a, b, c, d) =
      subst (Registers (flat options) new_runtime) (sym (set_up-flat options new_runtime))
        (call_all-Registers (flat options) new_runtime) in
    let opts = given (flat options) in
    let zero_value : Settings = record {
      watcher_enhancers = [];
      watch_mode = watch_mode;
      shell_run_options = [];
      task_flag_args = [];
      task_flags_registry = [];
    } in
    let (we, mode, shell) = apply_executor_options-Adds opts zero_value in
    let split =
      apply_executor_options-append (opts ++ with_flag_args groups ∷ [])
        (with_flags_registry flags ∷ []) zero_value in
    let split' = apply_executor_options-append opts (with_flag_args groups ∷ []) zero_value in
    rw (d, split, split') (a, b, c, we, mode, shell, refl, refl)
