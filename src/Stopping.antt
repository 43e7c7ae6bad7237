-- ===== src/Stopping.antt =====
-- The end of `Run` in executor.go, and what `Run` of runner.go makes of it. A subscription and a hook
-- are given by whether they return an error, a goroutine also by that it has not returned.
use taskrunner.Prelude.{
  ℕ, if◌then◌else◌, Bool, true, false, not, ◌||◌, Option, none, some, List, [], ◌∷◌, ◌++◌, Text,
  ltb,
}
use taskrunner.Executor.{Executor, is_nil}
use taskrunner.Start.{Outcome, undefined_task, out_of_fuel, help, hook_errors, started, failing}

pub data RunError : Type 0 where
  undefined_name : Text → RunError
  start_hooks : List ℕ → RunError
  stopped_with : (waited : Bool) → (stop_hooks : List ℕ) → RunError

-- The error group returns an error if a task or the watcher did.
abbrev pub group_err : Executor → Bool → Bool
group_err x watch_err = ltb 0 x.errors || watch_err

-- `Run` behind its first pass: the error that it returns, if any.
unfoldable pub stop : Bool → List Bool → Option RunError
unfolding failing
stop waited stop_hooks =
    if waited || not (is_nil (failing 0 stop_hooks))
    then some (stopped_with waited (failing 0 stop_hooks))
    else none

-- What `Run` of an executor has returned, `none` where it has not: it waits for the goroutines of its
-- tasks and for the watcher, which is given by what it returned. Where the fuel of `start` ran out, the
-- program does not return.
unfoldable pub run_error : Outcome → Option Bool → List Bool → Option (Option RunError)
unfolding stop
run_error (undefined_task name) watcher stop_hooks = some (some (undefined_name name))
run_error out_of_fuel watcher stop_hooks = none
run_error (help ts) watcher stop_hooks = some none
run_error (hook_errors hooks) watcher stop_hooks = some (some (start_hooks hooks))
run_error (started x) none stop_hooks = none
run_error (started x) (some watch_err) stop_hooks =
    if is_nil x.runs then some (stop (group_err x watch_err) stop_hooks) else none

-- Whether `Run` of the runner passes the error of the executor on.
unfoldable pub passes_on : Bool → Option RunError → Bool
passes_on watch_mode none = false
passes_on watch_mode (some (undefined_name name)) = true
passes_on watch_mode (some (start_hooks hooks)) = not watch_mode
passes_on watch_mode (some (stopped_with waited hooks)) = not watch_mode

-- `Wait` of a group: it returns once all goroutines have, and whether one has failed.
unfoldable pub wait_group : List (Option Bool) → Option Bool
wait_group [] = some false
wait_group (none ∷ group) = none
wait_group (some failed ∷ group) = elim (wait_group group) [
  | none ↦ none
  | some other ↦ some (failed || other)
]

abbrev returned : Bool → Option (Option RunError) → Option Bool
returned watch_mode none = none
returned watch_mode (some err) = some (passes_on watch_mode err)

-- Whether the program ends with a fatal error, `none` where it does not end, given what the
-- subscriptions and the executor have returned.
unfoldable pub exits_fatal : Bool → List (Option Bool) → Option (Option RunError) → Option Bool
unfolding passes_on wait_group
exits_fatal watch_mode subscriptions run =
    wait_group (subscriptions ++ returned watch_mode run ∷ [])
