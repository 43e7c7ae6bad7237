-- ===== src/Witnesses/Interface.antt =====
-- The theorems on the terminal interface, on shell commands, and on the end of a run.
use taskrunner.Prelude.{
  List, ℕ, ◌≡◌, ◌↔◌, ◌<◌, refl, Bool, true, false, none, some, [], ◌∷◌, Text, bytes, length,
  if_some, arith,
}
use taskrunner.Prelude.Int.{pos, negsuc, ◌+ℤ◌, ◌-ℤ◌, ◌≤ℤ◌, ◌<ℤ◌}
use taskrunner.Terminal.{
  TabWidget, new_tab_widget, rune_j, rune_k, other_rune, key_tab, key_278, other_key, on_key_events,
  build_tab_list,
}
use taskrunner.Terminal.Keys.{tasks_of, after, before, Selects, on_key_events_lem}
use taskrunner.Terminal.Scroll.{ScrollArea, scroll, scroll_lem}
use taskrunner.Shell.{InterpRunner, stdout_option, stderr_option, ran, shell_run}
use taskrunner.Shell.Options.{or_else, last_out, last_err, shell_run_lem}
use taskrunner.GoBuild.{inject_options}
use taskrunner.Options.{
  RuntimeCall, executor_options_call, with_watch_mode, with_watcher_enhancer, cache_option,
  reporter_option, new_runtime, set_up, run_executor,
}
use taskrunner.Options.Order.{
  starts, stops, readers, given, flat, enhancers, shell_options, last_mode, run_executor_lem,
}

on_key_events_lem_example :
    (w : TabWidget) × (if_some
        (build_tab_list (4 ∷ 5 ∷ []) new_tab_widget)
        (on_key_events ((rune_k, other_key) ∷ (other_rune, key_tab) ∷ []))
      ≡ some w)
    × (tasks_of w.tabs ≡ 4 ∷ 5 ∷ [])
    × ((index : ℕ) × (w.selected ≡ pos index)
        × (index < length w.tabs)
        × Selects w (rune_j, other_key) (after index (length w.tabs))
        × Selects w (other_rune, key_tab) (after index (length w.tabs))
        × Selects w (rune_k, other_key) (before index (length w.tabs))
        × Selects w (other_rune, key_278) (before index (length w.tabs)))
on_key_events_lem_example =
    on_key_events_lem 4 (5 ∷ []) ((rune_k, other_key) ∷ (other_rune, key_tab) ∷ [])

-- An area at the first row.
abbrev top : ScrollArea
top = record { x = pos 0; y = pos 0; autoscroll = true }

scroll_lem_example :
    (pos 0 ≤ℤ (scroll (pos 30) (pos 10) (pos 0) (negsuc 4) top).y)
    × ((scroll (pos 30) (pos 10) (pos 0) (negsuc 4) top).y ≤ℤ pos 30 -ℤ pos 10)
    × (((scroll (pos 30) (pos 10) (pos 0) (negsuc 4) top).autoscroll ≡ true)
        ↔ (pos 30 -ℤ pos 10 <ℤ pos 0 +ℤ negsuc 4))
scroll_lem_example = scroll_lem (pos 30) (pos 10) (pos 0) (negsuc 4) top (omega arith)

abbrev interpreter : InterpRunner
interpreter = record { stdout = none; stderr = none; stdin = none; env = []; dir = [] }

abbrev parses : Text → Bool
parses command = true

abbrev exec : InterpRunner → Text → Bool
exec r command = false

shell_run_lem_example :
    (u : InterpRunner) × (shell_run parses
        (some interpreter)
        exec
        (some (1, 2))
        (stderr_option 3 ∷ [])
        (bytes "ls")
        (inject_options (stdout_option 4 ∷ []) (stdout_option 5 ∷ []))
      ≡ ran u false)
    × (u.stdout
        ≡ or_else
            (some 5)
            (or_else (some 4) (or_else (last_out (stderr_option 3 ∷ [])) (or_else (some 1) none))))
    × (u.stderr
        ≡ or_else
            (last_err (stdout_option 5 ∷ []))
            (or_else (last_err (stdout_option 4 ∷ [])) (or_else (some 3) (or_else (some 2) none))))
shell_run_lem_example =
    shell_run_lem parses (some interpreter) exec (some (1, 2)) (stderr_option 3 ∷ [])
      (stdout_option 4 ∷ []) (stdout_option 5 ∷ []) (bytes "ls") interpreter refl refl

-- A cache, a reporter, and options of the executor, one of which turns the watch mode on.
abbrev run_options : List (List RuntimeCall)
run_options =
    cache_option 1 2
    ∷ reporter_option 3 4
    ∷ (executor_options_call (with_watch_mode true ∷ with_watcher_enhancer 5 ∷ []) ∷ [])
    ∷ []

run_executor_lem_example :
    let r = set_up run_options new_runtime in
    let e = run_executor false [] [] run_options in
    (r.on_start_hooks ≡ starts (flat run_options))
    × (r.on_stop_hooks ≡ stops (flat run_options))
    × (r.subscriptions ≡ readers (flat run_options))
    × (e.watcher_enhancers ≡ enhancers (given (flat run_options)))
    × (e.watch_mode ≡ last_mode false (given (flat run_options)))
    × (e.shell_run_options ≡ shell_options (given (flat run_options)))
    × (e.task_flag_args ≡ [])
    × (e.task_flags_registry ≡ [])
run_executor_lem_example = run_executor_lem false [] [] run_options
