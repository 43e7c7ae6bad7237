-- ===== src/Witnesses/Outputs.antt =====
-- The theorems on the output of fswatch and inotifywait.
use taskrunner.Prelude.{
  ℕ, Bool, Option, In, ◌↔◌, text_eq, ◌≡◌, refl, some, List, [], ◌∷◌, ◌++◌, Text, bytes, arith,
}
use taskrunner.Prelude.Decimal.{decimal, parse_uint}
use taskrunner.Task.{InvalidationEvent, file_change}
use taskrunner.Watch.{watch_events}
use taskrunner.Watch.Loop.{Caused, watch_events_lem}
use taskrunner.Witnesses.{definition}
use taskrunner.Watcher.{FilePaths, closed, run_fswatch, run_inotifywait}
use taskrunner.Watcher.Scan.{printed}
use taskrunner.Watcher.Fswatch.{Report, line_of, event_of, IsReport, run_fswatch_lem}
use taskrunner.Watcher.Inotifywait.{
  Notice, notice_line, IsNotice, create, is_dir, run_inotifywait_lem,
}

-- Paths are taken as they are.
abbrev plain_paths : FilePaths
plain_paths = record { rel = λ directory path. some path; join = λ dir file. dir ++ file }

abbrev one_report : Report
one_report = record { path = bytes "/a.go"; flags = 516; relative = bytes "/a.go" }

one_report-IsReport : IsReport plain_paths [] one_report
unfolding decimal
one_report-IsReport = record {
  no_space = (refl, (refl, (refl, (refl, (refl, tt)))));
  no_newline = (refl, (refl, (refl, (refl, (refl, tt)))));
  word = omega arith;
  short = omega arith;
  relative = refl;
}

run_fswatch_lem_example :
    run_fswatch plain_paths [] (printed (line_of one_report ∷ line_of one_report ∷ []))
    ≡ (event_of one_report ∷ event_of one_report ∷ [], closed)
run_fswatch_lem_example =
    run_fswatch_lem plain_paths [] (one_report ∷ one_report ∷ [])
      (one_report-IsReport, (one_report-IsReport, tt))

abbrev notice : Notice
notice = record {
  dir = bytes "/d/";
  kind = create;
  kinds = is_dir ∷ [];
  file = bytes "e";
  relative = bytes "/d/e";
}

notice-IsNotice : IsNotice plain_paths [] notice
notice-IsNotice = record {
  dir_no_space = (refl, (refl, (refl, tt)));
  dir_no_newline = (refl, (refl, (refl, tt)));
  file_no_space = (refl, tt);
  file_no_newline = (refl, tt);
  file_no_return = (refl, tt);
  short = omega arith;
  relative = refl;
}

run_inotifywait_lem_example :
    run_inotifywait plain_paths [] (printed (notice_line notice ∷ []))
    ≡ (record { flags = 2; relative_filename = bytes "/d/e" } ∷ [], closed)
run_inotifywait_lem_example = run_inotifywait_lem plain_paths [] (notice ∷ []) (notice-IsNotice, tt)

-- Patterns match by equality.
abbrev glob : Text → Text → Option Bool
glob pattern path = some (text_eq pattern path)

-- The report of the file `a`, which is a source of both tasks.
abbrev source_report : Report
source_report = record { path = bytes "a"; flags = 2; relative = bytes "a" }

source_report-IsReport : IsReport plain_paths [] source_report
unfolding decimal
source_report-IsReport = record {
  no_space = (refl, tt);
  no_newline = (refl, tt);
  word = omega arith;
  short = omega arith;
  relative = refl;
}

abbrev watched : Option (List (ℕ × InvalidationEvent))
watched =
    watch_events glob definition (0 ∷ 1 ∷ [])
      (run_fswatch plain_paths [] (printed (line_of source_report ∷ []))).0

abbrev calls : List (ℕ × InvalidationEvent)
calls = (0, file_change (bytes "a")) ∷ (1, file_change (bytes "a")) ∷ []

watched_lem : watched ≡ some calls
unfolding watch_events run_fswatch parse_uint decimal text_eq
watched_lem = refl

watch_events_lem_example :
    In (1, file_change (bytes "a")) calls
    ↔ Caused glob definition (0 ∷ 1 ∷ []) 1 (file_change (bytes "a")) (source_report ∷ [])
watch_events_lem_example =
    watch_events_lem glob definition (0 ∷ 1 ∷ []) plain_paths [] (source_report ∷ []) calls 1
      (file_change (bytes "a")) (source_report-IsReport, tt) watched_lem
