-- ===== src/Watcher/Fswatch.antt =====
-- The output of fswatch is read back as it was printed, as long as no path has a space.
use taskrunner.Prelude.{
  split, none, ℕ, ◌^◌, ◌≤◌, ◌<◌, ◌≡◌, refl, ap, ◌∙◌, ◌==◌, false, some, List, [], ◌∷◌, ◌++◌, map,
  Text, IsFree, split-line, split-last, length, All, All-append, arith,
}
use taskrunner.Prelude.Decimal.{decimal, parse_uint, parse_uint-decimal, decimal-IsFree}
use taskrunner.Watcher.{
  FilePaths, WatchEvent, failed, then_later, closed, read_lines, fswatch_parts, fswatch_line,
  run_fswatch, is_too_long,
}
use taskrunner.Watcher.Scan.{drop_cr-append, printed, IsLine, scan-printed, read_lines-closed}

-- What fswatch reports: the path of a file and the flags of its event. `relative` is the path from
-- the watched directory.
pub record Report : Type 0 where
  pub path : Text
  pub flags : ℕ
  pub relative : Text

abbrev pub line_of : Report → Text
line_of report = report.path ++ 32 ∷ decimal report.flags

abbrev pub event_of : Report → WatchEvent
event_of report = record { flags = report.flags; relative_filename = report.relative }

module _ (paths : FilePaths) (directory : Text) where
  pub record IsReport (report : Report) : Type 0 where
    pub no_space : IsFree 32 report.path
    pub no_newline : IsFree 10 report.path
    pub word : report.flags < 2 ^ 64
    pub short : length (line_of report) ≤ 65535
    pub relative : paths.rel directory report.path ≡ some report.relative

  line_of-IsLine : (report : Report) → IsReport report → IsLine (line_of report)
  line_of-IsLine report h = (
    All-append (λ c. (c == 10) ≡ false) report.path (32 ∷ decimal report.flags) h.no_newline
        (refl, decimal-IsFree 10 report.flags (omega arith)),
    not_long (line_of report) h.short,
    drop_cr-append report.path 32 (decimal report.flags)
        (refl, decimal-IsFree 13 report.flags (omega arith)),
  )
    where
      not_long : (s : Text) → length s ≤ 65535 → is_too_long s ≡ false
      not_long s k = ground arith

  fswatch_line_lem :
      (report : Report)
      → IsReport report
      → fswatch_line paths directory (line_of report) ≡ (event_of report ∷ [], closed)
  unfolding fswatch_line fswatch_parts
  fswatch_line_lem report h =
      ap (fswatch_parts paths directory) (
        split-line 32 [] report.path (decimal report.flags) h.no_space
        ∙ ap (λ l. report.path ∷ l)
            (split-last 32 [] (decimal report.flags)
              (decimal-IsFree 32 report.flags (omega arith))))
      ∙ rw (h.relative, fswatch_parts) (rw (parse_uint-decimal report.flags h.word) refl)

  lines-IsLine : (reports : List Report) → All IsReport reports → All IsLine (map line_of reports)
  lines-IsLine [] h = tt
  lines-IsLine (report ∷ reports) h = (line_of-IsLine report h.0, lines-IsLine reports h.1)

  read_reports :
      (reports : List Report)
      → All IsReport reports
      → read_lines (fswatch_line paths directory) (map line_of reports) closed
        ≡ (map event_of reports, closed)
  unfolding read_lines
  read_reports [] h = refl
  read_reports (report ∷ reports) h =
      read_lines-closed (fswatch_line paths directory) (line_of report) (map line_of reports) closed
        closed (event_of report ∷ []) (map event_of reports) (fswatch_line_lem report h.0)
        (read_reports reports h.1)

  -- From what fswatch prints of events at paths without spaces or line ends, within the length of a
  -- line that a scanner reads, the watcher makes these events in their order, and ends with the
  -- output.
  pub run_fswatch_lem :
      (reports : List Report)
      → All IsReport reports
      → run_fswatch paths directory (printed (map line_of reports)) ≡ (map event_of reports, closed)
  unfolding run_fswatch
  run_fswatch_lem reports h =
      rw (scan-printed (map line_of reports) (lines-IsLine reports h)) (read_reports reports h)

  read_reports-then :
      (reports : List Report) (lines : List Text) (line : Text)
      → All IsReport reports
      → fswatch_line paths directory line ≡ ([], failed)
      → read_lines (fswatch_line paths directory) (map line_of reports ++ line ∷ lines) closed
        ≡ (map event_of reports, failed)
  unfolding read_lines
  read_reports-then [] lines line h e =
      ap (λ l. then_later l (read_lines (fswatch_line paths directory) lines closed)) e
  read_reports-then (report ∷ reports) lines line h e =
      read_lines-closed (fswatch_line paths directory) (line_of report)
        (map line_of reports ++ line ∷ lines) closed failed (event_of report ∷ [])
        (map event_of reports) (fswatch_line_lem report h.0)
        (read_reports-then reports lines line h.1 e)

  spaced_line :
      (front back : Text) (r : Text)
      → IsFree 32 front
      → paths.rel directory front ≡ some r
      → (s : Text) (ss : List Text) → split 32 [] back ≡ s ∷ ss
      → parse_uint s ≡ none
      → fswatch_line paths directory (front ++ 32 ∷ back) ≡ ([], failed)
  unfolding fswatch_line fswatch_parts
  spaced_line front back r free known s ss parts bad =
      ap (fswatch_parts paths directory)
        (split-line 32 [] front back free ∙ ap (λ l. front ∷ l) parts)
      ∙ rw (known, fswatch_parts) (rw bad refl)

  -- A path with a space ends the watcher with an error, unless what stands behind its first space up
  -- to the next one is a number: the events before it are made, those behind it never.
  run_fswatch_spaced :
      (reports : List Report) (front word back r : Text) (lines : List Text)
      → All IsReport reports
      → IsFree 32 front
      → IsFree 32 word
      → parse_uint word ≡ none
      → paths.rel directory front ≡ some r
      → All IsLine (map line_of reports ++ (front ++ 32 ∷ (word ++ 32 ∷ back)) ∷ lines)
      → run_fswatch paths directory
          (printed (map line_of reports ++ (front ++ 32 ∷ (word ++ 32 ∷ back)) ∷ lines))
        ≡ (map event_of reports, failed)
  unfolding run_fswatch
  run_fswatch_spaced reports front word back r lines h free word_free bad known all =
      rw (scan-printed (map line_of reports ++ (front ++ 32 ∷ (word ++ 32 ∷ back)) ∷ lines) all) (
        read_reports-then reports lines (front ++ 32 ∷ (word ++ 32 ∷ back)) h (
          spaced_line front (word ++ 32 ∷ back) r free known word (split 32 [] back)
            (split-line 32 [] word back word_free) bad))
