-- ===== src/Watcher.antt =====
-- watcher/watcher.go: how the output of fswatch and of inotifywait becomes events. The functions of
-- path/filepath are a record of parameters.
pub mod Scan
pub mod Fswatch
pub mod Inotifywait
use taskrunner.Prelude.{
  ℕ, ◌^◌, ◌==◌, if◌then◌else◌, Bool, true, false, Option, none, some, List, [], ◌∷◌, ◌++◌, Text,
  bytes, text_eq, is_empty, split, length, ltb, lookup,
}
use taskrunner.Prelude.Decimal.{parse_uint}

pub record FilePaths : Type 0 where
  pub rel : Text → Text → Option Text  -- `filepath.Rel`, `none` for an error
  pub join : Text → Text → Text

-- `NumericEventFlag`
abbrev pub updated : ℕ
updated = 4

abbrev pub removed : ℕ
removed = 8

abbrev pub created : ℕ
created = 2

abbrev pub attribute_modified : ℕ
attribute_modified = 64

abbrev pub moved_from : ℕ
moved_from = 128

abbrev pub moved_to : ℕ
moved_to = 256

-- `WatchEvent`, without the time at which it was received.
pub record WatchEvent : Type 0 where
  pub flags : ℕ
  pub relative_filename : Text

-- How a goroutine that reads lines comes to its end: with the end of the output, with an error that
-- it returns, or with a panic.
pub data End : Type 0 where
  closed failed panicked : End

-- `bufio.ScanLines` drops one carriage return at the end of a line.
unfoldable pub drop_cr : Text → Text
drop_cr [] = []
drop_cr (c ∷ []) = if c == 13 then [] else c ∷ []
drop_cr (c ∷ d ∷ s) = c ∷ drop_cr (d ∷ s)

-- A line that does not fit into the 64 KiB of a `bufio.Scanner` ends the scan with an error.
abbrev pub is_too_long : Text → Bool
is_too_long line = ltb 65535 (length line)

-- The tokens of a scanner among the lines of a text, and how the scan ends.
unfoldable pub tokens : List Text → List Text × End
unfolding drop_cr
tokens [] = ([], closed)
tokens (line ∷ []) =
    if is_empty line
    then ([], closed)
    else if is_too_long line
    then ([], failed)
    else (drop_cr line ∷ [], closed)
tokens (line ∷ next ∷ lines) =
    let (rest, end) = tokens (next ∷ lines) in
    if is_too_long line then ([], failed) else (drop_cr line ∷ rest, end)

unfoldable pub scan : Text → List Text × End
unfolding tokens split
scan output = tokens (split 10 [] output)

-- What the body of a loop makes of a line: events, or the end of the loop behind the events.
abbrev pub Line : Type 0
Line = List WatchEvent × End

-- The rest of a loop after one line.
abbrev pub then_later : Line → Line → Line
then_later (events, closed) (later, last) = (events ++ later, last)
then_later (events, failed) rest = (events, failed)
then_later (events, panicked) rest = (events, panicked)

-- A loop over the lines of a scanner; `end` is how the scan ends.
unfoldable pub read_lines : (Text → Line) → List Text → End → Line
read_lines read [] end = ([], end)
read_lines read (line ∷ lines) end = then_later (read line) (read_lines read lines end)

module _ (paths : FilePaths) (directory : Text) where
  -- The body of the loop of `FSEventsWatcher.Run`, on the parts of a line.
  unfoldable pub fswatch_parts : List Text → Line
  unfolding parse_uint
  fswatch_parts [] = ([], closed)
  fswatch_parts (path ∷ []) = ([], closed)
  fswatch_parts (path ∷ number ∷ parts) = elim (paths.rel directory path) [
    | none ↦ ([], failed)
    | some rel_filename ↦ elim (parse_uint number) [
      | none ↦ ([], failed)
      | some event_flags ↦
          (record { flags = event_flags; relative_filename = rel_filename } ∷ [], closed)
    ]
  ]

  unfoldable pub fswatch_line : Text → Line
  unfolding fswatch_parts split
  fswatch_line line = fswatch_parts (split 32 [] line)

  -- The goroutine of `FSEventsWatcher.Run` on the output of fswatch.
  unfoldable pub run_fswatch : Text → Line
  unfolding fswatch_line scan read_lines
  run_fswatch output = let (lines, end) = scan output in read_lines fswatch_line lines end

abbrev pub event_flags : List (Text × ℕ)
event_flags =
    (bytes "ATTRIB", attribute_modified)
    ∷ (bytes "CREATE", created)
    ∷ (bytes "DELETE", removed)
    ∷ (bytes "MOVED_TO", moved_to)
    ∷ (bytes "MOVED_FROM", moved_from)
    ∷ (bytes "MODIFY", updated)
    ∷ []

-- The loop over the events of a line: a name that is not in the map is skipped.
unfoldable pub inotify_events : Text → List Text → List WatchEvent
unfolding lookup
inotify_events rel_filename [] = []
inotify_events rel_filename (event ∷ events) =
    let rest = inotify_events rel_filename events in
    elim (lookup event event_flags) [
      | none ↦ rest
      | some flag ↦ record { flags = flag; relative_filename = rel_filename } ∷ rest
    ]

module _ (paths : FilePaths) (directory : Text) where
  -- The body of the loop of `INotifyWatcher.Run`, on the parts of a line. It reads the third part
  -- whether there is one or not.
  unfoldable pub inotify_parts : List Text → Line
  unfolding inotify_events split
  inotify_parts (dir ∷ names ∷ file ∷ parts) = elim (paths.rel directory (paths.join dir file)) [
    | none ↦ ([], failed)
    | some rel_filename ↦ (inotify_events rel_filename (split 44 [] names), closed)
  ]
  inotify_parts _ = ([], panicked)

  unfoldable pub inotify_line : Text → Line
  unfolding inotify_parts split
  inotify_line line = inotify_parts (split 32 [] line)

  -- The goroutine of `INotifyWatcher.Run` on the output of inotifywait.
  unfoldable pub run_inotifywait : Text → Line
  unfolding inotify_line scan read_lines
  run_inotifywait output = let (lines, end) = scan output in read_lines inotify_line lines end
