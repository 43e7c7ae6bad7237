-- ===== src/Watcher/Inotifywait.antt =====
-- The output of inotifywait is read back as it was printed, as long as no name has a space.
use taskrunner.Prelude.{
  ℕ, ◌≤◌, ◌<◌, ◌≡◌, refl, ap, ◌∙◌, ◌==◌, false, Option, none, some, List, [], ◌∷◌, ◌++◌, map, Text,
  bytes, text_eq, IsFree, split, split-line, split-last, lookup, length, All, All-append, arith,
}
use taskrunner.Watcher.{
  FilePaths, WatchEvent, closed, read_lines, inotify_events, inotify_parts, inotify_line,
  run_inotifywait, is_too_long, event_flags,
}
use taskrunner.Watcher.Scan.{drop_cr-append, printed, IsLine, scan-printed, read_lines-closed}

-- The names that inotifywait prints of an event. `ISDIR` stands beside another name and is no event
-- of its own.
pub data Kind : Type 0 where
  attrib create delete moved_to_dir moved_from_dir modify is_dir : Kind

abbrev pub name_of : Kind → Text
name_of attrib = bytes "ATTRIB"
name_of create = bytes "CREATE"
name_of delete = bytes "DELETE"
name_of moved_to_dir = bytes "MOVED_TO"
name_of moved_from_dir = bytes "MOVED_FROM"
name_of modify = bytes "MODIFY"
name_of is_dir = bytes "ISDIR"

abbrev pub flag_of : Kind → Option ℕ
flag_of attrib = some 64
flag_of create = some 2
flag_of delete = some 8
flag_of moved_to_dir = some 256
flag_of moved_from_dir = some 128
flag_of modify = some 4
flag_of is_dir = none

abbrev pub joined : Kind → List Kind → Text
joined k [] = name_of k
joined k (l ∷ kinds) = name_of k ++ 44 ∷ joined l kinds

-- What inotifywait reports: a directory with a file in it, and one or more names. `relative` is the
-- path of the file from the watched directory.
pub record Notice : Type 0 where
  pub dir : Text
  pub kind : Kind
  pub kinds : List Kind
  pub file : Text
  pub relative : Text

abbrev pub notice_line : Notice → Text
notice_line n = n.dir ++ 32 ∷ (joined n.kind n.kinds ++ 32 ∷ n.file)

abbrev pub flagged : Text → Option ℕ → List WatchEvent
flagged relative none = []
flagged relative (some flag) = record { flags = flag; relative_filename = relative } ∷ []

abbrev pub kind_events : Text → List Kind → List WatchEvent
kind_events relative [] = []
kind_events relative (k ∷ kinds) = flagged relative (flag_of k) ++ kind_events relative kinds

abbrev pub events_of : List Notice → List WatchEvent
events_of [] = []
events_of (n ∷ notices) = kind_events n.relative (n.kind ∷ n.kinds) ++ events_of notices

-- A byte that is no capital letter and no underscore.
abbrev IsOutside : ℕ → Type 0
IsOutside b = b < 65

name_of-IsFree : (b : ℕ) (k : Kind) → IsOutside b → IsFree b (name_of k)
name_of-IsFree b attrib h = ground arith
name_of-IsFree b create h = ground arith
name_of-IsFree b delete h = ground arith
name_of-IsFree b moved_to_dir h = ground arith
name_of-IsFree b moved_from_dir h = ground arith
name_of-IsFree b modify h = ground arith
name_of-IsFree b is_dir h = ground arith

joined-IsFree :
    (b : ℕ) (k : Kind) (kinds : List Kind)
    → IsOutside b
    → (44 == b) ≡ false
    → IsFree b (joined k kinds)
joined-IsFree b k [] h c = name_of-IsFree b k h
joined-IsFree b k (l ∷ kinds) h c =
    All-append (λ a. (a == b) ≡ false) (name_of k) (44 ∷ joined l kinds) (name_of-IsFree b k h)
      (c, joined-IsFree b l kinds h c)

split-joined :
    (k : Kind) (kinds : List Kind) → split 44 [] (joined k kinds) ≡ map name_of (k ∷ kinds)
split-joined k [] = split-last 44 [] (name_of k) (name_of-IsFree 44 k (omega arith))
split-joined k (l ∷ kinds) =
    split-line 44 [] (name_of k) (joined l kinds) (name_of-IsFree 44 k (omega arith))
    ∙ ap (λ names. name_of k ∷ names) (split-joined l kinds)

lookup-name_of : (k : Kind) → lookup (name_of k) event_flags ≡ flag_of k
unfolding lookup text_eq
lookup-name_of attrib = refl
lookup-name_of create = refl
lookup-name_of delete = refl
lookup-name_of moved_to_dir = refl
lookup-name_of moved_from_dir = refl
lookup-name_of modify = refl
lookup-name_of is_dir = refl

event_step :
    (relative : Text) (k : Kind) (names : List Text) (later : List WatchEvent) (flag : Option ℕ)
    → lookup (name_of k) event_flags ≡ flag
    → inotify_events relative names ≡ later
    → inotify_events relative (name_of k ∷ names) ≡ flagged relative flag ++ later
unfolding inotify_events
event_step relative k names later none e h = rw (e, inotify_events) h
event_step relative k names later (some flag) e h =
    rw (e, inotify_events) (ap (λ l. record { flags = flag; relative_filename = relative } ∷ l) h)

inotify_events-names :
    (relative : Text) (kinds : List Kind)
    → inotify_events relative (map name_of kinds) ≡ kind_events relative kinds
unfolding inotify_events
inotify_events-names relative [] = refl
inotify_events-names relative (k ∷ kinds) =
    event_step relative k (map name_of kinds) (kind_events relative kinds) (flag_of k)
      (lookup-name_of k) (inotify_events-names relative kinds)

module _ (paths : FilePaths) (directory : Text) where
  pub record IsNotice (n : Notice) : Type 0 where
    pub dir_no_space : IsFree 32 n.dir
    pub dir_no_newline : IsFree 10 n.dir
    pub file_no_space : IsFree 32 n.file
    pub file_no_newline : IsFree 10 n.file
    pub file_no_return : IsFree 13 n.file
    pub short : length (notice_line n) ≤ 65535
    pub relative : paths.rel directory (paths.join n.dir n.file) ≡ some n.relative

  not_long : (s : Text) → length s ≤ 65535 → is_too_long s ≡ false
  not_long s k = ground arith

  notice_line-IsLine : (n : Notice) → IsNotice n → IsLine (notice_line n)
  notice_line-IsLine n h = (
    All-append (λ c. (c == 10) ≡ false) n.dir (32 ∷ (joined n.kind n.kinds ++ 32 ∷ n.file))
        h.dir_no_newline
        (
          refl,
          All-append (λ c. (c == 10) ≡ false) (joined n.kind n.kinds) (32 ∷ n.file)
              (joined-IsFree 10 n.kind n.kinds (omega arith) refl) (refl, h.file_no_newline),
        ),
    not_long (notice_line n) h.short,
    drop_cr-append n.dir 32 (joined n.kind n.kinds ++ 32 ∷ n.file) (
      refl,
      All-append (λ c. (c == 13) ≡ false) (joined n.kind n.kinds) (32 ∷ n.file)
          (joined-IsFree 13 n.kind n.kinds (omega arith) refl) (refl, h.file_no_return),
    ),
  )

  split-notice_line :
      (n : Notice)
      → IsNotice n
      → split 32 [] (notice_line n) ≡ n.dir ∷ joined n.kind n.kinds ∷ n.file ∷ []
  split-notice_line n h =
      split-line 32 [] n.dir (joined n.kind n.kinds ++ 32 ∷ n.file) h.dir_no_space
      ∙ ap (λ l. n.dir ∷ l)
          (split-line 32 [] (joined n.kind n.kinds) n.file
              (joined-IsFree 32 n.kind n.kinds (omega arith) refl)
            ∙ ap (λ l. joined n.kind n.kinds ∷ l) (split-last 32 [] n.file h.file_no_space))

  inotify_line_lem :
      (n : Notice)
      → IsNotice n
      → inotify_line paths directory (notice_line n)
        ≡ (kind_events n.relative (n.kind ∷ n.kinds), closed)
  unfolding inotify_line inotify_parts
  inotify_line_lem n h =
      ap (inotify_parts paths directory) (split-notice_line n h)
      ∙ rw (h.relative, inotify_parts)
          (ap (λ l. (l, closed))
            (ap (inotify_events n.relative) (split-joined n.kind n.kinds)
              ∙ inotify_events-names n.relative (n.kind ∷ n.kinds)))

  lines-IsLine :
      (notices : List Notice) → All IsNotice notices → All IsLine (map notice_line notices)
  lines-IsLine [] h = tt
  lines-IsLine (n ∷ notices) h = (notice_line-IsLine n h.0, lines-IsLine notices h.1)

  read_notices :
      (notices : List Notice)
      → All IsNotice notices
      → read_lines (inotify_line paths directory) (map notice_line notices) closed
        ≡ (events_of notices, closed)
  unfolding read_lines
  read_notices [] h = refl
  read_notices (n ∷ notices) h =
      read_lines-closed (inotify_line paths directory) (notice_line n) (map notice_line notices)
        closed closed (kind_events n.relative (n.kind ∷ n.kinds)) (events_of notices)
        (inotify_line_lem n h.0) (read_notices notices h.1)

  -- From what inotifywait prints of files and directories without spaces or line ends, within the
  -- length of a line that a scanner reads, the watcher makes one event for each name of a line that
  -- it knows, in their order, and ends with the output.
  pub run_inotifywait_lem :
      (notices : List Notice)
      → All IsNotice notices
      → run_inotifywait paths directory (printed (map notice_line notices))
        ≡ (events_of notices, closed)
  unfolding run_inotifywait
  run_inotifywait_lem notices h =
      rw (scan-printed (map notice_line notices) (lines-IsLine notices h)) (read_notices notices h)
