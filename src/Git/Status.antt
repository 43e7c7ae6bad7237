-- ===== src/Git/Status.antt =====
-- What the cache reads of `git status --porcelain`.
use taskrunner.Prelude.{
  ℕ, ◌≡◌, refl, ap, ◌∙◌, Bool, false, ◌&&◌, ◌==◌, some, List, [], ◌∷◌, ◌++◌, Text, bytes, length,
  ltb, append-nil, append_one, All, has_prefix, arith,
}
use taskrunner.Git.{trim_space, read_status, read_statuses, uncommitted_files}
use taskrunner.Git.Lines.{IsLine, printed, split_stdout_lem}

-- An untracked file, or a file with the two letters of its state.
pub data Status : Type 0 where
  untracked : Text → Status
  changed : ℕ → ℕ → Text → Status

abbrev pub line_of : Status → Text
line_of (untracked path) = bytes "?? " ++ path
line_of (changed x y path) = x ∷ y ∷ 32 ∷ path

abbrev pub lines_of : List Status → List Text
lines_of [] = []
lines_of (e ∷ es) = line_of e ∷ lines_of es

abbrev pub new_in : List Status → List Text
new_in [] = []
new_in (untracked path ∷ es) = path ∷ new_in es
new_in (changed x y path ∷ es) = new_in es

abbrev pub modified_in : List Status → List Text
modified_in [] = []
modified_in (untracked path ∷ es) = modified_in es
modified_in (changed x y path ∷ es) = path ∷ modified_in es

abbrev is_untracked_state : Status → Bool
is_untracked_state (untracked path) = false
is_untracked_state (changed x y path) = x == 63 && y == 63

-- A line with at least four bytes inside its white space, of which the state of a changed file is
-- not that of an untracked one.
abbrev pub IsStatus : Status → Type 0
IsStatus e =
    IsLine (line_of e)
    × (ltb (length (trim_space (line_of e))) 4 ≡ false)
    × (is_untracked_state e ≡ false)

abbrev next : Status → List Text × List Text → List Text × List Text
next (untracked path) (ns, ms) = (ns ++ path ∷ [], ms)
next (changed x y path) (ns, ms) = (ns, ms ++ path ∷ [])

has_prefix_two : (x y : ℕ) (s : Text) → has_prefix (x ∷ y ∷ s) (bytes "??") ≡ (x == 63 && y == 63)
unfolding has_prefix
has_prefix_two x y s = ground arith

read_status_lem :
    (e : Status) (files : List Text × List Text)
    → IsStatus e
    → read_status (line_of e) files ≡ next e files
unfolding has_prefix read_status
read_status_lem (untracked path) (ns, ms) h = rw (h.1, read_status) refl
read_status_lem (changed x y path) (ns, ms) h =
    rw (h.1, has_prefix_two x y (32 ∷ path), h.2, read_status) refl

read_statuses_lem :
    (es : List Status) (ns ms : List Text)
    → All IsStatus es
    → read_statuses (lines_of es) (ns, ms) ≡ (ns ++ new_in es, ms ++ modified_in es)
unfolding read_statuses
read_statuses_lem [] ns ms h = rw (append-nil ns, append-nil ms) refl
read_statuses_lem (untracked path ∷ es) ns ms h =
    rw (read_status_lem (untracked path) (ns, ms) h.0, read_statuses)
      (read_statuses_lem es (ns ++ path ∷ []) ms h.1
        ∙ ap (λ l. (l, ms ++ modified_in es)) (append_one ns path (new_in es)))
read_statuses_lem (changed x y path ∷ es) ns ms h =
    rw (read_status_lem (changed x y path) (ns, ms) h.0, read_statuses)
      (read_statuses_lem es ns (ms ++ path ∷ []) h.1
        ∙ ap (λ l. (ns ++ new_in es, l)) (append_one ms path (modified_in es)))

All-IsLine : (es : List Status) → All IsStatus es → All IsLine (lines_of es)
All-IsLine [] h = tt
All-IsLine (e ∷ es) h = (h.0.0, All-IsLine es h.1)

-- From what git prints, the untracked files are read as new and all others as modified, in their
-- order, where every line has at least four bytes inside its white space. From an empty output no
-- file is read.
pub uncommitted_files_lem :
    (es : List Status)
    → All IsStatus es
    → uncommitted_files (some (printed (lines_of es))) ≡ some (new_in es, modified_in es)
unfolding uncommitted_files
uncommitted_files_lem [] h = refl
uncommitted_files_lem (e ∷ es) h =
    let (q, z) = split_stdout_lem (line_of e) (lines_of es) h.0.0 (All-IsLine es h.1) in
    rw q (ap (λ files. some files) (read_statuses_lem (e ∷ es) [] [] h))
