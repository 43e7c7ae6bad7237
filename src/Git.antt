-- ===== src/Git.antt =====
-- cache/git.go: what the cache reads from the output of git. A command that fails is `none`.
pub mod Lines
pub mod Status
use taskrunner.Prelude.{
  ℕ, zero, suc, ◌==◌, if◌then◌else◌, if_some, Bool, true, false, ◌&&◌, ◌||◌, Option, none, some,
  List, [], ◌∷◌, ◌++◌, Text, bytes, is_empty, has_prefix, length, drop, ltb, leb, split,
}

-- `strings.Trim` of the bytes that `p` holds of.
unfoldable pub trim_left : (ℕ → Bool) → Text → Text
trim_left p [] = []
trim_left p (c ∷ s) = let rest = trim_left p s in if p c then rest else c ∷ s

unfoldable pub trim_right : (ℕ → Bool) → Text → Text
trim_right p [] = []
trim_right p (c ∷ s) = let rest = trim_right p s in if is_empty rest && p c then [] else c ∷ rest

abbrev pub is_newline : ℕ → Bool
is_newline c = c == 10

-- The white space of ASCII. Git quotes the bytes of a path that are outside ASCII.
abbrev pub is_space : ℕ → Bool
is_space c = c == 32 || leb 9 c && leb c 13

unfoldable pub trim_space : Text → Text
unfolding trim_left trim_right
trim_space s = trim_right is_space (trim_left is_space s)

-- `stripStdout`
unfoldable pub strip_stdout : Text → Text
unfolding trim_left trim_right
strip_stdout s = trim_right is_newline (trim_left is_newline s)

-- `splitStdout`
unfoldable pub split_stdout : Text → List Text
unfolding strip_stdout split
split_stdout s = split 10 [] (strip_stdout s)

-- `currentCommit`
unfoldable pub current_commit : Option Text → Option Text
unfolding strip_stdout
current_commit out = if_some out (λ s. some (strip_stdout s))

-- `diff` of the client
unfoldable pub diff : Option Text → Option (List Text)
unfolding split_stdout
diff out = if_some out (λ s. some (split_stdout s))

-- The body of the loop of `uncomittedFiles`.
unfoldable pub read_status : Text → List Text × List Text → List Text × List Text
unfolding trim_space has_prefix
read_status line (new_files, modified_files) =
    if ltb (length (trim_space line)) 4
    then (new_files, modified_files)
    else if has_prefix line (bytes "??")
    then (new_files ++ drop 3 line ∷ [], modified_files)
    else (new_files, modified_files ++ drop 3 line ∷ [])

unfoldable pub read_statuses : List Text → List Text × List Text → List Text × List Text
unfolding read_status
read_statuses [] files = files
read_statuses (line ∷ lines) files = read_statuses lines (read_status line files)

-- `uncomittedFiles`
unfoldable pub uncommitted_files : Option Text → Option (List Text × List Text)
unfolding split_stdout read_statuses
uncommitted_files out = if_some out (λ s. some (read_statuses (split_stdout s) ([], [])))
