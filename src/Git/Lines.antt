-- ===== src/Git/Lines.antt =====
-- The lines of git's output are read back as they were written.
use taskrunner.Prelude.{
  ℕ, ◌≡◌, refl, ap, ◌∙◌, if◌then◌else◌, true, false, ◌&&◌, List, [], ◌∷◌, ◌++◌, Text, is_empty,
  split, split-line, split-last, append-nil, arith, All,
}
use taskrunner.Git.{trim_left, trim_right, is_newline, strip_stdout, split_stdout}

-- A line as git prints it: not empty, and without a newline.
abbrev pub HasNoNewline : Text → Type 0
HasNoNewline line = All (λ c. is_newline c ≡ false) line

abbrev pub IsLine : Text → Type 0
IsLine line = (is_empty line ≡ false) × HasNoNewline line

-- Every line is followed by a newline.
abbrev pub printed : List Text → Text
printed [] = []
printed (line ∷ lines) = line ++ 10 ∷ printed lines

abbrev pub joined : Text → List Text → Text
joined line [] = line
joined line (next ∷ lines) = line ++ 10 ∷ joined next lines

kept :
    (c : ℕ) (rest : Text)
    → is_newline c ≡ false
    → (if is_empty rest && is_newline c then [] else c ∷ rest) ≡ c ∷ rest
kept c rest h = ground arith

newline_kept :
    (rest : Text)
    → is_empty rest ≡ false
    → (if is_empty rest && true then [] else 10 ∷ rest) ≡ 10 ∷ rest
newline_kept rest h = rw h refl

split-joined :
    (line : Text) (lines : List Text)
    → HasNoNewline line
    → All HasNoNewline lines
    → split 10 [] (joined line lines) ≡ line ∷ lines
split-joined line [] h hs = split-last 10 [] line h
split-joined line (next ∷ lines) h hs =
    split-line 10 [] line (joined next lines) h
    ∙ ap (λ l. line ∷ l) (split-joined next lines hs.0 hs.1)

trim_right-line :
    (line rest : Text)
    → HasNoNewline line
    → trim_right is_newline (line ++ rest) ≡ line ++ trim_right is_newline rest
unfolding trim_right
trim_right-line [] rest h = refl
trim_right-line (c ∷ line) rest h =
    rw (trim_right-line line rest h.1) (kept c (line ++ trim_right is_newline rest) h.0)

joined_nonempty :
    (line : Text) (lines : List Text) → IsLine line → is_empty (joined line lines) ≡ false
joined_nonempty [] lines h = absurd (ground (arith, h.0))
joined_nonempty (c ∷ line) [] h = refl
joined_nonempty (c ∷ line) (next ∷ lines) h = refl

trim_right-printed :
    (line : Text) (lines : List Text)
    → IsLine line
    → All IsLine lines
    → trim_right is_newline (printed (line ∷ lines)) ≡ joined line lines
unfolding trim_right
trim_right-printed line [] h hs = trim_right-line line (10 ∷ []) h.1 ∙ append-nil line
trim_right-printed line (next ∷ lines) h hs =
    trim_right-line line (10 ∷ printed (next ∷ lines)) h.1
    ∙ ap (λ s. line ++ s)
        (rw (trim_right-printed next lines hs.0 hs.1)
          (newline_kept (joined next lines) (joined_nonempty next lines hs.0)))

trim_left-line :
    (line rest : Text) → IsLine line → trim_left is_newline (line ++ rest) ≡ line ++ rest
unfolding trim_left
trim_left-line [] rest h = absurd (ground (arith, h.0))
trim_left-line (c ∷ line) rest h = rw h.1.0 refl

All-lines : (lines : List Text) → All IsLine lines → All HasNoNewline lines
All-lines [] h = tt
All-lines (line ∷ lines) h = (h.0.1, All-lines lines h.1)

-- From the output of git, the lines are read as git printed them, each with a newline after it.
-- From an empty output, a single empty line is read.
pub split_stdout_lem :
    (line : Text) (lines : List Text)
    → IsLine line
    → All IsLine lines
    → (split_stdout (printed (line ∷ lines)) ≡ line ∷ lines) × (split_stdout [] ≡ [] ∷ [])
unfolding split_stdout strip_stdout
split_stdout_lem line lines h hs = (
  rw (trim_left-line line (10 ∷ printed lines) h)
      (rw (trim_right-printed line lines h hs) (split-joined line lines h.1 (All-lines lines hs))),
  refl,
)
