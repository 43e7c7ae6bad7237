-- ===== src/Watcher/Scan.antt =====
-- A `bufio.Scanner` reads lines as they were printed.
use taskrunner.Prelude.{
  ℕ, ◌≡◌, refl, ap, subst, ◌∙◌, ◌==◌, false, List, [], ◌∷◌, ◌++◌, Text, IsFree, split, split-line,
  All, inl, inr, Bool-cases,
}
use taskrunner.Watcher.{
  then_later, WatchEvent, End, closed, drop_cr, tokens, scan, Line, read_lines, is_too_long,
}

abbrev pub IsGiven : Text → Type 0
IsGiven [] = ⊥
IsGiven (c ∷ s) = Unit

drop_cr-IsFree : (s : Text) → IsFree 13 s → drop_cr s ≡ s
unfolding drop_cr
drop_cr-IsFree [] h = refl
drop_cr-IsFree (c ∷ []) h = rw (h.0) refl
drop_cr-IsFree (c ∷ d ∷ s) h = ap (λ t. c ∷ t) (drop_cr-IsFree (d ∷ s) h.1)

-- Only the last byte of a line counts.
pub drop_cr-append :
    (s : Text) (c : ℕ) (t : Text) → IsFree 13 (c ∷ t) → drop_cr (s ++ c ∷ t) ≡ s ++ c ∷ t
unfolding drop_cr
drop_cr-append [] c t h = drop_cr-IsFree (c ∷ t) h
drop_cr-append (b ∷ []) c t h = ap (λ u. b ∷ u) (drop_cr-append [] c t h)
drop_cr-append (b ∷ a ∷ s) c t h = ap (λ u. b ∷ u) (drop_cr-append (a ∷ s) c t h)

-- Lines as a program prints them, each with its end.
abbrev pub printed : List Text → Text
printed [] = []
printed (line ∷ lines) = line ++ 10 ∷ printed lines

-- A line that is no longer than a scanner allows and that has no carriage return to lose.
abbrev pub IsLine : Text → Type 0
IsLine line = IsFree 10 line × (is_too_long line ≡ false) × (drop_cr line ≡ line)

split-printed_given :
    (lines : List Text) → (s : Text) × (ss : List Text) × (split 10 [] (printed lines) ≡ s ∷ ss)
unfolding split
split-printed_given lines = split_given [] (printed lines)
  where
    split_given : (acc t : Text) → (s : Text) × (ss : List Text) × (split 10 acc t ≡ s ∷ ss)
    split_given acc [] = (acc, [], refl)
    split_given acc (c ∷ t) = elim (Bool-cases (c == 10)) [
      | inl e ↦ (acc, split 10 [] t, rw (e, split) refl)
      | inr e ↦ let (s, ss, q) = split_given (acc ++ c ∷ []) t in (s, ss, rw (e, split) q)
    ]

tokens-cons :
    (line next : Text) (lines : List Text)
    → (is_too_long line ≡ false)
    → (drop_cr line ≡ line)
    → tokens (line ∷ next ∷ lines) ≡ (line ∷ (tokens (next ∷ lines)).0, (tokens (next ∷ lines)).1)
unfolding tokens
tokens-cons line next lines h k = rw (h, k) refl

-- A scanner gives the lines of a text, without their ends.
pub scan-printed : (lines : List Text) → All IsLine lines → scan (printed lines) ≡ (lines, closed)
unfolding scan split tokens
scan-printed [] h = refl
scan-printed (line ∷ lines) h =
    let (free, short, kept) = h.0 in
    let (s, ss, e) = split-printed_given lines in
    let later : tokens (s ∷ ss) ≡ (lines, closed) =
      subst (λ l. tokens l ≡ (lines, closed)) e (scan-printed lines h.1) in
    ap tokens (split-line 10 [] line (printed lines) free)
    ∙ ap (λ l. tokens (line ∷ l)) e
    ∙ tokens-cons line s ss short kept
    ∙ ap (λ p. (line ∷ p.0, p.1)) later

-- A line that does not end the loop adds its events.
pub read_lines-closed :
    (read : Text → Line) (line : Text) (lines : List Text) (end last : End)
    (events later : List WatchEvent)
    → read line ≡ (events, closed)
    → read_lines read lines end ≡ (later, last)
    → read_lines read (line ∷ lines) end ≡ (events ++ later, last)
unfolding read_lines
read_lines-closed read line lines end last events later h k =
    ap (λ l. then_later l (read_lines read lines end)) h ∙ ap (then_later (events, closed)) k
