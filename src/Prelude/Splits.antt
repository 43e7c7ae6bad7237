-- ===== src/Prelude/Splits.antt =====
-- What `split` makes of a text that is free of the byte it splits at.
use Prim.Native.Nat.{ℕ}
use mathlib.Core.Path.{◌≡◌, ap, sym, ◌∙◌}
use mathlib.Core.Bool.{false}
use mathlib.Core.List.{[], ◌∷◌, ◌++◌, append-nil}
use taskrunner.Prelude.Tests.{◌==◌, ==_refl}
use taskrunner.Prelude.Lists.{All, append_one}
use taskrunner.Prelude.Bytes.{Text, split}

module _ (b : ℕ) where
  abbrev pub IsFree : Text → Type 0
  IsFree s = All (λ c. (c == b) ≡ false) s

  pub split-line :
      (acc line rest : Text)
      → IsFree line
      → split b acc (line ++ b ∷ rest) ≡ (acc ++ line) ∷ split b [] rest
  unfolding split
  split-line acc [] rest h =
      rw (==_refl b, split) (ap (λ s. s ∷ split b [] rest) (sym (append-nil acc)))
  split-line acc (c ∷ line) rest h =
      rw (h.0, split)
        (split-line (acc ++ c ∷ []) line rest h.1
          ∙ ap (λ l. l ∷ split b [] rest) (append_one acc c line))

  pub split-last : (acc line : Text) → IsFree line → split b acc line ≡ (acc ++ line) ∷ []
  unfolding split
  split-last acc [] h = ap (λ s. s ∷ []) (sym (append-nil acc))
  split-last acc (c ∷ line) h =
      rw (h.0, split)
        (split-last (acc ++ c ∷ []) line h.1 ∙ ap (λ l. l ∷ []) (append_one acc c line))
