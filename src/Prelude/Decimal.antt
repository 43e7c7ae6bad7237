-- ===== src/Prelude/Decimal.antt =====
-- Numbers in decimal: `%d` of package fmt, and `ParseUint` of package strconv in base ten.
use Prim.Native.Nat.{ℕ, zero, suc, ◌+◌, ◌-◌, ◌*◌, ◌/◌, ◌%◌, ◌^◌, ◌<◌}
use mathlib.Core.Path.{◌≡◌, refl, ◌∙◌}
use mathlib.Core.Logic.{inl, inr}
use mathlib.Core.Bool.{◌||◌}
use mathlib.Core.Option.{Option, none, some}
use mathlib.Core.List.{[], ◌∷◌}
use native.Mathlib.Omega.{arith}
use taskrunner.Prelude.Tests.{ltb, if◌then◌else◌, Bool-cases}
use taskrunner.Prelude.Bytes.{Text}
use taskrunner.Prelude.Splits.{IsFree}

-- The digits of `n` in front of `out`. The fuel is above `n`, which falls in each round.
unfoldable pub digits : ℕ → ℕ → Text → Text
digits zero n out = out
digits (suc f) n out =
    let rest = digits f (n / 10) ((48 + n % 10) ∷ out) in if ltb n 10 then (48 + n) ∷ out else rest

unfoldable pub decimal : ℕ → Text
unfolding digits
decimal n = digits (suc n) n []

-- `ParseUint(s, 10, 64)`: an empty text, a byte that is no digit and a value that does not fit in
-- 64 bits are refused.
unfoldable pub scan_uint : ℕ → Text → Option ℕ
scan_uint n [] = some n
scan_uint n (c ∷ s) =
    let rest = scan_uint (n * 10 + (c - 48)) s in
    if ltb c 48 || ltb 57 c then none else if ltb (n * 10 + (c - 48)) (2 ^ 64) then rest else none

unfoldable pub parse_uint : Text → Option ℕ
unfolding scan_uint
parse_uint [] = none
parse_uint (c ∷ s) = scan_uint 0 (c ∷ s)

scan-digits :
    (f n : ℕ) (out : Text) → n < f → n < 2 ^ 64 → scan_uint 0 (digits f n out) ≡ scan_uint n out
unfolding digits scan_uint
scan-digits zero n out h k = absurd (omega arith)
scan-digits (suc f) n out h k = elim (Bool-cases (ltb n 10)) [
  | inl e ↦ rw e (ground arith)
  | inr e ↦
      rw e
        (scan-digits f (n / 10) ((48 + n % 10) ∷ out) (ground arith) (ground arith) ∙ ground arith)
]

abbrev IsGiven : Text → Type 0
IsGiven [] = ⊥
IsGiven (c ∷ s) = Unit

digits-IsGiven : (f n : ℕ) (out : Text) → IsGiven out → IsGiven (digits f n out)
unfolding digits
digits-IsGiven zero n out h = h
digits-IsGiven (suc f) n out h = elim (Bool-cases (ltb n 10)) [
  | inl e ↦ rw e tt
  | inr e ↦ rw e (digits-IsGiven f (n / 10) ((48 + n % 10) ∷ out) tt)
]

decimal-IsGiven : (n : ℕ) → IsGiven (decimal n)
unfolding decimal digits
decimal-IsGiven n = elim (Bool-cases (ltb n 10)) [
  | inl e ↦ rw e tt
  | inr e ↦ rw e (digits-IsGiven n (n / 10) ((48 + n % 10) ∷ []) tt)
]

parse_given : (s : Text) → IsGiven s → parse_uint s ≡ scan_uint 0 s
unfolding parse_uint
parse_given [] h = elim h [ ]
parse_given (c ∷ s) h = refl

-- What `%d` prints of a 64-bit number is read back.
pub parse_uint-decimal : (n : ℕ) → n < 2 ^ 64 → parse_uint (decimal n) ≡ some n
unfolding decimal scan_uint
parse_uint-decimal n h =
    parse_given (decimal n) (decimal-IsGiven n) ∙ scan-digits (suc n) n [] (omega arith) h

-- A decimal has digits only.
digits-IsFree : (b f n : ℕ) (out : Text) → b < 48 → IsFree b out → IsFree b (digits f n out)
unfolding digits
digits-IsFree b zero n out h k = k
digits-IsFree b (suc f) n out h k = elim (Bool-cases (ltb n 10)) [
  | inl e ↦ rw e (ground arith, k)
  | inr e ↦ rw e (digits-IsFree b f (n / 10) ((48 + n % 10) ∷ out) h (ground arith, k))
]

pub decimal-IsFree : (b n : ℕ) → b < 48 → IsFree b (decimal n)
unfolding decimal
decimal-IsFree b n h = digits-IsFree b (suc n) n [] h tt
