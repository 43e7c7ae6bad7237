-- ===== src/Prelude/Spaces.antt =====
-- `strings.TrimSpace`, on the UTF-8 encodings of the white space of Unicode.
use Prim.Native.Nat.{ℕ, zero, suc}
use mathlib.Core.Bool.{Bool, ◌&&◌, ◌||◌}
use mathlib.Core.List.{[], ◌∷◌}
use taskrunner.Prelude.Tests.{leb, ◌==◌, if◌then◌else◌}
use taskrunner.Prelude.Bytes.{Text, is_empty}

abbrev is_ascii_space : ℕ → Bool
is_ascii_space c = c == 32 || leb 9 c && leb c 13

-- The three-byte encodings: U+1680, U+2000 to U+200A, U+2028, U+2029, U+202F, U+205F, U+3000.
abbrev is_wide_space : ℕ → ℕ → ℕ → Bool
is_wide_space c d e =
    c == 0xe1 && d == 0x9a && e == 0x80
    || c == 0xe2 && d == 0x80 && (leb 0x80 e && leb e 0x8a || e == 0xa8 || e == 0xa9 || e == 0xaf)
    || c == 0xe2 && d == 0x81 && e == 0x9f
    || c == 0xe3 && d == 0x80 && e == 0x80

-- The bytes of the space that a text begins with, 0 if it begins with none.
unfoldable pub space_width : Text → ℕ
space_width [] = 0
space_width (c ∷ []) = if is_ascii_space c then 1 else 0
space_width (c ∷ d ∷ []) =
    if is_ascii_space c then 1 else if c == 0xc2 && (d == 0x85 || d == 0xa0) then 2 else 0
space_width (c ∷ d ∷ e ∷ s) =
    if is_ascii_space c
    then 1
    else if c == 0xc2 && (d == 0x85 || d == 0xa0)
    then 2
    else if is_wide_space c d e
    then 3
    else 0

-- The text behind `n` bytes, and behind the spaces that follow them.
unfoldable pub skip_spaces : ℕ → Text → Text
skip_spaces n [] = []
skip_spaces (suc n) (c ∷ s) = skip_spaces n s
skip_spaces zero (c ∷ s) = elim (space_width (c ∷ s)) [ zero ↦ c ∷ s | suc n ↦ skip_spaces n s ]

-- A text up to the spaces that it ends with. No encoding of a space ends in another, so reading
-- backwards, as the library does, finds the same end.
unfoldable pub drop_spaces : Text → Text
unfolding skip_spaces
drop_spaces [] = []
drop_spaces (c ∷ s) =
    let rest = drop_spaces s in if is_empty (skip_spaces 0 (c ∷ s)) then [] else c ∷ rest

unfoldable pub trim_space : Text → Text
unfolding skip_spaces drop_spaces space_width
trim_space s = drop_spaces (skip_spaces 0 s)
