-- ===== src/Registry/Flags.antt =====
-- The flag map that a successful `Add` leaves.
use taskrunner.Prelude.{
  ◌≡◌, ◌↔◌, ◌⊎◌, refl, ◌∙◌, ap, inl, inr, ◌==◌, if◌then◌else◌, Bool, true, not, ◌&&◌, ◌||◌, Option,
  none, some, List, [], ◌∷◌, Text, text_eq, text_eq_iff, is_empty, utf8, lookup, lookup-insert,
  arith, In, Option-cases, Bool-cases,
}
use taskrunner.Task.{TaskFlag}
use taskrunner.Registry.{
  FlagMap, Panic, duplicate_long_name, duplicate_short_name, check_flag, put_name, and_then,
  add_flag, add_flags,
}

-- The flag goes by this name.
abbrev pub has_key : TaskFlag → Text → Bool
has_key flag k =
    not (is_empty flag.long_name) && text_eq flag.long_name k
    || not (flag.short_name == 0) && text_eq (utf8 flag.short_name) k

put_name-lookup :
    (given : Bool) (name : Text) (flag : TaskFlag) (p : Panic) (m : FlagMap) (k : Text)
    {m' : FlagMap}
    → put_name given name flag p m ≡ (m', none)
    → (lookup k m' ≡ (if given && text_eq name k then some flag else lookup k m))
      × ((given && text_eq name k) ≡ true → lookup k m ≡ none)
unfolding put_name
put_name-lookup given name flag p m k h =
    ground (arith, lookup-insert name k flag m, text_eq_iff name k)

and_then-eq-none :
    (r : FlagMap × Option Panic) (f : FlagMap → FlagMap × Option Panic) {m' : FlagMap}
    → and_then r f ≡ (m', none)
    → (m₁ : FlagMap) × (r ≡ (m₁, none)) × (f m₁ ≡ (m', none))
and_then-eq-none (m, none) f h = (m, refl, h)
and_then-eq-none (m, some p) f h = absurd (ground arith)

-- A flag is added under its own names, which were free.
record IsAdded (name : Text) (flag : TaskFlag) (m m' : FlagMap) (k : Text) : Type 0 where
  passed : check_flag name flag ≡ none
  found : lookup k m' ≡ (if has_key flag k then some flag else lookup k m)
  free : has_key flag k ≡ true → lookup k m ≡ none

add_names :
    (name : Text) (flag : TaskFlag) (m : FlagMap) (k : Text) (m' : FlagMap)
    → check_flag name flag ≡ none
    → and_then
        (put_name (not (is_empty flag.long_name)) flag.long_name flag duplicate_long_name m)
        (put_name (not (flag.short_name == 0)) (utf8 flag.short_name) flag duplicate_short_name)
      ≡ (m', none)
    → IsAdded name flag m m' k
add_names name flag m k m' c h =
    let (m₁, p, q) = and_then-eq-none _ _ h in
    let (found₁, free₁) =
      put_name-lookup (not (is_empty flag.long_name)) flag.long_name flag duplicate_long_name m k
        p in
    let (found₂, free₂) =
      put_name-lookup (not (flag.short_name == 0)) (utf8 flag.short_name) flag duplicate_short_name
        m₁ k q in
    record { passed = c; found = ground arith; free = ground arith }

add_flag-IsAdded :
    (name : Text) (flag : TaskFlag) (m : FlagMap) (k : Text) (m' : FlagMap)
    → add_flag name flag m ≡ (m', none)
    → IsAdded name flag m m' k
unfolding add_flag
add_flag-IsAdded name flag m k m' h = elim (Option-cases (check_flag name flag)) [
  | inr (p, e) ↦ absurd (ground arith)
  | inl e ↦ add_names name flag m k m' e (ground arith)
]

kept :
    (name : Text) (flag : TaskFlag) (m m₁ : FlagMap) (k : Text) (f : TaskFlag)
    → IsAdded name flag m m₁ k
    → lookup k m ≡ some f
    → lookup k m₁ ≡ some f
kept name flag m m₁ k f a g = elim (Bool-cases (has_key flag k)) [
  | inl b ↦ let n = a.free b in absurd (cc)
  | inr b ↦ ground (arith, a.found)
]

-- Under `k` the map has what it had before, or the flag of the list that goes by this name.
abbrev pub Finds : List TaskFlag → Text → FlagMap → TaskFlag → Type 0
Finds flags k m f = (lookup k m ≡ some f) ⊎ (In f flags × (has_key f k ≡ true))

pub add_flags-Finds :
    (name : Text) (flags : List TaskFlag) (m m' : FlagMap) (k : Text)
    → add_flags name flags m ≡ (m', none)
    → (f : TaskFlag) → (lookup k m' ≡ some f) ↔ Finds flags k m f
unfolding add_flags
add_flags-Finds name [] m m' k h f =
    (λ e. inl (ground arith), λ c. elim c [ inl e ↦ ground arith | inr (i, b) ↦ absurd i ])
add_flags-Finds name (flag ∷ flags) m m' k h f =
    let (m₁, p, q) = and_then-eq-none (add_flag name flag m) (add_flags name flags) h in
    let a = add_flag-IsAdded name flag m k m₁ p in
    let (to, back) = add_flags-Finds name flags m₁ m' k q f in
    (
      λ e. elim (to e) [
        | inr (i, b) ↦ inr (inr i, b)
        | inl g ↦ elim (Bool-cases (has_key flag k)) [
          | inl b ↦ inr (inl (ground (arith, a.found)), ground (arith, a.found))
          | inr b ↦ inl (ground (arith, a.found))
        ]
      ],
      λ c. elim c [
        | inr (inr i, b) ↦ back (inr (i, b))
        | inr (inl e, b) ↦ back (inl (ground (arith, a.found)))
        | inl g ↦ back (inl (kept name flag m m₁ k f a g))
      ],
    )

pub add_flags-passed :
    (name : Text) (flags : List TaskFlag) (m m' : FlagMap)
    → add_flags name flags m ≡ (m', none)
    → (f : TaskFlag) → In f flags
    → check_flag name f ≡ none
unfolding add_flags
add_flags-passed name [] m m' h f i = absurd i
add_flags-passed name (flag ∷ flags) m m' h f i =
    let (m₁, p, q) = and_then-eq-none (add_flag name flag m) (add_flags name flags) h in
    elim i [
      | inl e ↦ ap (check_flag name) e ∙ (add_flag-IsAdded name flag m [] m₁ p).passed
      | inr j ↦ add_flags-passed name flags m₁ m' q f j
    ]
