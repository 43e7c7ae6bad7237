-- ===== src/FlagArgs/Names.antt =====
-- A flag has one value, by whichever of its names it was passed.
use taskrunner.Prelude.{
  ℕ, ◌≡◌, ◌≢◌, ◌<◌, refl, ◌⊎◌, sym, ◌∙◌, ap, subst, inl, inr, ◌==◌, true, false, none, some, [],
  ◌∷◌, Text, text_eq, text_eq_iff, text_eq_refl, is_empty, utf8, lookup, insert, lookup-insert,
  length, arith, Bool-cases,
}
use taskrunner.Task.{TaskFlag}
use taskrunner.Registry.{FlagMap}
use taskrunner.FlagArgs.{FlagArg, default_arg, passed_arg, ArgMap, default_map, set_arg}

-- A flag map as `Add` makes it: what stands under a name stands under its other name too.
pub record IsFlagMap (r : FlagMap) : Type 0 where
  pub own :
      (k : Text) (f : TaskFlag) → lookup k r ≡ some f → (k ≢ f.long_name) → k ≡ utf8 f.short_name
  pub long :
      (k : Text) (f : TaskFlag)
      → lookup k r ≡ some f
      → is_empty f.long_name ≡ false
      → lookup f.long_name r ≡ some f
  pub short :
      (k : Text) (f : TaskFlag)
      → lookup k r ≡ some f
      → (f.short_name == 0) ≡ false
      → lookup (utf8 f.short_name) r ≡ some f

utf8_ascii : (r : ℕ) → r < 128 → utf8 r ≡ r ∷ []
unfolding utf8
utf8_ascii r h = ground arith

pub default_map-lookup :
    (r : FlagMap) (k : Text)
    → lookup k (default_map r) ≡ (elim (lookup k r) [ none ↦ none | some f ↦ some (default_arg f) ])
unfolding default_map lookup
default_map-lookup [] k = refl
default_map-lookup ((j, f) ∷ r) k = ground (arith, default_map-lookup r k)

set_arg-lookup_ne :
    (key : Text) (g : TaskFlag) (val : Text) (m : ArgMap) (k : Text)
    → k ≢ key
    → (is_empty g.long_name ≡ false → k ≢ g.long_name)
    → ((g.short_name == 0) ≡ false → k ≢ utf8 g.short_name)
    → lookup k (set_arg key g val m) ≡ lookup k m
unfolding set_arg
set_arg-lookup_ne key g val m k a b c =
    let m₁ = insert key (passed_arg g val) m in
    ground (
      arith,
      lookup-insert key k (passed_arg g val) m,
      lookup-insert g.long_name k (passed_arg g val) m₁,
      lookup-insert (utf8 g.short_name) k (passed_arg g val) m₁,
      text_eq_iff key k,
      text_eq_iff g.long_name k,
      text_eq_iff (utf8 g.short_name) k,
    )

-- A flag with a name of two bytes or more and a name of one ASCII character.
pub record HasBoth (r : FlagMap) (f : TaskFlag) : Type 0 where
  pub long : 1 < length f.long_name
  pub short : 0 < f.short_name
  pub ascii : f.short_name < 128
  pub by_long : lookup f.long_name r ≡ some f
  pub by_short : lookup (utf8 f.short_name) r ≡ some f

abbrev pub arg_flag : FlagArg → TaskFlag
arg_flag (default_arg f) = f
arg_flag (passed_arg f v) = f

-- One argument of the flag stands under both of its names.
abbrev pub Agree : TaskFlag → ArgMap → Type 0
Agree f m =
    (arg : FlagArg) × (lookup f.long_name m ≡ some arg)
    × (lookup (utf8 f.short_name) m ≡ some arg)
    × (arg_flag arg ≡ f)

differs : (s t : Text) → text_eq s t ≡ false → s ≢ t
differs s t h e = let p = (text_eq_iff s t).1 e in cc

some_inj {ℓ} : {A : Type ℓ} {a b : A} → some a ≡ some b → a ≡ b
some_inj h = cc

long_nonempty : (s : Text) → 1 < length s → is_empty s ≡ false
long_nonempty [] h = absurd (omega arith)
long_nonempty (c ∷ s) h = refl

module _ (r : FlagMap) (closed : IsFlagMap r) (f : TaskFlag) (both : HasBoth r f) where
  short-length : length (utf8 f.short_name) ≡ 1
  short-length = ap length (utf8_ascii f.short_name both.ascii)

  lengths_differ : utf8 f.short_name ≢ f.long_name
  lengths_differ e =
      let l : length (utf8 f.short_name) ≡ length f.long_name = ap (length {A = ℕ}) e in
      omega (arith, both.long, short-length, l)

  names_differ : text_eq (utf8 f.short_name) f.long_name ≡ false
  names_differ = elim (Bool-cases (text_eq (utf8 f.short_name) f.long_name)) [
    | inl e ↦ absurd (lengths_differ ((text_eq_iff _ _).0 e))
    | inr e ↦ e
  ]

  set_arg_long :
      (val : Text) (m : ArgMap)
      → is_empty val ≡ false
      → set_arg f.long_name f val m
        ≡ insert (utf8 f.short_name) (passed_arg f val) (insert f.long_name (passed_arg f val) m)
  unfolding set_arg
  set_arg_long val m v = ground (arith, text_eq_refl f.long_name, both)

  set_arg_short :
      (val : Text) (m : ArgMap)
      → is_empty val ≡ false
      → set_arg (utf8 f.short_name) f val m
        ≡ insert f.long_name (passed_arg f val) (insert (utf8 f.short_name) (passed_arg f val) m)
  unfolding set_arg
  set_arg_short val m v =
      ground (arith, names_differ, both, short-length, long_nonempty f.long_name)

  twice :
      (k j : Text) (arg : FlagArg) (m : ArgMap)
      → (lookup k (insert k arg (insert j arg m)) ≡ some arg)
        × (lookup j (insert k arg (insert j arg m)) ≡ some arg)
  twice k j arg m = ground (
    arith,
    lookup-insert k k arg (insert j arg m),
    lookup-insert k j arg (insert j arg m),
    lookup-insert j j arg m,
    text_eq_refl k,
    text_eq_refl j,
  )

  -- Passed by either name with a value, the flag is set under both.
  pub set_both :
      (key val : Text) (m : ArgMap)
      → (key ≡ f.long_name) ⊎ (key ≡ utf8 f.short_name)
      → is_empty val ≡ false
      → (lookup f.long_name (set_arg key f val m) ≡ some (passed_arg f val))
        × (lookup (utf8 f.short_name) (set_arg key f val m) ≡ some (passed_arg f val))
  set_both key val m (inl e) v =
      let (a, b) = twice (utf8 f.short_name) f.long_name (passed_arg f val) m in
      rw (e, set_arg_long val m v) (b, a)
  set_both key val m (inr e) v =
      rw (e, set_arg_short val m v) (twice f.long_name (utf8 f.short_name) (passed_arg f val) m)

  -- Another flag leaves both entries alone.
  other_names :
      (key : Text) (g : TaskFlag)
      → lookup key r ≡ some g
      → key ≢ f.long_name
      → key ≢ utf8 f.short_name
      → g ≢ f
  other_names key g h a b e = b (
      subst (λ x. key ≡ utf8 x.short_name) e
        (closed.own key g h (λ p. a (subst (λ x. key ≡ x.long_name) e p))))

  set_other :
      (key : Text) (g : TaskFlag) (val : Text) (m : ArgMap)
      → lookup key r ≡ some g
      → key ≢ f.long_name
      → key ≢ utf8 f.short_name
      → (k : Text) → lookup k r ≡ some f
      → k ≢ key
      → lookup k (set_arg key g val m) ≡ lookup k m
  set_other key g val m h a b k q ne =
      set_arg-lookup_ne key g val m k ne
        (λ i e.
          other_names key g h a b
            (some_inj (sym (closed.long key g h i) ∙ (ap (λ x. lookup x r) (sym e) ∙ q))))
        (λ i e.
          other_names key g h a b
            (some_inj (sym (closed.short key g h i) ∙ (ap (λ x. lookup x r) (sym e) ∙ q))))

  set_arg_empty :
      (key : Text) (g : TaskFlag) (val : Text) (m : ArgMap)
      → is_empty val ≡ true
      → set_arg key g val m ≡ m
  unfolding set_arg
  set_arg_empty key g val m h = rw h

  same_flag : (k : Text) (g : TaskFlag) → lookup k r ≡ some f → lookup k r ≡ some g → g ≡ f
  same_flag k g p q = some_inj (sym q ∙ p)

  set_own-Agree :
      (key : Text) (g : TaskFlag) (val : Text) (m : ArgMap)
      → (key ≡ f.long_name) ⊎ (key ≡ utf8 f.short_name)
      → g ≡ f
      → is_empty val ≡ false
      → Agree f (set_arg key g val m)
  set_own-Agree key g val m own e v =
      subst (λ x. Agree f (set_arg key x val m)) (sym e)
        (let (a, b) = set_both key val m own v in (passed_arg f val, a, b, refl))

  pub set_arg-Agree :
      (key : Text) (g : TaskFlag) (val : Text) (m : ArgMap)
      → lookup key r ≡ some g
      → Agree f m
      → Agree f (set_arg key g val m)
  set_arg-Agree key g val m h agree = elim (Bool-cases (is_empty val)) [
    | inl v ↦ rw (set_arg_empty key g val m v) agree
    | inr v ↦ elim (Bool-cases (text_eq key f.long_name)) [
      | inl e ↦
          let p = (text_eq_iff key f.long_name).0 e in
          set_own-Agree key g val m (inl p)
            (same_flag f.long_name g both.by_long (ap (λ k. lookup k r) (sym p) ∙ h)) v
      | inr e ↦ elim (Bool-cases (text_eq key (utf8 f.short_name))) [
        | inl e' ↦
            let p = (text_eq_iff key (utf8 f.short_name)).0 e' in
            set_own-Agree key g val m (inr p)
              (same_flag (utf8 f.short_name) g both.by_short (ap (λ k. lookup k r) (sym p) ∙ h)) v
        | inr e' ↦
            let a = differs key f.long_name e in
            let b = differs key (utf8 f.short_name) e' in
            let (arg, p, q, own) = agree in
            (
              arg,
              set_other key g val m h a b f.long_name both.by_long (λ x. a (sym x)) ∙ p,
              set_other key g val m h a b (utf8 f.short_name) both.by_short (λ x. b (sym x)) ∙ q,
              own,
            )
      ]
    ]
  ]
