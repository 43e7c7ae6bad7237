-- ===== src/Watch/Calls.antt =====
-- Which tasks a file event invalidates.
use taskrunner.Prelude.{
  ℕ, ◌≡◌, ◌↔◌, refl, sym, subst, ◌∙◌, inl, inr, if◌then◌else◌, Bool, true, false, Option, some,
  List, [], ◌∷◌, Text, In, arith, Option-cases,
}
use taskrunner.Task.{Task, InvalidationEvent, file_change}
use taskrunner.Watch.{is_task_source, invalidations}

some_inj : {A : Type 0} {a b : A} → some a ≡ some b → a ≡ b
some_inj h = cc

clash : {A : Type 0} → false ≡ true → A
clash h = absurd (ground arith)

module _ (glob : Text → Text → Option Bool) (definition : ℕ → Task) (path : Text) where
  abbrev IsTouched : ℕ → Type 0
  IsTouched t = is_task_source glob (definition t) path ≡ some true

  abbrev Wanted : List ℕ → ℕ × InvalidationEvent → Type 0
  Wanted order (t, event) = In t order × IsTouched t × (event ≡ file_change path)

  abbrev Calls : List ℕ → List (ℕ × InvalidationEvent) → Type 0
  Calls order calls = (call : ℕ × InvalidationEvent) → In call calls ↔ Wanted order call

  Calls-touched :
      (t : ℕ) (order : List ℕ) (calls : List (ℕ × InvalidationEvent))
      → IsTouched t
      → Calls order calls
      → Calls (t ∷ order) ((t, file_change path) ∷ calls)
  Calls-touched t order calls h c (u, event) =
      let (to, back) = c (u, event) in
      (
        λ i. elim i [
          | inl e ↦ subst (Wanted (t ∷ order)) (sym e) (inl refl, h, refl)
          | inr j ↦ let (a, b, d) = to j in (inr a, b, d)
        ],
        λ w.
            let (a, b, d) = w in
            elim a [ inl e ↦ inl (rw (e, d) refl) | inr j ↦ inr (back (j, b, d)) ],
      )

  Calls-other :
      (t : ℕ) (order : List ℕ) (calls : List (ℕ × InvalidationEvent))
      → is_task_source glob (definition t) path ≡ some false
      → Calls order calls
      → Calls (t ∷ order) calls
  Calls-other t order calls h c (u, event) =
      let (to, back) = c (u, event) in
      (
        λ i. let (a, b, d) = to i in (inr a, b, d),
        λ w.
            let (a, b, d) = w in
            elim a [
              | inl e ↦ clash (some_inj (sym h ∙ subst IsTouched e b))
              | inr j ↦ back (j, b, d)
            ],
      )

  called :
      (b : Bool) (t : ℕ) (order : List ℕ) (rest calls : List (ℕ × InvalidationEvent))
      → is_task_source glob (definition t) path ≡ some b
      → Calls order rest
      → (if b then (t, file_change path) ∷ rest else rest) ≡ calls
      → Calls (t ∷ order) calls
  called true t order rest calls e c h =
      subst (Calls (t ∷ order)) h (Calls-touched t order rest e c)
  called false t order rest calls e c h = subst (Calls (t ∷ order)) h (Calls-other t order rest e c)

  calls_lem :
      (order : List ℕ) (calls : List (ℕ × InvalidationEvent))
      → invalidations glob definition path order ≡ some calls
      → Calls order calls
  unfolding invalidations
  calls_lem [] calls h = subst (Calls []) (some_inj h) (λ call. (λ i. absurd i, λ w. absurd w.0))
  calls_lem (t ∷ order) calls h = elim (Option-cases (is_task_source glob (definition t) path)) [
    | inl e ↦ absurd (ground arith)
    | inr (b, e) ↦ elim (Option-cases (invalidations glob definition path order)) [
      | inl q ↦ absurd (ground arith)
      | inr (rest, q) ↦ called b t order rest calls e (calls_lem order rest q) (ground arith)
    ]
  ]

  -- Where no pattern ends the program, the calls that a file event leads to are for those tasks of
  -- the set that have the file for a source, and each tells its task of that file.
  pub invalidations_lem :
      (order : List ℕ) (calls : List (ℕ × InvalidationEvent))
      → invalidations glob definition path order ≡ some calls
      → (t : ℕ) (event : InvalidationEvent)
      → In (t, event) calls ↔ (
          In t order
          × (is_task_source glob (definition t) path ≡ some true)
          × (event ≡ file_change path))
  invalidations_lem order calls h t event = calls_lem order calls h (t, event)
