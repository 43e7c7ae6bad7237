-- ===== src/Registry/Sorting.antt =====
-- The order in which `Tasks` lists the tasks of a registry.
use taskrunner.Prelude.{
  ℕ, ◌+◌, ◌≡◌, refl, subst, sym, ◌==◌, if◌then◌else◌, Bool, true, false, List, [], ◌∷◌, Text, arith,
  inl, inr, Bool-cases,
}
use taskrunner.Task.{Task}
use taskrunner.Registry.{Registry, text_le, insert_sorted, sort_tasks, tasks}

text_le_total : (s t : Text) → text_le s t ≡ false → text_le t s ≡ true
unfolding text_le
text_le_total [] t h = absurd (ground arith)
text_le_total (c ∷ s) [] h = refl
text_le_total (c ∷ s) (d ∷ t) h = ground (arith, text_le_total s t)

abbrev pub count : ℕ → List ℕ → ℕ
count t [] = 0
count t (u ∷ us) = (if u == t then 1 else 0) + count t us

abbrev pub values : List (Text × ℕ) → List ℕ
values [] = []
values ((name, t) ∷ m) = t ∷ values m

module _ (definition : ℕ → Task) where
  abbrev pub precedes : ℕ → ℕ → Bool
  precedes t u = text_le (definition t).name (definition u).name

  -- Each task's name is at most that of the next.
  abbrev pub IsSorted : List ℕ → Type 0
  IsSorted [] = Unit
  IsSorted (t ∷ []) = Unit
  IsSorted (t ∷ u ∷ us) = (precedes t u ≡ true) × IsSorted (u ∷ us)

  behind_head :
      (t u : ℕ) (us l : List ℕ) → l ≡ t ∷ us → precedes u t ≡ true → IsSorted l → IsSorted (u ∷ l)
  behind_head t u us l e h s = subst (λ k. IsSorted (u ∷ k)) (sym e) (h, subst IsSorted e s)

  -- A task that is put behind the head.
  behind :
      (t u v : ℕ) (vs : List ℕ)
      → precedes u t ≡ true
      → precedes u v ≡ true
      → IsSorted (insert_sorted definition t (v ∷ vs))
      → IsSorted (u ∷ insert_sorted definition t (v ∷ vs))
  unfolding insert_sorted
  behind t u v vs after h rest = elim (Bool-cases (precedes t v)) [
    | inl e ↦ behind_head t u (v ∷ vs) _ (rw e refl) after rest
    | inr e ↦ behind_head v u (insert_sorted definition t vs) _ (rw e refl) h rest
  ]

  pub insert_sorted-IsSorted :
      (t : ℕ) (us : List ℕ) → IsSorted us → IsSorted (insert_sorted definition t us)
  unfolding insert_sorted
  insert_sorted-IsSorted t [] h = tt
  insert_sorted-IsSorted t (u ∷ []) h = elim (Bool-cases (precedes t u)) [
    | inl e ↦ rw e (e, tt)
    | inr e ↦ rw e (text_le_total (definition t).name (definition u).name e, tt)
  ]
  insert_sorted-IsSorted t (u ∷ v ∷ vs) h =
      let rest = insert_sorted-IsSorted t (v ∷ vs) h.1 in
      elim (Bool-cases (precedes t u)) [
        | inl e ↦ rw e (e, h)
        | inr e ↦
            let after = text_le_total (definition t).name (definition u).name e in
            rw e (behind t u v vs after h.0 rest)
      ]

  pub count-insert_sorted :
      (t u : ℕ) (us : List ℕ)
      → count u (insert_sorted definition t us) ≡ (if t == u then 1 else 0) + count u us
  unfolding insert_sorted
  count-insert_sorted t u [] = refl
  count-insert_sorted t u (v ∷ vs) =
      let rest = count-insert_sorted t u vs in
      elim (Bool-cases (precedes t v)) [ inl e ↦ rw e refl | inr e ↦ rw (e, rest) (omega arith) ]

  sort_tasks-IsSorted : (m : List (Text × ℕ)) → IsSorted (sort_tasks definition m)
  unfolding sort_tasks
  sort_tasks-IsSorted [] = tt
  sort_tasks-IsSorted ((name, t) ∷ m) =
      insert_sorted-IsSorted t (sort_tasks definition m) (sort_tasks-IsSorted m)

  count-sort_tasks :
      (m : List (Text × ℕ)) (u : ℕ) → count u (sort_tasks definition m) ≡ count u (values m)
  unfolding sort_tasks
  count-sort_tasks [] u = refl
  count-sort_tasks ((name, t) ∷ m) u =
      rw (count-insert_sorted t u (sort_tasks definition m), count-sort_tasks m u) refl

  -- `Tasks` lists every registered task as often as it is registered and no other, in the order of
  -- their names, byte by byte.
  tasks_lem :
      (r : Registry)
      → IsSorted (tasks definition r)
        × ((t : ℕ) → count t (tasks definition r) ≡ count t (values r.definitions))
  unfolding tasks
  tasks_lem r = (sort_tasks-IsSorted r.definitions, count-sort_tasks r.definitions)
