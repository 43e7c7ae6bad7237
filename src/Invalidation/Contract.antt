-- ===== src/Invalidation/Contract.antt =====
-- `Invalidate` as a whole.
use taskrunner.Prelude.{
  ℕ, zero, suc, ◌≡◌, ◌<◌, refl, ◌∙◌, sym, subst, Bool, false, Option, none, some, List, [], ◌∷◌,
  arith, In, Option-cases, inl, inr, Bool-cases,
}
use taskrunner.Task.{Task, InvalidationEvent, dependency_change}
use taskrunner.TaskSet.{TaskExecution, TaskSet, is_invalid}
use taskrunner.TaskSet.Add.{Returns}
use taskrunner.Invalidation.{refuses, note, note_all, invalidate_event}
use taskrunner.Invalidation.Frame.{SameFrame, note-SameFrame, invalidate_event-SameFrame}
use taskrunner.Invalidation.Spread.{
  Accepts, Reaches, here, further, Holds, Grows, same_entry, Reaches-SameFrame, note-Holds,
  note-Grows, Spreads, SpreadsAll, note_all-SpreadsAll,
}

-- An execution that does not note the event passes it on to none.
not_reached :
    (definition : ℕ → Task) (s : TaskSet) (event v : InvalidationEvent) (t u : ℕ)
    → ((e : TaskExecution) → ¬ (Accepts definition s event t e))
    → ¬ (Reaches definition s u v event t)
not_reached definition s event v t u closed (here e a p q) = closed e a
not_reached definition s event v t u closed (further e d a i r) = closed e a

stay :
    (definition : ℕ → Task) (s : TaskSet) (event : InvalidationEvent) (t : ℕ)
    → ((e : TaskExecution) → ¬ (Accepts definition s event t e))
    → Spreads definition event t s (some (s, false))
stay definition s event t closed =
    (λ u v h. h, λ u v r. absurd (not_reached definition s event v t u closed r))

module _ (definition : ℕ → Task) (s : TaskSet) (event : InvalidationEvent) (t : ℕ)
    (e : TaskExecution) (q : s t ≡ some e) where
  noted_reach :
      (s' : TaskSet)
      → Grows (note s t e event) s'
      → ((u d : ℕ) (v : InvalidationEvent)
          → In d e.dependents
          → Reaches definition (note s t e event) u v (dependency_change e.definition) d
          → Holds v (s' u))
      → (u : ℕ) (v : InvalidationEvent) → Reaches definition s u v event t
      → Holds v (s' u)
  noted_reach s' grows spread u v (here e' a p r) = grows u v (
      subst (λ x. Holds v (note s t e event x)) p
        (subst (λ x. Holds x (note s t e event t)) r (note-Holds s t e event)))
  noted_reach s' grows spread u v (further e' d a i r) =
      let same : e' ≡ e = (let h = a.entry in cc) in
      spread u d v (subst (λ x. In d x.dependents) same i) (
        Reaches-SameFrame definition s (note s t e event) u v (note-SameFrame s t e event q)
          (subst (λ x. Reaches definition s u v (dependency_change x.definition) d) same r))

  noted_spread :
      (o : Option (TaskSet × Bool))
      → SpreadsAll definition (dependency_change e.definition) e.dependents (note s t e event) o
      → Spreads definition event t s o
  noted_spread none h = tt
  noted_spread (some (s', b)) h =
      (λ u v p. h.0 u v (note-Grows s t e event q u v p), noted_reach s' h.0 h.1)

invalidate_event-Spreads :
    (definition : ℕ → Task) (fuel : ℕ) (event : InvalidationEvent) (t : ℕ) (s : TaskSet)
    → Spreads definition event t s (invalidate_event definition fuel event t s)
unfolding invalidate_event
invalidate_event-Spreads definition zero event t s = tt
invalidate_event-Spreads definition (suc fuel) event t s = elim (Option-cases (s t)) [
  | inl q ↦ rw (q, invalidate_event) tt
  | inr (e, q) ↦ elim (Bool-cases (is_invalid e.state)) [
    | inl i ↦ rw (q, i, invalidate_event) (stay definition s event t (λ e' a. ground arith))
    | inr i ↦ elim (Bool-cases (refuses (definition t) event)) [
      | inl r ↦
          rw (q, i, r, invalidate_event)
            (stay definition s event t (λ e' a. let w = a.wanted in cc))
      | inr r ↦
          rw (q, i, r, invalidate_event)
            (noted_spread definition s event t e q _ (
              note_all-SpreadsAll definition (dependency_change e.definition)
                (invalidate_event definition fuel (dependency_change e.definition))
                (invalidate_event-Spreads definition fuel (dependency_change e.definition))
                (λ d s s' b h u.
                  invalidate_event-SameFrame definition fuel (dependency_change e.definition) d s s'
                    b h u)
                e.dependents (note s t e event)))
    ]
  ]
]

-- `height` falls along the dependents, all of which are in the set.
abbrev pub IsLinked : (ℕ → ℕ) → TaskSet → Type 0
IsLinked height s =
    (t : ℕ) (e : TaskExecution)
    → s t ≡ some e
    → (d : ℕ) → In d e.dependents
    → (f : TaskExecution) × (s d ≡ some f) × (height d < height t)

IsLinked-SameFrame :
    (height : ℕ → ℕ) (s s' : TaskSet) → SameFrame s s' → IsLinked height s → IsLinked height s'
IsLinked-SameFrame height s s' same linked t e' q d i =
    let (e, p, st, ds, df) = same_entry (s' t) (s t) e' (sym (same t)) q in
    let (f, r, lt) = linked t e p d (subst (In d) (sym ds) i) in
    let (f', r', st', ds', df') = same_entry (s d) (s' d) f (same d) r in (f', r', lt)

-- Each call of `rec` for one of `ds` returns on a set with the frame of `s`.
note_all-Returns :
    (rec : ℕ → TaskSet → Option (TaskSet × Bool)) (s₀ : TaskSet)
    → ((d : ℕ) (s s' : TaskSet) (b : Bool) → rec d s ≡ some (s', b) → SameFrame s s')
    → (ds : List ℕ) → ((d : ℕ) → In d ds → (s : TaskSet) → SameFrame s₀ s → Returns (rec d s))
    → (s : TaskSet) → SameFrame s₀ s
    → Returns (note_all rec ds s)
unfolding note_all
note_all-Returns rec s₀ frame [] returns s same = tt
note_all-Returns rec s₀ frame (d ∷ ds) returns s same = elim (Option-cases (rec d s)) [
  | inl e ↦ absurd (subst Returns e (returns d (inl refl) s same))
  | inr ((s₁, b), e) ↦
      rw (e, note_all)
        (note_all-Returns rec s₀ frame ds (λ x i. returns x (inr i)) s₁
          (λ u. frame d s s₁ b e u ∙ same u))
]

invalidate_event-Returns :
    (definition : ℕ → Task) (height : ℕ → ℕ) (fuel : ℕ) (event : InvalidationEvent) (t : ℕ)
    (s : TaskSet) (e : TaskExecution)
    → IsLinked height s
    → s t ≡ some e
    → height t < fuel
    → Returns (invalidate_event definition fuel event t s)
unfolding invalidate_event
invalidate_event-Returns definition height zero event t s e linked q h = elim h [ ]
invalidate_event-Returns definition height (suc fuel) event t s e linked q h =
    elim (Bool-cases (is_invalid e.state)) [
      | inl i ↦ rw (q, i, invalidate_event) tt
      | inr i ↦ elim (Bool-cases (refuses (definition t) event)) [
        | inl r ↦ rw (q, i, r, invalidate_event) tt
        | inr r ↦
            rw (q, i, r, invalidate_event)
              (note_all-Returns (invalidate_event definition fuel (dependency_change e.definition))
                s
                (λ d s s' b k u.
                  invalidate_event-SameFrame definition fuel (dependency_change e.definition) d s s'
                    b k u)
                e.dependents
                (λ d j s₁ same.
                  let (f₀, p₀, lt) = linked t e q d j in
                  let (f, p, st, ds, df) = same_entry (s d) (s₁ d) f₀ (same d) p₀ in
                  invalidate_event-Returns definition height fuel (dependency_change e.definition) d
                    s₁ f (IsLinked-SameFrame height s s₁ same linked) p (omega arith))
                (note s t e event) (note-SameFrame s t e event q))
      ]
    ]

-- In a set where the dependents of tasks form no cycle, `Invalidate` returns on enough fuel. It
-- changes nothing but what is pending, and every event that was pending on an execution still is.
-- Afterwards the given event is pending on the task itself if it accepts it, and along executions that
-- accept what they are given, that is, are not invalid and whose tasks do not refuse it, the change of
-- each is pending on those of its dependents that accept it.
pub invalidate_event_lem :
    (definition : ℕ → Task) (height : ℕ → ℕ) (fuel : ℕ) (event : InvalidationEvent) (t : ℕ)
    (s : TaskSet) (e : TaskExecution)
    → IsLinked height s
    → s t ≡ some e
    → height t < fuel
    → (s' : TaskSet) × (b : Bool) × (invalidate_event definition fuel event t s ≡ some (s', b))
      × SameFrame s s'
      × Grows s s'
      × ((u : ℕ) (v : InvalidationEvent) → Reaches definition s u v event t → Holds v (s' u))
invalidate_event_lem definition height fuel event t s e linked q h =
    elim (Option-cases (invalidate_event definition fuel event t s)) [
      | inl n ↦
          absurd (
            subst Returns n
              (invalidate_event-Returns definition height fuel event t s e linked q h))
      | inr ((s', b), p) ↦
          let (grows, spread) =
            subst (Spreads definition event t s) p
              (invalidate_event-Spreads definition fuel event t s) in
          (s', b, p, invalidate_event-SameFrame definition fuel event t s s' b p, grows, spread)
    ]
