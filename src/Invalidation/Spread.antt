-- ===== src/Invalidation/Spread.antt =====
-- Which executions an event reaches, and that `Invalidate` returns.
use taskrunner.Prelude.{
  ℕ, ◌≡◌, refl, sym, ap, ◌∙◌, subst, Bool, true, false, ◌||◌, Option, none, some, List, [], ◌∷◌,
  ◌++◌, arith, In, Option-cases, inl, inr, Bool-cases, ==_refl, ◌==◌, any, text_eq_refl,
}
use taskrunner.Task.{
  Task, InvalidationEvent, file_change, dependency_change, keep_alive_stopped, user_restart,
  event_eq,
}
use taskrunner.TaskSet.{TaskExecution, TaskSet, is_invalid}
use taskrunner.Invalidation.{add_pending, refuses, note, note_all}
use taskrunner.Invalidation.Frame.{erase, SameFrame}

-- The execution notes the event: it is not invalid, and its task does not refuse the event.
pub record Accepts (definition : ℕ → Task) (s : TaskSet) (event : InvalidationEvent) (t : ℕ)
    (e : TaskExecution) : Type 0 where
  pub entry : s t ≡ some e
  pub valid : is_invalid e.state ≡ false
  pub wanted : refuses (definition t) event ≡ false

-- An event on `t` goes along executions that note it, each as a change of the one before, and
-- arrives at `u` as the event `v`.
pub data Reaches (definition : ℕ → Task) (s : TaskSet) (u : ℕ) (v : InvalidationEvent)
    : InvalidationEvent → ℕ → Type 0 where
  here :
      {event : InvalidationEvent} {t : ℕ} (e : TaskExecution)
      → Accepts definition s event t e
      → t ≡ u
      → event ≡ v
      → Reaches definition s u v event t
  further :
      {event : InvalidationEvent} {t : ℕ} (e : TaskExecution) (d : ℕ)
      → Accepts definition s event t e
      → In d e.dependents
      → Reaches definition s u v (dependency_change e.definition) d
      → Reaches definition s u v event t

-- The event is pending.
abbrev pub Holds : InvalidationEvent → Option TaskExecution → Type 0
Holds v none = ⊥
Holds v (some e) = any (event_eq v) e.pending_invalidations ≡ true

-- No event that was pending is forgotten.
abbrev pub Grows : TaskSet → TaskSet → Type 0
Grows s s' = (u : ℕ) (v : InvalidationEvent) → Holds v (s u) → Holds v (s' u)

-- An entry of the other set that agrees but for what is pending.
pub same_entry :
    (o o' : Option TaskExecution) (e : TaskExecution)
    → erase o' ≡ erase o
    → o ≡ some e
    → (e' : TaskExecution) × (o' ≡ some e')
      × (e'.state ≡ e.state)
      × (e'.dependents ≡ e.dependents)
      × (e'.definition ≡ e.definition)
same_entry o none e h q = absurd (ground arith)
same_entry none (some e') e h q = cc
same_entry (some x) (some e') e h q = (e', refl, ground arith, ground arith, ground arith)

pub Reaches-SameFrame :
    (definition : ℕ → Task) (s s' : TaskSet) (u : ℕ) (v : InvalidationEvent)
    → SameFrame s s'
    → {event : InvalidationEvent} {t : ℕ} → Reaches definition s u v event t
    → Reaches definition s' u v event t
Reaches-SameFrame definition s s' u v same {t = t} (here e a p r) =
    let (e', q, st, ds, df) = same_entry (s t) (s' t) e (same t) a.entry in
    here e' (record { entry = q; valid = ground (arith, a.valid); wanted = a.wanted }) p r
Reaches-SameFrame definition s s' u v same {t = t} (further e d a i r) =
    let (e', q, st, ds, df) = same_entry (s t) (s' t) e (same t) a.entry in
    further e' d (record { entry = q; valid = ground (arith, a.valid); wanted = a.wanted })
      (subst (In d) (sym ds) i)
      (subst (λ x. Reaches definition s' u v (dependency_change x) d) (sym df)
        (Reaches-SameFrame definition s s' u v same r))

event_eq_refl : (v : InvalidationEvent) → event_eq v v ≡ true
unfolding event_eq
event_eq_refl (file_change f) = text_eq_refl f
event_eq_refl (dependency_change t) = ==_refl t
event_eq_refl keep_alive_stopped = refl
event_eq_refl user_restart = refl

any-append :
    {A : Type 0} (p : A → Bool) (xs ys : List A) → any p (xs ++ ys) ≡ (any p xs || any p ys)
any-append p [] ys = refl
any-append p (x ∷ xs) ys = ground (arith, any-append p xs ys)

add_pending-keeps :
    (v event : InvalidationEvent) (l : List InvalidationEvent)
    → any (event_eq v) l ≡ true
    → any (event_eq v) (add_pending event l) ≡ true
unfolding add_pending
add_pending-keeps v event l h = elim (Bool-cases (any (event_eq event) l)) [
  | inl b ↦ rw b h
  | inr b ↦ rw b (any-append (event_eq v) l (event ∷ []) ∙ rw h refl)
]

add_pending-new :
    (event : InvalidationEvent) (l : List InvalidationEvent)
    → any (event_eq event) (add_pending event l) ≡ true
unfolding add_pending
add_pending-new event l = elim (Bool-cases (any (event_eq event) l)) [
  | inl b ↦ rw b b
  | inr b ↦ rw b (any-append (event_eq event) l (event ∷ []) ∙ rw (b, event_eq_refl event) refl)
]

pub note-Holds :
    (s : TaskSet) (t : ℕ) (e : TaskExecution) (event : InvalidationEvent)
    → Holds event (note s t e event t)
note-Holds s t e event = rw (==_refl t) (add_pending-new event e.pending_invalidations)

pub note-Grows :
    (s : TaskSet) (t : ℕ) (e : TaskExecution) (event : InvalidationEvent)
    → s t ≡ some e
    → Grows s (note s t e event)
note-Grows s t e event q u v h = elim (Bool-cases (u == t)) [
  | inl b ↦
      let same : u ≡ t = ground arith in
      rw b (add_pending-keeps v event e.pending_invalidations (subst (Holds v) (ap s same ∙ q) h))
  | inr b ↦ rw b h
]

module _ (definition : ℕ → Task) where
  abbrev pub Spreads : InvalidationEvent → ℕ → TaskSet → Option (TaskSet × Bool) → Type 0
  Spreads event t s none = Unit
  Spreads event t s (some (s', b)) =
      Grows s s'
      × ((u : ℕ) (v : InvalidationEvent) → Reaches definition s u v event t → Holds v (s' u))

  abbrev pub SpreadsAll : InvalidationEvent → List ℕ → TaskSet → Option (TaskSet × Bool) → Type 0
  SpreadsAll event ds s none = Unit
  SpreadsAll event ds s (some (s', b)) =
      Grows s s'
      × ((u d : ℕ) (v : InvalidationEvent)
          → In d ds
          → Reaches definition s u v event d
          → Holds v (s' u))

  SpreadsAll-cons :
      (event : InvalidationEvent) (d : ℕ) (ds : List ℕ) (s s₁ : TaskSet) (b : Bool)
      (o : Option (TaskSet × Bool))
      → SameFrame s s₁
      → Spreads event d s (some (s₁, b))
      → SpreadsAll event ds s₁ o
      → SpreadsAll event (d ∷ ds) s o
  SpreadsAll-cons event d ds s s₁ b none same first rest = tt
  SpreadsAll-cons event d ds s s₁ b (some (s', b')) same first rest = (
    λ u v h. rest.0 u v (first.0 u v h),
    λ u x v i r. elim i [
      | inl e ↦ rest.0 u v (first.1 u v (subst (Reaches definition s u v event) e r))
      | inr j ↦ rest.1 u x v j (Reaches-SameFrame definition s s₁ u v same r)
    ],
  )

  pub note_all-SpreadsAll :
      (event : InvalidationEvent) (rec : ℕ → TaskSet → Option (TaskSet × Bool))
      → ((d : ℕ) (s : TaskSet) → Spreads event d s (rec d s))
      → ((d : ℕ) (s s' : TaskSet) (b : Bool) → rec d s ≡ some (s', b) → SameFrame s s')
      → (ds : List ℕ) (s : TaskSet) → SpreadsAll event ds s (note_all rec ds s)
  unfolding note_all
  note_all-SpreadsAll event rec spreads frame [] s = (λ u v h. h, λ u d v i r. absurd i)
  note_all-SpreadsAll event rec spreads frame (d ∷ ds) s = elim (Option-cases (rec d s)) [
    | inl e ↦ rw (e, note_all) tt
    | inr ((s₁, b), e) ↦
        rw (e, note_all)
          (SpreadsAll-cons event d ds s s₁ b (note_all rec ds s₁) (frame d s s₁ b e)
            (subst (Spreads event d s) e (spreads d s))
            (note_all-SpreadsAll event rec spreads frame ds s₁))
  ]
