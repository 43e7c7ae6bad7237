-- ===== src/Invalidation/Frame.antt =====
-- `Invalidate` changes the pending invalidations only.
use taskrunner.Prelude.{
  ℕ, zero, suc, ◌≡◌, ◌∙◌, Bool, Option, none, some, List, [], ◌∷◌, arith, Option-cases, inl, inr,
  Bool-cases,
}
use taskrunner.Task.{Task, InvalidationEvent, dependency_change}
use taskrunner.TaskSet.{TaskExecution, TaskSet, is_invalid}
use taskrunner.Invalidation.{refuses, note, note_all, invalidate_event}

abbrev pub erase : Option TaskExecution → Option TaskExecution
erase none = none
erase (some e) = some (record e { pending_invalidations = [] })

-- Two sets that agree but for the pending invalidations.
abbrev pub SameFrame : TaskSet → TaskSet → Type 0
SameFrame s s' = (u : ℕ) → erase (s' u) ≡ erase (s u)

pub note-SameFrame :
    (s : TaskSet) (t : ℕ) (e : TaskExecution) (event : InvalidationEvent)
    → s t ≡ some e
    → SameFrame s (note s t e event)
note-SameFrame s t e event h u = ground arith

-- The calls of `rec` keep the frame, where they return.
abbrev Keeps : (ℕ → TaskSet → Option (TaskSet × Bool)) → Type 0
Keeps rec = (d : ℕ) (s s' : TaskSet) (b : Bool) → rec d s ≡ some (s', b) → SameFrame s s'

note_all-SameFrame :
    (rec : ℕ → TaskSet → Option (TaskSet × Bool))
    → Keeps rec
    → (ds : List ℕ) (s s' : TaskSet) (b : Bool) → note_all rec ds s ≡ some (s', b)
    → SameFrame s s'
unfolding note_all
note_all-SameFrame rec keeps [] s s' b h u = ground arith
note_all-SameFrame rec keeps (d ∷ ds) s s' b h u = elim (Option-cases (rec d s)) [
  | inl e ↦ ground arith
  | inr ((s₁, b₁), e) ↦
      note_all-SameFrame rec keeps ds s₁ s' b (ground arith) u ∙ keeps d s s₁ b₁ e u
]

pub invalidate_event-SameFrame :
    (definition : ℕ → Task) (fuel : ℕ) (event : InvalidationEvent) (t : ℕ) (s s' : TaskSet)
    (b : Bool)
    → invalidate_event definition fuel event t s ≡ some (s', b)
    → SameFrame s s'
unfolding invalidate_event
invalidate_event-SameFrame definition zero event t s s' b h u = ground arith
invalidate_event-SameFrame definition (suc fuel) event t s s' b h u = elim (Option-cases (s t)) [
  | inl q ↦ ground arith
  | inr (e, q) ↦ elim (Bool-cases (is_invalid e.state)) [
    | inl i ↦ ground arith
    | inr i ↦ elim (Bool-cases (refuses (definition t) event)) [
      | inl r ↦ ground arith
      | inr r ↦
          note_all-SameFrame (invalidate_event definition fuel (dependency_change e.definition))
            (λ d. invalidate_event-SameFrame definition fuel (dependency_change e.definition) d)
            e.dependents (note s t e event) s' b (ground arith) u
          ∙ note-SameFrame s t e event q u
    ]
  ]
]
