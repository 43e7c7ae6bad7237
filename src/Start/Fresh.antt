-- ===== src/Start/Fresh.antt =====
-- What a started executor satisfies: its graph is complete, and nothing has run.
use taskrunner.Prelude.{
  ℕ, zero, suc, inl, inr, ◌+◌, ◌≡◌, subst, Option, none, some, List, [], ◌∷◌, arith, Option-cases,
}
use taskrunner.Task.{Task}
use taskrunner.TaskSet.{
  invalid, Context, TaskExecution, TaskSet, Build, add_dependent, add_all, register, add,
}

abbrev pub IsUntouched : Option TaskExecution → Type 0
IsUntouched none = Unit
IsUntouched (some e) = (e.state ≡ invalid) × (e.terminal_ch ≡ 0) × (e.pending_invalidations ≡ [])

-- No task of the set has run.
abbrev pub IsFresh : TaskSet → Type 0
IsFresh s = (t : ℕ) → IsUntouched (s t)

abbrev pub Freshens : Option (Build × List ℕ) → Type 0
Freshens none = Unit
Freshens (some (b, deps)) = IsFresh b.tasks

add_dependent-IsFresh : (self d : ℕ) (s : TaskSet) → IsFresh s → IsFresh (add_dependent self d s)
add_dependent-IsFresh self d s f u = ground (arith, f u, f d)

register-Freshens :
    (t : ℕ) (ctx : Context) (o : Option (Build × List ℕ)) → Freshens o → Freshens (register t ctx o)
register-Freshens t ctx none f = tt
register-Freshens t ctx (some (b, deps)) f = λ u. ground (arith, f u)

add_all-Freshens :
    (rec : Context → ℕ → Build → Option (Build × List ℕ))
    → ((ctx : Context) (t : ℕ) (b : Build) → IsFresh b.tasks → Freshens (rec ctx t b))
    → (ctx : Context) (self : ℕ) (ds acc : List ℕ) (b : Build) → IsFresh b.tasks
    → Freshens (add_all rec ctx self ds acc b)
unfolding add_all
add_all-Freshens rec h ctx self [] acc b f = f
add_all-Freshens rec h ctx self (d ∷ ds) acc b f = elim (Option-cases (rec ctx d b)) [
  | inl e ↦ rw (e, add_all) tt
  | inr ((b₁, deps), e) ↦
      rw (e, add_all)
        (add_all-Freshens rec h ctx self ds _ _
          (add_dependent-IsFresh self d b₁.tasks (subst Freshens e (h ctx d b f))))
]

pub add-Freshens :
    (definition : ℕ → Task) (fuel : ℕ) (ctx : Context) (t : ℕ) (b : Build)
    → IsFresh b.tasks
    → Freshens (add definition fuel ctx t b)
unfolding add
add-Freshens definition zero ctx t b f = tt
add-Freshens definition (suc fuel) ctx t b f = elim (Option-cases (b.tasks t)) [
  | inl e ↦
      rw (e, add)
        (register-Freshens t _ _ (
          add_all-Freshens (add definition fuel) (add-Freshens definition fuel) _ t
            (definition t).dependencies [] (record b { next_ctx = b.next_ctx + 1 }) f))
  | inr (x, e) ↦ rw (e, add) f
]
