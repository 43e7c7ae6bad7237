-- ===== src/Schedule/Draining.antt =====
-- A plan on its way to its end, where no end of a task has to be waited for.
use taskrunner.Prelude.{
  ℕ, zero, suc, ◌+◌, ◌≡◌, refl, subst, ◌∙◌, ◌≤◌, ==_refl, inl, inr, true, false, some, List, [],
  ◌∷◌, All, arith, Bool-cases, Option-cases,
}
use taskrunner.Task.{Task}
use taskrunner.TaskSet.{invalid, TaskExecution, update}
use taskrunner.Executor.{Executor, idle, next, wait, invalidate_end, root, cancel}
use taskrunner.Executor.Pass.{mem}
use taskrunner.Schedule.{Label, drains, step, run}
use taskrunner.Schedule.Reset.{
  is_at_rest, IsReadyFor, AfterPlan, reset, after_rest, after_reset, plan-reset, awaited,
  ready_reset, AfterPlan-none,
}

abbrev pub repeated : ℕ → List Label
repeated zero = []
repeated (suc n) = drains ∷ repeated n

module _ (definition : ℕ → Task) (depth : ℕ) where
  step-run :
      (ls : List Label) (x y : Executor)
      → step definition depth drains x ≡ some y
      → run definition depth (drains ∷ ls) x ≡ run definition depth ls y
  unfolding run
  step-run ls x y h = rw h refl

  step-rest :
      (t : ℕ) (ts : List ℕ) (e : TaskExecution) (x : Executor)
      → x.plan ≡ next (t ∷ ts)
      → x.tasks t ≡ some e
      → is_at_rest e ≡ true
      → step definition depth drains x ≡ some (record x { plan = next ts })
  unfolding step
  step-rest t ts e x p q r = ground arith

  step-begin :
      (t : ℕ) (ts : List ℕ) (e : TaskExecution) (x : Executor)
      → x.plan ≡ next (t ∷ ts)
      → x.tasks t ≡ some e
      → is_at_rest e ≡ false
      → step definition depth drains x
        ≡ some (record x {
          tasks = update x.tasks t (record e { state = invalid; ctx = x.next_ctx ∷ root });
          cancelled = cancel e.ctx x.cancelled;
          next_ctx = x.next_ctx + 1;
          plan = wait t ts;
        })
  unfolding step
  step-begin t ts e x p q r = ground arith

  step-end :
      (t : ℕ) (ts : List ℕ) (e : TaskExecution) (x : Executor)
      → x.plan ≡ wait t ts
      → x.tasks t ≡ some e
      → 1 ≤ e.terminal_ch
      → step definition depth drains x ≡ some (invalidate_end t ts e x)
  unfolding step
  step-end t ts e x p q r = ground arith

  step-idle :
      (x : Executor)
      → x.plan ≡ next []
      → step definition depth drains x ≡ some (record x { plan = idle })
  unfolding step
  step-idle x p = ground arith

  run_nil : (x : Executor) → run definition depth [] x ≡ some x
  unfolding run
  run_nil x = refl

  -- The plan ends, by its own steps alone.
  pub plan_lem :
      (ts : List ℕ) (x : Executor)
      → x.plan ≡ next ts
      → All (λ t. IsReadyFor (x.tasks t)) ts
      → (n : ℕ) × (y : Executor) × (run definition depth (repeated n) x ≡ some y)
        × (y.plan ≡ idle)
        × ((u : ℕ) → AfterPlan (mem u ts) (x.tasks u) (y.tasks u))
  plan_lem [] x p ready = (
    1,
    record x { plan = idle },
    step-run [] x (record x { plan = idle }) (step-idle x p) ∙ run_nil (record x { plan = idle }),
    refl,
    λ u. AfterPlan-none (x.tasks u),
  )
  plan_lem (t ∷ ts) x p ready = elim (Option-cases (x.tasks t)) [
    | inl q ↦ absurd (subst IsReadyFor q ready.0)
    | inr (e, q) ↦ elim (Bool-cases (is_at_rest e)) [
      | inl r ↦
          let x₁ = record x { plan = next ts } in
          let (n, y, h, i, a) = plan_lem ts x₁ refl ready.1 in
          (
            suc n,
            y,
            step-run (repeated n) x x₁ (step-rest t ts e x p q r) ∙ h,
            i,
            λ u. after_rest t ts e x.tasks y.tasks q r u (a u),
          )
      | inr r ↦
          let (n, y, h, i, a) =
            plan_lem ts (reset t ts e x) (plan-reset t ts e x) (ready_reset t ts e x ts ready.1) in
          (
            suc (suc n),
            y,
            step-run (drains ∷ repeated n) x _ (step-begin t ts e x p q r)
                ∙ (step-run (repeated n) _ (reset t ts e x) (
                      step-end t ts (record e { state = invalid; ctx = x.next_ctx ∷ root })
                        (record x {
                          tasks =
                              update x.tasks t
                                (record e { state = invalid; ctx = x.next_ctx ∷ root });
                          cancelled = cancel e.ctx x.cancelled;
                          next_ctx = x.next_ctx + 1;
                          plan = wait t ts;
                        })
                        refl (rw (==_refl t) refl) (awaited e r (subst IsReadyFor q ready.0)))
                    ∙ h),
            i,
            λ u. after_reset t ts e x y.tasks q r u (a u),
          )
    ]
  ]
