-- ===== src/Schedule/Exclusion.antt =====
-- At most one goroutine at a time runs a task.
use taskrunner.Prelude.{
  ℕ, ◌≡◌, true, false, not, ◌&&◌, Option, none, some, List, [], ◌∷◌, arith, inl, inr, Option-cases,
  Bool-cases, refl,
}
use taskrunner.Task.{Task, InvalidationEvent, keep_alive_stopped}
use taskrunner.TaskSet.{is_canceled, TaskExecution}
use taskrunner.Invalidation.{invalidate_event}
use taskrunner.Executor.{
  Phase, spawned, executing, decided, settled, flushed, notified, planned, Run, Plan, Executor,
  evaluate_plan, invalidate,
}
use taskrunner.Invalidation.Frame.{erase, invalidate_event-SameFrame}
use taskrunner.Executor.Live.{is_live, live}
use taskrunner.Schedule.Plans.{
  Fits, IsExclusive, live-pick, run_pass-IsExclusive, start_all-IsExclusive,
  evaluate_plan-IsExclusive, drain-IsExclusive,
}
use taskrunner.Schedule.{
  keep_alive, count_error, idle-cases, put, move, enter, settle, flush, notify, finish, evaluate,
  pass, late_pass, passes, late_passes, evaluates, drains, shuts_down, invalidates, goes, Move,
  Label, pick, go, step, run,
}

-- Whether an execution fits does not depend on its pending invalidations.
Fits-of_erase :
    (t l : ℕ) (p : Plan) (o o' : Option TaskExecution)
    → erase o' ≡ erase o
    → Fits t l p o
    → Fits t l p o'
Fits-of_erase t l p none none h f = tt
Fits-of_erase t l p none (some e) h f = ground arith
Fits-of_erase t l p (some e) none h f = tt
Fits-of_erase t l p (some e) (some e') h f = ground arith

picked-IsExclusive :
    (n : ℕ) (x : Executor) {r : Run} {rest : List Run}
    → pick n x.runs ≡ some (r, rest)
    → IsExclusive x
    → IsExclusive (record x { runs = r ∷ rest })
picked-IsExclusive n x h inv u = ground (arith, inv u, live-pick u n x.runs h)

-- A goroutine in phase `p` for task `t` beside the others.
abbrev pub with_run : ℕ → Phase → Executor → Executor
with_run t p x = record x { runs = record { task = t; phase = p } ∷ x.runs }

with_run-IsExclusive :
    (t : ℕ) (p : Phase) (x : Executor)
    → is_live p ≡ false
    → IsExclusive x
    → IsExclusive (with_run t p x)
unfolding live
with_run-IsExclusive t p x h inv u = ground (arith, inv u)

without_run-IsExclusive :
    (t : ℕ) (p : Phase) (x : Executor)
    → is_live p ≡ false
    → IsExclusive (with_run t p x)
    → IsExclusive x
unfolding live
without_run-IsExclusive t p x h inv u = ground (arith, inv u)

module _ (definition : ℕ → Task) (depth : ℕ) where
  invalidate-IsExclusive :
      (event : InvalidationEvent) (t : ℕ) (x : Executor) {y : Executor}
      → invalidate definition depth event t x ≡ some y
      → IsExclusive x
      → IsExclusive y
  unfolding invalidate
  invalidate-IsExclusive event t x {y} h inv u =
      elim (Option-cases (invalidate_event definition depth event t x.tasks)) [
        | inl e ↦ ground arith
        | inr ((s, did), e) ↦
            let frame = invalidate_event-SameFrame definition depth event t x.tasks s did e u in
            ground (arith, Fits-of_erase u (live u x.runs) x.plan (x.tasks u) (s u) frame (inv u))
      ]

  keep_alive-IsExclusive :
      (t : ℕ) (e : TaskExecution) (x : Executor) {y : Executor}
      → keep_alive definition depth t e x ≡ some y
      → IsExclusive x
      → IsExclusive y
  unfolding keep_alive
  keep_alive-IsExclusive t e x {y} h inv u =
      elim (Bool-cases ((definition t).keep_alive && not (is_canceled e.state))) [
        | inl b ↦ invalidate-IsExclusive keep_alive_stopped t x {y = y} (ground arith) inv u
        | inr b ↦ ground (arith, inv u)
      ]

  move-IsExclusive :
      (m : Move) (t : ℕ) (e : TaskExecution) (p : Phase) (x : Executor) {y : Executor}
      → x.tasks t ≡ some e
      → put t (move definition depth m t e p x) ≡ some y
      → IsExclusive (with_run t p x)
      → IsExclusive y
  unfolding move live
  move-IsExclusive enter t e spawned x q h inv u = ground (arith, inv u)
  move-IsExclusive (finish b) t e (executing ctx) x q h inv u = ground (arith, inv u)
  move-IsExclusive settle t e (decided ctx f v) x q h inv u = ground (arith, inv u, inv t)
  move-IsExclusive flush t e (settled ctx f) x q h inv u = ground (arith, inv u, inv t)
  move-IsExclusive notify t e (flushed ctx f) x q h inv u =
      let quiet = without_run-IsExclusive t (flushed ctx f) x refl inv in
      elim (Option-cases (keep_alive definition depth t e x)) [
        | inl k ↦ ground arith
        | inr (z, k) ↦ ground (
          arith,
          with_run-IsExclusive t (notified ctx f) z refl (keep_alive-IsExclusive t e x k quiet) u,
        )
      ]
  move-IsExclusive (evaluate order) t e (notified ctx true) x q h inv u = ground (arith, inv u)
  move-IsExclusive (evaluate order) t e (notified ctx false) x q h inv u =
      elim (idle-cases x.plan) [
        | inl i ↦
            let quiet = without_run-IsExclusive t (notified ctx false) x refl inv in
            ground (
              arith,
              with_run-IsExclusive t (planned ctx false) (evaluate_plan order x) refl
                  (evaluate_plan-IsExclusive order x i quiet) u,
            )
        | inr b ↦ ground arith
      ]
  move-IsExclusive (pass order) t e (planned ctx f) x q h inv u = elim (idle-cases x.plan) [
    | inl i ↦
        let quiet = without_run-IsExclusive t (planned ctx f) x refl inv in
        ground (arith, run_pass-IsExclusive order (count_error ctx f x) i quiet u)
    | inr b ↦ ground arith
  ]
  move-IsExclusive (late_pass order) t e (planned ctx f) x q h inv u = elim (idle-cases x.plan) [
    | inl i ↦
        let quiet = without_run-IsExclusive t (planned ctx f) x refl inv in
        ground (arith, start_all-IsExclusive order (count_error ctx f x) i quiet u)
    | inr b ↦ ground arith
  ]
  move-IsExclusive _ t e _ x q h inv u = ground arith

  go-IsExclusive :
      (m : Move) (r : Run) (x : Executor) {y : Executor}
      → go definition depth m r x ≡ some y
      → IsExclusive (with_run r.task r.phase x)
      → IsExclusive y
  unfolding go
  go-IsExclusive m r x {y} h inv u = elim (Option-cases (x.tasks r.task)) [
    | inl q ↦ ground arith
    | inr (e, q) ↦ move-IsExclusive m r.task e r.phase x {y = y} q (ground arith) inv u
  ]

  step-IsExclusive :
      (l : Label) (x : Executor) {y : Executor}
      → step definition depth l x ≡ some y
      → IsExclusive x
      → IsExclusive y
  unfolding step
  step-IsExclusive (passes order) x {y} h inv u = elim (idle-cases x.plan) [
    | inl i ↦ ground (arith, run_pass-IsExclusive order x i inv u)
    | inr b ↦ ground arith
  ]
  step-IsExclusive (late_passes order) x {y} h inv u = elim (idle-cases x.plan) [
    | inl i ↦ ground (arith, start_all-IsExclusive order x i inv u)
    | inr b ↦ ground arith
  ]
  step-IsExclusive (evaluates order) x {y} h inv u = elim (idle-cases x.plan) [
    | inl i ↦ ground (arith, evaluate_plan-IsExclusive order x i inv u)
    | inr b ↦ ground arith
  ]
  step-IsExclusive drains x {y} h inv u = drain-IsExclusive x.plan x refl h inv u
  step-IsExclusive shuts_down x {y} h inv u = ground (arith, inv u)
  step-IsExclusive (invalidates t event) x {y} h inv u = invalidate-IsExclusive event t x h inv u
  step-IsExclusive (goes n m) x {y} h inv u = elim (Option-cases (pick n x.runs)) [
    | inl e ↦ ground arith
    | inr ((r, rest), e) ↦
        go-IsExclusive m r (record x { runs = rest }) {y = y} (ground arith)
          (picked-IsExclusive n x e inv) u
  ]

  pub run-IsExclusive :
      (ls : List Label) (x : Executor) {y : Executor}
      → run definition depth ls x ≡ some y
      → IsExclusive x
      → IsExclusive y
  unfolding run
  run-IsExclusive [] x {y} h inv u = ground (arith, inv u)
  run-IsExclusive (l ∷ ls) x {y} h inv u = elim (Option-cases (step definition depth l x)) [
    | inl e ↦ ground arith
    | inr (z, e) ↦ run-IsExclusive ls z {y = y} (ground arith) (step-IsExclusive l x e inv) u
  ]
