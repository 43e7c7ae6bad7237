-- ===== src/Schedule/Stuck.antt =====
-- The terminal channel of a task that no goroutine runs stays empty, and a plan that waits for it
-- keeps its lock.
use taskrunner.Prelude.{
  ℕ, ◌+◌, ◌≡◌, refl, Bool, true, false, not, ◌&&◌, Option, none, some, List, [], ◌∷◌, arith,
  Option-cases, Bool-cases, inl, inr,
}
use taskrunner.Task.{Task, InvalidationEvent, keep_alive_stopped}
use taskrunner.TaskSet.{Context, TaskExecution, is_canceled}
use taskrunner.Invalidation.{invalidate_event}
use taskrunner.Invalidation.Frame.{erase, invalidate_event-SameFrame}
use taskrunner.Executor.{
  Phase, spawned, executing, decided, settled, flushed, notified, planned, Run, Plan, idle, next,
  wait, Executor, drain, invalidate,
}
use taskrunner.Executor.Live.{live}
use taskrunner.Schedule.{
  Move, Label, enter, settle, flush, notify, finish, evaluate, pass, late_pass, passes, late_passes,
  evaluates, drains, shuts_down, invalidates, goes, put, pick, move, go, step, run, keep_alive,
}
use taskrunner.Schedule.Plans.{live-pick}

abbrev pub IsSilent : ℕ → Option TaskExecution → Type 0
IsSilent l none = ⊥
IsSilent l (some e) = l + e.terminal_ch ≡ 0

-- A plan waits for `t`, which no goroutine runs.
pub record IsStuck (t : ℕ) (ts : List ℕ) (x : Executor) : Type 0 where
  pub waits : x.plan ≡ wait t ts
  pub silent : IsSilent (live t x.runs) (x.tasks t)

IsSilent-of_erase :
    (l : ℕ) (o o' : Option TaskExecution) → erase o' ≡ erase o → IsSilent l o → IsSilent l o'
IsSilent-of_erase l none none h f = f
IsSilent-of_erase l none (some e) h f = absurd f
IsSilent-of_erase l (some e) none h f = cc
IsSilent-of_erase l (some e) (some e') h f = ground arith

module _ (definition : ℕ → Task) (depth : ℕ) (t : ℕ) (ts : List ℕ) where
  drain-IsStuck : (p : Plan) (x : Executor) → x.plan ≡ p → IsStuck t ts x → drain p x ≡ none
  unfolding drain
  drain-IsStuck idle x h s = refl
  drain-IsStuck (next l) x h s = absurd (ground (arith, s.waits))
  drain-IsStuck (wait u l) x h s = elim (Option-cases (x.tasks t)) [
    | inl e ↦ absurd (ground (arith, s.silent))
    | inr (e, q) ↦ ground (arith, s.silent, s.waits)
  ]

  invalidate-IsStuck :
      (event : InvalidationEvent) (u : ℕ) (x : Executor) {y : Executor}
      → invalidate definition depth event u x ≡ some y
      → IsStuck t ts x
      → IsStuck t ts y
  unfolding invalidate
  invalidate-IsStuck event u x h s =
      elim (Option-cases (invalidate_event definition depth event u x.tasks)) [
        | inl e ↦ absurd (ground arith)
        | inr ((s', did), e) ↦
            let frame = invalidate_event-SameFrame definition depth event u x.tasks s' did e t in
            let silent = IsSilent-of_erase (live t x.runs) (x.tasks t) (s' t) frame s.silent in
            record { waits = ground (arith, s.waits); silent = ground arith }
      ]

  -- A goroutine in phase `p` for task `u` beside the others.
  abbrev beside : ℕ → Phase → Executor → Executor
  beside u p x = record x { runs = record { task = u; phase = p } ∷ x.runs }

  keep_alive-IsStuck :
      (u : ℕ) (e : TaskExecution) (x : Executor) {y : Executor}
      → keep_alive definition depth u e x ≡ some y
      → IsStuck t ts x
      → IsStuck t ts y
  unfolding keep_alive
  keep_alive-IsStuck u e x {y} h s =
      elim (Bool-cases ((definition u).keep_alive && not (is_canceled e.state))) [
        | inl b ↦ invalidate-IsStuck keep_alive_stopped u x {y = y} (ground arith) s
        | inr b ↦ ground arith
      ]

  without_run-IsStuck :
      (u : ℕ) (ctx : Context) (f : Bool) (x : Executor)
      → IsStuck t ts (beside u (flushed ctx f) x)
      → IsStuck t ts x
  unfolding live
  without_run-IsStuck u ctx f x s = ground arith

  with_run-IsStuck :
      (u : ℕ) (ctx : Context) (f : Bool) (x : Executor)
      → IsStuck t ts x
      → IsStuck t ts (beside u (notified ctx f) x)
  unfolding live
  with_run-IsStuck u ctx f x s = ground arith

  move-IsStuck :
      (m : Move) (u : ℕ) (e : TaskExecution) (p : Phase) (x : Executor) {y : Executor}
      → x.tasks u ≡ some e
      → put u (move definition depth m u e p x) ≡ some y
      → IsStuck t ts (beside u p x)
      → IsStuck t ts y
  unfolding move live
  move-IsStuck enter u e spawned x q h s = ground arith
  move-IsStuck (finish b) u e (executing ctx) x q h s = ground arith
  move-IsStuck settle u e (decided ctx f v) x q h s = ground arith
  move-IsStuck flush u e (settled ctx f) x q h s = ground arith
  move-IsStuck notify u e (flushed ctx f) x q h s =
      elim (Option-cases (keep_alive definition depth u e x)) [
        | inl k ↦ absurd (ground arith)
        | inr (z, k) ↦
            let alone = without_run-IsStuck u ctx f x s in
            ground (arith, with_run-IsStuck u ctx f z (keep_alive-IsStuck u e x k alone))
      ]
  move-IsStuck (evaluate order) u e (notified ctx true) x q h s = ground arith
  move-IsStuck (evaluate order) u e (notified ctx false) x q h s = ground arith
  move-IsStuck (pass order) u e (planned ctx f) x q h s = ground arith
  move-IsStuck (late_pass order) u e (planned ctx f) x q h s = ground arith
  move-IsStuck _ u e _ x q h s = absurd (ground arith)

  go-IsStuck :
      (m : Move) (r : Run) (x : Executor) {y : Executor}
      → go definition depth m r x ≡ some y
      → IsStuck t ts (beside r.task r.phase x)
      → IsStuck t ts y
  unfolding go
  go-IsStuck m r x {y} h s = elim (Option-cases (x.tasks r.task)) [
    | inl q ↦ absurd (ground arith)
    | inr (e, q) ↦ move-IsStuck m r.task e r.phase x {y = y} q (ground arith) s
  ]

  picked-IsStuck :
      (n : ℕ) (x : Executor) {r : Run} {rest : List Run}
      → pick n x.runs ≡ some (r, rest)
      → IsStuck t ts x
      → IsStuck t ts (record x { runs = r ∷ rest })
  picked-IsStuck n x h s = ground (arith, live-pick t n x.runs h)

  step-IsStuck :
      (l : Label) (x : Executor) {y : Executor}
      → step definition depth l x ≡ some y
      → IsStuck t ts x
      → IsStuck t ts y
  unfolding step
  step-IsStuck (passes order) x h s = absurd (ground (arith, s.waits))
  step-IsStuck (late_passes order) x h s = absurd (ground (arith, s.waits))
  step-IsStuck (evaluates order) x h s = absurd (ground (arith, s.waits))
  step-IsStuck drains x h s = absurd (ground (arith, drain-IsStuck x.plan x refl s))
  step-IsStuck shuts_down x h s = ground arith
  step-IsStuck (invalidates u event) x h s = invalidate-IsStuck event u x h s
  step-IsStuck (goes n m) x {y} h s = elim (Option-cases (pick n x.runs)) [
    | inl e ↦ absurd (ground arith)
    | inr ((r, rest), e) ↦
        go-IsStuck m r (record x { runs = rest }) {y = y} (ground arith) (picked-IsStuck n x e s)
  ]

  -- Once a plan waits for a task that no goroutine runs and whose channel is empty, the same holds
  -- after any further steps: the plan waits, and so holds its lock, for ever.
  pub run-IsStuck :
      (ls : List Label) (x : Executor) {y : Executor}
      → run definition depth ls x ≡ some y
      → IsStuck t ts x
      → IsStuck t ts y
  unfolding run
  run-IsStuck [] x h s = ground arith
  run-IsStuck (l ∷ ls) x {y} h s = elim (Option-cases (step definition depth l x)) [
    | inl e ↦ absurd (ground arith)
    | inr (z, e) ↦ run-IsStuck ls z {y = y} (ground arith) (step-IsStuck l x e s)
  ]
