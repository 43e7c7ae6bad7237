-- ===== src/Schedule/Graph.antt =====
-- No step changes the graph of executions; so a pass starts a task only when all that it needs,
-- at any depth, is done.
use taskrunner.Prelude.{
  ℕ, ◌≡◌, refl, ◌∙◌, true, false, not, ◌&&◌, Option, none, some, List, [], ◌∷◌, arith, All-In,
  Option-cases, Bool-cases, inl, inr,
}
use taskrunner.Task.{Task, InvalidationEvent, keep_alive_stopped}
use taskrunner.TaskSet.{TaskExecution, is_canceled, dep_done}
use taskrunner.TaskSet.Closure.{Needs, recorded, IsComplete}
use taskrunner.Invalidation.{invalidate_event}
use taskrunner.Invalidation.Frame.{erase, invalidate_event-SameFrame}
use taskrunner.Executor.{
  Phase, spawned, executing, decided, settled, flushed, notified, planned, Run, Plan, idle, next,
  wait, Executor, try_start, start_all, run_pass, evaluate_plan, drain, invalidate,
}
use taskrunner.Executor.Pass.{startable, should_execute_iff}
use taskrunner.Schedule.{
  Move, Label, enter, settle, flush, notify, finish, evaluate, pass, late_pass, passes, late_passes,
  evaluates, drains, shuts_down, invalidates, goes, put, pick, move, go, step, run, keep_alive,
  count_error,
}

abbrev pub SameGraph : Executor → Executor → Type 0
SameGraph x y = (t : ℕ) → recorded y.tasks t ≡ recorded x.tasks t

recorded_of_erase :
    (o o' : Option TaskExecution)
    → erase o' ≡ erase o
    → ◌≡◌ {A = Option (List ℕ)}
        (elim o' [ none ↦ none | some e ↦ some e.dependencies ])
        (elim o [ none ↦ none | some e ↦ some e.dependencies ])
recorded_of_erase none none h = refl
recorded_of_erase none (some e) h = cc
recorded_of_erase (some e) none h = cc
recorded_of_erase (some e) (some e') h = ground arith

try_start-SameGraph : (t : ℕ) (x : Executor) → SameGraph x (try_start t x)
unfolding try_start
try_start-SameGraph t x u = ground arith

start_all-SameGraph : (order : List ℕ) (x : Executor) → SameGraph x (start_all order x)
unfolding start_all
start_all-SameGraph [] x u = refl
start_all-SameGraph (t ∷ order) x u =
    start_all-SameGraph order (try_start t x) u ∙ try_start-SameGraph t x u

run_pass-SameGraph : (order : List ℕ) (x : Executor) → SameGraph x (run_pass order x)
unfolding run_pass
run_pass-SameGraph order x u = ground (arith, start_all-SameGraph order x u)

evaluate_plan-SameGraph : (order : List ℕ) (x : Executor) → SameGraph x (evaluate_plan order x)
unfolding evaluate_plan
evaluate_plan-SameGraph order x u = refl

drain-SameGraph : (p : Plan) (x : Executor) {y : Executor} → drain p x ≡ some y → SameGraph x y
unfolding drain
drain-SameGraph idle x h u = ground arith
drain-SameGraph (next []) x h u = ground arith
drain-SameGraph (next (t ∷ ts)) x h u = ground arith
drain-SameGraph (wait t ts) x h u = ground arith

module _ (definition : ℕ → Task) (depth : ℕ) where
  invalidate-SameGraph :
      (event : InvalidationEvent) (t : ℕ) (x : Executor) {y : Executor}
      → invalidate definition depth event t x ≡ some y
      → SameGraph x y
  unfolding invalidate
  invalidate-SameGraph event t x h u =
      elim (Option-cases (invalidate_event definition depth event t x.tasks)) [
        | inl e ↦ ground arith
        | inr ((s, did), e) ↦
            let frame = invalidate_event-SameFrame definition depth event t x.tasks s did e u in
            ground (arith, recorded_of_erase (x.tasks u) (s u) frame)
      ]

  keep_alive-SameGraph :
      (t : ℕ) (e : TaskExecution) (x : Executor) {y : Executor}
      → keep_alive definition depth t e x ≡ some y
      → SameGraph x y
  unfolding keep_alive
  keep_alive-SameGraph t e x {y} h u =
      elim (Bool-cases ((definition t).keep_alive && not (is_canceled e.state))) [
        | inl b ↦ invalidate-SameGraph keep_alive_stopped t x {y = y} (ground arith) u
        | inr b ↦ ground arith
      ]

  move-SameGraph :
      (m : Move) (t : ℕ) (e : TaskExecution) (p : Phase) (x : Executor) {y : Executor}
      → x.tasks t ≡ some e
      → put t (move definition depth m t e p x) ≡ some y
      → SameGraph x y
  unfolding move
  move-SameGraph enter t e spawned x q h u = ground arith
  move-SameGraph (finish b) t e (executing ctx) x q h u = ground arith
  move-SameGraph settle t e (decided ctx f v) x q h u = ground arith
  move-SameGraph flush t e (settled ctx f) x q h u = ground arith
  move-SameGraph notify t e (flushed ctx f) x q h u =
      elim (Option-cases (keep_alive definition depth t e x)) [
        | inl k ↦ ground arith
        | inr (z, k) ↦ ground (arith, keep_alive-SameGraph t e x k u)
      ]
  move-SameGraph (evaluate order) t e (notified ctx true) x q h u = ground arith
  move-SameGraph (evaluate order) t e (notified ctx false) x q h u =
      ground (arith, evaluate_plan-SameGraph order x u)
  move-SameGraph (pass order) t e (planned ctx f) x q h u =
      ground (arith, run_pass-SameGraph order (count_error ctx f x) u)
  move-SameGraph (late_pass order) t e (planned ctx f) x q h u =
      ground (arith, start_all-SameGraph order (count_error ctx f x) u)
  move-SameGraph _ t e _ x q h u = ground arith

  go-SameGraph :
      (m : Move) (r : Run) (x : Executor) {y : Executor}
      → go definition depth m r x ≡ some y
      → SameGraph x y
  unfolding go
  go-SameGraph m r x {y} h u = elim (Option-cases (x.tasks r.task)) [
    | inl q ↦ ground arith
    | inr (e, q) ↦ move-SameGraph m r.task e r.phase x {y = y} q (ground arith) u
  ]

  step-SameGraph :
      (l : Label) (x : Executor) {y : Executor} → step definition depth l x ≡ some y → SameGraph x y
  unfolding step
  step-SameGraph (passes order) x h u = ground (arith, run_pass-SameGraph order x u)
  step-SameGraph (late_passes order) x h u = ground (arith, start_all-SameGraph order x u)
  step-SameGraph (evaluates order) x h u = ground (arith, evaluate_plan-SameGraph order x u)
  step-SameGraph drains x h u = drain-SameGraph x.plan x h u
  step-SameGraph shuts_down x h u = ground arith
  step-SameGraph (invalidates t event) x h u = invalidate-SameGraph event t x h u
  step-SameGraph (goes n m) x {y} h u = elim (Option-cases (pick n x.runs)) [
    | inl e ↦ ground arith
    | inr ((r, rest), e) ↦ go-SameGraph m r (record x { runs = rest }) {y = y} (ground arith) u
  ]

  pub run-SameGraph :
      (ls : List Label) (x : Executor) {y : Executor}
      → run definition depth ls x ≡ some y
      → SameGraph x y
  unfolding run
  run-SameGraph [] x h u = ground arith
  run-SameGraph (l ∷ ls) x {y} h u = elim (Option-cases (step definition depth l x)) [
    | inl e ↦ ground arith
    | inr (z, e) ↦ run-SameGraph ls z {y = y} (ground arith) u ∙ step-SameGraph l x e u
  ]

-- A task that a pass would start is invalid, and every task that it needs is done.
pub startable-Needs-done :
    (definition : ℕ → Task) (x : Executor) (t d : ℕ)
    → IsComplete definition x.tasks
    → startable x t ≡ true
    → Needs definition d t
    → dep_done (x.tasks d) ≡ true
startable-Needs-done definition x t d c h n = elim (Option-cases (x.tasks t)) [
  | inl e ↦ absurd (ground arith)
  | inr (e, q) ↦
      All-In (λ u. dep_done (x.tasks u) ≡ true) e.dependencies d
        ((should_execute_iff x.tasks e).0 (ground arith)).1
        (c.complete t e.dependencies (ground arith) d n)
]
