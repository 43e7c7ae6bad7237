-- ===== src/Schedule/Evaluation.antt =====
-- A plan from its evaluation to its end.
use taskrunner.Prelude.{
  ℕ, ◌≡◌, refl, sym, subst, ap, ◌≤◌, ◌==◌, ==_iff, inl, inr, ◌⊎◌, Bool, true, false, ◌&&◌, Option,
  none, some, List, [], ◌∷◌, ◌++◌, All, arith, Bool-cases, Option-cases,
}
use taskrunner.Task.{Task}
use taskrunner.TaskSet.{TaskExecution, TaskSet, is_canceled}
use taskrunner.Executor.{Executor, idle, next, collect, to_invalidate, evaluate_plan}
use taskrunner.Executor.Pass.{mem}
use taskrunner.Schedule.{evaluates, step, run}
use taskrunner.Schedule.Reset.{IsReadyFor, AfterPlan}
use taskrunner.Schedule.Draining.{repeated, plan_lem}

-- A task that a plan is to invalidate.
abbrev pub is_wanted : Option TaskExecution → Bool
is_wanted none = false
is_wanted (some e) = to_invalidate e

-- If the task is to be invalidated, it is canceled or its end can be received.
abbrev pub HasEnded : Option TaskExecution → Type 0
HasEnded none = Unit
HasEnded (some e) = (to_invalidate e ≡ false) ⊎ ((is_canceled e.state ≡ true) ⊎ (1 ≤ e.terminal_ch))

mem-collect :
    (s : TaskSet) (order : List ℕ) (u : ℕ)
    → mem u (collect s order).0 ≡ (mem u order && is_wanted (s u))
unfolding collect
mem-collect s [] u = refl
mem-collect s (t ∷ order) u =
    let rest = mem-collect s order u in
    let same : (t == u) ≡ true → s u ≡ s t = λ h. ap s (sym ((==_iff t u).0 h)) in
    elim (Option-cases (s t)) [
      | inl q ↦ rw (q, collect) (ground (arith, rest, same, q))
      | inr (e, q) ↦ elim (Bool-cases (to_invalidate e)) [
        | inl w ↦ rw (q, w, collect) (ground (arith, rest, same, q, w))
        | inr w ↦ rw (q, w, collect) (ground (arith, rest, same, q, w))
      ]
    ]

ready_of_ended :
    (e : TaskExecution) → to_invalidate e ≡ true → HasEnded (some e) → IsReadyFor (some e)
ready_of_ended e w (inl h) = absurd (ground arith)
ready_of_ended e w (inr (inl h)) = inl (ground arith)
ready_of_ended e w (inr (inr h)) = inr h

collect-IsReadyFor :
    (s : TaskSet) (order : List ℕ)
    → All (λ t. HasEnded (s t)) order
    → All (λ t. IsReadyFor (s t)) (collect s order).0
unfolding collect
collect-IsReadyFor s [] h = tt
collect-IsReadyFor s (t ∷ order) h =
    let rest = collect-IsReadyFor s order h.1 in
    elim (Option-cases (s t)) [
      | inl q ↦ rw (q, collect) rest
      | inr (e, q) ↦ elim (Bool-cases (to_invalidate e)) [
        | inl w ↦
            rw (q, w, collect)
              (subst IsReadyFor (sym q) (ready_of_ended e w (subst HasEnded q h.0)), rest)
        | inr w ↦ rw (q, w, collect) rest
      ]
    ]

-- Where the end of every task that is to be invalidated can be received, the evaluation of a plan
-- ends by its own steps. It resets exactly the tasks it visits that have something pending and are
-- neither invalid nor canceled: they are invalid, with nothing pending and an empty channel, and
-- keep their place in the graph. No other execution changes.
pub evaluation_lem :
    (definition : ℕ → Task) (depth : ℕ) (order : List ℕ) (x : Executor)
    → x.plan ≡ idle
    → All (λ t. HasEnded (x.tasks t)) order
    → (n : ℕ) × (y : Executor) × (run definition depth (evaluates order ∷ repeated n) x ≡ some y)
      × (y.plan ≡ idle)
      × ((u : ℕ) → AfterPlan (mem u order && is_wanted (x.tasks u)) (x.tasks u) (y.tasks u))
unfolding run step evaluate_plan
evaluation_lem definition depth order x p h =
    let (ts, events) = collect x.tasks order in
    let x₁ = record x { plan = next ts; events = x.events ++ events } in
    let (n, y, r, i, a) =
      plan_lem definition depth ts x₁ refl (collect-IsReadyFor x.tasks order h) in
    (
      n,
      y,
      rw p r,
      i,
      λ u. subst (λ b. AfterPlan b (x.tasks u) (y.tasks u)) (mem-collect x.tasks order u) (a u),
    )
