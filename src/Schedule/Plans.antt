-- ===== src/Schedule/Plans.antt =====
-- Passes and plans keep a task to one goroutine.
use taskrunner.Prelude.{
  ℕ, zero, suc, ◌+◌, ◌≤◌, ◌≡◌, ◌==◌, if◌then◌else◌, Bool, false, not, ◌&&◌, Option, none, some,
  List, [], ◌∷◌, ◌∙◌, arith, inl, inr, Option-cases, ℕ-cases,
}
use taskrunner.TaskSet.{State, is_invalid, TaskExecution}
use taskrunner.Executor.{
  Run, Plan, idle, next, wait, Executor, try_start, start_all, run_pass, evaluate_plan, drain,
  invalidate_begin, invalidate_end,
}
use taskrunner.Executor.Live.{live}
use taskrunner.Schedule.{pick}

abbrev pub is_waiting : ℕ → Plan → Bool
is_waiting t (wait u ts) = u == t
is_waiting t _ = false

-- How many goroutines and values in the terminal channel a task may have together: one, and none
-- where its execution is invalid and no plan waits for it.
abbrev pub room : State → Bool → ℕ
room s waiting = if is_invalid s && not waiting then 0 else 1

abbrev pub Fits : ℕ → ℕ → Plan → Option TaskExecution → Type 0
Fits t l p none = Unit
Fits t l p (some e) = l + e.terminal_ch ≤ room e.state (is_waiting t p)

abbrev pub IsExclusive : Executor → Type 0
IsExclusive x = (t : ℕ) → Fits t (live t x.runs) x.plan (x.tasks t)

pub live-pick :
    (t n : ℕ) (rs : List Run) {r : Run} {rest : List Run}
    → pick n rs ≡ some (r, rest)
    → live t rs ≡ live t (r ∷ rest)
unfolding pick live
live-pick t n [] h = ground arith
live-pick t zero (q ∷ rs) h = ground arith
live-pick t (suc n) (q ∷ rs) h = elim (Option-cases (pick n rs)) [
  | inl e ↦ ground arith
  | inr ((p, ps), e) ↦ ground (arith, live-pick t n rs e)
]

try_start-plan : (t : ℕ) (x : Executor) → (try_start t x).plan ≡ x.plan
unfolding try_start
try_start-plan t x = ground arith

pub try_start-IsExclusive :
    (t : ℕ) (x : Executor) → x.plan ≡ idle → IsExclusive x → IsExclusive (try_start t x)
unfolding try_start live
try_start-IsExclusive t x h inv u = ground (arith, inv u, inv t)

pub start_all-IsExclusive :
    (order : List ℕ) (x : Executor)
    → x.plan ≡ idle
    → IsExclusive x
    → IsExclusive (start_all order x)
unfolding start_all
start_all-IsExclusive [] x h inv = inv
start_all-IsExclusive (t ∷ order) x h inv =
    start_all-IsExclusive order (try_start t x) (try_start-plan t x ∙ h)
      (try_start-IsExclusive t x h inv)

pub run_pass-IsExclusive :
    (order : List ℕ) (x : Executor) → x.plan ≡ idle → IsExclusive x → IsExclusive (run_pass order x)
unfolding run_pass
run_pass-IsExclusive order x h inv u = ground (arith, inv u, start_all-IsExclusive order x h inv u)

pub evaluate_plan-IsExclusive :
    (order : List ℕ) (x : Executor)
    → x.plan ≡ idle
    → IsExclusive x
    → IsExclusive (evaluate_plan order x)
unfolding evaluate_plan
evaluate_plan-IsExclusive order x h inv u = ground (arith, inv u)

pub invalidate_begin-IsExclusive :
    (t : ℕ) (ts : List ℕ) (e : TaskExecution) (x : Executor)
    → x.tasks t ≡ some e
    → x.plan ≡ next (t ∷ ts)
    → IsExclusive x
    → IsExclusive (invalidate_begin t ts e x)
unfolding invalidate_begin
invalidate_begin-IsExclusive t ts e x q h inv u = ground (arith, inv u, inv t)

pub invalidate_end-IsExclusive :
    (t n : ℕ) (ts : List ℕ) (e : TaskExecution) (x : Executor)
    → x.tasks t ≡ some e
    → e.terminal_ch ≡ suc n
    → x.plan ≡ wait t ts
    → IsExclusive x
    → IsExclusive (invalidate_end t ts e x)
unfolding invalidate_end
invalidate_end-IsExclusive t n ts e x q c h inv u = ground (arith, inv u, inv t)

pub drain-IsExclusive :
    (p : Plan) (x : Executor) {y : Executor}
    → x.plan ≡ p
    → drain p x ≡ some y
    → IsExclusive x
    → IsExclusive y
unfolding drain
drain-IsExclusive idle x h d inv u = ground arith
drain-IsExclusive (next []) x h d inv u = ground (arith, inv u)
drain-IsExclusive (next (t ∷ ts)) x h d inv u = elim (Option-cases (x.tasks t)) [
  | inl e ↦ ground arith
  | inr (e, q) ↦ ground (arith, invalidate_begin-IsExclusive t ts e x q h inv u)
]
drain-IsExclusive (wait t ts) x h d inv u = elim (Option-cases (x.tasks t)) [
  | inl e ↦ ground arith
  | inr (e, q) ↦ elim (ℕ-cases e.terminal_ch) [
    | inl c ↦ ground arith
    | inr (n, c) ↦ ground (arith, invalidate_end-IsExclusive t n ts e x q c h inv u)
  ]
]
