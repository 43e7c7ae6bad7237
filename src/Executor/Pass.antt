-- ===== src/Executor/Pass.antt =====
-- What a pass starts: the result does not depend on the order in which the map is visited.
use taskrunner.Prelude.{
  ℕ, ◌+◌, ◌≡◌, refl, sym, ◌∙◌, ap, ◌↔◌, ◌==◌, if◌then◌else◌, Bool, true, false, not, ◌&&◌, ◌||◌,
  Option, none, some, List, [], ◌∷◌, arith, any, All, Bool-cases, Option-cases, inl, inr,
}
use taskrunner.TaskSet.{
  running, TaskExecution, TaskSet, is_invalid, dep_done, all_done, should_execute, is_cancelled,
}
use taskrunner.Executor.{Executor, root, try_start, start_all, run_pass}
use taskrunner.Executor.Live.{live}

abbrev pub mem : ℕ → List ℕ → Bool
mem t order = any (λ u. u == t) order

abbrev pub is_ready : TaskSet → Option TaskExecution → Bool
is_ready s none = false
is_ready s (some e) = should_execute s e

-- A task that a pass would start.
abbrev pub startable : Executor → ℕ → Bool
startable x t = is_ready x.tasks (x.tasks t)

all_done_iff :
    (s : TaskSet) (ready : Bool) (ds : List ℕ)
    → (all_done s ready ds ≡ true) ↔ ((ready ≡ true) × All (λ d. dep_done (s d) ≡ true) ds)
unfolding all_done
all_done_iff s ready [] = (λ h. (h, tt), λ h. h.0)
all_done_iff s ready (d ∷ ds) = elim (Bool-cases (dep_done (s d))) [
  | inl e ↦ rw e (
    λ h. let (r, a) = (all_done_iff s ready ds).0 h in (r, (refl, a)),
    λ h. (all_done_iff s ready ds).1 (h.0, h.1.1),
  )
  | inr e ↦ rw e (λ h. let (r, a) = (all_done_iff s false ds).0 h in cc, λ h. let r = h.1.0 in cc)
]

-- `ShouldExecute` holds exactly of an invalid execution whose recorded dependencies are done.
pub should_execute_iff :
    (s : TaskSet) (e : TaskExecution)
    → (should_execute s e ≡ true)
      ↔ ((is_invalid e.state ≡ true) × All (λ d. dep_done (s d) ≡ true) e.dependencies)
unfolding should_execute
should_execute_iff s e = elim (Bool-cases (is_invalid e.state)) [
  | inl i ↦ rw i (
    λ h. (refl, ((all_done_iff s true e.dependencies).0 h).1),
    λ h. (all_done_iff s true e.dependencies).1 (refl, h.1),
  )
  | inr i ↦ rw i (λ h. cc, λ h. let r = h.0 in cc)
]

should_execute-invalid :
    (s : TaskSet) (e : TaskExecution) → should_execute s e ≡ true → is_invalid e.state ≡ true
should_execute-invalid s e h = ((should_execute_iff s e).0 h).0

all_done_cong :
    (s s' : TaskSet)
    → ((d : ℕ) → dep_done (s' d) ≡ dep_done (s d))
    → (ready : Bool) (ds : List ℕ) → all_done s' ready ds ≡ all_done s ready ds
unfolding all_done
all_done_cong s s' same ready [] = refl
all_done_cong s s' same ready (d ∷ ds) = rw (same d) (all_done_cong s s' same _ ds)

should_execute_cong :
    (s s' : TaskSet)
    → ((d : ℕ) → dep_done (s' d) ≡ dep_done (s d))
    → (e : TaskExecution) → should_execute s' e ≡ should_execute s e
unfolding should_execute
should_execute_cong s s' same e = rw (all_done_cong s s' same true e.dependencies)

-- To start a task does not make another ready, nor keep it from being so.
dep_done-try_start :
    (t : ℕ) (x : Executor) (d : ℕ) → dep_done ((try_start t x).tasks d) ≡ dep_done (x.tasks d)
unfolding try_start
dep_done-try_start t x d = elim (Option-cases (x.tasks t)) [
  | inl e ↦ ground arith
  | inr (e, q) ↦ ground (arith, should_execute-invalid x.tasks e)
]

-- What one round of the loop does to the entry of a task.
abbrev pub start_one : TaskSet → Bool → Option TaskExecution → Option TaskExecution
start_one s here none = none
start_one s here (some e) =
    if here && should_execute s e then some (record e { state = running }) else some e

-- The task set after a pass, said of each task by itself.
abbrev pub after_pass : List ℕ → Executor → TaskSet
after_pass order x t = elim (x.tasks t) [
  | none ↦ none
  | some e ↦
      if mem t order && should_execute x.tasks e
      then some (record e { state = running })
      else some e
]

should_execute_running :
    (s : TaskSet) (e : TaskExecution) → should_execute s (record e { state = running }) ≡ false
unfolding should_execute
should_execute_running s e = refl

tasks-try_start :
    (t : ℕ) (x : Executor) (u : ℕ)
    → (try_start t x).tasks u ≡ start_one x.tasks (t == u) (x.tasks u)
unfolding try_start
tasks-try_start t x u = ground arith

start_one_twice :
    (s s' : TaskSet) (here later : Bool) (o : Option TaskExecution)
    → ((e : TaskExecution) → should_execute s' e ≡ should_execute s e)
    → start_one s' later (start_one s here o) ≡ start_one s (here || later) o
start_one_twice s s' here later none same = refl
start_one_twice s s' here later (some e) same =
    ground (arith, same e, same (record e { state = running }), should_execute_running s e)

after_pass-try_start :
    (t : ℕ) (order : List ℕ) (x : Executor) (u : ℕ)
    → after_pass order (try_start t x) u ≡ after_pass (t ∷ order) x u
after_pass-try_start t order x u =
    ap (start_one (try_start t x).tasks (mem u order)) (tasks-try_start t x u)
    ∙ start_one_twice x.tasks (try_start t x).tasks (t == u) (mem u order) (x.tasks u)
        (should_execute_cong x.tasks (try_start t x).tasks (dep_done-try_start t x))

start_all-tasks :
    (order : List ℕ) (x : Executor) (u : ℕ) → (start_all order x).tasks u ≡ after_pass order x u
unfolding start_all
start_all-tasks [] x u = ground arith
start_all-tasks (t ∷ order) x u =
    start_all-tasks order (try_start t x) u ∙ after_pass-try_start t order x u

is_ready-start_one :
    (s s' : TaskSet) (here : Bool) (o : Option TaskExecution)
    → ((e : TaskExecution) → should_execute s' e ≡ should_execute s e)
    → is_ready s' (start_one s here o) ≡ (is_ready s o && not here)
is_ready-start_one s s' here none same = refl
is_ready-start_one s s' here (some e) same =
    ground (arith, same e, same (record e { state = running }), should_execute_running s e)

startable-try_start :
    (t : ℕ) (x : Executor) (u : ℕ) → startable (try_start t x) u ≡ (startable x u && not (t == u))
startable-try_start t x u =
    ap (is_ready (try_start t x).tasks) (tasks-try_start t x u)
    ∙ is_ready-start_one x.tasks (try_start t x).tasks (t == u) (x.tasks u)
        (should_execute_cong x.tasks (try_start t x).tasks (dep_done-try_start t x))

live-try_start :
    (t : ℕ) (x : Executor) (u : ℕ)
    → live u (try_start t x).runs ≡ live u x.runs + (if t == u && startable x u then 1 else 0)
unfolding try_start live
live-try_start t x u = ground arith

start_all-live :
    (order : List ℕ) (x : Executor) (u : ℕ)
    → live u (start_all order x).runs
      ≡ live u x.runs + (if mem u order && startable x u then 1 else 0)
unfolding start_all
start_all-live [] x u = ground arith
start_all-live (t ∷ order) x u =
    ground (
      arith,
      live-try_start t x u,
      startable-try_start t x u,
      start_all-live order (try_start t x) u,
    )

start_one-false : (s : TaskSet) (o : Option TaskExecution) → start_one s false o ≡ o
start_one-false s none = refl
start_one-false s (some e) = refl

-- A pass that visits every task it is given, in whatever order and however often, starts exactly
-- the startable ones among them, once each, and leaves every other execution as it was. On a
-- cancelled executor it does nothing.
pub run_pass_lem :
    (order : List ℕ) (x : Executor) (t : ℕ)
    → let go = not (is_cancelled x.cancelled root) && mem t order in
      ((run_pass order x).tasks t ≡ start_one x.tasks go (x.tasks t))
      × (live t (run_pass order x).runs ≡ live t x.runs + (if go && startable x t then 1 else 0))
unfolding run_pass
run_pass_lem order x t = elim (Bool-cases (is_cancelled x.cancelled root)) [
  | inl c ↦ rw c (sym (start_one-false x.tasks (x.tasks t)), omega arith)
  | inr c ↦ rw c (start_all-tasks order x t, start_all-live order x t)
]
