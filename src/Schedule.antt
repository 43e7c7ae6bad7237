-- ===== src/Schedule.antt =====
-- executor.go: the goroutine that `runPass` starts for a task, step by step, and the steps of a
-- whole executor. A schedule is a list of labels: it chooses which goroutine moves, what the
-- tasks return, the order in which maps are visited, and the invalidations from outside.
pub mod Plans
pub mod Exclusion
pub mod Stuck
pub mod Race
pub mod Deadlock
pub mod Graph
pub mod Reset
pub mod Draining
pub mod Evaluation
use taskrunner.Prelude.{
  ℕ, zero, suc, ◌+◌, ◌≡◌, refl, ◌⊎◌, inl, inr, if◌then◌else◌, Bool, true, false, not, ◌&&◌, ◌||◌,
  Option, none, some, List, [], ◌∷◌,
}
use taskrunner.Task.{Task, InvalidationEvent, keep_alive_stopped}
use taskrunner.TaskSet.{
  error, done, canceled, Context, is_canceled, is_cancelled, TaskExecution, update,
}
use taskrunner.Executor.{
  Event, task_started, task_completed, task_failed, task_stopped, Verdict, stopped,
  stopped_for_good, failed, completed, Phase, spawned, executing, decided, settled, flushed,
  notified, planned, Run, Plan, idle, next, wait, Executor, root, publish_event, run_pass,
  start_all, evaluate_plan, drain, invalidate,
}

-- A late pass has looked at the context before a shutdown, and has the lock after it.
pub data Move : Type 0 where
  enter settle flush notify : Move
  finish : Bool → Move
  evaluate pass late_pass : (order : List ℕ) → Move

pub data Label : Type 0 where
  passes late_passes evaluates : (order : List ℕ) → Label
  drains shuts_down : Label
  invalidates : ℕ → InvalidationEvent → Label
  goes : ℕ → Move → Label

-- The verdict on a finished task, from its error and the contexts.
unfoldable pub verdict : List ℕ → Context → Bool → Verdict
verdict cancelled ctx f =
    if is_cancelled cancelled ctx
    then (if is_cancelled cancelled root then stopped_for_good else stopped)
    else if f
    then failed
    else completed

abbrev pub verdict_event : ℕ → Verdict → Event
verdict_event t stopped = task_stopped t
verdict_event t stopped_for_good = task_stopped t
verdict_event t failed = task_failed t
verdict_event t completed = task_completed t

-- A task that an invalidation stopped has its state already.
abbrev pub write_state : ℕ → TaskExecution → Verdict → Executor → Executor
write_state t e stopped x = x
write_state t e stopped_for_good x = record x {
  tasks = update x.tasks t (record e { state = canceled });
}
write_state t e failed x = record x { tasks = update x.tasks t (record e { state = error }) }
write_state t e completed x = record x { tasks = update x.tasks t (record e { state = done }) }

abbrev pub is_idle : Plan → Bool
is_idle idle = true
is_idle _ = false

pub idle-cases : (p : Plan) → (p ≡ idle) ⊎ (is_idle p ≡ false)
idle-cases idle = inl refl
idle-cases (next ts) = inr refl
idle-cases (wait t ts) = inr refl

-- The error that the goroutine returns to the error group.
abbrev pub count_error : Context → Bool → Executor → Executor
count_error ctx f x = record x {
  errors = (if f && not (is_cancelled x.cancelled ctx) then x.errors + 1 else x.errors);
}

abbrev pub send : ℕ → TaskExecution → ℕ → Executor → Option Executor
send t e zero x = some (record x { tasks = update x.tasks t (record e { terminal_ch = 1 }) })
send t e (suc n) x = none

-- A task with neither function set returns no error.
abbrev pub failure : Task → Bool → Bool
failure task f = (task.run || task.run_with_flags) && f

abbrev pub then_run {ℓ} : {A : Type ℓ} → A → Option Executor → Option (A × Executor)
then_run a none = none
then_run a (some x) = some (a, x)

module _ (definition : ℕ → Task) (depth : ℕ) where
  -- The restart of a task that is to be kept alive.
  unfoldable pub keep_alive : ℕ → TaskExecution → Executor → Option Executor
  unfolding invalidate
  keep_alive t e x =
      if (definition t).keep_alive && not (is_canceled e.state)
      then invalidate definition depth keep_alive_stopped t x
      else some x

  -- One move of the goroutine of task `t`, whose execution is `e`: its next phase, `none` when it
  -- has ended, and the executor. A move that is blocked or not its next one gives `none`.
  unfoldable pub move :
      Move → ℕ → TaskExecution → Phase → Executor → Option (Option Phase × Executor)
  unfolding publish_event keep_alive evaluate_plan run_pass start_all verdict
  move enter t e spawned x = some (some (executing e.ctx), publish_event (task_started t) x)
  move (finish b) t e (executing ctx) x =
      let f = failure (definition t) b in some (some (decided ctx f (verdict x.cancelled ctx f)), x)
  move settle t e (decided ctx f v) x =
      some (some (settled ctx f), publish_event (verdict_event t v) (write_state t e v x))
  move flush t e (settled ctx f) x = then_run (some (flushed ctx f)) (send t e e.terminal_ch x)
  move notify t e (flushed ctx f) x = then_run (some (notified ctx f)) (keep_alive t e x)
  move (evaluate order) t e (notified ctx true) x = some (some (planned ctx true), x)
  move (evaluate order) t e (notified ctx false) x =
      if is_idle x.plan then some (some (planned ctx false), evaluate_plan order x) else none
  move (pass order) t e (planned ctx f) x =
      if is_idle x.plan then some (none, run_pass order (count_error ctx f x)) else none
  move (late_pass order) t e (planned ctx f) x =
      if is_idle x.plan then some (none, start_all order (count_error ctx f x)) else none
  move _ t e _ x = none

-- One goroutine out of the bag, and the others.
unfoldable pub pick : ℕ → List Run → Option (Run × List Run)
pick n [] = none
pick zero (r ∷ rs) = some (r, rs)
pick (suc n) (r ∷ rs) = elim (pick n rs) [ none ↦ none | some (q, qs) ↦ some (q, r ∷ qs) ]

-- A goroutine that moved goes back into the bag, in front.
abbrev pub put : ℕ → Option (Option Phase × Executor) → Option Executor
put t none = none
put t (some (none, x)) = some x
put t (some (some p, x)) = some (record x { runs = record { task = t; phase = p } ∷ x.runs })

module _ (definition : ℕ → Task) (depth : ℕ) where
  unfoldable pub go : Move → Run → Executor → Option Executor
  unfolding move
  go m r x = elim (x.tasks r.task) [
    | none ↦ none
    | some e ↦ put r.task (move definition depth m r.task e r.phase x)
  ]

  abbrev pub go_picked : Move → Executor → Option (Run × List Run) → Option Executor
  go_picked m x none = none
  go_picked m x (some (r, rest)) = go m r (record x { runs = rest })

  -- One step of the whole executor, `none` where the label is not enabled.
  unfoldable pub step : Label → Executor → Option Executor
  unfolding pick go run_pass start_all evaluate_plan drain invalidate
  step (passes order) x = if is_idle x.plan then some (run_pass order x) else none
  step (late_passes order) x = if is_idle x.plan then some (start_all order x) else none
  step (evaluates order) x = if is_idle x.plan then some (evaluate_plan order x) else none
  step drains x = drain x.plan x
  step shuts_down x = some (record x { cancelled = 0 ∷ x.cancelled })
  step (invalidates t event) x = invalidate definition depth event t x
  step (goes n m) x = go_picked m x (pick n x.runs)

  abbrev pub after {ℓ} : {A : Type ℓ} → Option Executor → (Executor → Option A) → Option A
  after none f = none
  after (some x) f = f x

  unfoldable pub run : List Label → Executor → Option Executor
  unfolding step
  run [] x = some x
  run (l ∷ ls) x = after (step l x) (run ls)
