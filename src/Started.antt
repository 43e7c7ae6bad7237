-- ===== src/Started.antt =====
-- What holds of an executor that `Run` has started, whatever happens to it.
use taskrunner.Prelude.{
  ℕ, ◌+◌, ◌≡◌, ◌≢◌, ◌≤◌, ◌<◌, subst, Bool, true, some, List, [], Text, arith, Bool-cases, inl, inr,
}
use taskrunner.Task.{Task}
use taskrunner.TaskSet.{TaskExecution, dep_done}
use taskrunner.TaskSet.Closure.{Needs, IsComplete-of_recorded}
use taskrunner.TaskSet.Add.{IsRanked}
use taskrunner.Executor.{Executor, run_pass}
use taskrunner.Executor.Live.{live}
use taskrunner.Executor.Pass.{startable, run_pass_lem}
use taskrunner.Schedule.{Label, run}
use taskrunner.Schedule.Plans.{IsExclusive}
use taskrunner.Schedule.Exclusion.{run-IsExclusive}
use taskrunner.Schedule.Graph.{run-SameGraph, startable-Needs-done}
use taskrunner.Start.{started, task_registry, start}
use taskrunner.Start.Graph.{Explains, start-Explains}
use taskrunner.Start.Fresh.{IsFresh}

-- An executor with a graph that nothing has touched.
fresh-IsExclusive : (x : Executor) → IsFresh x.tasks → x.runs ≡ [] → IsExclusive x
unfolding live
fresh-IsExclusive x f r t = ground (arith, f t)

-- A pass starts a goroutine for startable tasks only.
startable_of_start :
    (t : ℕ) (y : Executor) (order : List ℕ)
    → live t (run_pass order y).runs ≢ live t y.runs
    → startable y t ≡ true
startable_of_start t y order starts = elim (Bool-cases (startable y t)) [
  | inl h ↦ h
  | inr h ↦ let grows = (run_pass_lem order y t).1 in absurd (starts (ground arith))
]

module _ (definition : ℕ → Task) (fuel depth : ℕ) (all : List ℕ) (flag_args : Text → List Text)
    (order : List ℕ) (hooks : List Bool) (names : List Text) (rank : ℕ → ℕ)
    (ranked : IsRanked definition rank)
    (enough : (name : Text) (t : ℕ) → task_registry definition all name ≡ some t → rank t < fuel)
    (x : Executor) (begun : start definition fuel all flag_args order hooks names ≡ started x)
    (ls : List Label) (y : Executor) (reached : run definition depth ls x ≡ some y) where
  begun_lem :
      Explains definition (task_registry definition all) flag_args order hooks names (started x)
  begun_lem =
      subst (Explains definition (task_registry definition all) flag_args order hooks names) begun
        (start-Explains definition fuel all flag_args order hooks names rank ranked enough)

  -- From an executor that `Run` has started, where the dependencies have no cycle, after any steps
  -- of its goroutines, watchers and timers, no task is run by two goroutines at once, and none by
  -- one whose predecessor's end has yet to be received.
  pub run-exclusive :
      (t : ℕ) (e : TaskExecution) → y.tasks t ≡ some e → live t y.runs + e.terminal_ch ≤ 1
  run-exclusive t e h = ground (
    arith,
    run-IsExclusive definition depth ls x reached
        (fresh-IsExclusive x begun_lem.0.fresh begun_lem.1) t,
  )

  -- From an executor that `Run` has started, where the dependencies have no cycle, after any
  -- steps, a pass starts a goroutine for a task only if all tasks that it needs, at any depth, are
  -- done.
  pub run-Needs-done :
      (order' : List ℕ) (t d : ℕ)
      → live t (run_pass order' y).runs ≢ live t y.runs
      → Needs definition d t
      → dep_done (y.tasks d) ≡ true
  run-Needs-done order' t d starts n =
      startable-Needs-done definition y t d
        (IsComplete-of_recorded definition x.tasks y.tasks
          (run-SameGraph definition depth ls x reached) begun_lem.0.complete)
        (startable_of_start t y order' starts) n
