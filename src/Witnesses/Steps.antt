-- ===== src/Witnesses/Steps.antt =====
-- The theorems on the race between the end of a task and its invalidation, on the task `build`.
use taskrunner.Prelude.{
  ℕ, ◌==◌, ◌&&◌, if◌then◌else◌, inr, arith, zero, suc, ◌≡◌, refl, false, none, some, List, [], ◌∷◌,
}
use taskrunner.Task.{user_restart}
use taskrunner.TaskSet.{TaskExecution, TaskSet, done, running}
use taskrunner.Executor.{idle, Executor, decided, completed, next, wait, root}
use taskrunner.Executor.Live.{live}
use taskrunner.Schedule.{Label, run, shuts_down, evaluates}
use taskrunner.Schedule.Stuck.{IsStuck, run-IsStuck}
use taskrunner.Schedule.Race.{IsLate}
use taskrunner.Schedule.Deadlock.{late-IsStuck}
use taskrunner.Executor.Pass.{mem}
use taskrunner.Schedule.Reset.{AfterPlan}
use taskrunner.Schedule.Draining.{repeated}
use taskrunner.Schedule.Evaluation.{is_wanted, evaluation_lem}
use taskrunner.Witnesses.{definition}

abbrev entry : TaskExecution
entry = record {
  definition = 0;
  ctx = 1 ∷ root;
  state = running;
  terminal_ch = 0;
  dependencies = [];
  dependents = [];
  pending_invalidations = user_restart ∷ [];
}

abbrev only_build : TaskSet
only_build zero = some entry
only_build (suc n) = none

-- The plan has `build` to invalidate, whose goroutine has decided that it completed.
abbrev late : Executor
late = record {
  tasks = only_build;
  runs = record { task = 0; phase = decided (1 ∷ root) false completed } ∷ [];
  plan = next (0 ∷ []);
  cancelled = [];
  next_ctx = 2;
  invalidation_ch = 1;
  events = [];
  errors = 0;
}

late_lem : IsLate 0 [] (1 ∷ root) false [] entry late
unfolding live
late_lem = record {
  planned = refl;
  deciding = refl;
  alone = refl;
  entry = refl;
  started = refl;
  empty = refl;
}

late-IsStuck_example :
    (ls : List Label) × (y : Executor) × (run definition 1 ls late ≡ some y) × IsStuck 0 [] y
late-IsStuck_example =
    late-IsStuck definition 0 0 (1 ∷ root) false [] user_restart entry late late_lem refl refl

-- The plan waits for `build`, which nobody runs.
abbrev stuck : Executor
stuck = record late { runs = []; plan = wait 0 [] }

stuck_lem : IsStuck 0 [] stuck
unfolding live
stuck_lem = record { waits = refl; silent = refl }

abbrev stopped : Executor
stopped = record stuck { cancelled = 0 ∷ [] }

stopped_lem : run definition 1 (shuts_down ∷ []) stuck ≡ some stopped
unfolding run
stopped_lem = refl

run-IsStuck_example : IsStuck 0 [] stopped
run-IsStuck_example = run-IsStuck definition 1 0 [] (shuts_down ∷ []) stuck stopped_lem stuck_lem

-- `build` has ended, an event is pending for it, and nobody holds the lock.
abbrev ended : Executor
ended = record late {
  tasks = λ t. if t == 0 then some (record entry { state = done; terminal_ch = 1 }) else none;
  runs = [];
  plan = idle;
}

evaluation_lem_example :
    (n : ℕ) × (y : Executor) × (run definition 1 (evaluates (0 ∷ []) ∷ repeated n) ended ≡ some y)
    × (y.plan ≡ idle)
    × ((u : ℕ)
        → AfterPlan (mem u (0 ∷ []) && is_wanted (ended.tasks u)) (ended.tasks u) (y.tasks u))
evaluation_lem_example =
    evaluation_lem definition 1 (0 ∷ []) ended refl (inr (inr (omega arith)), tt)
