-- ===== src/Schedule/Deadlock.antt =====
-- The invalidation after one that a task's end has overtaken never ends.
use taskrunner.Prelude.{
  ℕ, suc, ◌+◌, ◌≡◌, refl, Bool, false, none, some, List, [], ◌∷◌, ◌++◌, arith, ==_refl,
}
use taskrunner.Task.{Task, InvalidationEvent}
use taskrunner.TaskSet.{Context, TaskExecution, update}
use taskrunner.Invalidation.{add_pending, refuses}
use taskrunner.Executor.{Run, idle, next, Executor, invalidate_begin, task_invalidated}
use taskrunner.Executor.Live.{live}
use taskrunner.Schedule.{Label, settle, flush, drains, goes, invalidates, evaluates, step, run}
use taskrunner.Schedule.Stuck.{IsStuck}
use taskrunner.Schedule.Race.{IsLate, end_state, late_entry, late_end, late-run, run_cons}

-- A task that counts as ended, though its channel is empty and no goroutine runs it.
pub record IsLost (t : ℕ) (e : TaskExecution) (f : Bool) (x : Executor) : Type 0 where
  pub entry : x.tasks t ≡ some e
  pub ended : e.state ≡ end_state f
  pub empty : e.terminal_ch ≡ 0
  pub silent : live t x.runs ≡ 0

add_pending_nil : (event : InvalidationEvent) → add_pending event [] ≡ event ∷ []
unfolding add_pending
add_pending_nil event = refl

refuses-none :
    (task : Task) (event : InvalidationEvent)
    → task.should_invalidate ≡ none
    → refuses task event ≡ false
unfolding refuses
refuses-none task event h = rw h

module _ (definition : ℕ → Task) (depth : ℕ) (t : ℕ) (f : Bool) where
  abbrev noted : InvalidationEvent → TaskExecution → Executor → Executor
  noted event e x = record x {
    tasks = update x.tasks t (record e { pending_invalidations = event ∷ [] });
    invalidation_ch = x.invalidation_ch + 1;
  }

  abbrev planned : InvalidationEvent → Executor → Executor
  planned event x = record x {
    plan = next (t ∷ []);
    events = x.events ++ task_invalidated t (event ∷ []) ∷ [];
  }

  step-noted :
      (event : InvalidationEvent) (e : TaskExecution) (x : Executor)
      → IsLost t e f x
      → (definition t).should_invalidate ≡ none
      → e.dependents ≡ []
      → e.pending_invalidations ≡ []
      → step definition (suc depth) (invalidates t event) x ≡ some (noted event e x)
  unfolding step add_pending
  step-noted event e x lost s d p = ground (arith, refuses-none (definition t) event s)

  planned_step :
      (event : InvalidationEvent) (e : TaskExecution) (x : Executor)
      → IsLost t e f x
      → e.pending_invalidations ≡ event ∷ []
      → x.plan ≡ idle
      → step definition (suc depth) (evaluates (t ∷ [])) x ≡ some (planned event x)
  unfolding step
  planned_step event e x lost p i = ground arith

  -- The invalidation of a lost task begins, and waits for a value that nobody will send.
  pub step-IsStuck_wait :
      (ts : List ℕ) (e : TaskExecution) (x : Executor)
      → IsLost t e f x
      → x.plan ≡ next (t ∷ ts)
      → (y : Executor) × (step definition (suc depth) drains x ≡ some y) × IsStuck t ts y
  unfolding step
  step-IsStuck_wait ts e x lost h = (invalidate_begin t ts e x, ground arith, ground arith)

  idle_step :
      (x : Executor)
      → x.plan ≡ next []
      → step definition (suc depth) drains x ≡ some (record x { plan = idle })
  unfolding step
  idle_step x h = ground arith

  run_nil : (x : Executor) → run definition (suc depth) [] x ≡ some x
  unfolding run
  run_nil x = refl

  abbrev pub after_late : InvalidationEvent → List Label
  after_late event = drains ∷ invalidates t event ∷ evaluates (t ∷ []) ∷ drains ∷ []

  -- A lost task, an event for it, and the plan that comes of the event.
  pub lost-IsStuck :
      (event : InvalidationEvent) (e : TaskExecution) (x : Executor)
      → IsLost t e f x
      → (definition t).should_invalidate ≡ none
      → e.dependents ≡ []
      → e.pending_invalidations ≡ []
      → x.plan ≡ next []
      → (y : Executor) × (run definition (suc depth) (after_late event) x ≡ some y) × IsStuck t [] y
  lost-IsStuck event e x lost s d p h =
      let x₁ = record x { plan = idle } in
      let lost₁ : IsLost t e f x₁ = record {
        entry = lost.entry;
        ended = lost.ended;
        empty = lost.empty;
        silent = lost.silent;
      } in
      let e₂ = record e { pending_invalidations = event ∷ [] } in
      let x₂ = noted event e x₁ in
      let lost₂ : IsLost t e₂ f x₂ = record {
        entry = rw (==_refl t);
        ended = lost.ended;
        empty = lost.empty;
        silent = lost.silent;
      } in
      let x₃ = planned event x₂ in
      let lost₃ : IsLost t e₂ f x₃ = record {
        entry = lost₂.entry;
        ended = lost₂.ended;
        empty = lost₂.empty;
        silent = lost₂.silent;
      } in
      let (y, q, stuck) = step-IsStuck_wait [] e₂ x₃ lost₃ refl in
      (
        y,
        run_cons definition (suc depth) t [] [] [] drains _ x x₁ (idle_step x h) (
            run_cons definition (suc depth) t [] [] [] (invalidates t event) _ x₁ x₂
              (step-noted event e x₁ lost₁ s d p)
              (run_cons definition (suc depth) t [] [] [] (evaluates (t ∷ [])) _ x₂ x₃
                (planned_step event e₂ x₂ lost₂ refl refl)
                (run_cons definition (suc depth) t [] [] [] drains _ x₃ y q (run_nil y)))),
        stuck,
      )

late_end-IsLost :
    (t : ℕ) (ts : List ℕ) (ctx : Context) (f : Bool) (rest : List Run) (e : TaskExecution)
    (x : Executor)
    → live t rest ≡ 0
    → IsLost t
        (record (late_entry t ts ctx f rest e x) { terminal_ch = 0; pending_invalidations = [] })
        f
        (late_end t ts ctx f rest e x)
unfolding live
late_end-IsLost t ts ctx f rest e x alone = ground arith

-- Take a task without dependents and without a filter, whose only goroutine has decided that it
-- ended but not yet written so when a plan is about to invalidate it, as its last task. Then there
-- are steps, one of them an invalidation of the task by any event, after which a plan waits for
-- the task, no goroutine runs it, and its channel is empty.
pub late-IsStuck :
    (definition : ℕ → Task) (depth t : ℕ) (ctx : Context) (f : Bool) (rest : List Run)
    (event : InvalidationEvent) (e : TaskExecution) (x : Executor)
    → IsLate t [] ctx f rest e x
    → (definition t).should_invalidate ≡ none
    → e.dependents ≡ []
    → (ls : List Label) × (y : Executor) × (run definition (suc depth) ls x ≡ some y)
      × IsStuck t [] y
late-IsStuck definition depth t ctx f rest event e x late s d =
    let lost = late_end-IsLost t [] ctx f rest e x late.alone in
    let (y, r, stuck) =
      lost-IsStuck definition depth t f event _ (late_end t [] ctx f rest e x) lost s d refl refl in
    (
      drains ∷ goes 0 settle ∷ goes 0 flush ∷ drains ∷ after_late definition depth t f event,
      y,
      late-run definition (suc depth) t [] ctx rest f e x (after_late definition depth t f event)
          late r,
      stuck,
    )
