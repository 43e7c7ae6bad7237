-- ===== src/Schedule/Race.antt =====
-- A task that ends while it is being invalidated.
use taskrunner.Prelude.{
  ℕ, ◌+◌, ◌≡◌, refl, Bool, true, false, some, List, [], ◌∷◌, ◌++◌, arith, ==_refl,
}
use taskrunner.Task.{Task}
use taskrunner.TaskSet.{State, invalid, running, error, done, Context, TaskExecution, update}
use taskrunner.Executor.{
  Verdict, failed, completed, decided, settled, flushed, Run, next, wait, Executor, cancel, root,
}
use taskrunner.Executor.Live.{live}
use taskrunner.Schedule.{Label, settle, flush, drains, goes, step, run, verdict_event}

-- The verdict on a task whose context is not cancelled, and the state that goes with it.
abbrev pub ended : Bool → Verdict
ended true = failed
ended false = completed

abbrev pub end_state : Bool → State
end_state true = error
end_state false = done

module _ (t : ℕ) (ts : List ℕ) (ctx : Context) (f : Bool) (rest : List Run) where
  -- A plan is about to invalidate `t`. The goroutine of `t` has seen that its context was not
  -- cancelled, and has yet to write the state.
  pub record IsLate (e : TaskExecution) (x : Executor) : Type 0 where
    pub planned : x.plan ≡ next (t ∷ ts)
    pub deciding : x.runs ≡ record { task = t; phase = decided ctx f (ended f) } ∷ rest
    pub alone : live t rest ≡ 0
    pub entry : x.tasks t ≡ some e
    pub started : e.state ≡ running
    pub empty : e.terminal_ch ≡ 0

  -- The executor after each step of `late_schedule`.
  abbrev begun : TaskExecution → Executor → Executor
  begun e x = record x {
    tasks = update x.tasks t (record e { state = invalid; ctx = x.next_ctx ∷ root });
    cancelled = cancel e.ctx x.cancelled;
    next_ctx = x.next_ctx + 1;
    plan = wait t ts;
  }

  abbrev wrote : TaskExecution → Executor → Executor
  wrote e x = record x {
    tasks = update x.tasks t (record e { state = end_state f });
    runs = record { task = t; phase = settled ctx f } ∷ rest;
    events = x.events ++ verdict_event t (ended f) ∷ [];
  }

  abbrev sent : TaskExecution → Executor → Executor
  sent e x = record x {
    tasks = update x.tasks t (record e { terminal_ch = 1 });
    runs = record { task = t; phase = flushed ctx f } ∷ rest;
  }

  abbrev received : TaskExecution → Executor → Executor
  received e x = record x {
    tasks = update x.tasks t (record e { terminal_ch = 0; pending_invalidations = [] });
    plan = next ts;
  }

  abbrev pub late_entry : TaskExecution → Executor → TaskExecution
  late_entry e x = record e { state = end_state f; ctx = x.next_ctx ∷ root }

  abbrev pub late_end : TaskExecution → Executor → Executor
  late_end e x =
      let e₁ = record e { state = invalid; ctx = x.next_ctx ∷ root } in
      let e₂ = late_entry e x in
      let e₃ = record e₂ { terminal_ch = 1 } in received e₃ (sent e₂ (wrote e₁ (begun e x)))

module _ (definition : ℕ → Task) (depth : ℕ) (t : ℕ) (ts : List ℕ) (ctx : Context)
    (rest : List Run) where
  step-begun :
      (f : Bool) (e : TaskExecution) (x : Executor)
      → IsLate t ts ctx f rest e x
      → step definition depth drains x ≡ some (begun t ts ctx f rest e x)
  unfolding step
  step-begun f e x late = ground arith

  step-wrote :
      (f : Bool) (e : TaskExecution) (x : Executor)
      → x.runs ≡ record { task = t; phase = decided ctx f (ended f) } ∷ rest
      → x.tasks t ≡ some e
      → step definition depth (goes 0 settle) x ≡ some (wrote t ts ctx f rest e x)
  unfolding step
  step-wrote true e x r q = ground arith
  step-wrote false e x r q = ground arith

  step-sent :
      (f : Bool) (e : TaskExecution) (x : Executor)
      → x.runs ≡ record { task = t; phase = settled ctx f } ∷ rest
      → x.tasks t ≡ some e
      → e.terminal_ch ≡ 0
      → step definition depth (goes 0 flush) x ≡ some (sent t ts ctx f rest e x)
  unfolding step
  step-sent f e x r q c = ground arith

  step-received :
      (f : Bool) (e : TaskExecution) (x : Executor)
      → x.plan ≡ wait t ts
      → x.tasks t ≡ some e
      → e.terminal_ch ≡ 1
      → step definition depth drains x ≡ some (received t ts ctx f rest e x)
  unfolding step
  step-received f e x r q c = ground arith

  pub run_cons :
      (l : Label) (ls : List Label) (x y : Executor) {z : Executor}
      → step definition depth l x ≡ some y
      → run definition depth ls y ≡ some z
      → run definition depth (l ∷ ls) x ≡ some z
  unfolding run
  run_cons l ls x y h k = ground arith

  -- The invalidation begins, the goroutine writes its state and sends, the invalidation ends.
  pub late-run :
      (f : Bool) (e : TaskExecution) (x : Executor) (ls : List Label) {z : Executor}
      → IsLate t ts ctx f rest e x
      → run definition depth ls (late_end t ts ctx f rest e x) ≡ some z
      → run definition depth (drains ∷ goes 0 settle ∷ goes 0 flush ∷ drains ∷ ls) x ≡ some z
  late-run f e x ls late h =
      let e₁ = record e { state = invalid; ctx = x.next_ctx ∷ root } in
      let e₂ = late_entry t ts ctx f rest e x in
      let e₃ = record e₂ { terminal_ch = 1 } in
      let x₁ = begun t ts ctx f rest e x in
      let x₂ = wrote t ts ctx f rest e₁ x₁ in
      let x₃ = sent t ts ctx f rest e₂ x₂ in
      run_cons drains _ x x₁ (step-begun f e x late) (
        run_cons (goes 0 settle) _ x₁ x₂ (step-wrote f e₁ x₁ late.deciding (rw (==_refl t))) (
          run_cons (goes 0 flush) _ x₂ x₃ (step-sent f e₂ x₂ refl (rw (==_refl t)) late.empty) (
            run_cons drains ls x₃ (late_end t ts ctx f rest e x)
              (step-received f e₃ x₃ refl (rw (==_refl t)) refl) h)))
