-- ===== src/GoBuild/Batch/Races.antt =====
-- What happens when a call of Build comes between the timer and a build.
use taskrunner.Prelude.{
  ℕ, ◌≡◌, ◌⊎◌, inl, inr, refl, ap, ◌∙◌, ◌==◌, ==_refl, Bool, Bool-cases, true, false, Option, none,
  some, List, [], ◌∷◌, ◌++◌, Text, All, arith,
}
use taskrunner.GoBuild.Batch.Runs.{run_builder_inv, and_then-went}
use taskrunner.GoBuild.Batch.{
  CallPhase, outside, sent, entered, waiting, returned, GoBuilder, went, panicked, set_phase,
  send_request, enter, look, wake, take_request, fire, finish_build, builder_step, BuilderLabel,
  send_label, enter_label, look_label, wake_label, take_label, fire_label, finish_label,
  run_builder,
}

-- A package is requested when the timer has fired but its build has not yet taken the lock.
abbrev pub late_request : ℕ → Text → ℕ → Bool → Bool → List BuilderLabel
late_request c pkg l err err' =
    send_label c pkg l
    ∷ enter_label c
    ∷ fire_label
    ∷ finish_label err
    ∷ take_label
    ∷ fire_label
    ∷ finish_label err'
    ∷ []

-- Whenever a build is due, its requests are taken, and its callers wait, one more call of Build can
-- come in time to wait for this build but too late for its package to be part of it. The build of
-- that package then closes a channel that is nil, which ends the program.
pub late_request-panics :
    (c : ℕ) (pkg : Text) (l ch : ℕ) (err err' : Bool) (b : GoBuilder)
    → b.phase c ≡ outside
    → b.requests ≡ []
    → b.timer ≡ true
    → b.building ≡ false
    → b.done_ch ≡ some ch
    → run_builder (late_request c pkg l err err') b ≡ panicked
unfolding run_builder builder_step send_request enter take_request fire finish_build
late_request-panics c pkg l ch err err' b outer none_left due free open_ch =
    ground (arith, ==_refl c)

-- The label lets a call make a channel.
abbrev pub is_enter : BuilderLabel → Bool
is_enter (enter_label d) = true
is_enter _ = false

module _ (c : ℕ) (pkg : Text) where
  abbrev IsLost : GoBuilder → Type 0
  IsLost b = b.phase c ≡ waiting pkg none

  -- A change of the phase of another caller.
  other_caller :
      (d : ℕ) (p : CallPhase) (b : GoBuilder)
      → IsLost b
      → (c == d) ≡ false
      → set_phase d p b.phase c ≡ waiting pkg none
  other_caller d p b h e = rw e h

  builder_step-IsLost :
      (l : BuilderLabel) (b b' : GoBuilder) → IsLost b → builder_step l b ≡ went b' → IsLost b'
  unfolding builder_step send_request enter look wake take_request fire finish_build
  builder_step-IsLost (send_label d q m) b b' h e = ground arith
  builder_step-IsLost (enter_label d) b b' h e = ground arith
  builder_step-IsLost (look_label d) b b' h e = ground arith
  builder_step-IsLost (wake_label d) b b' h e = ground arith
  builder_step-IsLost take_label b b' h e = ground arith
  builder_step-IsLost fire_label b b' h e = ground arith
  builder_step-IsLost (finish_label err) b b' h e = ground arith

  -- No channel is made, and the call has not read one.
  abbrev IsLate : GoBuilder → Type 0
  IsLate b = (b.done_ch ≡ none) × ((b.phase c ≡ entered pkg) ⊎ IsLost b)

  finish_build-IsLate :
      (err : Bool) (o : Option ℕ) (b b' : GoBuilder)
      → b.phase c ≡ entered pkg
      → finish_build err o b ≡ went b'
      → IsLate b'
  unfolding finish_build
  finish_build-IsLate err none b b' at h = absurd (ground arith)
  finish_build-IsLate err (some ch) b b' at h = (ground arith, inl (ground arith))

  look-IsLate :
      (d : ℕ) (p : CallPhase) (b b' : GoBuilder)
      → b.phase d ≡ p
      → IsLate b
      → look d p b ≡ went b'
      → IsLate b'
  unfolding look
  look-IsLate d outside b b' e h r = cc
  look-IsLate d (sent q) b b' e h r = cc
  look-IsLate d (entered q) b b' e (unmade, h) r = elim (Bool-cases (c == d)) [
    | inl k ↦
        let here : c ≡ d = ground arith in
        let phase : b.phase c ≡ entered q = ap b.phase here ∙ e in
        let same : q ≡ pkg = elim h [ inl a ↦ cc | inr l ↦ absurd (ground arith) ] in
        (ground arith, inr (ground arith))
    | inr k ↦ elim h [
      | inl a ↦ (ground arith, inl (ground arith))
      | inr l ↦ (ground arith, inr (ground arith))
    ]
  ]
  look-IsLate d (waiting q o) b b' e h r = cc
  look-IsLate d (returned q f) b b' e h r = cc

  -- Any step but the entry of a call keeps it so.
  builder_step-IsLate :
      (l : BuilderLabel) (b b' : GoBuilder)
      → is_enter l ≡ false
      → IsLate b
      → builder_step l b ≡ went b'
      → IsLate b'
  unfolding builder_step send_request wake take_request fire finish_build
  builder_step-IsLate (send_label d q m) b b' k (unmade, inl at) e =
      (ground arith, inl (ground arith))
  builder_step-IsLate (send_label d q m) b b' k (unmade, inr lost) e =
      (ground arith, inr (ground arith))
  builder_step-IsLate (enter_label d) b b' k h e = cc
  builder_step-IsLate (look_label d) b b' k h e = look-IsLate d (b.phase d) b b' refl h e
  builder_step-IsLate (wake_label d) b b' k (unmade, inl at) e = (ground arith, inl (ground arith))
  builder_step-IsLate (wake_label d) b b' k (unmade, inr lost) e =
      (ground arith, inr (ground arith))
  builder_step-IsLate take_label b b' k (unmade, inl at) e = (ground arith, inl (ground arith))
  builder_step-IsLate take_label b b' k (unmade, inr lost) e = (ground arith, inr (ground arith))
  builder_step-IsLate fire_label b b' k (unmade, inl at) e = (ground arith, inl (ground arith))
  builder_step-IsLate fire_label b b' k (unmade, inr lost) e = (ground arith, inr (ground arith))
  builder_step-IsLate (finish_label err) b b' k (unmade, inl at) e =
      (ground arith, inl (ground arith))
  builder_step-IsLate (finish_label err) b b' k (unmade, inr lost) e =
      (ground arith, inr (ground arith))

  look-IsLost :
      (p : CallPhase) (b b' : GoBuilder)
      → b.phase c ≡ p
      → IsLate b
      → look c p b ≡ went b'
      → IsLost b'
  unfolding look
  look-IsLost outside b b' e h r = cc
  look-IsLost (sent q) b b' e h r = cc
  look-IsLost (entered q) b b' e (unmade, inl a) r =
      let same : q ≡ pkg = cc in ground (arith, ==_refl c)
  look-IsLost (entered q) b b' e (unmade, inr l) r = absurd (ground arith)
  look-IsLost (waiting q o) b b' e h r = cc
  look-IsLost (returned q f) b b' e h r = cc

  run_late :
      (between labels : List BuilderLabel) (b later : GoBuilder)
      → All (λ l. is_enter l ≡ false) between
      → IsLate b
      → run_builder (between ++ look_label c ∷ labels) b ≡ went later
      → IsLost later
  unfolding run_builder
  run_late [] labels b later k h e =
      let (x, step, rest) =
        and_then-went (builder_step (look_label c) b) (run_builder labels) later e in
      run_builder_inv IsLost builder_step-IsLost labels x later
        (look-IsLost (b.phase c) b x refl h step) rest
  run_late (l ∷ between) labels b later k h e =
      let (x, step, rest) =
        and_then-went (builder_step l b) (run_builder (between ++ look_label c ∷ labels)) later e in
      run_late between labels x later k.1 (builder_step-IsLate l b x k.0 h step) rest

  -- A call of Build that has made or found its channel but not read it when a build ends reads nil, if
  -- no other call of Build makes a channel before it reads, and then waits whatever happens later.
  pub slow_look-IsLost :
      (err : Bool) (between labels : List BuilderLabel) (b later : GoBuilder)
      → b.phase c ≡ entered pkg
      → All (λ l. is_enter l ≡ false) between
      → run_builder (finish_label err ∷ between ++ look_label c ∷ labels) b ≡ went later
      → later.phase c ≡ waiting pkg none
  unfolding run_builder builder_step
  slow_look-IsLost err between labels b later at k e =
      let (x, step, rest) =
        and_then-went (finish_build err b.done_ch b)
          (run_builder (between ++ look_label c ∷ labels)) later e in
      run_late between labels x later k (finish_build-IsLate err b.done_ch b x at step) rest
