-- ===== src/GoBuild/Batch/Requests.antt =====
-- No request of a package is lost.
use taskrunner.Prelude.{
  ℕ, ◌+◌, ◌≡◌, refl, sym, ap, subst, ◌∙◌, ◌==◌, Bool, true, false, not, ◌&&◌, Option, none, some,
  List, [], ◌∷◌, Text, any, In, arith, inl, inr, Bool-cases,
}
use taskrunner.GoBuild.Batch.Runs.{went_inj, run_builder_inv}
use taskrunner.GoBuild.Batch.{
  Request, CallPhase, outside, sent, entered, waiting, returned, GoBuilder, went, set_phase, enter,
  look, wake, take_request, fire, finish_build, builder_step, BuilderLabel, send_label, enter_label,
  look_label, wake_label, take_label, fire_label, finish_label, run_builder, put_package,
  put_logger, new_go_builder,
}
use taskrunner.GoBuild.Batch.Sound.{
  asked, Seen, IsSound, put_package-self, put_package-old, asked-set_phase, send_request-IsSound,
}

-- A step that changes no more than the phase of a caller, its channels and the error.
phase-IsSound :
    (c : ℕ) (p : CallPhase) (done_ch : Option ℕ) (next_ch : ℕ) (b : GoBuilder)
    → asked p ≡ asked (b.phase c)
    → IsSound b
    → IsSound (record b { done_ch = done_ch; next_ch = next_ch; phase = set_phase c p b.phase })
phase-IsSound c p done_ch next_ch b h s = record {
  kept = λ d q a. s.kept d q (sym (asked-set_phase c d p b.phase h) ∙ a);
  under_way = s.under_way;
}

take_request-IsSound :
    (rs : List Request) (b b' : GoBuilder)
    → b.requests ≡ rs
    → IsSound b
    → take_request rs b ≡ went b'
    → IsSound b'
unfolding take_request
take_request-IsSound [] b b' e s h = cc
take_request-IsSound (r ∷ rs) b b' e s h = elim (Bool-cases b.building) [
  | inl k ↦ absurd (ground arith)
  | inr k ↦ subst IsSound (went_inj (ground arith)) taken
]
  where
    still :
        (q : Text)
        → Seen q b.requests b.packages b.commands
        → Seen q rs (put_package r.pkg b.packages) b.commands
    still q i = elim (subst (λ l. Seen q l b.packages b.commands) e i) [
      | inl j ↦ elim j [
        | inl this ↦ inr (
            inl (
              subst (λ p. In p (put_package r.pkg b.packages)) (sym this)
                (put_package-self r.pkg b.packages)))
        | inr later ↦ inl later
      ]
      | inr j ↦ inr (elim j [
        | inl old ↦ inl (put_package-old q r.pkg b.packages old)
        | inr built ↦ inr built
      ])
    ]

    taken : IsSound (record b {
      requests = rs;
      packages = put_package r.pkg b.packages;
      loggers = put_logger r.logger b.loggers;
      timer = true;
    })
    taken = record {
      kept = λ d q a. still q (s.kept d q a);
      under_way = λ k. absurd (ground arith);
    }

enter-IsSound :
    (c : ℕ) (p : CallPhase) (b b' : GoBuilder)
    → b.phase c ≡ p
    → IsSound b
    → enter c p b ≡ went b'
    → IsSound b'
unfolding enter
enter-IsSound c outside b b' e s h = cc
enter-IsSound c (sent q) b b' e s h = elim (Bool-cases b.building) [
  | inl k ↦ absurd (ground arith)
  | inr k ↦ opened b.done_ch refl
]
  where
    same : asked (entered q) ≡ asked (b.phase c)
    same = ap asked (sym e)

    opened : (o : Option ℕ) → b.done_ch ≡ o → IsSound b'
    opened none d =
        subst IsSound (went_inj (ground arith))
          (phase-IsSound c (entered q) (some b.next_ch) (b.next_ch + 1) b same s)
    opened (some ch) d =
        subst IsSound (went_inj (ground arith))
          (phase-IsSound c (entered q) b.done_ch b.next_ch b same s)
enter-IsSound c (entered q) b b' e s h = cc
enter-IsSound c (waiting q ch) b b' e s h = cc
enter-IsSound c (returned q err) b b' e s h = cc

look-IsSound :
    (c : ℕ) (p : CallPhase) (b b' : GoBuilder)
    → b.phase c ≡ p
    → IsSound b
    → look c p b ≡ went b'
    → IsSound b'
unfolding look
look-IsSound c outside b b' e s h = cc
look-IsSound c (sent q) b b' e s h = cc
look-IsSound c (entered q) b b' e s h =
    subst IsSound (went_inj h)
      (phase-IsSound c (waiting q b.done_ch) b.done_ch b.next_ch b (ap asked (sym e)) s)
look-IsSound c (waiting q ch) b b' e s h = cc
look-IsSound c (returned q err) b b' e s h = cc

wake-IsSound :
    (c : ℕ) (p : CallPhase) (b b' : GoBuilder)
    → b.phase c ≡ p
    → IsSound b
    → wake c p b ≡ went b'
    → IsSound b'
unfolding wake
wake-IsSound c outside b b' e s h = cc
wake-IsSound c (sent q) b b' e s h = cc
wake-IsSound c (entered q) b b' e s h = cc
wake-IsSound c (waiting q none) b b' e s h = cc
wake-IsSound c (waiting q (some ch)) b b' e s h = elim (Bool-cases (any (λ d. ch == d) b.closed)) [
  | inl k ↦
      subst IsSound (went_inj (ground arith))
        (phase-IsSound c (returned q b.err) b.done_ch b.next_ch b (ap asked (sym e)) s)
  | inr k ↦ absurd (ground arith)
]
wake-IsSound c (returned q err) b b' e s h = cc

fire-IsSound : (b b' : GoBuilder) → IsSound b → fire b ≡ went b' → IsSound b'
unfolding fire
fire-IsSound b b' s h = elim (Bool-cases (b.timer && not b.building)) [
  | inl k ↦ subst IsSound (went_inj (ground arith)) fired
  | inr k ↦ absurd (ground arith)
]
  where
    still :
        (q : Text)
        → Seen q b.requests b.packages b.commands
        → Seen q b.requests b.packages (b.packages ∷ b.commands)
    still q (inl i) = inl i
    still q (inr (inl i)) = inr (inl i)
    still q (inr (inr i)) = inr (inr (inr i))

    fired :
        IsSound (record b { timer = false; building = true; commands = b.packages ∷ b.commands })
    fired = record { kept = λ d q a. still q (s.kept d q a); under_way = λ k q i. inl i }

finish_build-IsSound :
    (err : Bool) (o : Option ℕ) (b b' : GoBuilder)
    → IsSound b
    → finish_build err o b ≡ went b'
    → IsSound b'
unfolding finish_build
finish_build-IsSound err none b b' s h = absurd (ground arith)
finish_build-IsSound err (some ch) b b' s h = elim (Bool-cases b.building) [
  | inl k ↦ subst IsSound (went_inj (ground arith)) (finished k)
  | inr k ↦ absurd (ground arith)
]
  where
    finished :
        b.building ≡ true
        → IsSound (record b {
          err = err;
          closed = ch ∷ b.closed;
          done_ch = none;
          packages = [];
          loggers = [];
          building = false;
        })
    finished k = record {
      kept = λ d q a. elim (s.kept d q a) [
        | inl i ↦ inl i
        | inr j ↦ elim j [ inl i ↦ inr (inr (s.under_way k q i)) | inr i ↦ inr (inr i) ]
      ];
      under_way = λ f q i. elim i [ ];
    }

builder_step-IsSound :
    (l : BuilderLabel) (b b' : GoBuilder) → IsSound b → builder_step l b ≡ went b' → IsSound b'
unfolding builder_step
builder_step-IsSound (send_label c pkg l) b b' s h =
    send_request-IsSound c pkg l (b.phase c) b b' s h
builder_step-IsSound (enter_label c) b b' s h = enter-IsSound c (b.phase c) b b' refl s h
builder_step-IsSound (look_label c) b b' s h = look-IsSound c (b.phase c) b b' refl s h
builder_step-IsSound (wake_label c) b b' s h = wake-IsSound c (b.phase c) b b' refl s h
builder_step-IsSound take_label b b' s h = take_request-IsSound b.requests b b' refl s h
builder_step-IsSound fire_label b b' s h = fire-IsSound b b' s h
builder_step-IsSound (finish_label err) b b' s h = finish_build-IsSound err b.done_ch b b' s h

-- After any steps of a new builder without a panic, a package that a call of Build has sent is still
-- queued, or among the packages of the next build, or in a command that was run: a build does not
-- forget the packages of requests that it has not taken.
pub run_builder-Seen :
    (labels : List BuilderLabel) (b : GoBuilder) (c : ℕ) (pkg : Text)
    → run_builder labels new_go_builder ≡ went b
    → asked (b.phase c) ≡ some pkg
    → Seen pkg b.requests b.packages b.commands
run_builder-Seen labels b c pkg h a =
    let fresh : IsSound new_go_builder = record {
      kept = λ d q e. absurd (ground arith);
      under_way = λ e. absurd (ground arith);
    } in
    let sound = run_builder_inv IsSound builder_step-IsSound labels new_go_builder b fresh h in
    sound.kept c pkg a
