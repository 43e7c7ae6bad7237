-- ===== src/Buildkite/Lines.antt =====
-- Which lines a reporter keeps of the events that it has seen.
use taskrunner.Prelude.{
  ℕ, zero, suc, ◌+◌, ◌-◌, ◌≤◌, ◌≡◌, refl, sym, ap, subst, fun_ext, ◌∙◌, ◌==◌, if◌then◌else◌,
  if_some, Option, some, List, [], ◌∷◌, ◌++◌, append-nil, Text, length, length-append, drop, arith,
  inl, inr, Bool-cases,
}
use mathlib.Core.List.{append_assoc}
use taskrunner.Prelude.Int.{pos, ◌-ℤ◌}
use taskrunner.Events.{
  TaskLogEventStream, stream_eq, ExecutorEvent, task_log, executor_setup, task_started,
  task_stopped, task_completed, task_failed, task_diagnostic, task_invalidated,
}
use taskrunner.Buildkite.{
  Reporter, message_to_lines, last_n_elements, set_lines, append_logs, append_matching,
  listen_event, listen,
}

module _ {A : Type 0} where
  length-drop : (k : ℕ) (xs : List A) → length (drop k xs) ≡ length xs - k
  length-drop zero xs = omega arith
  length-drop (suc k) [] = omega arith
  length-drop (suc k) (x ∷ xs) = omega (arith, length-drop k xs)

  drop-append : (k : ℕ) (xs ys : List A) → k ≤ length xs → drop k (xs ++ ys) ≡ drop k xs ++ ys
  drop-append zero xs ys h = refl
  drop-append (suc k) [] ys h = absurd (omega arith)
  drop-append (suc k) (x ∷ xs) ys h = drop-append k xs ys (omega arith)

  drop-drop : (k j m : ℕ) (xs : List A) → m ≡ k + j → drop j (drop k xs) ≡ drop m xs
  drop-drop zero j m xs h = ap (λ i. drop i xs) (omega arith)
  drop-drop (suc k) j zero xs h = absurd (omega arith)
  drop-drop (suc k) zero (suc m) [] h = refl
  drop-drop (suc k) (suc j) (suc m) [] h = refl
  drop-drop (suc k) j (suc m) (x ∷ xs) h = drop-drop k j m xs (omega arith)

  -- The last `n` elements of a list, or all of it if it has fewer.
  abbrev pub last_of : ℕ → List A → List A
  last_of n xs = drop (length xs - n) xs

  -- What was cut off before is cut off after.
  last_of-append : (n : ℕ) (xs ys : List A) → last_of n (last_of n xs ++ ys) ≡ last_of n (xs ++ ys)
  last_of-append n xs ys =
      let k = length xs - n in
      let l = length (drop k xs ++ ys) - n in
      let cut : drop k xs ++ ys ≡ drop k (xs ++ ys) = sym (drop-append k xs ys (omega arith)) in
      ap (drop l) cut
      ∙ drop-drop k l (length (xs ++ ys) - n) (xs ++ ys)
          (omega (arith, length-append xs ys, length-append (drop k xs) ys, length-drop k xs))

last_n_elements_lem :
    (n : ℕ) (slice : List Text) → last_n_elements slice (pos n) ≡ some (last_of n slice)
unfolding last_n_elements ◌-ℤ◌
last_n_elements_lem n slice = ground arith

-- The lines of a message, once for each of the streams that it is on.
abbrev matching : List TaskLogEventStream → TaskLogEventStream → Text → List Text
matching [] stream message = []
matching (s ∷ streams) stream message =
    (if stream_eq s stream then message_to_lines message else []) ++ matching streams stream message

-- The lines of a task in an event.
abbrev event_lines : List TaskLogEventStream → ℕ → ExecutorEvent → List Text
event_lines streams t (task_log task message stream) =
    if t == task then matching streams stream message else []
event_lines streams t _ = []

-- All lines of a task on the streams, in the order of the events.
abbrev pub lines_of : List TaskLogEventStream → ℕ → List ExecutorEvent → List Text
lines_of streams t [] = []
lines_of streams t (event ∷ events) = event_lines streams t event ++ lines_of streams t events

module _ (n : ℕ) where
  -- `r'` keeps of each task the last lines of what `r` has and of `new`.
  record Keeps (r r' : Reporter) (new : ℕ → List Text) : Type 0 where
    streams : r'.streams ≡ r.streams
    max_lines : r'.max_lines ≡ r.max_lines
    kept : (t : ℕ) → last_of n (r'.stderrs t) ≡ last_of n (r.stderrs t ++ new t)
    bounded : ((t : ℕ) → length (r.stderrs t) ≤ n) → (t : ℕ) → length (r'.stderrs t) ≤ n

  Keeps-none : (r : Reporter) → Keeps r r (λ t. [])
  Keeps-none r = record {
    streams = refl;
    max_lines = refl;
    kept = λ t. rw append-nil refl;
    bounded = λ h. h;
  }

  Keeps-Keeps :
      (r s u : Reporter) (new newer all : ℕ → List Text)
      → Keeps r s new
      → Keeps s u newer
      → ((t : ℕ) → new t ++ newer t ≡ all t)
      → Keeps r u all
  Keeps-Keeps r s u new newer all p q e = record {
    streams = q.streams ∙ p.streams;
    max_lines = q.max_lines ∙ p.max_lines;
    kept = λ t.
        q.kept t
        ∙ sym (last_of-append n (s.stderrs t) (newer t))
        ∙ ap (λ l. last_of n (l ++ newer t)) (p.kept t)
        ∙ last_of-append n (r.stderrs t ++ new t) (newer t)
        ∙ ap (last_of n) (append_assoc (r.stderrs t) (new t) (newer t))
        ∙ ap (λ l. last_of n (r.stderrs t ++ l)) (e t);
    bounded = λ h. q.bounded (p.bounded h);
  }

  abbrev Kept : Reporter → Option Reporter → (ℕ → List Text) → Type 0
  Kept r o new = (r' : Reporter) × (o ≡ some r') × Keeps r r' new

  length-last_of : (xs : List Text) → length (last_of n xs) ≤ n
  length-last_of xs = omega (arith, length-drop (length xs - n) xs)

  last_of-last_of : (xs : List Text) → last_of n (last_of n xs) ≡ last_of n xs
  last_of-last_of xs =
      ap (last_of n) (sym (append-nil (last_of n xs)))
      ∙ last_of-append n xs []
      ∙ ap (last_of n) (append-nil xs)

  set_lines-Keeps :
      (task : ℕ) (lines : List Text) (r : Reporter)
      → Keeps r
          (set_lines task (last_of n (r.stderrs task ++ lines)) r)
          (λ t. if t == task then lines else [])
  set_lines-Keeps task lines r = record {
    streams = refl;
    max_lines = refl;
    kept = λ t. elim (Bool-cases (t == task)) [
      | inl e ↦
          let same : t ≡ task = ground arith in
          rw (e, same) (last_of-last_of (r.stderrs task ++ lines))
      | inr e ↦ rw (e, append-nil (r.stderrs t)) refl
    ];
    bounded = λ h t. elim (Bool-cases (t == task)) [
      | inl e ↦ rw e (length-last_of (r.stderrs task ++ lines))
      | inr e ↦ rw e (h t)
    ];
  }

  append_logs-Kept :
      (task : ℕ) (message : Text) (r : Reporter)
      → r.max_lines ≡ pos n
      → Kept r
          (append_logs task message r)
          (λ t. if t == task then message_to_lines message else [])
  unfolding append_logs
  append_logs-Kept task message r h = (
    _,
    ap
          (λ m.
            if_some (last_n_elements (r.stderrs task ++ message_to_lines message) m)
              (λ lines. some (set_lines task lines r)))
          h
        ∙ rw (last_n_elements_lem n (r.stderrs task ++ message_to_lines message)) refl,
    set_lines-Keeps task (message_to_lines message) r,
  )

  -- One result after another.
  Kept-Kept :
      (r : Reporter) (o : Option Reporter) (f : Reporter → Option Reporter)
      (new newer all : ℕ → List Text)
      → Kept r o new
      → ((s : Reporter) → Keeps r s new → Kept s (f s) newer)
      → ((t : ℕ) → new t ++ newer t ≡ all t)
      → Kept r (if_some o f) all
  Kept-Kept r o f new newer all (s, e, p) g h =
      let (u, d, q) = g s p in
      (u, ap (λ o. if_some o f) e ∙ d, Keeps-Keeps r s u new newer all p q h)

  append_matching-Kept :
      (streams : List TaskLogEventStream) (stream : TaskLogEventStream) (task : ℕ) (message : Text)
      (r : Reporter)
      → r.max_lines ≡ pos n
      → Kept r
          (append_matching streams stream task message r)
          (λ t. if t == task then matching streams stream message else [])
  unfolding append_matching
  append_matching-Kept [] stream task message r h =
      (r, refl, subst (Keeps r r) (fun_ext (λ (t : ℕ). ground arith)) (Keeps-none r))
  append_matching-Kept (s ∷ streams) stream task message r h =
      elim (Bool-cases (stream_eq s stream)) [
        | inl e ↦ rw e (
            Kept-Kept r (append_logs task message r) (append_matching streams stream task message) _
              (λ t. if t == task then matching streams stream message else []) _
              (append_logs-Kept task message r h)
              (λ u k. append_matching-Kept streams stream task message u (k.max_lines ∙ h))
              (λ t. ground arith))
        | inr e ↦ rw e (append_matching-Kept streams stream task message r h)
      ]

  listen_event-Kept :
      (event : ExecutorEvent) (r : Reporter)
      → r.max_lines ≡ pos n
      → Kept r (listen_event event r) (λ t. event_lines r.streams t event)
  unfolding listen_event
  listen_event-Kept (task_log task message stream) r h =
      append_matching-Kept r.streams stream task message r h
  listen_event-Kept executor_setup r h = (r, refl, Keeps-none r)
  listen_event-Kept (task_started t) r h = (r, refl, Keeps-none r)
  listen_event-Kept (task_stopped t) r h = (r, refl, Keeps-none r)
  listen_event-Kept (task_completed t d) r h = (r, refl, Keeps-none r)
  listen_event-Kept (task_failed t e) r h = (r, refl, Keeps-none r)
  listen_event-Kept (task_diagnostic t e) r h = (r, refl, Keeps-none r)
  listen_event-Kept (task_invalidated t e) r h = (r, refl, Keeps-none r)

  listen-Kept :
      (events : List ExecutorEvent) (r : Reporter)
      → r.max_lines ≡ pos n
      → Kept r (listen events r) (λ t. lines_of r.streams t events)
  unfolding listen
  listen-Kept [] r h = (r, refl, Keeps-none r)
  listen-Kept (event ∷ events) r h =
      Kept-Kept r (listen_event event r) (listen events) _ (λ t. lines_of r.streams t events) _
        (listen_event-Kept event r h)
        (λ s k.
          subst (λ streams. Kept s (listen events s) (λ t. lines_of streams t events)) k.streams
            (listen-Kept events s (k.max_lines ∙ h)))
        (λ t. refl)

  short : (xs : List Text) → length xs ≤ n → xs ≡ last_of n xs
  short xs h =
      let none_over : length xs - n ≡ 0 = omega arith in ap (λ k. drop k xs) (sym none_over)

  -- A reporter that has kept nothing yet and whose maximum is not negative hears any events without
  -- a panic. It then keeps of each task the last lines, at most as many as its maximum, of all that
  -- the task wrote to the streams of the reporter: cutting after each message loses nothing that
  -- cutting once at the end would keep.
  pub listen_lem :
      (events : List ExecutorEvent) (r : Reporter)
      → r.max_lines ≡ pos n
      → ((t : ℕ) → r.stderrs t ≡ [])
      → (r' : Reporter) × (listen events r ≡ some r')
        × ((t : ℕ)
            → (r'.stderrs t ≡ last_of n (lines_of r.streams t events))
              × (length (r'.stderrs t) ≤ n))
  listen_lem events r h fresh =
      let (r', e, k) = listen-Kept events r h in
      let within = k.bounded (λ t. rw (fresh t) (omega arith)) in
      (
        r',
        e,
        λ t. (
          short (r'.stderrs t) (within t)
              ∙ k.kept t
              ∙ ap (λ l. last_of n (l ++ lines_of r.streams t events)) (fresh t),
          within t,
        ),
      )
