-- ===== src/Console/Stuck.antt =====
-- A line of JSON that the prefixing writer makes shorter ends the output of its task.
use taskrunner.Prelude.{
  ==_refl, ℕ, ◌+◌, ◌≤◌, ◌<◌, ◌≡◌, refl, sym, ap, subst, ◌∙◌, ◌==◌, if◌then◌else◌, if_some, Bool,
  true, false, Option, none, some, List, [], ◌∷◌, ◌++◌, Text, IsFree, length, length-append,
  append_one, arith, inl, inr, Bool-cases, Option-cases,
}
use taskrunner.Task.{Task}
use taskrunner.Events.{TaskLogEventStream, ExecutorEvent, task_log, task_handler}
use taskrunner.Console.Buffered.{counted-fine}
use taskrunner.Console.{
  PrefixedWriter, prefixed_write, BufferedWriter, buffer_size, flush, write_byte, end_line,
  write_line_buffered, write_messages, CliLogger, passed_on, report_to, report, report_all,
  event_messages,
}

module _ (deliver : Text → ℕ × Bool) where
  -- With an error a writer takes nothing.
  pub write_line_buffered-err :
      (p : Text) (b : BufferedWriter) → b.err ≡ true → (write_line_buffered deliver p b).0 ≡ b
  unfolding write_line_buffered write_byte
  write_line_buffered-err [] b h = refl
  write_line_buffered-err (c ∷ p) b h = ground arith

  pub write_messages-err :
      (messages : List Text) (b : BufferedWriter)
      → b.err ≡ true
      → write_messages deliver messages b ≡ b
  unfolding write_messages
  write_messages-err [] b h = refl
  write_messages-err (message ∷ messages) b h =
      ap (write_messages deliver messages) (write_line_buffered-err message b h)
      ∙ write_messages-err messages b h

  write_byte-room :
      (c : ℕ) (b : BufferedWriter)
      → b.err ≡ false
      → length b.buf < buffer_size
      → write_byte deliver c b ≡ record b { buf = b.buf ++ c ∷ [] }
  unfolding write_byte
  write_byte-room c b e h = ground arith

  end_line-other : (c : ℕ) (b : BufferedWriter) → (c == 10) ≡ false → end_line deliver c b ≡ b
  unfolding end_line
  end_line-other c b h = rw h refl

  -- A line that fits is handed down when its end comes.
  write_line_buffered-line :
      (line : Text) (b : BufferedWriter)
      → b.err ≡ false
      → IsFree 10 line
      → length b.buf + length line < buffer_size
      → (write_line_buffered deliver (line ++ 10 ∷ []) b).0
        ≡ flush deliver (record b { buf = b.buf ++ (line ++ 10 ∷ []) })
  unfolding write_line_buffered end_line
  write_line_buffered-line [] b e free h =
      let step = write_byte-room 10 b e (omega arith) in
      let fine = ap (λ (w : BufferedWriter). w.err) step ∙ e in
      ap (λ (r : BufferedWriter × ℕ × Bool). r.0)
        (counted-fine (write_byte deliver 10 b) (flush deliver (write_byte deliver 10 b), 0, false)
          fine)
      ∙ ap (flush deliver) step
  write_line_buffered-line (c ∷ line) b e free h =
      let b' : BufferedWriter = record b { buf = b.buf ++ c ∷ [] } in
      let step : write_byte deliver c b ≡ b' = write_byte-room c b e (omega arith) in
      let rest =
        write_line_buffered-line line b' e free.1 (omega (arith, length-append b.buf (c ∷ []))) in
      ap (λ (r : BufferedWriter × ℕ × Bool). r.0)
        (counted-fine (write_byte deliver c b)
          (write_line_buffered deliver (line ++ 10 ∷ [])
            (end_line deliver c (write_byte deliver c b)))
          (ap (λ (w : BufferedWriter). w.err) step ∙ e))
      ∙ ap (λ w. (write_line_buffered deliver (line ++ 10 ∷ []) w).0)
          (end_line-other c (write_byte deliver c b) free.0 ∙ step)
      ∙ rest
      ∙ ap (λ t. flush deliver (record b { buf = t })) (append_one b.buf c (line ++ 10 ∷ []))

  flush-short :
      (b : BufferedWriter) (n : ℕ)
      → b.err ≡ false
      → 0 < length b.buf
      → deliver b.buf ≡ (n, false)
      → n < length b.buf
      → ((flush deliver b).err ≡ true) × ((flush deliver b).sent ≡ b.sent ++ b.buf ∷ [])
  unfolding flush
  flush-short b n e some_bytes d h = ground arith

some_inj : {A : Type 0} {a b : A} → some a ≡ some b → a ≡ b
some_inj h = cc

module _ (paint : ℕ → Text → Text) (indent : Text → Option Text) (seconds : ℕ → Text)
    (definition : ℕ → Task) (l : CliLogger) where
  abbrev to :
      ℕ → Option PrefixedWriter → List Text → (ℕ → BufferedWriter) → Option (ℕ → BufferedWriter)
  to = report_to paint indent seconds definition l

  report_to-err :
      (t u : ℕ) (o : Option PrefixedWriter) (messages : List Text)
      (buffers after : ℕ → BufferedWriter)
      → (buffers t).err ≡ true
      → to u o messages buffers ≡ some after
      → after t ≡ buffers t
  report_to-err t u none [] buffers after e h =
      ap (λ (f : ℕ → BufferedWriter). f t) (sym (some_inj h))
  report_to-err t u none (m ∷ messages) buffers after e h = cc
  report_to-err t u (some w) messages buffers after e h =
      ap (λ (f : ℕ → BufferedWriter). f t) (sym (some_inj h)) ∙ unchanged
    where
      deliver : Text → ℕ × Bool
      deliver = passed_on paint indent seconds definition l w

      unchanged :
          (if t == u then write_messages deliver messages (buffers u) else buffers t) ≡ buffers t
      unchanged = elim (Bool-cases (t == u)) [
        | inl q ↦
            let same : t ≡ u = ground arith in
            rw q (
              subst (λ v. write_messages deliver messages (buffers v) ≡ buffers t) same
                (write_messages-err deliver messages (buffers t) e))
        | inr q ↦ rw q refl
      ]

  report-err :
      (t : ℕ) (event : ExecutorEvent) (buffers after : ℕ → BufferedWriter)
      → (buffers t).err ≡ true
      → report paint indent seconds definition l event buffers ≡ some after
      → after t ≡ buffers t
  unfolding report
  report-err t event buffers after e h = elim (Option-cases (task_handler event)) [
    | inl q ↦ ap (λ (f : ℕ → BufferedWriter). f t) (sym (some_inj (handled none q)))
    | inr (u, q) ↦
        report_to-err t u (l.writers u) (event_messages definition seconds event) buffers after e
          (handled (some u) q)
  ]
    where
      handled :
          (o : Option ℕ)
          → task_handler event ≡ o
          → (elim o [
            | none ↦ some buffers
            | some u ↦ to u (l.writers u) (event_messages definition seconds event) buffers
          ])
            ≡ some after
      handled o q =
          subst
            (λ o.
              (elim o [
                | none ↦ some buffers
                | some u ↦ to u (l.writers u) (event_messages definition seconds event) buffers
              ])
              ≡ some after)
            q h

  report_all-err :
      (t : ℕ) (events : List ExecutorEvent) (buffers after : ℕ → BufferedWriter)
      → (buffers t).err ≡ true
      → report_all paint indent seconds definition l events buffers ≡ some after
      → after t ≡ buffers t
  unfolding report_all
  report_all-err t [] buffers after e h = ap (λ (f : ℕ → BufferedWriter). f t) (sym (some_inj h))
  report_all-err t (event ∷ events) buffers after e h =
      elim (Option-cases (report paint indent seconds definition l event buffers)) [
        | inl q ↦ absurd (ground arith)
        | inr (next, q) ↦
            let first = report-err t event buffers next e q in
            report_all-err t events next after (ap (λ (b : BufferedWriter). b.err) first ∙ e) (
              ap (λ o. if_some o (report_all paint indent seconds definition l events)) (sym q) ∙ h)
            ∙ first
      ]

  -- A line of a task that its writer takes for JSON and prints no longer than it was, such as a
  -- number, is printed; but the writer reports fewer bytes than it was given, and from then on the
  -- buffer of the task holds an error: nothing that the task or the reporter writes for it later is
  -- passed on.
  pub report_all-stuck :
      (t : ℕ) (w : PrefixedWriter) (line json : Text) (stream : TaskLogEventStream)
      (events : List ExecutorEvent) (buffers after : ℕ → BufferedWriter)
      → l.writers t ≡ some w
      → (buffers t).err ≡ false
      → (buffers t).buf ≡ []
      → IsFree 10 line
      → length line < buffer_size
      → indent (line ++ 10 ∷ []) ≡ some json
      → length json ≤ length line
      → report_all paint indent seconds definition l
          (task_log t (line ++ 10 ∷ []) stream ∷ events)
          buffers
        ≡ some after
      → ((after t).sent ≡ (buffers t).sent ++ (line ++ 10 ∷ []) ∷ []) × ((after t).err ≡ true)
  unfolding report_all report event_messages task_handler write_messages prefixed_write
  report_all-stuck t w line json stream events buffers after known fine empty free h shrinks short
        run =
      (
        ap (λ (b : BufferedWriter). b.sent) (later ∙ here) ∙ flushed.1,
        ap (λ (b : BufferedWriter). b.err) (later ∙ here) ∙ flushed.0,
      )
    where
      deliver : Text → ℕ × Bool
      deliver = passed_on paint indent seconds definition l w

      message : Text
      message = line ++ 10 ∷ []

      full : BufferedWriter
      full = record (buffers t) { buf = message }

      next : ℕ → BufferedWriter
      next u = if u == t then (write_line_buffered deliver message (buffers t)).0 else buffers u

      given : (write_line_buffered deliver message (buffers t)).0 ≡ flush deliver full
      given =
          write_line_buffered-line deliver line (buffers t) fine free
            (omega (arith, ap length empty, h))
          ∙ ap (λ s. flush deliver (record (buffers t) { buf = s ++ message })) empty

      delivered : deliver message ≡ (length json, false)
      delivered =
          ap (λ (o : Option Text). (length (elim o [ none ↦ message | some j ↦ j ]), false)) shrinks

      flushed :
          ((flush deliver full).err ≡ true)
          × ((flush deliver full).sent ≡ (buffers t).sent ++ message ∷ [])
      flushed =
          flush-short deliver full (length json) fine (omega (arith, length-append line (10 ∷ [])))
            delivered (omega (arith, length-append line (10 ∷ [])))

      here : next t ≡ flush deliver full
      here = rw (==_refl t) given

      rest : report_all paint indent seconds definition l events next ≡ some after
      rest =
          ap
            (λ o.
              if_some (to t o (message ∷ []) buffers)
                (report_all paint indent seconds definition l events))
            (sym known)
          ∙ run

      later : after t ≡ next t
      later =
          report_all-err t events next after (ap (λ (b : BufferedWriter). b.err) here ∙ flushed.0)
            rest
