-- ===== src/Witnesses/Reports.antt =====
-- The theorems on the reporters.
use taskrunner.Prelude.{
  ltb, inl, if◌then◌else◌, ℕ, ◌≡◌, ◌↔◌, ◌≤◌, refl, Bool, true, false, Option, none, some, List, [],
  ◌∷◌, ◌++◌, Text, bytes, length, IsFree, inl, All, arith, if◌then◌else◌, text_eq,
}
use taskrunner.Prelude.Int.{pos}
use taskrunner.Events.{stdout, stderr, ExecutorEvent, task_log, task_started}
use taskrunner.Buildkite.{
  Reporter, new_reporter, listen, write_annotation, Disk, finish_reporter, wrote,
}
use taskrunner.Buildkite.Lines.{last_of, lines_of, listen_lem}
use taskrunner.Buildkite.Annotation.{finish_reporter_lem}
use taskrunner.Console.{
  PrefixedWriter, prefixed_write, BufferedWriter, buffer_size, write_messages, CliLogger,
  report_all,
}
use taskrunner.Console.Buffered.{joined, IsChunk, fresh}
use taskrunner.Console.Lossless.{write_messages_lem}
use taskrunner.Console.Stuck.{report_all-stuck}
use taskrunner.Task.{Task}
use taskrunner.TaskSet.{TaskSet, error, new_execution}
use taskrunner.Witnesses.{definition, task}

abbrev two_lines : Reporter
two_lines = record new_reporter { max_lines = pos 2 }

abbrev log : List ExecutorEvent
log =
    task_log 0 (bytes "a" ++ (10 ∷ bytes "b")) stderr
    ∷ task_log 0 (bytes "x") stdout
    ∷ task_log 0 (bytes "c" ++ (10 ∷ [])) stderr
    ∷ []

listen_lem_example :
    (r : Reporter) × (listen log two_lines ≡ some r)
    × ((t : ℕ)
        → (r.stderrs t ≡ last_of 2 (lines_of (stderr ∷ []) t log)) × (length (r.stderrs t) ≤ 2))
listen_lem_example = listen_lem 2 log two_lines refl (λ t. refl)

abbrev state : ℕ → Text
state t = bytes "error"

-- A file that holds an older annotation.
abbrev disk : Disk
disk = record {
  mkdir_fails = false;
  open_fails = false;
  copy_fails = false;
  contents = some (bytes "old");
}

finish_reporter_lem_example :
    let annotation = (write_annotation definition (bytes "ci") state (0 ∷ []) new_reporter).0 in
    (text : Text) × (finish_reporter definition (bytes "ci") state (0 ∷ []) disk new_reporter
      ≡ wrote text)
    × ((text ≡ annotation) ↔ (3 ≤ length annotation))
unfolding text_eq
finish_reporter_lem_example =
    finish_reporter_lem definition (bytes "ci") state disk new_reporter (0 ∷ []) 0 (bytes "old")
      (inl refl) refl refl refl refl refl refl

abbrev plain : PrefixedWriter
plain = record { prefix = bytes "build"; padding = 5; separator = [] }

abbrev cli : CliLogger
cli = record { writers = λ t. some plain; separator = [] }

-- The number 42 stays as it is when it is indented.
abbrev indent : Text → Option Text
indent s = some (bytes "42")

abbrev paint : ℕ → Text → Text
paint c s = s

-- No line is JSON.
abbrev no_json : Text → Option Text
no_json s = none

-- What the prefixing writer says of a text.
abbrev deliver : Text → ℕ × Bool
deliver s = ((prefixed_write paint no_json plain s).1, false)

write_messages_lem_example :
    let b = write_messages deliver (bytes "a" ∷ (10 ∷ bytes "b") ∷ []) fresh in
    (joined b.sent ++ b.buf ≡ joined (bytes "a" ∷ (10 ∷ bytes "b") ∷ []))
    × All IsChunk b.sent
    × IsFree 10 b.buf
    × (length b.buf ≤ buffer_size)
unfolding write_messages prefixed_write
write_messages_lem_example = write_messages_lem deliver (bytes "a" ∷ (10 ∷ bytes "b") ∷ []) refl

abbrev seconds : ℕ → Text
seconds n = bytes "1.00"

abbrev buffers : ℕ → BufferedWriter
buffers t = fresh

abbrev stuck_log : List ExecutorEvent
stuck_log = task_log 0 (bytes "42" ++ (10 ∷ [])) stdout ∷ task_started 0 ∷ []

abbrev after_of : Option (ℕ → BufferedWriter) → ℕ → BufferedWriter
after_of none = buffers
after_of (some b) = b

abbrev stuck_after : ℕ → BufferedWriter
stuck_after = after_of (report_all paint indent seconds definition cli stuck_log buffers)

stuck_run : report_all paint indent seconds definition cli stuck_log buffers ≡ some stuck_after
unfolding report_all
stuck_run = refl

report_all-stuck_example :
    ((stuck_after 0).sent ≡ (bytes "42" ++ (10 ∷ [])) ∷ []) × ((stuck_after 0).err ≡ true)
report_all-stuck_example =
    report_all-stuck paint indent seconds definition cli 0 plain (bytes "42") (bytes "42") stdout
      (task_started 0 ∷ []) buffers stuck_after refl refl refl (refl, (refl, tt)) (omega arith) refl
      (omega arith) stuck_run

-- Tasks whose names differ.
abbrev numbered : ℕ → Task
numbered t = task (t ∷ []) [] []

-- The set has the tasks 0 and 1.
abbrev failed_set : TaskSet
failed_set t = if ltb t 2 then some (record (new_execution t [] []) { state = error }) else none
