-- ===== src/Buildkite.antt =====
-- buildkitereporter/buildkitereporter.go: the log lines that are kept of each task, and the
-- annotation of the tasks that failed.
pub mod Lines
pub mod Annotation
use taskrunner.Prelude.{
  ℕ, zero, suc, ◌-◌, ◌==◌, if◌then◌else◌, if_some, Bool, true, false, Option, none, some, List, [],
  ◌∷◌, ◌++◌, Text, bytes, text_eq, is_empty, split, length, drop, ltb,
}
use taskrunner.Prelude.Int.{ℤ, pos, ◌-ℤ◌, ltb_ℤ, pos_part}
use taskrunner.Prelude.Spaces.{trim_space}
use taskrunner.Prelude.Decimal.{decimal}
use taskrunner.Task.{Task}
use taskrunner.Events.{TaskLogEventStream, stderr, stream_eq, ExecutorEvent, task_log}

-- `reporter`. A task without an entry in the map `stderrs` has no lines.
pub record Reporter : Type 0 where
  pub path : Text
  pub upload_directly : Bool
  pub upload_warning : Bool
  pub max_lines : ℤ
  pub stderrs : ℕ → List Text
  pub streams : List TaskLogEventStream

-- `newReporter`
abbrev pub new_reporter : Reporter
new_reporter = record {
  path = bytes "taskrunner.annotation.md";
  upload_directly = false;
  upload_warning = false;
  max_lines = pos 50;
  stderrs = λ t. [];
  streams = stderr ∷ [];
}

pub data ReporterOption : Type 0 where
  with_path : Text → ReporterOption
  with_max_lines : ℤ → ReporterOption
  with_streams : List TaskLogEventStream → ReporterOption
  with_upload with_warning_upload : ReporterOption

unfoldable pub apply_option : ReporterOption → Reporter → Reporter
apply_option (with_path path) r = record r { path = path }
apply_option (with_max_lines max_lines) r = record r { max_lines = max_lines }
apply_option (with_streams streams) r = record r { streams = streams }
apply_option with_upload r = record r { upload_directly = true }
apply_option with_warning_upload r = record r { upload_directly = true; upload_warning = true }

unfoldable pub apply_options : List ReporterOption → Reporter → Reporter
unfolding apply_option
apply_options [] r = r
apply_options (opt ∷ opts) r = apply_options opts (apply_option opt r)

-- `messageToLines`
unfoldable pub message_to_lines : Text → List Text
unfolding trim_space split
message_to_lines message = split 10 [] (trim_space message)

-- `lastNElements`. A slice that starts behind its end is a panic, `none`.
unfoldable pub last_n_elements : List Text → ℤ → Option (List Text)
unfolding ◌-ℤ◌
last_n_elements slice n =
    let start = pos (length slice) -ℤ n in
    let start' = if ltb_ℤ start (pos 0) then pos 0 else start in
    if ltb (length slice) (pos_part start') then none else some (drop (pos_part start') slice)

abbrev pub set_lines : ℕ → List Text → Reporter → Reporter
set_lines task lines r = record r { stderrs = λ t. if t == task then lines else r.stderrs t }

-- `AppendLogs`
unfoldable pub append_logs : ℕ → Text → Reporter → Option Reporter
unfolding message_to_lines last_n_elements
append_logs task message r =
    if_some (last_n_elements (r.stderrs task ++ message_to_lines message) r.max_lines)
      (λ lines. some (set_lines task lines r))

-- The loop over the streams of the reporter, for a log event on `stream`.
unfoldable pub append_matching :
    List TaskLogEventStream → TaskLogEventStream → ℕ → Text → Reporter → Option Reporter
unfolding append_logs
append_matching [] stream task message r = some r
append_matching (s ∷ streams) stream task message r =
    if_some (if stream_eq s stream then append_logs task message r else some r)
      (append_matching streams stream task message)

-- The loop over the events in `Option`.
unfoldable pub listen_event : ExecutorEvent → Reporter → Option Reporter
unfolding append_matching
listen_event (task_log task message stream) r = append_matching r.streams stream task message r
listen_event _ r = some r

unfoldable pub listen : List ExecutorEvent → Reporter → Option Reporter
unfolding listen_event
listen [] r = some r
listen (event ∷ events) r = if_some (listen_event event r) (listen events)

-- The tasks that `write` counts; `state` is what `State` gives of a task.
unfoldable pub failed_tasks : (ℕ → Text) → List ℕ → List ℕ
unfolding text_eq
failed_tasks state [] = []
failed_tasks state (task ∷ tasks) =
    let rest = failed_tasks state tasks in
    if text_eq (state task) (bytes "error") then task ∷ rest else rest

unfoldable pub code_lines : List Text → Text
code_lines [] = []
code_lines (out ∷ outs) =
    (bytes "<code>" ++ (out ++ (bytes "</code>" ++ 10 ∷ []))) ++ code_lines outs

-- What `write` prints of a failed task.
unfoldable pub failed_section : Task → List Text → Text
unfolding code_lines
failed_section task outs =
    (bytes "<details><summary><code>"
      ++ (task.name ++ (bytes "</code></summary>" ++ 10 ∷ bytes "<pre>")))
    ++ (code_lines outs
        ++ ((bytes "</pre></details>" ++ 10 ∷ [])
            ++ (if is_empty task.owner
                then []
                else bytes "task owner: " ++ (task.owner ++ 10 ∷ []))))

unfoldable pub heading : Text → ℕ → Text
unfolding decimal
heading label count =
    bytes "<h5>"
    ++ (label
        ++ (bytes " taskrunner: " ++ (decimal count ++ (bytes " tasks failed</h5>" ++ 10 ∷ []))))

module _ (definition : ℕ → Task) where
  unfoldable pub failed_sections : (ℕ → List Text) → List ℕ → Text
  unfolding failed_section
  failed_sections stderrs [] = []
  failed_sections stderrs (task ∷ tasks) =
      failed_section (definition task) (stderrs task) ++ failed_sections stderrs tasks

  -- `write`: the annotation and the number of failures. `label` is $BUILDKITE_LABEL.
  unfoldable pub write_annotation : Text → (ℕ → Text) → List ℕ → Reporter → Text × ℕ
  unfolding failed_tasks heading
  write_annotation label state tasks r =
      let failed = failed_tasks state tasks in
      let count = length failed in (heading label count ++ failed_sections r.stderrs failed, count)

-- A file system as `writeFile` uses it: the contents of the file, and whether the calls fail.
pub record Disk : Type 0 where
  pub mkdir_fails : Bool
  pub open_fails : Bool
  pub copy_fails : Bool
  pub contents : Option Text

-- A file opened without O_TRUNC keeps what stands behind the bytes that are written.
abbrev pub overwrite : Text → Option Text → Text
overwrite text none = text
overwrite text (some old) = text ++ drop (length text) old

-- What `Finish` did: nothing, a failed call, the file as written, or a command with its input.
pub data Finished : Type 0 where
  nothing io_error : Finished
  wrote : Text → Finished
  ran : (command input : Text) → Finished

unfoldable pub write_file : Disk → Text × ℕ → Finished
write_file disk (annotation, failures) =
    if failures == 0
    then nothing
    else if disk.mkdir_fails
    then io_error
    else if disk.open_fails
    then io_error
    else if disk.copy_fails
    then io_error
    else wrote (overwrite annotation disk.contents)

unfoldable pub upload : Bool → Text × ℕ → Finished
upload upload_warning (annotation, failures) =
    if failures == 0
    then nothing
    else ran
        (bytes "buildkite-agent annotate --style="
          ++ ((if upload_warning then bytes "warning" else bytes "error")
              ++ (bytes " --context=taskrunner"
                  ++ ((if upload_warning then bytes "-warning" else []) ++ bytes " --append"))))
        annotation

-- `Finish`
unfoldable pub finish_reporter :
    (ℕ → Task) → Text → (ℕ → Text) → List ℕ → Disk → Reporter → Finished
unfolding write_annotation write_file upload
finish_reporter definition label state tasks disk r =
    if r.upload_directly
    then upload r.upload_warning (write_annotation definition label state tasks r)
    else write_file disk (write_annotation definition label state tasks r)
