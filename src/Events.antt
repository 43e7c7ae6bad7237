-- ===== src/Events.antt =====
-- events.go: the events of an executor as its subscribers see them, without their time stamps,
-- and logger.go: the writes that become log events. An error is its text, a duration a number of
-- nanoseconds.
use taskrunner.Prelude.{
  ℕ, ◌==◌, if◌then◌else◌, Bool, true, false, Option, none, some, List, [], ◌∷◌, ◌++◌, Text, bytes,
}
use taskrunner.Task.{InvalidationEvent}

pub data TaskLogEventStream : Type 0 where
  stdout stderr : TaskLogEventStream

abbrev pub stream_eq : TaskLogEventStream → TaskLogEventStream → Bool
stream_eq stdout stdout = true
stream_eq stderr stderr = true
stream_eq _ _ = false

pub data ExecutorEvent : Type 0 where
  executor_setup : ExecutorEvent
  task_started task_stopped : ℕ → ExecutorEvent
  task_log : ℕ → Text → TaskLogEventStream → ExecutorEvent
  task_completed : ℕ → (duration : ℕ) → ExecutorEvent
  task_failed task_diagnostic : ℕ → Text → ExecutorEvent
  task_invalidated : ℕ → List InvalidationEvent → ExecutorEvent

-- `Kind`
unfoldable pub kind : ExecutorEvent → Text
kind executor_setup = bytes "executor.setup"
kind (task_started t) = bytes "task.started"
kind (task_log t message stream) = bytes "task.log"
kind (task_completed t duration) = bytes "task.completed"
kind (task_failed t err) = bytes "task.failed"
kind (task_stopped t) = bytes "task.stopped"
kind (task_invalidated t reasons) = bytes "task.invalidated"
kind (task_diagnostic t err) = bytes "task.diagnostic"

-- `TaskHandler`: only the event of the set-up has none.
unfoldable pub task_handler : ExecutorEvent → Option ℕ
task_handler executor_setup = none
task_handler (task_started t) = some t
task_handler (task_log t message stream) = some t
task_handler (task_completed t duration) = some t
task_handler (task_failed t err) = some t
task_handler (task_stopped t) = some t
task_handler (task_invalidated t reasons) = some t
task_handler (task_diagnostic t err) = some t

-- `eventLogger`
pub record EventLogger : Type 0 where
  pub task : ℕ
  pub stream : TaskLogEventStream

-- `Write`: the event that is published.
unfoldable pub write_event : EventLogger → Text → ExecutorEvent
write_event l p = task_log l.task p l.stream

abbrev pub last_is : ℕ → Text → Bool
last_is b [] = false
last_is b (c ∷ []) = c == b
last_is b (c ∷ d ∷ s) = last_is b (d ∷ s)

-- `Logger`
pub record Logger : Type 0 where
  pub stdout_logger : EventLogger
  pub stderr_logger : EventLogger

-- `provideEventLogger`
unfoldable pub provide_event_logger : ℕ → Logger
provide_event_logger t = record {
  stdout_logger = record { task = t; stream = stdout };
  stderr_logger = record { task = t; stream = stderr };
}

-- What `Logf` writes of a text to the logger of its context, or to the terminal if it has none.
pub data Logged : Type 0 where
  published : ExecutorEvent → Logged
  printed : (warning text : Text) → Logged

-- `Logf`, given the formatted text.
unfoldable pub logf : Option Logger → Text → Logged
unfolding write_event
logf none s =
    printed
      (utf8_warning
        ++ bytes
            " Warning: There was no logger found in context, so falling back to `fmt.Printf`\n")
      s
  where
    utf8_warning : Text
    utf8_warning = 0xf0 ∷ 0x9f ∷ 0x9f ∷ 0xa1 ∷ []
logf (some l) s = published (write_event l.stdout_logger (if last_is 10 s then s else s ++ 10 ∷ []))
