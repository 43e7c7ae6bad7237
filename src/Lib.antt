-- ===== src/Lib.antt =====
-- taskrunner runs tasks in the order of their dependencies and runs them again when something
-- that they depend on changes. The library models the core of the program, one file for each
-- part.
--
-- Task is the data of task.go and invalidation.go. Tasks and their executions are numbers, which
-- stand for the pointers of the program; `definition : ℕ → Task` follows them.
--
-- TaskSet is task_execution.go: ShouldExecute, and `add`, which builds the graph of a task.
-- TaskSet/Closure and TaskSet/Add say what it records. Invalidation is the exported Invalidate
-- of an execution: Frame says what it leaves, Spread where events go, Contract both and that it
-- returns.
--
-- Executor is the state of executor.go with runPass (run_pass), evaluateInvalidationPlan
-- (evaluate_plan and drain) and Invalidate (invalidate). The unexported invalidate is cut at its
-- receive from the terminal channel (invalidate_begin, invalidate_end). Executor/Pass says what
-- one pass starts. Schedule is the concurrent program: the goroutine that runPass starts for a
-- task moves from phase to phase (move), and a step of the executor is a pass, a plan, a part of
-- a plan, a shutdown, an invalidation from outside, or the move of one goroutine (step). A run
-- follows a list of labels, which chooses the interleaving, the errors that tasks return and the
-- order in which maps are visited. The lock mu is held while the plan is not idle: passes and
-- plans wait for it. Schedule/Exclusion and Schedule/Graph carry invariants over runs;
-- Schedule/Reset, Draining and Evaluation follow a plan from its evaluation to its end;
-- Schedule/Race, Deadlock and Stuck follow the end of a task that an invalidation overtakes. A
-- run may also have a late pass, which looked at the context before a shutdown and has the lock
-- after it.
--
-- Start is NewExecutor and Run up to its first pass, and Started what holds after it. Stopping
-- is the end of both Run functions, in executor.go and in runner.go. Registry is registry.go,
-- and Handlers is task_handler.go. FlagArgs is the parsing of the flags of a task in executor.go
-- (parse_flags is parseTaskFlagsIntoMap, verify_key is getVerifiedFlagKey), and a FlagArg with
-- its functions. Runner is the grouping of the command line in runner.go
-- (group_task_and_flag_args), with the tasks that it names in Runner/Names, and Main is its Run
-- up to the executor (run_main). Options is the options of both: set_up applies those of Run to
-- the runtime, and run_executor makes the fields of the executor that options set. Config is
-- config/config.go, with the files that extend one another. Events is events.go and logger.go.
-- Subscriptions is Subscribe and publishEvent of executor.go, with the closing of the channels:
-- publishers send and subscribers receive in steps of their own (broadcast_step), over lists of
-- labels. Subscriptions/Delivery is about what arrives, and Subscriptions/Full about a
-- subscriber that stops. Shell is shell/shell.go and the ShellRun of executor.go.
--
-- Watch is IsTaskSource of watch.go. Watcher is watcher/watcher.go: what fswatch and inotifywait
-- print becomes events, line by line as bufio.Scanner cuts lines (Watcher/Scan), in
-- Watcher/Fswatch and Watcher/Inotifywait. Watch/Calls is what the executor is told of events,
-- and Watch/Loop leads from the output of a tool to these calls.
--
-- Git reads the output of git as cache/git.go does, Snapshot is cache/snapshot.go, and Cache is
-- cache/cache.go. GitCache joins them: the snapshotter over Git, hashSum of cache/md5sum.go, the
-- name of the cache file, and WrapWithPersistentCache.
--
-- GoBuild is the parts of goextensions/builder.go that read packages and wrap a task.
-- GoBuild/Batch is its GoBuilder: a call of Build moves from its request to its answer, the
-- timer and a build are steps of their own (builder_step), and a run follows a list of labels.
-- Batch/Requests is about every run, Batch/Races about two that go wrong.
--
-- Console is clireporter: the messages of events, the writers in prefixedwriter.go and
-- linebufferedwriter.go, and the bufio.Writer between them as the standard library has it;
-- Console/Lossless is about a writer that does not fail, and Console/Stuck about one that does.
-- Buildkite is buildkitereporter: the lines that a listener keeps (Buildkite/Lines) and the
-- annotation that is written at the end (Buildkite/Annotation). Terminal is tui: the keys and
-- tabs (Terminal/Keys), and the rows that a log shows (Terminal/Scroll).
--
-- Witnesses applies the theorems to concrete tasks, texts and runs.
--
-- Go strings are lists of bytes, maps with string keys are association lists, and a nil pointer
-- or an error is `none` or a constructor of a result. An int of Go is an integer without a
-- bound. The recursion of `add` and of Invalidate is on fuel: `add` needs more than the rank of
-- a task, which falls along its dependencies, and Invalidate more than the height of a task,
-- which falls along its dependents. With a cycle among the dependencies the program recurses
-- without end, and no such rank exists. ReadConfig needs fuel for each file of the chain of
-- files that extend one another.
--
-- Parameters are what the code takes from elsewhere: the number and duration parsers of strconv
-- and time, zglob.Match, what flags.Parse gave, the functions of path/filepath and the files of
-- a configuration, the output of git, of go list and of the watching tools, whether file
-- operations succeed, MD5, the indentation of JSON, colours, the printing of durations, the
-- parser and the interpreter of mvdan.cc/sh, and the sizes of the terminal. A cache file is read
-- back as it was written.
--
-- Maps are visited in the order of a list. In Schedule it may have a part of the tasks only, so
-- that runs are considered that the program cannot take; the theorems on all runs include those
-- that it can. The same holds of a late pass, which may come whenever no plan has the lock.
--
-- Not modelled: white space outside ASCII that git would print unquoted; sends on invalidationCh
-- never block; the body of a task is only its error; a panic of a task or of its flags; the
-- order in which Schedule publishes its events to the channels of Subscriptions; the help text,
-- which text/template prints; the handling of signals and process groups; the opening of log
-- files; the drawing of the terminal; and the running of git and other tools, which are system
-- calls or other programs.
pub mod Prelude
pub mod Task
pub mod TaskSet
pub mod Invalidation
pub mod Executor
pub mod Schedule
pub mod Start
pub mod Started
pub mod Registry
pub mod FlagArgs
pub mod Runner
pub mod Watch
pub mod Snapshot
pub mod Cache
pub mod Config
pub mod Git
pub mod Witnesses
pub mod Events
pub mod Buildkite
pub mod Watcher
pub mod Handlers
pub mod Console
pub mod GoBuild
pub mod Terminal
pub mod Shell
pub mod Stopping
pub mod GitCache
pub mod Subscriptions
pub mod Options
pub mod Main
