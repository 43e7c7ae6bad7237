-- ===== src/GoBuild/Batch.antt =====
-- The batching of `go build` in goextensions/builder.go: the goroutine that NewGoBuilder starts,
-- its builds, and the callers of Build, as steps that interleave. A channel is a number.
pub mod Runs
pub mod Sound
pub mod Requests
pub mod Races
use taskrunner.Prelude.{
  ℕ, ◌+◌, ◌==◌, if◌then◌else◌, Bool, true, false, not, ◌&&◌, Option, none, some, List, [], ◌∷◌,
  ◌++◌, Text, text_eq, length, any, ltb,
}

-- `request`
pub record Request : Type 0 where
  pub pkg : Text
  pub logger : ℕ

-- Where a call of `Build` is: before it, behind its send, behind its use of the lock, at its receive
-- from the channel that it has read, or at its end, with whether `err` was set.
pub data CallPhase : Type 0 where
  outside : CallPhase
  sent entered : Text → CallPhase
  waiting : Text → Option ℕ → CallPhase
  returned : Text → (err : Bool) → CallPhase

-- `GoBuilder`. `timer` tells that the timer was reset and its time not yet received: by go.mod the
-- program is built with Go 1.24, whose Reset drops a time that nobody has received. `building` tells that a build holds the lock; `commands` are the packages of the
-- commands that were run.
pub record GoBuilder : Type 0 where
  pub packages : List Text
  pub loggers : List ℕ
  pub timer : Bool
  pub requests : List Request
  pub done_ch : Option ℕ
  pub next_ch : ℕ
  pub closed : List ℕ
  pub err : Bool
  pub building : Bool
  pub phase : ℕ → CallPhase
  pub commands : List (List Text)

-- `NewGoBuilder`
abbrev pub new_go_builder : GoBuilder
new_go_builder = record {
  packages = [];
  loggers = [];
  timer = false;
  requests = [];
  done_ch = none;
  next_ch = 0;
  closed = [];
  err = false;
  building = false;
  phase = λ c. outside;
  commands = [];
}

pub data BuilderOutcome : Type 0 where
  went : GoBuilder → BuilderOutcome
  blocked panicked : BuilderOutcome

-- A set of packages, or of loggers, is a map to nothing.
unfoldable pub put_package : Text → List Text → List Text
unfolding text_eq
put_package pkg packages = if any (text_eq pkg) packages then packages else pkg ∷ packages

unfoldable pub put_logger : ℕ → List ℕ → List ℕ
put_logger l loggers = if any (λ m. l == m) loggers then loggers else l ∷ loggers

abbrev pub set_phase : ℕ → CallPhase → (ℕ → CallPhase) → ℕ → CallPhase
set_phase c p phase d = if d == c then p else phase d

-- `Build` up to its send. The channel of requests has room for 128.
unfoldable pub send_request : ℕ → Text → ℕ → CallPhase → GoBuilder → BuilderOutcome
send_request c pkg l outside b =
    if ltb (length b.requests) 128
    then went (record b {
      requests = b.requests ++ record { pkg = pkg; logger = l } ∷ [];
      phase = set_phase c (sent pkg) b.phase;
    })
    else blocked
send_request c pkg l _ b = blocked

abbrev pub with_done_ch : Option ℕ → GoBuilder → GoBuilder
with_done_ch none b = record b { done_ch = some b.next_ch; next_ch = b.next_ch + 1 }
with_done_ch (some ch) b = b

-- `Build` with the lock.
unfoldable pub enter : ℕ → CallPhase → GoBuilder → BuilderOutcome
enter c (sent pkg) b =
    if b.building
    then blocked
    else let b' = with_done_ch b.done_ch b in
      went (record b' { phase = set_phase c (entered pkg) b'.phase })
enter c _ b = blocked

-- `Build` reads `doneCh` behind the lock.
unfoldable pub look : ℕ → CallPhase → GoBuilder → BuilderOutcome
look c (entered pkg) b = went (record b { phase = set_phase c (waiting pkg b.done_ch) b.phase })
look c _ b = blocked

-- `Build` receives, from a closed channel only: a nil channel blocks for ever.
unfoldable pub wake : ℕ → CallPhase → GoBuilder → BuilderOutcome
wake c (waiting pkg (some ch)) b =
    if any (λ d. ch == d) b.closed
    then went (record b { phase = set_phase c (returned pkg b.err) b.phase })
    else blocked
wake c _ b = blocked

-- The goroutine of the builder takes a request.
unfoldable pub take_request : List Request → GoBuilder → BuilderOutcome
unfolding put_package put_logger
take_request [] b = blocked
take_request (r ∷ requests) b =
    if b.building
    then blocked
    else went (record b {
      requests = requests;
      packages = put_package r.pkg b.packages;
      loggers = put_logger r.logger b.loggers;
      timer = true;
    })

-- The timer fires, and `build` runs its command.
unfoldable pub fire : GoBuilder → BuilderOutcome
fire b =
    if b.timer && not b.building
    then went (record b { timer = false; building = true; commands = b.packages ∷ b.commands })
    else blocked

-- The end of `build`. To close a nil channel is a panic.
unfoldable pub finish_build : Bool → Option ℕ → GoBuilder → BuilderOutcome
finish_build err none b = if b.building then panicked else blocked
finish_build err (some ch) b =
    if b.building
    then went (record b {
      err = err;
      closed = ch ∷ b.closed;
      done_ch = none;
      packages = [];
      loggers = [];
      building = false;
    })
    else blocked

pub data BuilderLabel : Type 0 where
  send_label : (caller : ℕ) → (pkg : Text) → (logger : ℕ) → BuilderLabel
  enter_label look_label wake_label : (caller : ℕ) → BuilderLabel
  take_label fire_label : BuilderLabel
  finish_label : (err : Bool) → BuilderLabel

unfoldable pub builder_step : BuilderLabel → GoBuilder → BuilderOutcome
unfolding send_request enter look wake take_request fire finish_build
builder_step (send_label c pkg l) b = send_request c pkg l (b.phase c) b
builder_step (enter_label c) b = enter c (b.phase c) b
builder_step (look_label c) b = look c (b.phase c) b
builder_step (wake_label c) b = wake c (b.phase c) b
builder_step take_label b = take_request b.requests b
builder_step fire_label b = fire b
builder_step (finish_label err) b = finish_build err b.done_ch b

abbrev pub and_then : BuilderOutcome → (GoBuilder → BuilderOutcome) → BuilderOutcome
and_then (went b) f = f b
and_then blocked f = blocked
and_then panicked f = panicked

-- A run takes the steps of its labels. It is `blocked` where one of them cannot be taken.
unfoldable pub run_builder : List BuilderLabel → GoBuilder → BuilderOutcome
unfolding builder_step
run_builder [] b = went b
run_builder (l ∷ labels) b = and_then (builder_step l b) (run_builder labels)
