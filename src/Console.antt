-- ===== src/Console.antt =====
-- clireporter: the messages of the console reporter (cli.go), the buffer for each task
-- (linebufferedwriter.go, on top of the writer of package bufio), and the prefix of its lines
-- (prefixedwriter.go).
pub mod Buffered
pub mod Stuck
pub mod Lossless
pub mod Padding
use Prim.Native.Nat.{bit_xor}
use taskrunner.Prelude.{
  ℕ, zero, suc, ◌+◌, ◌-◌, ◌*◌, ◌/◌, ◌%◌, ◌^◌, ◌==◌, if◌then◌else◌, if_some, Bool, true, false, ◌&&◌,
  ◌||◌, Option, none, some, List, [], ◌∷◌, ◌++◌, map, Text, bytes, is_empty, split, length, drop,
  ltb, leb,
}
use taskrunner.Prelude.Decimal.{decimal}
use taskrunner.Task.{Task, InvalidationEvent, event_description}
use taskrunner.Events.{
  ExecutorEvent, executor_setup, task_started, task_stopped, task_log, task_completed, task_failed,
  task_diagnostic, task_invalidated, task_handler,
}

-- `strings.Repeat` of a space.
abbrev pub spaces : ℕ → Text
spaces zero = []
spaces (suc n) = 32 ∷ spaces n

-- `leftPad`. The subtraction stops at zero, as the test of the code makes it.
unfoldable pub left_pad : Text → ℕ → Text
left_pad s l = spaces (l - length s) ++ s

-- The hash of package fnv, in 32 bits.
unfoldable pub hash_from : ℕ → Text → ℕ
hash_from h [] = h
hash_from h (c ∷ s) = hash_from (bit_xor h c * 16777619 % 2 ^ 32) s

-- The index of the color of a prefix.
unfoldable pub color_of : Text → ℕ
unfolding hash_from
color_of prefix = hash_from 2166136261 prefix % 5

-- `strings.Replace` of two bytes, everywhere.
unfoldable pub replace_pair : ℕ → ℕ → Text → Text → Text
replace_pair a b new [] = []
replace_pair a b new (c ∷ []) = c ∷ []
replace_pair a b new (c ∷ d ∷ s) = elim (c == a && d == b) [
  | true ↦ new ++ replace_pair a b new s
  | false ↦ c ∷ replace_pair a b new (d ∷ s)
]

-- `strings.TrimRight` of line ends.
unfoldable pub trim_newlines : Text → Text
trim_newlines [] = []
trim_newlines (c ∷ s) =
    let rest = trim_newlines s in if is_empty rest && c == 10 then [] else c ∷ rest

-- `PrefixedWriter`
pub record PrefixedWriter : Type 0 where
  pub prefix : Text
  pub padding : ℕ
  pub separator : Text

-- `paint` is the colouring of package color, by the index of a color. `indent` is what
-- `json.Unmarshal` and `json.MarshalIndent` make of a text, `none` where one of them fails.
module _ (paint : ℕ → Text → Text) (indent : Text → Option Text) where
  abbrev pub treated : Text → Text
  treated p = elim (indent p) [ none ↦ p | some json_data ↦ json_data ]

  unfoldable pub prefixed : PrefixedWriter → List Text → Text
  unfolding left_pad color_of
  prefixed w [] = []
  prefixed w (line ∷ lines) =
      paint (color_of w.prefix) (left_pad w.prefix w.padding)
      ++ (32
          ∷ ((if is_empty w.separator then bytes ">" else w.separator)
              ++ (32 ∷ (line ++ (10 ∷ prefixed w lines)))))

  -- What `Write` of a `PrefixedWriter` writes of `p`, and the number that it returns.
  unfoldable pub prefixed_write : PrefixedWriter → Text → Text × ℕ
  unfolding prefixed trim_newlines replace_pair split
  prefixed_write w p =
      let unescaped = replace_pair 92 110 (10 ∷ []) (trim_newlines (treated p)) in
      (prefixed w (split 10 [] (replace_pair 92 116 (bytes "  ") unescaped)), length (treated p))

-- A `bufio.Writer`: its buffer, its error, which stays, and the texts that it has handed to the
-- writer below.
pub record BufferedWriter : Type 0 where
  pub buf : Text
  pub err : Bool
  pub sent : List Text

-- The size of the buffer of `bufio.NewWriter`.
abbrev pub buffer_size : ℕ
buffer_size = 4096

abbrev pub put : ℕ → BufferedWriter → BufferedWriter
put c b = if b.err then b else record b { buf = b.buf ++ c ∷ [] }

-- What a loop over bytes gives, behind a byte that left the writer `b`.
abbrev pub counted : BufferedWriter → BufferedWriter × ℕ × Bool → BufferedWriter × ℕ × Bool
counted b (later, n, failed) = if b.err then (b, 0, true) else (later, suc n, failed)

-- `deliver` is what the writer below returns of a text: a number of bytes, and whether it failed.
module _ (deliver : Text → ℕ × Bool) where
  unfoldable pub flush : BufferedWriter → BufferedWriter
  flush b =
      if b.err
      then b
      else if is_empty b.buf
      then b
      else let (n, failed) = deliver b.buf in
        if failed || ltb n (length b.buf)
        then record { buf = drop n b.buf; err = true; sent = b.sent ++ b.buf ∷ [] }
        else record { buf = []; err = false; sent = b.sent ++ b.buf ∷ [] }

  -- `WriteByte`: it fails exactly if it leaves an error.
  unfoldable pub write_byte : ℕ → BufferedWriter → BufferedWriter
  unfolding flush
  write_byte c b =
      if b.err then b else put c (if leb buffer_size (length b.buf) then flush b else b)

  -- The body of the loop of `LineBufferedWriter.Write` behind a byte that was taken.
  unfoldable pub end_line : ℕ → BufferedWriter → BufferedWriter
  unfolding flush
  end_line c b = if c == 10 then flush b else b

  -- `LineBufferedWriter.Write`: the number of bytes that were taken, and whether it failed.
  unfoldable pub write_line_buffered : Text → BufferedWriter → BufferedWriter × ℕ × Bool
  unfolding write_byte end_line
  write_line_buffered [] b = (b, 0, false)
  write_line_buffered (c ∷ p) b =
      let b' = write_byte c b in counted b' (write_line_buffered p (end_line c b'))

-- `logger`
pub record CliLogger : Type 0 where
  pub writers : ℕ → Option PrefixedWriter
  pub separator : Text

abbrev pub new_logger : CliLogger
new_logger = record { writers = λ t. none; separator = [] }

module _ (definition : ℕ → Task) where
  -- The first loop of `registerTasks`.
  unfoldable pub longest_task_name_length : List ℕ → ℕ → ℕ
  longest_task_name_length [] longest = longest
  longest_task_name_length (t ∷ tasks) longest =
      let n = length (definition t).name in
      longest_task_name_length tasks (if ltb longest n then n else longest)

  -- The second loop.
  unfoldable pub add_writers : ℕ → List ℕ → CliLogger → CliLogger
  add_writers longest [] l = l
  add_writers longest (t ∷ tasks) l =
      let w : PrefixedWriter = record {
        prefix = (definition t).name;
        padding = longest;
        separator = l.separator;
      } in
      add_writers longest tasks (record l { writers = λ u. if u == t then some w else l.writers u })

  -- `registerTasks`
  unfoldable pub register_tasks : List ℕ → CliLogger → CliLogger
  unfolding longest_task_name_length add_writers
  register_tasks tasks l = add_writers (longest_task_name_length tasks 0) tasks l

  unfoldable pub reason_messages : List InvalidationEvent → List Text
  unfolding event_description
  reason_messages [] = []
  reason_messages (reason ∷ reasons) =
      (bytes "- " ++ (event_description definition reason ++ 10 ∷ [])) ∷ reason_messages reasons

  -- The messages of an event, in `option`. `seconds` prints a duration with two decimals.
  unfoldable pub event_messages : (ℕ → Text) → ExecutorEvent → List Text
  unfolding reason_messages decimal
  event_messages seconds executor_setup = []
  event_messages seconds (task_log t message stream) = message ∷ []
  event_messages seconds (task_invalidated t reasons) =
      (bytes "Invalidating "
        ++ ((definition t).name
            ++ (bytes " for " ++ (decimal (length reasons) ++ (bytes " reasons:" ++ 10 ∷ [])))))
      ∷ reason_messages reasons
  event_messages seconds (task_started t) = (bytes "Started" ++ 10 ∷ []) ∷ []
  event_messages seconds (task_completed t duration) =
      (if duration == 0
        then bytes "Completed" ++ 10 ∷ []
        else bytes "Completed (" ++ (seconds duration ++ (bytes "s)" ++ 10 ∷ [])))
      ∷ []
  event_messages seconds (task_failed t err) = (bytes "Failed" ++ (10 ∷ (err ++ 10 ∷ []))) ∷ []
  event_messages seconds (task_diagnostic t err) = (bytes "Warning: " ++ (err ++ 10 ∷ [])) ∷ []
  event_messages seconds (task_stopped t) = (bytes "Stopped" ++ 10 ∷ []) ∷ []

-- The writes of several messages one after another. The logger does not look at what they return.
module _ (deliver : Text → ℕ × Bool) where
  unfoldable pub write_messages : List Text → BufferedWriter → BufferedWriter
  unfolding write_line_buffered
  write_messages [] b = b
  write_messages (message ∷ messages) b =
      write_messages messages (write_line_buffered deliver message b).0

-- The reporter on one event. A task without a writer is a nil interface and ends the program, `none`.
module _ (paint : ℕ → Text → Text) (indent : Text → Option Text) (seconds : ℕ → Text)
    (definition : ℕ → Task) (l : CliLogger) where
  abbrev pub passed_on : PrefixedWriter → Text → ℕ × Bool
  passed_on w p = ((prefixed_write paint indent w p).1, false)

  abbrev report_to :
      ℕ → Option PrefixedWriter → List Text → (ℕ → BufferedWriter) → Option (ℕ → BufferedWriter)
  report_to t none [] buffers = some buffers
  report_to t none (message ∷ messages) buffers = none
  report_to t (some w) messages buffers =
      let b = write_messages (passed_on w) messages (buffers t) in
      some (λ u. if u == t then b else buffers u)

  unfoldable pub report : ExecutorEvent → (ℕ → BufferedWriter) → Option (ℕ → BufferedWriter)
  unfolding event_messages write_messages task_handler prefixed_write
  report event buffers = elim (task_handler event) [
    | none ↦ some buffers
    | some t ↦ report_to t (l.writers t) (event_messages definition seconds event) buffers
  ]

  unfoldable pub report_all :
      List ExecutorEvent → (ℕ → BufferedWriter) → Option (ℕ → BufferedWriter)
  unfolding report
  report_all [] buffers = some buffers
  report_all (event ∷ events) buffers = if_some (report event buffers) (report_all events)
