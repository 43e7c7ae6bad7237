-- ===== src/Terminal.antt =====
-- The terminal interface: the tabs of tui/tabs.go with clamp of tui/helpers.go, the messages of
-- tui/tui.go, and the scrolling of tui/autoscroller.go, which is in Scroll. Drawing is left out.
pub mod Scroll
pub mod Keys
use taskrunner.Prelude.{
  ℕ, zero, suc, ◌+◌, ◌-◌, ◌==◌, if◌then◌else◌, if_some, Bool, true, false, Option, none, some, List,
  [], ◌∷◌, ◌++◌, Text, bytes, length, ltb,
}
use taskrunner.Prelude.Int.{ℤ, pos, negsuc, ◌+ℤ◌, ◌-ℤ◌, ltb_ℤ}
use taskrunner.Prelude.Decimal.{decimal}
use taskrunner.Task.{Task, InvalidationEvent, event_description}
use taskrunner.Events.{
  ExecutorEvent, executor_setup, task_started, task_stopped, task_log, task_completed, task_failed,
  task_diagnostic, task_invalidated, task_handler,
}

-- `clamp`, which goes round at both ends.
unfoldable pub clamp : ℤ → ℤ → ℤ → ℤ
clamp n min max = if ltb_ℤ n min then max else if ltb_ℤ max n then min else n

-- `uiTab`: its task, the style of its label, and the lines of its view.
pub record UiTab : Type 0 where
  pub task : ℕ
  pub style : Text
  pub list : List Text

-- `tabWidget`. `shown` is the task whose view is in the box, `scrolled` what was asked of the views:
-- a task and the rows to scroll by. `restarts` are the tasks that the user wants restarted.
pub record TabWidget : Type 0 where
  pub tab_index_by_task : ℕ → Option ℕ
  pub tabs : List UiTab
  pub selected : ℤ
  pub shown : Option ℕ
  pub scrolled : List (ℕ × ℤ)
  pub restarts : List ℕ

-- `newTabWidget`
abbrev pub new_tab_widget : TabWidget
new_tab_widget = record {
  tab_index_by_task = λ t. none;
  tabs = [];
  selected = pos 0;
  shown = none;
  scrolled = [];
  restarts = [];
}

abbrev pub get {ℓ} : {A : Type ℓ} → ℕ → List A → Option A
get n [] = none
get zero (x ∷ xs) = some x
get (suc n) (x ∷ xs) = get n xs

-- An index out of range is a panic, `none`.
abbrev pub at {ℓ} : {A : Type ℓ} → ℤ → List A → Option A
at (pos n) xs = get n xs
at (negsuc n) xs = none

abbrev is_at : ℕ → ℤ → Bool
is_at i (pos n) = i == n
is_at i (negsuc n) = false

-- `style`, from tab `i` on.
unfoldable pub style_from : ℕ → ℤ → List UiTab → List UiTab
style_from i selected [] = []
style_from i selected (tab ∷ tabs) =
    record tab { style = (if is_at i selected then bytes "tab-selected" else bytes "tab") }
    ∷ style_from (i + 1) selected tabs

-- `Current`
unfoldable pub current : TabWidget → Option UiTab
current w = at w.selected w.tabs

-- `Select`
unfoldable pub select : ℤ → TabWidget → Option TabWidget
unfolding clamp style_from current ◌-ℤ◌
select selection w =
    let selected = clamp selection (pos 0) (pos (length w.tabs) -ℤ pos 1) in
    let w' = record w { selected = selected; tabs = style_from 0 selected w.tabs } in
    if_some (current w') (λ tab. some (record w' { shown = some tab.task }))

-- `Next` and `Previous`
unfoldable pub next_tab : TabWidget → Option TabWidget
unfolding select ◌+ℤ◌
next_tab w = select (w.selected +ℤ pos 1) w

unfoldable pub previous_tab : TabWidget → Option TabWidget
unfolding select ◌-ℤ◌
previous_tab w = select (w.selected -ℤ pos 1) w

-- `ScrollUp` and `ScrollDown`
unfoldable pub scroll_by : ℤ → TabWidget → Option TabWidget
unfolding current
scroll_by dy w =
    if_some (current w) (λ tab. some (record w { scrolled = w.scrolled ++ (tab.task, dy) ∷ [] }))

-- The restart of the current task, which another goroutine asks for.
unfoldable pub restart : TabWidget → Option TabWidget
unfolding current
restart w = if_some (current w) (λ tab. some (record w { restarts = w.restarts ++ tab.task ∷ [] }))

pub data Rune : Type 0 where
  rune_j rune_k rune_r other_rune : Rune

-- KeyCode 278 is the tab key with shift.
pub data KeyCode : Type 0 where
  key_tab key_278 key_ctrl_u key_down key_ctrl_d key_up other_key : KeyCode

-- The two switches of `OnKeyEvent`.
unfoldable pub on_rune : Rune → TabWidget → Option TabWidget
unfolding next_tab previous_tab restart
on_rune rune_j w = next_tab w
on_rune rune_k w = previous_tab w
on_rune rune_r w = restart w
on_rune other_rune w = some w

unfoldable pub on_key : KeyCode → TabWidget → Option TabWidget
unfolding next_tab previous_tab scroll_by
on_key key_tab w = next_tab w
on_key key_278 w = previous_tab w
on_key key_ctrl_u w = scroll_by (negsuc 4) w
on_key key_down w = scroll_by (negsuc 4) w
on_key key_ctrl_d w = scroll_by (pos 5) w
on_key key_up w = scroll_by (pos 5) w
on_key other_key w = some w

-- `OnKeyEvent`
unfoldable pub on_key_event : Rune × KeyCode → TabWidget → Option TabWidget
unfolding on_rune on_key
on_key_event (r, k) w = if_some (on_rune r w) (on_key k)

unfoldable pub on_key_events : List (Rune × KeyCode) → TabWidget → Option TabWidget
unfolding on_key_event
on_key_events [] w = some w
on_key_events (event ∷ events) w = if_some (on_key_event event w) (on_key_events events)

-- `populate`
unfoldable pub populate : ℕ → TabWidget → TabWidget
unfolding style_from
populate task w =
    let tabs = w.tabs ++ record { task = task; style = []; list = [] } ∷ [] in
    record w {
      tabs = style_from 0 w.selected tabs;
      tab_index_by_task = λ t. if t == task then some (length tabs - 1) else w.tab_index_by_task t;
    }

unfoldable pub populate_all : List ℕ → TabWidget → TabWidget
unfolding populate
populate_all [] w = w
populate_all (task ∷ tasks) w = populate_all tasks (populate task w)

-- `buildTabList`
unfoldable pub build_tab_list : List ℕ → TabWidget → Option TabWidget
unfolding populate_all select
build_tab_list tasks w = select (pos 0) (populate_all tasks w)

-- `strings.TrimSuffix` of a line end.
unfoldable pub trim_newline : Text → Text
trim_newline [] = []
trim_newline (c ∷ []) = if c == 10 then [] else c ∷ []
trim_newline (c ∷ d ∷ s) = c ∷ trim_newline (d ∷ s)

unfoldable pub trimmed : List Text → List Text
unfolding trim_newline
trimmed [] = []
trimmed (message ∷ messages) = trim_newline message ∷ trimmed messages

-- `Append` of a view, for several messages.
unfoldable pub append_to : ℕ → List Text → List UiTab → List UiTab
unfolding trimmed
append_to n messages [] = []
append_to zero messages (tab ∷ tabs) = record tab { list = tab.list ++ trimmed messages } ∷ tabs
append_to (suc n) messages (tab ∷ tabs) = tab ∷ append_to n messages tabs

module _ (definition : ℕ → Task) (seconds : ℕ → Text) where
  unfoldable pub reason_lines : List InvalidationEvent → List Text
  unfolding event_description
  reason_lines [] = []
  reason_lines (reason ∷ reasons) =
      (bytes "- " ++ event_description definition reason) ∷ reason_lines reasons

  -- What `Subscribe` appends for an event. `seconds` prints a duration with two decimals.
  unfoldable pub tab_messages : ExecutorEvent → List Text
  unfolding reason_lines decimal
  tab_messages executor_setup = []
  tab_messages (task_started t) = []
  tab_messages (task_log t message stream) = message ∷ []
  tab_messages (task_invalidated t reasons) =
      (bytes "Invalidating for " ++ (decimal (length reasons) ++ bytes " reasons:"))
      ∷ reason_lines reasons
  tab_messages (task_completed t duration) =
      (if duration == 0
        then bytes "Completed"
        else bytes "Completed (" ++ (seconds duration ++ bytes "s)"))
      ∷ []
  tab_messages (task_failed t err) = bytes "Failed:" ∷ err ∷ []
  tab_messages (task_diagnostic t err) = bytes "Warning:" ∷ err ∷ []
  tab_messages (task_stopped t) = bytes "Stopped!" ∷ []

  abbrev pub index_of : Option ℕ → TabWidget → Option ℕ
  index_of none w = none
  index_of (some t) w = w.tab_index_by_task t

  -- The body of the loop of `Subscribe`.
  unfoldable pub show_event : ExecutorEvent → TabWidget → TabWidget
  unfolding tab_messages append_to task_handler
  show_event event w = elim (index_of (task_handler event) w) [
    | none ↦ w
    | some n ↦ record w { tabs = append_to n (tab_messages event) w.tabs }
  ]

  -- `Subscribe` until the interface is closed.
  unfoldable pub show_events : List ExecutorEvent → TabWidget → TabWidget
  unfolding show_event
  show_events [] w = w
  show_events (event ∷ events) w = show_events events (show_event event w)
