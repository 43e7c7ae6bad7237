-- ===== src/Terminal/Keys.antt =====
-- No keys lead to a tab that does not exist.
use taskrunner.Prelude.{
  ℕ, zero, suc, ◌+◌, ◌-◌, ◌<◌, ◌≡◌, refl, sym, ap, ◌∙◌, if◌then◌else◌, if_some, Option, some, List,
  [], ◌∷◌, ◌++◌, append-nil, length, arith, inl, inr, Bool-cases, ltb,
}
use mathlib.Core.List.{append_assoc}
use taskrunner.Prelude.Int.{ℤ, pos, negsuc, ◌+ℤ◌, ◌-ℤ◌}
use taskrunner.Terminal.{
  clamp, UiTab, TabWidget, new_tab_widget, get, style_from, current, select, next_tab, previous_tab,
  scroll_by, restart, Rune, rune_j, rune_k, rune_r, other_rune, KeyCode, key_tab, key_278,
  key_ctrl_u, key_down, key_ctrl_d, key_up, other_key, on_rune, on_key, on_key_event, on_key_events,
  populate, populate_all, build_tab_list,
}

abbrev pub tasks_of : List UiTab → List ℕ
tasks_of [] = []
tasks_of (tab ∷ tabs) = tab.task ∷ tasks_of tabs

length-style_from :
    (i : ℕ) (selected : ℤ) (tabs : List UiTab) → length (style_from i selected tabs) ≡ length tabs
unfolding style_from
length-style_from i selected [] = refl
length-style_from i selected (tab ∷ tabs) = ap suc (length-style_from (i + 1) selected tabs)

tasks_of-style_from :
    (i : ℕ) (selected : ℤ) (tabs : List UiTab)
    → tasks_of (style_from i selected tabs) ≡ tasks_of tabs
unfolding style_from
tasks_of-style_from i selected [] = refl
tasks_of-style_from i selected (tab ∷ tabs) =
    ap (λ l. tab.task ∷ l) (tasks_of-style_from (i + 1) selected tabs)

tasks_of-append : (xs ys : List UiTab) → tasks_of (xs ++ ys) ≡ tasks_of xs ++ tasks_of ys
tasks_of-append [] ys = refl
tasks_of-append (x ∷ xs) ys = ap (λ l. x.task ∷ l) (tasks_of-append xs ys)

get_lem : (n : ℕ) (tabs : List UiTab) → n < length tabs → (tab : UiTab) × (get n tabs ≡ some tab)
get_lem n [] h = absurd (omega arith)
get_lem zero (tab ∷ tabs) h = (tab, refl)
get_lem (suc n) (tab ∷ tabs) h = get_lem n tabs (omega arith)

-- The selected tab is one of the tabs.
record InRange (w : TabWidget) : Type 0 where
  index : ℕ
  selected : w.selected ≡ pos index
  below : index < length w.tabs

-- What a step of the widget leaves.
abbrev Leaves : TabWidget → Option TabWidget → Type 0
Leaves w o =
    (w' : TabWidget) × (o ≡ some w')
    × InRange w'
    × (tasks_of w'.tabs ≡ tasks_of w.tabs)
    × (length w'.tabs ≡ length w.tabs)

clamped : (i : ℤ) (n : ℕ) → 0 < n → (k : ℕ) × (clamp i (pos 0) (pos n -ℤ pos 1) ≡ pos k) × (k < n)
unfolding clamp ◌-ℤ◌
clamped (negsuc m) n h = (n - 1, ground arith, omega arith)
clamped (pos m) n h = elim (Bool-cases (ltb (n - 1) m)) [
  | inl e ↦ (0, ground arith, omega arith)
  | inr e ↦ (m, ground arith, ground arith)
]

select-at :
    (i : ℤ) (k : ℕ) (w : TabWidget)
    → clamp i (pos 0) (pos (length w.tabs) -ℤ pos 1) ≡ pos k
    → k < length w.tabs
    → (w' : TabWidget) × (select i w ≡ some w')
      × (w'.selected ≡ pos k)
      × (w'.tabs ≡ style_from 0 (pos k) w.tabs)
unfolding select current
select-at i k w e h =
    let (tab, found) =
      get_lem k (style_from 0 (pos k) w.tabs) (omega (arith, length-style_from 0 (pos k) w.tabs)) in
    (
      record w { selected = pos k; tabs = style_from 0 (pos k) w.tabs; shown = some tab.task },
      rw (e, select) (rw found refl),
      refl,
      refl,
    )

select-Leaves : (i : ℤ) (w : TabWidget) → 0 < length w.tabs → Leaves w (select i w)
select-Leaves i w h =
    let (k, e, below) = clamped i (length w.tabs) h in
    let (w', run, at_k, styled) = select-at i k w e below in
    let same = ap length styled ∙ length-style_from 0 (pos k) w.tabs in
    (
      w',
      run,
      record { index = k; selected = at_k; below = omega arith },
      ap tasks_of styled ∙ tasks_of-style_from 0 (pos k) w.tabs,
      same,
    )

Leaves-then :
    (w : TabWidget) (o : Option TabWidget) (f : TabWidget → Option TabWidget)
    → Leaves w o
    → ((w' : TabWidget) → InRange w' → Leaves w' (f w'))
    → Leaves w (if_some o f)
Leaves-then w o f (w', e, range, tasks, size) g =
    let (v, e', range', tasks', size') = g w' range in
    (v, ap (λ p. if_some p f) e ∙ e', range', tasks' ∙ tasks, size' ∙ size)

Leaves-same : (w : TabWidget) → InRange w → Leaves w (some w)
Leaves-same w h = (w, refl, h, refl, refl)

some_tab : (w : TabWidget) → InRange w → (tab : UiTab) × (current w ≡ some tab)
unfolding current
some_tab w h = let (tab, found) = get_lem h.index w.tabs h.below in (tab, rw (h.selected) found)

next_tab-Leaves : (w : TabWidget) → InRange w → Leaves w (next_tab w)
unfolding next_tab
next_tab-Leaves w h = let below = h.below in select-Leaves (w.selected +ℤ pos 1) w (omega arith)

previous_tab-Leaves : (w : TabWidget) → InRange w → Leaves w (previous_tab w)
unfolding previous_tab
previous_tab-Leaves w h = let below = h.below in select-Leaves (w.selected -ℤ pos 1) w (omega arith)

scroll_by-Leaves : (dy : ℤ) (w : TabWidget) → InRange w → Leaves w (scroll_by dy w)
unfolding scroll_by
scroll_by-Leaves dy w h =
    let (tab, found) = some_tab w h in
    let moved : TabWidget = record w { scrolled = w.scrolled ++ (tab.task, dy) ∷ [] } in
    (
      moved,
      ap
          (λ o.
            if_some o
              (λ (t : UiTab). some (record w { scrolled = w.scrolled ++ (t.task, dy) ∷ [] })))
          found,
      record { index = h.index; selected = h.selected; below = h.below },
      refl,
      refl,
    )

restart-Leaves : (w : TabWidget) → InRange w → Leaves w (restart w)
unfolding restart
restart-Leaves w h =
    let (tab, found) = some_tab w h in
    let asked : TabWidget = record w { restarts = w.restarts ++ tab.task ∷ [] } in
    (
      asked,
      ap (λ o. if_some o (λ (t : UiTab). some (record w { restarts = w.restarts ++ t.task ∷ [] })))
          found,
      record { index = h.index; selected = h.selected; below = h.below },
      refl,
      refl,
    )

on_rune-Leaves : (r : Rune) (w : TabWidget) → InRange w → Leaves w (on_rune r w)
unfolding on_rune
on_rune-Leaves rune_j w h = next_tab-Leaves w h
on_rune-Leaves rune_k w h = previous_tab-Leaves w h
on_rune-Leaves rune_r w h = restart-Leaves w h
on_rune-Leaves other_rune w h = Leaves-same w h

on_key-Leaves : (k : KeyCode) (w : TabWidget) → InRange w → Leaves w (on_key k w)
unfolding on_key
on_key-Leaves key_tab w h = next_tab-Leaves w h
on_key-Leaves key_278 w h = previous_tab-Leaves w h
on_key-Leaves key_ctrl_u w h = scroll_by-Leaves (negsuc 4) w h
on_key-Leaves key_down w h = scroll_by-Leaves (negsuc 4) w h
on_key-Leaves key_ctrl_d w h = scroll_by-Leaves (pos 5) w h
on_key-Leaves key_up w h = scroll_by-Leaves (pos 5) w h
on_key-Leaves other_key w h = Leaves-same w h

on_key_events-Leaves :
    (events : List (Rune × KeyCode)) (w : TabWidget) → InRange w → Leaves w (on_key_events events w)
unfolding on_key_events on_key_event
on_key_events-Leaves [] w h = Leaves-same w h
on_key_events-Leaves ((r, k) ∷ events) w h =
    Leaves-then w (on_key_event (r, k) w) (on_key_events events)
      (Leaves-then w (on_rune r w) (on_key k) (on_rune-Leaves r w h) (on_key-Leaves k))
      (on_key_events-Leaves events)

tasks_of-populate_all :
    (tasks : List ℕ) (w : TabWidget)
    → tasks_of (populate_all tasks w).tabs ≡ tasks_of w.tabs ++ tasks
unfolding populate_all populate
tasks_of-populate_all [] w = sym (append-nil (tasks_of w.tabs))
tasks_of-populate_all (t ∷ tasks) w =
    let tab : UiTab = record { task = t; style = []; list = [] } in
    tasks_of-populate_all tasks (populate t w)
    ∙ ap (λ l. l ++ tasks)
        (tasks_of-style_from 0 w.selected (w.tabs ++ tab ∷ []) ∙ tasks_of-append w.tabs (tab ∷ []))
    ∙ append_assoc (tasks_of w.tabs) (t ∷ []) tasks

length-tasks_of : (tabs : List UiTab) → length (tasks_of tabs) ≡ length tabs
length-tasks_of [] = refl
length-tasks_of (tab ∷ tabs) = ap suc (length-tasks_of tabs)

-- The index of the tab behind tab `k` of `n`.
abbrev pub after : ℕ → ℕ → ℕ
after k n = if ltb k (n - 1) then k + 1 else 0

after-lt : (k n : ℕ) → k < n → after k n < n
after-lt k n h = ground arith

clamp-next : (k n : ℕ) → k < n → clamp (pos k +ℤ pos 1) (pos 0) (pos n -ℤ pos 1) ≡ pos (after k n)
unfolding clamp ◌+ℤ◌ ◌-ℤ◌
clamp-next k n h = ground arith

-- The index of the tab before tab `k` of `n`.
abbrev pub before : ℕ → ℕ → ℕ
before k n = if ltb 0 k then k - 1 else n - 1

before-lt : (k n : ℕ) → k < n → before k n < n
before-lt k n h = ground arith

clamp-previous :
    (k n : ℕ) → k < n → clamp (pos k -ℤ pos 1) (pos 0) (pos n -ℤ pos 1) ≡ pos (before k n)
unfolding clamp ◌-ℤ◌
clamp-previous k n h = ground arith

-- A key event selects tab `k`.
abbrev pub Selects : TabWidget → Rune × KeyCode → ℕ → Type 0
Selects w event k = (v : TabWidget) × (on_key_event event w ≡ some v) × (v.selected ≡ pos k)

-- Both keys for the next tab, and both for the one before.
next_keys :
    (w : TabWidget) (h : InRange w)
    → Selects w (rune_j, other_key) (after h.index (length w.tabs))
      × Selects w (other_rune, key_tab) (after h.index (length w.tabs))
unfolding on_key_event on_rune on_key next_tab
next_keys w h =
    let (u, run, sel, styled) =
      select-at (w.selected +ℤ pos 1) (after h.index (length w.tabs)) w
        (ap (λ i. clamp (i +ℤ pos 1) (pos 0) (pos (length w.tabs) -ℤ pos 1)) h.selected
          ∙ clamp-next h.index (length w.tabs) h.below)
        (after-lt h.index (length w.tabs) h.below) in
    ((u, ap (λ o. if_some o (on_key other_key)) run, sel), (u, run, sel))

previous_keys :
    (w : TabWidget) (h : InRange w)
    → Selects w (rune_k, other_key) (before h.index (length w.tabs))
      × Selects w (other_rune, key_278) (before h.index (length w.tabs))
unfolding on_key_event on_rune on_key previous_tab
previous_keys w h =
    let (u, run, sel, styled) =
      select-at (w.selected -ℤ pos 1) (before h.index (length w.tabs)) w
        (ap (λ i. clamp (i -ℤ pos 1) (pos 0) (pos (length w.tabs) -ℤ pos 1)) h.selected
          ∙ clamp-previous h.index (length w.tabs) h.below)
        (before-lt h.index (length w.tabs) h.below) in
    ((u, ap (λ o. if_some o (on_key other_key)) run, sel), (u, run, sel))

-- With at least one task, the interface shows a tab for each task in their order, and no keys make it
-- panic: after any of them the selected tab is one of these tabs. The rune j and the tab key then
-- select the next tab, and the first behind the last; the rune k and the key 278 select the tab before,
-- and the last before the first.
pub on_key_events_lem :
    (t : ℕ) (tasks : List ℕ) (events : List (Rune × KeyCode))
    → (w : TabWidget) × (if_some (build_tab_list (t ∷ tasks) new_tab_widget) (on_key_events events)
        ≡ some w)
      × (tasks_of w.tabs ≡ t ∷ tasks)
      × ((index : ℕ) × (w.selected ≡ pos index)
          × (index < length w.tabs)
          × Selects w (rune_j, other_key) (after index (length w.tabs))
          × Selects w (other_rune, key_tab) (after index (length w.tabs))
          × Selects w (rune_k, other_key) (before index (length w.tabs))
          × Selects w (other_rune, key_278) (before index (length w.tabs)))
unfolding build_tab_list
on_key_events_lem t tasks events =
    let filled : TabWidget = populate_all (t ∷ tasks) new_tab_widget in
    let shown = tasks_of-populate_all (t ∷ tasks) new_tab_widget in
    let many : 0 < length filled.tabs =
      omega (arith, length-tasks_of filled.tabs, ap length shown) in
    let (w, run, range, same, size) =
      Leaves-then filled (select (pos 0) filled) (on_key_events events)
        (select-Leaves (pos 0) filled many) (on_key_events-Leaves events) in
    let (j, tab) = next_keys w range in
    let (k, back) = previous_keys w range in
    (w, run, same ∙ shown, (range.index, range.selected, range.below, j, tab, k, back))
