-- ===== src/Terminal/Scroll.antt =====
-- tui/autoscroller.go: a scroll area over a widget. `hint` is the height of the widget, `size` that
-- of the area.
use taskrunner.Prelude.{◌≡◌, ◌↔◌, if◌then◌else◌, Bool, true, false, not, ◌&&◌, arith}
use taskrunner.Prelude.Int.{ℤ, pos, ◌+ℤ◌, ◌-ℤ◌, ◌≤ℤ◌, ◌<ℤ◌, ltb_ℤ}

-- `autoScrollArea`: `topLeft` and whether the area follows the end.
pub record ScrollArea : Type 0 where
  pub x : ℤ
  pub y : ℤ
  pub autoscroll : Bool

module _ (hint size : ℤ) where
  unfoldable pub is_scroll_bottom : ScrollArea → Bool
  unfolding ◌-ℤ◌
  is_scroll_bottom s = ltb_ℤ (hint -ℤ size) s.y

  unfoldable pub is_scroll_filled : Bool
  unfolding ◌-ℤ◌
  is_scroll_filled = ltb_ℤ (size -ℤ hint) (pos 0)

  unfoldable pub scroll_to_bottom : ScrollArea → ScrollArea
  unfolding ◌-ℤ◌
  scroll_to_bottom s = record s { y = hint -ℤ size }

abbrev pub is_scroll_top : ScrollArea → Bool
is_scroll_top s = ltb_ℤ s.y (pos 0)

abbrev pub scroll_to_top : ScrollArea → ScrollArea
scroll_to_top s = record s { y = pos 0 }

module _ (hint size : ℤ) where
  -- `Scroll`
  unfoldable pub scroll : ℤ → ℤ → ScrollArea → ScrollArea
  unfolding is_scroll_bottom is_scroll_filled scroll_to_bottom ◌+ℤ◌
  scroll dx dy s =
      if not (is_scroll_filled hint size)
      then s
      else let moved = record s { x = s.x +ℤ dx; y = s.y +ℤ dy; autoscroll = false } in
        let capped = if is_scroll_top moved then scroll_to_top moved else moved in
        if is_scroll_bottom hint size capped
        then scroll_to_bottom hint size (record capped { autoscroll = true })
        else capped

  -- `Resize`, which the library calls with the size of the area before a frame.
  unfoldable pub resize : ScrollArea → ScrollArea
  unfolding is_scroll_filled scroll_to_bottom
  resize s = if s.autoscroll && is_scroll_filled hint size then scroll_to_bottom hint size s else s

  -- Where the widget is higher than the area, a scroll by any number of rows leaves the area between
  -- the first row and the last full page, and follows the end exactly if it would have gone behind
  -- that page.
  pub scroll_lem :
      (dx dy : ℤ) (s : ScrollArea)
      → size <ℤ hint
      → (pos 0 ≤ℤ (scroll dx dy s).y)
        × ((scroll dx dy s).y ≤ℤ hint -ℤ size)
        × (((scroll dx dy s).autoscroll ≡ true) ↔ (hint -ℤ size <ℤ s.y +ℤ dy))
  unfolding scroll
  scroll_lem dx dy s h = ground arith
