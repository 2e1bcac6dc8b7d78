-- ===== src/Carousel/Session.antt =====
-- The life of a carousel of owl.carousel.js: what happens to it in any order, the handler of
-- response for resizes of the window included. The polls of images, which only change what is known
-- of an item's image, are left out.
pub mod Offers
pub mod Usable
pub mod Rests
use gitb.Base.{
  ℕ, ◌<◌, ◌+◌, ◌-◌, Bool, true, false, not, Option, none, ℤ, length, ◌==◌, if◌then◌else◌, ◌≡◌,
}
use gitb.Carousel.State.{Item, Carousel}
use gitb.Carousel.Moves.{has_auto_play, update_vars}
use gitb.Carousel.Events.{Event, handle}
use gitb.Carousel.Startup.{Widths, add_item, remove_item}
use gitb.Carousel.Drag.{Gesture, Point, drag_start, drag_move, drag_end}

-- The variables of `response`, with the rest.
pub record Session : Type 0 where
  pub carousel : Carousel
  pub gesture : Gesture
  pub last_window_width : ℕ
  pub small_delay : Bool  -- the timer `smallDelay` runs
  pub old_delays : ℕ  -- such timers of former handlers that still run

-- `resizer`, at the window's width.
unfoldable pub resizer : ℕ → Session → Session
resizer width s =
    let c = s.carousel in
    if not c.options.responsive then s else if width == s.last_window_width then s else record s {
      carousel = if has_auto_play c.options then record c { auto_play_interval = none } else c;
      small_delay = true;
    }

-- The timer `smallDelay`.
unfoldable pub delay_passes : Widths → Session → Session
unfolding update_vars
delay_passes w s = if not s.small_delay then s else record s {
  carousel = update_vars w.window w.element s.carousel;
  last_window_width = w.window;
  small_delay = false;
}

-- The same timer of a handler that a new one has replaced.
unfoldable pub old_delay_passes : Widths → Session → Session
unfolding update_vars
old_delay_passes w s = if s.old_delays == 0 then s else record s {
  carousel = update_vars w.window w.element s.carousel;
  old_delays = s.old_delays - 1;
}

-- `response`, called again after the items have changed: a new `resizer` with its own variables.
abbrev pub new_resizer : Widths → Carousel → Session → Session
new_resizer w c s = record s {
  carousel = c;
  last_window_width = w.window;
  small_delay = false;
  old_delays = if s.small_delay then s.old_delays + 1 else s.old_delays;
}

pub data Step : Session → Session → Type 0 where
  happens : (e : Event) (s : Session) → Step s (record s { carousel = handle e s.carousel })
  window_resizes : (width : ℕ) (s : Session) → Step s (resizer width s)
  delay_ends : (w : Widths) (s : Session) → Step s (delay_passes w s)
  old_delay_ends : (w : Widths) (s : Session) → Step s (old_delay_passes w s)
  drag_begins :
      (p : Point) (left top : ℤ) (s : Session)
      → Step s (record s {
        carousel = (drag_start p left top (s.gesture, s.carousel)).1;
        gesture = (drag_start p left top (s.gesture, s.carousel)).0;
      })
  drag_moves :
      (p : Point) (s : Session)
      → s.gesture.listening ≡ true
      → Step s (record s {
        carousel = (drag_move p (s.gesture, s.carousel)).1;
        gesture = (drag_move p (s.gesture, s.carousel)).0;
      })
  drag_ends :
      (s : Session)
      → s.gesture.listening ≡ true
      → s.carousel.is_transition ≡ false
      → Step s (record s {
        carousel = (drag_end (s.gesture, s.carousel)).1;
        gesture = (drag_end (s.gesture, s.carousel)).0;
      })
  item_added :
      (w : Widths) (x : Item) (target : Option ℤ) (s : Session)
      → Step s (new_resizer w (add_item w x target s.carousel) s)
  item_removed :
      (w : Widths) (target : Option ℤ) (s : Session)
      → 1 < length s.carousel.owl_items
      → Step s (new_resizer w (remove_item w target s.carousel) s)

-- Any number of steps.
pub data Steps : Session → Session → Type 0 where
  done : (s : Session) → Steps s s
  and_then : (r s t : Session) → Steps r s → Step s t → Steps r t
