-- ===== src/Carousel/Tests/Runs.antt =====
-- Runs of owl.carousel.js on concrete carousels.
use gitb.Base.{
  ℤ, ◌+◌, ◌%◌, true, false, none, some, [], ◌∷◌, pos, neg, scale, ◌+ℤ◌, ◌≤ℤ◌, replicate, ◌≡◌, refl,
  arith,
}
use gitb.Carousel.State.{page, Carousel}
use gitb.Carousel.Moves.{go_to, next, prev, update_vars}
use gitb.Carousel.Moves.Undragged.{IsSettled, wrapper_at}
use gitb.Carousel.Moves.Refresh.{update_vars-IsSettled}
use gitb.Carousel.Events.{
  handle, run, owl_next, owl_prev, owl_play, click_page, mouse_enters, mouse_leaves, timer_ticks,
}
use gitb.Carousel.Events.Settled.{IsReady, run-IsReady}
use gitb.Carousel.Events.Stopped.{IsStopped, run-IsStopped}
use gitb.Carousel.Events.Cycle.{run_next-item, run_next_prev-item}
use gitb.Carousel.Startup.{set_vars}
use gitb.Carousel.Startup.Settled.{set_vars-IsSettled}
use gitb.Carousel.Drag.{Gesture, Point, drag_move, closest_item, get_new_position, drag_end}
use gitb.Carousel.Drag.Bounds.{drag_move_bounds}
use gitb.Carousel.Startup.Busy.{set_vars_busy}
use gitb.Carousel.Session.{
  Session, resizer, delay_passes, happens, window_resizes, delay_ends, Steps, done, and_then,
  drag_moves,
}
use gitb.Carousel.Session.Rests.{IsRunning, Steps-IsRunning}
use gitb.Carousel.Drag.End.{drag_end_blocked}
use gitb.Carousel.Drag.Closest.{closest_item-right}
use gitb.Carousel.Tests.{
  image, five_items, widths, five_items-IsReady, two_shown-AllOffer, five_items-Rounds,
  five_items-IsStopped,
}

run-IsReady_example :
    IsReady (run (owl_next ∷ click_page 1 ∷ owl_play (some 5000) ∷ timer_ticks ∷ []) five_items)
run-IsReady_example =
    run-IsReady (owl_next ∷ click_page 1 ∷ owl_play (some 5000) ∷ timer_ticks ∷ []) five_items
      five_items-IsReady

set_vars-IsSettled_example : IsSettled (set_vars widths (image ∷ image ∷ image ∷ []) five_items)
set_vars-IsSettled_example = set_vars-IsSettled widths image (image ∷ image ∷ []) five_items

update_vars-IsSettled_example : IsSettled (update_vars 400 300 five_items)
update_vars-IsSettled_example = update_vars-IsSettled 400 300 (pos 0) five_items refl

run_next-item_example : (run (replicate 6 owl_next) five_items).current_item ≡ pos ((0 + 6) % 4)
run_next-item_example = run_next-item 6 0 five_items five_items-Rounds

run_next_prev-item_example : (run (owl_next ∷ owl_prev ∷ []) five_items).current_item ≡ pos 0
run_next_prev-item_example = run_next_prev-item 0 five_items five_items-Rounds

run-IsStopped_example : IsStopped (run (mouse_enters ∷ owl_next ∷ mouse_leaves ∷ []) five_items)
run-IsStopped_example =
    run-IsStopped (mouse_enters ∷ owl_next ∷ mouse_leaves ∷ []) five_items
      (refl, (refl, (refl, tt))) five_items-IsStopped

abbrev dragged : Gesture
dragged = record {
  offset_x = pos 0;
  offset_y = pos 0;
  relative_pos = pos 0;
  sliding = true;
  new_pos_x5 = neg 800;
  new_relative_x = neg 160;
  drag_direction = none;
  listening = true;
  touch_moves = true;
  grabbing = false;
}

abbrev far_right : Point
far_right = record { x = pos 1000; y = pos 0; third_button = false }

drag_move_bounds_example :
    (x : ℤ) × (wrapper_at (drag_move far_right (dragged, five_items)).1 ≡ some x)
    × (scale 5 five_items.maximum_pixels
          +ℤ (drag_move far_right (dragged, five_items)).0.new_relative_x
        ≤ℤ x)
    × (x ≤ℤ (drag_move far_right (dragged, five_items)).0.new_relative_x)
drag_move_bounds_example = drag_move_bounds far_right five_items dragged (omega arith)

abbrev swapping : Carousel
swapping = record five_items { is_transition = true }

drag_end_blocked_example :
    (drag_end (dragged, swapping)).1
    ≡ record swapping { current_item = get_new_position dragged swapping }
drag_end_blocked_example = drag_end_blocked dragged swapping refl refl

closest_item-right_example : closest_item dragged five_items ≡ pos 2
unfolding ◌+ℤ◌ scale
closest_item-right_example =
    closest_item-right dragged five_items 6 1 3100 refl (omega arith) refl (omega arith) refl
      (omega arith) (omega arith) (omega arith)

abbrev started : Session
started = record {
  carousel = set_vars widths (image ∷ image ∷ image ∷ []) five_items;
  gesture = dragged;
  last_window_width = 800;
  small_delay = false;
  old_delays = 0;
}

abbrev moved : Session
moved = record started { carousel = handle owl_next started.carousel }

abbrev pulled : Session
pulled = record moved {
  carousel = (drag_move far_right (moved.gesture, moved.carousel)).1;
  gesture = (drag_move far_right (moved.gesture, moved.carousel)).0;
}

abbrev resized : Session
resized = delay_passes widths (resizer 500 pulled)

resized-Steps : Steps started resized
resized-Steps =
    and_then started (resizer 500 pulled) resized
      (and_then started pulled (resizer 500 pulled)
        (and_then started moved pulled
          (and_then started started moved (done started) (happens owl_next started))
          (drag_moves far_right moved refl))
        (window_resizes 500 pulled))
      (delay_ends widths (resizer 500 pulled))

Steps-IsRunning_example : IsRunning resized
Steps-IsRunning_example =
    Steps-IsRunning widths image (image ∷ image ∷ []) five_items started resized two_shown-AllOffer
      (omega arith) refl resized-Steps

set_vars_busy_example :
    let d = set_vars widths (image ∷ []) swapping in
    (next page d ≡ d) × (prev page d ≡ d) × (go_to (pos 2) page false d ≡ d)
set_vars_busy_example = set_vars_busy widths image [] swapping (pos 2) page false refl
