-- ===== src/Carousel/Drag/End.antt =====
-- Where a drag of owl.carousel.js ends.
use gitb.Base.{none, Bool, true, false, ℤ, pos, eq_ℤ, if_true, ◌≡◌, Bool-cases, inl, inr}
use gitb.Carousel.State.{usual, Carousel}
use gitb.Carousel.Moves.{go_to}
use gitb.Carousel.Moves.Settled.{IsAimed}
use gitb.Carousel.Moves.Preserved.{go_to-IsAimed, go_to-current_item}
use gitb.Carousel.Moves.Undragged.{go_to_undrags}
use gitb.Carousel.Drag.{Gesture, get_new_position, drag_end}

-- Outside an animation the end of a drag leads to the current item, whatever `closestItem` has found.
pub drag_end-IsAimed :
    (g : Gesture) (c : Carousel) → IsAimed c → c.is_transition ≡ false → IsAimed (drag_end (g, c)).1
unfolding drag_end
drag_end-IsAimed g c s idle = elim (Bool-cases (eq_ℤ g.new_relative_x (pos 0))) [
  | inl e ↦ rw e s
  | inr e ↦ rw e (
      rw (go_to-current_item (get_new_position g c) (get_new_position g c) usual true c idle)
        (go_to-IsAimed (get_new_position g c) usual true c s))
]

-- After a drag that has moved, the wrapper is at a stop again.
pub drag_end_undrags :
    (g : Gesture) (c : Carousel)
    → c.is_transition ≡ false
    → eq_ℤ g.new_relative_x (pos 0) ≡ false
    → (drag_end (g, c)).1.dragged ≡ none
unfolding drag_end
drag_end_undrags g c idle e = rw e (
    go_to_undrags (get_new_position g c) usual true
      (record c { current_item = get_new_position g c }) idle)

go_to_blocked :
    (p : ℤ) (drag : Bool) (c : Carousel) → c.is_transition ≡ true → go_to p usual drag c ≡ c
unfolding go_to
go_to_blocked p drag c busy = if_true c.is_transition c _ busy

-- During the animation of a single item, the end of a drag that has moved changes the current item
-- and nothing else: the wrapper, the history, the buttons and the visible items stay.
pub drag_end_blocked :
    (g : Gesture) (c : Carousel)
    → c.is_transition ≡ true
    → eq_ℤ g.new_relative_x (pos 0) ≡ false
    → (drag_end (g, c)).1 ≡ record c { current_item = get_new_position g c }
unfolding drag_end
drag_end_blocked g c busy e =
    rw e (go_to_blocked _ true (record c { current_item = get_new_position g c }) busy)
