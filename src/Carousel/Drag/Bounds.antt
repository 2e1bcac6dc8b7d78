-- ===== src/Carousel/Drag/Bounds.antt =====
-- How far a drag of owl.carousel.js may pull the wrapper.
use gitb.Base.{some, ◌≡◌, refl, ℤ, pos, ◌≤ℤ◌, ◌+ℤ◌, scale, scale_parts, +ℤ_parts, arith}
use gitb.Carousel.State.{Carousel}
use gitb.Carousel.Moves.Undragged.{wrapper_at}
use gitb.Carousel.Drag.{Gesture, Point, swipe, drag_move}

swipe_bounds :
    (maximum relative position : ℤ)
    → maximum ≤ℤ pos 0
    → (scale 5 maximum +ℤ relative ≤ℤ swipe maximum relative position)
      × (swipe maximum relative position ≤ℤ relative)
swipe_bounds maximum relative position h =
    ground (arith, scale_parts 5 maximum, +ℤ_parts (scale 5 maximum) relative)

-- If the last stop does not lie to the right of the first, then wherever the pointer is, a drag
-- puts the wrapper at most a fifth of the pointer's way beyond the first stop and beyond the last:
-- it stands between maximumPixels + newRelativeX / 5 and newRelativeX / 5.
pub drag_move_bounds :
    (p : Point) (c : Carousel) (g : Gesture)
    → c.maximum_pixels ≤ℤ pos 0
    → let (g', c') = drag_move p (g, c) in
      (x : ℤ) × (wrapper_at c' ≡ some x)
      × (scale 5 c.maximum_pixels +ℤ g'.new_relative_x ≤ℤ x)
      × (x ≤ℤ g'.new_relative_x)
unfolding drag_move
drag_move_bounds p c g h = let b = swipe_bounds c.maximum_pixels _ _ h in (_, refl, b.0, b.1)
