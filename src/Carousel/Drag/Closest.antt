-- ===== src/Carousel/Drag/Closest.antt =====
-- `closestItem` of owl.carousel.js, for a drag to the left in a carousel that scrolls by items.
use gitb.Base.{
  mul_mono, ℕ, zero, suc, ◌+◌, ◌*◌, ◌<◌, ◌≤◌, Bool, true, false, ◌&&◌, some, List, [], ◌∷◌, map, ℤ,
  pos, neg, neg_parts, scale, scale_parts, ◌+ℤ◌, ◌-ℤ◌, -ℤ_parts, eq_of_parts, if_false, if_true,
  eq_ℤ, ltb, ltb_ℤ, ◌<ℤ◌, if◌then◌else◌, ◌≡◌, refl, ap, ap₂, ◌∙◌, arith,
}
use native.Mathlib.Decide.{dec_lt}
use gitb.Carousel.State.{Carousel}
use gitb.Carousel.Drag.{
  Gesture, closest_item, move_direction, right, above, under, or_else, minus, first, Search,
  closest_step, closest_from,
}

under-neg : (t m : ℕ) → under (neg t) (some (neg m)) ≡ ltb (20 * m) t
under-neg t m = ground (arith, neg_parts t, neg_parts m, scale_parts 20 (neg m))

above-neg : (t m : ℕ) → above (neg t) (some (neg m)) ≡ ltb t (20 * m)
above-neg t m = ground (arith, neg_parts t, neg_parts m, scale_parts 20 (neg m))

-- The positions of the items from `j` on.
abbrev pub descending : ℕ → ℕ → ℕ → List ℤ
descending w j zero = []
descending w j (suc n) = neg (j * w) ∷ descending w (suc j) n

minus-neg : (a w : ℕ) → neg a -ℤ pos w ≡ neg (a + w)
minus-neg a w =
    eq_of_parts _ _ (omega (arith, -ℤ_parts (neg a) (pos w), neg_parts a, neg_parts (a + w)))

-- What the loop takes for the next position, also behind the last one.
next_position :
    (w j n : ℕ)
    → 0 < w
    → or_else (first (map some (descending w (suc j) n))) (minus (some (neg (j * w))) w)
      ≡ some (neg (suc j * w))
next_position w j zero h = ap some (minus-neg (j * w) w ∙ ap neg (omega arith))
next_position w j (suc n) h =
    if_false (eq_ℤ (neg (suc j * w)) (pos 0)) (minus (some (neg (j * w))) w) _
      (ground (arith, positive, neg_parts (suc j * w)))
  where
    positive : 0 < suc j * w
    positive = omega arith

-- Whether the wrapper stands between the positions of `j` and of `j + 1`, in twentieths of a pixel.
abbrev between : ℕ → ℕ → ℕ → Bool
between w t j = ltb (20 * (j * w)) t && ltb t (20 * (suc j * w))

module _ (s : Search) (t : ℕ) (moves_right : s.direction ≡ right) (by_items : s.scroll ≡ false)
    (at : s.goal +ℤ pos s.width ≡ neg t) (wide : 0 < s.width) where
  under_here :
      (j : ℕ)
      → under (s.goal +ℤ pos s.width) (some (neg (j * s.width))) ≡ ltb (20 * (j * s.width)) t
  under_here j = ap (λ a. under a (some (neg (j * s.width)))) at ∙ under-neg t (j * s.width)

  above_next :
      (j n : ℕ)
      → above (s.goal +ℤ pos s.width) (
          or_else
            (first (map some (descending s.width (suc j) n)))
            (minus (some (neg (j * s.width))) s.width))
        ≡ ltb t (20 * (suc j * s.width))
  above_next j n = ap₂ above at (next_position s.width j n wide) ∙ above-neg t (suc j * s.width)

  step_right :
      (j n : ℕ) (current : ℤ)
      → closest_step s j
          (some (neg (j * s.width)))
          (first (map some (descending s.width (suc j) n)))
          current
        ≡ (if between s.width t j then pos (suc j) else current)
  step_right j n current = ground (arith, under_here j, above_next j n)

  loop_after :
      (i j n : ℕ) (current : ℤ)
      → between s.width t i ≡ true
      → i < j
      → closest_from s j (map some (descending s.width j n)) current ≡ current
  unfolding closest_from
  loop_after i j zero current b l = refl
  loop_after i j (suc n) current b l =
      ap (closest_from s (suc j) (map some (descending s.width (suc j) n)))
        (step_right j n current ∙ ground (arith, mul_mono i j s.width l))
      ∙ loop_after i (suc j) n current b (omega arith)

  loop_at :
      (i j n : ℕ) (current : ℤ)
      → between s.width t i ≡ true
      → j ≤ i
      → i < j + n
      → closest_from s j (map some (descending s.width j n)) current ≡ pos (suc i)
  unfolding closest_from
  loop_at i j zero current b l h = absurd (omega arith)
  loop_at i j (suc n) current b l h = elim (dec_lt j i) [
    | yes p ↦
        ap (closest_from s (suc j) (map some (descending s.width (suc j) n)))
          (step_right j n current ∙ ground (arith, mul_mono j i s.width p))
        ∙ loop_at i (suc j) n current b p (omega arith)
    | no p ↦
        let e : j ≡ i = omega arith in
        ap (closest_from s (suc j) (map some (descending s.width (suc j) n)))
          (step_right j n current ∙ rw e (if_true (between s.width t i) _ _ b))
        ∙ loop_after i (suc j) n (pos (suc i)) b (omega arith)
  ]

-- In a carousel that scrolls by items of a positive width, with `n` positions at the multiples of
-- the width: if a drag to the left leaves the wrapper strictly between the positions of item
-- `i` and of the next, counted from a twentieth of the width to the right of the wrapper
-- (-t in twentieths of a pixel), then `closestItem` chooses item `i + 1`, from whatever item.
pub closest_item-right :
    (g : Gesture) (c : Carousel) (n i t : ℕ)
    → c.options.scroll_per_page ≡ false
    → 0 < c.item_width
    → c.positions_in_array ≡ descending c.item_width 0 n
    → g.new_relative_x <ℤ pos 0
    → scale 4 g.new_pos_x5 +ℤ pos c.item_width ≡ neg t
    → 20 * (i * c.item_width) < t
    → t < 20 * (suc i * c.item_width)
    → i < n
    → closest_item g c ≡ pos (suc i)
unfolding closest_item
closest_item-right g c n i t by_items wide laid left at lo hi fits =
    ap (λ a. closest_from s 0 a c.current_item)
      (if_false c.options.scroll_per_page _ _ by_items ∙ ap (map some) laid)
    ∙ loop_at s t (if_true (ltb_ℤ g.new_relative_x (pos 0)) _ _ (ground arith)) by_items at wide i 0
        n c.current_item (ground arith) (omega arith) (omega arith)
  where
    s : Search
    s = record {
      goal = scale 4 g.new_pos_x5;
      width = c.item_width;
      direction = move_direction g.new_relative_x;
      scroll = c.options.scroll_per_page;
      positions = c.positions_in_array;
      array = if c.options.scroll_per_page then c.pages_in_array else map some c.positions_in_array;
    }
