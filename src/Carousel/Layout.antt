-- ===== src/Carousel/Layout.antt =====
-- Sizes and positions: calculateWidth, appendItemsSizes, appendWrapperSizes, loops, max and
-- calculateAll of owl.carousel.js. `$owlItems` has one element for each of the `itemsAmount`
-- items, so the loops over an index are recursions on that list.
pub mod Positions
pub mod Pages
pub mod Buttons
use gitb.Base.{
  ℕ, zero, suc, ◌+◌, ◌*◌, ◌-◌, ◌/◌, Bool, ◌&&◌, ◌||◌, not, Option, none, some, List, [], ◌∷◌, ◌++◌,
  ℤ, pos, neg, sub_ℕ, eq_ℤ, ltb_ℤ, ltb, ◌==◌, if◌then◌else◌, get_elem?, length,
}
use gitb.Carousel.State.{Item, Carousel, divides}

-- `Math.round(a / b)`; a zero divisor gives Infinity there, and 0 here.
abbrev pub round_div : ℕ → ℕ → ℕ
round_div a b = (2 * a + b) / (2 * b)

-- `calculateWidth`; the width of the element is the page's.
unfoldable pub calculate_width : ℕ → Carousel → Carousel
calculate_width elem_width c = record c { item_width = round_div elem_width c.options.items }

-- The page count after the item at `index`, in the loop of `appendItemsSizes`.
abbrev pub next_round : ℕ → ℤ → ℕ → ℕ → ℕ
next_round items last index round =
    if (divides items index || eq_ℤ (pos index) last) && not (ltb_ℤ last (pos index))
    then suc round
    else round

unfoldable pub append_rounds : ℕ → ℤ → ℕ → ℕ → List Item → List Item
append_rounds items last index round [] = []
append_rounds items last index round (x ∷ xs) =
    let round' = next_round items last index round in
    record x { round_pages = round' } ∷ append_rounds items last (suc index) round' xs

unfoldable pub append_items_sizes : Carousel → Carousel
append_items_sizes c = record c { owl_items = append_rounds items last 0 0 c.owl_items }
  where
    open c.options use {items}

    last : ℤ
    last = sub_ℕ c.items_amount items

unfoldable pub append_wrapper_sizes : Carousel → Carousel
append_wrapper_sizes c = append_items_sizes (record c {
  wrapper_width = length c.owl_items * c.item_width * 2;
  css_left = some (pos 0);
  dragged = if c.support3d then c.dragged else none;
})

-- `array[i] = v`, with holes where the array was shorter.
abbrev pub write : List (Option ℤ) → ℕ → Option ℤ → List (Option ℤ)
write [] zero v = v ∷ []
write [] (suc i) v = none ∷ write [] i v
write (_ ∷ xs) zero v = v ∷ xs
write (x ∷ xs) (suc i) v = x ∷ write xs i v

-- The variables of the loop in `loops`.
pub record Grid : Type 0 where
  pub el_width : ℕ
  pub prev : ℕ
  pub positions : List ℤ
  pub pages : List (Option ℤ)

-- One round: the position behind the item, and the start of a page if the item begins one.
unfoldable pub grid_step : Bool → ℕ → ℕ → Item → Grid → Grid
grid_step scroll width i x g =
    let el_width = g.el_width + width in
    let positions = g.positions ++ neg el_width ∷ [] in
    if scroll && not (x.round_pages == g.prev)
    then record {
      el_width = el_width;
      prev = x.round_pages;
      positions = positions;
      pages = write g.pages g.prev (get_elem? positions i);
    }
    else record g { el_width = el_width; positions = positions }

unfoldable pub grid_from : Bool → ℕ → ℕ → List Item → Grid → Grid
grid_from scroll width i [] g = g
grid_from scroll width i (x ∷ xs) g =
    grid_from scroll width (suc i) xs (grid_step scroll width i x g)

abbrev pub empty_grid : Grid
empty_grid = record { el_width = 0; prev = 0; positions = pos 0 ∷ []; pages = [] }

unfoldable pub loops : Carousel → Carousel
loops c = record c { positions_in_array = g.positions; pages_in_array = g.pages }
  where
    g : Grid
    g = grid_from c.options.scroll_per_page c.item_width 0 c.owl_items empty_grid

unfoldable pub max : Carousel → Carousel
max c =
    if ltb c.items_amount items
    then record c { maximum_item = 0; maximum_pixels = pos 0 }
    else record c {
      maximum_item = c.items_amount - items;
      maximum_pixels = sub_ℕ (items * c.item_width) (c.items_amount * c.item_width);
    }
  where
    open c.options use {items}

unfoldable pub calculate_all : ℕ → Carousel → Carousel
unfolding calculate_width append_wrapper_sizes append_items_sizes loops max
calculate_all elem_width c = max (loops (append_wrapper_sizes (calculate_width elem_width c)))
