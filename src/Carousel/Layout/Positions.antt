-- ===== src/Carousel/Layout/Positions.antt =====
-- Where owl.carousel.js puts the items, and how far the wrapper moves.
use gitb.Base.{
  ℕ, zero, suc, ◌+◌, ◌*◌, ◌-◌, ◌<◌, ◌≤◌, Bool, some, List, [], ◌∷◌, ◌++◌, ℤ, pos, neg, sub_ℕ,
  get_elem?, length, ltb, ◌≡◌, refl, sym, ap, ◌∙◌, arith, if_cases,
}
use mathlib.Core.List.{append-nil, append_assoc}
use gitb.Carousel.State.{Item, Carousel}
use gitb.Carousel.Layout.{
  calculate_width, next_round, append_rounds, append_wrapper_sizes, Grid, grid_step, grid_from,
  empty_grid, loops, max, calculate_all,
}

-- The positions behind the items, the first of which begins at -`el`.
abbrev stops : ℕ → ℕ → List Item → List ℤ
stops width el [] = []
stops width el (x ∷ xs) = neg (el + width) ∷ stops width (el + width) xs

grid_step_positions :
    (scroll : Bool) (width i : ℕ) (x : Item) (g : Grid)
    → ((grid_step scroll width i x g).positions ≡ g.positions ++ neg (g.el_width + width) ∷ [])
      × ((grid_step scroll width i x g).el_width ≡ g.el_width + width)
unfolding grid_step
grid_step_positions scroll width i x g = ground arith

grid_from_positions :
    (scroll : Bool) (width i : ℕ) (xs : List Item) (g : Grid)
    → (grid_from scroll width i xs g).positions ≡ g.positions ++ stops width g.el_width xs
unfolding grid_from
grid_from_positions scroll width i [] g = sym (append-nil g.positions)
grid_from_positions scroll width i (x ∷ xs) g =
    let (p, e) = grid_step_positions scroll width i x g in
    grid_from_positions scroll width (suc i) xs (grid_step scroll width i x g)
    ∙ rw (p, e) (append_assoc g.positions _ _)

get_elem?-stops :
    (width el : ℕ) (xs : List Item) (i : ℕ)
    → i < length xs
    → get_elem? (stops width el xs) i ≡ some (neg (el + suc i * width))
get_elem?-stops width el [] i h = elim h [ ]
get_elem?-stops width el (x ∷ xs) zero h = ap (λ n. some (neg n)) (omega arith)
get_elem?-stops width el (x ∷ xs) (suc i) h =
    get_elem?-stops width (el + width) xs i (omega arith) ∙ ap (λ n. some (neg n)) (grind arith)

length-append_rounds :
    (items : ℕ) (last : ℤ) (index round : ℕ) (xs : List Item)
    → length (append_rounds items last index round xs) ≡ length xs
unfolding append_rounds
length-append_rounds items last index round [] = refl
length-append_rounds items last index round (x ∷ xs) =
    ap suc (length-append_rounds items last (suc index) (next_round items last index round) xs)

get_elem?-loops :
    (c : Carousel) (i : ℕ)
    → i ≤ length c.owl_items
    → get_elem? (loops c).positions_in_array i ≡ some (neg (i * c.item_width))
unfolding loops
get_elem?-loops c zero h =
    rw (grid_from_positions c.options.scroll_per_page c.item_width 0 c.owl_items empty_grid)
      (ap (λ n. some (neg n)) {x = 0} (omega arith))
get_elem?-loops c (suc i) h =
    rw (grid_from_positions c.options.scroll_per_page c.item_width 0 c.owl_items empty_grid)
      (get_elem?-stops c.item_width 0 c.owl_items i h ∙ ap (λ n. some (neg n)) (omega arith))

-- The steps of the layout before `max` lay out each of the items.
pub record HasPositions (c : Carousel) : Type 0 where
  pub position :
      (i : ℕ)
      → i ≤ c.items_amount
      → get_elem? c.positions_in_array i ≡ some (neg (i * c.item_width))

loops-HasPositions : (c : Carousel) → length c.owl_items ≡ c.items_amount → HasPositions (loops c)
unfolding loops
loops-HasPositions c e = record {
  position = λ i h. unfold loops in get_elem?-loops c i (omega arith);
}

pub record IsLaidOut (c : Carousel) : Type 0 where
  pub position :
      (i : ℕ)
      → i ≤ c.items_amount
      → get_elem? c.positions_in_array i ≡ some (neg (i * c.item_width))
  pub last_stop : c.maximum_item ≡ c.items_amount - c.options.items
  pub last_position : get_elem? c.positions_in_array c.maximum_item ≡ some c.maximum_pixels

neg-eq-sub_ℕ : (k a b : ℕ) → k + a ≡ b → neg k ≡ sub_ℕ a b
neg-eq-sub_ℕ zero a b h = ground arith
neg-eq-sub_ℕ (suc k) a b h = ground arith

-- What `max` computes is the position of the last stop.
pixels-eq :
    (items amount width : ℕ)
    → items ≤ amount
    → neg ((amount - items) * width) ≡ sub_ℕ (items * width) (amount * width)
pixels-eq items amount width h =
    let e : amount - items + items ≡ amount = omega arith in
    neg-eq-sub_ℕ ((amount - items) * width) (items * width) (amount * width)
      (omega (arith, ap (λ (t : ℕ). t * width) e))

fits-IsLaidOut :
    (c : Carousel)
    → HasPositions c
    → c.options.items ≤ c.items_amount
    → IsLaidOut (record c {
      maximum_item = c.items_amount - c.options.items;
      maximum_pixels = sub_ℕ (c.options.items * c.item_width) (c.items_amount * c.item_width);
    })
fits-IsLaidOut c p h = record {
  position = p.position;
  last_stop = refl;
  last_position =
      p.position (c.items_amount - c.options.items) (omega arith)
      ∙ ap some (pixels-eq c.options.items c.items_amount c.item_width h);
}

full-IsLaidOut :
    (c : Carousel)
    → HasPositions c
    → c.items_amount < c.options.items
    → IsLaidOut (record c { maximum_item = 0; maximum_pixels = pos 0 })
full-IsLaidOut c p h = record {
  position = p.position;
  last_stop = omega arith;
  last_position = p.position 0 (omega arith) ∙ ap (λ n. some (neg n)) zero-mul;
}
  where
    zero-mul : 0 * c.item_width ≡ 0
    zero-mul = omega arith

max-IsLaidOut : (c : Carousel) → HasPositions c → IsLaidOut (max c)
unfolding max
max-IsLaidOut c p =
    if_cases IsLaidOut (ltb c.items_amount c.options.items) (λ e. full-IsLaidOut c p (ground arith))
      (λ e. fits-IsLaidOut c p (ground arith))

-- After `calculateAll`, at any width of the element: item `i` and the end of the last item begin at
-- -i * itemWidth; `maximumItem` is the number of items that do not fit, or 0 if all do;
-- and `maximumPixels` is the position of `maximumItem`.
pub calculate_all-IsLaidOut :
    (elem_width : ℕ) (c : Carousel)
    → length c.owl_items ≡ c.items_amount
    → IsLaidOut (calculate_all elem_width c)
unfolding calculate_all
calculate_all-IsLaidOut elem_width c e =
    let sized = append_wrapper_sizes (calculate_width elem_width c) in
    max-IsLaidOut (loops sized)
      (loops-HasPositions sized (length-append_rounds _ _ _ _ c.owl_items ∙ e))
