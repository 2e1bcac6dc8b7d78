-- ===== src/Carousel/Controls.antt =====
-- The controls of owl.carousel.js: buildControls, updatePagination, checkPagination,
-- checkNavigation, updateControls and destroyControls.
pub mod Marks
use gitb.Base.{
  ℕ, zero, suc, ◌-◌, ◌%◌, Bool, true, false, not, ◌&&◌, ◌||◌, Option, none, some, List, [], ◌∷◌, ℤ,
  pos, sub_ℕ, eq_ℤ, leb, ◌==◌, if◌then◌else◌,
}
use gitb.Carousel.State.{Options, Item, PageButton, Carousel, get_at, divides}

-- `buildControls`: the element `owlControls` is there if either kind of control is.
unfoldable pub build_controls : Carousel → Carousel
build_controls c = record c {
  has_controls = c.has_controls || c.options.navigation || c.options.pagination;
}

abbrev pub page_button : Options → ℕ → ℕ → ℕ → PageButton
page_button o amount i counter = record {
  label = if o.pagination_numbers then some counter else none;
  target = if (amount - amount % o.items) == i then sub_ℕ amount o.items else pos i;
  round_page = counter;
  active = false;
}

-- The loop of `updatePagination`: `n` rounds are left, and the next has index `i`.
unfoldable pub page_buttons_from : Options → ℕ → ℕ → ℕ → ℕ → List PageButton
page_buttons_from o amount zero i counter = []
page_buttons_from o amount (suc n) i counter =
    let counter' = if divides o.items i then suc counter else counter in
    let rest = page_buttons_from o amount n (suc i) counter' in
    if divides o.items i then page_button o amount i counter' ∷ rest else rest

abbrev pub deactivate : List PageButton → List PageButton
deactivate [] = []
deactivate (b ∷ bs) = record b { active = false } ∷ deactivate bs

-- The class `active` for the button at an index, and for no other.
abbrev pub activate : ℕ → List PageButton → List PageButton
activate i [] = []
activate zero (b ∷ bs) = record b { active = true } ∷ deactivate bs
activate (suc i) (b ∷ bs) = record b { active = false } ∷ activate i bs

-- `data("owl-roundPages")` of the current item.
abbrev pub current_round : List Item → ℤ → Option ℕ
current_round items i = elim (get_at items i) [ none ↦ none | some x ↦ some x.round_pages ]

abbrev pub equals : Option ℕ → ℕ → Bool
equals none n = false
equals (some m) n = n == m

-- The loop of `checkPagination` over the buttons, of which the next has index `i`.
abbrev pub mark_from : Option ℕ → ℕ → List PageButton → List PageButton → List PageButton
mark_from round i [] all = all
mark_from round i (b ∷ bs) all =
    mark_from round (suc i) bs (if equals round b.round_page then activate i all else all)

unfoldable pub check_pagination : Carousel → Carousel
check_pagination c = if not c.options.pagination then c else record c {
  page_buttons =
      mark_from (current_round c.owl_items c.current_item) 0 c.page_buttons c.page_buttons;
}

unfoldable pub update_pagination : Carousel → Carousel
unfolding page_buttons_from check_pagination
update_pagination c =
    if not c.options.pagination
    then c
    else check_pagination
        (record c { page_buttons = page_buttons_from c.options c.items_amount c.items_amount 0 0 })

unfoldable pub check_navigation : Carousel → Carousel
check_navigation c =
    if not c.options.navigation || c.options.rewind_nav
    then c
    else if at_start && c.maximum_item == 0
    then record c { prev_disabled = true; next_disabled = true }
    else if at_start && not (c.maximum_item == 0)
    then record c { prev_disabled = true; next_disabled = false }
    else if at_end
    then record c { prev_disabled = false; next_disabled = true }
    else record c { prev_disabled = false; next_disabled = false }
  where
    at_start : Bool
    at_start = eq_ℤ c.current_item (pos 0)

    at_end : Bool
    at_end = eq_ℤ c.current_item (pos c.maximum_item)

unfoldable pub update_controls : Carousel → Carousel
unfolding update_pagination check_navigation
update_controls c =
    let c' = check_navigation (update_pagination c) in
    if c'.has_controls
    then record c' { controls_shown = not (leb c'.items_amount c'.options.items) }
    else c'
