-- ===== src/Carousel/Lazy/Visible.antt =====
-- Which images `lazyLoad` of owl.carousel.js asks for.
use gitb.Base.{
  ℕ, zero, suc, ◌+◌, Bool, true, false, not, ◌&&◌, ◌||◌, Option, none, some, List, [], ◌∷◌, ltb,
  leb_ℤ, ltb_ℤ, if_cases, ℤ, pos, ◌≤ℤ◌, ◌<ℤ◌, ◌+ℤ◌, get_elem?, ◌≡◌, refl, ap, ◌∙◌, arith,
}
use gitb.Carousel.State.{Options, Loaded, loaded, Item, Carousel}
use gitb.Carousel.Lazy.{poll, check_lazy_image, lazy_preload, lazy_item, lazy_from, lazy_load}

abbrev is_loaded : Loaded → Bool
is_loaded loaded = true
is_loaded _ = false

-- The image of the item is shown, or a loop waits for it.
abbrev pub is_requested : Item → Bool
is_requested x = is_loaded x.load_state || ltb 0 x.polls

-- The items that the carousel shows, and without `lazyFollow` those before them.
abbrev pub shown_from : Options → ℤ → ℕ → Bool
shown_from o current i =
    (leb_ℤ current (pos i) || not o.lazy_follow) && ltb_ℤ (pos i) (current +ℤ pos o.items)

map_option : (Item → Item) → Option Item → Option Item
map_option f none = none
map_option f (some x) = some (f x)

get_elem-lazy_from :
    (o : Options) (current : ℤ) (j i : ℕ) (xs : List Item)
    → get_elem? (lazy_from o current j xs) i
      ≡ map_option (lazy_item o current (j + i)) (get_elem? xs i)
unfolding lazy_from map_option
get_elem-lazy_from o current j i [] = refl
get_elem-lazy_from o current j zero (y ∷ ys) =
    ap (λ n. some (lazy_item o current n y)) {x = j} {y = j + 0} (omega arith)
get_elem-lazy_from o current j (suc i) (y ∷ ys) =
    get_elem-lazy_from o current (suc j) i ys
    ∙ ap (λ n. map_option (lazy_item o current n) (get_elem? ys i)) {x = suc j + i} {y = j + suc i}
        (omega arith)

-- What `lazyLoad` makes of item `i`.
item_after :
    (c : Carousel) (i : ℕ) (x : Item)
    → c.options.lazy_load ≡ true
    → get_elem? c.owl_items i ≡ some x
    → get_elem? (lazy_load c).owl_items i ≡ some (lazy_item c.options c.current_item i x)
unfolding lazy_load map_option
item_after c i x on e =
    if_cases
      (λ (d : Carousel). get_elem? d.owl_items i ≡ some (lazy_item c.options c.current_item i x))
      (not c.options.lazy_load) (λ e. absurd (ground arith))
      (λ _.
        get_elem-lazy_from c.options c.current_item 0 i c.owl_items
        ∙ ap (map_option (lazy_item c.options c.current_item (0 + i))) e
        ∙ ap (λ n. some (lazy_item c.options c.current_item n x)) {x = 0 + i} {y = i} (omega arith))

lazy_item-requested :
    (o : Options) (current : ℤ) (i : ℕ) (x : Item)
    → current ≤ℤ pos i
    → pos i <ℤ current +ℤ pos o.items
    → is_requested (lazy_item o current i x) ≡ true
unfolding lazy_item lazy_preload check_lazy_image poll
lazy_item-requested o current i x lo hi = ground arith

abbrev pub requested_at : Option Item → Bool
requested_at none = false
requested_at (some x) = is_requested x

-- With lazy loading, every image among the items that the carousel shows has been asked for after
-- `lazyLoad`: it is shown, or a loop waits for it.
pub lazy_load-requested :
    (c : Carousel) (i : ℕ) (x : Item)
    → c.options.lazy_load ≡ true
    → get_elem? c.owl_items i ≡ some x
    → c.current_item ≤ℤ pos i
    → pos i <ℤ c.current_item +ℤ pos c.options.items
    → requested_at (get_elem? (lazy_load c).owl_items i) ≡ true
lazy_load-requested c i x on e lo hi =
    ap requested_at (item_after c i x on e) ∙ lazy_item-requested c.options c.current_item i x lo hi
