-- ===== src/Carousel/Lazy.antt =====
-- Loading of images on demand in owl.carousel.js: lazyLoad, lazyPreload with its polling loop, the
-- polling loop of autoHeight, and onVisibleItems.
pub mod Polls
pub mod Visible
use gitb.Base.{
  ℕ, zero, suc, Bool, true, false, not, ◌&&◌, List, [], ◌∷◌, ℤ, pos, negsuc, ltb_ℤ, leb_ℤ, leb,
  if◌then◌else◌, ◌+ℤ◌,
}
use gitb.Carousel.State.{Options, checked, loaded, Item, Carousel}

-- What one call of `checkLazyImage` or `checkImage` comes to.
pub data Poll : Type 0 where
  again : ℕ → Poll  -- a new call after 100 ms, with the iterations so far
  ready : Poll  -- the image is complete
  given_up : Poll

unfoldable pub poll : Bool → ℕ → Poll
poll complete iterations =
    if complete
    then ready
    else if leb (suc iterations) 100
    then again (suc iterations)
    else given_up

-- `showImage`
abbrev pub show_image : Item → Item
show_image x = record x { load_state = loaded }

-- `checkLazyImage` as a timer that fires for an item that waits: both ends show the image.
unfoldable pub check_lazy_image : ℕ → Item → Item
unfolding poll
check_lazy_image iterations x = elim (poll x.complete iterations) [
  | again _ ↦ record x { polls = suc x.polls }
  | ready ↦ show_image x
  | given_up ↦ show_image x
]

unfoldable pub lazy_preload : Item → Item
unfolding check_lazy_image
lazy_preload x = check_lazy_image 0 x

-- One round of the loop of `lazyLoad`, for the item with number `i`.
unfoldable pub lazy_item : Options → ℤ → ℕ → Item → Item
unfolding lazy_preload
lazy_item o current i x = elim x.load_state [
  | loaded ↦ x
  | _ ↦
      if not x.has_src
      then record x { load_state = loaded }
      else if follow && ltb_ℤ (pos i) (current +ℤ pos o.items)
      then lazy_preload (record x { load_state = checked })
      else record x { load_state = checked }
]
  where
    follow : Bool
    follow = if o.lazy_follow then leb_ℤ current (pos i) else true

unfoldable pub lazy_from : Options → ℤ → ℕ → List Item → List Item
lazy_from o current i [] = []
lazy_from o current i (x ∷ xs) = lazy_item o current i x ∷ lazy_from o current (suc i) xs

unfoldable pub lazy_load : Carousel → Carousel
unfolding lazy_from lazy_item
lazy_load c =
    if not c.options.lazy_load
    then c
    else record c { owl_items = lazy_from c.options c.current_item 0 c.owl_items }

-- `i, i + 1, …`, with `n` numbers.
abbrev pub count_up : ℤ → ℕ → List ℤ
count_up i zero = []
count_up i (suc n) = i ∷ count_up (i +ℤ pos 1) n

abbrev pub hide_all : List Item → List Item
hide_all [] = []
hide_all (x ∷ xs) = record x { visible = false } ∷ hide_all xs

-- `$(owlItems[i]).addClass("active")`, nothing at an index that is out of range.
abbrev pub show_nth : ℕ → List Item → List Item
show_nth n [] = []
show_nth zero (x ∷ xs) = record x { visible = true } ∷ xs
show_nth (suc n) (x ∷ xs) = x ∷ show_nth n xs

abbrev pub show_at : ℤ → List Item → List Item
show_at (pos n) xs = show_nth n xs
show_at (negsuc n) xs = xs

abbrev pub show_each : List ℤ → List Item → List Item
show_each [] xs = xs
show_each (i ∷ is) xs = show_each is (show_at i xs)

unfoldable pub on_visible_items : Carousel → Carousel
on_visible_items c =
    let shown = count_up c.current_item c.options.items in
    if c.options.add_class_active
    then record c { visible_items = shown; owl_items = show_each shown (hide_all c.owl_items) }
    else record c { visible_items = shown }
