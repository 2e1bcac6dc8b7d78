-- ===== src/Carousel/Moves/Frame.antt =====
-- What the follow-up work of a move (afterGo of owl.carousel.js) leaves alone: the item shown, the
-- history, the display and the sizes.
use gitb.Base.{ℕ, Bool, Option, List, ℤ, ◌≡◌, ◌∙◌, inl, inr, arith, Bool-cases}
use gitb.Carousel.State.{Options, Carousel}
use gitb.Carousel.Controls.{check_pagination, check_navigation}
use gitb.Carousel.AutoPlay.{check_ap}
use gitb.Carousel.Lazy.{lazy_load, on_visible_items, count_up}
use gitb.Carousel.Moves.{each_move_update, after_change, after_go, remember, differs, keep_playing}

-- The fields that only a move or a new layout changes.
pub record Core : Type 0 where
  pub options : Options
  pub orignal_items : ℕ
  pub support3d : Bool
  pub items_amount : ℕ
  pub item_width : ℕ
  pub maximum_item : ℕ
  pub maximum_pixels : ℤ
  pub positions_in_array : List ℤ
  pub pages_in_array : List (Option ℤ)
  pub current_item : ℤ
  pub prev_item : Option ℤ
  pub prev_arr : List ℤ
  pub css_left : Option ℤ
  pub css_transform : Option ℤ
  pub dragged : Option ℤ
  pub css_slides : Bool
  pub is_transition : Bool

abbrev pub core : Carousel → Core
core c = record {
  options = c.options;
  orignal_items = c.orignal_items;
  support3d = c.support3d;
  items_amount = c.items_amount;
  item_width = c.item_width;
  maximum_item = c.maximum_item;
  maximum_pixels = c.maximum_pixels;
  positions_in_array = c.positions_in_array;
  pages_in_array = c.pages_in_array;
  current_item = c.current_item;
  prev_item = c.prev_item;
  prev_arr = c.prev_arr;
  css_left = c.css_left;
  css_transform = c.css_transform;
  dragged = c.dragged;
  css_slides = c.css_slides;
  is_transition = c.is_transition;
}

-- The two navigation buttons and the items reported as visible.
abbrev pub panel : Carousel → Bool × Bool × List ℤ
panel c = (c.prev_disabled, c.next_disabled, c.visible_items)

pub core-check_pagination : (c : Carousel) → core (check_pagination c) ≡ core c
unfolding check_pagination
core-check_pagination c = ground arith

pub panel-check_pagination : (c : Carousel) → panel (check_pagination c) ≡ panel c
unfolding check_pagination
panel-check_pagination c = ground arith

pub core-check_navigation : (c : Carousel) → core (check_navigation c) ≡ core c
unfolding check_navigation
core-check_navigation c = ground arith

pub visible-check_navigation : (c : Carousel) → (check_navigation c).visible_items ≡ c.visible_items
unfolding check_navigation
visible-check_navigation c = ground arith

core-lazy_load : (c : Carousel) → core (lazy_load c) ≡ core c
unfolding lazy_load
core-lazy_load c = ground arith

panel-lazy_load : (c : Carousel) → panel (lazy_load c) ≡ panel c
unfolding lazy_load
panel-lazy_load c = ground arith

core-on_visible_items : (c : Carousel) → core (on_visible_items c) ≡ core c
unfolding on_visible_items
core-on_visible_items c = ground arith

panel-on_visible_items :
    (c : Carousel)
    → panel (on_visible_items c)
      ≡ (c.prev_disabled, c.next_disabled, count_up c.current_item c.options.items)
unfolding on_visible_items
panel-on_visible_items c = ground arith

pub core-check_ap : (c : Carousel) → core (check_ap c) ≡ core c
unfolding check_ap
core-check_ap c = ground arith

pub panel-check_ap : (c : Carousel) → panel (check_ap c) ≡ panel c
unfolding check_ap
panel-check_ap c = ground arith

pub core-each_move_update : (c : Carousel) → core (each_move_update c) ≡ core c
unfolding each_move_update
core-each_move_update c = core-on_visible_items _ ∙ ground (arith, core-lazy_load c)

pub panel-each_move_update :
    (c : Carousel)
    → panel (each_move_update c)
      ≡ (c.prev_disabled, c.next_disabled, count_up c.current_item c.options.items)
unfolding each_move_update
panel-each_move_update c =
    panel-on_visible_items _ ∙ ground (arith, core-lazy_load c, panel-lazy_load c)

pub core-keep_playing : (c : Carousel) → core (keep_playing c) ≡ core c
unfolding keep_playing
core-keep_playing c = ground (arith, core-check_ap c)

pub panel-keep_playing : (c : Carousel) → panel (keep_playing c) ≡ panel c
unfolding keep_playing
panel-keep_playing c = ground (arith, panel-check_ap c)

pub core-after_change : (c : Carousel) → core (after_change c) ≡ core c
unfolding after_change
core-after_change c =
    core-keep_playing _
    ∙ core-each_move_update _
    ∙ core-check_navigation _
    ∙ core-check_pagination c

panel-check_navigation_pagination :
    (c : Carousel) → panel (check_navigation (check_pagination c)) ≡ panel (check_navigation c)
unfolding check_navigation check_pagination
panel-check_navigation_pagination c = ground arith

pub panel-after_change :
    (c : Carousel)
    → panel (after_change c) ≡ (
      (check_navigation c).prev_disabled,
      (check_navigation c).next_disabled,
      count_up c.current_item c.options.items,
    )
unfolding after_change
panel-after_change c =
    panel-keep_playing _
    ∙ panel-each_move_update _
    ∙ ground (
      arith,
      core-check_navigation (check_pagination c),
      core-check_pagination c,
      panel-check_navigation_pagination c,
    )

pub core-after_go : (c : Carousel) → core (after_go c) ≡ core (remember c)
unfolding after_go
core-after_go c = elim (Bool-cases (differs (remember c).prev_item c.current_item)) [
  | inl p ↦ rw p (core-after_change (remember c))
  | inr p ↦ rw p
]
