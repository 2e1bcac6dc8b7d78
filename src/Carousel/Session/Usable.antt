-- ===== src/Carousel/Session/Usable.antt =====
-- Whatever happens to a carousel of owl.carousel.js, in any order, it stays in order.
use gitb.Base.{
  ℕ, zero, suc, ◌+◌, ◌<◌, true, not, ◌||◌, Option, none, some, List, [], ◌∷◌, length, length-append,
  ℤ, pos, negsuc, eq_ℤ, leb_ℤ, ◌==◌, if_cases, arith,
}
use gitb.Carousel.State.{Item, usual, Carousel}
use gitb.Carousel.Breakpoints.Positive.{AllOffer, Offering}
use gitb.Carousel.Moves.{has_auto_play, update_vars}
use gitb.Carousel.Moves.Fixed.{go_to-Keeps}
use gitb.Carousel.Moves.Settled.{IsAimed}
use gitb.Carousel.Moves.Refresh.{update_vars-IsSettled}
use gitb.Carousel.Events.{Event, handle}
use gitb.Carousel.Events.Settled.{handle-IsOnTrack}
use gitb.Carousel.Startup.{
  Widths, set_vars, position_of, insert_before, erase_idx, eq_index, before_index, without_index,
  placed, removed, add_to, add_item, remove_from, remove_item,
}
use gitb.Carousel.Startup.Settled.{set_vars-IsSettled}
use gitb.Carousel.Drag.{Gesture, Point, refuses, drag_start, drag_move, drag_end, get_new_position}
use gitb.Carousel.Drag.End.{drag_end-IsAimed}
use gitb.Carousel.Session.{
  Session, resizer, delay_passes, old_delay_passes, Step, happens, window_resizes, delay_ends,
  old_delay_ends, drag_begins, drag_moves, drag_ends, item_added, item_removed,
}
use gitb.Carousel.Session.Offers.{
  handle-Offering, kept-Offering, update_vars-Offering, set_vars-Offering,
}

-- The last move of the carousel has led to its current item, and whatever the width of the window,
-- it will show an item.
pub record Usable (c : Carousel) : Type 0 where
  pub aimed : IsAimed c
  pub offering : Offering c

handle-Usable : (e : Event) (c : Carousel) → Usable c → Usable (handle e c)
handle-Usable e c u = record {
  aimed =
      (handle-IsOnTrack e c (record { shows = u.offering.offers.items; aimed = u.aimed })).aimed;
  offering = handle-Offering c u.offering e;
}

-- Without its timer.
untimed-Usable : (c : Carousel) → Usable c → Usable (record c { auto_play_interval = none })
untimed-Usable c u = record {
  aimed = record {
    from_start = u.aimed.from_start;
    to_end = u.aimed.to_end;
    remembered = u.aimed.remembered;
    in_place = u.aimed.in_place;
    buttons_agree = u.aimed.buttons_agree;
    visible_agree = u.aimed.visible_agree;
  };
  offering = record {
    offers = u.offering.offers;
    orignal = u.offering.orignal;
    amount = u.offering.amount;
  };
}

update_vars-Usable :
    (w : Widths) (c : Carousel) → Usable c → Usable (update_vars w.window w.element c)
update_vars-Usable w c u = record {
  aimed = (update_vars-IsSettled w.window w.element c.current_item c u.aimed.remembered).aimed;
  offering = update_vars-Offering w.window w.element c u.offering;
}

pub set_vars-Usable :
    (w : Widths) (x : Item) (xs : List Item) (c : Carousel)
    → AllOffer c.options
    → 0 < c.orignal_items
    → Usable (set_vars w (x ∷ xs) c)
set_vars-Usable w x xs c offers orignal = record {
  aimed = (set_vars-IsSettled w x xs c).aimed;
  offering = set_vars-Offering w x xs c offers orignal;
}

some_items-Usable :
    (w : Widths) (xs : List Item) (c : Carousel)
    → 0 < length xs
    → Offering c
    → Usable (set_vars w xs c)
some_items-Usable w [] c h f = absurd (omega arith)
some_items-Usable w (x ∷ xs) c h f = set_vars-Usable w x xs c f.offers f.orignal

length-insert_before :
    (n : ℕ) (x : Item) (xs : List Item) → 0 < length xs → 0 < length (insert_before n x xs)
length-insert_before n x [] h = h
length-insert_before zero x (y ∷ ys) h = omega arith
length-insert_before (suc n) x (y ∷ ys) h = omega arith

length-erase_idx : (n : ℕ) (xs : List Item) → length xs < 2 + length (erase_idx n xs)
length-erase_idx n [] = omega arith
length-erase_idx zero (y ∷ ys) = omega arith
length-erase_idx (suc n) (y ∷ ys) = omega (arith, length-erase_idx n ys)

length-before_index :
    (i : Option ℕ) (x : Item) (xs : List Item) → 0 < length xs → 0 < length (before_index i x xs)
length-before_index none x xs h = h
length-before_index (some n) x xs h = length-insert_before n x xs h

pub length-without_index :
    (i : Option ℕ) (xs : List Item) → length xs < 2 + length (without_index i xs)
length-without_index none xs = omega arith
length-without_index (some n) xs = length-erase_idx n xs

pub length-placed :
    (x : Item) (position : ℤ) (xs : List Item) → 0 < length xs → 0 < length (placed x position xs)
unfolding placed
length-placed x position xs h =
    if_cases (λ (r : List Item). 0 < length r)
      (leb_ℤ (pos (length xs)) position || eq_ℤ position (negsuc 0))
      (λ _. omega (arith, length-append xs (x ∷ [])))
      (λ _. length-before_index (eq_index xs position) x xs h)

add_to-Usable :
    (w : Widths) (x : Item) (target : Option ℤ) (c : Carousel) (ys : List Item)
    → Offering c
    → Usable (add_to w x target c ys)
add_to-Usable w x target c [] f = set_vars-Usable w x [] c f.offers f.orignal
add_to-Usable w x target c (y ∷ ys) f =
    some_items-Usable w _ c (length-placed x (position_of target) (y ∷ ys) (omega arith)) f

remove_from-Usable :
    (w : Widths) (target : Option ℤ) (c : Carousel) (ys : List Item)
    → 1 < length ys
    → Offering c
    → Usable (remove_from w target c ys)
unfolding removed
remove_from-Usable w target c [] h f = absurd (omega arith)
remove_from-Usable w target c (y ∷ ys) h f =
    some_items-Usable w _ _
      (omega (arith, length-without_index (eq_index (y ∷ ys) (position_of target)) (y ∷ ys)))
      (record { offers = f.offers; orignal = f.orignal; amount = f.amount })

drag_start-Usable :
    (p : Point) (left top : ℤ) (g : Gesture) (c : Carousel)
    → Usable c
    → Usable (drag_start p left top (g, c)).1
unfolding drag_start
drag_start-Usable p left top g c u =
    if_cases (λ (r : Gesture × Carousel). Usable r.1) (refuses p c) (λ _. u)
      (λ _. if_cases Usable (has_auto_play c.options) (λ _. untimed-Usable c u) (λ _. u))

drag_move-Usable :
    (p : Point) (g : Gesture) (c : Carousel) → Usable c → Usable (drag_move p (g, c)).1
unfolding drag_move
drag_move-Usable p g c u = record {
  aimed = record {
    from_start = u.aimed.from_start;
    to_end = u.aimed.to_end;
    remembered = u.aimed.remembered;
    in_place = u.aimed.in_place;
    buttons_agree = u.aimed.buttons_agree;
    visible_agree = u.aimed.visible_agree;
  };
  offering = record {
    offers = u.offering.offers;
    orignal = u.offering.orignal;
    amount = u.offering.amount;
  };
}

drag_end-Offering : (g : Gesture) (c : Carousel) → Offering c → Offering (drag_end (g, c)).1
unfolding drag_end
drag_end-Offering g c f =
    let d = record c { current_item = get_new_position g c } in
    if_cases (λ (r : Gesture × Carousel). Offering r.1) (eq_ℤ g.new_relative_x (pos 0)) (λ _. f)
      (λ _.
        kept-Offering d (record { offers = f.offers; orignal = f.orignal; amount = f.amount }) _
          (go_to-Keeps (get_new_position g c) usual true d))

resizer-Usable : (width : ℕ) (s : Session) → Usable s.carousel → Usable (resizer width s).carousel
unfolding resizer
resizer-Usable width s u =
    let c = s.carousel in
    if_cases (λ (r : Session). Usable r.carousel) (not c.options.responsive) (λ _. u)
      (λ _.
        if_cases (λ (r : Session). Usable r.carousel) (width == s.last_window_width) (λ _. u)
          (λ _. if_cases Usable (has_auto_play c.options) (λ _. untimed-Usable c u) (λ _. u)))

delay_passes-Usable :
    (w : Widths) (s : Session) → Usable s.carousel → Usable (delay_passes w s).carousel
unfolding delay_passes
delay_passes-Usable w s u =
    if_cases (λ (r : Session). Usable r.carousel) (not s.small_delay) (λ _. u)
      (λ _. update_vars-Usable w s.carousel u)

old_delay_passes-Usable :
    (w : Widths) (s : Session) → Usable s.carousel → Usable (old_delay_passes w s).carousel
unfolding old_delay_passes
old_delay_passes-Usable w s u =
    if_cases (λ (r : Session). Usable r.carousel) (s.old_delays == 0) (λ _. u)
      (λ _. update_vars-Usable w s.carousel u)

pub Step-Usable : (s t : Session) → Step s t → Usable s.carousel → Usable t.carousel
unfolding add_item remove_item
Step-Usable s t (happens e _) u = handle-Usable e s.carousel u
Step-Usable s t (window_resizes width _) u = resizer-Usable width s u
Step-Usable s t (delay_ends w _) u = delay_passes-Usable w s u
Step-Usable s t (old_delay_ends w _) u = old_delay_passes-Usable w s u
Step-Usable s t (drag_begins p left top _) u = drag_start-Usable p left top s.gesture s.carousel u
Step-Usable s t (drag_moves p _ _) u = drag_move-Usable p s.gesture s.carousel u
Step-Usable s t (drag_ends _ _ idle) u = record {
  aimed = drag_end-IsAimed s.gesture s.carousel u.aimed idle;
  offering = drag_end-Offering s.gesture s.carousel u.offering;
}
Step-Usable s t (item_added w x target _) u =
    add_to-Usable w x target s.carousel s.carousel.owl_items u.offering
Step-Usable s t (item_removed w target _ h) u =
    remove_from-Usable w target s.carousel s.carousel.owl_items h u.offering
