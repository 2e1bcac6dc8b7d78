-- ===== src/Carousel/Session/Rests.antt =====
-- Between drags the wrapper of a carousel of owl.carousel.js is where the last move has led.
use gitb.Base.{
  ℕ, ◌<◌, true, false, not, none, Option, List, [], ◌∷◌, length, ℤ, pos, eq_ℤ, ◌==◌, if_cases,
  Bool-cases, ◌⊎◌, inl, inr, ◌≡◌, refl, sym, ap, ◌∙◌, subst, arith,
}
use gitb.Carousel.State.{Item, Carousel}
use gitb.Carousel.Breakpoints.Positive.{AllOffer}
use gitb.Carousel.Moves.{has_auto_play, update_vars}
use gitb.Carousel.Moves.Settled.{IsAimed}
use gitb.Carousel.Moves.Refresh.{update_vars-IsSettled}
use gitb.Carousel.Events.{handle}
use gitb.Carousel.Events.Settled.{handle-KeepsDrag}
use gitb.Carousel.Startup.{
  Widths, set_vars, add_to, add_item, remove_from, remove_item, removed, position_of, eq_index,
}
use gitb.Carousel.Startup.Settled.{set_vars-IsSettled}
use gitb.Carousel.Drag.{Gesture, Point, refuses, drag_start, drag_move, drag_end}
use gitb.Carousel.Drag.End.{drag_end_undrags}
use gitb.Carousel.Session.{
  Session, resizer, delay_passes, old_delay_passes, Step, happens, window_resizes, delay_ends,
  old_delay_ends, drag_begins, drag_moves, drag_ends, item_added, item_removed, Steps, done,
  and_then,
}
use gitb.Carousel.Session.Usable.{
  Usable, set_vars-Usable, Step-Usable, length-placed, length-without_index,
}

-- No drag has pulled the wrapper away since the last move, or a drag goes on, or the last drag has
-- ended where it began.
abbrev pub Rests : Gesture → Carousel → Type 0
Rests g c = (c.dragged ≡ none) ⊎ ((g.listening ≡ true) ⊎ (eq_ℤ g.new_relative_x (pos 0) ≡ true))

kept-Rests :
    (g : Gesture) (c d : Carousel)
    → (d.dragged ≡ none) ⊎ (d.dragged ≡ c.dragged)
    → Rests g c
    → Rests g d
kept-Rests g c d (inl n) r = inl n
kept-Rests g c d (inr k) (inl n) = inl (k ∙ n)
kept-Rests g c d (inr k) (inr r) = inr r

drag_start-Rests :
    (p : Point) (left top : ℤ) (g : Gesture) (c : Carousel)
    → Rests g c
    → let (g', c') = drag_start p left top (g, c) in Rests g' c'
unfolding drag_start
drag_start-Rests p left top g c r =
    if_cases (λ (x : Gesture × Carousel). Rests x.0 x.1) (refuses p c) (λ _. r)
      (λ _. inr (inl refl))

drag_end_distance :
    (g : Gesture) (c : Carousel)
    → eq_ℤ (drag_end (g, c)).0.new_relative_x (pos 0) ≡ eq_ℤ g.new_relative_x (pos 0)
unfolding drag_end
drag_end_distance g c =
    if_cases
      (λ (x : Gesture × Carousel). eq_ℤ x.0.new_relative_x (pos 0) ≡ eq_ℤ g.new_relative_x (pos 0))
      (eq_ℤ g.new_relative_x (pos 0)) (λ _. refl) (λ _. refl)

drag_end-Rests :
    (g : Gesture) (c : Carousel)
    → c.is_transition ≡ false
    → let (g', c') = drag_end (g, c) in Rests g' c'
drag_end-Rests g c idle = elim (Bool-cases (eq_ℤ g.new_relative_x (pos 0))) [
  | inl e ↦ inr (inr (drag_end_distance g c ∙ e))
  | inr e ↦ inl (drag_end_undrags g c idle e)
]

resizer-Rests :
    (width : ℕ) (s : Session)
    → Rests s.gesture s.carousel
    → Rests (resizer width s).gesture (resizer width s).carousel
unfolding resizer
resizer-Rests width s r =
    let c = s.carousel in
    if_cases (λ (x : Session). Rests x.gesture x.carousel) (not c.options.responsive) (λ _. r)
      (λ _.
        if_cases (λ (x : Session). Rests x.gesture x.carousel) (width == s.last_window_width)
          (λ _. r) (λ _. if_cases (Rests s.gesture) (has_auto_play c.options) (λ _. r) (λ _. r)))

module _ (w : Widths) (s : Session) (u : Usable s.carousel) where
  update_vars-Rests : Rests s.gesture (update_vars w.window w.element s.carousel)
  update_vars-Rests =
      inl
        (update_vars-IsSettled w.window w.element s.carousel.current_item s.carousel
          u.aimed.remembered).undragged

  delay_passes-Rests :
      Rests s.gesture s.carousel → Rests (delay_passes w s).gesture (delay_passes w s).carousel
  unfolding delay_passes
  delay_passes-Rests r =
      if_cases (λ (x : Session). Rests x.gesture x.carousel) (not s.small_delay) (λ _. r)
        (λ _. update_vars-Rests)

  old_delay_passes-Rests :
      Rests s.gesture s.carousel
      → Rests (old_delay_passes w s).gesture (old_delay_passes w s).carousel
  unfolding old_delay_passes
  old_delay_passes-Rests r =
      if_cases (λ (x : Session). Rests x.gesture x.carousel) (s.old_delays == 0) (λ _. r)
        (λ _. update_vars-Rests)

set_vars_undrags :
    (w : Widths) (xs : List Item) (c : Carousel) → 0 < length xs → (set_vars w xs c).dragged ≡ none
set_vars_undrags w [] c h = absurd (omega arith)
set_vars_undrags w (x ∷ xs) c h = (set_vars-IsSettled w x xs c).undragged

add_to_undrags :
    (w : Widths) (x : Item) (target : Option ℤ) (c : Carousel) (ys : List Item)
    → (add_to w x target c ys).dragged ≡ none
add_to_undrags w x target c [] = set_vars_undrags w (x ∷ []) c (omega arith)
add_to_undrags w x target c (y ∷ ys) =
    set_vars_undrags w _ c (length-placed x (position_of target) (y ∷ ys) (omega arith))

remove_from_undrags :
    (w : Widths) (target : Option ℤ) (c : Carousel) (ys : List Item)
    → 1 < length ys
    → (remove_from w target c ys).dragged ≡ none
unfolding removed
remove_from_undrags w target c [] h = absurd (omega arith)
remove_from_undrags w target c (y ∷ ys) h =
    set_vars_undrags w _ _
      (omega (arith, length-without_index (eq_index (y ∷ ys) (position_of target)) (y ∷ ys)))

drag_move-Rests :
    (p : Point) (g : Gesture) (c : Carousel)
    → g.listening ≡ true
    → let (g', c') = drag_move p (g, c) in Rests g' c'
unfolding drag_move
drag_move-Rests p g c on = inr (inl on)

Step-Rests :
    (s t : Session)
    → Step s t
    → Usable s.carousel
    → Rests s.gesture s.carousel
    → Rests t.gesture t.carousel
unfolding add_item remove_item
Step-Rests s t (happens e _) u r =
    kept-Rests s.gesture s.carousel (handle e s.carousel) (handle-KeepsDrag e s.carousel) r
Step-Rests s t (window_resizes width _) u r = resizer-Rests width s r
Step-Rests s t (delay_ends w _) u r = delay_passes-Rests w s u r
Step-Rests s t (old_delay_ends w _) u r = old_delay_passes-Rests w s u r
Step-Rests s t (drag_begins p left top _) u r = drag_start-Rests p left top s.gesture s.carousel r
Step-Rests s t (drag_moves p _ on) u r = drag_move-Rests p s.gesture s.carousel on
Step-Rests s t (drag_ends _ _ idle) u r = drag_end-Rests s.gesture s.carousel idle
Step-Rests s t (item_added w x target _) u r =
    inl (add_to_undrags w x target s.carousel s.carousel.owl_items)
Step-Rests s t (item_removed w target _ h) u r =
    inl (remove_from_undrags w target s.carousel s.carousel.owl_items h)

-- What holds of a session at any time.
pub record IsRunning (s : Session) : Type 0 where
  pub aimed : IsAimed s.carousel
  pub shows : 0 < s.carousel.options.items
  pub rests : Rests s.gesture s.carousel

Steps_keep :
    (s t : Session)
    → Steps s t
    → Usable s.carousel
    → Rests s.gesture s.carousel
    → Usable t.carousel × Rests t.gesture t.carousel
Steps_keep s t (done _) u r = (u, r)
Steps_keep s t (and_then _ m _ before step) u r =
    let (v, q) = Steps_keep s m before u r in (Step-Usable m t step v, Step-Rests m t step v q)

-- If a carousel has been started on at least one item, with options that offer only positive
-- numbers of items, then after any number of steps (events, resizes and their delays, drags, and
-- changes of the items, in any order, where no drag ends during the animation of a single item,
-- and the last item is not removed) it shows at least one item, its current item is in range, the
-- last move has led to that item's position, and the history, the navigation buttons and the
-- visible items agree with it. The wrapper stands there, unless a drag goes on, which pulls it
-- away, or the last drag has ended without distance, which leaves it where the drag has put it.
pub Steps-IsRunning :
    (w : Widths) (x : Item) (xs : List Item) (c : Carousel) (s t : Session)
    → AllOffer c.options
    → 0 < c.orignal_items
    → s.carousel ≡ set_vars w (x ∷ xs) c
    → Steps s t
    → IsRunning t
Steps-IsRunning w x xs c s t offers orignal started steps =
    let (u, r) =
      Steps_keep s t steps (subst Usable (sym started) (set_vars-Usable w x xs c offers orignal)) (
        inl (ap (λ (d : Carousel). d.dragged) started ∙ (set_vars-IsSettled w x xs c).undragged)) in
    record { aimed = u.aimed; shows = u.offering.offers.items; rests = r }
