-- ===== src/Carousel/Session/Offers.antt =====
-- What keeps the numbers of items that the options of owl.carousel.js offer.
use gitb.Base.{
  ℕ, ◌<◌, Option, List, ◌∷◌, get_elem?, false, not, eq_ℤ, ◌≡◌, refl, sym, ap, ap₂, ◌∙◌, subst,
  arith, if_cases, Option-cases, inl, inr,
}
use gitb.Carousel.State.{BreakPoint, Options, usual, page, PageButton, Item, Carousel}
use gitb.Carousel.Layout.{calculate_all}
use gitb.Carousel.Breakpoints.{update_items}
use gitb.Carousel.Breakpoints.Positive.{
  Offers, EntriesOffer, AllOffer, Offering, update_items-Offering,
}
use gitb.Carousel.Controls.{update_controls}
use gitb.Carousel.AutoPlay.{stop, play, mouse_over, mouse_out}
use gitb.Carousel.Moves.{
  jump_to, css3_finished, css_finished, old_css_finished, prev_animation_end, current_animation_end,
  each_move_update, update_position, update_vars,
}
use gitb.Carousel.Moves.Frame.{Core, core, core-each_move_update, core-keep_playing}
use gitb.Carousel.Moves.Fixed.{Keeps, go_to-Keeps, jump_to-Keeps, next-Keeps, prev-Keeps}
use gitb.Carousel.Moves.Refresh.{core-update_controls}
use gitb.Carousel.Events.{
  Event, owl_next, owl_prev, owl_stop, owl_play, owl_go_to, owl_jump_to, click_next, click_prev,
  click_page, mouse_enters, mouse_leaves, timer_ticks, slide_ends, css_slide_ends,
  old_css_slide_ends, prev_animation_ends, current_animation_ends, handle, page_clicked,
}
use gitb.Carousel.Startup.{Widths, on_startup, set_vars}
use gitb.Carousel.Startup.Settled.{core-on_startup, core-play}

-- Everything in the options that offers a number of items, and the numbers besides.
record Offered : Type 0 where
  items : ℕ
  custom : Option (List (ℕ × ℕ))
  desktop : BreakPoint
  desktop_small : BreakPoint
  tablet : BreakPoint
  tablet_small : BreakPoint
  mobile : BreakPoint
  orignal : ℕ
  amount : ℕ

abbrev offered : Options → ℕ → ℕ → Offered
offered o orignal amount = record {
  items = o.items;
  custom = o.items_custom;
  desktop = o.items_desktop;
  desktop_small = o.items_desktop_small;
  tablet = o.items_tablet;
  tablet_small = o.items_tablet_small;
  mobile = o.items_mobile;
  orignal = orignal;
  amount = amount;
}

-- From `c` to `d` these stay.
record Same (c d : Carousel) : Type 0 where
  offers :
      offered d.options d.orignal_items d.items_amount
      ≡ offered c.options c.orignal_items c.items_amount

Same-Offering : (c d : Carousel) → Same c d → Offering c → Offering d
Same-Offering c d s f =
    let e = sym s.offers in
    let a = f.offers in
    record {
      offers = record {
        items = subst (λ n. 0 < n) (ap (λ x. x.items) e) a.items;
        custom = subst EntriesOffer (ap (λ x. x.custom) e) a.custom;
        desktop = subst Offers (ap (λ x. x.desktop) e) a.desktop;
        desktop_small = subst Offers (ap (λ x. x.desktop_small) e) a.desktop_small;
        tablet = subst Offers (ap (λ x. x.tablet) e) a.tablet;
        tablet_small = subst Offers (ap (λ x. x.tablet_small) e) a.tablet_small;
        mobile = subst Offers (ap (λ x. x.mobile) e) a.mobile;
      };
      orignal = subst (λ n. 0 < n) (ap (λ x. x.orignal) e) f.orignal;
      amount = subst (λ n. 0 < n) (ap (λ x. x.amount) e) f.amount;
    }

core-Same : (c d : Carousel) → core d ≡ core c → Same c d
core-Same c d e = record {
  offers = ap (λ (k : Core). offered k.options k.orignal_items k.items_amount) e;
}

Keeps-Same : (c d : Carousel) → Keeps c d → Same c d
Keeps-Same c d k = record {
  offers =
      ap (λ o. offered o d.orignal_items d.items_amount) k.options
      ∙ ap₂ (λ n m. offered c.options n m) k.orignal k.amount;
}

Same-trans : (b c d : Carousel) → Same b c → Same c d → Same b d
Same-trans b c d s t = record { offers = t.offers ∙ s.offers }

calculate_all-Same : (width : ℕ) (c : Carousel) → Same c (calculate_all width c)
unfolding calculate_all
calculate_all-Same width c = record { offers = ground arith }

-- What is not a move.
module _ (c : Carousel) where
  stop-Same : Same c (stop c)
  unfolding stop
  stop-Same = record { offers = refl }

  play-Same : Same c (play c)
  play-Same = core-Same c (play c) (core-play c)

  play_at-Same : (speed : Option ℕ) → Same c (handle (owl_play speed) c)
  unfolding handle play
  play_at-Same speed = record { offers = ground arith }

  mouse_over-Same : Same c (mouse_over c)
  unfolding mouse_over
  mouse_over-Same = record { offers = ground arith }

  mouse_out-Same : Same c (mouse_out c)
  unfolding mouse_out
  mouse_out-Same = record { offers = ground arith }

  css3_finished-Same : Same c (css3_finished c)
  unfolding css3_finished
  css3_finished-Same = record { offers = refl }

  css_finished-Same : Same c (css_finished c)
  unfolding css_finished
  css_finished-Same = record { offers = ground arith }

  old_css_finished-Same : Same c (old_css_finished c)
  unfolding old_css_finished
  old_css_finished-Same = record { offers = refl }

  prev_animation_end-Same : Same c (prev_animation_end c)
  unfolding prev_animation_end
  prev_animation_end-Same = record { offers = ground arith }

  current_animation_end-Same : Same c (current_animation_end c)
  unfolding current_animation_end
  current_animation_end-Same = record { offers = ground arith }

module _ (c : Carousel) (f : Offering c) where
  pub kept-Offering : (d : Carousel) → Keeps c d → Offering d
  kept-Offering d k = Same-Offering c d (Keeps-Same c d k) f

  alike-Offering : (d : Carousel) → Same c d → Offering d
  alike-Offering d s = Same-Offering c d s f

  page_clicked-Offering : (b : PageButton) → Offering (page_clicked b c)
  page_clicked-Offering b =
      if_cases Offering (not (eq_ℤ b.target c.current_item))
        (λ _. kept-Offering _ (go_to-Keeps b.target page false c)) (λ _. f)

  pub handle-Offering : (e : Event) → Offering (handle e c)
  unfolding handle
  handle-Offering owl_next = kept-Offering _ (next-Keeps usual c)
  handle-Offering owl_prev = kept-Offering _ (prev-Keeps usual c)
  handle-Offering owl_stop = alike-Offering _ (record { offers = (stop-Same c).offers })
  handle-Offering (owl_play speed) = alike-Offering _ (play_at-Same c speed)
  handle-Offering (owl_go_to item) = kept-Offering _ (go_to-Keeps item usual false c)
  handle-Offering (owl_jump_to item) = kept-Offering _ (jump_to-Keeps item c)
  handle-Offering click_next = kept-Offering _ (next-Keeps usual c)
  handle-Offering click_prev = kept-Offering _ (prev-Keeps usual c)
  handle-Offering (click_page i) = elim (Option-cases (get_elem? c.page_buttons i)) [
    | inl e ↦ rw (e, handle) f
    | inr (b, e) ↦ rw (e, handle) (page_clicked-Offering b)
  ]
  handle-Offering mouse_enters = alike-Offering _ (mouse_over-Same c)
  handle-Offering mouse_leaves = alike-Offering _ (mouse_out-Same c)
  handle-Offering timer_ticks = elim (Option-cases c.auto_play_interval) [
    | inl e ↦ rw (e, handle) f
    | inr (n, e) ↦ rw (e, handle) (kept-Offering _ (next-Keeps page c))
  ]
  handle-Offering slide_ends = alike-Offering _ (css3_finished-Same c)
  handle-Offering css_slide_ends = alike-Offering _ (css_finished-Same c)
  handle-Offering old_css_slide_ends = alike-Offering _ (old_css_finished-Same c)
  handle-Offering prev_animation_ends = alike-Offering _ (prev_animation_end-Same c)
  handle-Offering current_animation_ends = alike-Offering _ (current_animation_end-Same c)

laid_out-Offering :
    (window_width elem_width : ℕ) (c : Carousel)
    → Offering c
    → Offering (calculate_all elem_width (update_items window_width c))
laid_out-Offering window_width elem_width c f =
    Same-Offering _ _ (calculate_all-Same elem_width (update_items window_width c))
      (update_items-Offering window_width c f)

update_position-Same : (c : Carousel) → Same c (update_position c)
unfolding update_position
update_position-Same c =
    Same-trans c (jump_to c.current_item c) _ (Keeps-Same c _ (jump_to-Keeps c.current_item c))
      (core-Same _ _ (core-keep_playing (jump_to c.current_item c)))

pub update_vars-Offering :
    (window_width elem_width : ℕ) (c : Carousel)
    → Offering c
    → Offering (update_vars window_width elem_width c)
unfolding update_vars
update_vars-Offering window_width elem_width c f =
    let d = calculate_all elem_width (update_items window_width c) in
    let p = update_position d in
    Same-Offering p (each_move_update (update_controls p))
      (core-Same p _ (core-each_move_update (update_controls p) ∙ core-update_controls p))
      (Same-Offering d p (update_position-Same d) (laid_out-Offering window_width elem_width c f))

on_startup-Offering : (w : Widths) (c : Carousel) → Offering c → Offering (on_startup w c)
on_startup-Offering w c f =
    let d = calculate_all w.element (update_items w.window c) in
    Same-Offering d (on_startup w c) (core-Same d (on_startup w c) (core-on_startup w c))
      (laid_out-Offering w.window w.element c f)

pub set_vars-Offering :
    (w : Widths) (x : Item) (xs : List Item) (c : Carousel)
    → AllOffer c.options
    → 0 < c.orignal_items
    → Offering (set_vars w (x ∷ xs) c)
unfolding set_vars
set_vars-Offering w x xs c offers orignal =
    on_startup-Offering w _ (record { offers = offers; orignal = orignal; amount = omega arith })
