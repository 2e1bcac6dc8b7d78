-- ===== src/Carousel/Startup/Busy.antt =====
-- A carousel of owl.carousel.js whose items change during the animation of a single item.
use gitb.Base.{ℕ, Bool, true, List, ◌∷◌, ℤ, ◌≡◌, ap, ◌∙◌, arith, if_true}
use gitb.Carousel.State.{Speed, Item, Carousel}
use gitb.Carousel.Layout.{calculate_all}
use gitb.Carousel.Breakpoints.{update_items}
use gitb.Carousel.Moves.{go_to, next, prev}
use gitb.Carousel.Moves.Frame.{Core}
use gitb.Carousel.Startup.{Widths, on_startup, set_vars}
use gitb.Carousel.Startup.Settled.{core-on_startup}

laid_out_transition :
    (window elem_width : ℕ) (c : Carousel)
    → (calculate_all elem_width (update_items window c)).is_transition ≡ c.is_transition
unfolding calculate_all update_items
laid_out_transition window elem_width c = ground arith

on_startup_transition :
    (w : Widths) (c : Carousel) → (on_startup w c).is_transition ≡ c.is_transition
on_startup_transition w c =
    ap (λ (k : Core). k.is_transition) (core-on_startup w c)
    ∙ laid_out_transition w.window w.element c

module _ (c : Carousel) (busy : c.is_transition ≡ true) where
  next_busy : (speed : Speed) → next speed c ≡ c
  unfolding next
  next_busy speed = if_true c.is_transition c _ busy

  prev_busy : (speed : Speed) → prev speed c ≡ c
  unfolding prev
  prev_busy speed = if_true c.is_transition c _ busy

  go_to_busy : (p : ℤ) (speed : Speed) (drag : Bool) → go_to p speed drag c ≡ c
  unfolding go_to
  go_to_busy p speed drag = if_true c.is_transition c _ busy

-- If `setVars` runs during the animation of a single item, as it does when an item is added or
-- removed then, the new carousel still takes itself for one in an animation: `next`, `prev` and
-- `goTo`, with whatever arguments, leave it as it is.
pub set_vars_busy :
    (w : Widths) (x : Item) (xs : List Item) (c : Carousel) (p : ℤ) (speed : Speed) (drag : Bool)
    → c.is_transition ≡ true
    → let d = set_vars w (x ∷ xs) c in
      (next speed d ≡ d) × (prev speed d ≡ d) × (go_to p speed drag d ≡ d)
unfolding set_vars
set_vars_busy w x xs c p speed drag h =
    let busy = on_startup_transition w _ ∙ h in
    (next_busy _ busy speed, prev_busy _ busy speed, go_to_busy _ busy p speed drag)
