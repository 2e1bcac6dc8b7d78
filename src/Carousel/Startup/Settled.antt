-- ===== src/Carousel/Startup/Settled.antt =====
-- A carousel of owl.carousel.js is settled as soon as it has started.
use gitb.Base.{ℕ, suc, none, some, List, [], ◌∷◌, pos, neg, length, ◌≡◌, refl, ap, ◌∙◌, arith}
use gitb.Carousel.State.{Item, Carousel}
use gitb.Carousel.Layout.{calculate_all}
use gitb.Carousel.Layout.Positions.{calculate_all-IsLaidOut}
use gitb.Carousel.Breakpoints.{update_items}
use gitb.Carousel.Controls.{build_controls, update_controls}
use gitb.Carousel.AutoPlay.{stop_on_hover, play}
use gitb.Carousel.Moves.{each_move_update}
use gitb.Carousel.Moves.Undragged.{IsSettled}
use gitb.Carousel.Moves.Frame.{Core, core, core-each_move_update}
use gitb.Carousel.Moves.Settled.{IsAimed, ButtonsAgree}
use gitb.Carousel.Moves.Refresh.{
  IsPlaced, same_core-IsPlaced, core-update_controls, update_controls-ButtonsAgree,
  each_move_update-IsAimed,
}
use gitb.Carousel.Startup.{move_events, Widths, on_startup, wrap_items, set_vars}

length-wrap_items : (xs : List Item) → length (wrap_items xs) ≡ length xs
length-wrap_items [] = refl
length-wrap_items (x ∷ xs) = ap suc (length-wrap_items xs)

-- A new wrapper: nothing has moved yet.
record IsFresh (c : Carousel) : Type 0 where
  item : c.current_item ≡ pos 0
  history : c.prev_arr ≡ pos 0 ∷ []
  transform : c.css_transform ≡ some (pos 0)
  items : length c.owl_items ≡ c.items_amount

update_items-IsFresh : (width : ℕ) (c : Carousel) → IsFresh c → IsFresh (update_items width c)
unfolding update_items
update_items-IsFresh width c f = ground arith

-- What the layout does to a new wrapper, apart from the positions.
laid_out_facts :
    (width : ℕ) (c : Carousel)
    → IsFresh c
    → let d = calculate_all width c in
      (d.current_item ≡ pos 0)
      × (d.prev_arr ≡ pos 0 ∷ [])
      × (d.css_transform ≡ some (pos 0))
      × (d.css_left ≡ some (pos 0))
unfolding calculate_all
laid_out_facts width c f = ground arith

calculate_all-IsPlaced : (width : ℕ) (c : Carousel) → IsFresh c → IsPlaced (calculate_all width c)
calculate_all-IsPlaced width c f =
    let (item, history, transform, left) = laid_out_facts width c f in
    let first =
      (calculate_all-IsLaidOut width c f.items).position 0 (omega arith)
      ∙ ap (λ n. some (neg n)) {y = 0} (omega arith) in
    record {
      from_start = ground arith;
      to_end = ground arith;
      remembered = ground arith;
      in_place = ground arith;
    }

build_controls-IsPlaced : (c : Carousel) → IsPlaced c → IsPlaced (build_controls c)
unfolding build_controls
build_controls-IsPlaced c p = same_core-IsPlaced c _ refl p

module _ (c : Carousel) where
  pub core-stop_on_hover : core (stop_on_hover c) ≡ core c
  unfolding stop_on_hover
  core-stop_on_hover = refl

  pub core-play : core (play c) ≡ core c
  unfolding play
  core-play = ground arith

  pub core-move_events : core (move_events c) ≡ core c
  unfolding move_events
  core-move_events = ground arith

  move_events-ButtonsAgree : ButtonsAgree c → ButtonsAgree (move_events c)
  unfolding move_events
  move_events-ButtonsAgree b n r = ground (arith, b)

  stop_on_hover-ButtonsAgree : ButtonsAgree c → ButtonsAgree (stop_on_hover c)
  unfolding stop_on_hover
  stop_on_hover-ButtonsAgree b = b

  play-ButtonsAgree : ButtonsAgree c → ButtonsAgree (play c)
  unfolding play
  play-ButtonsAgree b n r = ground (arith, b)

-- After the layout, starting changes none of the core.
pub core-on_startup :
    (w : Widths) (c : Carousel)
    → core (on_startup w c) ≡ core (calculate_all w.element (update_items w.window c))
unfolding on_startup build_controls
core-on_startup w c =
    core-each_move_update _
    ∙ core-play _
    ∙ core-stop_on_hover _
    ∙ core-move_events _
    ∙ core-update_controls (build_controls (calculate_all w.element (update_items w.window c)))

-- What `onStartup` does once the sizes are known.
shown-IsAimed :
    (c : Carousel)
    → IsPlaced c
    → IsAimed
        (each_move_update (play (stop_on_hover (move_events (update_controls (build_controls c))))))
shown-IsAimed c p =
    each_move_update-IsAimed _
      (same_core-IsPlaced (build_controls c) _
        (core-play _ ∙ core-stop_on_hover _ ∙ core-move_events _ ∙ core-update_controls _)
        (build_controls-IsPlaced c p))
      (play-ButtonsAgree _ (
        stop_on_hover-ButtonsAgree _ (move_events-ButtonsAgree _ (update_controls-ButtonsAgree _))))

on_startup-IsAimed : (w : Widths) (c : Carousel) → IsFresh c → IsAimed (on_startup w c)
unfolding on_startup
on_startup-IsAimed w c f =
    shown-IsAimed _ (calculate_all-IsPlaced w.element _ (update_items-IsFresh w.window c f))

set_vars-IsAimed :
    (w : Widths) (x : Item) (xs : List Item) (c : Carousel) → IsAimed (set_vars w (x ∷ xs) c)
unfolding set_vars
set_vars-IsAimed w x xs c =
    on_startup-IsAimed w _
      (record { item = refl; history = refl; transform = refl; items = length-wrap_items (x ∷ xs) })

laid_out_drag :
    (width : ℕ) (window : ℕ) (c : Carousel)
    → c.dragged ≡ none
    → (calculate_all width (update_items window c)).dragged ≡ none
unfolding calculate_all update_items
laid_out_drag width window c h = ground arith

set_vars_undrags :
    (w : Widths) (x : Item) (xs : List Item) (c : Carousel) → (set_vars w (x ∷ xs) c).dragged ≡ none
unfolding set_vars
set_vars_undrags w x xs c =
    ap (λ (k : Core). k.dragged) (core-on_startup w _) ∙ laid_out_drag w.element w.window _ refl

-- Whatever object the source starts from, its options and the widths of the page, `setVars` on at
-- least one child leaves the carousel settled.
pub set_vars-IsSettled :
    (w : Widths) (x : Item) (xs : List Item) (c : Carousel) → IsSettled (set_vars w (x ∷ xs) c)
set_vars-IsSettled w x xs c = record {
  aimed = set_vars-IsAimed w x xs c;
  undragged = set_vars_undrags w x xs c;
}
