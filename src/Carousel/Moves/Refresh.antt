-- ===== src/Carousel/Moves/Refresh.antt =====
-- `updateVars` of owl.carousel.js, as it runs after the window has changed its width.
use gitb.Base.{ℕ, none, ap, [], ◌∷◌, ℤ, pos, ◌≤ℤ◌, ◌≡◌, ◌∙◌, arith}
use gitb.Carousel.State.{Carousel, get_at, emit, before_move}
use gitb.Carousel.Layout.{calculate_all}
use gitb.Carousel.Breakpoints.{update_items}
use gitb.Carousel.Controls.{page_buttons_from, update_pagination, check_navigation, update_controls}
use gitb.Carousel.Moves.{
  each_move_update, after_go, remember, place, jump_to, update_position, update_vars,
}
use gitb.Carousel.Moves.Undragged.{IsSettled, jump_to_undrags}
use gitb.Carousel.Moves.Frame.{
  Core, core, core-after_go, core-keep_playing, core-check_navigation, core-check_pagination,
  core-each_move_update, panel-each_move_update,
}
use gitb.Carousel.Moves.Settled.{IsAimed, shown_at, ButtonsAgree, check_navigation_buttons}
use gitb.Carousel.Moves.Preserved.{jump_target, jump_target_bounds}

-- The part of the settled state that `jumpTo` brings about by itself.
pub record IsPlaced (c : Carousel) : Type 0 where
  pub from_start : pos 0 ≤ℤ c.current_item
  pub to_end : c.current_item ≤ℤ pos c.maximum_item
  pub remembered : c.prev_arr ≡ c.current_item ∷ []
  pub in_place : shown_at c ≡ get_at c.positions_in_array c.current_item

pub same_core-IsPlaced : (c d : Carousel) → core d ≡ core c → IsPlaced c → IsPlaced d
same_core-IsPlaced c d e p = record {
  from_start = ground arith;
  to_end = ground arith;
  remembered = ground arith;
  in_place = ground arith;
}

after_go-IsPlaced :
    (i : ℤ) (c : Carousel)
    → c.prev_arr ≡ i ∷ []
    → pos 0 ≤ℤ c.current_item
    → c.current_item ≤ℤ pos c.maximum_item
    → shown_at c ≡ get_at c.positions_in_array c.current_item
    → IsPlaced (after_go c)
after_go-IsPlaced i c h lo hi place =
    same_core-IsPlaced (remember c) (after_go c) (core-after_go c)
      (record { from_start = lo; to_end = hi; remembered = rw h; in_place = place })

placed_shows :
    (q : ℤ) (c : Carousel)
    → let d = record (place q (emit before_move c)) { current_item = q } in
      (shown_at d ≡ get_at c.positions_in_array q)
      × (d.positions_in_array ≡ c.positions_in_array)
      × (d.maximum_item ≡ c.maximum_item)
      × (d.prev_arr ≡ c.prev_arr)
placed_shows q c = ground arith

-- `jumpTo` places the carousel, whatever its current item was.
jump_to-IsPlaced : (i p : ℤ) (c : Carousel) → c.prev_arr ≡ i ∷ [] → IsPlaced (jump_to p c)
unfolding jump_to jump_target
jump_to-IsPlaced i p c h =
    let q = jump_target c.maximum_item p in
    let (lo, hi) = jump_target_bounds c.maximum_item p in
    let (a, b, m, d) = placed_shows q c in
    after_go-IsPlaced i (record (place q (emit before_move c)) { current_item = q }) (d ∙ h) lo
      (rw m hi) (a ∙ rw b)

core-update_pagination : (c : Carousel) → core (update_pagination c) ≡ core c
unfolding update_pagination
core-update_pagination c = ground (
  arith,
  core-check_pagination
      (record c { page_buttons = page_buttons_from c.options c.items_amount c.items_amount 0 0 }),
)

-- `updateControls` and the buttons' state that `checkNavigation` computes in it.
update_controls_facts :
    (c : Carousel)
    → let d = check_navigation (update_pagination c) in
      (core (update_controls c) ≡ core d)
      × ((update_controls c).prev_disabled ≡ d.prev_disabled)
      × ((update_controls c).next_disabled ≡ d.next_disabled)
unfolding update_controls
update_controls_facts c = ground arith

pub core-update_controls : (c : Carousel) → core (update_controls c) ≡ core c
core-update_controls c =
    (update_controls_facts c).0 ∙ core-check_navigation _ ∙ core-update_pagination c

pub update_controls-ButtonsAgree : (c : Carousel) → ButtonsAgree (update_controls c)
update_controls-ButtonsAgree c p q = ground (
  arith,
  update_controls_facts c,
  core-update_controls c,
  core-update_pagination c,
  check_navigation_buttons (update_pagination c),
)

update_position-IsPlaced :
    (i : ℤ) (c : Carousel) → c.prev_arr ≡ i ∷ [] → IsPlaced (update_position c)
unfolding update_position
update_position-IsPlaced i c h =
    same_core-IsPlaced _ _ (core-keep_playing _) (jump_to-IsPlaced i c.current_item c h)

pub each_move_update-IsAimed :
    (c : Carousel) → IsPlaced c → ButtonsAgree c → IsAimed (each_move_update c)
each_move_update-IsAimed c p b = record {
  from_start = ground (arith, core-each_move_update c);
  to_end = ground (arith, core-each_move_update c);
  remembered = ground (arith, core-each_move_update c);
  in_place = ground (arith, core-each_move_update c);
  buttons_agree = λ n r. ground (arith, core-each_move_update c, panel-each_move_update c, b);
  visible_agree = ground (arith, core-each_move_update c, panel-each_move_update c);
}

-- What `updateVars` does once the sizes are known.
shown-IsAimed :
    (i : ℤ) (c : Carousel)
    → c.prev_arr ≡ i ∷ []
    → IsAimed (each_move_update (update_controls (update_position c)))
shown-IsAimed i c h =
    let placed = update_position-IsPlaced i c h in
    each_move_update-IsAimed _
      (same_core-IsPlaced _ _ (core-update_controls (update_position c)) placed)
      (update_controls-ButtonsAgree _)

prev_arr-calculate_all :
    (elem_width : ℕ) (c : Carousel) → (calculate_all elem_width c).prev_arr ≡ c.prev_arr
unfolding calculate_all
prev_arr-calculate_all elem_width c = ground arith

prev_arr-update_items : (width : ℕ) (c : Carousel) → (update_items width c).prev_arr ≡ c.prev_arr
unfolding update_items
prev_arr-update_items width c = ground arith

update_vars_undrags :
    (window_width elem_width : ℕ) (c : Carousel)
    → (update_vars window_width elem_width c).dragged ≡ none
unfolding update_vars update_position
update_vars_undrags window_width elem_width c =
    let d = calculate_all elem_width (update_items window_width c) in
    let j = jump_to d.current_item d in
    ap (λ (k : Core). k.dragged)
      (core-each_move_update _ ∙ core-update_controls (update_position d) ∙ core-keep_playing j)
    ∙ jump_to_undrags d.current_item d

update_vars-IsAimed :
    (window_width elem_width : ℕ) (i : ℤ) (c : Carousel)
    → c.prev_arr ≡ i ∷ []
    → IsAimed (update_vars window_width elem_width c)
unfolding update_vars
update_vars-IsAimed window_width elem_width i c h =
    shown-IsAimed i _
      (prev_arr-calculate_all elem_width _ ∙ prev_arr-update_items window_width c ∙ h)

-- `updateVars`, at any widths of the window and the element, settles a carousel whose history holds
-- one item, even where the new layout has fewer stops than the current item needs.
pub update_vars-IsSettled :
    (window_width elem_width : ℕ) (i : ℤ) (c : Carousel)
    → c.prev_arr ≡ i ∷ []
    → IsSettled (update_vars window_width elem_width c)
update_vars-IsSettled window_width elem_width i c h = record {
  aimed = update_vars-IsAimed window_width elem_width i c h;
  undragged = update_vars_undrags window_width elem_width c;
}
