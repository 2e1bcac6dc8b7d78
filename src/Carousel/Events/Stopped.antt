-- ===== src/Carousel/Events/Stopped.antt =====
-- A carousel of owl.carousel.js that the page has stopped by `owl.stop`.
use gitb.Base.{
  Bool, none, List, [], ◌∷◌, ℤ, ◌≡◌, inl, inr, arith, Option-cases, if_cases, get_elem?, not, eq_ℤ,
  true, false, All, if◌then◌else◌,
}
use gitb.Carousel.State.{
  Speed, page, usual, stopped, PageButton, Carousel, emit, before_move, after_move,
}
use gitb.Carousel.State.{Effect, after_action, auto_height_runs}
use gitb.Carousel.Controls.{check_pagination, check_navigation}
use gitb.Carousel.AutoPlay.{stop, check_ap, mouse_over, mouse_out}
use gitb.Carousel.Lazy.{lazy_load, on_visible_items}
use gitb.Carousel.Moves.{
  each_move_update, keep_playing, after_change, after_go, remember, differs, place, slide_to, clamp,
  single_item_transition, swaps_items, go_to, jump_to, next, prev, css3_finished, css_finished,
  old_css_finished, prev_animation_end, current_animation_end,
}
use gitb.Carousel.Moves.Fixed.{next_cases, prev_cases}
use gitb.Carousel.Events.{
  Event, owl_next, owl_prev, owl_stop, owl_play, owl_go_to, owl_jump_to, click_next, click_prev,
  click_page, mouse_enters, mouse_leaves, timer_ticks, slide_ends, css_slide_ends,
  old_css_slide_ends, prev_animation_ends, current_animation_ends, handle, run, page_clicked,
}

-- No timer runs, and neither a move nor the mouse may start one.
pub record IsStopped (c : Carousel) : Type 0 where
  pub status : c.ap_status ≡ stopped
  pub timer : c.auto_play_interval ≡ none
  pub hover : c.hover_status ≡ stopped

module _ (c : Carousel) (s : IsStopped c) where
  check_pagination-IsStopped : IsStopped (check_pagination c)
  unfolding check_pagination
  check_pagination-IsStopped = ground arith

  check_navigation-IsStopped : IsStopped (check_navigation c)
  unfolding check_navigation
  check_navigation-IsStopped = ground arith

  lazy_load-IsStopped : IsStopped (lazy_load c)
  unfolding lazy_load
  lazy_load-IsStopped = ground arith

  on_visible_items-IsStopped : IsStopped (on_visible_items c)
  unfolding on_visible_items
  on_visible_items-IsStopped = ground arith

  keep_playing-IsStopped : IsStopped (keep_playing c)
  unfolding keep_playing check_ap
  keep_playing-IsStopped = ground arith

emit-IsStopped : (e : Effect) (c : Carousel) → IsStopped c → IsStopped (emit e c)
emit-IsStopped e c s = record { status = s.status; timer = s.timer; hover = s.hover }

each_move_update-IsStopped : (c : Carousel) → IsStopped c → IsStopped (each_move_update c)
unfolding each_move_update
each_move_update-IsStopped c s = emit-IsStopped after_action _ (
    on_visible_items-IsStopped _
      (if_cases IsStopped _ (λ _. emit-IsStopped auto_height_runs _ loaded) (λ _. loaded)))
  where
    loaded : IsStopped (if c.options.lazy_load then lazy_load c else c)
    loaded = if_cases IsStopped c.options.lazy_load (λ _. lazy_load-IsStopped c s) (λ _. s)

after_change-IsStopped : (c : Carousel) → IsStopped c → IsStopped (after_change c)
unfolding after_change
after_change-IsStopped c s = emit-IsStopped after_move _ (
    keep_playing-IsStopped _ (
      each_move_update-IsStopped _ (check_navigation-IsStopped _ (check_pagination-IsStopped c s))))

after_go-IsStopped : (c : Carousel) → IsStopped c → IsStopped (after_go c)
unfolding after_go
after_go-IsStopped c s =
    if_cases IsStopped (differs (remember c).prev_item c.current_item)
      (λ _.
        after_change-IsStopped (remember c)
          (record { status = s.status; timer = s.timer; hover = s.hover }))
      (λ _. record { status = s.status; timer = s.timer; hover = s.hover })

module _ (q x : ℤ) (c : Carousel) (s : IsStopped c) where
  place-IsStopped : IsStopped (place q (record (emit before_move c) { current_item = x }))
  place-IsStopped = ground arith

  place_first-IsStopped : IsStopped (record (place q (emit before_move c)) { current_item = x })
  place_first-IsStopped = ground arith

  slide_to-IsStopped :
      (speed : Speed)
      → IsStopped (slide_to q speed (record (emit before_move c) { current_item = x }))
  slide_to-IsStopped speed = ground arith

go_to-IsStopped :
    (p : ℤ) (speed : Speed) (drag : Bool) (c : Carousel)
    → IsStopped c
    → IsStopped (go_to p speed drag c)
unfolding go_to
go_to-IsStopped p speed drag c s =
    let q = clamp c.maximum_item p in
    if_cases IsStopped c.is_transition (λ _. s)
      (λ _.
        if_cases IsStopped (swaps_items drag c)
          (λ _.
            transition (after_go (place q (record (emit before_move c) { current_item = q })))
              (after_go-IsStopped _ (place-IsStopped q q c s)))
          (λ _. after_go-IsStopped _ (slide_to-IsStopped q q c s speed)))
  where
    transition : (d : Carousel) → IsStopped d → IsStopped (single_item_transition d)
    transition d t = record { status = t.status; timer = t.timer; hover = t.hover }

jump_to-IsStopped : (p : ℤ) (c : Carousel) → IsStopped c → IsStopped (jump_to p c)
unfolding jump_to
jump_to-IsStopped p c s = after_go-IsStopped _ (place_first-IsStopped _ _ c s)

module _ (c : Carousel) (s : IsStopped c) where
  at-IsStopped : (x : ℤ) → IsStopped (record c { current_item = x })
  at-IsStopped x = record { status = s.status; timer = s.timer; hover = s.hover }

  next-IsStopped : (speed : Speed) → IsStopped (next speed c)
  next-IsStopped =
      next_cases IsStopped c s at-IsStopped (λ p x v. go_to-IsStopped p v false _ (at-IsStopped x))

  prev-IsStopped : (speed : Speed) → IsStopped (prev speed c)
  prev-IsStopped =
      prev_cases IsStopped c s at-IsStopped (λ p x v. go_to-IsStopped p v false _ (at-IsStopped x))

  page_clicked-IsStopped : (b : PageButton) → IsStopped (page_clicked b c)
  page_clicked-IsStopped b =
      if_cases IsStopped (not (eq_ℤ b.target c.current_item))
        (λ _. go_to-IsStopped b.target page false c s) (λ _. s)

-- Whether an event asks for automatic moves.
abbrev pub asks_to_play : Event → Bool
asks_to_play (owl_play speed) = true
asks_to_play _ = false

handle-IsStopped :
    (e : Event) (c : Carousel) → asks_to_play e ≡ false → IsStopped c → IsStopped (handle e c)
unfolding handle
handle-IsStopped owl_next c h s = next-IsStopped c s usual
handle-IsStopped owl_prev c h s = prev-IsStopped c s usual
handle-IsStopped owl_stop c h s = unfold stop in ground arith
handle-IsStopped (owl_play speed) c h s = cc
handle-IsStopped (owl_go_to item) c h s = go_to-IsStopped item usual false c s
handle-IsStopped (owl_jump_to item) c h s = jump_to-IsStopped item c s
handle-IsStopped click_next c h s = next-IsStopped c s usual
handle-IsStopped click_prev c h s = prev-IsStopped c s usual
handle-IsStopped (click_page i) c h s = elim (Option-cases (get_elem? c.page_buttons i)) [
  | inl e ↦ rw (e, handle) s
  | inr (b, e) ↦ rw (e, handle) (page_clicked-IsStopped c s b)
]
handle-IsStopped mouse_enters c h s = unfold mouse_over in ground arith
handle-IsStopped mouse_leaves c h s = unfold mouse_out in ground arith
handle-IsStopped timer_ticks c h s = ground arith
handle-IsStopped slide_ends c h s = unfold css3_finished in ground arith
handle-IsStopped css_slide_ends c h s = unfold css_finished in ground arith
handle-IsStopped old_css_slide_ends c h s = unfold old_css_finished in ground arith
handle-IsStopped prev_animation_ends c h s = unfold prev_animation_end in ground arith
handle-IsStopped current_animation_ends c h s = unfold current_animation_end in ground arith

-- If automatic play is stopped (the status says so, no timer runs, and the page has asked for it
-- last), then it is stopped after any events, moves and the mouse included, as long as no
-- `owl.play` is among them.
pub run-IsStopped :
    (es : List Event) (c : Carousel)
    → All (λ e. asks_to_play e ≡ false) es
    → IsStopped c
    → IsStopped (run es c)
unfolding run
run-IsStopped [] c h s = s
run-IsStopped (e ∷ es) c h s = run-IsStopped es (handle e c) h.1 (handle-IsStopped e c h.0 s)
