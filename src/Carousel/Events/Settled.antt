-- ===== src/Carousel/Events/Settled.antt =====
-- Whatever happens to a settled carousel, it is settled again.
use gitb.Base.{
  ℕ, ◌<◌, false, not, Option, List, [], ◌∷◌, ℤ, eq_ℤ, ◌≡◌, ◌∙◌, refl, inl, inr, arith, Option-cases,
  if_cases, get_elem?,
}
use gitb.Carousel.State.{Speed, page, usual, PageButton, Carousel}
use gitb.Carousel.AutoPlay.{stop, play, mouse_over, mouse_out}
use gitb.Carousel.Moves.{
  go_to, jump_to, next, prev, css3_finished, css_finished, old_css_finished, prev_animation_end,
  current_animation_end,
}
use gitb.Carousel.Moves.Fixed.{Keeps, go_to-Keeps, jump_to-Keeps, next-Keeps, prev-Keeps}
use gitb.Carousel.Moves.Settled.{IsAimed, ButtonsAgree}
use gitb.Carousel.Moves.Undragged.{
  IsSettled, KeepsDrag, go_to-KeepsDrag, jump_to_undrags, next-KeepsDrag, prev-KeepsDrag,
}
use gitb.Carousel.Moves.Preserved.{go_to-IsAimed, jump_to-IsAimed, next-IsAimed, prev-IsAimed}
use gitb.Carousel.Events.{
  Event, owl_next, owl_prev, owl_stop, owl_play, owl_go_to, owl_jump_to, click_next, click_prev,
  click_page, mouse_enters, mouse_leaves, timer_ticks, slide_ends, css_slide_ends,
  old_css_slide_ends, prev_animation_ends, current_animation_ends, handle, run, page_clicked,
}

-- The carousel shows at least one item, and the last move has led to its current item.
pub record IsOnTrack (c : Carousel) : Type 0 where
  pub shows : 0 < c.options.items
  pub aimed : IsAimed c

module _ (c : Carousel) (r : IsOnTrack c) where
  kept-IsOnTrack : (d : Carousel) → Keeps c d → IsAimed d → IsOnTrack d
  kept-IsOnTrack d k s = record { shows = rw k.options r.shows; aimed = s }

  next-IsOnTrack : (speed : Speed) → IsOnTrack (next speed c)
  next-IsOnTrack speed =
      kept-IsOnTrack _ (next-Keeps speed c) (next-IsAimed speed c r.shows r.aimed)

  prev-IsOnTrack : (speed : Speed) → IsOnTrack (prev speed c)
  prev-IsOnTrack speed =
      kept-IsOnTrack _ (prev-Keeps speed c) (prev-IsAimed speed c r.shows r.aimed)

  go_to-IsOnTrack : (p : ℤ) (speed : Speed) → IsOnTrack (go_to p speed false c)
  go_to-IsOnTrack p speed =
      kept-IsOnTrack _ (go_to-Keeps p speed false c) (go_to-IsAimed p speed false c r.aimed)

  jump_to-IsOnTrack : (p : ℤ) → IsOnTrack (jump_to p c)
  jump_to-IsOnTrack p = kept-IsOnTrack _ (jump_to-Keeps p c) (jump_to-IsAimed p c r.aimed)

-- What the aimed state depends on is the same.
record Alike (c d : Carousel) : Type 0 where
  items : d.options.items ≡ c.options.items
  navigation : d.options.navigation ≡ c.options.navigation
  rewind_nav : d.options.rewind_nav ≡ c.options.rewind_nav
  support : d.support3d ≡ c.support3d
  maximum : d.maximum_item ≡ c.maximum_item
  positions : d.positions_in_array ≡ c.positions_in_array
  item : d.current_item ≡ c.current_item
  history : d.prev_arr ≡ c.prev_arr
  left : d.css_left ≡ c.css_left
  transform : d.css_transform ≡ c.css_transform
  prev_button : d.prev_disabled ≡ c.prev_disabled
  next_button : d.next_disabled ≡ c.next_disabled
  visible : d.visible_items ≡ c.visible_items

module _ (c d : Carousel) (r : IsOnTrack c) (a : Alike c d) where
  alike_buttons : ButtonsAgree d
  alike_buttons p q = ground (arith, r.aimed.buttons_agree)

  Alike-IsOnTrack : IsOnTrack d
  Alike-IsOnTrack = record {
    shows = ground arith;
    aimed = record {
      from_start = ground arith;
      to_end = ground arith;
      remembered = ground arith;
      in_place = ground arith;
      buttons_agree = alike_buttons;
      visible_agree = ground arith;
    };
  }

module _ (c : Carousel) where
  stop-Alike : Alike c (stop c)
  unfolding stop
  stop-Alike = ground arith

  play-Alike : Alike c (play c)
  unfolding play
  play-Alike = ground arith

  mouse_over-Alike : Alike c (mouse_over c)
  unfolding mouse_over
  mouse_over-Alike = ground arith

  mouse_out-Alike : Alike c (mouse_out c)
  unfolding mouse_out
  mouse_out-Alike = ground arith

  css3_finished-Alike : Alike c (css3_finished c)
  unfolding css3_finished
  css3_finished-Alike = ground arith

  css_finished-Alike : Alike c (css_finished c)
  unfolding css_finished
  css_finished-Alike = ground arith

  old_css_finished-Alike : Alike c (old_css_finished c)
  unfolding old_css_finished
  old_css_finished-Alike = ground arith

  prev_animation_end-Alike : Alike c (prev_animation_end c)
  unfolding prev_animation_end
  prev_animation_end-Alike = ground arith

  current_animation_end-Alike : Alike c (current_animation_end c)
  unfolding current_animation_end
  current_animation_end-Alike = ground arith

  play_at-Alike : (speed : Option ℕ) → Alike c (handle (owl_play speed) c)
  unfolding handle play
  play_at-Alike speed = ground arith

page_clicked-IsOnTrack :
    (b : PageButton) (c : Carousel) → IsOnTrack c → IsOnTrack (page_clicked b c)
page_clicked-IsOnTrack b c r =
    if_cases IsOnTrack (not (eq_ℤ b.target c.current_item)) (λ _. go_to-IsOnTrack c r b.target page)
      (λ _. r)

-- Every event leads from a carousel to another.
pub handle-IsOnTrack : (e : Event) (c : Carousel) → IsOnTrack c → IsOnTrack (handle e c)
unfolding handle stop
handle-IsOnTrack owl_next c r = next-IsOnTrack c r usual
handle-IsOnTrack owl_prev c r = prev-IsOnTrack c r usual
handle-IsOnTrack owl_stop c r = Alike-IsOnTrack c _ r (ground arith)
handle-IsOnTrack (owl_play speed) c r = Alike-IsOnTrack c _ r (play_at-Alike c speed)
handle-IsOnTrack (owl_go_to item) c r = go_to-IsOnTrack c r item usual
handle-IsOnTrack (owl_jump_to item) c r = jump_to-IsOnTrack c r item
handle-IsOnTrack click_next c r = next-IsOnTrack c r usual
handle-IsOnTrack click_prev c r = prev-IsOnTrack c r usual
handle-IsOnTrack (click_page i) c r = elim (Option-cases (get_elem? c.page_buttons i)) [
  | inl e ↦ rw (e, handle) r
  | inr (b, e) ↦ rw (e, handle) (page_clicked-IsOnTrack b c r)
]
handle-IsOnTrack mouse_enters c r = Alike-IsOnTrack c _ r (mouse_over-Alike c)
handle-IsOnTrack mouse_leaves c r = Alike-IsOnTrack c _ r (mouse_out-Alike c)
handle-IsOnTrack timer_ticks c r = elim (Option-cases c.auto_play_interval) [
  | inl e ↦ rw (e, handle) r
  | inr (n, e) ↦ rw (e, handle) (next-IsOnTrack c r page)
]
handle-IsOnTrack slide_ends c r = Alike-IsOnTrack c _ r (css3_finished-Alike c)
handle-IsOnTrack css_slide_ends c r = Alike-IsOnTrack c _ r (css_finished-Alike c)
handle-IsOnTrack old_css_slide_ends c r = Alike-IsOnTrack c _ r (old_css_finished-Alike c)
handle-IsOnTrack prev_animation_ends c r = Alike-IsOnTrack c _ r (prev_animation_end-Alike c)
handle-IsOnTrack current_animation_ends c r = Alike-IsOnTrack c _ r (current_animation_end-Alike c)

page_clicked-KeepsDrag : (b : PageButton) (c : Carousel) → KeepsDrag c (page_clicked b c)
page_clicked-KeepsDrag b c =
    if_cases (KeepsDrag c) (not (eq_ℤ b.target c.current_item))
      (λ _. go_to-KeepsDrag b.target c.current_item page false c) (λ _. inr refl)

-- No event pulls the wrapper away from where it is but by a move.
pub handle-KeepsDrag : (e : Event) (c : Carousel) → KeepsDrag c (handle e c)
unfolding handle stop css3_finished old_css_finished
handle-KeepsDrag owl_next c = next-KeepsDrag usual c
handle-KeepsDrag owl_prev c = prev-KeepsDrag usual c
handle-KeepsDrag owl_stop c = inr refl
handle-KeepsDrag (owl_play speed) c = inr (unfold play in ground arith)
handle-KeepsDrag (owl_go_to item) c = go_to-KeepsDrag item c.current_item usual false c
handle-KeepsDrag (owl_jump_to item) c = inl (jump_to_undrags item c)
handle-KeepsDrag click_next c = next-KeepsDrag usual c
handle-KeepsDrag click_prev c = prev-KeepsDrag usual c
handle-KeepsDrag (click_page i) c = elim (Option-cases (get_elem? c.page_buttons i)) [
  | inl e ↦ rw (e, handle) (inr refl)
  | inr (b, e) ↦ rw (e, handle) (page_clicked-KeepsDrag b c)
]
handle-KeepsDrag mouse_enters c = inr (unfold mouse_over in ground arith)
handle-KeepsDrag mouse_leaves c = inr (unfold mouse_out in ground arith)
handle-KeepsDrag timer_ticks c = elim (Option-cases c.auto_play_interval) [
  | inl e ↦ rw (e, handle) (inr refl)
  | inr (n, e) ↦ rw (e, handle) (next-KeepsDrag page c)
]
handle-KeepsDrag slide_ends c = inr refl
handle-KeepsDrag css_slide_ends c = unfold css_finished in ground arith
handle-KeepsDrag old_css_slide_ends c = inr refl
handle-KeepsDrag prev_animation_ends c = inr (unfold prev_animation_end in ground arith)
handle-KeepsDrag current_animation_ends c = inr (unfold current_animation_end in ground arith)

-- The carousel shows at least one item and is settled.
pub record IsReady (c : Carousel) : Type 0 where
  pub shows : 0 < c.options.items
  pub settled : IsSettled c

handle-IsReady : (e : Event) (c : Carousel) → IsReady c → IsReady (handle e c)
handle-IsReady e c r =
    let t = handle-IsOnTrack e c (record { shows = r.shows; aimed = r.settled.aimed }) in
    record {
      shows = t.shows;
      settled = record {
        aimed = t.aimed;
        undragged = elim (handle-KeepsDrag e c) [ inl n ↦ n | inr k ↦ k ∙ r.settled.undragged ];
      };
    }

-- Whatever events a carousel that is settled and shows an item receives, in any order, it is
-- settled after them: its current item is between 0 and `maximumItem`, the wrapper stands at that
-- item's position, the history is that item, the navigation buttons are disabled exactly at
-- their ends (where they exist and do not rewind), and the visible items start at it.
pub run-IsReady : (es : List Event) (c : Carousel) → IsReady c → IsReady (run es c)
unfolding run
run-IsReady [] c r = r
run-IsReady (e ∷ es) c r = run-IsReady es (handle e c) (handle-IsReady e c r)
