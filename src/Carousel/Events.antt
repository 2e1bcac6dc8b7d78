-- ===== src/Carousel/Events.antt =====
-- What reaches a carousel of owl.carousel.js from outside: customEvents, the handlers of
-- buildButtons and buildPagination, the timers, and the ends of animations.
pub mod Settled
pub mod Stopped
pub mod Cycle
use gitb.Base.{ℕ, not, Option, none, some, List, [], ◌∷◌, ℤ, eq_ℤ, false, if◌then◌else◌, get_elem?}
use gitb.Carousel.State.{page, usual, playing, stopped, PageButton, Carousel}
use gitb.Carousel.AutoPlay.{stop, play, mouse_over, mouse_out}
use gitb.Carousel.Moves.{
  go_to, jump_to, next, prev, css3_finished, css_finished, old_css_finished, prev_animation_end,
  current_animation_end,
}

pub data Event : Type 0 where
  owl_next owl_prev owl_stop : Event
  owl_play : Option ℕ → Event
  owl_go_to owl_jump_to : ℤ → Event
  click_next click_prev : Event
  click_page : ℕ → Event  -- on the button with this index
  mouse_enters mouse_leaves : Event
  timer_ticks : Event  -- of `autoPlayInterval`
  slide_ends : Event  -- the timer of `goTo`
  css_slide_ends old_css_slide_ends : Event  -- the ends of the animations of `css2slide`
  prev_animation_ends current_animation_ends : Event

-- The handler of a click on a button of the pagination.
abbrev pub page_clicked : PageButton → Carousel → Carousel
page_clicked b c = if not (eq_ℤ b.target c.current_item) then go_to b.target page false c else c

unfoldable pub handle : Event → Carousel → Carousel
handle owl_next c = next usual c
handle owl_prev c = prev usual c
handle owl_stop c = record (stop c) { hover_status = stopped }
handle (owl_play speed) c =
    record (play (record c { options = record c.options { auto_play = speed } })) {
      hover_status = playing;
    }
handle (owl_go_to item) c = go_to item usual false c
handle (owl_jump_to item) c = jump_to item c
handle click_next c = next usual c
handle click_prev c = prev usual c
handle (click_page i) c = elim (get_elem? c.page_buttons i) [ none ↦ c | some b ↦ page_clicked b c ]
handle mouse_enters c = mouse_over c
handle mouse_leaves c = mouse_out c
handle timer_ticks c = elim c.auto_play_interval [ none ↦ c | some _ ↦ next page c ]
handle slide_ends c = css3_finished c
handle css_slide_ends c = css_finished c
handle old_css_slide_ends c = old_css_finished c
handle prev_animation_ends c = prev_animation_end c
handle current_animation_ends c = current_animation_end c

unfoldable pub run : List Event → Carousel → Carousel
run [] c = c
run (e ∷ es) c = run es (handle e c)
