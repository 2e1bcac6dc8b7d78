-- ===== src/Carousel/AutoPlay.antt =====
-- The automatic moves of owl.carousel.js: stop, checkAp, play and the handlers of stopOnHover.
-- A timer of `setInterval` is its period; its ticks call `next(true)`, in Moves.
use gitb.Base.{Bool, true, false, not, ◌&&◌, none, some, if◌then◌else◌}
use gitb.Carousel.State.{ApStatus, playing, stopped, Carousel}

unfoldable pub stop : Carousel → Carousel
stop c = record c { ap_status = stopped; auto_play_interval = none }

unfoldable pub play : Carousel → Carousel
play c = elim c.options.auto_play [
  | none ↦ record c { ap_status = playing }
  | some period ↦ record c { ap_status = playing; auto_play_interval = some period }
]

unfoldable pub check_ap : Carousel → Carousel
unfolding play
check_ap c = elim c.ap_status [ stopped ↦ c | _ ↦ play c ]

-- Whether `stopOnHover` sets its two handlers, when the carousel starts.
unfoldable pub stop_on_hover : Carousel → Carousel
stop_on_hover c = record c {
  has_hover_handlers =
      c.options.stop_on_hover
      && not c.is_touch
      && elim c.options.auto_play [ none ↦ false | some _ ↦ true ];
}

unfoldable pub mouse_over : Carousel → Carousel
unfolding stop
mouse_over c = if c.has_hover_handlers then stop c else c

unfoldable pub mouse_out : Carousel → Carousel
unfolding play
mouse_out c = if c.has_hover_handlers && may_play c.hover_status then play c else c
  where
    may_play : ApStatus → Bool
    may_play stopped = false
    may_play _ = true
