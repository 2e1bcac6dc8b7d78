-- ===== src/Carousel/Moves.antt =====
-- The moves of owl.carousel.js: goTo, jumpTo, next, prev, afterGo, eachMoveUpdate, swapSpeed,
-- css2slide, singleItemTransition, clearTransStyle, updatePosition, updateVars.
pub mod Frame
pub mod Fixed
pub mod Settled
pub mod Preserved
pub mod Undragged
pub mod Refresh
use gitb.Base.{
  ℕ, Bool, true, false, not, ◌&&◌, ◌||◌, Option, none, some, List, [], ◌∷◌, ◌++◌, ℤ, pos, negsuc,
  sub_ℕ, ◌+ℤ◌, ◌-ℤ◌, ltb_ℤ, leb_ℤ, eq_ℤ, ◌==◌, if◌then◌else◌, drop,
}
use gitb.Carousel.State.{
  Options, Speed, page, rewind, usual, Carousel, before_move, after_move, after_action,
  auto_height_runs, css_speed, slide, emit, get_at,
}
use gitb.Carousel.Layout.{calculate_all}
use gitb.Carousel.Breakpoints.{update_items}
use gitb.Carousel.Controls.{check_pagination, check_navigation, update_controls}
use gitb.Carousel.AutoPlay.{check_ap}
use gitb.Carousel.Lazy.{lazy_load, on_visible_items}

unfoldable pub each_move_update : Carousel → Carousel
each_move_update c =
    let c1 = if c.options.lazy_load then lazy_load c else c in
    let c2 = if c1.options.auto_height then emit auto_height_runs c1 else c1 in
    emit after_action (on_visible_items c2)

-- `prevArr[prevArr.length - 2]`
abbrev pub second_last : List ℤ → Option ℤ
second_last [] = none
second_last (x ∷ []) = none
second_last (x ∷ y ∷ []) = some x
second_last (x ∷ y ∷ z ∷ xs) = second_last (y ∷ z ∷ xs)

-- `prevItem !== currentItem`
abbrev pub differs : Option ℤ → ℤ → Bool
differs none i = true
differs (some j) i = not (eq_ℤ j i)

-- The first three lines of `afterGo`.
abbrev pub remember : Carousel → Carousel
remember c =
    let arr = c.prev_arr ++ c.current_item ∷ [] in
    record c { prev_item = second_last arr; prev_arr = drop 1 arr }

abbrev pub has_auto_play : Options → Bool
has_auto_play o = elim o.auto_play [ none ↦ false | some _ ↦ true ]

-- `if (autoPlay !== false) { checkAp(); }`
unfoldable pub keep_playing : Carousel → Carousel
keep_playing c = if has_auto_play c.options then check_ap c else c

-- What `afterGo` does when the item has changed.
unfoldable pub after_change : Carousel → Carousel
after_change c =
    emit after_move (keep_playing (each_move_update (check_navigation (check_pagination c))))

unfoldable pub after_go : Carousel → Carousel
unfolding after_change
after_go c =
    let c1 = remember c in if differs c1.prev_item c1.current_item then after_change c1 else c1

-- `speed || slideSpeed`, for a duration that is a number.
abbrev pub or_slide_speed : ℕ → Options → ℕ
or_slide_speed speed o = if speed == 0 then o.slide_speed else speed

-- `stop(true, true)` completes an animation that runs, which sets `isCssFinish` again.
abbrev pub css2slide : Option ℤ → ℕ → Carousel → Carousel
css2slide value speed c =
    emit (slide (or_slide_speed speed c.options)) (record c {
      is_css_finish = c.css_slides;
      css_slides = true;
      css_left = value;
      dragged = none;
    })

-- The end of an animation of `left`: the wrapper is where it leads to.
unfoldable pub css_finished : Carousel → Carousel
css_finished c =
    if c.css_slides
    then record c { is_css_finish = true; css_slides = false; dragged = none }
    else c

-- The same of a wrapper that `setVars` has replaced.
unfoldable pub old_css_finished : Carousel → Carousel
old_css_finished c = record c { is_css_finish = true }

-- `swapSpeed(0)` and the display without a slide, as `goTo` and `jumpTo` make it.
abbrev pub place : ℤ → Carousel → Carousel
place position c =
    let c1 = emit (css_speed 0) c in
    let value = get_at c.positions_in_array position in
    if c1.support3d
    then record c1 { css_transform = value; dragged = none }
    else css2slide value 1 c1

abbrev pub speed_of : Speed → Options → ℕ
speed_of page o = o.pagination_speed
speed_of rewind o = o.rewind_speed
speed_of usual o = o.slide_speed

-- The display with a slide, as the second half of `goTo` makes it.
abbrev pub slide_to : ℤ → Speed → Carousel → Carousel
slide_to position speed c =
    let value = get_at c.positions_in_array position in
    if c.support3d
    then record (emit (css_speed (speed_of speed c.options))
        (record c { is_css3_finish = false })) { css_transform = value; dragged = none }
    else css2slide value (speed_of speed c.options) c

-- The timer that `goTo` sets for the end of a slide.
unfoldable pub css3_finished : Carousel → Carousel
css3_finished c = record c { is_css3_finish = true }

abbrev pub single_item_transition : Carousel → Carousel
single_item_transition c = record c { is_transition = true }

unfoldable pub clear_trans_style : Carousel → Carousel
clear_trans_style c =
    if c.end_prev && c.end_current
    then record c { end_prev = false; end_current = false; is_transition = false }
    else c

-- The handlers that `singleItemTransition` sets for the ends of the two animations.
unfoldable pub prev_animation_end : Carousel → Carousel
unfolding clear_trans_style
prev_animation_end c = clear_trans_style (record c { end_prev = true })

unfoldable pub current_animation_end : Carousel → Carousel
unfolding clear_trans_style
current_animation_end c = clear_trans_style (record c { end_current = true })

abbrev pub clamp : ℕ → ℤ → ℤ
clamp maximum position =
    if leb_ℤ (pos maximum) position
    then pos maximum
    else if leb_ℤ position (pos 0)
    then pos 0
    else position

-- Whether `goTo` swaps single items by an animation; `drag` as in `goTo`.
abbrev pub swaps_items : Bool → Carousel → Bool
swaps_items drag c = c.options.transition_style && not drag && c.options.items == 1 && c.support3d

-- `goTo`; `drag` says whether the third argument is "drag".
unfoldable pub go_to : ℤ → Speed → Bool → Carousel → Carousel
go_to position speed drag c =
    if c.is_transition
    then c
    else (let target = clamp c.maximum_item position in
        let c1 = record (emit before_move c) { current_item = target } in
        if swaps_items drag c
        then single_item_transition (after_go (place target c1))
        else after_go (slide_to target speed c1))

unfoldable pub jump_to : ℤ → Carousel → Carousel
jump_to position c =
    let target =
      if leb_ℤ (pos c.maximum_item) position || eq_ℤ position (negsuc 0)
      then pos c.maximum_item
      else if leb_ℤ position (pos 0)
      then pos 0
      else position in
    after_go (record (place target (emit before_move c)) { current_item = target })

-- How far `next` and `prev` go.
abbrev pub stride : Options → ℕ
stride o = if o.scroll_per_page then o.items else 1

-- The largest item that `next` hands to `goTo`.
abbrev pub next_limit : Carousel → ℤ
next_limit c =
    pos c.maximum_item +ℤ (if c.options.scroll_per_page then sub_ℕ c.options.items 1 else pos 0)

unfoldable pub next : Speed → Carousel → Carousel
unfolding ◌+ℤ◌
next speed c =
    let item = c.current_item +ℤ pos (stride c.options) in
    if c.is_transition
    then c
    else if ltb_ℤ (next_limit c) item
    then if c.options.rewind_nav
      then go_to (pos 0) rewind false (record c { current_item = pos 0 })
      else record c { current_item = pos c.maximum_item }
    else go_to item speed false (record c { current_item = item })

-- `prev` within the first page of a carousel that scrolls by pages goes to its start.
abbrev pub prev_target : Carousel → ℤ
prev_target c =
    if c.options.scroll_per_page
      && ltb_ℤ (pos 0) c.current_item
      && ltb_ℤ c.current_item (pos c.options.items)
    then pos 0
    else c.current_item -ℤ pos (stride c.options)

unfoldable pub prev : Speed → Carousel → Carousel
unfolding ◌-ℤ◌
prev speed c =
    let item = prev_target c in
    if c.is_transition
    then c
    else if ltb_ℤ item (pos 0)
    then if c.options.rewind_nav
      then go_to (pos c.maximum_item) rewind false (record c { current_item = pos c.maximum_item })
      else record c { current_item = pos 0 }
    else go_to item speed false (record c { current_item = item })

unfoldable pub update_position : Carousel → Carousel
unfolding keep_playing
update_position c = keep_playing (jump_to c.current_item c)

-- `updateVars` for an element that is visible, at the window's and the element's width.
unfoldable pub update_vars : ℕ → ℕ → Carousel → Carousel
unfolding update_position
update_vars window_width elem_width c =
    each_move_update
      (update_controls (update_position (calculate_all elem_width (update_items window_width c))))
