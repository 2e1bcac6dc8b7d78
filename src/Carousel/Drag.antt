-- ===== src/Carousel/Drag.antt =====
-- Dragging in owl.carousel.js: the functions of gestures, getNewPosition, closestItem and
-- moveDirection. The page's coordinates are whole pixels; `newPosX` is then a multiple of a fifth
-- of a pixel, and is kept in fifths.
pub mod Bounds
pub mod End
pub mod Closest
use gitb.Base.{
  ℕ, suc, Bool, true, false, not, ◌&&◌, ◌||◌, Option, none, some, List, [], ◌∷◌, map, ℤ, pos,
  negsuc, ◌+ℤ◌, ◌-ℤ◌, scale, ltb_ℤ, leb_ℤ, eq_ℤ, min_ℤ, max_ℤ, leb, if◌then◌else◌,
}
use gitb.Carousel.State.{usual, Carousel}
use gitb.Carousel.Moves.{go_to, has_auto_play}

pub data Direction : Type 0 where
  left right : Direction

-- The object `locals`, and the fields of the carousel that only dragging uses.
pub record Gesture : Type 0 where
  pub offset_x : ℤ
  pub offset_y : ℤ
  pub relative_pos : ℤ
  pub sliding : Bool
  pub new_pos_x5 : ℤ  -- `newPosX`, in fifths of a pixel
  pub new_relative_x : ℤ
  pub drag_direction : Option Direction
  pub listening : Bool  -- the handlers for the moves and the end are set
  pub touch_moves : Bool  -- and none has been taken off again for touches
  pub grabbing : Bool

-- What an event says: where it is, and whether it comes from the third button.
pub record Point : Type 0 where
  pub x : ℤ
  pub y : ℤ
  pub third_button : Bool

-- The early returns of `dragStart`.
abbrev pub refuses : Point → Carousel → Bool
refuses p c =
    p.third_button
    || leb c.items_amount c.options.items
    || (not c.is_css_finish && not c.options.drag_before_anim_finish)
    || (not c.is_css3_finish && not c.options.drag_before_anim_finish)

-- `dragStart`, with the position of the wrapper.
unfoldable pub drag_start : Point → ℤ → ℤ → Gesture × Carousel → Gesture × Carousel
drag_start p at_left at_top (g, c) = if refuses p c then (g, c) else (
  record g {
    grabbing = g.grabbing || not c.is_touch;
    new_pos_x5 = pos 0;
    new_relative_x = pos 0;
    relative_pos = at_left;
    offset_x = p.x -ℤ at_left;
    offset_y = p.y -ℤ at_top;
    listening = true;
    touch_moves = true;
    sliding = false;
  },
  if has_auto_play c.options then record c { auto_play_interval = none } else c,
)

-- `Math.max(Math.min(newPosX, minSwipe()), maxSwipe())`, in fifths.
abbrev pub swipe : ℤ → ℤ → ℤ → ℤ
swipe maximum_pixels relative position =
    max_ℤ (min_ℤ (scale 5 position) relative) (scale 5 maximum_pixels +ℤ relative)

abbrev pub beyond : ℕ → ℤ → Bool
beyond n d = ltb_ℤ (pos n) d || ltb_ℤ d (pos 0 -ℤ pos n)

-- `dragMove`: it moves the wrapper to `newPosX`, by `transition3d` or `css2move`.
unfoldable pub drag_move : Point → Gesture × Carousel → Gesture × Carousel
drag_move p (g, c) =
    let position = p.x -ℤ g.offset_x in
    let relative = position -ℤ g.relative_pos in
    let slides = beyond 8 relative && c.is_touch || g.sliding in
    (
      record g {
        new_relative_x = relative;
        sliding = slides;
        touch_moves = g.touch_moves && not (beyond 10 (p.y -ℤ g.offset_y) && not slides);
        new_pos_x5 = swipe c.maximum_pixels relative position;
      },
      record c { dragged = some (swipe c.maximum_pixels relative position) },
    )

-- `moveDirection`
abbrev pub move_direction : ℤ → Direction
move_direction relative = if ltb_ℤ relative (pos 0) then right else left

abbrev pub is_right : Direction → Bool
is_right right = true
is_right left = false

-- Comparisons with a value that may be undefined fail then.
abbrev pub above : ℤ → Option ℤ → Bool
above a none = false
above a (some v) = ltb_ℤ (scale 20 v) a

abbrev pub under : ℤ → Option ℤ → Bool
under a none = false
under a (some v) = ltb_ℤ a (scale 20 v)

-- `a || b`
abbrev pub or_else : Option ℤ → Option ℤ → Option ℤ
or_else none b = b
or_else (some a) b = if eq_ℤ a (pos 0) then b else some a

abbrev pub minus : Option ℤ → ℕ → Option ℤ
minus none w = none
minus (some a) w = some (a -ℤ pos w)

-- `$.inArray(value, array)`
abbrev pub index_from : ℕ → ℤ → List ℤ → ℤ
index_from i v [] = negsuc 0
index_from i v (x ∷ xs) = let rest = index_from (suc i) v xs in if eq_ℤ x v then pos i else rest

abbrev pub in_array : Option ℤ → List ℤ → ℤ
in_array none xs = negsuc 0
in_array (some v) xs = index_from 0 v xs

abbrev pub first : List (Option ℤ) → Option ℤ
first [] = none
first (x ∷ xs) = x

abbrev pub last : List (Option ℤ) → Option ℤ
last [] = none
last (x ∷ []) = x
last (x ∷ y ∷ ys) = last (y ∷ ys)

-- What the loop of `closestItem` reads besides its variables: `goal` is newPosX in twentieths.
pub record Search : Type 0 where
  pub goal : ℤ
  pub width : ℕ
  pub direction : Direction
  pub scroll : Bool
  pub positions : List ℤ
  pub array : List (Option ℤ)

-- One round, at index `i` with the value `v` and the next value of the array.
abbrev pub closest_step : Search → ℕ → Option ℤ → Option ℤ → ℤ → ℤ
closest_step s i v next current =
    if above (s.goal -ℤ pos s.width) next
      && under (s.goal -ℤ pos s.width) v
      && not (is_right s.direction)
    then if s.scroll then in_array v s.positions else pos i
    else if under (s.goal +ℤ pos s.width) v
        && above (s.goal +ℤ pos s.width) (or_else next (minus v s.width))
        && is_right s.direction
    then if s.scroll then in_array (or_else next (last s.array)) s.positions else pos (suc i)
    else current

unfoldable pub closest_from : Search → ℕ → List (Option ℤ) → ℤ → ℤ
closest_from s i [] current = current
closest_from s i (v ∷ vs) current =
    closest_from s (suc i) vs (closest_step s i v (first vs) current)

-- `closestItem`, as the current item that it leaves and returns.
unfoldable pub closest_item : Gesture → Carousel → ℤ
unfolding closest_from
closest_item g c = closest_from s 0 s.array c.current_item
  where
    s : Search
    s = record {
      goal = scale 4 g.new_pos_x5;
      width = c.item_width;
      direction = move_direction g.new_relative_x;
      scroll = c.options.scroll_per_page;
      positions = c.positions_in_array;
      array = if c.options.scroll_per_page then c.pages_in_array else map some c.positions_in_array;
    }

-- `getNewPosition`, likewise.
unfoldable pub get_new_position : Gesture → Carousel → ℤ
unfolding closest_item
get_new_position g c =
    let item = closest_item g c in
    if ltb_ℤ (pos c.maximum_item) item
    then pos c.maximum_item
    else if leb_ℤ (pos 0) g.new_pos_x5
    then pos 0
    else item

-- `dragEnd`
unfoldable pub drag_end : Gesture × Carousel → Gesture × Carousel
drag_end (g, c) =
    let g' = record g {
      grabbing = g.grabbing && c.is_touch;
      drag_direction = some (if ltb_ℤ g.new_relative_x (pos 0) then left else right);
      listening = false;
    } in
    let item = get_new_position g c in
    if eq_ℤ g.new_relative_x (pos 0)
    then (g', c)
    else (g', go_to item usual true (record c { current_item = item }))
