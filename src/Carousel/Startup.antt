-- ===== src/Carousel/Startup.antt =====
-- How a carousel of owl.carousel.js starts: setVars, onStartup and eventTypes; and how its items
-- are changed, by addItem and removeItem, which end in setVars again.
pub mod Settled
pub mod Items
pub mod Busy
use gitb.Base.{
  ℕ, zero, suc, true, false, not, ◌&&◌, ◌||◌, Option, none, some, List, [], ◌∷◌, ◌++◌, ℤ, pos,
  negsuc, eq_ℤ, leb_ℤ, length, if◌then◌else◌, ◌-◌, ltb,
}
use Prim.Native.String.{String}
use gitb.Carousel.State.{Options, Item, untouched, Carousel}
use gitb.Carousel.Layout.{calculate_all}
use gitb.Carousel.Breakpoints.{update_items}
use gitb.Carousel.Controls.{build_controls, update_controls}
use gitb.Carousel.AutoPlay.{stop_on_hover, play}
use gitb.Carousel.Moves.{each_move_update}

-- The widths that the page tells the carousel.
pub record Widths : Type 0 where
  pub window : ℕ
  pub element : ℕ

-- `moveEvents`, with what `gestures` does to the object.
unfoldable pub move_events : Carousel → Carousel
move_events c =
    if c.options.mouse_drag || c.options.touch_drag then record c { is_css_finish = true } else c

-- `onStartup`, for an element that is visible.
unfoldable pub on_startup : Widths → Carousel → Carousel
on_startup w c = each_move_update (
    play (
      stop_on_hover (
        move_events
          (update_controls (build_controls (calculate_all w.element (update_items w.window c)))))))

-- `wrapItems`: every child gets a new element `.owl-item`, with none of the data of an old one.
abbrev pub wrap_items : List Item → List Item
wrap_items [] = []
wrap_items (x ∷ xs) =
    record x { round_pages = 0; load_state = untouched; visible = false } ∷ wrap_items xs

-- `setVars` on the children of the element, which become the items of a new wrapper.
unfoldable pub set_vars : Widths → List Item → Carousel → Carousel
unfolding on_startup
set_vars w [] c = c
set_vars w (x ∷ xs) c = on_startup w (record c {
  items_amount = length (x ∷ xs);
  owl_items = wrap_items (x ∷ xs);
  css_transform = some (pos 0);
  dragged = none;
  css_slides = false;
  prev_item = some (pos 0);
  prev_arr = pos 0 ∷ [];
  current_item = pos 0;
})

-- `ev_types`: the names of the events that start, continue and end a drag.
unfoldable pub event_types : Options → String × String × String
event_types o =
    if o.mouse_drag && o.touch_drag
    then (
      "touchstart.owl mousedown.owl", "touchmove.owl mousemove.owl",
      "touchend.owl touchcancel.owl mouseup.owl",
    )
    else if not o.mouse_drag && o.touch_drag
    then ("touchstart.owl", "touchmove.owl", "touchend.owl touchcancel.owl")
    else if o.mouse_drag && not o.touch_drag
    then ("mousedown.owl", "mousemove.owl", "mouseup.owl")
    else ("s", "e", "x")

-- `targetPosition === undefined || targetPosition === -1` becomes -1.
abbrev pub position_of : Option ℤ → ℤ
position_of none = negsuc 0
position_of (some p) = p

module _ {ℓ} {A : Type ℓ} where
  -- `items.eq(n).before(x)`, which does nothing where there is no such item.
  abbrev pub insert_before : ℕ → A → List A → List A
  insert_before n x [] = []
  insert_before zero x (y ∷ ys) = x ∷ y ∷ ys
  insert_before (suc n) x (y ∷ ys) = y ∷ insert_before n x ys

  -- `items.eq(n).remove()`
  abbrev pub erase_idx : ℕ → List A → List A
  erase_idx n [] = []
  erase_idx zero (y ∷ ys) = ys
  erase_idx (suc n) (y ∷ ys) = y ∷ erase_idx n ys

  -- `eq` counts a negative index from the end: the index from the start, if there is one.
  abbrev pub eq_index : List A → ℤ → Option ℕ
  eq_index xs (pos n) = some n
  eq_index xs (negsuc n) = if ltb n (length xs) then some (length xs - suc n) else none

  abbrev pub before_index : Option ℕ → A → List A → List A
  before_index none x xs = xs
  before_index (some n) x xs = insert_before n x xs

  abbrev pub without_index : Option ℕ → List A → List A
  without_index none xs = xs
  without_index (some n) xs = erase_idx n xs

  -- The children after `addItem` has placed the new one among them.
  unfoldable pub placed : A → ℤ → List A → List A
  placed x position xs =
      if leb_ℤ (pos (length xs)) position || eq_ℤ position (negsuc 0)
      then xs ++ x ∷ []
      else before_index (eq_index xs position) x xs

  -- The children after `removeItem`.
  unfoldable pub removed : ℤ → List A → List A
  removed position xs = without_index (eq_index xs position) xs

-- `addItem` with these children: an element with no children takes the item as its only one.
abbrev pub add_to : Widths → Item → Option ℤ → Carousel → List Item → Carousel
add_to w x target c [] = set_vars w (x ∷ []) c
add_to w x target c (y ∷ ys) = set_vars w (placed x (position_of target) (y ∷ ys)) c

-- `addItem` of an item.
unfoldable pub add_item : Widths → Item → Option ℤ → Carousel → Carousel
unfolding placed set_vars
add_item w x target c = add_to w x target c c.owl_items

-- `removeItem` with these children. When the last item goes, `setVars` finds no children, and
-- leaves the rest of the object as it was.
abbrev pub remove_from : Widths → Option ℤ → Carousel → List Item → Carousel
remove_from w target c [] = c
remove_from w target c (y ∷ ys) =
    let rest = removed (position_of target) (y ∷ ys) in
    set_vars w rest (record c { owl_items = rest })

unfoldable pub remove_item : Widths → Option ℤ → Carousel → Carousel
unfolding removed set_vars
remove_item w target c = remove_from w target c c.owl_items
