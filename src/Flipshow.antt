-- ===== src/Flipshow.antt =====
-- The plugin gitb-ui/app/assets/components/circle-flip-slideshow/js/jquery.flipshow.js: the slides
-- of one element, for which the plugin is called once.

pub mod Images
pub mod Shown
pub mod Cycle
pub mod Plugin
mod Tests
use gitb.Base.{
  ℕ, zero, suc, ◌+◌, ◌-◌, Bool, true, false, ◌&&◌, List, [], ◌∷◌, ◌++◌, ltb, ◌==◌, ℤ, pos, negsuc,
  neg, if◌then◌else◌,
}

pub data Direction : Type 0 where
  left right : Direction

-- What is in the hidden element `$flipEl`, and how it is turned: a list of `rotate3d`, each with
-- the axis's first two coordinates (the third is 0) and the degrees.
pub record FlipElement : Type 0 where
  pub front : ℕ  -- the item that `$frontContent` repeats
  pub back : ℕ
  pub back_transform : List (ℤ × ℤ × ℤ)
  pub transform : List (ℤ × ℤ × ℤ)
  pub is_shown : Bool
  pub listeners : List ℕ  -- the `$nextItem` of each handler of the transition's end

-- The object `$.Flipshow`. `visible` says which of `$items` are shown, `has_nav` whether
-- `_addNav` has been called, and `timers` holds what the timers of `_flip` have captured: the
-- next item and the transform.
pub record Flipshow : Type 0 where
  pub items_count : ℕ
  pub current : ℕ
  pub visible : ℕ → Bool
  pub support : Bool
  pub is_animating : Bool
  pub has_nav : Bool
  pub flip_el : FlipElement
  pub timers : List (ℕ × List (ℤ × ℤ × ℤ))

abbrev pub show : ℕ → (ℕ → Bool) → ℕ → Bool
show i visible j = if i == j then true else visible j

abbrev pub hide : ℕ → (ℕ → Bool) → ℕ → Bool
hide i visible j = if i == j then false else visible j

-- `_layout`
abbrev pub new_flip_element : FlipElement
new_flip_element = record {
  front = 0;
  back = 0;
  back_transform = [];
  transform = [];
  is_shown = false;
  listeners = [];
}

-- `_init`, up to the wait for the images.
abbrev pub init : ℕ → Bool → Flipshow
init count supported = record {
  items_count = count;
  current = 0;
  visible = λ _. false;
  support = supported;
  is_animating = false;
  has_nav = false;
  flip_el = new_flip_element;
  timers = [];
}

-- The function that `_init` gives to `imagesLoaded`.
unfoldable pub images_loaded : Flipshow → Flipshow
images_loaded s =
    let s' = record s { visible = show s.current s.visible } in
    if ltb 0 s.items_count then record s' { has_nav = true } else s'

-- `transformProperties`, by the button of the three that was used.
unfoldable pub transform_properties : Direction → ℕ → List (ℤ × ℤ × ℤ)
transform_properties left zero = (neg 1, pos 1, neg 179) ∷ (neg 1, pos 1, neg 1) ∷ []
transform_properties right zero = (pos 1, pos 1, pos 180) ∷ []
transform_properties left (suc zero) = (pos 0, pos 1, neg 179) ∷ (pos 0, pos 1, neg 1) ∷ []
transform_properties right (suc zero) = (pos 0, pos 1, pos 180) ∷ []
transform_properties left (suc (suc zero)) = (pos 1, pos 1, neg 179) ∷ (pos 1, pos 1, neg 1) ∷ []
transform_properties right (suc (suc zero)) = (neg 1, pos 1, pos 179) ∷ (neg 1, pos 1, pos 1) ∷ []
transform_properties _ _ = []

-- `_flip`, up to the timer.
unfoldable pub flip : ℕ → ℕ → Direction → ℕ → Flipshow → Flipshow
unfolding transform_properties
flip item next dir angle s = record s {
  flip_el = record s.flip_el {
    front = item;
    back = next;
    back_transform = transform_properties dir angle;
    is_shown = true;
  };
  timers = s.timers ++ (next, transform_properties dir angle) ∷ [];
}

-- The function of the timer in `_flip`.
unfoldable pub timer_fires : Flipshow → Flipshow
timer_fires s = elim s.timers [
  | [] ↦ s
  | t ∷ ts ↦ record s {
    timers = ts;
    flip_el = record s.flip_el { transform = t.1; listeners = s.flip_el.listeners ++ t.0 ∷ [] };
  }
]

-- `_ontransitionend`; the empty transform is `none`.
unfoldable pub on_transition_end : ℕ → Flipshow → Flipshow
on_transition_end next s = record s {
  visible = show next s.visible;
  flip_el = record s.flip_el { transform = []; is_shown = false; listeners = [] };
  is_animating = false;
}

-- The handlers that a transition's end has found.
unfoldable pub each_listener : List ℕ → Flipshow → Flipshow
unfolding on_transition_end
each_listener [] s = s
each_listener (next ∷ ns) s = each_listener ns (on_transition_end next s)

-- The end of a transition, of an overlay or of the element itself.
unfoldable pub transition_ends : Bool → Flipshow → Flipshow
unfolding each_listener
transition_ends of_overlay s = if of_overlay then s else each_listener s.flip_el.listeners s

-- How `_navigate` changes `current`.
abbrev pub move : Direction → ℕ → ℕ → ℕ
move right count current = if ltb current (count - 1) then suc current else 0
move left count current = if ltb 0 current then current - 1 else count - 1

unfoldable pub navigate : Direction → ℕ → Flipshow → Flipshow
unfolding flip
navigate dir angle s =
    if s.is_animating && s.support
    then s
    else let next = move dir s.items_count s.current in
      let s' = record s {
        is_animating = true;
        visible = hide s.current s.visible;
        current = next;
      } in
      if s.support
      then flip s.current next dir angle s'
      else record s' { visible = show next (hide s.current s.visible) }

-- What happens to the slides: a click on a button of `_addNav`, a timer, a transition's end.
pub data Event : Type 0 where
  nav_clicked : Direction → ℕ → Event
  timer : Event
  transition_end : Bool → Event

unfoldable pub handle : Event → Flipshow → Flipshow
unfolding navigate timer_fires transition_ends
handle (nav_clicked dir angle) s = if s.has_nav then navigate dir angle s else s
handle timer s = timer_fires s
handle (transition_end of_overlay) s = transition_ends of_overlay s

unfoldable pub run : List Event → Flipshow → Flipshow
unfolding handle
run [] s = s
run (e ∷ es) s = run es (handle e s)
