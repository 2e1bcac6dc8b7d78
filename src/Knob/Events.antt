-- ===== src/Knob/Events.antt =====
-- What reaches a dial of jquery.knob.js from outside.
pub mod Range
pub mod Drag
pub mod Keys
pub mod Wheel
use gitb.Base.{ℕ, List, [], ◌∷◌, ℤ}
use gitb.Knob.State.{Config, Knob}
use gitb.Knob.Value.{configure}
use gitb.Knob.Input.{
  mouse_down, mouse_move, mouse_up, escape, touch_start, touch_move, touch_end, wheel, wheel_stops,
  wheel_releases, key_down, key_is_held, key_up, input_changes,
}

pub data KnobEvent : Type 0 where
  mouse_pressed mouse_moved touch_started touch_moved : ℤ → KnobEvent
  mouse_released escape_released touch_ended : KnobEvent
  wheel_turned : ℤ → ℤ → KnobEvent
  stop_timer_fires release_timer_fires hold_timer_fires : KnobEvent
  key_pressed : ℕ → KnobEvent
  key_released : KnobEvent
  typed : ℤ → KnobEvent  -- the input's value, by the user
  input_changed : KnobEvent
  configured : Config → KnobEvent

unfoldable pub handle_knob : KnobEvent → Knob → Knob
handle_knob (mouse_pressed at) k = mouse_down at k
handle_knob (mouse_moved at) k = mouse_move at k
handle_knob mouse_released k = mouse_up k
handle_knob escape_released k = escape k
handle_knob (touch_started at) k = touch_start at k
handle_knob (touch_moved at) k = touch_move at k
handle_knob touch_ended k = touch_end k
handle_knob (wheel_turned dx dy) k = wheel dx dy k
handle_knob stop_timer_fires k = wheel_stops k
handle_knob release_timer_fires k = wheel_releases k
handle_knob hold_timer_fires k = key_is_held k
handle_knob (key_pressed code) k = key_down code k
handle_knob key_released k = key_up k
handle_knob (typed n) k = record k { text = n }
handle_knob input_changed k = input_changes k
handle_knob (configured o) k = configure o k

unfoldable pub run_knob : List KnobEvent → Knob → Knob
run_knob [] k = k
run_knob (e ∷ es) k = run_knob es (handle_knob e k)
