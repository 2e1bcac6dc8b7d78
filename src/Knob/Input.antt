-- ===== src/Knob/Input.antt =====
-- The handlers of jquery.knob.js: those of _mouse and _touch, and those that listen sets for the
-- wheel and the keys. Where the pointer is on the dial, as xy2val computes it before it
-- applies the stopper, is given from outside.
use gitb.Base.{
  ℕ, ◌+◌, ◌*◌, ◌-◌, Bool, true, false, not, ◌&&◌, ◌||◌, Option, none, some, [], ◌∷◌, ◌++◌, ℤ, pos,
  neg, scale, ◌+ℤ◌, leb, ltb_ℤ, eq_ℤ, ◌==◌, if◌then◌else◌,
}
use gitb.Knob.State.{Knob}
use gitb.Knob.Value.{validate, limit, stop_at, val, change, cancel}

-- `mouseMove` and `touchMove`, which do the same.
unfoldable pub pointer_moves : ℤ → Knob → Knob
pointer_moves at k =
    let v = stop_at k.o at in
    if eq_ℤ v k.cv || not (k.o.change v) then k else change (validate k.o v) k

-- `_mouse`, and the handlers that it sets.
unfoldable pub mouse_down : ℤ → Knob → Knob
unfolding pointer_moves
mouse_down at k = if not k.listens then k else record (pointer_moves at k) { mouse_bound = true }

unfoldable pub mouse_move : ℤ → Knob → Knob
unfolding pointer_moves
mouse_move at k = if k.mouse_bound then pointer_moves at k else k

unfoldable pub mouse_up : Knob → Knob
unfolding val
mouse_up k = if k.mouse_bound then val k.cv true (record k { mouse_bound = false }) else k

-- The key with the code 27 during `_mouse`.
unfoldable pub escape : Knob → Knob
unfolding cancel
escape k =
    if not k.mouse_bound
    then k
    else if not k.o.cancel
    then record k { mouse_bound = false }
    else cancel (record k { mouse_bound = false })

-- `_touch`, and the handlers that it sets.
unfoldable pub touch_start : ℤ → Knob → Knob
unfolding pointer_moves
touch_start at k = if not k.listens then k else record (pointer_moves at k) { touch_bound = true }

unfoldable pub touch_move : ℤ → Knob → Knob
unfolding pointer_moves
touch_move at k = if k.touch_bound then pointer_moves at k else k

unfoldable pub touch_end : Knob → Knob
unfolding val
touch_end k = if k.touch_bound then val k.cv true (record k { touch_bound = false }) else k

-- What a turn of the wheel by these distances adds.
abbrev pub wheel_step : ℕ → ℤ → ℤ → ℤ
wheel_step step delta_x delta_y =
    if ltb_ℤ (pos 0) delta_x || ltb_ℤ (pos 0) delta_y
    then pos step
    else if ltb_ℤ delta_x (pos 0) || ltb_ℤ delta_y (pos 0)
    then neg step
    else pos 0

-- The value that a turn of the wheel leads to.
unfoldable pub wheel_value : ℤ → ℤ → Knob → ℤ
unfolding ◌+ℤ◌ validate
wheel_value delta_x delta_y k =
    limit k.o (validate k.o k.text +ℤ wheel_step k.o.step delta_x delta_y)

abbrev pub start_timers : ℤ → Knob → Knob
start_timers v k = if not k.o.has_release then k else record k {
  mw_timer_stop = some v;
  mw_timer_release = elim k.mw_timer_release [ none ↦ some v | some w ↦ some w ];
}

-- `mw`
unfoldable pub wheel : ℤ → ℤ → Knob → Knob
unfolding val
wheel delta_x delta_y k =
    let v = wheel_value delta_x delta_y k in
    if not k.listens then k else start_timers v (val v false k)

-- The timer of `mwTimerStop`.
unfoldable pub wheel_stops : Knob → Knob
wheel_stops k = elim k.mw_timer_stop [
  | none ↦ k
  | some v ↦ record k { released = k.released ++ v ∷ []; mw_timer_stop = none }
]

-- The timer of `mwTimerRelease`.
unfoldable pub wheel_releases : Knob → Knob
wheel_releases k = elim k.mw_timer_release [
  | none ↦ k
  | some v ↦ elim k.mw_timer_stop [
    | none ↦ record k { mw_timer_release = none }
    | some w ↦ record k { released = k.released ++ v ∷ []; mw_timer_release = none }
  ]
]

-- The numbers of the numeric block are those of the other digits.
abbrev pub digit_code : ℕ → ℕ
digit_code kc = if leb 96 kc && leb kc 105 then kc - 48 else kc

-- Whether `parseInt(String.fromCharCode(kc))` is a number.
abbrev pub is_digit : ℕ → Bool
is_digit kc = leb 48 kc && leb kc 57

-- `kv`, where there is an entry, made of the step at the time of `listen`.
abbrev pub arrow_step : ℕ → ℕ → Option ℤ
arrow_step step kc =
    if kc == 37 || kc == 40
    then some (neg step)
    else if kc == 38 || kc == 39
    then some (pos step)
    else none

abbrev pub arrow_pressed : Option ℤ → Knob → Knob
arrow_pressed none k = k
arrow_pressed (some d) k = record (change (stop_at k.o (k.text +ℤ scale k.m d)) k) {
  to = true;
  doublings = k.doublings + 1;
}

-- The handler of keydown.
unfoldable pub key_down : ℕ → Knob → Knob
unfolding ◌+ℤ◌ scale
key_down code k =
    let kc = digit_code code in
    if not k.listens
    then k
    else if is_digit kc
    then record k { kval_is_nan = false }
    else arrow_pressed (arrow_step k.kv_step kc) (record k { kval_is_nan = true })

-- The timer of a held arrow.
unfoldable pub key_is_held : Knob → Knob
key_is_held k =
    if k.doublings == 0 then k else record k { m = k.m * 2; doublings = k.doublings - 1 }

-- The handler of keyup. The timer with the number `to` is the last that fires.
unfoldable pub key_up : Knob → Knob
unfolding val
key_up k =
    if not k.listens
    then k
    else if k.kval_is_nan
    then if k.to
      then val k.text true (record k { to = false; doublings = k.doublings - 1; m = 1 })
      else k
    else if ltb_ℤ k.o.max k.text
    then record k { text = k.o.max }
    else if ltb_ℤ k.text k.o.min
    then record k { text = k.o.min }
    else k

-- The handlers of change and blur on the input.
unfoldable pub input_changes : Knob → Knob
unfolding val validate
input_changes k = val (validate k.o k.text) true k
