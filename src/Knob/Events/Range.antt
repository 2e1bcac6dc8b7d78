-- ===== src/Knob/Events/Range.antt =====
-- Whatever happens to a dial of jquery.knob.js, its value stays in its range.
use gitb.Base.{
  ℤ, List, [], ◌∷◌, All, true, false, not, ◌||◌, eq_ℤ, ltb_ℤ, ◌-◌, ◌≡◌, refl, arith, if_cases, ℕ,
}
use gitb.Knob.State.{Knob}
use gitb.Knob.Value.{stop_at, validate, val}
use gitb.Knob.Value.Range.{HasStopper, InRange, val-InRange, cancel-InRange, configure-InRange}
use gitb.Knob.Input.{
  pointer_moves, mouse_down, mouse_move, mouse_up, escape, touch_start, touch_move, touch_end,
  wheel, wheel_value, start_timers, wheel_stops, wheel_releases, key_down, key_is_held, key_up,
  input_changes,
}
use gitb.Knob.Events.{
  KnobEvent, mouse_pressed, mouse_moved, touch_started, touch_moved, mouse_released,
  escape_released, touch_ended, wheel_turned, stop_timer_fires, release_timer_fires,
  hold_timer_fires, key_pressed, key_released, typed, input_changed, configured, handle_knob,
  run_knob,
}

-- The options and the value are the same.
pub record Holds (k d : Knob) : Type 0 where
  pub options : d.o ≡ k.o
  pub value : d.v ≡ k.v

pub Holds-InRange : (k d : Knob) → InRange k → Holds k d → InRange d
Holds-InRange k d r h = record {
  stops = rw h.options r.stops;
  above = ground (arith, r.above);
  below = ground (arith, r.below);
}

pub pointer_moves-Holds : (at : ℤ) (k : Knob) → Holds k (pointer_moves at k)
unfolding pointer_moves
pointer_moves-Holds at k =
    if_cases (Holds k) (eq_ℤ (stop_at k.o at) k.cv || not (k.o.change (stop_at k.o at)))
      (λ _. record { options = refl; value = refl }) (λ _. record { options = refl; value = refl })

pub mouse_down-Holds : (at : ℤ) (k : Knob) → Holds k (mouse_down at k)
unfolding mouse_down
mouse_down-Holds at k =
    if_cases (Holds k) (not k.listens) (λ _. record { options = refl; value = refl })
      (λ _. let h = pointer_moves-Holds at k in record { options = h.options; value = h.value })

pub mouse_move-Holds : (at : ℤ) (k : Knob) → Holds k (mouse_move at k)
unfolding mouse_move
mouse_move-Holds at k =
    if_cases (Holds k) k.mouse_bound (λ _. pointer_moves-Holds at k)
      (λ _. record { options = refl; value = refl })

touch_start-Holds : (at : ℤ) (k : Knob) → Holds k (touch_start at k)
unfolding touch_start
touch_start-Holds at k =
    if_cases (Holds k) (not k.listens) (λ _. record { options = refl; value = refl })
      (λ _. let h = pointer_moves-Holds at k in record { options = h.options; value = h.value })

touch_move-Holds : (at : ℤ) (k : Knob) → Holds k (touch_move at k)
unfolding touch_move
touch_move-Holds at k =
    if_cases (Holds k) k.touch_bound (λ _. pointer_moves-Holds at k)
      (λ _. record { options = refl; value = refl })

start_timers-Holds : (v : ℤ) (k : Knob) → Holds k (start_timers v k)
start_timers-Holds v k = record { options = ground arith; value = ground arith }

wheel_stops-Holds : (k : Knob) → Holds k (wheel_stops k)
unfolding wheel_stops
wheel_stops-Holds k = record { options = ground arith; value = ground arith }

wheel_releases-Holds : (k : Knob) → Holds k (wheel_releases k)
unfolding wheel_releases
wheel_releases-Holds k = record { options = ground arith; value = ground arith }

key_is_held-Holds : (k : Knob) → Holds k (key_is_held k)
unfolding key_is_held
key_is_held-Holds k = record { options = ground arith; value = ground arith }

key_down-Holds : (code : ℕ) (k : Knob) → Holds k (key_down code k)
unfolding key_down
key_down-Holds code k = record { options = ground arith; value = ground arith }

module _ (k : Knob) (r : InRange k) where
  unbound_mouse : InRange (record k { mouse_bound = false })
  unbound_mouse = record { stops = r.stops; above = r.above; below = r.below }

  mouse_up-InRange : InRange (mouse_up k)
  unfolding mouse_up
  mouse_up-InRange =
      if_cases InRange k.mouse_bound (λ _. val-InRange k.cv true _ unbound_mouse) (λ _. r)

  touch_end-InRange : InRange (touch_end k)
  unfolding touch_end
  touch_end-InRange =
      if_cases InRange k.touch_bound
        (λ _.
          val-InRange k.cv true (record k { touch_bound = false })
            (record { stops = r.stops; above = r.above; below = r.below }))
        (λ _. r)

  escape-InRange : InRange (escape k)
  unfolding escape
  escape-InRange =
      if_cases InRange (not k.mouse_bound) (λ _. r)
        (λ _.
          if_cases InRange (not k.o.cancel) (λ _. unbound_mouse)
            (λ _. cancel-InRange (record k { mouse_bound = false }) unbound_mouse))

  input_changes-InRange : InRange (input_changes k)
  unfolding input_changes
  input_changes-InRange = val-InRange (validate k.o k.text) true k r

  turned-InRange : (v : ℤ) → InRange (start_timers v (val v false k))
  turned-InRange v =
      Holds-InRange (val v false k) _ (val-InRange v false k r)
        (start_timers-Holds v (val v false k))

  wheel-InRange : (dx dy : ℤ) → InRange (wheel dx dy k)
  unfolding wheel
  wheel-InRange dx dy =
      if_cases InRange (not k.listens) (λ _. r) (λ _. turned-InRange (wheel_value dx dy k))

  with_text : (text : ℤ) → InRange (record k { text = text })
  with_text text = record { stops = r.stops; above = r.above; below = r.below }

  key_up-InRange : InRange (key_up k)
  unfolding key_up
  key_up-InRange =
      if_cases InRange (not k.listens) (λ _. r)
        (λ _.
          if_cases InRange k.kval_is_nan
            (λ _.
              if_cases InRange k.to
                (λ _.
                  val-InRange k.text true
                    (record k { to = false; doublings = k.doublings - 1; m = 1 })
                    (record { stops = r.stops; above = r.above; below = r.below }))
                (λ _. r))
            (λ _.
              if_cases InRange (ltb_ℤ k.o.max k.text) (λ _. with_text k.o.max)
                (λ _. if_cases InRange (ltb_ℤ k.text k.o.min) (λ _. with_text k.o.min) (λ _. r))))

-- Options with which a dial may be configured.
abbrev pub Allows : KnobEvent → Type 0
Allows (configured o) = HasStopper o
Allows _ = Unit

handle_knob-InRange : (e : KnobEvent) (k : Knob) → Allows e → InRange k → InRange (handle_knob e k)
unfolding handle_knob
handle_knob-InRange (mouse_pressed at) k a r = Holds-InRange k _ r (mouse_down-Holds at k)
handle_knob-InRange (mouse_moved at) k a r = Holds-InRange k _ r (mouse_move-Holds at k)
handle_knob-InRange mouse_released k a r = mouse_up-InRange k r
handle_knob-InRange escape_released k a r = escape-InRange k r
handle_knob-InRange (touch_started at) k a r = Holds-InRange k _ r (touch_start-Holds at k)
handle_knob-InRange (touch_moved at) k a r = Holds-InRange k _ r (touch_move-Holds at k)
handle_knob-InRange touch_ended k a r = touch_end-InRange k r
handle_knob-InRange (wheel_turned dx dy) k a r = wheel-InRange k r dx dy
handle_knob-InRange stop_timer_fires k a r = Holds-InRange k _ r (wheel_stops-Holds k)
handle_knob-InRange release_timer_fires k a r = Holds-InRange k _ r (wheel_releases-Holds k)
handle_knob-InRange hold_timer_fires k a r = Holds-InRange k _ r (key_is_held-Holds k)
handle_knob-InRange (key_pressed code) k a r = Holds-InRange k _ r (key_down-Holds code k)
handle_knob-InRange key_released k a r = key_up-InRange k r
handle_knob-InRange (typed n) k a r = with_text k r n
handle_knob-InRange input_changed k a r = input_changes-InRange k r
handle_knob-InRange (configured o) k a r = configure-InRange o k a

-- If the stopper is on and `min` is not above `max`, in the options of the dial and in all with
-- which it is configured again, then the value is between `min` and `max` after any events, if it
-- was before.
pub run_knob-InRange :
    (es : List KnobEvent) (k : Knob) → All Allows es → InRange k → InRange (run_knob es k)
unfolding run_knob
run_knob-InRange [] k a r = r
run_knob-InRange (e ∷ es) k a r = run_knob-InRange es _ a.1 (handle_knob-InRange e k a.0 r)
