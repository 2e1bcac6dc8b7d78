-- ===== src/Knob/Tests.antt =====
-- Runs of jquery.knob.js on concrete dials.
use gitb.Base.{
  ◌*◌, ◌-◌, true, false, not, ◌&&◌, [], ◌∷◌, ◌++◌, pos, neg, negsuc, scale, ◌+ℤ◌, ◌≤ℤ◌, eq_ℤ,
  if◌then◌else◌, ◌≡◌, refl, arith,
}
use Prim.Native.Nat.{◌^◌}
use gitb.Knob.State.{Config, Knob}
use gitb.Knob.Value.{validate, stop_at, fresh}
use gitb.Knob.Value.Steps.{validate-near, validate-validate}
use gitb.Knob.Value.Range.{HasStopper, InRange}
use gitb.Knob.Input.{mouse_up, escape}
use gitb.Knob.Events.{run_knob, key_pressed, typed, input_changed, configured}
use gitb.Knob.Events.Range.{run_knob-InRange}
use gitb.Knob.Events.Drag.{turned, escape_restores, release_commits}
use gitb.Knob.Events.Keys.{Runs, hold_up, run_hold_up}
use gitb.Knob.Events.Wheel.{Shows, wheel_up, wheel_down, wheel_down-wheel_up}

abbrev percent : Config
percent = record {
  min = pos 0;
  max = pos 100;
  step = 5;
  stopper = true;
  read_only = false;
  change = λ v. true;
  cancel = true;
  has_release = true;
  release = λ v. true;
}

abbrev dial : Knob
dial = fresh percent (pos 40)

abbrev free_dial : Knob
free_dial = fresh (record percent { stopper = false }) (pos 40)

percent-HasStopper : HasStopper percent
percent-HasStopper = record { stopper = refl; ordered = omega arith }

dial-InRange : InRange dial
dial-InRange = record { stops = percent-HasStopper; above = omega arith; below = omega arith }

free_dial-Runs : Runs 1 5 free_dial
free_dial-Runs = record {
  free = refl;
  listens = refl;
  multiplier = refl;
  idle = refl;
  steps = refl;
}

dial-Shows : Shows percent 8 dial
dial-Shows = record {
  options = refl;
  listens = refl;
  steps = omega arith;
  small = omega arith;
  text = refl;
}

run_knob-InRange_example :
    InRange
      (run_knob (typed (pos 700) ∷ input_changed ∷ key_pressed 38 ∷ configured percent ∷ []) dial)
run_knob-InRange_example =
    run_knob-InRange (typed (pos 700) ∷ input_changed ∷ key_pressed 38 ∷ configured percent ∷ [])
      dial (tt, (tt, (tt, (percent-HasStopper, tt)))) dial-InRange

escape_restores_example :
    let d = escape (turned (pos 77) (pos 3 ∷ neg 9 ∷ []) dial) in
    (d.v ≡ pos 40) × (d.cv ≡ pos 40) × (d.text ≡ pos 40) × (d.released ≡ [])
escape_restores_example = escape_restores (pos 77) (pos 3 ∷ neg 9 ∷ []) dial dial-InRange refl refl

release_commits_example :
    let m = turned (pos 77) [] dial in
    let d = mouse_up m in
    (m.v ≡ dial.v)
    × (d.v ≡ stop_at percent m.cv)
    × (d.cv ≡ stop_at percent m.cv)
    × (d.text ≡ stop_at percent m.cv)
    × (d.released ≡ (
        if not (eq_ℤ m.cv dial.v) && percent.has_release
        then dial.released ++ m.cv ∷ []
        else dial.released))
release_commits_example = release_commits (pos 77) [] dial refl refl

validate-near_example :
    (scale 2 (validate percent (negsuc 12)) ≤ℤ scale 2 (negsuc 12) +ℤ pos 5)
    × (scale 2 (negsuc 12) ≤ℤ scale 2 (validate percent (negsuc 12)) +ℤ pos 5)
validate-near_example = validate-near percent (negsuc 12) (omega arith, omega arith)

validate-validate_example : validate percent (validate percent (pos 13)) ≡ validate percent (pos 13)
validate-validate_example = validate-validate percent (pos 13) (omega arith, omega arith)

run_hold_up_example : (run_knob (hold_up 4) free_dial).text ≡ pos 40 +ℤ pos ((2 ^ 4 - 1) * 5)
run_hold_up_example = run_hold_up 4 5 free_dial free_dial-Runs

wheel_down-wheel_up_example :
    let d = wheel_down (wheel_up dial) in
    (d.v ≡ pos 40) × (d.cv ≡ pos 40) × (d.text ≡ pos 40) × (d.released ≡ [])
wheel_down-wheel_up_example =
    wheel_down-wheel_up percent 8 dial dial-Shows (omega arith) (omega arith) (omega arith)
