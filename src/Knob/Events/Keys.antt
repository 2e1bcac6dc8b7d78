-- ===== src/Knob/Events/Keys.antt =====
-- A held arrow key on a dial of jquery.knob.js goes faster and faster.
use gitb.Base.{
  ℕ, zero, suc, ◌+◌, ◌*◌, ◌-◌, List, [], ◌∷◌, ℤ, pos, scale, scale_parts, ◌+ℤ◌, +ℤ_parts,
  eq_of_parts, true, false, ◌≡◌, ◌∙◌, ap, arith,
}
use Prim.Native.Nat.{◌^◌}
use native.Mathlib.Nat.{pow-succ'}
use gitb.Knob.State.{Knob}
use gitb.Knob.Input.{key_down, key_is_held}
use gitb.Knob.Events.{KnobEvent, key_pressed, hold_timer_fires, handle_knob, run_knob}

-- The key with the code 38 (an arrow up) comes `n` times, each time after its timer.
abbrev pub hold_up : ℕ → List KnobEvent
hold_up zero = []
hold_up (suc n) = key_pressed 38 ∷ hold_timer_fires ∷ hold_up n

-- No stopper limits the value, and the dial reads the keys; the next arrow counts `m` of the steps
-- that the arrows have.
pub record Runs (m : ℕ) (step : ℕ) (k : Knob) : Type 0 where
  pub free : k.o.stopper ≡ false
  pub listens : k.listens ≡ true
  pub multiplier : k.m ≡ m
  pub idle : k.doublings ≡ 0
  pub steps : k.kv_step ≡ step

-- One arrow and its timer.
press : Knob → Knob
press k = key_is_held (key_down 38 k)

press-Runs : (m step : ℕ) (k : Knob) → Runs m step k → Runs (m * 2) step (press k)
unfolding press key_is_held key_down
press-Runs m step k r = record {
  free = ground arith;
  listens = ground arith;
  multiplier = ground arith;
  idle = ground arith;
  steps = ground arith;
}

press_text : (m step : ℕ) (k : Knob) → Runs m step k → (press k).text ≡ k.text +ℤ scale m (pos step)
unfolding press key_is_held key_down
press_text m step k r = ground arith

-- How many steps `n` arrows go, the first of which counts `m`.
growth : ℕ → ℕ → ℕ
growth m zero = 0
growth m (suc n) = m + growth (m * 2) n

growth-pow : (m n : ℕ) → growth m n + m ≡ m * 2 ^ n
unfolding growth
growth-pow m zero = omega arith
growth-pow m (suc n) = omega (arith, growth-pow (m * 2) n, ap (λ x. m * x) (pow-succ' 2 n))

hold_step :
    (m g step : ℕ) (text : ℤ)
    → (text +ℤ scale m (pos step)) +ℤ pos (g * step) ≡ text +ℤ pos ((m + g) * step)
hold_step m g step text = eq_of_parts _ _ (
    omega (
      arith,
      +ℤ_parts (text +ℤ scale m (pos step)) (pos (g * step)),
      +ℤ_parts text (scale m (pos step)),
      +ℤ_parts text (pos ((m + g) * step)),
      scale_parts m (pos step),
    ))

add_zero : (text : ℤ) (x : ℕ) → x ≡ 0 → text ≡ text +ℤ pos x
add_zero text x h = eq_of_parts text _ (omega (arith, +ℤ_parts text (pos x)))

run_hold :
    (n m step : ℕ) (k : Knob)
    → Runs m step k
    → (run_knob (hold_up n) k).text ≡ k.text +ℤ pos (growth m n * step)
unfolding run_knob handle_knob growth key_is_held press
run_hold zero m step k r = add_zero k.text (0 * step) (omega arith)
run_hold (suc n) m step k r =
    run_hold n (m * 2) step (press k) (press-Runs m step k r)
    ∙ ap (λ t. t +ℤ pos (growth (m * 2) n * step)) (press_text m step k r)
    ∙ hold_step m (growth (m * 2) n) step k.text

-- Without a stopper, on a dial that reads the keys and on which no arrow is held: if the arrow up
-- comes `n` times and the timer of each fires before the next comes, then the input has gone up by
-- 2^n - 1 of the steps that the arrows have, which are those of the options when the dial was made.
pub run_hold_up :
    (n step : ℕ) (k : Knob)
    → Runs 1 step k
    → (run_knob (hold_up n) k).text ≡ k.text +ℤ pos ((2 ^ n - 1) * step)
run_hold_up n step k r =
    run_hold n 1 step k r
    ∙ ap (λ g. k.text +ℤ pos (g * step)) {x = growth 1 n} {y = 2 ^ n - 1}
        (omega (arith, growth-pow 1 n))
