-- ===== src/Knob/Events/Wheel.antt =====
-- The wheel on a dial of jquery.knob.js.
use gitb.Base.{
  ℕ, suc, ◌*◌, ◌<◌, ℤ, pos, neg, negsuc, neg_parts, ◌+ℤ◌, +ℤ_parts, eq_of_parts, ◌≤ℤ◌, true, ◌≡◌,
  refl, ◌∙◌, ap, ap₂, arith, if_cases,
}
use gitb.Knob.State.{Config, Knob}
use gitb.Knob.Value.{validate, limit, stop_at, val}
use gitb.Knob.Value.Steps.{validate-multiple}
use gitb.Knob.Input.{wheel_value, wheel_step, wheel}

-- A dial with the options `o` reads the wheel, and `q` steps, a number of 31 bits, stand in the
-- input.
pub record Shows (o : Config) (q : ℕ) (k : Knob) : Type 0 where
  pub options : k.o ≡ o
  pub listens : k.listens ≡ true
  pub steps : 0 < o.step
  pub small : q < 2147483648
  pub text : k.text ≡ pos (q * o.step)

limit_id : (o : Config) (v : ℤ) → o.min ≤ℤ v → v ≤ℤ o.max → limit o v ≡ v
limit_id o v lo hi = ground (arith, eq_of_parts o.max v)

-- What a turn of the wheel leaves.
wheel_facts :
    (dx dy v : ℤ) (k : Knob)
    → k.listens ≡ true
    → wheel_value dx dy k ≡ v
    → let d = wheel dx dy k in
      (d.o ≡ k.o)
      × (d.listens ≡ true)
      × (d.text ≡ stop_at k.o v)
      × (d.v ≡ stop_at k.o v)
      × (d.cv ≡ stop_at k.o v)
      × (d.released ≡ k.released)
unfolding wheel val
wheel_facts dx dy v k l e = ground (arith, l, e)

abbrev pub wheel_up : Knob → Knob
wheel_up k = wheel (pos 0) (pos 120) k

abbrev pub wheel_down : Knob → Knob
wheel_down k = wheel (pos 0) (negsuc 119) k

module _ (o : Config) (q : ℕ) (k : Knob) (s : Shows o q k) (dx dy : ℤ) (n : ℕ)
    (turns : pos (q * o.step) +ℤ wheel_step o.step dx dy ≡ pos (n * o.step))
    (above : o.min ≤ℤ pos (n * o.step)) (below : pos (n * o.step) ≤ℤ o.max) where
  value_after : wheel_value dx dy k ≡ pos (n * o.step)
  unfolding wheel_value
  value_after =
      ap₂ (λ p t. limit p (validate p t +ℤ wheel_step p.step dx dy)) s.options s.text
      ∙ ap (λ t. limit o (t +ℤ wheel_step o.step dx dy)) (validate-multiple o q s.steps s.small).0
      ∙ ap (limit o) turns
      ∙ limit_id o (pos (n * o.step)) above below

  stopped_after : stop_at k.o (pos (n * o.step)) ≡ pos (n * o.step)
  stopped_after =
      ap (λ p. stop_at p (pos (n * o.step))) s.options
      ∙ if_cases (λ v. v ≡ pos (n * o.step)) o.stopper
          (λ _. limit_id o (pos (n * o.step)) above below) (λ _. refl)

  pub turn-Shows : n < 2147483648 → Shows o n (wheel dx dy k)
  turn-Shows l =
      let facts = wheel_facts dx dy (pos (n * o.step)) k s.listens value_after in
      record {
        options = facts.0 ∙ s.options;
        listens = facts.1;
        steps = s.steps;
        small = l;
        text = facts.2 ∙ stopped_after;
      }

  pub turn_value :
      ((wheel dx dy k).v ≡ pos (n * o.step))
      × ((wheel dx dy k).cv ≡ pos (n * o.step))
      × ((wheel dx dy k).text ≡ pos (n * o.step))
      × ((wheel dx dy k).released ≡ k.released)
  turn_value =
      let facts = wheel_facts dx dy (pos (n * o.step)) k s.listens value_after in
      (facts.3 ∙ stopped_after, facts.4 ∙ stopped_after, facts.2 ∙ stopped_after, facts.5)

step_up : (o : Config) (q : ℕ) → pos (q * o.step) +ℤ pos o.step ≡ pos (suc q * o.step)
step_up o q = eq_of_parts _ _ (omega (arith, +ℤ_parts (pos (q * o.step)) (pos o.step)))

step_down : (o : Config) (q : ℕ) → pos (suc q * o.step) +ℤ neg o.step ≡ pos (q * o.step)
step_down o q =
    eq_of_parts _ _ (omega (arith, +ℤ_parts (pos (suc q * o.step)) (neg o.step), neg_parts o.step))

-- On a dial that reads the wheel and in whose input a whole number of steps stands, a turn of the
-- wheel up and one down lead back to that number, in the value, the value shown and the
-- input, without a call of the hook for the release, if the number and the next one are in the
-- range and have 31 bits.
pub wheel_down-wheel_up :
    (o : Config) (q : ℕ) (k : Knob)
    → Shows o q k
    → suc q < 2147483648
    → o.min ≤ℤ pos (q * o.step)
    → pos (suc q * o.step) ≤ℤ o.max
    → let d = wheel_down (wheel_up k) in
      (d.v ≡ pos (q * o.step))
      × (d.cv ≡ pos (q * o.step))
      × (d.text ≡ pos (q * o.step))
      × (d.released ≡ k.released)
wheel_down-wheel_up o q k s l above below =
    let higher = turn-Shows o q k s (pos 0) (pos 120) (suc q) (step_up o q) (omega arith) below l in
    let first = turn_value o q k s (pos 0) (pos 120) (suc q) (step_up o q) (omega arith) below in
    let (v, cv, text, calls) =
      turn_value o (suc q) (wheel_up k) higher (pos 0) (negsuc 119) q (step_down o q) above
        (omega arith) in
    (v, cv, text, calls ∙ first.3)
