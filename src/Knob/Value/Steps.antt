-- ===== src/Knob/Value/Steps.antt =====
-- `_validate` of jquery.knob.js rounds to the nearest multiple of the step, as long as the
-- number of steps has 31 bits and a sign.
use gitb.Base.{
  signed, to_int32, mul_mono, ℕ, zero, suc, ◌+◌, ◌*◌, ◌/◌, ◌<◌, ◌≤◌, ℤ, pos, negsuc, neg, neg_parts,
  pos_part, neg_part, scale, scale_parts, ◌+ℤ◌, +ℤ_parts, eq_of_parts, ◌≤ℤ◌, ◌-◌, ltb, if_false,
  ◌≡◌, ap, ◌∙◌, sym, arith,
}
use native.Mathlib.Nat.{
  div-mul-le_self, lt-div-mul-add, div-eq_of_lt-le, div-lt_iff_lt-mul, mod-eq_of_lt,
}
use gitb.Knob.State.{Config}
use gitb.Knob.Value.{validate}

-- The step is positive, and the value is fewer than 2^31 steps from 0 when rounded.
abbrev pub Fits : Config → ℤ → Type 0
Fits o v = (0 < o.step) × (2 * (pos_part v + neg_part v) + o.step < 4294967296 * o.step)

near : ℕ → ℕ → ℕ
near s n = (2 * n + s) / (2 * s)

near_bounds :
    (s n : ℕ) → 0 < s → (near s n * (2 * s) ≤ 2 * n + s) × (2 * n + s < near s n * (2 * s) + 2 * s)
unfolding near
near_bounds s n h = (div-mul-le_self (2 * n + s) (2 * s), lt-div-mul-add (omega arith))

near_small : (s n : ℕ) → 0 < s → 2 * n + s < 4294967296 * s → near s n < 2147483648
unfolding near
near_small s n h f = (div-lt_iff_lt-mul {k = 2 * s} (omega arith)).1 (omega arith)

to_int32-pos : (q : ℕ) → q < 2147483648 → to_int32 (pos q) ≡ pos q
to_int32-pos q h = ground (arith, mod-eq_of_lt {m = 4294967296})

to_int32-neg : (q : ℕ) → q < 2147483648 → to_int32 (neg q) ≡ neg q
to_int32-neg zero h = to_int32-pos zero h
to_int32-neg (suc k) h =
    ap (λ r. signed (4294967295 - r)) (mod-eq_of_lt {n = k} {m = 4294967296} (omega arith))
    ∙ if_false (ltb (4294967295 - k) 2147483648) (pos (4294967295 - k)) _ (ground arith)
    ∙ ap neg {x = 4294967296 - (4294967295 - k)} {y = suc k} (omega arith)

validate-pos :
    (o : Config) (n : ℕ) → Fits o (pos n) → validate o (pos n) ≡ pos (near o.step n * o.step)
unfolding validate near
validate-pos o n f =
    ap (scale o.step) (to_int32-pos (near o.step n) (near_small o.step n f.0 (omega arith)))
    ∙ eq_of_parts _ _ (omega (arith, scale_parts o.step (pos (near o.step n))))

validate-negsuc :
    (o : Config) (n : ℕ)
    → Fits o (negsuc n)
    → validate o (negsuc n) ≡ neg (near o.step (suc n) * o.step)
unfolding validate near
validate-negsuc o n f =
    ap (scale o.step)
      (to_int32-neg (near o.step (suc n)) (near_small o.step (suc n) f.0 (omega arith)))
    ∙ eq_of_parts _ _ (
        ground (
          arith,
          scale_parts o.step (neg (near o.step (suc n))),
          neg_parts (near o.step (suc n)),
          neg_parts (near o.step (suc n) * o.step),
        ))

nearest :
    (s : ℕ) (v w : ℤ)
    → 2 * pos_part w + 2 * neg_part v ≤ 2 * pos_part v + 2 * neg_part w + s
    → 2 * pos_part v + 2 * neg_part w ≤ 2 * pos_part w + 2 * neg_part v + s
    → (scale 2 w ≤ℤ scale 2 v +ℤ pos s) × (scale 2 v ≤ℤ scale 2 w +ℤ pos s)
nearest s v w a b = (
  omega (arith, +ℤ_parts (scale 2 v) (pos s), scale_parts 2 v, scale_parts 2 w),
  omega (arith, +ℤ_parts (scale 2 w) (pos s), scale_parts 2 v, scale_parts 2 w),
)

-- For a positive step, of which the value is so few away from 0 that their number fits in 32 bits
-- (Fits), `_validate` gives a value at most half a step away.
pub validate-near :
    (o : Config) (v : ℤ)
    → Fits o v
    → (scale 2 (validate o v) ≤ℤ scale 2 v +ℤ pos o.step)
      × (scale 2 v ≤ℤ scale 2 (validate o v) +ℤ pos o.step)
validate-near o (pos n) f =
    let a = ap pos_part (validate-pos o n f) in
    let b = ap neg_part (validate-pos o n f) in
    let (lo, hi) = near_bounds o.step n f.0 in
    nearest o.step (pos n) (validate o (pos n)) (omega arith) (omega arith)
validate-near o (negsuc n) f =
    let q = near o.step (suc n) in
    let a = ap pos_part (validate-negsuc o n f) ∙ (neg_parts (q * o.step)).0 in
    let b = ap neg_part (validate-negsuc o n f) ∙ (neg_parts (q * o.step)).1 in
    let (lo, hi) = near_bounds o.step (suc n) f.0 in
    nearest o.step (negsuc n) (validate o (negsuc n)) (omega arith) (omega arith)

near-multiple : (s q : ℕ) → 0 < s → near s (q * s) ≡ q
unfolding near
near-multiple s q h = div-eq_of_lt-le (2 * s) (omega arith) (omega arith)

validate-neg :
    (o : Config) (n : ℕ) → Fits o (neg n) → validate o (neg n) ≡ neg (near o.step n * o.step)
validate-neg o zero f = validate-pos o zero f ∙ ground (arith, near-multiple o.step 0 f.0)
validate-neg o (suc n) f = validate-negsuc o n f

multiple-Fits :
    (o : Config) (q : ℕ) (v : ℤ)
    → 0 < o.step
    → q < 2147483648
    → pos_part v + neg_part v ≡ q * o.step
    → Fits o v
multiple-Fits o q v h l e = (h, omega (arith, mul_mono q 2147483648 o.step l))

-- A multiple of the step is its own nearest multiple.
pub validate-multiple :
    (o : Config) (q : ℕ)
    → 0 < o.step
    → q < 2147483648
    → (validate o (pos (q * o.step)) ≡ pos (q * o.step))
      × (validate o (neg (q * o.step)) ≡ neg (q * o.step))
validate-multiple o q h l = (
  validate-pos o (q * o.step) (multiple-Fits o q (pos (q * o.step)) h l (omega arith))
      ∙ ap (λ m. pos (m * o.step)) (near-multiple o.step q h),
  validate-neg o (q * o.step)
        (multiple-Fits o q (neg (q * o.step)) h l (omega (arith, neg_parts (q * o.step))))
      ∙ ap (λ m. neg (m * o.step)) (near-multiple o.step q h),
)

-- For a positive step, of which the value is so few away from 0 that their number fits in 32 bits
-- (Fits), `_validate` of what it has returned for the value changes nothing.
pub validate-validate : (o : Config) (v : ℤ) → Fits o v → validate o (validate o v) ≡ validate o v
validate-validate o (pos n) f =
    ap (validate o) (validate-pos o n f)
    ∙ (validate-multiple o (near o.step n) f.0 (near_small o.step n f.0 (omega arith))).0
    ∙ sym (validate-pos o n f)
validate-validate o (negsuc n) f =
    ap (validate o) (validate-negsuc o n f)
    ∙ (validate-multiple o (near o.step (suc n)) f.0
        (near_small o.step (suc n) f.0 (omega arith))).1
    ∙ sym (validate-negsuc o n f)
