-- ===== src/Carousel/Layout/Pages.antt =====
-- The pages of owl.carousel.js: appendItemsSizes counts them over the items, and updatePagination
-- makes a button for each.
use gitb.Base.{
  mul_mono, ℕ, zero, suc, ◌+◌, ◌*◌, ◌-◌, ◌/◌, ◌%◌, ◌<◌, ◌≤◌, true, false, some, List, [], ◌∷◌, pos,
  leb, ◌==◌, if◌then◌else◌, length, ==→eq, ◌≡◌, ◌⊎◌, ◌≢◌, sym, ap, ◌∙◌, inl, inr, arith, Bool-cases,
}
use native.Mathlib.Decide.{dec_lt}
use native.Mathlib.Nat.{div-eq_of_lt-le, div-add-mod', mod-lt}
use gitb.Carousel.Layout.{next_round, append_rounds}
use gitb.Carousel.Controls.{current_round}
use gitb.Carousel.State.{Item, divides}

-- How many multiples of `k` are below `i`, that is i / k rounded up.
pub pages_below : ℕ → ℕ → ℕ
pages_below k i = (i + (k - 1)) / k

pages_below-mul : (k a : ℕ) → 0 < k → pages_below k (a * k) ≡ a
unfolding pages_below
pages_below-mul k a h = div-eq_of_lt-le k (omega arith) (omega arith)

pages_below-add : (k a r : ℕ) → 0 < k → 0 < r → r ≤ k → pages_below k (a * k + r) ≡ suc a
unfolding pages_below
pages_below-add k a r h p q = div-eq_of_lt-le k (omega arith) (omega arith)

-- A number is a multiple, or lies between two.
Multiple-cases :
    (k i : ℕ)
    → 0 < k
    → ((a : ℕ) × (i ≡ a * k) × (divides k i ≡ true))
      ⊎ ((a : ℕ) × (r : ℕ) × (i ≡ a * k + r) × (0 < r) × (r < k) × (divides k i ≡ false))
Multiple-cases zero i h = elim h [ ]
Multiple-cases (suc k) i h =
    let e = div-add-mod' i (suc k) in
    elim (Bool-cases (i % suc k == 0)) [
      | inl z ↦ inl (i / suc k, ground (arith, e), z)
      | inr z ↦
          inr (i / suc k, i % suc k, sym e, ground arith, mod-lt i {m = suc k} (omega arith), z)
    ]

pub pages_below-suc :
    (k i : ℕ)
    → 0 < k
    → pages_below k (suc i) ≡ (if divides k i then suc (pages_below k i) else pages_below k i)
pages_below-suc k i h = elim (Multiple-cases k i h) [
  | inl (a, e, d) ↦
      rw (d, e)
        (ap (pages_below k) (omega arith)
          ∙ pages_below-add k a 1 h (omega arith) h
          ∙ ap suc (sym (pages_below-mul k a h)))
  | inr (a, r, e, p, q, d) ↦
      rw (d, e)
        (ap (pages_below k) (omega arith)
          ∙ pages_below-add k a (suc r) h (omega arith) q
          ∙ sym (pages_below-add k a r h p (omega arith)))
]

-- The page count before item `i`, where `last` is the last item that a page may start with.
pub rounds_before : ℕ → ℕ → ℕ → ℕ
rounds_before k last i = if leb i last then pages_below k i else suc (pages_below k last)

next_round-rounds_before :
    (k last i : ℕ)
    → 0 < k
    → next_round k (pos last) i (rounds_before k last i) ≡ rounds_before k last (suc i)
unfolding rounds_before
next_round-rounds_before k last i h = ground (arith, pages_below-suc k i h)

pub current_round-append :
    (k last i j : ℕ) (xs : List Item)
    → 0 < k
    → j < length xs
    → current_round (append_rounds k (pos last) i (rounds_before k last i) xs) (pos j)
      ≡ some (rounds_before k last (suc (i + j)))
unfolding append_rounds
current_round-append k last i j [] h l = elim l [ ]
current_round-append k last i zero (x ∷ xs) h l =
    ap some
      (next_round-rounds_before k last i h ∙ ap (λ n. rounds_before k last (suc n)) (omega arith))
current_round-append k last i (suc j) (x ∷ xs) h l = rw (next_round-rounds_before k last i h) (
    current_round-append k last (suc i) j xs h (omega arith)
    ∙ ap (λ n. some (rounds_before k last (suc n))) (omega arith))

last_pages-eq :
    (k b r amount i : ℕ)
    → 0 < k
    → k ≤ amount
    → amount ≡ b * k + r
    → i ≡ b * k
    → 0 < r
    → r < k
    → pages_below k (amount - k) ≡ pages_below k i
last_pages-eq k zero r amount i h f e d p q = absurd (omega arith)
last_pages-eq k (suc b) r amount i h f e d p q =
    ap (pages_below k) (omega arith)
    ∙ pages_below-add k b r h p (omega arith)
    ∙ sym (ap (pages_below k) d ∙ pages_below-mul k (suc b) h)

-- A multiple below b * k + r that is not b * k is at least k below.
multiple_gap : (a b r k : ℕ) → r < k → a * k < b * k + r → a * k ≢ b * k → a * k + k ≤ b * k
multiple_gap a b r k h l n = elim (dec_lt a b) [
  | yes p ↦ mul_mono a b k p
  | no p ↦ elim (dec_lt b a) [
    | yes q ↦ absurd (omega (arith, mul_mono b a k q))
    | no q ↦ let e : a ≡ b = omega arith in absurd (n (ap (λ t. t * k) e))
  ]
]

-- The button made at a multiple `i` of `k` leads to an item whose page has the button's number.
module _ (k amount i : ℕ) (h : 0 < k) (fits : k ≤ amount) (below : i < amount)
    (start : divides k i ≡ true) where
  pub last_page :
      (amount - amount % k == i) ≡ true
      → rounds_before k (amount - k) (suc (amount - k)) ≡ suc (pages_below k i)
  unfolding rounds_before
  last_page e =
      let d = div-add-mod' amount k in
      let i_eq : i ≡ amount / k * k = omega (arith, ==→eq _ _ e, d) in
      ground (
        arith,
        last_pages-eq k (amount / k) (amount % k) amount i h fits (sym d) i_eq (omega (arith, d))
            (mod-lt amount {m = k} h),
      )

  inner_gap : (amount - amount % k == i) ≡ false → i + k ≤ amount
  inner_gap e = elim (Multiple-cases k i h) [
    | inl (a, p, _) ↦
        let d = div-add-mod' amount k in
        omega (
          arith,
          multiple_gap a (amount / k) (amount % k) k (mod-lt amount {m = k} h) (omega (arith, d))
              (λ q. absurd (ground (arith, d, q))),
        )
    | inr (a, r, p, _, _, n) ↦ absurd (ground arith)
  ]

  pub inner_page :
      (amount - amount % k == i) ≡ false
      → rounds_before k (amount - k) (suc i) ≡ suc (pages_below k i)
  unfolding rounds_before
  inner_page e = ground (arith, inner_gap e, pages_below-suc k i h)

pages_below_zero : (k : ℕ) → 0 < k → pages_below k 0 ≡ 0
pages_below_zero k h = ap (pages_below k) {y = 0 * k} (omega arith) ∙ pages_below-mul k 0 h

pub rounds_before_zero : (k last : ℕ) → 0 < k → (rounds_before k last 0 ≡ 0) × (pages_below k 0 ≡ 0)
unfolding rounds_before
rounds_before_zero k last h = ground (arith, pages_below_zero k h)
