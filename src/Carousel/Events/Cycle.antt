-- ===== src/Carousel/Events/Cycle.antt =====
-- Going round: `next` and `prev` of owl.carousel.js in a carousel that rewinds, one item at a time.
use gitb.Base.{
  ℕ, zero, suc, ◌+◌, ◌-◌, ◌%◌, ◌≤◌, true, false, [], ◌∷◌, ℤ, pos, ◌+ℤ◌, ◌-ℤ◌, ltb_ℤ, ==→eq, ◌==◌,
  if◌then◌else◌, if_cases, replicate, ◌≡◌, refl, sym, ap, ◌∙◌, arith, Bool-cases, subst, inl, inr,
}
use native.Mathlib.Nat.{mod-eq_of_lt, add-mod_right}
use gitb.Carousel.State.{Speed, usual, rewind, Carousel}
use gitb.Carousel.Moves.{go_to, next, prev, stride, next_limit, prev_target}
use gitb.Carousel.Moves.Fixed.{go_to-IsAt, go_to-Keeps, next-Keeps}
use gitb.Carousel.Events.{owl_next, owl_prev, handle, run}

-- The carousel rewinds, scrolls by items, has no transition style, and is idle at item `n`.
pub record Rounds (n : ℕ) (c : Carousel) : Type 0 where
  pub rewinds : c.options.rewind_nav ≡ true
  pub by_items : c.options.scroll_per_page ≡ false
  pub plain : c.options.transition_style ≡ false
  pub idle : c.is_transition ≡ false
  pub item : c.current_item ≡ pos n
  pub in_range : n ≤ c.maximum_item

go_to-Rounds :
    (n m : ℕ) (p x : ℤ) (speed : Speed) (c : Carousel)
    → Rounds n c
    → p ≡ pos m
    → m ≤ c.maximum_item
    → Rounds m (go_to p speed false (record c { current_item = x }))
go_to-Rounds n m p x speed c r e h = ground (
  arith,
  go_to-IsAt p speed false (record c { current_item = x }) r.idle,
  go_to-Keeps p speed false (record c { current_item = x }),
)

Rounds-at : (n m : ℕ) (c : Carousel) → n ≡ m → Rounds n c → Rounds m c
Rounds-at n m c e r = subst (λ k. Rounds k c) e r

abbrev after : ℕ → ℕ → ℕ
after maximum n = if n == maximum then 0 else suc n

abbrev before : ℕ → ℕ → ℕ
before maximum n = if n == 0 then maximum else n - 1

module _ (n : ℕ) (c : Carousel) (r : Rounds n c) where
  next_is_past :
      ltb_ℤ (next_limit c) (c.current_item +ℤ pos (stride c.options)) ≡ (n == c.maximum_item)
  unfolding ◌+ℤ◌
  next_is_past = ground arith

  next_item : c.current_item +ℤ pos (stride c.options) ≡ pos (suc n)
  unfolding ◌+ℤ◌
  next_item = ground arith

  prev_is_past : ltb_ℤ (prev_target c) (pos 0) ≡ (n == 0)
  unfolding ◌-ℤ◌
  prev_is_past = ground arith

  prev_item : (n == 0) ≡ false → prev_target c ≡ pos (n - 1)
  unfolding ◌-ℤ◌
  prev_item e = ground arith

  next-Rounds : (speed : Speed) → Rounds (after c.maximum_item n) (next speed c)
  unfolding next
  next-Rounds speed =
      if_cases (Rounds (after c.maximum_item n)) c.is_transition (λ e. absurd (ground arith))
        (λ _.
          if_cases (Rounds (after c.maximum_item n))
            (ltb_ℤ (next_limit c) (c.current_item +ℤ pos (stride c.options)))
            (λ past.
              if_cases (Rounds (after c.maximum_item n)) c.options.rewind_nav
                (λ _.
                  go_to-Rounds n _ (pos 0) (pos 0) rewind c r (ground (arith, next_is_past))
                    (ground (arith, next_is_past)))
                (λ e. absurd (ground arith)))
            (λ short.
              go_to-Rounds n _ _ _ speed c r (ground (arith, next_is_past, next_item))
                (ground (arith, next_is_past))))

  prev-Rounds : (speed : Speed) → Rounds (before c.maximum_item n) (prev speed c)
  unfolding prev
  prev-Rounds speed =
      if_cases (Rounds (before c.maximum_item n)) c.is_transition (λ e. absurd (ground arith))
        (λ _.
          if_cases (Rounds (before c.maximum_item n)) (ltb_ℤ (prev_target c) (pos 0))
            (λ past.
              if_cases (Rounds (before c.maximum_item n)) c.options.rewind_nav
                (λ _.
                  go_to-Rounds n _ (pos c.maximum_item) (pos c.maximum_item) rewind c r
                    (ground (arith, prev_is_past)) (ground (arith, prev_is_past)))
                (λ e. absurd (ground arith)))
            (λ short.
              go_to-Rounds n _ _ _ speed c r (ground (arith, prev_is_past, prev_item))
                (ground (arith, prev_is_past))))

-- Going round once more does not change the remainder.
after-mod : (m n k : ℕ) → n ≤ m → (after m n + k) % suc m ≡ (n + suc k) % suc m
after-mod m n k h = elim (Bool-cases (n == m)) [
  | inl e ↦ rw e (
      ap (λ x. x % suc m) (omega arith)
      ∙ sym (add-mod_right k (suc m))
      ∙ ap (λ x. x % suc m) (omega (arith, ==→eq n m e)))
  | inr e ↦ rw e (ap (λ x. x % suc m) (omega arith))
]

run_next-at :
    (k n m : ℕ) (c : Carousel)
    → Rounds n c
    → c.maximum_item ≡ m
    → (run (replicate k owl_next) c).current_item ≡ pos ((n + k) % suc m)
unfolding run handle
run_next-at zero n m c r e =
    r.item
    ∙ ap pos (sym (mod-eq_of_lt (ground (arith, r.in_range))) ∙ ap (λ x. x % suc m) (omega arith))
run_next-at (suc k) n m c r e =
    run_next-at k (after c.maximum_item n) m (next usual c) (next-Rounds n c r usual)
      (ground (arith, next-Keeps usual c))
    ∙ ap pos (rw e (after-mod m n k (ground (arith, r.in_range))))

-- In a carousel that rewinds and scrolls by single items without a transition style, `k` times
-- `next` from item `n` lead to item `(n + k) mod (maximumItem + 1)`.
pub run_next-item :
    (k n : ℕ) (c : Carousel)
    → Rounds n c
    → (run (replicate k owl_next) c).current_item ≡ pos ((n + k) % suc c.maximum_item)
run_next-item k n c r = run_next-at k n c.maximum_item c r refl

before-after : (m n : ℕ) → n ≤ m → before m (after m n) ≡ n
before-after m n h = ground arith

-- In a carousel that rewinds and scrolls by single items without a transition style, `prev` after
-- `next` comes back to the item.
pub run_next_prev-item :
    (n : ℕ) (c : Carousel) → Rounds n c → (run (owl_next ∷ owl_prev ∷ []) c).current_item ≡ pos n
unfolding run handle
run_next_prev-item n c r =
    let r' = next-Rounds n c r usual in
    (prev-Rounds _ (next usual c) r' usual).item
    ∙ ap pos (ground (arith, before-after c.maximum_item n r.in_range, next-Keeps usual c))
