-- ===== src/Carousel/Controls/Marks.antt =====
-- Which button `checkPagination` of owl.carousel.js marks as active.
use gitb.Base.{
  ℕ, zero, suc, ◌+◌, ◌<◌, ◌≤◌, true, not, some, List, [], ◌∷◌, All, length, ◌==◌, if_true, if_false,
  if_cases, ◌≡◌, refl, sym, ap, ◌∙◌, subst, arith, Bool-cases, inl, inr,
}
use gitb.Carousel.State.{Options, PageButton, Carousel, divides}
use gitb.Carousel.Controls.{
  page_buttons_from, deactivate, activate, current_round, equals, mark_from, check_pagination,
  update_pagination,
}

-- The pages of the buttons are `j`, `j + 1` and so on.
abbrev pub Numbered : ℕ → List PageButton → Type 0
Numbered j [] = Unit
Numbered j (b ∷ bs) = (b.round_page ≡ j) × Numbered (suc j) bs

-- The button is active exactly if it is the one of page `t`.
abbrev pub IsMarked : ℕ → PageButton → Type 0
IsMarked t b = b.active ≡ (b.round_page == t)

page_buttons_from-Numbered :
    (o : Options) (amount n i counter : ℕ)
    → Numbered (suc counter) (page_buttons_from o amount n i counter)
unfolding page_buttons_from
page_buttons_from-Numbered o amount zero i counter = tt
page_buttons_from-Numbered o amount (suc n) i counter = elim (Bool-cases (divides o.items i)) [
  | inl e ↦ rw e (refl, page_buttons_from-Numbered o amount n (suc i) (suc counter))
  | inr e ↦ rw e (page_buttons_from-Numbered o amount n (suc i) counter)
]

deactivate-IsMarked :
    (t j : ℕ) (bs : List PageButton) → t < j → Numbered j bs → All (IsMarked t) (deactivate bs)
deactivate-IsMarked t j [] l n = tt
deactivate-IsMarked t j (b ∷ bs) l n =
    (ground arith, deactivate-IsMarked t (suc j) bs (omega arith) n.1)

activate-IsMarked :
    (t r j : ℕ) (bs : List PageButton)
    → t ≡ j + r
    → Numbered j bs
    → All (IsMarked t) (activate r bs)
activate-IsMarked t r j [] e n = tt
activate-IsMarked t zero j (b ∷ bs) e n =
    (ground arith, deactivate-IsMarked t (suc j) bs (omega arith) n.1)
activate-IsMarked t (suc r) j (b ∷ bs) e n =
    (ground arith, activate-IsMarked t r (suc j) bs (omega arith) n.1)

-- The loop once it is past the page.
mark_after :
    (t i : ℕ) (bs all : List PageButton)
    → t ≤ i
    → Numbered (suc i) bs
    → mark_from (some t) i bs all ≡ all
mark_after t i [] all l n = refl
mark_after t i (b ∷ bs) all l n =
    ap (mark_from (some t) (suc i) bs)
      (if_false (equals (some t) b.round_page) (activate i all) all (ground arith))
    ∙ mark_after t (suc i) bs all (omega arith) n.1

mark_at :
    (r i d : ℕ) (bs all : List PageButton)
    → r ≡ i + d
    → d < length bs
    → Numbered (suc i) bs
    → mark_from (some (suc r)) i bs all ≡ activate r all
mark_at r i d [] all e l n = absurd (omega arith)
mark_at r i zero (b ∷ bs) all e l n =
    ap (mark_from (some (suc r)) (suc i) bs) (
      if_true (equals (some (suc r)) b.round_page) (activate i all) all (ground arith)
      ∙ ap (λ k. activate k all) {x = i} {y = r} (omega arith))
    ∙ mark_after (suc r) (suc i) bs (activate r all) (omega arith) n.1
mark_at r i (suc d) (b ∷ bs) all e l n =
    ap (mark_from (some (suc r)) (suc i) bs)
      (if_false (equals (some (suc r)) b.round_page) (activate i all) all (ground arith))
    ∙ mark_at r (suc i) d bs all (omega arith) (omega arith) n.1

-- If there is a pagination and the current item lies on page `r + 1`, which has a button, then after
-- `updatePagination` the button of that page is active and no other is.
pub update_pagination-IsMarked :
    (c : Carousel) (r : ℕ)
    → c.options.pagination ≡ true
    → current_round c.owl_items c.current_item ≡ some (suc r)
    → r < length (page_buttons_from c.options c.items_amount c.items_amount 0 0)
    → All (IsMarked (suc r)) (update_pagination c).page_buttons
unfolding update_pagination check_pagination
update_pagination-IsMarked c r on e l =
    if_cases Marked (not c.options.pagination) (λ off. absurd (ground arith))
      (λ _.
        if_cases Marked (not c.options.pagination) (λ off. absurd (ground arith))
          (λ _.
            subst (All (IsMarked (suc r))) (sym marks)
              (activate-IsMarked (suc r) r 1 bs (omega arith) numbered)))
  where
    Marked : Carousel → Type 0
    Marked d = All (IsMarked (suc r)) d.page_buttons

    bs : List PageButton
    bs = page_buttons_from c.options c.items_amount c.items_amount 0 0

    numbered : Numbered 1 bs
    numbered = page_buttons_from-Numbered c.options c.items_amount c.items_amount 0 0

    marks : mark_from (current_round c.owl_items c.current_item) 0 bs bs ≡ activate r bs
    marks = ap (λ t. mark_from t 0 bs bs) e ∙ mark_at r 0 r bs bs (omega arith) l numbered
