-- ===== src/Carousel/Layout/Buttons.antt =====
-- The buttons of the pagination of owl.carousel.js lead to the pages that they stand for.
use gitb.Base.{
  ℕ, zero, suc, ◌+◌, ◌-◌, ◌%◌, ◌<◌, ◌≤◌, true, not, Option, some, List, [], ◌∷◌, pos, sub_ℕ, ◌==◌,
  length, All, ◌≡◌, ap, ◌∙◌, inl, inr, arith, Bool-cases, if_cases, subst,
}
use gitb.Carousel.State.{Options, Item, PageButton, Carousel, divides}
use gitb.Carousel.Layout.{append_rounds, append_items_sizes}
use gitb.Carousel.Layout.Pages.{
  pages_below, pages_below-suc, rounds_before, rounds_before_zero, current_round-append, last_page,
  inner_page,
}
use gitb.Carousel.Controls.{
  current_round, page_button, page_buttons_from, activate, deactivate, mark_from, check_pagination,
  equals, update_pagination,
}

-- The item that the button leads to lies on the page with the button's number.
abbrev pub LeadsHome : List Item → PageButton → Type 0
LeadsHome items b = current_round items b.target ≡ some b.round_page

module _ (items : List Item) where
  deactivate-All :
      (bs : List PageButton) → All (LeadsHome items) bs → All (LeadsHome items) (deactivate bs)
  deactivate-All [] h = tt
  deactivate-All (b ∷ bs) h = (h.0, deactivate-All bs h.1)

  activate-All :
      (i : ℕ) (bs : List PageButton)
      → All (LeadsHome items) bs
      → All (LeadsHome items) (activate i bs)
  activate-All zero [] h = tt
  activate-All (suc i) [] h = tt
  activate-All zero (b ∷ bs) h = (h.0, deactivate-All bs h.1)
  activate-All (suc i) (b ∷ bs) h = (h.0, activate-All i bs h.1)

  mark_from-All :
      (round : Option ℕ) (i : ℕ) (bs all : List PageButton)
      → All (LeadsHome items) all
      → All (LeadsHome items) (mark_from round i bs all)
  mark_from-All round i [] all h = h
  mark_from-All round i (b ∷ bs) all h = mark_from-All round (suc i) bs _ (
      if_cases (All (LeadsHome items)) (equals round b.round_page) (λ _. activate-All i all h)
        (λ _. h))

sub_ℕ-pos : (a b : ℕ) → b ≤ a → sub_ℕ a b ≡ pos (a - b)
sub_ℕ-pos a b h = ground arith

module _ (o : Options) (amount : ℕ) (items : List Item) (h : 0 < o.items) (fits : o.items ≤ amount)
    (rounds : (j : ℕ)
      → j < amount
      → current_round items (pos j) ≡ some (rounds_before o.items (amount - o.items) (suc j))) where
  page_button-LeadsHome :
      (i : ℕ)
      → i < amount
      → divides o.items i ≡ true
      → LeadsHome items (page_button o amount i (suc (pages_below o.items i)))
  page_button-LeadsHome i l d =
      let k = o.items in
      if_cases (λ t. current_round items t ≡ some (suc (pages_below k i)))
        (amount - amount % k == i)
        (λ e.
          ap (current_round items) (sub_ℕ-pos amount k fits)
          ∙ rounds (amount - k) (omega arith)
          ∙ ap some (last_page k amount i h fits l d e))
        (λ e. rounds i l ∙ ap some (inner_page k amount i h fits l d e))

  page_buttons-LeadHome :
      (n i : ℕ)
      → i + n ≡ amount
      → All (LeadsHome items) (page_buttons_from o amount n i (pages_below o.items i))
  unfolding page_buttons_from
  page_buttons-LeadHome zero i e = tt
  page_buttons-LeadHome (suc n) i e =
      let step = pages_below-suc o.items i h in
      let rest = page_buttons-LeadHome n (suc i) (omega arith) in
      elim (Bool-cases (divides o.items i)) [
        | inl d ↦ rw d (
          page_button-LeadsHome i (omega arith) d,
          subst (λ t. All (LeadsHome items) (page_buttons_from o amount n (suc i) t)) (rw d at step)
              rest,
        )
        | inr d ↦ rw d (
            subst (λ t. All (LeadsHome items) (page_buttons_from o amount n (suc i) t))
              (rw d at step) rest)
      ]

pub record PagesAgree (c : Carousel) : Type 0 where
  pub leads : All (LeadsHome c.owl_items) c.page_buttons

pub check_pagination-PagesAgree : (c : Carousel) → PagesAgree c → PagesAgree (check_pagination c)
unfolding check_pagination
check_pagination-PagesAgree c a =
    if_cases PagesAgree (not c.options.pagination) (λ _. a)
      (λ _. record { leads = mark_from-All c.owl_items _ 0 c.page_buttons c.page_buttons a.leads })

counted :
    (k last : ℕ) (items : List Item)
    → 0 < k
    → (j : ℕ) → j < length items
    → current_round (append_rounds k (pos last) 0 0 items) (pos j)
      ≡ some (rounds_before k last (suc j))
counted k last items h j l =
    subst
      (λ r.
        current_round (append_rounds k (pos last) 0 r items) (pos j)
        ≡ some (rounds_before k last (suc j)))
      (rounds_before_zero k last h).0
      (current_round-append k last 0 j items h l
        ∙ ap (λ n. some (rounds_before k last (suc n))) (omega arith))

module _ (c : Carousel) (h : 0 < c.options.items) (fits : c.options.items ≤ c.items_amount)
    (len : length c.owl_items ≡ c.items_amount) where
  abbrev amount : ℕ
  amount = c.items_amount

  counted_items :
      (j : ℕ)
      → j < amount
      → current_round (append_items_sizes c).owl_items (pos j)
        ≡ some (rounds_before c.options.items (amount - c.options.items) (suc j))
  unfolding append_items_sizes
  counted_items j l =
      ap (λ last. current_round (append_rounds c.options.items last 0 0 c.owl_items) (pos j))
        (sub_ℕ-pos amount c.options.items fits)
      ∙ counted c.options.items (amount - c.options.items) c.owl_items h j (omega arith)

  buttons_lead :
      All
        (LeadsHome (append_items_sizes c).owl_items)
        (page_buttons_from c.options amount amount 0 0)
  buttons_lead =
      subst
        (λ t.
          All (LeadsHome (append_items_sizes c).owl_items)
            (page_buttons_from c.options amount amount 0 t))
        (rounds_before_zero c.options.items 0 h).1
        (page_buttons-LeadHome c.options amount (append_items_sizes c).owl_items h fits
          counted_items amount 0 (omega arith))

  -- Where at least one item is shown, no more than there are, and there is a pagination: after the
  -- pages have been counted and the buttons made, every button leads to an item whose page count
  -- is the number of the button, the last button included.
  pub update_pagination-PagesAgree :
      c.options.pagination ≡ true → PagesAgree (update_pagination (append_items_sizes c))
  unfolding update_pagination append_items_sizes
  update_pagination-PagesAgree on =
      let d = append_items_sizes c in
      if_cases PagesAgree (not d.options.pagination) (λ e. absurd (ground arith))
        (λ _.
          check_pagination-PagesAgree
            (record d { page_buttons = page_buttons_from c.options amount amount 0 0 })
            (record { leads = buttons_lead }))
