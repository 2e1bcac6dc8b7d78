-- ===== src/Carousel/Breakpoints/Custom.antt =====
-- The choice among the entries of `itemsCustom` in owl.carousel.js, which are in any order.
use gitb.Base.{
  ℕ, ◌<◌, ◌≤◌, true, false, some, List, [], ◌∷◌, All, Has, Has-map, leb, ltb, if◌then◌else◌, ◌≡◌,
  refl, sym, ◌⊎◌, inl, inr, arith, if_cases,
}
use gitb.Carousel.State.{Carousel}
use gitb.Carousel.Breakpoints.{
  insert_by_width, sort_by_width, last_within, desktop_width, update_items,
}

abbrev pub Entry : Type 0
Entry = ℕ × ℕ

abbrev Sorted : List Entry → Type 0
Sorted [] = Unit {0}
Sorted (x ∷ xs) = All (λ (y : Entry). x.0 ≤ y.0) xs × Sorted xs

module _ (P : Entry → Type 0) where
  All-insert : (e : Entry) (xs : List Entry) → P e → All P xs → All P (insert_by_width e xs)
  All-insert e [] p h = (p, tt)
  All-insert e (x ∷ xs) p h =
      if_cases (All P) (leb e.0 x.0) (λ _. (p, h)) (λ _. (h.0, All-insert e xs p h.1))

  pub All-sort : (xs : List Entry) → All P xs → All P (sort_by_width xs)
  All-sort [] h = tt
  All-sort (x ∷ xs) h = All-insert x (sort_by_width xs) h.0 (All-sort xs h.1)

  All-of_insert : (e : Entry) (xs : List Entry) → All P (insert_by_width e xs) → P e × All P xs
  All-of_insert e [] h = h
  All-of_insert e (x ∷ xs) h =
      if_cases (λ l. All P l → P e × All P (x ∷ xs)) (leb e.0 x.0) (λ _ g. (g.0, g.1))
        (λ _ g. let (p, t) = All-of_insert e xs g.1 in (p, (g.0, t))) h

  All-of_sort : (xs : List Entry) → All P (sort_by_width xs) → All P xs
  All-of_sort [] h = tt
  All-of_sort (x ∷ xs) h =
      let (p, t) = All-of_insert x (sort_by_width xs) h in (p, All-of_sort xs t)

  Has-of_insert : (e : Entry) (xs : List Entry) → Has P (insert_by_width e xs) → P e ⊎ Has P xs
  Has-of_insert e [] h = h
  Has-of_insert e (x ∷ xs) h =
      if_cases (λ l. Has P l → P e ⊎ Has P (x ∷ xs)) (leb e.0 x.0) (λ _ g. g)
        (λ _ g. elim g [
          | inl p ↦ inr (inl p)
          | inr t ↦ elim (Has-of_insert e xs t) [ inl p ↦ inl p | inr q ↦ inr (inr q) ]
        ])
        h

  Has-of_sort : (xs : List Entry) → Has P (sort_by_width xs) → Has P xs
  Has-of_sort [] h = h
  Has-of_sort (x ∷ xs) h = elim (Has-of_insert x (sort_by_width xs) h) [
    | inl p ↦ inl p
    | inr t ↦ inr (Has-of_sort xs t)
  ]

All-weaken :
    (m n : ℕ) (xs : List Entry)
    → m ≤ n
    → All (λ (y : Entry). n ≤ y.0) xs
    → All (λ (y : Entry). m ≤ y.0) xs
All-weaken m n [] h a = tt
All-weaken m n (x ∷ xs) h a = (omega arith, All-weaken m n xs h a.1)

insert-Sorted : (e : Entry) (xs : List Entry) → Sorted xs → Sorted (insert_by_width e xs)
insert-Sorted e [] s = (tt, tt)
insert-Sorted e (x ∷ xs) s =
    if_cases Sorted (leb e.0 x.0)
      (λ b. ((ground arith, All-weaken e.0 x.0 xs (ground arith) s.0), s))
      (λ b. (All-insert (λ (y : Entry). x.0 ≤ y.0) e xs (ground arith) s.0, insert-Sorted e xs s.1))

sort-Sorted : (xs : List Entry) → Sorted (sort_by_width xs)
sort-Sorted [] = tt
sort-Sorted (x ∷ xs) = insert-Sorted x (sort_by_width xs) (sort-Sorted xs)

-- `e` offers `n` items, and no entry for a window of this width has a larger width.
abbrev pub IsBest : ℕ → ℕ → List Entry → Entry → Type 0
IsBest width n xs e = (e.1 ≡ n) × (e.0 ≤ width) × All (λ (y : Entry). y.0 ≤ width → y.0 ≤ e.0) xs

-- No entry is for a window of this width, or `n` is what the best one offers.
abbrev pub Chosen : ℕ → ℕ → ℕ → List Entry → Type 0
Chosen width items n xs =
    All (λ (y : Entry). width < y.0) xs × (n ≡ items) ⊎ Has (IsBest width n xs) xs

IsBest-cons :
    (width n : ℕ) (x : Entry) (all xs : List Entry)
    → All (λ (y : Entry). x.0 ≤ y.0) xs
    → Has (IsBest width n all) xs
    → Has (IsBest width n (x ∷ all)) xs
IsBest-cons width n x all [] g h = h
IsBest-cons width n x all (y ∷ ys) g h = elim h [
  | inl b ↦ inl (b.0, b.1, (λ _. g.0, b.2))
  | inr t ↦ inr (IsBest-cons width n x all ys g.1 t)
]

none_within :
    (width m : ℕ) (xs : List Entry)
    → All (λ (y : Entry). width < y.0) xs
    → All (λ (y : Entry). y.0 ≤ width → y.0 ≤ m) xs
none_within width m [] h = tt
none_within width m (x ∷ xs) h = (λ e. absurd (omega arith), none_within width m xs h.1)

module _ (width items n : ℕ) (x : Entry) (xs : List Entry)
    (above_x : All (λ (y : Entry). x.0 ≤ y.0) xs) where
  within_first : leb x.0 width ≡ true → Chosen width x.1 n xs → Chosen width items n (x ∷ xs)
  within_first b c = elim c [
    | inl (above, e) ↦
        inr (inl (sym e, ground arith, (λ _. omega arith, none_within width x.0 xs above)))
    | inr h ↦ inr (inr (IsBest-cons width n x xs xs above_x h))
  ]

  beyond_first : leb x.0 width ≡ false → Chosen width items n xs → Chosen width items n (x ∷ xs)
  beyond_first b c = elim c [
    | inl (above, e) ↦ inl ((ground arith, above), e)
    | inr h ↦ inr (inr (IsBest-cons width n x xs xs above_x h))
  ]

  Chosen-cons :
      Chosen width (if leb x.0 width then x.1 else items) n xs → Chosen width items n (x ∷ xs)
  Chosen-cons =
      if_cases (λ i. Chosen width i n xs → Chosen width items n (x ∷ xs)) (leb x.0 width)
        within_first beyond_first

last_within-Chosen :
    (width items : ℕ) (xs : List Entry)
    → Sorted xs
    → Chosen width items (last_within width xs items) xs
last_within-Chosen width items [] s = inl (tt, refl)
last_within-Chosen width items (x ∷ xs) s =
    Chosen-cons width items _ x xs s.0
      (last_within-Chosen width (if leb x.0 width then x.1 else items) xs s.1)

IsBest-of_sort :
    (width n : ℕ) (xs : List Entry) (e : Entry)
    → IsBest width n (sort_by_width xs) e
    → IsBest width n xs e
IsBest-of_sort width n xs e (offers, fits, largest) =
    (offers, fits, All-of_sort (λ (y : Entry). y.0 ≤ width → y.0 ≤ e.0) xs largest)

Chosen-of_sort :
    (width items n : ℕ) (xs : List Entry)
    → Chosen width items n (sort_by_width xs)
    → Chosen width items n xs
Chosen-of_sort width items n xs c = elim c [
  | inl (above, e) ↦ inl (All-of_sort (λ (y : Entry). width < y.0) xs above, e)
  | inr h ↦ inr (
      Has-of_sort (IsBest width n xs) xs (
        Has-map (IsBest width n (sort_by_width xs)) (IsBest width n xs) (sort_by_width xs)
          (IsBest-of_sort width n xs) h))
]

-- The items that `updateItems` starts from, before the entries are looked at.
abbrev pub start_items : ℕ → Carousel → ℕ
start_items width c =
    if ltb (desktop_width c.options.items_desktop c.orignal_items) width
    then c.orignal_items
    else c.options.items

module _ (width : ℕ) (c : Carousel) (entries : List Entry)
    (responsive : c.options.responsive ≡ true) (several : c.options.single_item ≡ false)
    (unscaled : c.options.items_scale_up ≡ false)
    (custom : c.options.items_custom ≡ some entries) where
  items-update_items :
      (update_items width c).options.items
      ≡ last_within width (sort_by_width entries) (start_items width c)
  unfolding update_items
  items-update_items = ground arith

  -- With `itemsCustom`, responsive, and without `singleItem` and `itemsScaleUp`, `updateItems`
  -- chooses what the widest entry that the window reaches offers, in whatever order the entries
  -- stand; if the window reaches none, it keeps the items that it starts from.
  pub update_items-Chosen :
      Chosen width (start_items width c) (update_items width c).options.items entries
  update_items-Chosen = rw items-update_items (
      Chosen-of_sort width (start_items width c) _ entries (
        last_within-Chosen width (start_items width c) (sort_by_width entries)
          (sort-Sorted entries)))
