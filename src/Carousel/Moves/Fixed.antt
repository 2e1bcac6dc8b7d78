-- ===== src/Carousel/Moves/Fixed.antt =====
-- What no move of owl.carousel.js changes: the options and the layout. Where a move goes, and what
-- it does to the timers.
use gitb.Base.{Bool, true, false, ℤ, pos, ◌≡◌, refl, sym, ◌∙◌, arith, if_cases, ltb_ℤ, ◌+ℤ◌}
use gitb.Carousel.State.{Speed, rewind, Carousel, emit, before_move}
use gitb.Carousel.Moves.{
  after_go, place, slide_to, clamp, single_item_transition, swaps_items, go_to, jump_to, next, prev,
  next_limit, prev_target, stride,
}
use gitb.Carousel.Moves.Frame.{core-after_go}

-- From `c` to `d` the options and the layout stay.
pub record Keeps (c d : Carousel) : Type 0 where
  pub options : d.options ≡ c.options
  pub orignal : d.orignal_items ≡ c.orignal_items
  pub amount : d.items_amount ≡ c.items_amount
  pub width : d.item_width ≡ c.item_width
  pub maximum : d.maximum_item ≡ c.maximum_item
  pub pixels : d.maximum_pixels ≡ c.maximum_pixels
  pub positions : d.positions_in_array ≡ c.positions_in_array
  pub pages : d.pages_in_array ≡ c.pages_in_array

keep : (c : Carousel) → Keeps c c
keep c = record {
  options = refl;
  orignal = refl;
  amount = refl;
  width = refl;
  maximum = refl;
  pixels = refl;
  positions = refl;
  pages = refl;
}

after_go-Keeps : (c d : Carousel) → Keeps c d → Keeps c (after_go d)
after_go-Keeps c d k = ground (arith, core-after_go d)

module _ (q x : ℤ) (c : Carousel) where
  place-Keeps : Keeps c (place q (record (emit before_move c) { current_item = x }))
  place-Keeps = ground arith

  place_first-Keeps : Keeps c (record (place q (emit before_move c)) { current_item = x })
  place_first-Keeps = ground arith

  slide_to-Keeps :
      (speed : Speed)
      → Keeps c (slide_to q speed (record (emit before_move c) { current_item = x }))
  slide_to-Keeps speed = ground arith

transition-Keeps : (c d : Carousel) → Keeps c d → Keeps c (single_item_transition d)
transition-Keeps c d k = ground arith

-- `goTo` leaves the options and the layout alone.
pub go_to-Keeps :
    (p : ℤ) (speed : Speed) (drag : Bool) (c : Carousel) → Keeps c (go_to p speed drag c)
unfolding go_to
go_to-Keeps p speed drag c =
    let q = clamp c.maximum_item p in
    if_cases (Keeps c) c.is_transition (λ _. keep c)
      (λ _.
        if_cases (Keeps c) _ (λ _. transition-Keeps c _ (after_go-Keeps c _ (place-Keeps q q c)))
          (λ _. after_go-Keeps c _ (slide_to-Keeps q q c speed)))

pub jump_to-Keeps : (p : ℤ) (c : Carousel) → Keeps c (jump_to p c)
unfolding jump_to
jump_to-Keeps p c = after_go-Keeps c _ (place_first-Keeps _ _ c)

go_from-Keeps :
    (p x : ℤ) (speed : Speed) (c : Carousel)
    → Keeps c (go_to p speed false (record c { current_item = x }))
go_from-Keeps p x speed c =
    ground (arith, go_to-Keeps p speed false (record c { current_item = x }))

stay-Keeps : (x : ℤ) (c : Carousel) → Keeps c (record c { current_item = x })
stay-Keeps x c = ground arith

-- What holds of the carousel as it is, at another current item, and after any `goTo` from there,
-- holds after `next` and `prev`.
module _ {ℓ} (P : Carousel → Type ℓ) (c : Carousel) (same : P c)
    (stay : (x : ℤ) → P (record c { current_item = x }))
    (go : (p x : ℤ) (speed : Speed) → P (go_to p speed false (record c { current_item = x }))) where
  pub next_cases : (speed : Speed) → P (next speed c)
  unfolding next
  next_cases speed =
      if_cases P c.is_transition (λ _. same)
        (λ _.
          if_cases P (ltb_ℤ (next_limit c) (c.current_item +ℤ pos (stride c.options)))
            (λ _. if_cases P c.options.rewind_nav (λ _. go _ _ rewind) (λ _. stay _))
            (λ _. go _ _ speed))

  pub prev_cases : (speed : Speed) → P (prev speed c)
  unfolding prev
  prev_cases speed =
      if_cases P c.is_transition (λ _. same)
        (λ _.
          if_cases P (ltb_ℤ (prev_target c) (pos 0))
            (λ _. if_cases P c.options.rewind_nav (λ _. go _ _ rewind) (λ _. stay _))
            (λ _. go _ _ speed))

pub next-Keeps : (speed : Speed) (c : Carousel) → Keeps c (next speed c)
next-Keeps speed c =
    next_cases (Keeps c) c (keep c) (λ x. stay-Keeps x c) (λ p x s. go_from-Keeps p x s c) speed

pub prev-Keeps : (speed : Speed) (c : Carousel) → Keeps c (prev speed c)
prev-Keeps speed c =
    prev_cases (Keeps c) c (keep c) (λ x. stay-Keeps x c) (λ p x s. go_from-Keeps p x s c) speed

-- Where the carousel is, and whether an animation blocks it.
pub record IsAt (q : ℤ) (blocked : Bool) (c : Carousel) : Type 0 where
  pub item : c.current_item ≡ q
  pub blocks : c.is_transition ≡ blocked

after_go-IsAt : (q : ℤ) (b : Bool) (c : Carousel) → IsAt q b c → IsAt q b (after_go c)
after_go-IsAt q b c a = ground (arith, core-after_go c)

slide_to-IsAt :
    (q : ℤ) (speed : Speed) (c : Carousel)
    → IsAt q c.is_transition (slide_to q speed (record (emit before_move c) { current_item = q }))
slide_to-IsAt q speed c = ground arith

place-IsAt :
    (q : ℤ) (c : Carousel)
    → IsAt q true (
        single_item_transition
          (after_go (place q (record (emit before_move c) { current_item = q }))))
place-IsAt q c =
    ground (arith, core-after_go (place q (record (emit before_move c) { current_item = q })))

-- Outside an animation `goTo` goes to the stop nearest to `p`, and starts an animation exactly if
-- it swaps single items.
pub go_to-IsAt :
    (p : ℤ) (speed : Speed) (drag : Bool) (c : Carousel)
    → c.is_transition ≡ false
    → IsAt (clamp c.maximum_item p) (swaps_items drag c) (go_to p speed drag c)
unfolding go_to
go_to-IsAt p speed drag c idle =
    let q = clamp c.maximum_item p in
    let slid : IsAt q c.is_transition _ =
      after_go-IsAt q c.is_transition _ (slide_to-IsAt q speed c) in
    if_cases (IsAt q (swaps_items drag c)) c.is_transition (λ e. absurd (ground arith))
      (λ _.
        if_cases (IsAt q (swaps_items drag c)) (swaps_items drag c) (λ e. rw e (place-IsAt q c))
          (λ e. record { item = slid.item; blocks = slid.blocks ∙ idle ∙ sym e }))
