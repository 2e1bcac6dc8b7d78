-- ===== src/Carousel/Moves/Preserved.antt =====
-- Every move of owl.carousel.js leads from a settled state to a settled state.
use gitb.Base.{
  ℕ, ◌<◌, Bool, true, false, ℤ, pos, ◌≤ℤ◌, ◌+ℤ◌, ◌-ℤ◌, eq_ℤ, ltb_ℤ, leb_ℤ, if_cases, subst, ◌||◌,
  negsuc, ◌≡◌, arith, if◌then◌else◌,
}
use gitb.Carousel.State.{Speed, rewind, Carousel}
use gitb.Carousel.Moves.{
  after_go, clamp, single_item_transition, go_to, jump_to, next, prev, stride, next_limit,
  prev_target,
}
use gitb.Carousel.Moves.Settled.{
  IsAimed, IsDisplayed, after_go-IsAimed, slide_to-IsDisplayed, place-IsDisplayed,
  place_first-IsDisplayed, displayed-IsMoved, clamp_bounds,
}

displayed-IsAimed :
    (p : ℤ) (c d : Carousel)
    → IsAimed c
    → IsDisplayed (clamp c.maximum_item p) c d
    → IsAimed (after_go d)
displayed-IsAimed p c d s m =
    let (lo, hi) = clamp_bounds c.maximum_item p in
    after_go-IsAimed c.current_item d (displayed-IsMoved (clamp c.maximum_item p) c d lo hi s m)

transition-IsAimed : (c : Carousel) → IsAimed c → IsAimed (single_item_transition c)
transition-IsAimed c s = record {
  from_start = s.from_start;
  to_end = s.to_end;
  remembered = s.remembered;
  in_place = s.in_place;
  buttons_agree = s.buttons_agree;
  visible_agree = s.visible_agree;
}

-- `goTo`, at any position and speed, dragging or not, keeps the carousel settled.
pub go_to-IsAimed :
    (p : ℤ) (speed : Speed) (drag : Bool) (c : Carousel)
    → IsAimed c
    → IsAimed (go_to p speed drag c)
unfolding go_to
go_to-IsAimed p speed drag c s =
    if_cases IsAimed c.is_transition (λ _. s)
      (λ _.
        if_cases IsAimed _
          (λ _.
            transition-IsAimed _
              (displayed-IsAimed p c _ s (place-IsDisplayed (clamp c.maximum_item p) c)))
          (λ _. displayed-IsAimed p c _ s (slide_to-IsDisplayed (clamp c.maximum_item p) c speed)))

-- `jumpTo` to an item that is not negative goes where `goTo` goes.
unfoldable pub jump_target : ℕ → ℤ → ℤ
jump_target maximum p =
    if leb_ℤ (pos maximum) p || eq_ℤ p (negsuc 0)
    then pos maximum
    else if leb_ℤ p (pos 0)
    then pos 0
    else p

pub jump_target_bounds : (n : ℕ) (p : ℤ) → (pos 0 ≤ℤ jump_target n p) × (jump_target n p ≤ℤ pos n)
unfolding jump_target
jump_target_bounds n p = ground arith

-- `jumpTo`, to any position, keeps the carousel settled.
pub jump_to-IsAimed : (p : ℤ) (c : Carousel) → IsAimed c → IsAimed (jump_to p c)
unfolding jump_to jump_target
jump_to-IsAimed p c s =
    let q = jump_target c.maximum_item p in
    let (lo, hi) = jump_target_bounds c.maximum_item p in
    after_go-IsAimed c.current_item _
      (displayed-IsMoved q c _ lo hi s (place_first-IsDisplayed q c))

-- Without rewinding, `next` and `prev` at their ends put the current item where it is.
next_at_end :
    (c : Carousel)
    → IsAimed c
    → 0 < c.options.items
    → ltb_ℤ (next_limit c) (c.current_item +ℤ pos (stride c.options)) ≡ true
    → c.current_item ≡ pos c.maximum_item
unfolding ◌+ℤ◌
next_at_end c s h e = ground arith

prev_at_start :
    (c : Carousel)
    → IsAimed c
    → 0 < c.options.items
    → ltb_ℤ (prev_target c) (pos 0) ≡ true
    → c.current_item ≡ pos 0
unfolding ◌-ℤ◌
prev_at_start c s h e = ground arith

-- `goTo` does not read the current item.
pub go_to-current_item :
    (p x : ℤ) (speed : Speed) (drag : Bool) (c : Carousel)
    → c.is_transition ≡ false
    → go_to p speed drag (record c { current_item = x }) ≡ go_to p speed drag c
unfolding go_to
go_to-current_item p x speed drag c e = rw e

go_to_from-IsAimed :
    (p x : ℤ) (speed : Speed) (c : Carousel)
    → IsAimed c
    → c.is_transition ≡ false
    → IsAimed (go_to p speed false (record c { current_item = x }))
go_to_from-IsAimed p x speed c s e =
    rw (go_to-current_item p x speed false c e) (go_to-IsAimed p speed false c s)

stay-IsAimed :
    (x : ℤ) (c : Carousel)
    → IsAimed c
    → c.current_item ≡ x
    → IsAimed (record c { current_item = x })
stay-IsAimed x c s e = subst IsAimed (λ i. record c { current_item = e i }) s

-- `next` keeps the carousel settled, whatever the options, if it shows at least one item.
pub next-IsAimed :
    (speed : Speed) (c : Carousel) → 0 < c.options.items → IsAimed c → IsAimed (next speed c)
unfolding next
next-IsAimed speed c h s =
    if_cases IsAimed c.is_transition (λ _. s)
      (λ idle.
        if_cases IsAimed (ltb_ℤ (next_limit c) (c.current_item +ℤ pos (stride c.options)))
          (λ past.
            if_cases IsAimed c.options.rewind_nav (λ _. go_to_from-IsAimed _ _ rewind c s idle)
              (λ _. stay-IsAimed _ c s (next_at_end c s h past)))
          (λ _. go_to_from-IsAimed _ _ speed c s idle))

-- `prev` keeps the carousel settled, whatever the options, if it shows at least one item.
pub prev-IsAimed :
    (speed : Speed) (c : Carousel) → 0 < c.options.items → IsAimed c → IsAimed (prev speed c)
unfolding prev
prev-IsAimed speed c h s =
    if_cases IsAimed c.is_transition (λ _. s)
      (λ idle.
        if_cases IsAimed (ltb_ℤ (prev_target c) (pos 0))
          (λ past.
            if_cases IsAimed c.options.rewind_nav (λ _. go_to_from-IsAimed _ _ rewind c s idle)
              (λ _. stay-IsAimed _ c s (prev_at_start c s h past)))
          (λ _. go_to_from-IsAimed _ _ speed c s idle))
