-- ===== src/Carousel/Moves/Undragged.antt =====
-- How the moves of owl.carousel.js take back what a drag has done to the place of the wrapper.
use gitb.Base.{
  Bool, false, none, some, ℤ, ◌⊎◌, inl, inr, ◌≡◌, refl, ap, ◌∙◌, if_cases, arith, scale, Option,
}
use mathlib.Core.Option
use gitb.Carousel.State.{Speed, Carousel, emit, before_move}
use gitb.Carousel.Moves.{after_go, place, slide_to, clamp, swaps_items, go_to, jump_to, next, prev}
use gitb.Carousel.Moves.Frame.{Core, core-after_go}
use gitb.Carousel.Moves.Fixed.{next_cases, prev_cases}
use gitb.Carousel.Moves.Settled.{IsAimed, shown_at}
use gitb.Carousel.Moves.Preserved.{jump_target}

-- Where the wrapper stands, in fifths of a pixel.
abbrev pub wrapper_at : Carousel → Option ℤ
wrapper_at c = elim c.dragged [ none ↦ Option.map (scale 5) (shown_at c) | some x ↦ some x ]

-- The last move has led to the current item, and no drag has pulled the wrapper away since.
pub record IsSettled (c : Carousel) : Type 0 where
  pub aimed : IsAimed c
  pub undragged : c.dragged ≡ none

-- From `c` to `d` a drag has done nothing new.
abbrev pub KeepsDrag : Carousel → Carousel → Type 0
KeepsDrag c d = (d.dragged ≡ none) ⊎ (d.dragged ≡ c.dragged)

pub after_go_drag : (c : Carousel) → (after_go c).dragged ≡ c.dragged
after_go_drag c = ap (λ (k : Core). k.dragged) (core-after_go c)

module _ (q x : ℤ) (c : Carousel) where
  place_drag : (place q (record (emit before_move c) { current_item = x })).dragged ≡ none
  place_drag = ground arith

  place_first_drag : (record (place q (emit before_move c)) { current_item = x }).dragged ≡ none
  place_first_drag = ground arith

  slide_to_drag :
      (speed : Speed)
      → (slide_to q speed (record (emit before_move c) { current_item = x })).dragged ≡ none
  slide_to_drag speed = ground arith

-- Outside an animation `goTo` puts the wrapper at a stop.
pub go_to_undrags :
    (p : ℤ) (speed : Speed) (drag : Bool) (c : Carousel)
    → c.is_transition ≡ false
    → (go_to p speed drag c).dragged ≡ none
unfolding go_to
go_to_undrags p speed drag c idle =
    let q = clamp c.maximum_item p in
    if_cases (λ (d : Carousel). d.dragged ≡ none) c.is_transition (λ e. absurd (ground arith))
      (λ _.
        if_cases (λ (d : Carousel). d.dragged ≡ none) (swaps_items drag c)
          (λ _. after_go_drag _ ∙ place_drag q q c)
          (λ _. after_go_drag _ ∙ slide_to_drag q q c speed))

pub go_to-KeepsDrag :
    (p x : ℤ) (speed : Speed) (drag : Bool) (c : Carousel)
    → KeepsDrag c (go_to p speed drag (record c { current_item = x }))
unfolding go_to
go_to-KeepsDrag p x speed drag c =
    let q = clamp c.maximum_item p in
    if_cases (KeepsDrag c) c.is_transition (λ _. inr refl)
      (λ _.
        if_cases (KeepsDrag c) (swaps_items drag (record c { current_item = x }))
          (λ _. inl (after_go_drag _ ∙ place_drag q q c))
          (λ _. inl (after_go_drag _ ∙ slide_to_drag q q c speed)))

pub jump_to_undrags : (p : ℤ) (c : Carousel) → (jump_to p c).dragged ≡ none
unfolding jump_to jump_target
jump_to_undrags p c =
    let q = jump_target c.maximum_item p in after_go_drag _ ∙ place_first_drag q q c

pub next-KeepsDrag : (speed : Speed) (c : Carousel) → KeepsDrag c (next speed c)
next-KeepsDrag speed c =
    next_cases (KeepsDrag c) c (inr refl) (λ x. inr refl) (λ p x s. go_to-KeepsDrag p x s false c)
      speed

pub prev-KeepsDrag : (speed : Speed) (c : Carousel) → KeepsDrag c (prev speed c)
prev-KeepsDrag speed c =
    prev_cases (KeepsDrag c) c (inr refl) (λ x. inr refl) (λ p x s. go_to-KeepsDrag p x s false c)
      speed
