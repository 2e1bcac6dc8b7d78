-- ===== src/Flipshow/Cycle.antt =====
-- Whole turns of jquery.flipshow.js: a click and what it sets going.
use gitb.Base.{
  ℕ, suc, ◌+◌, ◌-◌, ◌%◌, ◌<◌, Bool, true, false, List, [], ◌∷◌, ◌++◌, ltb, if_true, if_false,
  Bool-cases, inl, inr, ◌≡◌, refl, sym, ap, ap₂, lt→ltb, ◌∙◌, arith,
}
use native.Mathlib.Nat.{mod-eq_of_lt, add-mod_right, mod-add-mod, mod_self}
use gitb.Flipshow.{
  init, images_loaded, Direction, left, right, Flipshow, move, flip, timer_fires, on_transition_end,
  each_listener, transition_ends, navigate, Event, nav_clicked, timer, transition_end, handle, run,
}
use gitb.Flipshow.Shown.{
  IsAtRest, IsShowing, images_loaded-IsShowing, run_from-IsShowing, show-only, hide-only,
}

-- A click on one of the three buttons, the timer, the end of an overlay's transition and of the
-- element's own.
abbrev pub turn : Direction → ℕ → List Event
turn dir angle = nav_clicked dir angle ∷ timer ∷ transition_end true ∷ transition_end false ∷ []

-- What a whole turn leaves: the state at rest at the item.
record Turned (i : ℕ) (s s' : Flipshow) : Type 0 where
  rest : IsAtRest s'
  amount : s'.items_count ≡ s.items_count
  at_item : s'.current ≡ i

turn-supported :
    (dir : Direction) (angle : ℕ) (s : Flipshow)
    → IsShowing s
    → IsAtRest s
    → s.support ≡ true
    → s.is_animating ≡ false
    → Turned (move dir s.items_count s.current) s (run (turn dir angle) s)
unfolding run handle navigate flip timer_fires transition_ends each_listener on_transition_end
turn-supported dir angle s w r e a =
    rw (w.with_nav, r.no_timer, r.no_listener, e, a)
      (record {
        rest = record {
          free = refl;
          only_current = show-only _ _ (hide-only s.current s.visible r.only_current);
          no_timer = refl;
          no_listener = refl;
          hidden = refl;
        };
        amount = refl;
        at_item = refl;
      })

turn-unsupported :
    (dir : Direction) (angle : ℕ) (s : Flipshow)
    → IsShowing s
    → IsAtRest s
    → s.support ≡ false
    → Turned (move dir s.items_count s.current) s (run (turn dir angle) s)
unfolding run handle navigate flip timer_fires transition_ends each_listener on_transition_end
turn-unsupported dir angle s w r e =
    rw (w.with_nav, r.no_timer, r.no_listener, r.free, e)
      (record {
        rest = record {
          free = refl;
          only_current = show-only _ _ (hide-only s.current s.visible r.only_current);
          no_timer = refl;
          no_listener = refl;
          hidden = r.hidden;
        };
        amount = refl;
        at_item = refl;
      })

turn-Turned :
    (dir : Direction) (angle : ℕ) (s : Flipshow)
    → IsShowing s
    → IsAtRest s
    → Turned (move dir s.items_count s.current) s (run (turn dir angle) s)
turn-Turned dir angle s w r = elim (Bool-cases s.support) [
  | inl e ↦ turn-supported dir angle s w r e (grind (arith, r.free))
  | inr e ↦ turn-unsupported dir angle s w r e
]

-- Turns one after the other, each with the button that is used.
unfoldable pub turns : List (Direction × ℕ) → List Event
turns [] = []
turns ((dir, angle) ∷ ds) = turn dir angle ++ turns ds

-- How far the turns go to the right, a turn to the left being all but one.
abbrev pub distance : ℕ → List (Direction × ℕ) → ℕ
distance count [] = 0
distance count ((right, _) ∷ ds) = suc (distance count ds)
distance count ((left, _) ∷ ds) = count - 1 + distance count ds

run-append : (es fs : List Event) (s : Flipshow) → run (es ++ fs) s ≡ run fs (run es s)
unfolding run
run-append [] fs s = refl
run-append (e ∷ es) fs s = run-append es fs (handle e s)

abbrev one_step : ℕ → Direction → ℕ
one_step m right = 1
one_step m left = m

-- A turn moves around the circle of the items.
move-mod :
    (m i : ℕ) (dir : Direction) → i < suc m → move dir (suc m) i ≡ (i + one_step m dir) % suc m
move-mod m i right h = elim (Bool-cases (ltb i m)) [
  | inl e ↦
      if_true (ltb i (suc m - 1)) _ _ (ground arith)
      ∙ sym (mod-eq_of_lt (ground arith))
      ∙ ap (λ x. x % suc m) (omega arith)
  | inr e ↦
      if_false (ltb i (suc m - 1)) _ _ (ground arith)
      ∙ sym (mod_self (suc m))
      ∙ ap (λ x. x % suc m) (ground arith)
]
move-mod m i left h = elim (Bool-cases (ltb 0 i)) [
  | inl e ↦
      if_true (ltb 0 i) _ _ e
      ∙ sym (mod-eq_of_lt (ground arith))
      ∙ sym (add-mod_right (i - 1) (suc m))
      ∙ ap (λ x. x % suc m) (ground arith)
  | inr e ↦
      if_false (ltb 0 i) _ _ e
      ∙ sym (mod-eq_of_lt (omega arith))
      ∙ ap (λ x. x % suc m) (ground arith)
]

move-distance :
    (m i : ℕ) (dir : Direction) (angle : ℕ) (ds : List (Direction × ℕ))
    → i < suc m
    → (move dir (suc m) i + distance (suc m) ds) % suc m
      ≡ (i + distance (suc m) ((dir, angle) ∷ ds)) % suc m
move-distance m i right angle ds h =
    ap (λ x. (x + distance (suc m) ds) % suc m) (move-mod m i right h)
    ∙ mod-add-mod (i + 1) (suc m) (distance (suc m) ds)
    ∙ ap (λ x. x % suc m) (omega arith)
move-distance m i left angle ds h =
    ap (λ x. (x + distance (suc m) ds) % suc m) (move-mod m i left h)
    ∙ mod-add-mod (i + m) (suc m) (distance (suc m) ds)
    ∙ ap (λ x. x % suc m) (omega arith)

turns-at :
    (m i : ℕ) (ds : List (Direction × ℕ)) (s : Flipshow)
    → IsShowing s
    → IsAtRest s
    → s.items_count ≡ suc m
    → s.current ≡ i
    → (run (turns ds) s).current ≡ (i + distance (suc m) ds) % suc m
unfolding turns run
turns-at m i [] s w r e at =
    at ∙ sym (mod-eq_of_lt (ground (arith, w.in_range))) ∙ ap (λ x. x % suc m) (omega arith)
turns-at m i ((dir, angle) ∷ ds) s w r e at =
    let t = turn-Turned dir angle s w r in
    ap (λ x. x.current) (run-append (turn dir angle) (turns ds) s)
    ∙ turns-at m (move dir (suc m) i) ds (run (turn dir angle) s)
        (run_from-IsShowing (turn dir angle) s w) t.rest (t.amount ∙ e)
        (t.at_item ∙ ap₂ (move dir) e at)
    ∙ move-distance m i dir angle ds (ground (arith, w.in_range))

images_loaded-Turned :
    (m : ℕ) (support : Bool)
    → Turned 0 (init (suc m) support) (images_loaded (init (suc m) support))
unfolding images_loaded
images_loaded-Turned m support = rw (lt→ltb 0 (suc m) (omega arith)) (record {
  rest = record {
    free = refl;
    only_current = show-only 0 (λ _. false) (λ _. refl);
    no_timer = refl;
    no_listener = refl;
    hidden = refl;
  };
  amount = refl;
  at_item = refl;
})

-- With the images of at least one slide loaded, after any whole turns to the left and the right the
-- current item is reached by going around the circle of the items, one to the right for
-- each turn to the right and one to the left for each turn to the left.
pub run_turns-item :
    (m : ℕ) (support : Bool) (ds : List (Direction × ℕ))
    → (run (turns ds) (images_loaded (init (suc m) support))).current ≡ distance (suc m) ds % suc m
run_turns-item m support ds =
    let t = images_loaded-Turned m support in
    turns-at m 0 ds (images_loaded (init (suc m) support))
      (images_loaded-IsShowing (suc m) support (omega arith)) t.rest t.amount t.at_item
    ∙ ap (λ x. x % suc m) (omega arith)
