-- ===== src/Flipshow/Shown.antt =====
-- What the slides of jquery.flipshow.js show.
use gitb.Base.{
  ℕ, ◌<◌, Bool, true, false, ◌&&◌, List, [], ◌∷◌, ◌++◌, ◌==◌, ℤ, inl, inr, ◌⊎◌, ◌≡◌, refl, arith,
  if_cases, lt→ltb, ap,
}
use gitb.Flipshow.{
  Direction, left, right, Flipshow, show, hide, init, images_loaded, move, flip,
  transform_properties, timer_fires, on_transition_end, each_listener, transition_ends, navigate,
  Event, nav_clicked, timer, transition_end, handle, run,
}

-- The current item is shown and no other, and nothing turns.
pub record IsAtRest (s : Flipshow) : Type 0 where
  pub free : (s.is_animating && s.support) ≡ false
  pub only_current : (j : ℕ) → s.visible j ≡ (s.current == j)
  pub no_timer : s.timers ≡ []
  pub no_listener : s.flip_el.listeners ≡ []
  pub hidden : s.flip_el.is_shown ≡ false

-- What waits for a flip to end: its timer, or after it the handler.
abbrev pub IsPending : Flipshow → Type 0
IsPending s =
    ((t : List (ℤ × ℤ × ℤ)) × (s.timers ≡ (s.current, t) ∷ []) × (s.flip_el.listeners ≡ []))
    ⊎ ((s.timers ≡ []) × (s.flip_el.listeners ≡ s.current ∷ []))

-- No item is shown, but the element that turns, which will show the current item.
pub record IsTurning (s : Flipshow) : Type 0 where
  pub busy : (s.is_animating && s.support) ≡ true
  pub none_visible : (j : ℕ) → s.visible j ≡ false
  pub pending : IsPending s
  pub turns : s.flip_el.is_shown ≡ true
  pub turns_to : s.flip_el.back ≡ s.current

pub record IsShowing (s : Flipshow) : Type 0 where
  pub in_range : s.current < s.items_count
  pub with_nav : s.has_nav ≡ true
  pub phase : IsAtRest s ⊎ IsTurning s

pub move-in_range : (dir : Direction) (count i : ℕ) → i < count → move dir count i < count
move-in_range right count i h = ground arith
move-in_range left count i h = ground arith

pub hide-only :
    (i : ℕ) (visible : ℕ → Bool)
    → ((j : ℕ) → visible j ≡ (i == j))
    → (j : ℕ) → hide i visible j ≡ false
hide-only i visible h j = ground (arith, h j)

pub show-only :
    (i : ℕ) (visible : ℕ → Bool)
    → ((j : ℕ) → visible j ≡ false)
    → (j : ℕ) → show i visible j ≡ (i == j)
show-only i visible h j = ground (arith, h j)

pub images_loaded-IsShowing :
    (count : ℕ) (support : Bool) → 0 < count → IsShowing (images_loaded (init count support))
unfolding images_loaded
images_loaded-IsShowing count support h = rw (lt→ltb 0 count h) (record {
  in_range = h;
  with_nav = refl;
  phase = inl (record {
    free = refl;
    only_current = show-only 0 (λ _. false) (λ _. refl);
    no_timer = refl;
    no_listener = refl;
    hidden = refl;
  });
})

-- A click on a button while nothing turns.
rest-navigate :
    (dir : Direction) (angle : ℕ) (s : Flipshow)
    → IsShowing s
    → IsAtRest s
    → IsShowing (navigate dir angle s)
unfolding navigate flip
rest-navigate dir angle s w r = rw r.free (
    if_cases IsShowing s.support
      (λ e. record {
        in_range = move-in_range dir s.items_count s.current w.in_range;
        with_nav = w.with_nav;
        phase = inr (record {
          busy = e;
          none_visible = hide-only s.current s.visible r.only_current;
          pending = inl (
            transform_properties dir angle,
            ap (λ ts. ts ++ (move dir s.items_count s.current, transform_properties dir angle) ∷ [])
                r.no_timer,
            r.no_listener,
          );
          turns = refl;
          turns_to = refl;
        });
      })
      (λ e. record {
        in_range = move-in_range dir s.items_count s.current w.in_range;
        with_nav = w.with_nav;
        phase = inl (record {
          free = e;
          only_current = show-only _ _ (hide-only s.current s.visible r.only_current);
          no_timer = r.no_timer;
          no_listener = r.no_listener;
          hidden = r.hidden;
        });
      }))

navigate-busy :
    (dir : Direction) (angle : ℕ) (s : Flipshow) → IsTurning s → navigate dir angle s ≡ s
unfolding navigate
navigate-busy dir angle s t = rw t.busy refl

-- The timer of a flip.
timer_fires-none : (s : Flipshow) → s.timers ≡ [] → timer_fires s ≡ s
unfolding timer_fires
timer_fires-none s e = rw e refl

timer_starts-IsShowing :
    (s : Flipshow) (p : List (ℤ × ℤ × ℤ))
    → IsShowing s
    → IsTurning s
    → s.timers ≡ (s.current, p) ∷ []
    → s.flip_el.listeners ≡ []
    → IsShowing (timer_fires s)
unfolding timer_fires
timer_starts-IsShowing s p w t e l = rw e (record {
  in_range = w.in_range;
  with_nav = w.with_nav;
  phase = inr (record {
    busy = t.busy;
    none_visible = t.none_visible;
    pending = inr (refl, ap (λ ns. ns ++ s.current ∷ []) l);
    turns = t.turns;
    turns_to = t.turns_to;
  });
})

timer_fires-IsShowing : (s : Flipshow) → IsShowing s → IsShowing (timer_fires s)
timer_fires-IsShowing s w = elim w.phase [
  | inl r ↦ rw (timer_fires-none s r.no_timer) w
  | inr t ↦ elim t.pending [
    | inl (p, e, l) ↦ timer_starts-IsShowing s p w t e l
    | inr (e, l) ↦ rw (timer_fires-none s e) w
  ]
]

-- The end of the element's transition.
transition_ends-none : (s : Flipshow) → s.flip_el.listeners ≡ [] → transition_ends false s ≡ s
unfolding transition_ends each_listener
transition_ends-none s e = rw e refl

turned-IsAtRest :
    (s : Flipshow) → IsTurning s → s.timers ≡ [] → IsAtRest (on_transition_end s.current s)
unfolding on_transition_end
turned-IsAtRest s t e = record {
  free = refl;
  only_current = show-only s.current s.visible t.none_visible;
  no_timer = e;
  no_listener = refl;
  hidden = refl;
}

transition_ends-one :
    (s : Flipshow)
    → s.flip_el.listeners ≡ s.current ∷ []
    → transition_ends false s ≡ on_transition_end s.current s
unfolding transition_ends each_listener
transition_ends-one s l = rw l refl

turned-IsShowing :
    (s : Flipshow)
    → IsShowing s
    → IsTurning s
    → s.timers ≡ []
    → IsShowing (on_transition_end s.current s)
unfolding on_transition_end
turned-IsShowing s w t e = record {
  in_range = w.in_range;
  with_nav = w.with_nav;
  phase = inl (turned-IsAtRest s t e);
}

transition_ends-IsShowing :
    (of_overlay : Bool) (s : Flipshow) → IsShowing s → IsShowing (transition_ends of_overlay s)
unfolding transition_ends
transition_ends-IsShowing true s w = w
transition_ends-IsShowing false s w = elim w.phase [
  | inl r ↦ rw (transition_ends-none s r.no_listener) w
  | inr t ↦ elim t.pending [
    | inl (p, e, l) ↦ rw (transition_ends-none s l) w
    | inr (e, l) ↦ rw (transition_ends-one s l) (turned-IsShowing s w t e)
  ]
]

navigate-IsShowing :
    (dir : Direction) (angle : ℕ) (s : Flipshow) → IsShowing s → IsShowing (navigate dir angle s)
navigate-IsShowing dir angle s w = elim w.phase [
  | inl r ↦ rest-navigate dir angle s w r
  | inr t ↦ rw (navigate-busy dir angle s t) w
]

pub handle-IsShowing : (e : Event) (s : Flipshow) → IsShowing s → IsShowing (handle e s)
unfolding handle
handle-IsShowing (nav_clicked dir angle) s w =
    if_cases IsShowing s.has_nav (λ _. navigate-IsShowing dir angle s w) (λ _. w)
handle-IsShowing timer s w = timer_fires-IsShowing s w
handle-IsShowing (transition_end of_overlay) s w = transition_ends-IsShowing of_overlay s w

pub run_from-IsShowing : (es : List Event) (s : Flipshow) → IsShowing s → IsShowing (run es s)
unfolding run
run_from-IsShowing [] s w = w
run_from-IsShowing (e ∷ es) s w = run_from-IsShowing es (handle e s) (handle-IsShowing e s w)
