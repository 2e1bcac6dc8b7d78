-- ===== src/Carousel/Moves/Settled.antt =====
-- The state between two moves of owl.carousel.js: the current item is one of the stops, the last
-- move has led to it, and the history, the buttons and the visible items agree with it.
use gitb.Base.{
  ℕ, true, false, Option, some, [], ◌∷◌, ℤ, pos, ◌≤ℤ◌, eq_ℤ, eq_ℤ→eq, ◌≡◌, inl, inr, arith,
  Bool-cases, if◌then◌else◌,
}
use gitb.Carousel.State.{Speed, Carousel, get_at, emit, before_move}
use gitb.Carousel.Controls.{check_navigation}
use gitb.Carousel.Lazy.{count_up}
use gitb.Carousel.Moves.{after_change, after_go, remember, differs, place, slide_to, clamp}
use gitb.Carousel.Moves.Frame.{core-after_change, panel-after_change}

-- With navigation buttons and no rewinding, a button is disabled exactly at its end.
abbrev pub ButtonsAgree : Carousel → Type 0
ButtonsAgree c =
    c.options.navigation ≡ true
    → c.options.rewind_nav ≡ false
    → (c.prev_disabled ≡ eq_ℤ c.current_item (pos 0))
      × (c.next_disabled ≡ eq_ℤ c.current_item (pos c.maximum_item))

-- Where the last move has put the wrapper, by the property that the browser is given.
abbrev pub shown_at : Carousel → Option ℤ
shown_at c = if c.support3d then c.css_transform else c.css_left

pub record IsAimed (c : Carousel) : Type 0 where
  pub from_start : pos 0 ≤ℤ c.current_item
  pub to_end : c.current_item ≤ℤ pos c.maximum_item
  pub remembered : c.prev_arr ≡ c.current_item ∷ []
  pub in_place : shown_at c ≡ get_at c.positions_in_array c.current_item
  pub buttons_agree : ButtonsAgree c
  pub visible_agree : c.visible_items ≡ count_up c.current_item c.options.items

pub check_navigation-ButtonsAgree : (c : Carousel) → ButtonsAgree (check_navigation c)
unfolding check_navigation
check_navigation-ButtonsAgree c p q = ground arith

-- What a move has done before `afterGo`, from the item `i`.
pub record IsMoved (i : ℤ) (c : Carousel) : Type 0 where
  pub from_start : pos 0 ≤ℤ c.current_item
  pub to_end : c.current_item ≤ℤ pos c.maximum_item
  pub history : c.prev_arr ≡ i ∷ []
  pub in_place : shown_at c ≡ get_at c.positions_in_array c.current_item
  pub buttons_agree : i ≡ c.current_item → ButtonsAgree c
  pub visible_agree : i ≡ c.current_item → c.visible_items ≡ count_up c.current_item c.options.items

pub check_navigation_buttons :
    (c : Carousel)
    → c.options.navigation ≡ true
    → c.options.rewind_nav ≡ false
    → ((check_navigation c).prev_disabled ≡ eq_ℤ c.current_item (pos 0))
      × ((check_navigation c).next_disabled ≡ eq_ℤ c.current_item (pos c.maximum_item))
unfolding check_navigation
check_navigation_buttons c p q = ground arith

-- The follow-up work of a change settles the carousel.
after_change-IsAimed :
    (c : Carousel)
    → pos 0 ≤ℤ c.current_item
    → c.current_item ≤ℤ pos c.maximum_item
    → c.prev_arr ≡ c.current_item ∷ []
    → shown_at c ≡ get_at c.positions_in_array c.current_item
    → IsAimed (after_change c)
after_change-IsAimed c lo hi h place = record {
  from_start = ground (arith, core-after_change c);
  to_end = ground (arith, core-after_change c);
  remembered = ground (arith, core-after_change c);
  in_place = ground (arith, core-after_change c);
  buttons_agree =
      λ p q. ground (arith, core-after_change c, panel-after_change c, check_navigation_buttons c);
  visible_agree = ground (arith, core-after_change c, panel-after_change c);
}

module _ (i : ℤ) (c : Carousel) (m : IsMoved i c) where
  after_go_changed : differs (some i) c.current_item ≡ true → after_go c ≡ after_change (remember c)
  unfolding after_go
  after_go_changed d = rw m.history (rw d)

  after_go_same : differs (some i) c.current_item ≡ false → after_go c ≡ remember c
  unfolding after_go
  after_go_same d = rw m.history (rw d)

  remembered_now : (remember c).prev_arr ≡ c.current_item ∷ []
  remembered_now = rw m.history

  same_item : differs (some i) c.current_item ≡ false → i ≡ c.current_item
  same_item d = eq_ℤ→eq i c.current_item (ground arith)

  remember-IsAimed : i ≡ c.current_item → IsAimed (remember c)
  remember-IsAimed e = record {
    from_start = m.from_start;
    to_end = m.to_end;
    remembered = remembered_now;
    in_place = m.in_place;
    buttons_agree = m.buttons_agree e;
    visible_agree = m.visible_agree e;
  }

  -- Whatever `afterGo` finds, it leaves the carousel settled.
  pub after_go-IsAimed : IsAimed (after_go c)
  after_go-IsAimed = elim (Bool-cases (differs (some i) c.current_item)) [
    | inl d ↦
        rw (after_go_changed d)
          (after_change-IsAimed (remember c) m.from_start m.to_end remembered_now m.in_place)
    | inr d ↦ rw (after_go_same d) (remember-IsAimed (same_item d))
  ]

pub clamp_bounds : (n : ℕ) (p : ℤ) → (pos 0 ≤ℤ clamp n p) × (clamp n p ≤ℤ pos n)
clamp_bounds n p = ground arith

-- `d` is `c` after it has been made to show the item `q`.
pub record IsDisplayed (q : ℤ) (c d : Carousel) : Type 0 where
  options : d.options ≡ c.options
  maximum : d.maximum_item ≡ c.maximum_item
  positions : d.positions_in_array ≡ c.positions_in_array
  history : d.prev_arr ≡ c.prev_arr
  item : d.current_item ≡ q
  place : shown_at d ≡ get_at c.positions_in_array q
  prev_button : d.prev_disabled ≡ c.prev_disabled
  next_button : d.next_disabled ≡ c.next_disabled
  visible : d.visible_items ≡ c.visible_items

module _ (q : ℤ) (c : Carousel) where
  pub slide_to-IsDisplayed :
      (speed : Speed)
      → IsDisplayed q c (slide_to q speed (record (emit before_move c) { current_item = q }))
  slide_to-IsDisplayed speed = ground arith

  pub place-IsDisplayed :
      IsDisplayed q c (place q (record (emit before_move c) { current_item = q }))
  place-IsDisplayed = ground arith

  pub place_first-IsDisplayed :
      IsDisplayed q c (record (place q (emit before_move c)) { current_item = q })
  place_first-IsDisplayed = ground arith

  module _ (d : Carousel) (lo : pos 0 ≤ℤ q) (hi : q ≤ℤ pos c.maximum_item) where
    moved_buttons : IsAimed c → IsDisplayed q c d → c.current_item ≡ q → ButtonsAgree d
    moved_buttons s m e p r = ground (arith, s.buttons_agree)

    pub displayed-IsMoved : IsAimed c → IsDisplayed q c d → IsMoved c.current_item d
    displayed-IsMoved s m = record {
      from_start = ground arith;
      to_end = ground arith;
      history = ground arith;
      in_place = ground arith;
      buttons_agree = λ e. moved_buttons s m (ground arith);
      visible_agree = λ e. ground arith;
    }
