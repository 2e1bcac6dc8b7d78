-- ===== src/Appear/Edges.antt =====
-- When jquery.appear.js calls the function of an element.
use gitb.Base.{
  ℕ, suc, ◌+◌, Bool, true, false, not, ◌&&◌, List, [], ◌∷◌, ◌++◌, map, replicate, if◌then◌else◌,
  if_true, ◌≡◌, refl, ap, ap₂, ◌∙◌, sym, arith,
}
use mathlib.Core.List.{append-nil, append_assoc}
use gitb.Appear.{
  Settings, Page, Watch, Appear, is_inside, modified_fn, trigger, check, calls_fn, called, scroll,
  window_scrolled, handle_page, run_page,
}

-- Whether an element is to be seen.
abbrev pub seen : ℕ → Settings → Page → Bool
seen element s p = (p.place element).is_visible && is_inside s p (p.place element)

-- How often a sequence goes from false to true, where `before` comes first.
abbrev pub rises : Bool → List Bool → ℕ
rises before [] = 0
rises before (b ∷ bs) = (if b && not before then 1 else 0) + rises b bs

-- A check that finds the handler bound.
check_facts :
    (p : Page) (t : Watch)
    → t.bound ≡ true
    → let d = check p t in
      (d.element ≡ t.element)
      × (d.settings ≡ t.settings)
      × (d.appeared ≡ seen t.element t.settings p)
      × (d.bound ≡ not (t.settings.one && seen t.element t.settings p && not t.appeared))
      × (d.scrolls
          ≡ (t.scrolls && not (t.settings.one && seen t.element t.settings p && not t.appeared)))
unfolding check trigger modified_fn
check_facts p t b = ground arith

-- The watch `t` of an element calls at every appearance, and its check is called on scrolling.
pub record Repeats (element : ℕ) (s : Settings) (t : Watch) : Type 0 where
  pub element_is : t.element ≡ element
  pub settings_are : t.settings ≡ s
  pub many : s.one ≡ false
  pub bound : t.bound ≡ true
  pub scrolls : t.scrolls ≡ true

called_cases :
    (v i a : Bool) (element : ℕ)
    → (if v && i && not a && true then element ∷ [] else [])
      ≡ replicate (if (v && i) && not a then 1 else 0) element
called_cases false i a element = refl
called_cases true false a element = refl
called_cases true true false element = refl
called_cases true true true element = refl

replicate-add :
    (b : Bool) (n element : ℕ)
    → replicate ((if b then 1 else 0) + n) element
      ≡ (replicate (if b then 1 else 0) element ++ []) ++ replicate n element
replicate-add true n element = ap (λ m. replicate m element) {x = 1 + n} {y = suc n} (omega arith)
replicate-add false n element = ap (λ m. replicate m element) {x = 0 + n} {y = n} (omega arith)

called_bound :
    (p : Page) (t : Watch)
    → t.bound ≡ true
    → called p t
      ≡ replicate (if seen t.element t.settings p && not t.appeared then 1 else 0) t.element
unfolding calls_fn
called_bound p t b =
    ap (λ x. if v && i && not t.appeared && x then t.element ∷ [] else []) b
    ∙ called_cases v i t.appeared t.element
  where
    v : Bool
    v = (p.place t.element).is_visible

    i : Bool
    i = is_inside t.settings p (p.place t.element)

module _ (element : ℕ) (s : Settings) where
  check-Repeats : (p : Page) (t : Watch) → Repeats element s t → Repeats element s (check p t)
  check-Repeats p t r =
      let many : t.settings.one ≡ false = ap (λ x. x.one) r.settings_are ∙ r.many in
      let facts = check_facts p t r.bound in
      record {
        element_is = facts.0 ∙ r.element_is;
        settings_are = facts.1 ∙ r.settings_are;
        many = r.many;
        bound = facts.3 ∙ ground arith;
        scrolls = facts.4 ∙ ground (arith, r.scrolls);
      }

  appeared-check :
      (p : Page) (t : Watch) → Repeats element s t → (check p t).appeared ≡ seen element s p
  appeared-check p t r =
      (check_facts p t r.bound).2 ∙ ap₂ (λ e x. seen e x p) r.element_is r.settings_are

  called_at :
      (p : Page) (t : Watch)
      → Repeats element s t
      → called p t ≡ replicate (if seen element s p && not t.appeared then 1 else 0) element
  called_at p t r =
      called_bound p t r.bound
      ∙ ap₂ (λ e x. replicate (if seen e x p && not t.appeared then 1 else 0) e) r.element_is
          r.settings_are

  scroll_one :
      (p : Page) (t : Watch)
      → Repeats element s t
      → scroll p (t ∷ []) ≡ (check p t ∷ [], called p t ++ [])
  unfolding scroll
  scroll_one p t r = if_true t.scrolls _ _ r.scrolls

  -- How often the element comes into view on these pages.
  abbrev pub appearances : Bool → List Page → ℕ
  appearances before ps = rises before (map (seen element s) ps)

  -- On a page with one watch that calls at every appearance, scrolling through any list of pages
  -- calls the function once each time that the element comes into view, that is, where it
  -- is to be seen on a page and was not on the page before, and at no other time.
  pub log-scrolling :
      (ps : List Page) (t : Watch) (a : Appear)
      → a.watches ≡ t ∷ []
      → Repeats element s t
      → (run_page (map window_scrolled ps) a).log
        ≡ a.log ++ replicate (appearances t.appeared ps) element
  unfolding run_page handle_page
  log-scrolling [] t a w r = sym (append-nil a.log)
  log-scrolling (p ∷ ps) t a w r =
      let one = ap (scroll p) w ∙ scroll_one p t r in
      log-scrolling ps (check p t) (handle_page (window_scrolled p) a) (ap (λ x. x.0) one)
        (check-Repeats p t r)
      ∙ ap₂ (λ l b. l ++ replicate (appearances b ps) element) (ap (λ x. a.log ++ x.1) one)
          (appeared-check p t r)
      ∙ append_assoc a.log (called p t ++ []) _
      ∙ ap (λ x. a.log ++ x)
          (ap (λ x. (x ++ []) ++ replicate (appearances (seen element s p) ps) element)
              (called_at p t r)
            ∙ sym (
                replicate-add (seen element s p && not t.appeared)
                  (appearances (seen element s p) ps) element))
