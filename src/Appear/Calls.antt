-- ===== src/Appear/Calls.antt =====
-- jquery.appear.js calls the function of an element that is to appear once at most once.
use gitb.Base.{
  ℕ, true, false, not, List, [], ◌∷◌, ◌++◌, All, if◌then◌else◌, if_cases, ◌≡◌, refl, arith,
}
use gitb.Appear.{
  Settings, Page, Watch, Appear, is_inside, modified_fn, trigger, check, scroll, check_all,
  new_watch, watch, PageEvent, element_watched, window_scrolled, dom_changed, timeout_fires,
  handle_page, run_page,
}

-- As long as the function of a watch that is to call once has not been called, the watch is in both
-- lists of checks; afterwards it has been called once, and is in none.
pub record CallsOnce (t : Watch) : Type 0 where
  pub called : t.settings.one ≡ true → t.calls ≡ (if t.bound then 0 else 1)
  pub scrolling : t.settings.one ≡ true → t.scrolls ≡ t.bound
  pub queueing : t.settings.one ≡ true → t.queued ≡ t.bound

module _ (t : Watch) (c : CallsOnce t) where
  at_rest : CallsOnce (record t { appeared = false })
  at_rest = record { called = c.called; scrolling = c.scrolling; queueing = c.queueing }

  modified_fn-CallsOnce : t.bound ≡ true → CallsOnce (modified_fn t)
  unfolding modified_fn
  modified_fn-CallsOnce b =
      if_cases CallsOnce t.settings.one
        (λ h. record {
          called = λ _. ground (arith, c.called h);
          scrolling = λ _. refl;
          queueing = λ _. refl;
        })
        (λ e. record {
          called = λ h. absurd (ground arith);
          scrolling = λ h. absurd (ground arith);
          queueing = λ h. absurd (ground arith);
        })

  trigger-CallsOnce : CallsOnce (trigger t)
  unfolding trigger
  trigger-CallsOnce = if_cases CallsOnce t.bound modified_fn-CallsOnce (λ _. c)

  check-CallsOnce : (p : Page) → CallsOnce (check p t)
  unfolding check
  check-CallsOnce p =
      if_cases CallsOnce (not (p.place t.element).is_visible) (λ _. at_rest)
        (λ _.
          if_cases CallsOnce (is_inside t.settings p (p.place t.element))
            (λ _. if_cases CallsOnce (not t.appeared) (λ _. trigger-CallsOnce) (λ _. c))
            (λ _. at_rest))

new_watch-CallsOnce : (element : ℕ) (s : Settings) → CallsOnce (new_watch element s)
new_watch-CallsOnce element s = record {
  called = λ _. refl;
  scrolling = λ _. refl;
  queueing = λ _. refl;
}

module _ (p : Page) where
  scroll-CallsOnce : (ts : List Watch) → All CallsOnce ts → All CallsOnce (scroll p ts).0
  unfolding scroll
  scroll-CallsOnce [] a = tt
  scroll-CallsOnce (t ∷ ts) a =
      if_cases (λ (r : List Watch × List ℕ). All CallsOnce r.0) t.scrolls
        (λ _. (check-CallsOnce t a.0 p, scroll-CallsOnce ts a.1))
        (λ _. (a.0, scroll-CallsOnce ts a.1))

  check_all-CallsOnce : (ts : List Watch) → All CallsOnce ts → All CallsOnce (check_all p ts).0
  unfolding check_all
  check_all-CallsOnce [] a = tt
  check_all-CallsOnce (t ∷ ts) a =
      if_cases (λ (r : List Watch × List ℕ). All CallsOnce r.0) t.queued
        (λ _. (check-CallsOnce t a.0 p, check_all-CallsOnce ts a.1))
        (λ _. (a.0, check_all-CallsOnce ts a.1))

All-append :
    (t : Watch) (ts : List Watch) → All CallsOnce ts → CallsOnce t → All CallsOnce (ts ++ t ∷ [])
All-append t [] a c = (c, tt)
All-append t (x ∷ xs) a c = (a.0, All-append t xs a.1 c)

handle_page-CallsOnce :
    (e : PageEvent) (a : Appear) → All CallsOnce a.watches → All CallsOnce (handle_page e a).watches
unfolding handle_page watch
handle_page-CallsOnce (element_watched p element s) a c =
    All-append _ a.watches c
      (check-CallsOnce (new_watch element s) (new_watch-CallsOnce element s) p)
handle_page-CallsOnce (window_scrolled p) a c = scroll-CallsOnce p a.watches c
handle_page-CallsOnce dom_changed a c = c
handle_page-CallsOnce (timeout_fires p) a c =
    if_cases (λ (d : Appear). All CallsOnce d.watches) (not a.timeout) (λ _. c)
      (λ _. check_all-CallsOnce p a.watches c)

-- Whatever is watched, scrolled and changed, in any order: the function of an element that is to
-- call once is called at most once, its checks stay in both lists until it is called, and are in
-- neither afterwards, if this holds at the start.
pub run_page-CallsOnce :
    (es : List PageEvent) (a : Appear)
    → All CallsOnce a.watches
    → All CallsOnce (run_page es a).watches
unfolding run_page
run_page-CallsOnce [] a c = c
run_page-CallsOnce (e ∷ es) a c = run_page-CallsOnce es _ (handle_page-CallsOnce e a c)
