-- ===== src/Appear.antt =====
-- The plugin gitb-ui/app/assets/components/jquery.appear.js, for elements that are watched once
-- each, with a function to call. The function does not call the plugin back.
pub mod Calls
pub mod Edges
mod Tests
use gitb.Base.{
  ℕ, ◌+◌, Bool, true, false, not, ◌&&◌, List, [], ◌∷◌, ◌++◌, ℤ, pos, ◌+ℤ◌, leb_ℤ, if◌then◌else◌,
}

pub record Settings : Type 0 where
  pub one : Bool
  pub acc_x : ℤ
  pub acc_y : ℤ

-- Where an element is: `offset`, `width` and `height`, and `is(":visible")`.
pub record Place : Type 0 where
  pub is_visible : Bool
  pub left : ℤ
  pub top : ℤ
  pub width : ℕ
  pub height : ℕ

-- The window, and where the elements are, by their numbers.
pub record Page : Type 0 where
  pub scroll_left : ℤ
  pub scroll_top : ℤ
  pub window_width : ℕ
  pub window_height : ℕ
  pub place : ℕ → Place

-- An element with its `check`. `scrolls` says that `check` is a handler of the window's scroll,
-- `queued` that it is in `$.fn.appear.checks`, and `bound` that `modifiedFn` is bound.
pub record Watch : Type 0 where
  pub element : ℕ
  pub settings : Settings
  pub appeared : Bool
  pub scrolls : Bool
  pub queued : Bool
  pub bound : Bool
  pub calls : ℕ  -- how often `fn` has been called

-- The watches in the order of `checks`, and whether the timer of `run` runs.
pub record Appear : Type 0 where
  pub watches : List Watch
  pub timeout : Bool
  pub log : List ℕ  -- the elements for which `fn` was called, in order

-- Whether the element is inside the visible window.
unfoldable pub is_inside : Settings → Page → Place → Bool
unfolding ◌+ℤ◌
is_inside s p o =
    leb_ℤ p.scroll_top (o.top +ℤ pos o.height +ℤ s.acc_y)
    && leb_ℤ o.top (p.scroll_top +ℤ pos p.window_height +ℤ s.acc_y)
    && leb_ℤ p.scroll_left (o.left +ℤ pos o.width +ℤ s.acc_x)
    && leb_ℤ o.left (p.scroll_left +ℤ pos p.window_width +ℤ s.acc_x)

-- `modifiedFn`; `one` takes the handler off too.
unfoldable pub modified_fn : Watch → Watch
modified_fn t =
    let t' = record t { appeared = true; calls = t.calls + 1 } in
    if t.settings.one then record t' { scrolls = false; queued = false; bound = false } else t'

-- `t.trigger('appear')`
unfoldable pub trigger : Watch → Watch
unfolding modified_fn
trigger t = if t.bound then modified_fn t else t

unfoldable pub check : Page → Watch → Watch
unfolding is_inside trigger
check p t =
    if not (p.place t.element).is_visible
    then record t { appeared = false }
    else if is_inside t.settings p (p.place t.element)
    then if not t.appeared then trigger t else t
    else record t { appeared = false }

-- Whether that check calls `fn`.
unfoldable pub calls_fn : Page → Watch → Bool
unfolding is_inside
calls_fn p t =
    (p.place t.element).is_visible
    && is_inside t.settings p (p.place t.element)
    && not t.appeared
    && t.bound

abbrev pub called : Page → Watch → List ℕ
called p t = if calls_fn p t then t.element ∷ [] else []

-- The checks of the handlers of `scroll`, in the order in which they were bound.
unfoldable pub scroll : Page → List Watch → List Watch × List ℕ
unfolding check calls_fn
scroll p [] = ([], [])
scroll p (t ∷ ts) =
    let (rest, log) = scroll p ts in
    if t.scrolls then (check p t ∷ rest, called p t ++ log) else (t ∷ rest, log)

-- `checkAll`, from the last check to the first. A check takes no other out of the queue.
unfoldable pub check_all : Page → List Watch → List Watch × List ℕ
unfolding check calls_fn
check_all p [] = ([], [])
check_all p (t ∷ ts) =
    let (rest, log) = check_all p ts in
    if t.queued then (check p t ∷ rest, log ++ called p t) else (t ∷ rest, log)

abbrev pub new_watch : ℕ → Settings → Watch
new_watch element s = record {
  element = element;
  settings = s;
  appeared = false;
  scrolls = true;
  queued = true;
  bound = true;
  calls = 0;
}

-- `$.fn.appear` on one element.
unfoldable pub watch : Page → ℕ → Settings → Appear → Appear
unfolding check calls_fn
watch p element s a = record a {
  watches = a.watches ++ check p (new_watch element s) ∷ [];
  log = a.log ++ called p (new_watch element s);
}

pub data PageEvent : Type 0 where
  element_watched : Page → ℕ → Settings → PageEvent
  window_scrolled : Page → PageEvent
  dom_changed : PageEvent  -- by one of the methods that end in `run`
  timeout_fires : Page → PageEvent

unfoldable pub handle_page : PageEvent → Appear → Appear
unfolding watch scroll check_all
handle_page (element_watched p element s) a = watch p element s a
handle_page (window_scrolled p) a =
    let (ts, log) = scroll p a.watches in record a { watches = ts; log = a.log ++ log }
handle_page dom_changed a = record a { timeout = true }
handle_page (timeout_fires p) a =
    if not a.timeout
    then a
    else (let (ts, log) = check_all p a.watches in
        record a { watches = ts; log = a.log ++ log; timeout = false })

unfoldable pub run_page : List PageEvent → Appear → Appear
run_page [] a = a
run_page (e ∷ es) a = run_page es (handle_page e a)
