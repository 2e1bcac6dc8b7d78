-- ===== src/Appear/Tests.antt =====
-- Runs of jquery.appear.js on concrete pages.
use gitb.Base.{
  ℕ, true, false, [], ◌∷◌, ◌++◌, All, map, pos, replicate, ltb, if◌then◌else◌, ◌≡◌, refl,
}
use gitb.Appear.{
  Settings, Page, Appear, new_watch, element_watched, window_scrolled, dom_changed, timeout_fires,
  run_page,
}
use gitb.Appear.Calls.{CallsOnce, run_page-CallsOnce}
use gitb.Appear.Edges.{Repeats, appearances, log-scrolling}

-- A page scrolled down by `top` pixels, with an element of 50 pixels at 1000 * its number.
abbrev scrolled_to : ℕ → Page
scrolled_to top = record {
  scroll_left = pos 0;
  scroll_top = pos top;
  window_width = 800;
  window_height = 600;
  place = λ n. record {
    is_visible = true;
    left = pos 0;
    top = if ltb 0 n then pos 1000 else pos 0;
    width = 100;
    height = 50;
  };
}

abbrev once : Settings
once = record { one = true; acc_x = pos 0; acc_y = pos 0 }

abbrev always : Settings
always = record { one = false; acc_x = pos 0; acc_y = pos 0 }

abbrev nothing : Appear
nothing = record { watches = []; timeout = false; log = [] }

abbrev one_watched : Appear
one_watched = record { watches = new_watch 1 always ∷ []; timeout = false; log = [] }

new_watch-Repeats : Repeats 1 always (new_watch 1 always)
new_watch-Repeats = record {
  element_is = refl;
  settings_are = refl;
  many = refl;
  bound = refl;
  scrolls = refl;
}

run_page-CallsOnce_example :
    All CallsOnce
      (run_page
        (element_watched (scrolled_to 0) 1 once
          ∷ window_scrolled (scrolled_to 900)
          ∷ dom_changed
          ∷ timeout_fires (scrolled_to 900)
          ∷ [])
        nothing).watches
run_page-CallsOnce_example =
    run_page-CallsOnce
      (element_watched (scrolled_to 0) 1 once
        ∷ window_scrolled (scrolled_to 900)
        ∷ dom_changed
        ∷ timeout_fires (scrolled_to 900)
        ∷ [])
      nothing tt

log-scrolling_example :
    (run_page
      (map window_scrolled (scrolled_to 900 ∷ scrolled_to 0 ∷ scrolled_to 950 ∷ []))
      one_watched).log
    ≡ []
      ++ replicate
          (appearances 1 always false (scrolled_to 900 ∷ scrolled_to 0 ∷ scrolled_to 950 ∷ []))
          1
log-scrolling_example =
    log-scrolling 1 always (scrolled_to 900 ∷ scrolled_to 0 ∷ scrolled_to 950 ∷ [])
      (new_watch 1 always) one_watched refl new_watch-Repeats
