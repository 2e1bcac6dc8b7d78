-- ===== src/Flipshow/Tests.antt =====
-- Runs of jquery.flipshow.js on three slides.
use gitb.Base.{inl, ℕ, ◌%◌, true, false, none, some, List, [], ◌∷◌, ◌++◌, map, ◌≡◌, refl, arith}
use gitb.Flipshow.{init, images_loaded, left, right, nav_clicked, timer, transition_end, run}
use gitb.Flipshow.Images
use gitb.Flipshow.Images.{Image, image_event, timeout, rejected, run_loading}
use gitb.Flipshow.Images.Reports.{report, run_loading-outcomes}
use gitb.Flipshow.Cycle.{turns, distance, run_turns-item}
use gitb.Flipshow.Plugin.{
  new_plugin, of_image, of_slides, run_plugin, PluginEvent, IsInOrder, run_plugin-IsInOrder,
}

-- An image that is still to be loaded.
abbrev waiting : ℕ → Image
waiting n = record {
  uid = n;
  src = n;
  is_complete = false;
  natural_size = some (0, 0);
  cached = none;
}

-- An image that an earlier call has found broken.
abbrev known : Image
known = record {
  uid = 3;
  src = 3;
  is_complete = true;
  natural_size = some (0, 0);
  cached = some (true, 3);
}

-- The images come, and a click is made before, while and after.
abbrev some_events : List PluginEvent
some_events =
    of_slides (nav_clicked right 0)
    ∷ of_image (image_event 2 2 false)
    ∷ of_image (image_event 2 2 false)
    ∷ of_image (image_event 1 1 true)
    ∷ of_image timeout
    ∷ of_slides (nav_clicked left 1)
    ∷ of_slides (nav_clicked left 1)
    ∷ of_slides timer
    ∷ of_slides (transition_end true)
    ∷ []

run_plugin-IsInOrder_example :
    IsInOrder 3 true
      (run_plugin some_events (new_plugin (waiting 1 ∷ waiting 2 ∷ known ∷ []) 3 true))
run_plugin-IsInOrder_example =
    run_plugin-IsInOrder (waiting 1 ∷ waiting 2 ∷ known ∷ []) 3 true some_events (omega arith)

some_events_item :
    (run_plugin some_events (new_plugin (waiting 1 ∷ waiting 2 ∷ known ∷ []) 3 true)).slides.current
    ≡ 2
unfolding run_plugin Images.images_loaded images_loaded gitb.Flipshow.handle Images.handle_loading
some_events_item = refl

run_turns-item_example :
    (run (turns ((right, 0) ∷ (right, 2) ∷ (left, 1) ∷ [])) (images_loaded (init 3 true))).current
    ≡ distance 3 ((right, 0) ∷ (right, 2) ∷ (left, 1) ∷ []) % 3
run_turns-item_example = run_turns-item 2 true ((right, 0) ∷ (right, 2) ∷ (left, 1) ∷ [])

-- Without transitions nothing holds a second click back.
two_clicks :
    (run (nav_clicked right 0 ∷ nav_clicked right 0 ∷ []) (images_loaded (init 3 false))).current
    ≡ 2
unfolding run images_loaded
two_clicks = refl

run_loading-outcomes_example :
    (run_loading
      (map report ((2, 2, false) ∷ (1, 1, true) ∷ []) ++ timeout ∷ [])
      (Images.images_loaded (waiting 1 ∷ waiting 2 ∷ []))).outcomes
    ≡ rejected (1 ∷ []) ∷ []
run_loading-outcomes_example =
    run_loading-outcomes (waiting 1 ∷ waiting 2 ∷ []) 2 2 false ((1, 1, true) ∷ [])
      (
        record { uncached = refl; unknown = inl refl },
        (record { uncached = refl; unknown = inl refl }, tt),
      )
      refl (refl, refl, (refl, refl, tt))
