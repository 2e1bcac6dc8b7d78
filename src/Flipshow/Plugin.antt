-- ===== src/Flipshow/Plugin.antt =====
-- The plugin as a whole: the loading of the images of jquery.flipshow.js, and the slides that wait
-- for it.
use gitb.Base.{
  ℕ, zero, suc, ◌≤◌, ◌<◌, Bool, true, false, ◌||◌, List, [], ◌∷◌, length, length-append, ◌==◌,
  ==→eq, if◌then◌else◌, if_cases, inl, inr, ◌⊎◌, ◌≡◌, refl, sym, ap, ◌∙◌, subst, arith,
}
use gitb.Flipshow
use gitb.Flipshow.{Flipshow, init, Event, nav_clicked, timer, transition_end, handle}
use gitb.Flipshow.Images
use gitb.Flipshow.Images.{
  Image, Loading, LoadingEvent, image_event, timeout, done_loading, outcome, add_image, check_all,
  img_loaded, blank, in_array, handle_loading,
}
use gitb.Flipshow.Images.Once.{CalledOnce, images_loaded-CalledOnce, handle_loading-CalledOnce}
use gitb.Flipshow.Shown.{IsShowing, images_loaded-IsShowing, handle-IsShowing}

pub record Plugin : Type 0 where
  pub loading : Loading
  pub slides : Flipshow

-- `callback.call` of `doneLoading`: a new outcome calls the function of `_init`.
abbrev pub call_back : Loading → Plugin → Plugin
call_back l p = record {
  loading = l;
  slides =
      if length p.loading.outcomes == length l.outcomes
      then p.slides
      else Flipshow.images_loaded p.slides;
}

-- `_init`
abbrev pub unloaded : List Image → ℕ → Bool → Plugin
unloaded images count support = record {
  loading = Images.new_loading (length images);
  slides = init count support;
}

abbrev pub new_plugin : List Image → ℕ → Bool → Plugin
new_plugin images count support =
    call_back (Images.images_loaded images) (unloaded images count support)

pub data PluginEvent : Type 0 where
  of_image : LoadingEvent → PluginEvent
  of_slides : Event → PluginEvent

unfoldable pub handle_plugin : PluginEvent → Plugin → Plugin
handle_plugin (of_image e) p = call_back (handle_loading e p.loading) p
handle_plugin (of_slides e) p = record p { slides = handle e p.slides }

unfoldable pub run_plugin : List PluginEvent → Plugin → Plugin
unfolding handle_plugin
run_plugin [] p = p
run_plugin (e ∷ es) p = run_plugin es (handle_plugin e p)

-- The slides after that many calls.
abbrev pub InPhase : ℕ → Bool → ℕ → Flipshow → Type 0
InPhase count support calls s =
    ((calls ≡ 0) × (s ≡ init count support)) ⊎ ((calls ≡ 1) × IsShowing s)

-- Before the call nothing has happened to the slides; after it they show the current item.
pub record IsInOrder (count : ℕ) (support : Bool) (p : Plugin) : Type 0 where
  pub called : CalledOnce p.loading
  pub phase : InPhase count support (length p.loading.outcomes) p.slides

img_loaded-outcomes :
    (uid src : ℕ) (b : Bool) (l : Loading) → (img_loaded uid src b l).outcomes ≡ l.outcomes
unfolding img_loaded add_image check_all
img_loaded-outcomes uid src b l =
    if_cases (λ (m : Loading). m.outcomes ≡ l.outcomes) (src == blank || in_array uid l.loaded)
      (λ _. refl)
      (λ _.
        if_cases (λ (m : Loading). m.outcomes ≡ l.outcomes)
          (l.amount == length (add_image uid src b l).loaded) (λ _. refl) (λ _. refl))

-- No call is taken back.
timeout-grows :
    (n : ℕ) (l : Loading)
    → l.timers ≡ n
    → length l.outcomes ≤ length (handle_loading timeout l).outcomes
unfolding handle_loading done_loading
timeout-grows zero l e = rw e (omega arith)
timeout-grows (suc n) l e = rw e (omega (arith, length-append l.outcomes (outcome l.broken ∷ [])))

outcomes-grow :
    (e : LoadingEvent) (l : Loading) → length l.outcomes ≤ length (handle_loading e l).outcomes
unfolding handle_loading
outcomes-grow (image_event uid src b) l =
    if_cases (λ (m : Loading). length l.outcomes ≤ length m.outcomes) l.listening
      (λ _. omega (arith, ap length (img_loaded-outcomes uid src b l))) (λ _. omega arith)
outcomes-grow timeout l = timeout-grows l.timers l refl

at_most_once : (l : Loading) → CalledOnce l → length l.outcomes ≤ 1
at_most_once l c = ground (arith, c.once)

handle-init :
    (e : Event) (count : ℕ) (support : Bool) → handle e (init count support) ≡ init count support
unfolding handle Flipshow.timer_fires Flipshow.transition_ends Flipshow.each_listener
handle-init (nav_clicked dir angle) count support = refl
handle-init timer count support = refl
handle-init (transition_end true) count support = refl
handle-init (transition_end false) count support = refl

module _ (count : ℕ) (support : Bool) (some_slide : 0 < count) where
  call_back-InPhase :
      (l : Loading) (p : Plugin)
      → InPhase count support (length p.loading.outcomes) p.slides
      → CalledOnce l
      → length p.loading.outcomes ≤ length l.outcomes
      → InPhase count support (length l.outcomes) (call_back l p).slides
  call_back-InPhase l p w c g =
      if_cases (InPhase count support (length l.outcomes))
        (length p.loading.outcomes == length l.outcomes)
        (λ e. subst (λ n. InPhase count support n p.slides) (==→eq _ _ e) w)
        (λ e. elim w [
          | inl (z, s) ↦ inr (
            ground (arith, at_most_once l c),
            subst (λ x. IsShowing (Flipshow.images_loaded x)) (sym s)
                (images_loaded-IsShowing count support some_slide),
          )
          | inr (o, s) ↦ absurd (ground (arith, at_most_once l c))
        ])

  handle_slides-InPhase :
      (e : Event) (n : ℕ) (s : Flipshow)
      → InPhase count support n s
      → InPhase count support n (handle e s)
  handle_slides-InPhase e n s (inl (z, i)) = inl (z, ap (handle e) i ∙ handle-init e count support)
  handle_slides-InPhase e n s (inr (o, w)) = inr (o, handle-IsShowing e s w)

  handle_plugin-IsInOrder :
      (e : PluginEvent) (p : Plugin)
      → IsInOrder count support p
      → IsInOrder count support (handle_plugin e p)
  unfolding handle_plugin
  handle_plugin-IsInOrder (of_image e) p w =
      let c = handle_loading-CalledOnce e p.loading w.called in
      record { called = c; phase = call_back-InPhase _ p w.phase c (outcomes-grow e p.loading) }
  handle_plugin-IsInOrder (of_slides e) p w = record {
    called = w.called;
    phase = handle_slides-InPhase e (length p.loading.outcomes) p.slides w.phase;
  }

  run_from-IsInOrder :
      (es : List PluginEvent) (p : Plugin)
      → IsInOrder count support p
      → IsInOrder count support (run_plugin es p)
  unfolding run_plugin
  run_from-IsInOrder [] p w = w
  run_from-IsInOrder (e ∷ es) p w =
      run_from-IsInOrder es (handle_plugin e p) (handle_plugin-IsInOrder e p w)

  new_plugin-IsInOrder :
      (images : List Image) → IsInOrder count support (new_plugin images count support)
  new_plugin-IsInOrder images =
      let c = images_loaded-CalledOnce images in
      record {
        called = c;
        phase =
            call_back-InPhase (Images.images_loaded images) (unloaded images count support)
              (inl (refl, refl)) c (omega arith);
      }

-- Through any events of the images, clicks on the buttons, timers and ends of transitions, in
-- any order, a slideshow of at least one slide is in order. The function that waits for the
-- images has been called or waits for its timer, once, if as many images as there are have been
-- loaded, and not otherwise, and a loaded image is kept as proper or as broken. Until that call
-- the slides are as `_init` has left them. After it the current item is in range, and either it
-- is shown, no other item is and nothing turns, or no item is shown, the element that turns is,
-- its back is the current item, and one timer or one handler, not both, waits for showing it.
pub run_plugin-IsInOrder :
    (images : List Image) (count : ℕ) (support : Bool) (es : List PluginEvent)
    → 0 < count
    → IsInOrder count support (run_plugin es (new_plugin images count support))
run_plugin-IsInOrder images count support es h =
    run_from-IsInOrder count support h es (new_plugin images count support)
      (new_plugin-IsInOrder count support h images)
