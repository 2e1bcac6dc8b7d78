-- ===== src/Flipshow/Images/Reports.antt =====
-- Images of jquery.flipshow.js that report one after the other.
use gitb.Base.{
  ◌⊎◌, inl, inr, Option, some, ℕ, suc, ◌+◌, Bool, true, false, ◌||◌, none, List, [], ◌∷◌, ◌++◌,
  length, length-append, ◌==◌, if_true, if_false, ◌≡◌, refl, sym, ap, ◌∙◌, arith, All, map,
}
use mathlib.Core.List.{append-nil, append_assoc}
use gitb.Flipshow.Images.{
  Image, Loading, check_complete, outcome, done_loading, add_image, check_all, img_loaded,
  check_image, check_images, new_loading, images_loaded, LoadingEvent, image_event, timeout,
  handle_loading, run_loading, blank, in_array,
}

-- An image of which nothing is known and whose state says nothing yet: it is not complete, or the
-- browser has no natural sizes.
pub record IsWaiting (i : Image) : Type 0 where
  pub uncached : i.cached ≡ none
  pub unknown : (i.is_complete ≡ false) ⊎ (i.natural_size ≡ none)

-- A report, of an image, a source, and whether it is an error.
abbrev pub report : ℕ × ℕ × Bool → LoadingEvent
report (uid, src, is_error) = image_event uid src is_error

-- No report is of an image that is loaded or has reported, or of the source `BLANK`.
abbrev pub AllNew : List (ℕ × ℕ × Bool) → List ℕ → Type 0
AllNew [] ls = Unit
AllNew ((uid, src, _) ∷ rs) ls =
    ((src == blank) ≡ false) × (in_array uid ls ≡ false) × AllNew rs (ls ++ uid ∷ [])

-- The images that report an error.
abbrev pub errors : List (ℕ × ℕ × Bool) → List ℕ
errors [] = []
errors ((uid, src, true) ∷ rs) = uid ∷ errors rs
errors ((uid, src, false) ∷ rs) = errors rs

check_unknown :
    (i : Image) (size : Option (ℕ × ℕ)) (l : Loading)
    → i.natural_size ≡ size
    → (i.is_complete ≡ false) ⊎ (i.natural_size ≡ none)
    → check_complete i l ≡ l
check_unknown i none l e u = rw e refl
check_unknown i (some size) l e (inl incomplete) = rw (e, incomplete) refl
check_unknown i (some size) l e (inr sizeless) = cc

check_uncached : (i : Image) (l : Loading) → i.cached ≡ none → check_image i l ≡ check_complete i l
unfolding check_image
check_uncached i l e = rw e refl

check_waiting : (is : List Image) (l : Loading) → All IsWaiting is → check_images is l ≡ l
unfolding check_images
check_waiting [] l h = refl
check_waiting (i ∷ is) l (w, h) =
    ap (check_images is)
      (check_uncached i l w.uncached ∙ check_unknown i i.natural_size l refl w.unknown)
    ∙ check_waiting is l h

-- A report is taken.
report_taken :
    (uid src : ℕ) (b : Bool) (l : Loading)
    → l.listening ≡ true
    → (src == blank) ≡ false
    → in_array uid l.loaded ≡ false
    → handle_loading (image_event uid src b) l ≡ check_all (add_image uid src b l)
unfolding handle_loading img_loaded
report_taken uid src b l on s n =
    if_true l.listening _ _ on
    ∙ if_false (src == blank || in_array uid l.loaded) _ _
        (ap (λ x. x || in_array uid l.loaded) s ∙ n)

check_all-goes_on : (l : Loading) → (l.amount == length l.loaded) ≡ false → check_all l ≡ l
unfolding check_all
check_all-goes_on l m = if_false (l.amount == length l.loaded) _ _ m

check_all-ends :
    (l : Loading)
    → (l.amount == length l.loaded) ≡ true
    → check_all l ≡ record l { timers = l.timers + 1; listening = false }
unfolding check_all
check_all-ends l m = if_true (l.amount == length l.loaded) _ _ m

timeout_last :
    (l : Loading)
    → l.timers ≡ 0
    → (handle_loading timeout (record l { timers = l.timers + 1; listening = false })).outcomes
      ≡ l.outcomes ++ outcome l.broken ∷ []
unfolding handle_loading done_loading
timeout_last l e = rw e refl

broken-errors :
    (uid src : ℕ) (b : Bool) (rs : List (ℕ × ℕ × Bool)) (l : Loading)
    → (add_image uid src b l).broken ++ errors rs ≡ l.broken ++ errors ((uid, src, b) ∷ rs)
unfolding add_image
broken-errors uid src true rs l = append_assoc l.broken (uid ∷ []) (errors rs)
broken-errors uid src false rs l = refl

reports-at :
    (uid src : ℕ) (b : Bool) (rs : List (ℕ × ℕ × Bool)) (l : Loading)
    → l.listening ≡ true
    → l.timers ≡ 0
    → l.amount ≡ length l.loaded + suc (length rs)
    → AllNew ((uid, src, b) ∷ rs) l.loaded
    → (run_loading (map report ((uid, src, b) ∷ rs) ++ timeout ∷ []) l).outcomes
      ≡ l.outcomes ++ outcome (l.broken ++ errors ((uid, src, b) ∷ rs)) ∷ []
unfolding run_loading add_image
reports-at uid src b [] l on z a (s, n, h) =
    let l' = add_image uid src b l in
    ap (λ m. (handle_loading timeout m).outcomes)
      (report_taken uid src b l on s n
        ∙ check_all-ends l' (ground (arith, length-append l.loaded (uid ∷ []))))
    ∙ timeout_last l' z
    ∙ ap (λ bs. l.outcomes ++ outcome bs ∷ [])
        (sym (append-nil l'.broken) ∙ broken-errors uid src b [] l)
reports-at uid src b ((uid', src', b') ∷ rs) l on z a (s, n, h) =
    let l' = add_image uid src b l in
    ap (λ m. (run_loading (map report ((uid', src', b') ∷ rs) ++ timeout ∷ []) m).outcomes)
      (report_taken uid src b l on s n
        ∙ check_all-goes_on l' (ground (arith, length-append l.loaded (uid ∷ []))))
    ∙ reports-at uid' src' b' rs l' on z (omega (arith, a, length-append l.loaded (uid ∷ []))) h
    ∙ ap (λ bs. l.outcomes ++ outcome bs ∷ []) (broken-errors uid src b ((uid', src', b') ∷ rs) l)

-- If no image has been called for before, and each is still to be complete or has no natural
-- sizes in its browser, and then each reports once that it has loaded or failed
-- (as many distinct images report as there are, of sources that are not `BLANK`), `doneLoading` is
-- called at the end, for the first time: the promise is rejected with the images that have
-- failed, in the order of their reports, or resolved if there is none.
pub run_loading-outcomes :
    (is : List Image) (uid src : ℕ) (b : Bool) (rs : List (ℕ × ℕ × Bool))
    → All IsWaiting is
    → length is ≡ suc (length rs)
    → AllNew ((uid, src, b) ∷ rs) []
    → (run_loading (map report ((uid, src, b) ∷ rs) ++ timeout ∷ []) (images_loaded is)).outcomes
      ≡ outcome (errors ((uid, src, b) ∷ rs)) ∷ []
unfolding images_loaded
run_loading-outcomes is uid src b rs w a h =
    let l = record (new_loading (length is)) { listening = true } in
    ap (λ m. (run_loading (map report ((uid, src, b) ∷ rs) ++ timeout ∷ []) m).outcomes)
      (if_false (length is == 0) _ _ (ground arith) ∙ check_waiting is l w)
    ∙ reports-at uid src b rs l refl refl (omega (arith, a)) h
