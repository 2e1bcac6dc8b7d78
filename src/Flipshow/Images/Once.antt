-- ===== src/Flipshow/Images/Once.antt =====
-- How often `imagesLoaded` of jquery.flipshow.js calls back.
use gitb.Base.{
  ℕ, zero, suc, ◌+◌, Bool, true, false, ◌||◌, Option, none, some, List, [], ◌∷◌, ◌++◌, length,
  length-append, ◌==◌, leb, if◌then◌else◌, if_cases, ◌≡◌, refl, ap, subst, arith,
}
use gitb.Flipshow.Images.{
  Image, Loading, outcome, done_loading, add_image, check_all, img_loaded, check_complete,
  check_image, check_images, new_loading, images_loaded, LoadingEvent, image_event, timeout,
  handle_loading, run_loading, blank, in_array,
}

-- A call of `doneLoading` has been made or is waited for exactly if as many images as there are
-- have been loaded, and each loaded image is proper or broken.
pub record CalledOnce (l : Loading) : Type 0 where
  pub once : l.timers + length l.outcomes ≡ (if leb l.amount (length l.loaded) then 1 else 0)
  pub sorted : length l.proper + length l.broken ≡ length l.loaded

length-snoc : (x : ℕ) (xs : List ℕ) → length (xs ++ x ∷ []) ≡ suc (length xs)
length-snoc x xs = omega (arith, length-append xs (x ∷ []))

check_all-CalledOnce :
    (l m : Loading)
    → CalledOnce l
    → m.amount ≡ l.amount
    → m.timers ≡ l.timers
    → m.outcomes ≡ l.outcomes
    → length m.loaded ≡ suc (length l.loaded)
    → length m.proper + length m.broken ≡ length m.loaded
    → CalledOnce (check_all m)
unfolding check_all
check_all-CalledOnce l m c a t o n s =
    let o' : length m.outcomes ≡ length l.outcomes = ap length o in
    let once = c.once in
    if_cases CalledOnce (m.amount == length m.loaded)
      (λ e. record { once = ground arith; sorted = s })
      (λ e. record { once = ground arith; sorted = s })

add_image-CalledOnce :
    (uid src : ℕ) (b : Bool) (l : Loading)
    → CalledOnce l
    → CalledOnce (check_all (add_image uid src b l))
unfolding add_image
add_image-CalledOnce uid src true l c =
    check_all-CalledOnce l _ c refl refl refl (length-snoc uid l.loaded)
      (omega (arith, length-snoc uid l.loaded, length-snoc uid l.broken, c.sorted))
add_image-CalledOnce uid src false l c =
    check_all-CalledOnce l _ c refl refl refl (length-snoc uid l.loaded)
      (omega (arith, length-snoc uid l.loaded, length-snoc uid l.proper, c.sorted))

img_loaded-CalledOnce :
    (uid src : ℕ) (b : Bool) (l : Loading) → CalledOnce l → CalledOnce (img_loaded uid src b l)
unfolding img_loaded
img_loaded-CalledOnce uid src b l c =
    if_cases CalledOnce (src == blank || in_array uid l.loaded) (λ _. c)
      (λ _. add_image-CalledOnce uid src b l c)

check_complete-CalledOnce :
    (i : Image) (size : Option (ℕ × ℕ)) (l : Loading)
    → i.natural_size ≡ size
    → CalledOnce l
    → CalledOnce (check_complete i l)
check_complete-CalledOnce i none l e c = rw e c
check_complete-CalledOnce i (some size) l e c =
    rw e (if_cases CalledOnce i.is_complete (λ _. img_loaded-CalledOnce i.uid i.src _ l c) (λ _. c))

check_image-CalledOnce :
    (i : Image) (cached : Option (Bool × ℕ)) (l : Loading)
    → i.cached ≡ cached
    → CalledOnce l
    → CalledOnce (check_image i l)
unfolding check_image
check_image-CalledOnce i none l e c = rw e (check_complete-CalledOnce i i.natural_size l refl c)
check_image-CalledOnce i (some d) l e c = rw e (
    if_cases CalledOnce (d.1 == i.src) (λ _. img_loaded-CalledOnce i.uid i.src d.0 l c)
      (λ _. check_complete-CalledOnce i i.natural_size l refl c))

check_images-CalledOnce :
    (is : List Image) (l : Loading) → CalledOnce l → CalledOnce (check_images is l)
unfolding check_images
check_images-CalledOnce [] l c = c
check_images-CalledOnce (i ∷ is) l c =
    check_images-CalledOnce is (check_image i l) (check_image-CalledOnce i i.cached l refl c)

pub images_loaded-CalledOnce : (is : List Image) → CalledOnce (images_loaded is)
unfolding images_loaded done_loading
images_loaded-CalledOnce is =
    if_cases CalledOnce (length is == 0) (λ e. record { once = ground arith; sorted = refl })
      (λ e.
        check_images-CalledOnce is (record (new_loading (length is)) { listening = true })
          (record { once = ground arith; sorted = refl }))

done_loading-CalledOnce :
    (l : Loading) (n : ℕ)
    → l.timers ≡ suc n
    → CalledOnce l
    → CalledOnce (done_loading (record l { timers = n }))
unfolding done_loading
done_loading-CalledOnce l n e c = record {
  once = ground (arith, length-append l.outcomes (outcome l.broken ∷ []), c.once);
  sorted = c.sorted;
}

timeout_calls :
    (l : Loading) (n : ℕ)
    → l.timers ≡ suc n
    → done_loading (record l { timers = n }) ≡ handle_loading timeout l
unfolding handle_loading
timeout_calls l n e = rw e refl

timeout_idle : (l : Loading) → l.timers ≡ 0 → l ≡ handle_loading timeout l
unfolding handle_loading
timeout_idle l e = rw e refl

timeout-CalledOnce :
    (l : Loading) (n : ℕ) → l.timers ≡ n → CalledOnce l → CalledOnce (handle_loading timeout l)
timeout-CalledOnce l zero e c = subst CalledOnce (timeout_idle l e) c
timeout-CalledOnce l (suc n) e c =
    subst CalledOnce (timeout_calls l n e) (done_loading-CalledOnce l n e c)

pub handle_loading-CalledOnce :
    (e : LoadingEvent) (l : Loading) → CalledOnce l → CalledOnce (handle_loading e l)
unfolding handle_loading
handle_loading-CalledOnce (image_event uid src b) l c =
    if_cases CalledOnce l.listening (λ _. img_loaded-CalledOnce uid src b l c) (λ _. c)
handle_loading-CalledOnce timeout l c = timeout-CalledOnce l l.timers refl c

run_from-CalledOnce :
    (es : List LoadingEvent) (l : Loading) → CalledOnce l → CalledOnce (run_loading es l)
unfolding run_loading
run_from-CalledOnce [] l c = c
run_from-CalledOnce (e ∷ es) l c =
    run_from-CalledOnce es (handle_loading e l) (handle_loading-CalledOnce e l c)

-- Through any events and timers after imagesLoaded has been called on any images, the function
-- that it is given has been called, or waits for a timer to be called, once if as many images as
-- there are have been loaded, and has not and does not otherwise; and each loaded
-- image is kept as proper or as broken.
pub run_loading-CalledOnce :
    (is : List Image) (es : List LoadingEvent) → CalledOnce (run_loading es (images_loaded is))
run_loading-CalledOnce is es =
    run_from-CalledOnce es (images_loaded is) (images_loaded-CalledOnce is)
