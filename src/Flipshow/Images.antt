-- ===== src/Flipshow/Images.antt =====
-- `$.fn.imagesLoaded` of jquery.flipshow.js: the images of one call, with a function to call.
pub mod Once
pub mod Reports
use gitb.Base.{
  ℕ, zero, suc, ◌+◌, Bool, true, false, ◌&&◌, ◌||◌, Option, none, some, List, [], ◌∷◌, ◌++◌, length,
  ◌==◌, if◌then◌else◌,
}

-- What an image has: its source by a number, `complete`, `readyState`, its natural size, and what
-- `$.data` has of it from an earlier call.
pub record Image : Type 0 where
  pub uid : ℕ
  pub src : ℕ
  pub is_complete : Bool
  pub natural_size : Option (ℕ × ℕ)
  pub cached : Option (Bool × ℕ)  -- `isBroken` and `src`

-- The number of the source `BLANK`.
abbrev pub blank : ℕ
blank = 0

-- How `doneLoading` settles the promise.
pub data Outcome : Type 0 where
  resolved : Outcome
  rejected : List ℕ → Outcome  -- with the broken images

-- The call. `amount` is `$images.length`, `listening` says whether the handlers are bound, and
-- `timers` counts those that wait to call `doneLoading`; each call of it is in `outcomes`.
pub record Loading : Type 0 where
  pub amount : ℕ
  pub loaded : List ℕ
  pub proper : List ℕ
  pub broken : List ℕ
  pub data_cache : List (ℕ × Bool × ℕ)  -- what `$.data` has been given
  pub listening : Bool
  pub timers : ℕ
  pub outcomes : List Outcome

abbrev pub outcome : List ℕ → Outcome
outcome [] = resolved
outcome (b ∷ bs) = rejected (b ∷ bs)

unfoldable pub done_loading : Loading → Loading
done_loading l = record l { outcomes = l.outcomes ++ outcome l.broken ∷ [] }

-- `$.inArray`
abbrev pub in_array : ℕ → List ℕ → Bool
in_array i [] = false
in_array i (j ∷ js) = i == j || in_array i js

-- `imgLoaded` up to the progress.
unfoldable pub add_image : ℕ → ℕ → Bool → Loading → Loading
add_image uid src is_broken l = record l {
  loaded = l.loaded ++ uid ∷ [];
  broken = if is_broken then l.broken ++ uid ∷ [] else l.broken;
  proper = if is_broken then l.proper else l.proper ++ uid ∷ [];
  data_cache = (uid, is_broken, src) ∷ l.data_cache;
}

-- The end of `imgLoaded`.
unfoldable pub check_all : Loading → Loading
check_all l =
    if l.amount == length l.loaded then record l { timers = l.timers + 1; listening = false } else l

unfoldable pub img_loaded : ℕ → ℕ → Bool → Loading → Loading
unfolding add_image check_all
img_loaded uid src is_broken l =
    if src == blank || in_array uid l.loaded then l else check_all (add_image uid src is_broken l)

-- Whether an image is complete, by its own account.
abbrev pub has_no_size : ℕ × ℕ → Bool
has_no_size (width, height) = width == 0 || height == 0

abbrev pub check_complete : Image → Loading → Loading
check_complete i l = elim i.natural_size [
  | none ↦ l
  | some size ↦ if i.is_complete then img_loaded i.uid i.src (has_no_size size) l else l
]

-- The function that each image is given to. Setting the source anew changes nothing here: what
-- comes of it is an event.
unfoldable pub check_image : Image → Loading → Loading
unfolding img_loaded
check_image i l = elim i.cached [
  | none ↦ check_complete i l
  | some c ↦ if c.1 == i.src then img_loaded i.uid i.src c.0 l else check_complete i l
]

unfoldable pub check_images : List Image → Loading → Loading
unfolding check_image
check_images [] l = l
check_images (i ∷ is) l = check_images is (check_image i l)

abbrev pub new_loading : ℕ → Loading
new_loading n = record {
  amount = n;
  loaded = [];
  proper = [];
  broken = [];
  data_cache = [];
  listening = false;
  timers = 0;
  outcomes = [];
}

unfoldable pub images_loaded : List Image → Loading
unfolding done_loading check_images
images_loaded is =
    let l = new_loading (length is) in
    if length is == 0 then done_loading l else check_images is (record l { listening = true })

-- `load` and `error` of an image, and a timer that calls `doneLoading`.
pub data LoadingEvent : Type 0 where
  image_event : ℕ → ℕ → Bool → LoadingEvent
  timeout : LoadingEvent

unfoldable pub handle_loading : LoadingEvent → Loading → Loading
unfolding img_loaded done_loading
handle_loading (image_event uid src is_error) l =
    if l.listening then img_loaded uid src is_error l else l
handle_loading timeout l = elim l.timers [
  | zero ↦ l
  | suc n ↦ done_loading (record l { timers = n })
]

unfoldable pub run_loading : List LoadingEvent → Loading → Loading
unfolding handle_loading
run_loading [] l = l
run_loading (e ∷ es) l = run_loading es (handle_loading e l)
