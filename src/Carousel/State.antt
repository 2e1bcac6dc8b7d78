-- ===== src/Carousel/State.antt =====
-- The object `Carousel` of owl.carousel.js as a record, its options, and the values that its
-- methods take. A field keeps the name that the source gives it, in snake case; what jQuery keeps
-- in the page for the carousel (the data and classes of its elements) is a field too.
use gitb.Base.{
  ℕ, zero, suc, ◌%◌, Bool, true, false, Option, none, some, List, [], ◌∷◌, ◌++◌, ℤ, pos, negsuc,
  get_elem?, ◌==◌,
}

-- A break point `[width, items]`, or `false`.
abbrev pub BreakPoint : Type 0
BreakPoint = Option (ℕ × ℕ)

pub record Options : Type 0 where
  pub items : ℕ
  pub items_custom : Option (List (ℕ × ℕ))
  pub items_desktop : BreakPoint
  pub items_desktop_small : BreakPoint
  pub items_tablet : BreakPoint
  pub items_tablet_small : BreakPoint
  pub items_mobile : BreakPoint
  pub single_item : Bool
  pub items_scale_up : Bool
  pub slide_speed : ℕ
  pub pagination_speed : ℕ
  pub rewind_speed : ℕ
  pub auto_play : Option ℕ  -- `false`, or the period
  pub stop_on_hover : Bool
  pub navigation : Bool
  pub rewind_nav : Bool
  pub scroll_per_page : Bool
  pub pagination : Bool
  pub pagination_numbers : Bool
  pub responsive : Bool
  pub lazy_load : Bool
  pub lazy_follow : Bool
  pub auto_height : Bool
  pub drag_before_anim_finish : Bool
  pub mouse_drag : Bool
  pub touch_drag : Bool
  pub add_class_active : Bool
  pub transition_style : Bool  -- whether it is another value than `false`

-- `$.fn.owlCarousel.options`
abbrev pub default_options : Options
default_options = record {
  items = 5;
  items_custom = none;
  items_desktop = some (1199, 4);
  items_desktop_small = some (979, 3);
  items_tablet = some (768, 2);
  items_tablet_small = none;
  items_mobile = some (479, 1);
  single_item = false;
  items_scale_up = false;
  slide_speed = 200;
  pagination_speed = 800;
  rewind_speed = 1000;
  auto_play = none;
  stop_on_hover = false;
  navigation = false;
  rewind_nav = true;
  scroll_per_page = false;
  pagination = true;
  pagination_numbers = false;
  responsive = true;
  lazy_load = false;
  lazy_follow = true;
  auto_height = false;
  drag_before_anim_finish = true;
  mouse_drag = true;
  touch_drag = true;
  add_class_active = false;
  transition_style = false;
}

-- The argument `speed` of a move: `true`, `"rewind"`, or any other value.
pub data Speed : Type 0 where
  page rewind usual : Speed

-- `apStatus`; `unset` before the first call of `play` or `stop`.
pub data ApStatus : Type 0 where
  unset playing stopped : ApStatus

-- `data("owl-loaded")` of an item: undefined, "checked" or "loaded".
pub data Loaded : Type 0 where
  untouched checked loaded : Loaded

-- One element of `$owlItems`. `has_src` says that its `.lazyOwl` has a text as `data-src`.
pub record Item : Type 0 where
  pub round_pages : ℕ  -- data "owl-roundPages"
  pub has_src : Bool
  pub load_state : Loaded
  pub complete : Bool  -- `completeImg` of its image, or the image is the background of a DIV
  pub polls : ℕ  -- the loops of `checkLazyImage` that wait for its image
  pub visible : Bool  -- the class `active`

-- One element of `.owl-page`: its data "owl-page" and "owl-roundPages", and the class `active`.
pub record PageButton : Type 0 where
  pub label : Option ℕ  -- the text, when the pages are numbered
  pub target : ℤ
  pub round_page : ℕ
  pub active : Bool

-- What the carousel calls or asks the page for, in order.
pub data Effect : Type 0 where
  before_move after_move after_action : Effect
  auto_height_runs : Effect
  css_speed : ℕ → Effect  -- `addCssSpeed`
  slide : ℕ → Effect  -- an animation of `left`, with its duration

pub record Carousel : Type 0 where
  pub options : Options
  pub orignal_items : ℕ
  pub support3d : Bool  -- `browser.support3d`
  pub is_touch : Bool  -- `browser.isTouch`
  pub items_amount : ℕ
  pub item_width : ℕ
  pub maximum_item : ℕ
  pub maximum_pixels : ℤ
  pub positions_in_array : List ℤ
  pub pages_in_array : List (Option ℤ)  -- `none`: a hole of the array
  pub owl_items : List Item
  pub wrapper_width : ℕ
  -- Where a move has last put the wrapper: `left`, which an animation may still lead to, and the
  -- first argument of translate3d.
  pub css_left : Option ℤ
  pub css_transform : Option ℤ
  -- What `dragMove` has written over that property since, in fifths of a pixel.
  pub dragged : Option ℤ
  pub css_slides : Bool  -- an animation of `left` runs
  pub current_item : ℤ
  pub prev_item : Option ℤ
  pub prev_arr : List ℤ
  pub visible_items : List ℤ
  pub page_buttons : List PageButton
  pub prev_disabled : Bool
  pub next_disabled : Bool
  pub has_controls : Bool
  pub controls_shown : Bool
  pub ap_status : ApStatus
  pub hover_status : ApStatus  -- `hoverStatus`: what the page has asked for last
  pub has_hover_handlers : Bool  -- whether `stopOnHover` has set its handlers
  pub auto_play_interval : Option ℕ  -- the period of the timer that runs
  pub is_transition : Bool
  pub end_prev : Bool
  pub end_current : Bool
  pub is_css_finish : Bool  -- whether it is another value than `false`
  pub is_css3_finish : Bool  -- whether it is another value than `false`
  pub effects : List Effect

-- `xs[i]`, which is undefined at a negative index and past the end.
abbrev pub get_at {ℓ} : {A : Type ℓ} → List A → ℤ → Option A
get_at xs (pos i) = get_elem? xs i
get_at xs (negsuc _) = none

-- `index % items === 0`; `index % 0` is NaN.
abbrev pub divides : ℕ → ℕ → Bool
divides zero index = false
divides (suc k) index = (index % suc k) == 0

abbrev pub emit : Effect → Carousel → Carousel
emit e c = record c { effects = c.effects ++ e ∷ [] }
