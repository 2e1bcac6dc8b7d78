-- ===== src/Carousel/Tests.antt =====
-- Concrete carousels, and what owl.carousel.js makes of them before they move.
mod Runs
use gitb.Base.{
  All, suc, get_elem?, ◌==◌, +ℤ_parts, ◌+◌, ◌<◌, true, false, none, some, [], ◌∷◌, ℤ, pos, neg,
  negsuc, ◌+ℤ◌, List, replicate, ◌≡◌, refl, arith,
}
use gitb.Carousel.State.{Options, default_options, stopped, untouched, checked, Item, Carousel}
use gitb.Carousel.Layout.{calculate_all, append_items_sizes}
use gitb.Carousel.Layout.Positions.{IsLaidOut, calculate_all-IsLaidOut}
use gitb.Carousel.Layout.Buttons.{PagesAgree, update_pagination-PagesAgree}
use gitb.Carousel.Breakpoints.{update_items}
use gitb.Carousel.Breakpoints.Custom.{Chosen, start_items, update_items-Chosen}
use gitb.Carousel.Breakpoints.Positive.{AllOffer, update_items_pos}
use gitb.Carousel.Controls.{update_pagination}
use gitb.Carousel.Moves.Settled.{IsAimed}
use gitb.Carousel.Moves.Undragged.{IsSettled}
use gitb.Carousel.Events.Settled.{IsReady}
use gitb.Carousel.Events.Stopped.{IsStopped}
use gitb.Carousel.Events.Cycle.{Rounds}
use gitb.Carousel.Startup.{Widths, placed, removed}
use gitb.Carousel.Startup.Items.{removed-placed}
use gitb.Carousel.Controls.{page_buttons_from}
use gitb.Carousel.Controls.Marks.{IsMarked, update_pagination-IsMarked}
use gitb.Carousel.Lazy.{lazy_load}
use gitb.Carousel.Lazy.Visible.{requested_at, lazy_load-requested}
use gitb.Carousel.Lazy.Polls.{calls, first_from, calls_end}

abbrev pub image : Item
image = record {
  round_pages = 0;
  has_src = true;
  load_state = untouched;
  complete = true;
  polls = 0;
  visible = false;
}

abbrev pub two_shown : Options
two_shown = record default_options { items = 2; items_custom = some ((700, 3) ∷ (0, 1) ∷ []) }

-- Five items of 100 pixels, two of which are shown.
abbrev pub five_items : Carousel
five_items = record {
  options = two_shown;
  orignal_items = 5;
  support3d = true;
  is_touch = true;
  items_amount = 5;
  item_width = 100;
  maximum_item = 3;
  maximum_pixels = neg 300;
  positions_in_array = pos 0 ∷ neg 100 ∷ neg 200 ∷ neg 300 ∷ neg 400 ∷ neg 500 ∷ [];
  pages_in_array = [];
  owl_items = replicate 5 image;
  wrapper_width = 1000;
  css_left = none;
  css_transform = some (pos 0);
  dragged = none;
  css_slides = false;
  current_item = pos 0;
  prev_item = some (pos 0);
  prev_arr = pos 0 ∷ [];
  visible_items = pos 0 ∷ pos 1 ∷ [];
  page_buttons = [];
  prev_disabled = false;
  next_disabled = false;
  has_controls = false;
  controls_shown = false;
  ap_status = stopped;
  hover_status = stopped;
  has_hover_handlers = true;
  auto_play_interval = none;
  is_transition = false;
  end_prev = false;
  end_current = false;
  is_css_finish = true;
  is_css3_finish = true;
  effects = [];
}

abbrev pub widths : Widths
widths = record { window = 800; element = 200 }

five_items-IsAimed : IsAimed five_items
unfolding ◌+ℤ◌
five_items-IsAimed = record {
  from_start = omega arith;
  to_end = omega arith;
  remembered = refl;
  in_place = refl;
  buttons_agree = ground arith;
  visible_agree = refl;
}

pub five_items-IsSettled : IsSettled five_items
five_items-IsSettled = record { aimed = five_items-IsAimed; undragged = refl }

pub five_items-IsReady : IsReady five_items
five_items-IsReady = record { shows = omega arith; settled = five_items-IsSettled }

pub two_shown-AllOffer : AllOffer two_shown
two_shown-AllOffer = record {
  items = omega arith;
  custom = (omega arith, (omega arith, tt));
  desktop = omega arith;
  desktop_small = omega arith;
  tablet = omega arith;
  tablet_small = tt;
  mobile = omega arith;
}

pub five_items-Rounds : Rounds 0 five_items
five_items-Rounds = record {
  rewinds = refl;
  by_items = refl;
  plain = refl;
  idle = refl;
  item = refl;
  in_range = omega arith;
}

pub five_items-IsStopped : IsStopped five_items
five_items-IsStopped = record { status = refl; timer = refl; hover = refl }

calculate_all-IsLaidOut_example : IsLaidOut (calculate_all 333 five_items)
calculate_all-IsLaidOut_example = calculate_all-IsLaidOut 333 five_items refl

update_pagination-PagesAgree_example :
    PagesAgree (update_pagination (append_items_sizes five_items))
update_pagination-PagesAgree_example =
    update_pagination-PagesAgree five_items (omega arith) (omega arith) refl refl

update_items-Chosen_example :
    Chosen 800
      (start_items 800 five_items)
      (update_items 800 five_items).options.items
      ((700, 3) ∷ (0, 1) ∷ [])
update_items-Chosen_example =
    update_items-Chosen 800 five_items ((700, 3) ∷ (0, 1) ∷ []) refl refl refl refl

update_items_pos_example : 0 < (update_items 600 five_items).options.items
update_items_pos_example =
    update_items_pos 600 five_items two_shown-AllOffer (omega arith) (omega arith)

abbrev pub letters : List ℤ
letters = pos 7 ∷ pos 8 ∷ pos 9 ∷ []

removed-placed_example :
    (removed (pos 1) (placed (pos 5) (pos 1) letters) ≡ letters)
    × (removed (negsuc 0) (placed (pos 5) (negsuc 0) letters) ≡ letters)
removed-placed_example = removed-placed 1 (pos 5) letters (omega arith)

abbrev pub lazy_items : Carousel
lazy_items = record five_items { options = record two_shown { lazy_load = true } }

lazy_load-requested_example : requested_at (get_elem? (lazy_load lazy_items).owl_items 1) ≡ true
lazy_load-requested_example =
    lazy_load-requested lazy_items 1 image refl refl (omega arith)
      (omega (arith, +ℤ_parts (pos 0) (pos 2)))

calls_end_example : calls (λ i. i == 7) 101 0 ≡ some (suc (first_from (λ i. i == 7) 0 100))
calls_end_example = calls_end (λ i. i == 7)

abbrev on_first_page : Carousel
on_first_page = record five_items { owl_items = replicate 5 (record image { round_pages = 1 }) }

update_pagination-IsMarked_example : All (IsMarked 1) (update_pagination on_first_page).page_buttons
unfolding page_buttons_from
update_pagination-IsMarked_example =
    update_pagination-IsMarked on_first_page 0 refl refl (omega arith)
