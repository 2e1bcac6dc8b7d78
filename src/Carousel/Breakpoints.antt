-- ===== src/Carousel/Breakpoints.antt =====
-- `updateItems` of owl.carousel.js: how many items a window of some width shows.
pub mod Custom
pub mod Positive
use gitb.Base.{ℕ, not, ◌&&◌, Option, none, some, List, [], ◌∷◌, ltb, leb, ◌==◌, if◌then◌else◌}
use gitb.Carousel.State.{BreakPoint, Options, Carousel}

-- `array.sort(function (a, b) {return a[0] - b[0]; })`, entries of one width in their order.
abbrev pub insert_by_width : ℕ × ℕ → List (ℕ × ℕ) → List (ℕ × ℕ)
insert_by_width e [] = e ∷ []
insert_by_width e (x ∷ xs) = if leb e.0 x.0 then e ∷ x ∷ xs else x ∷ insert_by_width e xs

abbrev pub sort_by_width : List (ℕ × ℕ) → List (ℕ × ℕ)
sort_by_width [] = []
sort_by_width (x ∷ xs) = insert_by_width x (sort_by_width xs)

-- The loop over `itemsCustom`.
abbrev pub last_within : ℕ → List (ℕ × ℕ) → ℕ → ℕ
last_within width [] items = items
last_within width (x ∷ xs) items = last_within width xs (if leb x.0 width then x.1 else items)

-- `width <= bp[0] && bp !== false`: a comparison with the undefined `false[0]` fails.
abbrev pub within : ℕ → BreakPoint → ℕ → ℕ
within width none items = items
within width (some (w, n)) items = if leb width w then n else items

-- `itemsDesktop[0] || orignalItems`
abbrev pub desktop_width : BreakPoint → ℕ → ℕ
desktop_width none orignal = orignal
desktop_width (some (w, n)) orignal = if w == 0 then orignal else w

abbrev pub through_breakpoints : ℕ → Options → ℕ → ℕ
through_breakpoints width o items = within width o.items_mobile (
    within width o.items_tablet_small (
      within width o.items_tablet
        (within width o.items_desktop_small (within width o.items_desktop items))))

-- The cases of `itemsCustom`: the array that is sorted in place, and the items chosen.
abbrev pub choose_items : ℕ → Options → ℕ → Option (List (ℕ × ℕ)) → Options
choose_items width o items none = record o { items = through_breakpoints width o items }
choose_items width o items (some entries) = record o {
  items_custom = some (sort_by_width entries);
  items = last_within width (sort_by_width entries) items;
}

abbrev pub scale_up : ℕ → Options → Options
scale_up amount o =
    if ltb amount o.items && o.items_scale_up then record o { items = amount } else o

abbrev pub single_item_options : Options → Options
single_item_options o = record o {
  items = 1;
  items_custom = none;
  items_desktop = none;
  items_desktop_small = none;
  items_tablet = none;
  items_tablet_small = none;
  items_mobile = none;
}

unfoldable pub update_items : ℕ → Carousel → Carousel
update_items width c =
    if not c.options.responsive
    then c
    else if c.options.single_item
    then record c { options = single_item_options c.options; orignal_items = 1 }
    else record c {
      options = scale_up c.items_amount (choose_items width c.options start c.options.items_custom);
    }
  where
    start : ℕ
    start =
        if ltb (desktop_width c.options.items_desktop c.orignal_items) width
        then c.orignal_items
        else c.options.items
