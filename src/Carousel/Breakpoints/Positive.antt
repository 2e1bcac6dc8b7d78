-- ===== src/Carousel/Breakpoints/Positive.antt =====
-- `updateItems` of owl.carousel.js never chooses to show no item at all.
use gitb.Base.{
  ◌&&◌, ℕ, ◌<◌, not, Option, none, some, List, [], ◌∷◌, All, leb, ltb, if◌then◌else◌, if_cases,
  arith,
}
use gitb.Carousel.State.{BreakPoint, Options, Carousel}
use gitb.Carousel.Breakpoints.{
  sort_by_width, last_within, within, choose_items, scale_up, single_item_options, desktop_width,
  update_items,
}
use gitb.Carousel.Breakpoints.Custom.{Entry, All-sort}

abbrev pub Offers : BreakPoint → Type 0
Offers none = Unit
Offers (some (w, n)) = 0 < n

abbrev pub EntriesOffer : Option (List (ℕ × ℕ)) → Type 0
EntriesOffer none = Unit
EntriesOffer (some entries) = All (λ (y : Entry). 0 < y.1) entries

-- Every number of items that the options name is positive.
pub record AllOffer (o : Options) : Type 0 where
  pub items : 0 < o.items
  pub custom : EntriesOffer o.items_custom
  pub desktop : Offers o.items_desktop
  pub desktop_small : Offers o.items_desktop_small
  pub tablet : Offers o.items_tablet
  pub tablet_small : Offers o.items_tablet_small
  pub mobile : Offers o.items_mobile

within_pos : (width : ℕ) (b : BreakPoint) (n : ℕ) → Offers b → 0 < n → 0 < within width b n
within_pos width none n o h = h
within_pos width (some (w, m)) n o h = ground arith

last_within_pos :
    (width : ℕ) (entries : List Entry) (n : ℕ)
    → All (λ (y : Entry). 0 < y.1) entries
    → 0 < n
    → 0 < last_within width entries n
last_within_pos width [] n a h = h
last_within_pos width (e ∷ es) n a h =
    last_within_pos width es _ a.1 (if_cases (λ t. 0 < t) (leb e.0 width) (λ _. a.0) (λ _. h))

choose_items_pos :
    (width : ℕ) (o : Options) (n : ℕ) (custom : Option (List (ℕ × ℕ)))
    → AllOffer o
    → EntriesOffer custom
    → 0 < n
    → 0 < (choose_items width o n custom).items
choose_items_pos width o n none a e h = within_pos width o.items_mobile _ a.mobile (
    within_pos width o.items_tablet_small _ a.tablet_small (
      within_pos width o.items_tablet _ a.tablet (
        within_pos width o.items_desktop_small _ a.desktop_small
          (within_pos width o.items_desktop n a.desktop h))))
choose_items_pos width o n (some entries) a e h =
    last_within_pos width (sort_by_width entries) n (All-sort (λ (y : Entry). 0 < y.1) entries e) h

choose_items-AllOffer :
    (width : ℕ) (o : Options) (n : ℕ) (custom : Option (List (ℕ × ℕ)))
    → AllOffer o
    → EntriesOffer custom
    → 0 < n
    → AllOffer (choose_items width o n custom)
choose_items-AllOffer width o n none a e h = record {
  items = choose_items_pos width o n none a e h;
  custom = a.custom;
  desktop = a.desktop;
  desktop_small = a.desktop_small;
  tablet = a.tablet;
  tablet_small = a.tablet_small;
  mobile = a.mobile;
}
choose_items-AllOffer width o n (some entries) a e h = record {
  items = choose_items_pos width o n (some entries) a e h;
  custom = All-sort (λ (y : Entry). 0 < y.1) entries e;
  desktop = a.desktop;
  desktop_small = a.desktop_small;
  tablet = a.tablet;
  tablet_small = a.tablet_small;
  mobile = a.mobile;
}

scale_up-AllOffer :
    (amount : ℕ) (o : Options) → 0 < amount → AllOffer o → AllOffer (scale_up amount o)
scale_up-AllOffer amount o h a =
    if_cases AllOffer (ltb amount o.items && o.items_scale_up)
      (λ _. record {
        items = h;
        custom = a.custom;
        desktop = a.desktop;
        desktop_small = a.desktop_small;
        tablet = a.tablet;
        tablet_small = a.tablet_small;
        mobile = a.mobile;
      })
      (λ _. a)

single_item-AllOffer : (o : Options) → AllOffer (single_item_options o)
single_item-AllOffer o = record {
  items = omega arith;
  custom = tt;
  desktop = tt;
  desktop_small = tt;
  tablet = tt;
  tablet_small = tt;
  mobile = tt;
}

-- What `updateItems` makes of such options, and of the number of items before them.
pub record Offering (c : Carousel) : Type 0 where
  pub offers : AllOffer c.options
  pub orignal : 0 < c.orignal_items
  pub amount : 0 < c.items_amount

pub update_items-Offering :
    (width : ℕ) (c : Carousel) → Offering c → Offering (update_items width c)
unfolding update_items
update_items-Offering width c f =
    if_cases Offering (not c.options.responsive) (λ _. f)
      (λ _.
        if_cases Offering c.options.single_item
          (λ _. record {
            offers = single_item-AllOffer c.options;
            orignal = omega arith;
            amount = f.amount;
          })
          (λ _. record {
            offers = scale_up-AllOffer c.items_amount _ f.amount (
                choose_items-AllOffer width c.options _ c.options.items_custom f.offers
                  f.offers.custom start_pos);
            orignal = f.orignal;
            amount = f.amount;
          }))
  where
    start_pos : 0 < (
        if ltb (desktop_width c.options.items_desktop c.orignal_items) width
        then c.orignal_items
        else c.options.items)
    start_pos =
        if_cases (λ t. 0 < t) (ltb (desktop_width c.options.items_desktop c.orignal_items) width)
          (λ _. f.orignal) (λ _. f.offers.items)

-- If every number of items in the options, and the number of items before the options were applied,
-- is positive, and there is an item, then `updateItems` chooses a positive number, at any width.
pub update_items_pos :
    (width : ℕ) (c : Carousel)
    → AllOffer c.options
    → 0 < c.orignal_items
    → 0 < c.items_amount
    → 0 < (update_items width c).options.items
update_items_pos width c a h n =
    (update_items-Offering width c (record { offers = a; orignal = h; amount = n })).offers.items
