-- ===== src/Carousel/Startup/Items.antt =====
-- Adding and removing items of a carousel of owl.carousel.js.
use gitb.Base.{
  ℕ, zero, suc, ◌<◌, some, List, [], ◌∷◌, ◌++◌, pos, negsuc, length, length-append, ◌≡◌, refl, ap,
  arith,
}
use gitb.Carousel.Startup.{insert_before, erase_idx, eq_index, placed, removed}

module _ {ℓ} {A : Type ℓ} where
  erase_idx-insert_before :
      (n : ℕ) (x : A) (xs : List A) → n < length xs → erase_idx n (insert_before n x xs) ≡ xs
  erase_idx-insert_before n x [] h = elim h [ ]
  erase_idx-insert_before zero x (y ∷ ys) h = refl
  erase_idx-insert_before (suc n) x (y ∷ ys) h =
      ap (y ∷◌) (erase_idx-insert_before n x ys (omega arith))

  erase_idx-append : (x : A) (xs : List A) → erase_idx (length xs) (xs ++ x ∷ []) ≡ xs
  erase_idx-append x [] = refl
  erase_idx-append x (y ∷ ys) = ap (y ∷◌) (erase_idx-append x ys)

  placed-within :
      (n : ℕ) (x : A) (xs : List A) → n < length xs → placed x (pos n) xs ≡ insert_before n x xs
  unfolding placed
  placed-within n x xs h = ground arith

  placed-last : (x : A) (xs : List A) → placed x (negsuc 0) xs ≡ xs ++ x ∷ []
  unfolding placed
  placed-last x xs = ground arith

  eq_index-append : (x : A) (xs : List A) → eq_index (xs ++ x ∷ []) (negsuc 0) ≡ some (length xs)
  eq_index-append x xs = ground (arith, length-append xs (x ∷ []))

  -- Removing at a position that `addItem` has just inserted at, before an item there was, gives the
  -- children back; and so does removing the last child after adding one at the default position.
  pub removed-placed :
      (n : ℕ) (x : A) (xs : List A)
      → n < length xs
      → (removed (pos n) (placed x (pos n) xs) ≡ xs)
        × (removed (negsuc 0) (placed x (negsuc 0) xs) ≡ xs)
  unfolding removed
  removed-placed n x xs h = (
    rw (placed-within n x xs h) (erase_idx-insert_before n x xs h),
    rw (placed-last x xs) (rw (eq_index-append x xs) (erase_idx-append x xs)),
  )
