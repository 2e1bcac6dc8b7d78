-- ===== src/Carousel/Lazy/Polls.antt =====
-- The polling loop of `checkLazyImage` in owl.carousel.js, from the first call to the last.
use gitb.Base.{ℕ, zero, suc, ◌+◌, Bool, Option, none, some, if◌then◌else◌, ◌≡◌, refl, arith}
use gitb.Carousel.Lazy.{again, ready, given_up, poll}

-- How many calls the loop makes until it shows the image, where `complete i` is what `completeImg`
-- answers in call `i`, `i` calls have been made, and at most `fuel` more are.
unfoldable pub calls : (ℕ → Bool) → ℕ → ℕ → Option ℕ
unfolding poll
calls complete zero i = none
calls complete (suc fuel) i =
    let rest = calls complete fuel (suc i) in
    elim (poll (complete i) i) [ again _ ↦ rest | ready ↦ some (suc i) | given_up ↦ some (suc i) ]

-- The first number from `i` to `i + n` at which the test holds, or `i + n`.
abbrev pub first_from : (ℕ → Bool) → ℕ → ℕ → ℕ
first_from test i zero = i
first_from test i (suc n) = let rest = first_from test (suc i) n in if test i then i else rest

calls_from :
    (complete : ℕ → Bool) (n i : ℕ)
    → i + n ≡ 100
    → calls complete (suc n) i ≡ some (suc (first_from complete i n))
unfolding calls poll
calls_from complete zero i e = ground arith
calls_from complete (suc n) i e = ground (arith, calls_from complete n (suc i))

-- Whatever `completeImg` answers, the loop shows the image in the first call that finds it complete,
-- and in call 101 if none before it does: it makes at most 101 calls.
pub calls_end :
    (complete : ℕ → Bool) → calls complete 101 0 ≡ some (suc (first_from complete 0 100))
calls_end complete = calls_from complete 100 0 refl
