-- ===== src/Engine/Sequence/Places.antt =====
-- Where the children of SequenceProcessorActor.java stand in its two maps.
use gitb.Base.{
  ℕ, suc, false, none, some, List, [], ◌∷◌, ◌==◌, All, get_elem?, if_true, if_false, ◌≡◌, refl, ap,
  ◌∙◌, arith,
}
use mathlib.Core.Option
use gitb.Engine.Children.{Distinct}
use gitb.Engine.Sequence.{index_of}

-- From index `k` on, the children are `us`.
abbrev pub StandsAt : List ℕ → ℕ → List ℕ → Type 0
StandsAt children k [] = get_elem? children k ≡ none
StandsAt children k (u ∷ us) =
    (get_elem? children k ≡ some u) × (index_of u children ≡ some k) × StandsAt children (suc k) us

StandsAt-cons :
    (u : ℕ) (children : List ℕ) (k : ℕ) (us : List ℕ)
    → All (λ v. (u == v) ≡ false) us
    → StandsAt children k us
    → StandsAt (u ∷ children) (suc k) us
unfolding index_of
StandsAt-cons u children k [] d h = h
StandsAt-cons u children k (v ∷ us) d h = (
  h.0,
  if_false (u == v) (some 0) _ d.0 ∙ ap (Option.map suc) h.1,
  StandsAt-cons u children (suc k) us d.1 h.2,
)

pub Distinct-StandsAt : (us : List ℕ) → Distinct us → StandsAt us 0 us
unfolding index_of
Distinct-StandsAt [] d = refl
Distinct-StandsAt (u ∷ us) d = (
  refl,
  if_true (u == u) (some 0) _ (ground arith),
  StandsAt-cons u us 0 us d.0 (Distinct-StandsAt us d.1),
)
