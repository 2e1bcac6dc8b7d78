-- ===== src/Engine/Scope/Fuel.antt =====
-- How far a search of TestCaseScope.java goes.
use gitb.Base.{ℕ, zero, suc, ◌<◌, Option, none, some, ◌≡◌, refl, ap, arith}
use gitb.Engine.Scope.{Heap, find, or_else, at_parent, resolve}

-- A scope is created after its parent.
pub record IsHeap {V : Type 0} (h : Heap V) : Type 0 where
  pub parents_first : (s p : ℕ) → (h.scope_at s).parent ≡ some p → p < s

at_parent_same :
    (g k : ℕ → Option ℕ) (p : Option ℕ)
    → ((x : ℕ) → p ≡ some x → g x ≡ k x)
    → at_parent g p ≡ at_parent k p
at_parent_same g k none e = refl
at_parent_same g k (some x) e = e x refl

module _ {V : Type 0} where
  -- A search does not depend on the fuel, if it is more than the number of the scope.
  resolve_fuel :
      (h : Heap V) (name : ℕ)
      → IsHeap h
      → (f g s : ℕ) → s < f
      → s < g
      → resolve f h name s ≡ resolve g h name s
  unfolding resolve
  resolve_fuel h name ok zero g s lf lg = ground arith
  resolve_fuel h name ok (suc f) zero s lf lg = ground arith
  resolve_fuel h name ok (suc f) (suc g) s lf lg =
      ap (or_else (find name (h.scope_at s).symbols) (some s)) (
        at_parent_same (resolve f h name) (resolve g h name) (h.scope_at s).parent λ p e.
          let below = ok.parents_first s p e in
          resolve_fuel h name ok f g p (omega arith) (omega arith))

  -- Every fuel above the number of the scope finds what a search with the number of the scopes finds.
  pub resolve_enough :
      (h : Heap V) (name f s : ℕ)
      → IsHeap h
      → s < h.count
      → s < f
      → resolve f h name s ≡ resolve h.count h name s
  resolve_enough h name f s ok l m = resolve_fuel h name ok f h.count s m l
