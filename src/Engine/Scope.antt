-- ===== src/Engine/Scope.antt =====
-- gitb-engine/src/main/java/com/gitb/engine/testcase/TestCaseScope.java. The scopes are objects
-- that refer to each other: a heap has them by their numbers, in the order of creation. Names are
-- numbers, since they are only compared.
pub mod Lookups
pub mod Fuel
use gitb.Base.{
  ℕ, zero, suc, ◌+◌, Bool, true, false, Option, none, some, List, [], ◌∷◌, ◌++◌, ◌==◌,
  if◌then◌else◌,
}

abbrev pub at_parent : (ℕ → Option ℕ) → Option ℕ → Option ℕ
at_parent walk none = none
at_parent walk (some p) = walk p

-- `remove` of a list, for an element and for an index; none for an index that is out of range.
unfoldable pub remove : ℕ → List ℕ → List ℕ
remove c [] = []
remove c (x ∷ xs) = let rest = remove c xs in if x == c then xs else x ∷ rest

unfoldable pub remove_at : ℕ → List ℕ → Option (List ℕ)
remove_at i [] = none
remove_at zero (x ∷ xs) = some xs
remove_at (suc i) (x ∷ xs) = elim (remove_at i xs) [ none ↦ none | some l ↦ some (x ∷ l) ]

unfoldable pub index_of : ℕ → List ℕ → Option ℕ
index_of c [] = none
index_of c (x ∷ xs) =
    let rest = index_of c xs in
    if x == c then some 0 else elim rest [ none ↦ none | some i ↦ some (suc i) ]

module _ (V : Type 0) where
  pub record Scope : Type 0 where
    pub parent : Option ℕ
    pub children : List ℕ
    pub symbols : List (ℕ × V)

  pub record Heap : Type 0 where
    pub count : ℕ
    pub scope_at : ℕ → Scope

  -- A `ScopedVariable`, whose scope is null if the variable is not defined.
  pub record Variable : Type 0 where
    pub scope : Option ℕ
    pub name : ℕ

module _ {V : Type 0} where
  abbrev pub new_scope : Option ℕ → Scope V
  new_scope parent = record { parent = parent; children = []; symbols = [] }

  unfoldable pub change : ℕ → (Scope V → Scope V) → Heap V → Heap V
  change a f h = record h { scope_at = λ b. if b == a then f (h.scope_at b) else h.scope_at b }

  -- The symbols as a map.
  unfoldable pub find : ℕ → List (ℕ × V) → Option V
  find k [] = none
  find k ((i, v) ∷ m) = let rest = find k m in if i == k then some v else rest

  unfoldable pub put : ℕ → V → List (ℕ × V) → List (ℕ × V)
  put k v [] = (k, v) ∷ []
  put k v ((i, w) ∷ m) = let rest = put k v m in if i == k then (k, v) ∷ m else (i, w) ∷ rest

  unfoldable pub create_child_scope : ℕ → Heap V → ℕ × Heap V
  unfolding change
  create_child_scope s h =
      let h' : Heap V = record {
        count = h.count + 1;
        scope_at = λ b. if b == h.count then new_scope (some s) else h.scope_at b;
      } in
      (h.count, change s (λ x. record x { children = x.children ++ h.count ∷ [] }) h')

  -- The loops that go from a scope to its parent: the first scope that has the name. On fuel, which
  -- the number of scopes is enough for.
  abbrev pub or_else : {A : Type 0} → Option V → A → A → A
  or_else none found missing = missing
  or_else (some v) found missing = found

  unfoldable pub resolve : ℕ → Heap V → ℕ → ℕ → Option ℕ
  unfolding find
  resolve zero h name s = none
  resolve (suc f) h name s =
      let above = at_parent (resolve f h name) (h.scope_at s).parent in
      or_else (find name (h.scope_at s).symbols) (some s) above

  abbrev pub value_at : Heap V → ℕ → Option ℕ → Option V
  value_at h name none = none
  value_at h name (some s) = find name (h.scope_at s).symbols

  -- `getValue` of a scope; none for null.
  unfoldable pub get_value : Heap V → ℕ → ℕ → Option V
  unfolding resolve find
  get_value h name s = value_at h name (resolve h.count h name s)

  -- `getVariable` with and without a search in the ancestors.
  abbrev pub search_from : Bool → Heap V → ℕ → ℕ → Option ℕ
  search_from true h name s = resolve h.count h name s
  search_from false h name s = or_else (find name (h.scope_at s).symbols) (some s) none

  unfoldable pub get_variable : Bool → Heap V → ℕ → ℕ → Variable V
  unfolding resolve find
  get_variable search_ancestors h name s = record {
    scope = search_from search_ancestors h name s;
    name = name;
  }

  unfoldable pub create_variable : ℕ → ℕ → Variable V
  create_variable name s = record { scope = some s; name = name }

  unfoldable pub set_value : ℕ → V → ℕ → Heap V → Heap V
  unfolding change put
  set_value name v s h = change s (λ x. record x { symbols = put name v x.symbols }) h

  -- `setValue` of a variable; none for the exception that it is not defined.
  abbrev pub set_in : Option ℕ → ℕ → V → Heap V → Option (Heap V)
  set_in none name v h = none
  set_in (some s) name v h = some (set_value name v s h)

  unfoldable pub set_variable : Variable V → V → Heap V → Option (Heap V)
  unfolding set_value
  set_variable x v h = set_in x.scope x.name v h

  abbrev pub unlink : ℕ → Option ℕ → Heap V → Heap V
  unlink s none h = h
  unlink s (some p) h = change p (λ x. record x { children = remove s x.children }) h

  abbrev pub each : (ℕ → Heap V → Heap V) → List ℕ → Heap V → Heap V
  each f [] h = h
  each f (c ∷ cs) h = each f cs (f c h)

  -- `destroy`, whose loop goes over the children as they are before it. On fuel, as above.
  unfoldable pub destroy : ℕ → ℕ → Heap V → Heap V
  unfolding change remove
  destroy zero s h = h
  destroy (suc f) s h =
      let h₁ = each (destroy f) (h.scope_at s).children h in
      let h₂ = change s (λ x. record x { children = []; symbols = [] }) h₁ in
      let h₃ = unlink s (h₂.scope_at s).parent h₂ in change s (λ x. record x { parent = none }) h₃

  -- `removeChildScope`; none for the exception of the index.
  unfoldable pub remove_child_scope : ℕ → ℕ → Heap V → Option (Bool × Heap V)
  unfolding destroy index_of remove_at change
  remove_child_scope s c h = elim (index_of c (h.scope_at s).children) [
    | none ↦ some (false, h)
    | some i ↦
        (let h' = destroy h.count c h in
          elim (remove_at i (h'.scope_at s).children) [
            | none ↦ none
            | some l ↦ some (true, change s (λ x. record x { children = l }) h')
          ])
  ]
