-- ===== src/Engine/Scope/Lookups.antt =====
-- What TestCaseScope.java finds after a variable is set or a scope is created.
use gitb.Base.{
  ℕ, zero, suc, Bool, true, false, ◌&&◌, Option, none, some, List, [], ◌∷◌, ◌==◌, if◌then◌else◌,
  if_cases, ◌⊎◌, inl, inr, ◌≡◌, refl, ap, ap₂, ◌∙◌, sym, arith,
}
use gitb.Engine.Scope.{
  Scope, Heap, change, find, put, or_else, at_parent, resolve, value_at, get_value, get_variable,
  set_value, set_in, set_variable,
}

some_inj : {a b : ℕ} → some a ≡ some b → a ≡ b
some_inj e = cc

at_parent_ext :
    (g k : ℕ → Option ℕ) (p : Option ℕ) → ((x : ℕ) → g x ≡ k x) → at_parent g p ≡ at_parent k p
at_parent_ext g k none e = refl
at_parent_ext g k (some x) e = e x

at_parent_found :
    {A : Type 0} (g : ℕ → Option ℕ) (p : Option ℕ) (d : ℕ)
    → ((x : ℕ) → g x ≡ some d → A)
    → at_parent g p ≡ some d
    → A
at_parent_found g none d k e = cc
at_parent_found g (some x) d k e = k x e

module _ {V : Type 0} where
  find-put :
      (k j : ℕ) (v : V) (m : List (ℕ × V))
      → find j (put k v m) ≡ (if k == j then some v else find j m)
  unfolding find put
  find-put k j v [] = refl
  find-put k j v ((i, w) ∷ m) = ground (arith, find-put k j v m)

  parent-set_value :
      (h : Heap V) (name : ℕ) (v : V) (d s : ℕ)
      → ((set_value name v d h).scope_at s).parent ≡ (h.scope_at s).parent
  unfolding set_value change
  parent-set_value h name v d s =
      if_cases (λ (x : Scope V). x.parent ≡ (h.scope_at s).parent) (s == d) (λ e. refl) (λ e. refl)

  find-set_value :
      (h : Heap V) (name : ℕ) (v : V) (d other s : ℕ)
      → find other ((set_value name v d h).scope_at s).symbols
        ≡ (if (s == d) && (name == other) then some v else find other (h.scope_at s).symbols)
  unfolding set_value change
  find-set_value h name v d other s =
      let old = find other (h.scope_at s).symbols in
      if_cases
        (λ (x : Scope V).
          find other x.symbols ≡ (if (s == d) && (name == other) then some v else old))
        (s == d)
        (λ e.
          find-put name other v (h.scope_at s).symbols
          ∙ ap (λ b. if b && (name == other) then some v else old) (sym e))
        (λ e. ap (λ b. if b && (name == other) then some v else old) (sym e))

  -- Where the scope has the name, it has it after it is set.
  or_else-set_value :
      (h : Heap V) (name : ℕ) (v w : V) (d other s : ℕ) (found missing : Option ℕ)
      → find name (h.scope_at d).symbols ≡ some w
      → or_else (find other ((set_value name v d h).scope_at s).symbols) found missing
        ≡ or_else (find other (h.scope_at s).symbols) found missing
  or_else-set_value h name v w d other s found missing e =
      ap (λ o. or_else o found missing) (find-set_value h name v d other s)
      ∙ if_cases
          (λ o. or_else o found missing ≡ or_else (find other (h.scope_at s).symbols) found missing)
          ((s == d) && (name == other))
          (λ b.
            let p : other ≡ name = ground (arith, b) in
            let q : s ≡ d = ground (arith, b) in
            ap (λ o. or_else o found missing)
              (sym (ap₂ (λ j x. find j (h.scope_at x).symbols) p q ∙ e)))
          (λ b. refl)

  -- Setting a name that the scope has changes no search.
  resolve-set_value :
      (f : ℕ) (h : Heap V) (name : ℕ) (v w : V) (d other s : ℕ)
      → find name (h.scope_at d).symbols ≡ some w
      → resolve f (set_value name v d h) other s ≡ resolve f h other s
  unfolding resolve
  resolve-set_value zero h name v w d other s e = refl
  resolve-set_value (suc f) h name v w d other s e =
      or_else-set_value h name v w d other s (some s) _ e
      ∙ ap (or_else (find other (h.scope_at s).symbols) (some s)) (
          ap (at_parent (resolve f (set_value name v d h) other)) (parent-set_value h name v d s)
          ∙ at_parent_ext _ _ (h.scope_at s).parent
              (λ x. resolve-set_value f h name v w d other x e))

  or_else_found :
      (o : Option V) (s d : ℕ) (above : Option ℕ)
      → or_else o (some s) above ≡ some d
      → ((w : V) × (o ≡ some w) × (s ≡ d)) ⊎ (above ≡ some d)
  or_else_found none s d above e = inr e
  or_else_found (some w) s d above e = inl (w, refl, some_inj e)

  -- The scope that is found has the name.
  resolve_found :
      (f : ℕ) (h : Heap V) (name s d : ℕ)
      → resolve f h name s ≡ some d
      → (w : V) × (find name (h.scope_at d).symbols ≡ some w)
  unfolding resolve
  resolve_found zero h name s d e = cc
  resolve_found (suc f) h name s d e =
      elim (or_else_found (find name (h.scope_at s).symbols) s d _ e) [
        | inl (w, p, q) ↦ (w, ap (λ x. find name (h.scope_at x).symbols) (sym q) ∙ p)
        | inr up ↦
            at_parent_found (resolve f h name) (h.scope_at s).parent d
              (λ x. resolve_found f h name x d) up
      ]

-- Whether two searches have found the same scope.
abbrev pub same_scope : Option ℕ → Option ℕ → Bool
same_scope (some a) (some b) = a == b
same_scope _ _ = false

module _ {V : Type 0} where
  value_at-set_value :
      (h : Heap V) (name : ℕ) (v : V) (d other : ℕ) (o : Option ℕ)
      → value_at (set_value name v d h) other o
        ≡ (if same_scope o (some d) && (name == other) then some v else value_at h other o)
  value_at-set_value h name v d other none = refl
  value_at-set_value h name v d other (some s) = find-set_value h name v d other s

  some_heap : (a b : Heap V) → some a ≡ some b → a ≡ b
  some_heap a b e = cc

  count-set_value : (h : Heap V) (name : ℕ) (v : V) (d : ℕ) → (set_value name v d h).count ≡ h.count
  unfolding set_value change
  count-set_value h name v d = refl

  set_in_lem :
      (h h' : Heap V) (name other s t : ℕ) (v : V) (o : Option ℕ)
      → resolve h.count h name s ≡ o
      → set_in o name v h ≡ some h'
      → get_value h' other t ≡ (
          if same_scope (resolve h.count h other t) o && (name == other)
          then some v
          else get_value h other t)
  unfolding get_value
  set_in_lem h h' name other s t v none r e = cc
  set_in_lem h h' name other s t v (some d) r e =
      let found = resolve_found h.count h name s d r in
      ap (λ x. get_value x other t) (sym (some_heap (set_value name v d h) h' e))
      ∙ ap (λ n. value_at (set_value name v d h) other (resolve n (set_value name v d h) other t))
          (count-set_value h name v d)
      ∙ ap (value_at (set_value name v d h) other)
          (resolve-set_value h.count h name v found.0 d other t found.1)
      ∙ value_at-set_value h name v d other (resolve h.count h other t)

  -- If the search for a name from a scope finds a scope, so that setting the variable succeeds,
  -- then setting it sets it for every scope from which the search for its name finds the same
  -- scope, and changes nothing that is found from any scope for another name, or for that name
  -- where the search finds another scope or none.
  pub get_value-set_variable :
      (h h' : Heap V) (name other s t : ℕ) (v : V)
      → set_variable (get_variable true h name s) v h ≡ some h'
      → get_value h' other t ≡ (
          if same_scope (resolve h.count h other t) (resolve h.count h name s) && (name == other)
          then some v
          else get_value h other t)
  unfolding set_variable get_variable get_value
  get_value-set_variable h h' name other s t v e =
      set_in_lem h h' name other s t v (resolve h.count h name s) refl e
