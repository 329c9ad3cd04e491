-- ===== src/Derived/Cycles/Walks.antt =====
-- Walks along the inputs, and the path of a depth-first search.
use fin_data_platform.Prelude.{
  ◌≡◌, inl, inr, refl, ap, Bool, true, ◌&&◌, some, List, [], ◌∷◌, ◌++◌, elem, pair_eq, string_eq,
  arith, elem-append, Bool-cases, All, ◌==◌,
}
use fin_data_platform.Dict.{Dict, get, put, has}
use fin_data_platform.Dict.Laws.{get-put}
use fin_data_platform.Derived.Graph.{FactorId, Nodes, inputs_of}
use fin_data_platform.Derived.Graph.Rounds.{factor_eq}
use fin_data_platform.Derived.Cycles.{Mark, entered, finished, from_factor, drop_last}

-- Every factor after the first is a node and an input of the one before it.
unfoldable pub linked : Nodes → List FactorId → Bool
linked nodes [] = true
linked nodes (x ∷ []) = true
linked nodes (x ∷ y ∷ rest) = elem y (inputs_of x nodes) && has y nodes && linked nodes (y ∷ rest)

-- A walk along the inputs from a factor to itself.
abbrev pub IsCycle : Nodes → List FactorId → Type 0
IsCycle nodes walk =
    (x : FactorId) × (between : List FactorId) × (walk ≡ x ∷ between ++ x ∷ [])
    × (linked nodes walk ≡ true)

pub drop_last-append_one : (xs : List FactorId) (x : FactorId) → drop_last (xs ++ x ∷ []) ≡ xs
unfolding drop_last
drop_last-append_one [] x = refl
drop_last-append_one (y ∷ []) x = refl
drop_last-append_one (y ∷ z ∷ xs) x = ap (λ ys. y ∷ ys) (drop_last-append_one (z ∷ xs) x)

pub All-append_one {ℓ κ} :
    {A : Type ℓ} (P : A → Type κ) (xs : List A) (x : A) → All P xs → P x → All P (xs ++ x ∷ [])
All-append_one P [] x h p = (p, tt)
All-append_one P (y ∷ xs) x (py, h) p = (py, All-append_one P xs x h p)

pub All-elem :
    (xs ys : List FactorId)
    → ((x : FactorId) → elem x xs ≡ true → elem x ys ≡ true)
    → All (λ x. elem x ys ≡ true) xs
All-elem [] ys h = tt
All-elem (x ∷ xs) ys h =
    (h x (ground (arith, factor_eq.beq_iff x x)), All-elem xs ys (λ y e. h y (ground arith)))

module _ (up x : FactorId) (path : List FactorId) (state : Dict FactorId Mark) where
  pub entering :
      (get x state ≡ some entered → elem x path ≡ true)
      → get x (put up entered state) ≡ some entered
      → elem x (path ++ up ∷ []) ≡ true
  entering h e = elim (Bool-cases (factor_eq.beq x up)) [
    | inl t ↦ rw (elem-append x path (up ∷ []), t) (ground arith)
    | inr f ↦
        rw (elem-append x path (up ∷ []), f)
          (ground
            (arith, h, get-put up x entered state, factor_eq.beq_iff up x, factor_eq.beq_iff x up))
  ]

  pub leaving :
      (get x state ≡ some entered → elem x (path ++ up ∷ []) ≡ true)
      → get x (put up finished state) ≡ some entered
      → elem x path ≡ true
  leaving h e = elim (Bool-cases (factor_eq.beq up x)) [
    | inl t ↦ absurd (ground (arith, t, get-put up x finished state))
    | inr f ↦ ground (
      arith,
      f,
      h,
      get-put up x finished state,
      elem-append x path (up ∷ []),
      factor_eq.beq_iff up x,
      factor_eq.beq_iff x up,
    )
  ]

module _ (nodes : Nodes) where
  pub linked-append_one :
      (path : List FactorId) (node up : FactorId)
      → linked nodes (path ++ node ∷ []) ≡ true
      → elem up (inputs_of node nodes) ≡ true
      → has up nodes ≡ true
      → linked nodes ((path ++ node ∷ []) ++ up ∷ []) ≡ true
  unfolding linked
  linked-append_one [] node up h input known = ground arith
  linked-append_one (x ∷ []) node up h input known = ground arith
  linked-append_one (x ∷ y ∷ path) node up h input known =
      ground (arith, linked-append_one (y ∷ path) node up)

  pub linked_tail :
      (x : FactorId) (rest : List FactorId)
      → linked nodes (x ∷ rest) ≡ true
      → linked nodes rest ≡ true
  unfolding linked
  linked_tail x [] h = refl
  linked_tail x (y ∷ rest) h = ground arith

  -- The part of a path from a factor on it.
  pub from_factor_lem :
      (up : FactorId) (path more : List FactorId)
      → elem up path ≡ true
      → linked nodes (path ++ more) ≡ true
      → (rest : List FactorId) × (from_factor up path ≡ up ∷ rest)
        × (linked nodes (from_factor up path ++ more) ≡ true)
  unfolding from_factor
  from_factor_lem up [] more here h = absurd (ground arith)
  from_factor_lem up (x ∷ path) more here h = elim (Bool-cases (x == up)) [
    | inl t ↦ rw t (path, ap (λ y. y ∷ path) ((factor_eq.beq_iff x up).0 t), h)
    | inr f ↦ rw f (
        from_factor_lem up path more
          (ground (arith, factor_eq.beq_iff x up, factor_eq.beq_iff up x))
          (linked_tail x (path ++ more) h))
  ]
