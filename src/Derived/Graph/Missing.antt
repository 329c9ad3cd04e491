-- ===== src/Derived/Graph/Missing.antt =====
-- The inputs of a factor that a list of ordered factors misses.
use fin_data_platform.Prelude.{
  ◌+◌, ◌≡◌, refl, sym, subst, inl, inr, true, false, not, ◌&&◌, List, [], ◌∷◌, ◌++◌, filter, length,
  elem, arith, count, elem-append, Bool-cases, pair_eq, string_eq,
}
use mathlib.Core.List.{append-nil, append_assoc}
use fin_data_platform.Dict.{get, has, IsDistinct}
use fin_data_platform.Derived.Graph.{FactorId, Nodes, inputs_of, Degrees, degree_of}
use fin_data_platform.Derived.Graph.Rounds.{factor_eq, waits, waiting, missing}

-- No factor of the list has an input that is a node and not ordered before it.
abbrev pub Follows : Nodes → List FactorId → List FactorId → Type 0
Follows nodes done [] = Unit
Follows nodes done (factor ∷ rest) =
    (missing nodes done factor ≡ 0) × Follows nodes (done ++ factor ∷ []) rest

module _ (nodes : Nodes) where
  pub Follows-append_one :
      (done cs : List FactorId) (c : FactorId)
      → Follows nodes done cs
      → missing nodes (done ++ cs) c ≡ 0
      → Follows nodes done (cs ++ c ∷ [])
  Follows-append_one done [] c h e = (subst (λ xs. missing nodes xs c ≡ 0) (append-nil done) e, tt)
  Follows-append_one done (d ∷ cs) c (p, h) e = (
    p,
    Follows-append_one (done ++ d ∷ []) cs c h
        (subst (λ xs. missing nodes xs c ≡ 0) (sym (append_assoc done (d ∷ []) cs)) e),
  )

  pub none_missing :
      (done : List FactorId) (x up : FactorId)
      → missing nodes done x ≡ 0
      → elem up (inputs_of x nodes) ≡ true
      → has up nodes ≡ true
      → elem up done ≡ true
  none_missing done x up h input known = go (inputs_of x nodes) h input
    where
      go :
          (ups : List FactorId)
          → length (filter (λ u. has u nodes && not (elem u done)) ups) ≡ 0
          → elem up ups ≡ true
          → elem up done ≡ true
      go [] h input = absurd (ground arith)
      go (u ∷ ups) h input = elim (Bool-cases (factor_eq.beq up u)) [
        | inl t ↦
            let e : u ≡ up = sym ((factor_eq.beq_iff up u).0 t) in
            subst
              (λ y.
                length (filter (λ u. has u nodes && not (elem u done)) (y ∷ ups)) ≡ 0
                → elem up done ≡ true)
              (sym e) (λ h. ground arith) h
        | inr f ↦ go ups (ground arith) (ground arith)
      ]

  pub none_waits : (x : FactorId) (m : Degrees) → waiting m ≡ 0 → waits x m ≡ 0
  unfolding get
  none_waits x [] h = refl
  none_waits x ((k, n) ∷ m) h = ground (arith, none_waits x m)

  pub waiting_zero :
      (m : Degrees) → IsDistinct m → ((x : FactorId) → degree_of x m ≡ 0) → waiting m ≡ 0
  unfolding get
  waiting_zero [] d h = refl
  waiting_zero ((k, n) ∷ m) (fresh, d) h = ground (
    arith,
    h k,
    factor_eq.beq_iff k k,
    waiting_zero m d (λ x. ground (arith, h x, fresh, factor_eq.beq_iff k x)),
  )

  pub Follows-at :
      (done before : List FactorId) (c : FactorId) (after : List FactorId)
      → Follows nodes done (before ++ c ∷ after)
      → missing nodes (done ++ before) c ≡ 0
  Follows-at done [] c after (p, h) = subst (λ xs. missing nodes xs c ≡ 0) (sym (append-nil done)) p
  Follows-at done (d ∷ before) c after (p, h) =
      subst (λ xs. missing nodes xs c ≡ 0) (append_assoc done (d ∷ []) before)
        (Follows-at (done ++ d ∷ []) before c after h)

  -- Ordering a new node takes it from the missing inputs.
  pub missing-append_one :
      (order : List FactorId) (node x : FactorId)
      → has node nodes ≡ true
      → elem node order ≡ false
      → missing nodes (order ++ node ∷ []) x + count node (inputs_of x nodes)
        ≡ missing nodes order x
  missing-append_one order node x known new = go (inputs_of x nodes)
    where
      go :
          (ups : List FactorId)
          → length (filter (λ up. has up nodes && not (elem up (order ++ node ∷ []))) ups)
              + count node ups
            ≡ length (filter (λ up. has up nodes && not (elem up order)) ups)
      go [] = refl
      go (up ∷ ups) = elim (Bool-cases (factor_eq.beq node up)) [
        | inl t ↦
            subst
              (λ y.
                length (filter (λ up. has up nodes && not (elem up (order ++ node ∷ []))) (y ∷ ups))
                  + count node (y ∷ ups)
                ≡ length (filter (λ up. has up nodes && not (elem up order)) (y ∷ ups)))
              ((factor_eq.beq_iff node up).0 t)
              (ground
                (arith, go ups, elem-append node order (node ∷ []), factor_eq.beq_iff node node))
        | inr f ↦ ground (
          arith,
          go ups,
          elem-append up order (node ∷ []),
          factor_eq.beq_iff node up,
          factor_eq.beq_iff up node,
        )
      ]
