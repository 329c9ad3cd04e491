-- ===== src/Derived/Graph/Start.antt =====
-- The state that `topological_order` starts its loop with.
use fin_data_platform.Prelude.{
  suc, ◌+◌, ◌≡◌, refl, ap, subst, inl, inr, Bool, not, ◌&&◌, none, List, [], ◌∷◌, filter, length,
  elem, if◌then◌else◌, arith, count, length-filter-sorted, length-sorted, Bool-cases, pair_eq,
  string_eq,
}
use fin_data_platform.Dict.{Dict, get, has, keys, IsDistinct}
use fin_data_platform.Derived.Graph.{
  FactorId, Nodes, inputs_of, Degrees, degree_of, indegrees, without_inputs, ids, start,
}
use fin_data_platform.Derived.Graph.Rounds.{factor_eq, waits, waiting, missing}

-- A key of a dict with distinct keys stands there once.
count-keys :
    {V : Type 0} (x : FactorId) (m : Dict FactorId V)
    → IsDistinct m
    → count x (keys m) ≡ (if has x m then 1 else 0)
unfolding get
count-keys x [] d = refl
count-keys x ((k, v) ∷ m) (fresh, d) = elim (Bool-cases (factor_eq.beq k x)) [
  | inl t ↦
      let e : k ≡ x = (factor_eq.beq_iff k x).0 t in
      let none_left : get x m ≡ none = subst (λ y. get y m ≡ none) e fresh in
      ground (arith, count-keys x m d, none_left, factor_eq.beq_iff x k, factor_eq.beq_iff k x)
  | inr f ↦ ground (arith, count-keys x m d, factor_eq.beq_iff x k, factor_eq.beq_iff k x)
]

count-without_inputs :
    (x : FactorId) (m : Degrees)
    → IsDistinct m
    → count x (without_inputs m) + waits x m ≡ (if has x m then 1 else 0)
unfolding without_inputs get
count-without_inputs x [] d = refl
count-without_inputs x ((k, n) ∷ m) (fresh, d) = elim (Bool-cases (factor_eq.beq k x)) [
  | inl t ↦
      let e : k ≡ x = (factor_eq.beq_iff k x).0 t in
      let none_left : get x m ≡ none = subst (λ y. get y m ≡ none) e fresh in
      ground
        (arith, count-without_inputs x m d, none_left, factor_eq.beq_iff x k, factor_eq.beq_iff k x)
  | inr f ↦ ground (arith, count-without_inputs x m d, factor_eq.beq_iff x k, factor_eq.beq_iff k x)
]

length-without_inputs : (m : Degrees) → length (without_inputs m) + waiting m ≡ length m
unfolding without_inputs
length-without_inputs [] = refl
length-without_inputs ((k, n) ∷ m) = ground (arith, length-without_inputs m)

module _ (nodes : Nodes) where
  length-indegrees : (m : Nodes) → length (indegrees nodes m) ≡ length m
  unfolding indegrees
  length-indegrees [] = refl
  length-indegrees ((k, n) ∷ m) = ap suc (length-indegrees m)

  has-indegrees : (x : FactorId) (m : Nodes) → has x (indegrees nodes m) ≡ has x m
  unfolding indegrees get
  has-indegrees x [] = refl
  has-indegrees x ((k, n) ∷ m) = ground (arith, has-indegrees x m)

  indegrees-IsDistinct : (m : Nodes) → IsDistinct m → IsDistinct (indegrees nodes m)
  unfolding indegrees
  indegrees-IsDistinct [] d = tt
  indegrees-IsDistinct ((k, n) ∷ m) (fresh, d) =
      (ground (arith, has-indegrees k m), indegrees-IsDistinct m d)

  degree-indegrees :
      (x : FactorId) (m : Nodes)
      → degree_of x (indegrees nodes m)
        ≡ length (filter (λ up. has up nodes && not (elem up [])) (inputs_of x m))
  unfolding indegrees get
  degree-indegrees x [] = refl
  degree-indegrees x ((k, n) ∷ m) = elim (Bool-cases (factor_eq.beq k x)) [
    | inl t ↦ rw (inputs_of, t) (same n.factor_inputs)
    | inr f ↦ rw (inputs_of, f) (degree-indegrees x m)
  ]
    where
      same :
          (ups : List FactorId)
          → length (filter (λ up. has up nodes) ups)
            ≡ length (filter (λ up. has up nodes && not (elem up [])) ups)
      same [] = refl
      same (up ∷ ups) = ground (arith, same ups)

module _ (le : FactorId → FactorId → Bool) (nodes : Nodes) where
  pub count-ids :
      (x : FactorId) → IsDistinct nodes → count x (ids le nodes) ≡ (if has x nodes then 1 else 0)
  unfolding ids
  count-ids x d =
      omega (arith, length-filter-sorted le (factor_eq.beq x) (keys nodes), count-keys x nodes d)

  pub start-count :
      (x : FactorId)
      → IsDistinct nodes
      → count x (start le nodes).ready + waits x (start le nodes).indegree
        ≡ (if has x nodes then 1 else 0)
  unfolding start
  start-count x d = rw (← has-indegrees nodes x nodes) (
      omega (
        arith,
        length-filter-sorted le (factor_eq.beq x) (without_inputs (indegrees nodes nodes)),
        count-without_inputs x (indegrees nodes nodes) (indegrees-IsDistinct nodes nodes d),
      ))

  pub start-length :
      length (start le nodes).ready + waiting (start le nodes).indegree ≡ length nodes
  unfolding start
  start-length = omega (
    arith,
    length-sorted le (without_inputs (indegrees nodes nodes)),
    length-without_inputs (indegrees nodes nodes),
    length-indegrees nodes nodes,
  )

  pub start-IsDistinct : IsDistinct nodes → IsDistinct (start le nodes).indegree
  unfolding start
  start-IsDistinct = indegrees-IsDistinct nodes nodes

  pub start-degree : (x : FactorId) → degree_of x (start le nodes).indegree ≡ missing nodes [] x
  unfolding start
  start-degree x = degree-indegrees nodes x nodes
