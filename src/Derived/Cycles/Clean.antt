-- ===== src/Derived/Cycles/Clean.antt =====
-- What a graph without a message of `validate` is.
use fin_data_platform.Prelude.{
  ◌≡◌, ◌≤◌, refl, sym, subst, inl, inr, Bool, true, not, ◌||◌, some, List, [], ◌∷◌, ◌++◌, map, elem,
  count, ◌==◌, pair_eq, string_eq, arith, elem-count, Bool-cases, Option-cases,
}
use fin_data_platform.Outcome.{ok}
use fin_data_platform.Dict.{get, IsDistinct}
use fin_data_platform.Derived.Graph.{FactorId, FactorNode, Nodes, inputs_of, ids, topological_order}
use fin_data_platform.Derived.Graph.Rounds.{factor_eq}
use fin_data_platform.Derived.Graph.Start.{count-ids}
use fin_data_platform.Derived.Cycles.{input_problems, node_problems, cyclic, validate, cycles}
use fin_data_platform.Derived.Cycles.Visits.{cycles-topological_order}

append_empty {ℓ} : {A : Type ℓ} (xs ys : List A) → xs ++ ys ≡ [] → (xs ≡ []) × (ys ≡ [])
append_empty [] ys e = (refl, e)
append_empty (x ∷ xs) ys e = absurd (cc)

map_empty {ℓ κ} : {A : Type ℓ} {B : Type κ} (f : A → B) (xs : List A) → map f xs ≡ [] → xs ≡ []
map_empty f [] e = refl
map_empty f (x ∷ xs) e = absurd (cc)

input_problems_empty :
    (nodes : Nodes) (node : FactorNode) (ups : List FactorId) (up : FactorId)
    → input_problems nodes node ups ≡ []
    → elem up ups ≡ true
    → (upstream : FactorNode) × (get up nodes ≡ some upstream)
      × ((not (node.materialize == "latest") || upstream.materialize == "latest") ≡ true)
unfolding input_problems
input_problems_empty nodes node [] up e h = absurd (ground arith)
input_problems_empty nodes node (u ∷ ups) up e h = elim (Option-cases (get u nodes)) [
  | inl missing ↦ absurd (cc (rw (missing, input_problems) at e))
  | inr (upstream, found) ↦ elim (Bool-cases (factor_eq.beq up u)) [
    | inl t ↦ (
      upstream,
      subst (λ y. get y nodes ≡ some upstream) (sym ((factor_eq.beq_iff up u).0 t)) found,
      latest upstream found,
    )
    | inr f ↦ input_problems_empty nodes node ups up (rest upstream found) (ground arith)
  ]
]
  where
    latest :
        (upstream : FactorNode)
        → get u nodes ≡ some upstream
        → (not (node.materialize == "latest") || upstream.materialize == "latest") ≡ true
    latest upstream found = let e' = rw (found, input_problems) at e in ground (arith, e')

    rest :
        (upstream : FactorNode) → get u nodes ≡ some upstream → input_problems nodes node ups ≡ []
    rest upstream found = let e' = rw (found, input_problems) at e in ground (arith, e')

node_problems_empty :
    (nodes : Nodes) (ks : List FactorId) (x : FactorId) (node : FactorNode)
    → node_problems nodes ks ≡ []
    → elem x ks ≡ true
    → get x nodes ≡ some node
    → input_problems nodes node node.factor_inputs ≡ []
unfolding node_problems
node_problems_empty nodes [] x node e h g = absurd (ground arith)
node_problems_empty nodes (k ∷ ks) x node e h g =
    let (here, later) = append_empty _ (node_problems nodes ks) e in
    elim (Bool-cases (factor_eq.beq x k)) [
      | inl t ↦
          let g' : get k nodes ≡ some node =
            subst (λ y. get y nodes ≡ some node) ((factor_eq.beq_iff x k).0 t) g in
          rw g' at here
      | inr f ↦ node_problems_empty nodes ks x node later (ground arith) g
    ]

module _ (le : FactorId → FactorId → Bool) (nodes : Nodes) (d : IsDistinct nodes)
    (clean : validate le nodes ≡ []) where
  no_problems : (node_problems nodes (ids le nodes) ≡ []) × (cycles le nodes ≡ [])
  unfolding validate
  no_problems =
      let (first, second) =
        append_empty (node_problems nodes (ids le nodes)) (map cyclic (cycles le nodes)) clean in
      (first, map_empty cyclic (cycles le nodes) second)

  -- In a graph with distinct keys where `validate` finds nothing, every factor input of a node is a node,
  -- and its materialisation is `latest` where that of the first one is.
  pub validate_inputs :
      (x up : FactorId) (node : FactorNode)
      → get x nodes ≡ some node
      → elem up node.factor_inputs ≡ true
      → (upstream : FactorNode) × (get up nodes ≡ some upstream)
        × ((not (node.materialize == "latest") || upstream.materialize == "latest") ≡ true)
  validate_inputs x up node g h =
      input_problems_empty nodes node node.factor_inputs up
        (node_problems_empty nodes (ids le nodes) x node no_problems.0
          (ground (arith, g, count-ids le nodes x d, elem-count x (ids le nodes))) g)
        h

  -- In a graph with distinct keys where `validate` finds nothing and no factor has an input twice,
  -- `topological_order` returns.
  pub validate-topological_order :
      ((x up : FactorId) → count up (inputs_of x nodes) ≤ 1)
      → (order : List FactorId) × (topological_order le nodes ≡ ok order)
  validate-topological_order once = cycles-topological_order le nodes d once no_problems.1
