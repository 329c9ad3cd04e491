-- ===== src/Derived/Graph/Order.antt =====
-- `topological_order` returns every node once, inputs first, and it returns on an acyclic graph.
use fin_data_platform.Prelude.{
  ℕ, zero, suc, ◌+◌, ◌≤◌, ◌≡◌, ◌∙◌, sym, ap, subst, inl, inr, Bool, true, not, ◌&&◌, List, [], ◌∷◌,
  ◌++◌, length, elem, if◌then◌else◌, ltb, arith, count, elem-count, elem_of_length-filter,
  Bool-cases, Option-cases, ltb→lt, List-cases, pair_eq, string_eq,
}
use fin_data_platform.Outcome.{ok}
use fin_data_platform.Dict.{get, has, IsDistinct}
use fin_data_platform.Derived.Graph.{
  FactorId, Nodes, inputs_of, degree_of, Sorting, ids, visit, rounds, start, topological_order,
  Acyclic, acyclic,
}
use fin_data_platform.Derived.Graph.Rounds.{missing, release-order, release-degree}
use fin_data_platform.Derived.Graph.Start.{count-ids, start-degree}
use fin_data_platform.Derived.Graph.Missing.{
  Follows, Follows-at, none_missing, none_waits, waiting_zero, missing-append_one,
}
use fin_data_platform.Derived.Graph.Invariant.{
  Inv, Inv-start, head-ready, Inv-visit, rounds-done, rounds_rule, rounds_end,
}

module _ (le : FactorId → FactorId → Bool) (nodes : Nodes) where
  rounds-add :
      (fuel more : ℕ) (s : Sorting)
      → rounds le (fuel + more) nodes s ≡ rounds le more nodes (rounds le fuel nodes s)
  unfolding rounds
  rounds-add zero more s = ap (λ n. rounds le n nodes s) (omega arith)
  rounds-add (suc fuel) more s =
      ap (λ n. rounds le n nodes s) (let e : suc fuel + more ≡ suc (fuel + more) = omega arith in e)
      ∙ elim (List-cases s.ready) [
        | inl e ↦
            rounds-done le nodes (suc (fuel + more)) s e
            ∙ sym (
                ap (rounds le more nodes) (rounds-done le nodes (suc fuel) s e)
                ∙ rounds-done le nodes more s e)
        | inr (node, rest, e) ↦ rw (e, rounds) (rounds-add fuel more (visit le nodes node rest s))
      ]

  unfoldable ended : Sorting
  unfolding start
  ended = rounds le (length nodes) nodes (start le nodes)

  Inv-ended : IsDistinct nodes → Inv le nodes ended
  unfolding ended
  Inv-ended d =
      rounds_rule le nodes (Inv le nodes) (λ s node rest e. Inv-visit le nodes s node rest d e)
        (length nodes) (start le nodes) (Inv-start le nodes d)

  ready-ended : IsDistinct nodes → ended.ready ≡ []
  unfolding ended
  ready-ended d =
      rounds_end le nodes (length nodes) (start le nodes) d (Inv-start le nodes d) (omega arith)

  topological_order-eq :
      (order : List FactorId)
      → topological_order le nodes ≡ ok order
      → (order ≡ ended.order) × (length order ≡ length nodes)
  unfolding topological_order ended
  topological_order-eq order h = ground arith

-- Every round beyond as many as there are nodes changes nothing: the loop has ended by itself.
pub rounds_enough :
    (le : FactorId → FactorId → Bool) (nodes : Nodes) (more : ℕ)
    → IsDistinct nodes
    → rounds le (length nodes + more) nodes (start le nodes)
      ≡ rounds le (length nodes) nodes (start le nodes)
unfolding rounds ended
rounds_enough le nodes more d =
    rounds-add le nodes (length nodes) more (start le nodes)
    ∙ rounds-done le nodes more (ended le nodes) (ready-ended le nodes d)

-- In the order that `topological_order` returns on a dict with distinct keys, every node stands once
-- and nothing else stands.
pub topological_order-count :
    (le : FactorId → FactorId → Bool) (nodes : Nodes) (order : List FactorId) (x : FactorId)
    → IsDistinct nodes
    → topological_order le nodes ≡ ok order
    → count x order ≡ (if has x nodes then 1 else 0)
topological_order-count le nodes order x d h =
    let (same, full) = topological_order-eq le nodes order h in
    let inv = Inv-ended le nodes d in
    let empty = ready-ended le nodes d in
    ground (
      arith,
      inv.each x,
      inv.work,
      ap length same,
      ap (count x) same,
      ap length empty,
      ap (count x) empty,
      none_waits nodes x (ended le nodes).indegree,
    )

-- In the order that `topological_order` returns on a dict with distinct keys, every input of a node
-- that is itself a node stands before that node.
pub topological_order_inputs :
    (le : FactorId → FactorId → Bool) (nodes : Nodes) (before : List FactorId) (x up : FactorId)
    (after : List FactorId)
    → IsDistinct nodes
    → topological_order le nodes ≡ ok (before ++ x ∷ after)
    → elem up (inputs_of x nodes) ≡ true
    → has up nodes ≡ true
    → elem up before ≡ true
topological_order_inputs le nodes before x up after d h input known =
    let (same, full) = topological_order-eq le nodes (before ++ x ∷ after) h in
    let inv = Inv-ended le nodes d in
    none_missing nodes before x up
      (Follows-at nodes [] before x after (subst (Follows nodes []) (sym same) inv.follows)) input
      known

module _ (le : FactorId → FactorId → Bool) (nodes : Nodes) where
  -- While no input stands twice, the count of a factor is the number of its missing inputs.
  abbrev Exact : Sorting → Type 0
  Exact s = Inv le nodes s × ((x : FactorId) → degree_of x s.indegree ≡ missing nodes s.order x)

  Exact-visit :
      ((x up : FactorId) → count up (inputs_of x nodes) ≤ 1)
      → (s : Sorting) (node : FactorId) (rest : List FactorId) → IsDistinct nodes
      → s.ready ≡ node ∷ rest
      → Exact s
      → Exact (visit le nodes node rest s)
  unfolding visit
  Exact-visit once s node rest d e (inv, exact) =
      let (known, new, _, _) = head-ready le nodes s node rest e inv in
      let cs = ids le nodes in
      let s' = record s { ready = rest; order = s.order ++ node ∷ [] } in
      (
        Inv-visit le nodes s node rest d e inv,
        λ x. rw (release-order node nodes cs s') (
            ground (
              arith,
              exact x,
              once x node,
              missing-append_one nodes s.order node x known new,
              release-degree node nodes cs s' x,
              count-ids le nodes x d,
              elem-count node (inputs_of x nodes),
              Option-cases (get x nodes),
            )),
      )

  Exact-ended :
      ((x up : FactorId) → count up (inputs_of x nodes) ≤ 1)
      → IsDistinct nodes
      → Exact (ended le nodes)
  unfolding ended start
  Exact-ended once d =
      rounds_rule le nodes Exact (λ s node rest e x. Exact-visit once s node rest d e x)
        (length nodes) (start le nodes) (Inv-start le nodes d, start-degree le nodes)

  none_left :
      (s : Sorting)
      → Exact s
      → s.ready ≡ []
      → (x : FactorId) → Acyclic nodes x
      → degree_of x s.indegree ≡ 0
  none_left s (inv, exact) empty x (acyclic inputs) =
      elim (Bool-cases (ltb 0 (missing nodes s.order x))) [
        | inr e ↦ ground (arith, exact x)
        | inl more ↦
            let (up, input, t) =
              elem_of_length-filter (λ u. has u nodes && not (elem u s.order)) (inputs_of x nodes)
                (ltb→lt 0 _ more) in
            let done = none_left s (inv, exact) empty up (inputs up input (ground arith)) in
            absurd (ground (arith, inv.each up, elem-count up s.order, ap (count up) empty))
      ]

-- `topological_order` returns on a dict with distinct keys in which no factor has an input twice, if
-- no walk along the inputs of a node is endless.
pub topological_order_returns :
    (le : FactorId → FactorId → Bool) (nodes : Nodes)
    → IsDistinct nodes
    → ((x up : FactorId) → count up (inputs_of x nodes) ≤ 1)
    → ((x : FactorId) → has x nodes ≡ true → Acyclic nodes x)
    → (order : List FactorId) × (topological_order le nodes ≡ ok order)
unfolding topological_order ended
topological_order_returns le nodes d once walks =
    let exact = Exact-ended le nodes once d in
    let empty = ready-ended le nodes d in
    let none_wait = waiting_zero nodes (ended le nodes).indegree exact.0.distinct (λ x.
      elim (Bool-cases (has x nodes)) [
        | inl t ↦ none_left le nodes (ended le nodes) exact empty x (walks x t)
        | inr f ↦ ground (arith, exact.0.each x)
      ]) in
    ((ended le nodes).order, ground (arith, exact.0.work, ap length empty, none_wait))
