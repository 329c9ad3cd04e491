-- ===== src/Derived/Graph/Invariant.antt =====
-- The invariant of the rounds of `topological_order`, and their end.
use fin_data_platform.Prelude.{
  ℕ, zero, suc, ◌+◌, ◌≤◌, ◌≡◌, refl, sym, ap, subst, inl, inr, Bool, true, false, List, [], ◌∷◌,
  ◌++◌, length, elem, if◌then◌else◌, arith, count, length-filter-sorted, length-sorted,
  length-append, length-filter-append, elem-count, List-cases, pair_eq, string_eq,
}
use fin_data_platform.Dict.{has, IsDistinct}
use fin_data_platform.Derived.Graph.{
  FactorId, Nodes, inputs_of, degree_of, Sorting, release, ids, visit, rounds, start,
}
use fin_data_platform.Derived.Graph.Rounds.{
  factor_eq, waits, waiting, missing, release-count, release-length, release-order,
  release-IsDistinct, release-degree,
}
use fin_data_platform.Derived.Graph.Start.{
  count-ids, start-count, start-length, start-IsDistinct, start-degree,
}
use fin_data_platform.Derived.Graph.Missing.{Follows, Follows-append_one, missing-append_one}

module _ (le : FactorId → FactorId → Bool) (nodes : Nodes) where
  -- What each round keeps
  pub record Inv (s : Sorting) : Type 0 where
    pub distinct : IsDistinct s.indegree
    pub each :
        (x : FactorId)
        → count x s.order + count x s.ready + waits x s.indegree ≡ (if has x nodes then 1 else 0)
    pub work : length s.order + length s.ready + waiting s.indegree ≡ length nodes
    pub bound : (x : FactorId) → missing nodes s.order x ≤ degree_of x s.indegree
    pub follows : Follows nodes [] s.order

  pub Inv-start : IsDistinct nodes → Inv (start le nodes)
  unfolding start
  Inv-start d = record {
    distinct = start-IsDistinct le nodes d;
    each = λ x. omega (arith, start-count le nodes x d);
    work = omega (arith, start-length le nodes);
    bound = λ x. omega (arith, start-degree le nodes x);
    follows = tt;
  }

  -- The ready node is a node that is not ordered, and its count is 0.
  pub head-ready :
      (s : Sorting) (node : FactorId) (rest : List FactorId)
      → s.ready ≡ node ∷ rest
      → Inv s
      → (has node nodes ≡ true)
        × (elem node s.order ≡ false)
        × (degree_of node s.indegree ≡ 0)
        × ((x : FactorId)
            → count x (s.order ++ node ∷ []) + count x rest + waits x s.indegree
              ≡ (if has x nodes then 1 else 0))
  head-ready s node rest e inv = (
    ground (arith, inv.each node, e, factor_eq.beq_iff node node),
    ground (arith, inv.each node, e, factor_eq.beq_iff node node, elem-count node s.order),
    ground (arith, inv.each node, e, factor_eq.beq_iff node node),
    λ x. ground (arith, inv.each x, e, length-filter-append (factor_eq.beq x) s.order (node ∷ [])),
  )

  pub Inv-visit :
      (s : Sorting) (node : FactorId) (rest : List FactorId)
      → IsDistinct nodes
      → s.ready ≡ node ∷ rest
      → Inv s
      → Inv (visit le nodes node rest s)
  unfolding visit
  Inv-visit s node rest d e inv =
      let (known, new, zero_left, moved) = head-ready s node rest e inv in
      let cs = ids le nodes in
      let s' = record s { ready = rest; order = s.order ++ node ∷ [] } in
      let same = release-order node nodes cs s' in
      record {
        distinct = release-IsDistinct node nodes cs s' inv.distinct;
        each = λ x. rw same (
            omega (
              arith,
              moved x,
              release-count node nodes cs s' x,
              length-filter-sorted le (factor_eq.beq x) (release node nodes cs s').ready,
            ));
        work = rw same (
            omega (
              arith,
              inv.work,
              ap length e,
              length-append s.order (node ∷ []),
              release-length node nodes cs s',
              length-sorted le (release node nodes cs s').ready,
            ));
        bound = λ x. rw same (
            ground (
              arith,
              inv.bound x,
              missing-append_one nodes s.order node x known new,
              release-degree node nodes cs s' x,
              count-ids le nodes x d,
              elem-count node (inputs_of x nodes),
            ));
        follows =
            rw same (
              Follows-append_one nodes [] s.order node inv.follows (omega (arith, inv.bound node)));
      }

  pub length-visit :
      (s : Sorting) (node : FactorId) (rest : List FactorId)
      → length (visit le nodes node rest s).order ≡ suc (length s.order)
  unfolding visit
  length-visit s node rest =
      let s' = record s { ready = rest; order = s.order ++ node ∷ [] } in
      rw (release-order node nodes (ids le nodes) s')
        (omega (arith, length-append s.order (node ∷ [])))

  pub rounds-done : (fuel : ℕ) (s : Sorting) → s.ready ≡ [] → rounds le fuel nodes s ≡ s
  unfolding rounds
  rounds-done zero s e = refl
  rounds-done (suc fuel) s e = simp (e, rounds)

  -- An invariant of the rounds holds when the loop ends.
  pub rounds_rule {ℓ} :
      (P : Sorting → Type ℓ)
      → ((s : Sorting) (node : FactorId) (rest : List FactorId)
          → s.ready ≡ node ∷ rest
          → P s
          → P (visit le nodes node rest s))
      → (fuel : ℕ) (s : Sorting) → P s
      → P (rounds le fuel nodes s)
  unfolding rounds
  rounds_rule P keep zero s p = p
  rounds_rule P keep (suc fuel) s p = elim (List-cases s.ready) [
    | inl e ↦ subst P (sym (rounds-done (suc fuel) s e)) p
    | inr (node, rest, e) ↦
        rw (e, rounds) (rounds_rule P keep fuel (visit le nodes node rest s) (keep s node rest e p))
  ]

  -- A round orders one node, so as many rounds as nodes empty the queue.
  pub rounds_end :
      (fuel : ℕ) (s : Sorting)
      → IsDistinct nodes
      → Inv s
      → length nodes ≤ fuel + length s.order
      → (rounds le fuel nodes s).ready ≡ []
  unfolding rounds
  rounds_end zero s d inv h = ground (arith, inv.work, List-cases s.ready)
  rounds_end (suc fuel) s d inv h = elim (List-cases s.ready) [
    | inl e ↦ subst (λ t. t.ready ≡ []) (sym (rounds-done (suc fuel) s e)) e
    | inr (node, rest, e) ↦
        rw (e, rounds)
          (rounds_end fuel (visit le nodes node rest s) d (Inv-visit s node rest d e inv)
            (omega (arith, length-visit s node rest)))
  ]
