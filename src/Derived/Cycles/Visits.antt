-- ===== src/Derived/Cycles/Visits.antt =====
-- Where `cycles` finds nothing, no walk along the inputs of a node is endless.
use fin_data_platform.Prelude.{
  ℕ, zero, suc, ◌≤◌, ◌≡◌, ◌≢◌, inl, inr, sym, ap, subst, Bool, true, false, none, some, List, [],
  ◌∷◌, ◌++◌, length, elem, count, pair_eq, string_eq, arith, length-append, elem-count, Bool-cases,
  All, All-sorted,
}
use fin_data_platform.Dict.{get, put, has, keys, IsDistinct}
use fin_data_platform.Dict.Laws.{get-put}
use fin_data_platform.Outcome.{ok}
use fin_data_platform.Derived.Graph.{
  FactorId, Nodes, inputs_of, ids, topological_order, Acyclic, acyclic,
}
use fin_data_platform.Derived.Graph.Rounds.{factor_eq}
use fin_data_platform.Derived.Graph.Start.{count-ids}
use fin_data_platform.Derived.Graph.Order.{topological_order_returns}
use fin_data_platform.Derived.Cycles.{
  entered, finished, Tour, from_factor, look, look_all, visit, visit_all, cycles,
}
use fin_data_platform.Derived.Cycles.Marks.{
  All-keys, Mark-cases, fresh, Grows, Grows-refl, Grows-trans, fresh-Grows, fresh-put, fresh-le,
  length-keys, count-has,
}

module _ (nodes : Nodes) where
  -- Nothing is found, or every finished factor has only finite walks.
  Good : Tour → Type 0
  Good t = length t.found ≡ 0 → (x : FactorId) → get x t.state ≡ some finished → Acyclic nodes x

  record Visited (up : FactorId) (t t' : Tour) : Type 0 where
    grows : Grows t t'
    good : Good t'
    done : get up t'.state ≡ some finished

  Visits : ℕ → (FactorId → Tour → Tour) → Type 0
  Visits fuel go =
      (up : FactorId) (t : Tour)
      → has up nodes ≡ true
      → get up t.state ≡ none
      → fresh (keys nodes) t ≤ fuel
      → Good t
      → Visited up t (go up t)

  record Looked (ups : List FactorId) (t t' : Tour) : Type 0 where
    grows : Grows t t'
    good : Good t'
    done :
        (up : FactorId)
        → length t'.found ≡ 0
        → elem up ups ≡ true
        → has up nodes ≡ true
        → get up t'.state ≡ some finished

  look_lem :
      (fuel : ℕ) (go : FactorId → Tour → Tour) (up : FactorId) (t : Tour)
      → Visits fuel go
      → fresh (keys nodes) t ≤ fuel
      → Good t
      → Grows t (look nodes go up t)
        × Good (look nodes go up t)
        × (length (look nodes go up t).found ≡ 0
            → has up nodes ≡ true
            → get up (look nodes go up t).state ≡ some finished)
  unfolding look Good Visits
  look_lem fuel go up t visits room good = elim (Bool-cases (has up nodes)) [
    | inr f ↦ rw (f, look) (Grows-refl t, good, λ h k. cc)
    | inl k ↦ elim (Mark-cases (get up t.state)) [
      | inl e ↦
          let v = visits up t k e room good in rw (k, look, e) (v.grows, v.good, λ h k. v.done)
      | inr (inl e) ↦
          rw (k, look, e)
            (
              record {
                found =
                    omega (arith, length-append t.found ((from_factor up t.path ++ up ∷ []) ∷ []));
                kept = λ x h. h;
                marked = λ x h. h;
                open_before = λ x h. h;
              },
              λ h.
                  absurd (
                    omega (arith, length-append t.found ((from_factor up t.path ++ up ∷ []) ∷ []))),
              λ h.
                  absurd (
                    omega (arith, length-append t.found ((from_factor up t.path ++ up ∷ []) ∷ []))),
            )
      | inr (inr e) ↦ rw (k, look, e) (Grows-refl t, good, λ h k. e)
    ]
  ]

  look_all_lem :
      (fuel : ℕ) (go : FactorId → Tour → Tour) (ups : List FactorId) (t : Tour)
      → Visits fuel go
      → fresh (keys nodes) t ≤ fuel
      → Good t
      → Looked ups t (look_all nodes go ups t)
  unfolding look_all
  look_all_lem fuel go [] t visits room good = record {
    grows = Grows-refl t;
    good = good;
    done = λ up none_found input known. absurd (ground arith);
  }
  look_all_lem fuel go (u ∷ ups) t visits room good =
      let (grows, good', done) = look_lem fuel go u t visits room good in
      let t' = look nodes go u t in
      let more =
        look_all_lem fuel go ups t' visits (omega (arith, fresh-Grows (keys nodes) t t' grows))
          good' in
      record {
        grows = Grows-trans t t' (look_all nodes go ups t') grows more.grows;
        good = more.good;
        done = λ up none_found input known. elim (Bool-cases (factor_eq.beq up u)) [
          | inl same ↦
              let e = (factor_eq.beq_iff up u).0 same in
              more.grows.kept up (
                subst (λ y. get y t'.state ≡ some finished) (sym e)
                  (done (omega (arith, more.grows.found))
                    (subst (λ y. has y nodes ≡ true) e known)))
          | inr other ↦ more.done up none_found (ground arith) known
        ];
      }

  Visits-visit : (fuel : ℕ) → Visits fuel (visit nodes fuel)
  unfolding Visits visit Good
  Visits-visit zero node t known new room good =
      let unmarked : has node t.state ≡ false = ground (arith, new) in
      absurd
        (omega (arith, fresh-put node entered (keys nodes) t unmarked, count-has node nodes known))
  Visits-visit (suc fuel) node t known new room good =
      let unmarked : has node t.state ≡ false = ground (arith, new) in
      let begun = record t { state = put node entered t.state; path = t.path ++ node ∷ [] } in
      let looked =
        look_all_lem fuel (visit nodes fuel) (inputs_of node nodes) begun (Visits-visit fuel)
          (omega
            (arith, fresh-put node entered (keys nodes) t unmarked, count-has node nodes known))
          (λ none_found x e. good none_found x (ground (arith, get-put node x entered t.state))) in
      let t' = look_all nodes (visit nodes fuel) (inputs_of node nodes) begun in
      let done_after = λ (x : FactorId). get-put node x finished t'.state in
      record {
        grows = record {
          found = looked.grows.found;
          kept = λ x e.
              let e' : get x begun.state ≡ some finished =
                ground (arith, get-put node x entered t.state, factor_eq.beq_iff node x) in
              ground (arith, looked.grows.kept x e', done_after x);
          marked = λ x e.
              let e' : has x begun.state ≡ true = ground (arith, get-put node x entered t.state) in
              ground (arith, looked.grows.marked x e', done_after x);
          open_before = λ x e.
              let e' : get x t'.state ≡ some entered =
                ground (arith, done_after x, factor_eq.beq_iff node x) in
              ground (
                arith,
                looked.grows.open_before x e',
                get-put node x entered t.state,
                done_after x,
              );
        };
        good = λ none_found x e. elim (Bool-cases (factor_eq.beq node x)) [
          | inl same ↦ subst (Acyclic nodes) ((factor_eq.beq_iff node x).0 same) (
              acyclic (λ up input in_graph.
                looked.good none_found up (looked.done up none_found input in_graph)))
          | inr other ↦ looked.good none_found x (ground (arith, done_after x))
        ];
        done = ground (arith, done_after node, factor_eq.beq_iff node node);
      }

  -- The last loop finishes every factor of its list.
  visit_all_lem :
      (ks : List FactorId) (t : Tour)
      → All (λ k. has k nodes ≡ true) ks
      → Good t
      → ((x : FactorId) → get x t.state ≢ some entered)
      → Looked ks t (visit_all nodes ks t)
  unfolding visit_all Visits
  visit_all_lem [] t h good shut = record {
    grows = Grows-refl t;
    good = good;
    done = λ up none_found input known. absurd (ground arith);
  }
  visit_all_lem (k ∷ ks) t (known, h) good shut = elim (Mark-cases (get k t.state)) [
    | inl e ↦
        let room : fresh (keys nodes) t ≤ length nodes =
          omega (arith, fresh-le (keys nodes) t, length-keys nodes) in
        let v = Visits-visit (length nodes) k t known e room good in
        let t' = visit nodes (length nodes) k t in
        rw (e, visit_all)
          (extended t' v.grows v.done
            (visit_all_lem ks t' h v.good (λ x f. shut x (v.grows.open_before x f))))
    | inr (inl e) ↦ absurd (shut k e)
    | inr (inr e) ↦ rw (e, visit_all) (extended t (Grows-refl t) e (visit_all_lem ks t h good shut))
  ]
    where
      extended :
          (t' : Tour)
          → Grows t t'
          → get k t'.state ≡ some finished
          → Looked ks t' (visit_all nodes ks t')
          → Looked (k ∷ ks) t (visit_all nodes ks t')
      extended t' grows done more = record {
        grows = Grows-trans t t' (visit_all nodes ks t') grows more.grows;
        good = more.good;
        done = λ up none_found input known. elim (Bool-cases (factor_eq.beq up k)) [
          | inl same ↦ more.grows.kept up (
              subst (λ y. get y t'.state ≡ some finished) (sym ((factor_eq.beq_iff up k).0 same))
                done)
          | inr other ↦ more.done up none_found (ground arith) known
        ];
      }

All-ids :
    (le : FactorId → FactorId → Bool) (nodes : Nodes) → All (λ k. has k nodes ≡ true) (ids le nodes)
unfolding ids
All-ids le nodes =
    All-sorted le (λ k. has k nodes ≡ true) (keys nodes)
      (All-keys (λ k. has k nodes ≡ true) nodes (λ x h. h))

-- Where `cycles` finds no cycle among nodes with distinct keys, no walk along the inputs of a node is
-- endless.
pub cycles-Acyclic :
    (le : FactorId → FactorId → Bool) (nodes : Nodes) (x : FactorId)
    → IsDistinct nodes
    → cycles le nodes ≡ []
    → has x nodes ≡ true
    → Acyclic nodes x
unfolding cycles Good get
cycles-Acyclic le nodes x d none_found known =
    let t : Tour = record { found = []; state = []; path = [] } in
    let looked =
      visit_all_lem nodes (ids le nodes) t (All-ids le nodes) (λ e y f. cc) (λ y f. cc) in
    let empty = ap length none_found in
    looked.good empty x (
      looked.done x empty (ground (arith, count-ids le nodes x d, elem-count x (ids le nodes)))
        known)

-- `topological_order` returns on nodes with distinct keys in which no factor has an input twice, if
-- `cycles` finds no cycle.
pub cycles-topological_order :
    (le : FactorId → FactorId → Bool) (nodes : Nodes)
    → IsDistinct nodes
    → ((x up : FactorId) → count up (inputs_of x nodes) ≤ 1)
    → cycles le nodes ≡ []
    → (order : List FactorId) × (topological_order le nodes ≡ ok order)
cycles-topological_order le nodes d once none_found =
    topological_order_returns le nodes d once
      (λ x known. cycles-Acyclic le nodes x d none_found known)
