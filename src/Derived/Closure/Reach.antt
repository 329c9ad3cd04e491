-- ===== src/Derived/Closure/Reach.antt =====
-- `upstream_closure` finds exactly the transitive inputs, and its loop ends.
use mathlib.Core.List.{reverse}
use fin_data_platform.Prelude.{
  ℕ, zero, suc, ◌+◌, ◌≤◌, ◌≡◌, ◌↔◌, inl, inr, refl, sym, ap, subst, Bool, true, false, ◌||◌, List,
  [], ◌∷◌, length, elem, count, if◌then◌else◌, pair_eq, string_eq, arith, length-append, elem-count,
  length-filter-sorted, Bool-cases, List-cases,
}
use fin_data_platform.Derived.Graph.{FactorId, Nodes, inputs_of}
use fin_data_platform.Derived.Graph.Rounds.{factor_eq}
use fin_data_platform.Derived.Closure.{
  Search, expand, search_rounds, edges, begun, upstream_closure, Upstream, direct, further,
}
use fin_data_platform.Derived.Closure.Edges.{
  elem-reverse_aux, length-reverse_aux, elem-pushed, elem-sorted, edges-cons,
}

module _ (nodes : Nodes) (factor : FactorId) where
  -- A factor is seen or waits on the stack.
  abbrev held : FactorId → Search → Bool
  held x s = elem x s.seen || elem x s.stack

  record Inv (s : Search) : Type 0 where
    once : (x : FactorId) → count x s.seen ≤ 1
    sound : (x : FactorId) → held x s ≡ true → Upstream nodes factor x
    source : (x : FactorId) → elem x (inputs_of factor nodes) ≡ true → held x s ≡ true
    closed :
        (x up : FactorId)
        → elem x s.seen ≡ true
        → elem up (inputs_of x nodes) ≡ true
        → held up s ≡ true

  Inv-begun : (le : FactorId → FactorId → Bool) → Inv (begun le nodes factor)
  Inv-begun le = record {
    once = λ x. omega arith;
    sound = λ x h. direct (ground (arith, elem-reverse_aux x (inputs_of factor nodes) [], h));
    source = λ x h. ground (arith, elem-reverse_aux x (inputs_of factor nodes) [], h);
    closed = λ x up h. absurd (ground arith);
  }

  held-expand :
      (s : Search) (c : FactorId) (rest : List FactorId) (x : FactorId)
      → s.stack ≡ c ∷ rest
      → held x (expand nodes c rest s)
        ≡ (held x s || (if elem c s.seen then false else elem x (inputs_of c nodes)))
  unfolding expand
  held-expand s c rest x e = elim (Bool-cases (elem c s.seen)) [
    | inl old ↦ elim (Bool-cases (factor_eq.beq x c)) [
      | inl t ↦
          let old' : elem x s.seen ≡ true =
            subst (λ y. elem y s.seen ≡ true) (sym ((factor_eq.beq_iff x c).0 t)) old in
          rw (old, old') refl
      | inr f ↦ ground (arith, ap (elem x) e)
    ]
    | inr new ↦ ground (arith, ap (elem x) e, elem-pushed x (inputs_of c nodes) rest)
  ]

  seen-expand :
      (s : Search) (c : FactorId) (rest : List FactorId) (x : FactorId)
      → elem x (expand nodes c rest s).seen
        ≡ (elem x s.seen || (if elem c s.seen then false else factor_eq.beq x c))
  unfolding expand
  seen-expand s c rest x = ground arith

  once-expand :
      (s : Search) (c : FactorId) (rest : List FactorId) (x : FactorId)
      → count x s.seen ≤ 1
      → count x (expand nodes c rest s).seen ≤ 1
  unfolding expand
  once-expand s c rest x h = elim (Bool-cases (factor_eq.beq x c)) [
    | inl t ↦
        let same : elem c s.seen ≡ elem x s.seen =
          ap (λ y. elem y s.seen) (sym ((factor_eq.beq_iff x c).0 t)) in
        ground (arith, same, elem-count x s.seen)
    | inr f ↦ ground arith
  ]

  Inv-expand :
      (s : Search) (c : FactorId) (rest : List FactorId)
      → s.stack ≡ c ∷ rest
      → Inv s
      → Inv (expand nodes c rest s)
  Inv-expand s c rest e inv =
      let here : held c s ≡ true = ground (arith, ap (elem c) e, factor_eq.beq_iff c c) in
      let reached = inv.sound c here in
      record {
        once = λ x. once-expand s c rest x (inv.once x);
        sound = λ x h. elim (Bool-cases (held x s)) [
          | inl t ↦ inv.sound x t
          | inr f ↦ further reached (ground (arith, held-expand s c rest x e))
        ];
        source = λ x h. rw (held-expand s c rest x e, inv.source x h) refl;
        closed = λ x up h input. elim (Bool-cases (elem x s.seen)) [
          | inl t ↦ rw (held-expand s c rest up e, inv.closed x up t input) refl
          | inr f ↦
              let new = seen-expand s c rest x in
              let same : x ≡ c = ground (arith, factor_eq.beq_iff x c) in
              let input' : elem up (inputs_of c nodes) ≡ true =
                subst (λ y. elem up (inputs_of y nodes) ≡ true) same input in
              let unseen : elem c s.seen ≡ false = subst (λ y. elem y s.seen ≡ false) same f in
              rw (held-expand s c rest up e, unseen, input') (ground arith)
        ];
      }

  -- The rounds that are left: one for each factor on the stack and for each input not yet pushed
  abbrev left : Search → ℕ
  left s = length s.stack + edges s.seen nodes

  left-expand :
      (s : Search) (c : FactorId) (rest : List FactorId)
      → s.stack ≡ c ∷ rest
      → suc (left (expand nodes c rest s)) ≤ left s
  unfolding expand
  left-expand s c rest e = elim (Bool-cases (elem c s.seen)) [
    | inl old ↦ ground (arith, ap length e)
    | inr new ↦ ground (
      arith,
      ap length e,
      edges-cons c s.seen nodes new,
      length-append (reverse (inputs_of c nodes)) rest,
      length-reverse_aux (inputs_of c nodes) [],
    )
  ]

  search_end :
      (fuel : ℕ) (s : Search)
      → left s ≤ fuel
      → Inv s
      → Inv (search_rounds fuel nodes s) × ((search_rounds fuel nodes s).stack ≡ [])
  unfolding search_rounds
  search_end zero s h inv = (inv, ground (arith, List-cases s.stack))
  search_end (suc fuel) s h inv = elim (List-cases s.stack) [
    | inl e ↦
        subst (λ t. Inv t × (t.stack ≡ []))
          (sym (let same : search_rounds (suc fuel) nodes s ≡ s = simp (e, search_rounds) in same))
          (inv, e)
    | inr (c, rest, e) ↦
        rw (e, search_rounds)
          (search_end fuel (expand nodes c rest s) (omega (arith, left-expand s c rest e))
            (Inv-expand s c rest e inv))
  ]

  Upstream-seen :
      (s : Search)
      → Inv s
      → s.stack ≡ []
      → (x : FactorId) → Upstream nodes factor x
      → elem x s.seen ≡ true
  Upstream-seen s inv empty x (direct h) = ground (arith, inv.source x h, ap (elem x) empty)
  Upstream-seen s inv empty x (further {middle} up h) =
      ground (arith, inv.closed middle x (Upstream-seen s inv empty middle up) h, ap (elem x) empty)

module _ (le : FactorId → FactorId → Bool) (nodes : Nodes) (factor x : FactorId) where
  searched :
      Inv nodes factor (
        search_rounds
          (length (inputs_of factor nodes) + edges [] nodes)
          nodes
          (begun le nodes factor))
      × ((search_rounds
            (length (inputs_of factor nodes) + edges [] nodes)
            nodes
            (begun le nodes factor)).stack
          ≡ [])
  searched =
      search_end nodes factor (length (inputs_of factor nodes) + edges [] nodes)
        (begun le nodes factor) (omega (arith, length-reverse_aux (inputs_of factor nodes) []))
        (Inv-begun nodes factor le)

  -- `upstream_closure` holds exactly the transitive inputs of the factor.
  pub upstream_closure-Upstream :
      (elem x (upstream_closure le nodes factor) ≡ true) ↔ Upstream nodes factor x
  unfolding upstream_closure
  upstream_closure-Upstream =
      let (inv, empty) = searched in
      let s =
        search_rounds (length (inputs_of factor nodes) + edges [] nodes) nodes
          (begun le nodes factor) in
      (
        λ h. inv.sound x (ground (arith, elem-sorted le x s.seen)),
        λ up. rw (elem-sorted le x s.seen) (Upstream-seen nodes factor s inv empty x up),
      )

  -- `upstream_closure` holds no factor twice.
  pub upstream_closure-count : count x (upstream_closure le nodes factor) ≤ 1
  unfolding upstream_closure
  upstream_closure-count =
      let (inv, empty) = searched in
      let s =
        search_rounds (length (inputs_of factor nodes) + edges [] nodes) nodes
          (begun le nodes factor) in
      omega (arith, inv.once x, length-filter-sorted le (factor_eq.beq x) s.seen)
