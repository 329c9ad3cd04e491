-- ===== src/Derived/Cycles/Found.antt =====
-- What `cycles` reports is a cycle, so it reports nothing exactly on an acyclic graph.
use fin_data_platform.Prelude.{
  ℕ, zero, suc, ◌≡◌, ◌∙◌, length, ◌↔◌, inl, inr, refl, sym, ap, subst, Bool, true, some, List, [],
  ◌∷◌, ◌++◌, elem, pair_eq, string_eq, arith, Bool-cases, Option-cases, List-cases, All,
}
use fin_data_platform.Dict.{get, put, has, keys, IsDistinct}
use fin_data_platform.Derived.Graph.{FactorId, Nodes, inputs_of, ids, Acyclic, acyclic}
use fin_data_platform.Derived.Cycles.{
  entered, Tour, from_factor, drop_last, look, look_all, visit, visit_all, cycles,
}
use fin_data_platform.Derived.Cycles.Marks.{Mark-cases, All-keys, All-keys-has}
use fin_data_platform.Derived.Cycles.Visits.{cycles-Acyclic}
use fin_data_platform.Derived.Cycles.Walks.{
  linked, IsCycle, drop_last-append_one, All-append_one, All-elem, entering, leaving,
  linked-append_one, from_factor_lem,
}

module _ (nodes : Nodes) where
  -- The factors entered and not finished are on the path, and what is found are cycles.
  record Sound (t : Tour) : Type 0 where
    on_path : (x : FactorId) → get x t.state ≡ some entered → elem x t.path ≡ true
    cyclic : All (IsCycle nodes) t.found

  -- The path is as before.
  Keeps : (FactorId → Tour → Tour) → Type 0
  Keeps go =
      (up : FactorId) (t : Tour)
      → linked nodes (t.path ++ up ∷ []) ≡ true
      → Sound t
      → Sound (go up t) × ((go up t).path ≡ t.path)

  look-Sound :
      (go : FactorId → Tour → Tour) (up : FactorId) (t : Tour)
      → Keeps go
      → (has up nodes ≡ true → linked nodes (t.path ++ up ∷ []) ≡ true)
      → Sound t
      → Sound (look nodes go up t) × ((look nodes go up t).path ≡ t.path)
  unfolding look Keeps
  look-Sound go up t keeps link sound = elim (Bool-cases (has up nodes)) [
    | inr f ↦ rw (f, look) (sound, refl)
    | inl k ↦ elim (Mark-cases (get up t.state)) [
      | inl e ↦ rw (k, look, e) (keeps up t (link k) sound)
      | inr (inr e) ↦ rw (k, look, e) (sound, refl)
      | inr (inl e) ↦
          let (rest, starts, linked_part) =
            from_factor_lem nodes up t.path (up ∷ []) (sound.on_path up e) (link k) in
          rw (k, look, e)
            (
              record {
                on_path = sound.on_path;
                cyclic =
                    All-append_one (IsCycle nodes) t.found (from_factor up t.path ++ up ∷ [])
                      sound.cyclic (up, rest, ap (λ xs. xs ++ up ∷ []) starts, linked_part);
              },
              refl,
            )
    ]
  ]

  look_all-Sound :
      (go : FactorId → Tour → Tour) (node : FactorId) (path : List FactorId) (ups : List FactorId)
      (t : Tour)
      → Keeps go
      → All (λ up. elem up (inputs_of node nodes) ≡ true) ups
      → linked nodes (path ++ node ∷ []) ≡ true
      → t.path ≡ path ++ node ∷ []
      → Sound t
      → Sound (look_all nodes go ups t) × ((look_all nodes go ups t).path ≡ path ++ node ∷ [])
  unfolding look_all
  look_all-Sound go node path [] t keeps inputs link e sound = (sound, e)
  look_all-Sound go node path (up ∷ ups) t keeps (input, inputs) link e sound =
      let (sound', same) =
        look-Sound go up t keeps
          (λ known.
            subst (λ p. linked nodes (p ++ up ∷ []) ≡ true) (sym e)
              (linked-append_one nodes path node up link input known))
          sound in
      look_all-Sound go node path ups (look nodes go up t) keeps inputs link (same ∙ e) sound'

  Keeps-visit : (fuel : ℕ) → Keeps (visit nodes fuel)
  unfolding Keeps visit
  Keeps-visit zero up t link sound = (sound, refl)
  Keeps-visit (suc fuel) up t link sound =
      let begun = record t { state = put up entered t.state; path = t.path ++ up ∷ [] } in
      let (sound', same) =
        look_all-Sound (visit nodes fuel) up t.path (inputs_of up nodes) begun (Keeps-visit fuel)
          (All-elem (inputs_of up nodes) (inputs_of up nodes) (λ x h. h)) link refl
          (record {
            on_path = λ x e. entering up x t.path t.state (sound.on_path x) e;
            cyclic = sound.cyclic;
          }) in
      let t' = look_all nodes (visit nodes fuel) (inputs_of up nodes) begun in
      let restored : drop_last t'.path ≡ t.path =
        ap drop_last same ∙ drop_last-append_one t.path up in
      (
        record {
          on_path = λ x e.
              subst (λ p. elem x p ≡ true) (sym restored)
                (leaving up x t.path t'.state
                  (λ h. subst (λ p. elem x p ≡ true) same (sound'.on_path x h)) e);
          cyclic = sound'.cyclic;
        },
        restored,
      )

  visit_all-Sound :
      (ks : List FactorId) (t : Tour) → t.path ≡ [] → Sound t → Sound (visit_all nodes ks t)
  unfolding visit_all linked Keeps
  visit_all-Sound [] t e sound = sound
  visit_all-Sound (k ∷ ks) t e sound = elim (Option-cases (get k t.state)) [
    | inl new ↦
        let link : linked nodes (t.path ++ k ∷ []) ≡ true =
          subst (λ p. linked nodes (p ++ k ∷ []) ≡ true) (sym e) refl in
        let (sound', same) = Keeps-visit (length nodes) k t link sound in
        rw (new, visit_all) (visit_all-Sound ks (visit nodes (length nodes) k t) (same ∙ e) sound')
    | inr (mark, old) ↦ rw (old, visit_all) (visit_all-Sound ks t e sound)
  ]

-- Every path that `cycles` reports is a cycle: it leads from a factor to itself, and each of its
-- factors after the first is a node and an input of the one before it.
pub cycles-IsCycle :
    (le : FactorId → FactorId → Bool) (nodes : Nodes) → All (IsCycle nodes) (cycles le nodes)
unfolding cycles get
cycles-IsCycle le nodes =
    let t : Tour = record { found = []; state = []; path = [] } in
    (visit_all-Sound nodes (ids le nodes) t refl
      (record { on_path = λ x h. cc; cyclic = tt })).cyclic

module _ (nodes : Nodes) where
  -- From a factor of an endless walk no walk is finite.
  endless :
      (x : FactorId) (between : List FactorId)
      → linked nodes (x ∷ between ++ x ∷ []) ≡ true
      → (y : FactorId) (before : List FactorId) → Acyclic nodes y
      → linked nodes (y ∷ before ++ x ∷ []) ≡ true
      → ⊥
  unfolding linked
  endless x between round y [] (acyclic inputs) h =
      endless x between round x between (inputs x (ground arith) (ground arith)) round
  endless x between round y (w ∷ before) (acyclic inputs) h =
      endless x between round w before (inputs w (ground arith) (ground arith)) (ground arith)

  last_known :
      (x y : FactorId) (between : List FactorId)
      → linked nodes (y ∷ between ++ x ∷ []) ≡ true
      → has x nodes ≡ true
  unfolding linked
  last_known x y [] h = ground arith
  last_known x y (w ∷ between) h = last_known x w between (ground arith)

-- On nodes with distinct keys `cycles` reports nothing if and only if no walk along the inputs of a
-- node is endless.
pub cycles_iff :
    (le : FactorId → FactorId → Bool) (nodes : Nodes)
    → IsDistinct nodes
    → (cycles le nodes ≡ []) ↔ All (Acyclic nodes) (keys nodes)
cycles_iff le nodes d = (
  λ e. All-keys (Acyclic nodes) nodes (λ x known. cycles-Acyclic le nodes x d e known),
  λ walks. elim (List-cases (cycles le nodes)) [
    | inl e ↦ e
    | inr (walk, rest, e) ↦
        let reported = subst (All (IsCycle nodes)) e (cycles-IsCycle le nodes) in
        let (x, between, shape, h) = reported.0 in
        let round = subst (λ w. linked nodes w ≡ true) shape h in
        absurd (
          endless nodes x between round x between
            (All-keys-has (Acyclic nodes) x nodes walks (last_known nodes x x between round)) round)
  ],
)
