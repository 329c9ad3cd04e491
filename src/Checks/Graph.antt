-- ===== src/Checks/Graph.antt =====
-- The theorems on src/fin_data_platform/derived/graph.py at a graph of three factors, and at two that
-- show a factor with an input twice and a cycle.
use fin_data_platform.Prelude.{
  ◌≡◌, ◌↔◌, ◌≤◌, refl, sym, subst, inl, inr, String, Bool, true, not, ◌||◌, ℕ, some, List, [], ◌∷◌,
  ◌+◌, elem, count, leb, if◌then◌else◌, All, insert_sorted, sorted, Bool-cases, pair_eq, string_eq,
  arith, ◌==◌,
}
use fin_data_platform.Outcome.{ok, raise, value_error}
use fin_data_platform.Dict.{get, put, has, keys, IsDistinct}
use fin_data_platform.Derived.Graph.{
  FactorId, FactorNode, Nodes, inputs_of, indegrees, without_inputs, lower, release, ids, visit,
  rounds, start, topological_order, Acyclic,
}
use fin_data_platform.Derived.Graph.Rounds.{factor_eq}
use fin_data_platform.Derived.Graph.Order.{
  rounds_enough, topological_order-count, topological_order_inputs, topological_order_returns,
}
use fin_data_platform.Derived.Closure.{expand, search_rounds, upstream_closure, Upstream}
use fin_data_platform.Derived.Closure.Reach.{upstream_closure-Upstream, upstream_closure-count}
use fin_data_platform.Derived.Cycles.{
  from_factor, drop_last, look, look_all, visit as visit_factor, visit_all, cycles, input_problems,
  node_problems, validate, cyclic,
}
use fin_data_platform.Derived.Cycles.Visits.{cycles-Acyclic}
use fin_data_platform.Derived.Cycles.Walks.{IsCycle}
use fin_data_platform.Derived.Cycles.Found.{cycles-IsCycle, cycles_iff}
use fin_data_platform.Derived.Cycles.Clean.{validate_inputs, validate-topological_order}

-- The order on the factors of these tests: by the length of the output's name
abbrev le : FactorId → FactorId → Bool
le a b = leb (place a.1) (place b.1)
  where
    place : String → ℕ
    place name = if name == "ret" then 0 else if name == "vol" then 1 else 2

abbrev node : String → List FactorId → FactorId × FactorNode
node output ups = (
  ("bar", output),
  record {
    dataset = "bar";
    output = output;
    algorithm_id = output;
    algorithm_version = 1;
    materialize = "latest";
    inputs = [];
    data_inputs = [];
    factor_inputs = ups;
  },
)

abbrev ret : FactorId
ret = ("bar", "ret")

abbrev vol : FactorId
vol = ("bar", "vol")

abbrev mom : FactorId
mom = ("bar", "mom")

abbrev chain : Nodes
chain = node "mom" (vol ∷ ret ∷ []) ∷ node "vol" (ret ∷ []) ∷ node "ret" [] ∷ []

chain-topological_order : topological_order le chain ≡ ok (ret ∷ vol ∷ mom ∷ [])
unfolding get put topological_order rounds start indegrees without_inputs lower release ids visit
    sorted insert_sorted
chain-topological_order = refl

-- A factor that reads another one in two modes has it as an input twice.
abbrev doubled : Nodes
doubled = node "vol" (ret ∷ ret ∷ []) ∷ node "ret" [] ∷ []

-- The graph has no cycle, and `topological_order` raises the error on cycles.
doubled-topological_order :
    (topological_order le doubled ≡ raise value_error) × (validate le doubled ≡ [])
unfolding get put topological_order rounds start indegrees without_inputs lower release ids visit
    sorted insert_sorted validate node_problems input_problems cycles visit_all visit_factor
    look_all look drop_last from_factor
doubled-topological_order = (refl, refl)

abbrev round : Nodes
round = node "vol" (mom ∷ []) ∷ node "mom" (vol ∷ ret ∷ []) ∷ node "ret" [] ∷ []

round-validate : validate le round ≡ cyclic (vol ∷ mom ∷ vol ∷ []) ∷ []
unfolding get put ids sorted insert_sorted validate node_problems input_problems cycles visit_all
    visit_factor look_all look drop_last from_factor
round-validate = refl

round-topological_order : topological_order le round ≡ raise value_error
unfolding get put topological_order rounds start indegrees without_inputs lower release ids visit
    sorted insert_sorted
round-topological_order = refl

-- A factor on a cycle is among its own transitive inputs.
round-upstream_closure : elem vol (upstream_closure le round vol) ≡ true
unfolding get sorted insert_sorted upstream_closure search_rounds expand
round-upstream_closure = refl

chain-validate : validate le chain ≡ []
unfolding get put ids sorted insert_sorted validate node_problems input_problems cycles visit_all
    visit_factor look_all look drop_last from_factor
chain-validate = refl

chain-cycles : cycles le chain ≡ []
unfolding get put ids sorted insert_sorted cycles visit_all visit_factor look_all look drop_last
    from_factor
chain-cycles = refl

chain-IsDistinct : IsDistinct chain
unfolding get
chain-IsDistinct = (refl, (refl, (refl, tt)))

two_once : (up : FactorId) → count up (vol ∷ ret ∷ []) ≤ 1
two_once up = elim (Bool-cases (factor_eq.beq up vol)) [
  | inl t ↦
      subst (λ y. count y (vol ∷ ret ∷ []) ≤ 1) (sym ((factor_eq.beq_iff up vol).0 t)) (omega arith)
  | inr f ↦ rw f (ground arith)
]

chain_once : (x up : FactorId) → count up (inputs_of x chain) ≤ 1
unfolding get
chain_once x up = elim (Bool-cases (factor_eq.beq mom x)) [
  | inl t ↦ rw (inputs_of, t) (two_once up)
  | inr f ↦ elim (Bool-cases (factor_eq.beq vol x)) [
    | inl t ↦ rw (inputs_of, f, t) (ground arith)
    | inr g ↦ elim (Bool-cases (factor_eq.beq ret x)) [
      | inl t ↦ rw (inputs_of, f, g, t) (omega arith)
      | inr h ↦ rw (inputs_of, f, g, h) (omega arith)
    ]
  ]
]

rounds_enough_case : rounds le (3 + 4) chain (start le chain) ≡ rounds le 3 chain (start le chain)
unfolding get
rounds_enough_case = rounds_enough le chain 4 chain-IsDistinct

topological_order-count_example :
    count vol (ret ∷ vol ∷ mom ∷ []) ≡ (if has vol chain then 1 else 0)
unfolding get
topological_order-count_example =
    topological_order-count le chain (ret ∷ vol ∷ mom ∷ []) vol chain-IsDistinct
      chain-topological_order

topological_order_inputs_example : elem vol (ret ∷ vol ∷ []) ≡ true
unfolding get
topological_order_inputs_example =
    topological_order_inputs le chain (ret ∷ vol ∷ []) mom vol [] chain-IsDistinct
      chain-topological_order refl refl

topological_order_returns_case : (order : List FactorId) × (topological_order le chain ≡ ok order)
unfolding get
topological_order_returns_case =
    topological_order_returns le chain chain-IsDistinct chain_once
      (λ x known. cycles-Acyclic le chain x chain-IsDistinct chain-cycles known)

cycles_iff_example : (cycles le chain ≡ []) ↔ All (Acyclic chain) (keys chain)
cycles_iff_example = cycles_iff le chain chain-IsDistinct

cycles-IsCycle_case : All (IsCycle round) (cycles le round)
cycles-IsCycle_case = cycles-IsCycle le round

validate_inputs_case :
    (upstream : FactorNode) × (get ret chain ≡ some upstream)
    × ((not (true) || upstream.materialize == "latest") ≡ true)
unfolding get
validate_inputs_case = validate_inputs le chain chain-IsDistinct chain-validate vol ret _ refl refl

validate-topological_order_example :
    (order : List FactorId) × (topological_order le chain ≡ ok order)
unfolding get
validate-topological_order_example =
    validate-topological_order le chain chain-IsDistinct chain-validate chain_once

upstream_closure-Upstream_example :
    (elem ret (upstream_closure le chain mom) ≡ true) ↔ Upstream chain mom ret
upstream_closure-Upstream_example = upstream_closure-Upstream le chain mom ret

upstream_closure-count_case : count ret (upstream_closure le chain mom) ≤ 1
upstream_closure-count_case = upstream_closure-count le chain mom ret
