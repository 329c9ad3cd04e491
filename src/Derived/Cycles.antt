-- ===== src/Derived/Cycles.antt =====
-- src/fin_data_platform/derived/graph.py, `FactorGraph.cycles` and `validate`. The recursion of
-- `visit` takes as fuel a bound of its depth, the number of nodes.
pub mod Marks
pub mod Visits
pub mod Walks
pub mod Found
pub mod Clean
use fin_data_platform.Prelude.{
  ℕ, zero, suc, Bool, true, false, not, String, none, some, List, [], ◌∷◌, ◌++◌, length, elem, ◌≡◌,
  if◌then◌else◌, ◌==◌, pair_eq, string_eq, map,
}
use fin_data_platform.Dict.{Dict, get, put, has}
use fin_data_platform.Derived.Graph.{FactorId, FactorNode, Nodes, inputs_of, ids}

-- The values 1 and 2 of `state`
pub data Mark : Type 0 where
  entered finished : Mark

pub record Tour : Type 0 where
  pub found : List (List FactorId)
  pub state : Dict FactorId Mark
  pub path : List FactorId

-- `path[path.index(factor):]`
unfoldable pub from_factor : FactorId → List FactorId → List FactorId
from_factor factor [] = []
from_factor factor (x ∷ xs) =
    let rest = from_factor factor xs in if x == factor then x ∷ xs else rest

-- `path.pop()`
unfoldable pub drop_last : List FactorId → List FactorId
drop_last [] = []
drop_last (x ∷ []) = []
drop_last (x ∷ y ∷ xs) = x ∷ drop_last (y ∷ xs)

module _ (nodes : Nodes) where
  -- The body of the loop over the inputs, where `go` visits a factor
  unfoldable pub look : (FactorId → Tour → Tour) → FactorId → Tour → Tour
  unfolding from_factor
  look go up t =
      let visited = go up t in
      if not (has up nodes) then t else elim (get up t.state) [
        | some entered ↦ record t { found = t.found ++ (from_factor up t.path ++ up ∷ []) ∷ [] }
        | none ↦ visited
        | some finished ↦ t
      ]

  unfoldable pub look_all : (FactorId → Tour → Tour) → List FactorId → Tour → Tour
  unfolding look
  look_all go [] t = t
  look_all go (up ∷ ups) t = look_all go ups (look go up t)

  unfoldable pub visit : ℕ → FactorId → Tour → Tour
  unfolding look_all drop_last
  visit zero node t = t
  visit (suc fuel) node t =
      let t' =
        look_all (visit fuel) (inputs_of node nodes)
          (record t { state = put node entered t.state; path = t.path ++ node ∷ [] }) in
      record t' { state = put node finished t'.state; path = drop_last t'.path }

  -- The last loop, over `ids`
  unfoldable pub visit_all : List FactorId → Tour → Tour
  unfolding visit
  visit_all [] t = t
  visit_all (node ∷ rest) t =
      let visited = visit (length nodes) node t in
      visit_all rest (elim (get node t.state) [ none ↦ visited | some _ ↦ t ])

module _ (le : FactorId → FactorId → Bool) (nodes : Nodes) where
  unfoldable pub cycles : List (List FactorId)
  unfolding visit_all ids
  cycles = (visit_all nodes (ids le nodes) (record { found = []; state = []; path = [] })).found

-- The messages of `validate`
pub data Problem : Type 0 where
  unknown_input : FactorId → FactorId → Problem
  not_latest : FactorId → FactorId → String → Problem
  cyclic : List FactorId → Problem

-- The messages on the inputs of one node, whose factor its dataset and output name
unfoldable pub input_problems : Nodes → FactorNode → List FactorId → List Problem
input_problems nodes node [] = []
input_problems nodes node (up ∷ ups) =
    let rest = input_problems nodes node ups in
    let factor : FactorId = (node.dataset, node.output) in
    elim (get up nodes) [
      | none ↦ unknown_input factor up ∷ rest
      | some upstream ↦
          if node.materialize == "latest"
          then if upstream.materialize == "latest"
            then rest
            else not_latest factor up upstream.materialize ∷ rest
          else rest
    ]

-- `for node in self`: the nodes in the order of `ids`
unfoldable pub node_problems : Nodes → List FactorId → List Problem
unfolding input_problems
node_problems nodes [] = []
node_problems nodes (factor ∷ rest) =
    elim (get factor nodes) [ none ↦ [] | some node ↦ input_problems nodes node node.factor_inputs ]
    ++ node_problems nodes rest

unfoldable pub validate : (FactorId → FactorId → Bool) → Nodes → List Problem
unfolding node_problems cycles
validate le nodes = node_problems nodes (ids le nodes) ++ map cyclic (cycles le nodes)
