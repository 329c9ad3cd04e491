-- ===== src/Derived/Graph.antt =====
-- src/fin_data_platform/derived/graph.py, `FactorGraph`: its nodes, a dict from factors, and
-- `topological_order`. The order of Python's pairs of texts is the argument `le`.
pub mod Rounds
pub mod Start
pub mod Missing
pub mod Invariant
pub mod Order
use fin_data_platform.Prelude.{
  ℕ, ◌≡◌, zero, suc, ◌-◌, String, Bool, true, false, Option, none, some, List, [], ◌∷◌, ◌++◌,
  filter, length, elem, sorted, if◌then◌else◌, or_else, nat_beq, pair_eq, string_eq,
}
use fin_data_platform.Dict.{Dict, get, put, has, keys}
use fin_data_platform.Outcome.{Outcome, ok, raise, value_error}

abbrev pub FactorId : Type 0
FactorId = String × String

pub record FactorNode : Type 0 where
  pub dataset : String
  pub output : String
  pub algorithm_id : String
  pub algorithm_version : ℕ
  pub materialize : String
  pub inputs : List String
  pub data_inputs : List String
  pub factor_inputs : List FactorId

abbrev pub Nodes : Type 0
Nodes = Dict FactorId FactorNode

-- `self._nodes[factor].factor_inputs`, and nothing for a factor that is not a node
abbrev pub inputs_of : FactorId → Nodes → List FactorId
inputs_of factor nodes = elim (get factor nodes) [ none ↦ [] | some node ↦ node.factor_inputs ]

abbrev pub Degrees : Type 0
Degrees = Dict FactorId ℕ

abbrev pub degree_of : FactorId → Degrees → ℕ
degree_of factor indegree = or_else (get factor indegree) 0

-- The locals of `topological_order`
pub record Sorting : Type 0 where
  pub indegree : Degrees
  pub ready : List FactorId
  pub order : List FactorId

-- The comprehension of `indegree`, over the second dict
unfoldable pub indegrees : Nodes → Nodes → Degrees
indegrees nodes [] = []
indegrees nodes ((factor, node) ∷ rest) =
    (factor, length (filter (λ up. has up nodes) node.factor_inputs)) ∷ indegrees nodes rest

-- `node for node, degree in indegree.items() if degree == 0`
unfoldable pub without_inputs : Degrees → List FactorId
without_inputs [] = []
without_inputs ((factor, degree) ∷ rest) =
    let later = without_inputs rest in if nat_beq degree 0 then factor ∷ later else later

-- `indegree[candidate] -= 1`, and the candidate is ready when that leaves 0. The code's count could
-- fall below 0, where it is never again 0; here it stays at 0, from which none becomes ready.
unfoldable pub lower : FactorId → Sorting → Sorting
lower candidate s =
    let degree = degree_of candidate s.indegree in
    record s {
      indegree = put candidate (degree - 1) s.indegree;
      ready = if nat_beq degree 1 then s.ready ++ candidate ∷ [] else s.ready;
    }

-- The inner loop, over the candidates
unfoldable pub release : FactorId → Nodes → List FactorId → Sorting → Sorting
unfolding lower
release node nodes [] s = s
release node nodes (candidate ∷ candidates) s =
    release node nodes candidates
      (if elem node (inputs_of candidate nodes) then lower candidate s else s)

module _ (le : FactorId → FactorId → Bool) where
  unfoldable pub ids : Nodes → List FactorId
  ids nodes = sorted le (keys nodes)

  -- The body of the `while` loop, after `node` left the head of `ready`
  unfoldable pub visit : Nodes → FactorId → List FactorId → Sorting → Sorting
  unfolding ids release
  visit nodes node rest s =
      let s' =
        release node nodes (ids nodes) (record s { ready = rest; order = s.order ++ node ∷ [] }) in
      record s' { ready = sorted le s'.ready }

  -- The `while` loop, for at most the given number of rounds
  unfoldable pub rounds : ℕ → Nodes → Sorting → Sorting
  unfolding visit
  rounds zero nodes s = s
  rounds (suc fuel) nodes s = elim s.ready [
    | [] ↦ s
    | node ∷ rest ↦ rounds fuel nodes (visit nodes node rest s)
  ]

  unfoldable pub start : Nodes → Sorting
  unfolding indegrees without_inputs
  start nodes =
      let indegree = indegrees nodes nodes in
      record { indegree = indegree; ready = sorted le (without_inputs indegree); order = [] }

  unfoldable pub topological_order : Nodes → Outcome (List FactorId)
  unfolding rounds start
  topological_order nodes =
      let s = rounds (length nodes) nodes (start nodes) in
      if nat_beq (length s.order) (length nodes) then ok s.order else raise value_error

-- No walk along the inputs of a factor, within the nodes, is endless.
pub data Acyclic (nodes : Nodes) : FactorId → Type 0 where
  acyclic :
      {factor : FactorId}
      → ((up : FactorId)
          → elem up (inputs_of factor nodes) ≡ true
          → has up nodes ≡ true
          → Acyclic nodes up)
      → Acyclic nodes factor
