-- ===== src/Derived/Closure.antt =====
-- src/fin_data_platform/derived/graph.py, `FactorGraph.upstream_closure`. The stack's end is the head
-- of its list here, and the set `seen` is a list in which no factor stands twice.
pub mod Edges
pub mod Reach
use mathlib.Core.List.{reverse}
use fin_data_platform.Prelude.{
  ℕ, zero, suc, ◌+◌, ◌≡◌, Bool, true, List, [], ◌∷◌, ◌++◌, length, elem, sorted, if◌then◌else◌,
  pair_eq, string_eq,
}
use fin_data_platform.Derived.Graph.{FactorId, Nodes, inputs_of}

pub record Search : Type 0 where
  pub stack : List FactorId
  pub seen : List FactorId

-- The body of the loop, after `current` was popped
unfoldable pub expand : Nodes → FactorId → List FactorId → Search → Search
expand nodes current rest s =
    if elem current s.seen
    then record s { stack = rest }
    else record { stack = reverse (inputs_of current nodes) ++ rest; seen = current ∷ s.seen }

-- The loop, for at most the given number of rounds
unfoldable pub search_rounds : ℕ → Nodes → Search → Search
unfolding expand
search_rounds zero nodes s = s
search_rounds (suc fuel) nodes s = elim s.stack [
  | [] ↦ s
  | current ∷ rest ↦ search_rounds fuel nodes (expand nodes current rest s)
]

-- All inputs of the nodes that are not in the list
abbrev pub edges : List FactorId → Nodes → ℕ
edges seen [] = 0
edges seen ((factor, node) ∷ rest) =
    (if elem factor seen then 0 else length node.factor_inputs) + edges seen rest

module _ (le : FactorId → FactorId → Bool) (nodes : Nodes) where
  abbrev pub begun : FactorId → Search
  begun factor = record { stack = reverse (inputs_of factor nodes); seen = [] }

  -- As many rounds as the graph has inputs, and those of the factor
  unfoldable pub upstream_closure : FactorId → List FactorId
  unfolding search_rounds
  upstream_closure factor =
      let fuel = length (inputs_of factor nodes) + edges [] nodes in
      sorted le (search_rounds fuel nodes (begun factor)).seen

-- The transitive inputs of a factor
pub data Upstream (nodes : Nodes) (factor : FactorId) : FactorId → Type 0 where
  direct : {up : FactorId} → elem up (inputs_of factor nodes) ≡ true → Upstream nodes factor up
  further :
      {middle up : FactorId}
      → Upstream nodes factor middle
      → elem up (inputs_of middle nodes) ≡ true
      → Upstream nodes factor up
