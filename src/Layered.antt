-- ===== src/Layered.antt =====
-- src/fin_data_platform/cache/layered.py and keys.py: the generations of the layered cache. A cache key
-- holds the generation of its domain, and an invalidation moves the generation on. The counters of a
-- layer are a dict, from which nothing is evicted. Whether a call of a layer goes through is an argument.
pub mod Bumps
use fin_data_platform.Prelude.{
  ℕ, ◌+◌, String, Bool, true, false, Option, none, some, List, [], ◌∷◌, ltb, max, or_else,
  string_eq, if◌then◌else◌,
}
use fin_data_platform.Dict.{Dict, get, put}

pub record LayeredCache : Type 0 where
  pub l1 : Dict String ℕ
  pub l2 : Option (Dict String ℕ)
  pub errors : ℕ

-- `generation_of`
abbrev pub generation_of : Dict String ℕ → String → ℕ
generation_of counters domain = or_else (get domain counters) 0

-- The counters after `backend.incr`
abbrev pub bump_generation_of : Dict String ℕ → String → Dict String ℕ
bump_generation_of counters domain = put domain (generation_of counters domain + 1) counters

abbrev pub noted : LayeredCache → LayeredCache
noted c = record c { errors = c.errors + 1 }

-- The larger of what the layers that answer show.
unfoldable pub generation : Bool → Bool → String → LayeredCache → ℕ × LayeredCache
generation l1_up l2_up domain c =
    let local = if l1_up then generation_of c.l1 domain else 0 in
    let c' = if l1_up then c else noted c in
    elim c.l2 [
      | none ↦ (local, c')
      | some counters ↦
          if l2_up then (max local (generation_of counters domain), c') else (local, noted c')
    ]

-- `bump_generation` over a second layer with these counters. `incr_up` is whether it takes the
-- increment, `sync_up` whether the layer behind takes the other's value.
unfoldable pub bump_both : Bool → Bool → String → Dict String ℕ → LayeredCache → ℕ × LayeredCache
bump_both false sync_up domain counters c =
    (generation_of c.l1 domain + 1, noted (record c { l1 = bump_generation_of c.l1 domain }))
bump_both true sync_up domain counters c =
    let local = generation_of c.l1 domain + 1 in
    let remote = generation_of counters domain + 1 in
    let l1 = bump_generation_of c.l1 domain in
    let l2 = bump_generation_of counters domain in
    let bumped : LayeredCache = record c { l1 = l1; l2 = some l2 } in
    if ltb remote local
    then (
      local,
      if sync_up then record bumped { l2 = some (put domain local l2) } else noted bumped,
    )
    else if ltb local remote
    then (
      max local remote,
      if sync_up then record bumped { l1 = put domain remote l1 } else noted bumped,
    )
    else (max local remote, bumped)

unfoldable pub bump_generation : Bool → Bool → String → LayeredCache → ℕ × LayeredCache
unfolding bump_both
bump_generation incr_up sync_up domain c = elim c.l2 [
  | none ↦ (generation_of c.l1 domain + 1, record c { l1 = bump_generation_of c.l1 domain })
  | some counters ↦ bump_both incr_up sync_up domain counters c
]
