-- ===== src/Checks/Layered.antt =====
-- The theorem on src/fin_data_platform/cache/layered.py at a layer that is behind while L2 is away.
use fin_data_platform.Prelude.{
  ◌+◌, ◌≡◌, refl, true, false, none, some, [], ◌∷◌, max, if◌then◌else◌, string_eq,
}
use fin_data_platform.Dict.{get, put}
use fin_data_platform.Layered.{LayeredCache, generation_of, generation, bump_both, bump_generation}
use fin_data_platform.Layered.Bumps.{seen, generation-bump_generation}

-- L1 has not seen the five invalidations that L2 has.
abbrev behind : LayeredCache
behind = record { l1 = []; l2 = some (("bar", 5) ∷ []); errors = 0 }

-- The invalidation does not reach L2, and the generation stays what it was.
invalidation_lost : seen "bar" (bump_generation false true "bar" behind).1 ≡ seen "bar" behind
unfolding get put generation bump_both bump_generation
invalidation_lost = refl

generation-bump_generation_example :
    seen "bar" (bump_generation false true "bar" behind).1 ≡ (elim behind.l2 [
      | none ↦ generation_of behind.l1 "bar" + 1
      | some counters ↦
          if false
          then max (generation_of behind.l1 "bar") (generation_of counters "bar") + 1
          else max (generation_of behind.l1 "bar" + 1) (generation_of counters "bar")
    ])
generation-bump_generation_example = generation-bump_generation false true "bar" behind
