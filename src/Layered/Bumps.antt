-- ===== src/Layered/Bumps.antt =====
-- What an invalidation does to the generation that readers see.
use fin_data_platform.Prelude.{
  ℕ, ◌+◌, ◌≡◌, refl, String, Bool, true, false, inl, inr, none, some, arith, ltb, max, string_eq,
  if◌then◌else◌, Bool-cases, Option-cases, ◌∙◌,
}
use fin_data_platform.Dict.{Dict, put}
use fin_data_platform.Dict.Laws.{get-put}
use fin_data_platform.Layered.{
  LayeredCache, generation_of, bump_generation_of, noted, generation, bump_both, bump_generation,
}

-- The generation that a reader sees who reaches both layers.
abbrev pub seen : String → LayeredCache → ℕ
seen domain c = (generation true true domain c).0

generation_of-put : (d : String) (n : ℕ) (m : Dict String ℕ) → generation_of (put d n m) d ≡ n
generation_of-put d n m = ground (arith, get-put d d n m, string_eq.beq_iff d d)

seen_alone : (d : String) (c : LayeredCache) → c.l2 ≡ none → seen d c ≡ generation_of c.l1 d
unfolding generation
seen_alone d c e = rw (e, generation) refl

seen_both :
    (d : String) (c : LayeredCache) (m : Dict String ℕ)
    → c.l2 ≡ some m
    → seen d c ≡ max (generation_of c.l1 d) (generation_of m d)
unfolding generation
seen_both d c m e = rw (e, generation) refl

-- Both layers after a write.
seen_written :
    (d : String) (a b : ℕ) (x y : Dict String ℕ) (n : ℕ)
    → seen d (record { l1 = put d a x; l2 = some (put d b y); errors = n }) ≡ max a b
seen_written d a b x y n =
    seen_both d (record { l1 = put d a x; l2 = some (put d b y); errors = n }) (put d b y) refl
    ∙ rw (generation_of-put d a x, generation_of-put d b y) refl

seen-bump_both :
    (incr_up sync_up : Bool) (d : String) (m : Dict String ℕ) (c : LayeredCache)
    → c.l2 ≡ some m
    → seen d (bump_both incr_up sync_up d m c).1 ≡ (
        if incr_up
        then max (generation_of c.l1 d) (generation_of m d) + 1
        else max (generation_of c.l1 d + 1) (generation_of m d))
unfolding bump_both
seen-bump_both false sync_up d m c e =
    seen_both d (noted (record c { l1 = bump_generation_of c.l1 d })) m e
    ∙ rw (generation_of-put d (generation_of c.l1 d + 1) c.l1) refl
seen-bump_both true sync_up d m c e =
    elim (Bool-cases (ltb (generation_of m d + 1) (generation_of c.l1 d + 1))) [
      | inl t ↦ rw t (elim (Bool-cases sync_up) [
        | inl u ↦
            rw u (
              seen_written d local local c.l1 (bump_generation_of m d) c.errors ∙ ground (arith, t))
        | inr u ↦ rw u (seen_written d local remote c.l1 m (c.errors + 1) ∙ ground arith)
      ])
      | inr t ↦ elim (Bool-cases (ltb (generation_of c.l1 d + 1) (generation_of m d + 1))) [
        | inl s ↦
            rw (t, s)
              (elim (Bool-cases sync_up) [
                | inl u ↦ rw u (
                    seen_written d remote remote (bump_generation_of c.l1 d) m c.errors
                    ∙ ground (arith, s))
                | inr u ↦ rw u (seen_written d local remote c.l1 m (c.errors + 1) ∙ ground arith)
              ])
        | inr s ↦ rw (t, s) (seen_written d local remote c.l1 m c.errors ∙ ground arith)
      ]
    ]
  where
    local : ℕ
    local = generation_of c.l1 d + 1

    remote : ℕ
    remote = generation_of m d + 1

-- A reader who reaches both layers sees, after an invalidation: without L2, the next generation; if L2
-- took the increment, one more than the larger of both, whether or not the layer behind was brought
-- up; and if it did not, the larger of L2's generation and the next one of L1, which is the old
-- generation where L1 was behind.
pub generation-bump_generation :
    (incr_up sync_up : Bool) (domain : String) (c : LayeredCache)
    → seen domain (bump_generation incr_up sync_up domain c).1 ≡ (elim c.l2 [
      | none ↦ generation_of c.l1 domain + 1
      | some counters ↦
          if incr_up
          then max (generation_of c.l1 domain) (generation_of counters domain) + 1
          else max (generation_of c.l1 domain + 1) (generation_of counters domain)
    ])
unfolding generation bump_generation
generation-bump_generation incr_up sync_up d c = elim (Option-cases c.l2) [
  | inl e ↦
      rw (e, bump_generation)
        (seen_alone d (record c { l1 = bump_generation_of c.l1 d }) e
          ∙ generation_of-put d (generation_of c.l1 d + 1) c.l1)
  | inr (m, e) ↦ rw (e, bump_generation) (seen-bump_both incr_up sync_up d m c e)
]
