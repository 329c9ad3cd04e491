-- ===== src/Entities/Universe/Rules.antt =====
-- The rules of the universe in words: when a row speaks for an entity, which of two rows ranks above, and
-- the tests of the ranking by them.
use fin_data_platform.Prelude.{
  beq→eq, eq→beq, option_beq_iff, ℕ, ◌≡◌, ◌≤◌, ◌<◌, refl, String, true, false, ◌↔◌, ◌⊎◌, inl, inr,
  Option, none, some, nat_eq, or_else, arith, Bool-cases, Option-cases, ◌==◌, string_eq,
}
use fin_data_platform.Runtime.Models.{DateTime, Date}
use fin_data_platform.Entities.Models.{epoch}
use fin_data_platform.Entities.Universe.{
  LifecycleRecord, listed, suspended, delisted, is_known_by, is_on, is_outranked, is_wanted,
  status_of, is_traded, LifecycleStatus,
}
use fin_data_platform.Entities.Universe.Ranking.{counts_for}
use fin_data_platform.Outcome.{ok, ok_injective}

-- What became known at a time, if it is given, is known at a limit, if there is one.
abbrev pub IsKnown : Option DateTime → Option DateTime → Type 0
IsKnown none known = Unit
IsKnown (some limit) none = Unit
IsKnown (some limit) (some known) = known ≤ limit

-- An interval that begins and ends, where they are given, on these days holds the day.
abbrev pub Holds : Option Date → Option Date → Date → Type 0
Holds start none target = or_else start epoch ≤ target
Holds start (some end) target = (or_else start epoch ≤ target) × (target ≤ end)

-- The row is of the entity, known at the limit and covers the day.
abbrev pub Speaks : Option DateTime → Date → ℕ → LifecycleRecord → Type 0
Speaks limit target i row =
    (row.entity_id ≡ i)
    × IsKnown limit row.knowledge_time
    × Holds row.start_date row.end_date target

-- The second row ranks above the first: it starts later, or on the same day in a later version, or in
-- the same version and became known later.
abbrev pub RanksBelow : LifecycleRecord → LifecycleRecord → Type 0
RanksBelow a b =
    (or_else a.start_date epoch < or_else b.start_date epoch)
    ⊎ ((or_else a.start_date epoch ≡ or_else b.start_date epoch)
        × ((a.version < b.version)
            ⊎ ((a.version ≡ b.version)
                × (or_else a.knowledge_time 0 < or_else b.knowledge_time 0))))

-- A value that a filter asks for
abbrev pub IsAskedFor : Option String → Option String → Type 0
IsAskedFor none value = Unit
IsAskedFor (some wanted) value = (wanted ≡ "") ⊎ (value ≡ some wanted)

IsKnown-iff :
    (limit : Option DateTime) (row : LifecycleRecord)
    → (is_known_by limit row ≡ true) ↔ IsKnown limit row.knowledge_time
IsKnown-iff none row = ((λ h. tt), λ h. refl)
IsKnown-iff (some limit) row = elim (Option-cases row.knowledge_time) [
  | inl e ↦ rw e ((λ h. tt), λ h. refl)
  | inr (known, e) ↦ rw e ((λ h. ground arith), λ h. ground arith)
]

Holds-iff :
    (target : Date) (row : LifecycleRecord)
    → (is_on target row ≡ true) ↔ Holds row.start_date row.end_date target
Holds-iff target row = elim (Option-cases row.end_date) [
  | inl e ↦ rw e ((λ h. ground arith), λ h. ground arith)
  | inr (end, e) ↦ rw e ((λ h. (ground arith, ground arith)), λ h. ground arith)
]

pub counts_for_iff :
    (limit : Option DateTime) (target : Date) (i : ℕ) (row : LifecycleRecord)
    → (counts_for limit target i row ≡ true) ↔ Speaks limit target i row
counts_for_iff limit target i row =
    let (k, k') = IsKnown-iff limit row in
    let (o, o') = Holds-iff target row in
    (
      (λ h. (ground arith, k (ground arith), o (ground arith))),
      λ (same, known, on). ground (arith, k' known, o' on),
    )

pub outranked_iff : (a b : LifecycleRecord) → (is_outranked a b ≡ true) ↔ RanksBelow a b
outranked_iff a b = ((λ h. ground arith), λ h. ground arith)

pub outranked_trans :
    (a b c : LifecycleRecord)
    → is_outranked a b ≡ true
    → is_outranked b c ≡ true
    → is_outranked a c ≡ true
outranked_trans a b c h h' = ground arith

pub outranked_mixed :
    (a b c : LifecycleRecord)
    → is_outranked a b ≡ false
    → is_outranked a c ≡ true
    → is_outranked b c ≡ true
outranked_mixed a b c h h' = ground arith

pub wanted_iff :
    (filter value : Option String) → (is_wanted filter value ≡ true) ↔ IsAskedFor filter value
wanted_iff none value = ((λ h. tt), λ h. refl)
wanted_iff (some wanted) value =
    let (same, same') = string_eq.beq_iff wanted "" in
    let (there, there') = option_beq_iff value (some wanted) in
    (
      (λ h. elim (Bool-cases (wanted == "")) [
        | inl t ↦ inl (same t)
        | inr t ↦ inr (there (rw t at h))
      ]),
      λ h. elim h [ inl t ↦ rw (same' t) refl | inr t ↦ ground (arith, there' t) ],
    )

pub traded_iff :
    (row : LifecycleRecord) (status : LifecycleStatus)
    → status_of row ≡ ok status
    → (is_traded status ≡ true) ↔ ((row.status ≡ "listed") ⊎ (row.status ≡ "suspended"))
unfolding status_of
traded_iff row status e = elim (Bool-cases (row.status == "listed")) [
  | inl t ↦
      let same : listed ≡ status = ok_injective (rw (t, status_of) at e) in
      rw (← same) ((λ h. inl (beq→eq row.status "listed" t)), λ h. refl)
  | inr t ↦ elim (Bool-cases (row.status == "suspended")) [
    | inl u ↦
        let same : suspended ≡ status = ok_injective (rw (t, u, status_of) at e) in
        rw (← same) ((λ h. inr (beq→eq row.status "suspended" u)), λ h. refl)
    | inr u ↦ elim (Bool-cases (row.status == "delisted")) [
      | inr v ↦ absurd (cc (rw (t, u, v, status_of) at e))
      | inl v ↦
          let same : delisted ≡ status = ok_injective (rw (t, u, v, status_of) at e) in
          rw (← same) (
            (λ h. absurd (cc)),
            λ h. elim h [ inl w ↦ absurd (cc (eq→beq w)) | inr w ↦ absurd (cc (eq→beq w)) ],
          )
    ]
  ]
]
