-- ===== src/Entities/Universe/Members.antt =====
-- Who is in the universe of a day, by the rules of Rules.
use fin_data_platform.Prelude.{
  some_injective, subst, and_left, and_right, ℕ, ◌≡◌, sym, ◌∙◌, ap, String, true, ◌&&◌, ◌↔◌, ◌⊎◌,
  Option, some, List, [], ◌∷◌, nat_eq, inl, inr, Bool-cases, Option-cases, arith, if◌then◌else◌,
  Any, Any-sorted, sorted, leb, elem, elem-count, length-filter-sorted, nat_beq,
}
use fin_data_platform.Dict.{Dict, get, keys}
use fin_data_platform.Dict.Entries.{Any-entries, elem-keys}
use fin_data_platform.Outcome.{ok, Outcome-cases, ok_injective}
use fin_data_platform.Runtime.Models.{DateTime, Date}
use fin_data_platform.Entities.Models.{EntityRecord}
use fin_data_platform.Entities.Store.{EntityStore}
use fin_data_platform.Entities.Rows.{entity}
use fin_data_platform.Entities.Batch.{entity_many}
use fin_data_platform.Entities.Batch.Lookup.{get-entity_many}
use fin_data_platform.Entities.Universe.{
  LifecycleRecord, LifecycleStatus, status_of, is_traded, Ranked, rank_rows, is_wanted, members,
  by_id, universe,
}
use fin_data_platform.Entities.Universe.Ranking.{get-rank_rows, greatest_with}
use fin_data_platform.Entities.Universe.Deciding.{Decides, Decides-iff, rank_rows-IsDistinct}
use fin_data_platform.Entities.Universe.Rules.{IsAskedFor, wanted_iff, traded_iff}

-- An entry of the ranking shows a record: it says that its entity is traded, the registry has the
-- record for the entity, and the filters ask for it.
abbrev Shows :
    Dict ℕ EntityRecord
    → Option String
    → Option String
    → EntityRecord
    → ℕ × LifecycleRecord
    → Type 0
Shows records entity_type market member (i, row) =
    ((row.status ≡ "listed") ⊎ (row.status ≡ "suspended"))
    × (get i records ≡ some member)
    × IsAskedFor entity_type (some member.entity_type)
    × IsAskedFor market member.market

module _ (records : Dict ℕ EntityRecord) (entity_type market : Option String)
    (member : EntityRecord) where
  abbrev Same : EntityRecord → Type 0
  Same x = x ≡ member

  abbrev kept : EntityRecord → List EntityRecord → List EntityRecord
  kept found others =
      if is_wanted entity_type (some found.entity_type) && is_wanted market found.market
      then found ∷ others
      else others

  -- A record that the registry has for a traded row, at the filters
  kept_or_later :
      (i : ℕ) (row : LifecycleRecord) (found : EntityRecord) (others : List EntityRecord)
      → (row.status ≡ "listed") ⊎ (row.status ≡ "suspended")
      → get i records ≡ some found
      → Any Same (kept found others)
        ↔ (Shows records entity_type market member (i, row) ⊎ Any Same others)
  kept_or_later i row found others traded m =
      let (typed, typed') = wanted_iff entity_type (some found.entity_type) in
      let (placed, placed') = wanted_iff market found.market in
      elim (Bool-cases
        (is_wanted entity_type (some found.entity_type) && is_wanted market found.market)) [
          | inr w ↦ rw w (
            (λ h. inr h),
            λ h. elim h [
              | inl (u, read, a, b) ↦
                  let is : member ≡ found = some_injective (sym read ∙ m) in
                  let left =
                    typed' (subst (λ x. IsAskedFor entity_type (some x.entity_type)) is a) in
                  let right = placed' (subst (λ x. IsAskedFor market x.market) is b) in
                  absurd (ground (arith, left, right))
              | inr later ↦ later
            ],
          )
          | inl w ↦ rw w (
            (λ h. elim h [
              | inl is ↦ inl (
                traded,
                m ∙ ap some is,
                subst (λ x. IsAskedFor entity_type (some x.entity_type)) is
                    (typed (and_left _ _ w)),
                subst (λ x. IsAskedFor market x.market) is (placed (and_right _ _ w)),
              )
              | inr later ↦ inr later
            ]),
            λ h. elim h [
              | inl (u, read, a, b) ↦ inl (some_injective (sym m ∙ read))
              | inr later ↦ inr later
            ],
          )
        ]

  -- One round of the second loop, by what it shows and what the later rounds show
  first_or_later :
      (i : ℕ) (row : LifecycleRecord) (rest : Ranked) (others result : List EntityRecord)
      (status : LifecycleStatus)
      → status_of row ≡ ok status
      → members records entity_type market rest ≡ ok others
      → members records entity_type market ((i, row) ∷ rest) ≡ ok result
      → Any Same result ↔ (Shows records entity_type market member (i, row) ⊎ Any Same others)
  unfolding members
  first_or_later i row rest others result status k l e =
      let (traded, traded') = traded_iff row status k in
      elim (Bool-cases (is_traded status)) [
        | inr t ↦
            let same : others ≡ result = ok_injective (rw (k, l, t, members) at e) in
            rw (← same) (
              (λ h. inr h),
              λ h. elim h [ inl (u, v, w, y) ↦ absurd (cc (traded' u)) | inr later ↦ later ],
            )
        | inl t ↦ elim (Option-cases (get i records)) [
          | inl m ↦
              let same : others ≡ result = ok_injective (rw (k, l, t, m, members) at e) in
              rw (← same)
                ((λ h. inr h), λ h. elim h [ inl (u, v, w, y) ↦ absurd (cc) | inr later ↦ later ])
          | inr (found, m) ↦
              let same : kept found others ≡ result =
                ok_injective (rw (k, l, t, m, members) at e) in
              rw (← same) (kept_or_later i row found others (traded t) m)
        ]
      ]

  members_iff :
      (items : Ranked) (result : List EntityRecord)
      → members records entity_type market items ≡ ok result
      → Any Same result ↔ Any (Shows records entity_type market member) items
  unfolding members
  members_iff [] result e = rw (← ok_injective e) ((λ h. h), λ h. h)
  members_iff ((i, row) ∷ rest) result e = elim (Outcome-cases (status_of row)) [
    | inr (x, k) ↦ cc (rw (k, members) at e)
    | inl (status, k) ↦ elim (Outcome-cases (members records entity_type market rest)) [
      | inr (x, l) ↦ cc (rw (k, l, members) at e)
      | inl (others, l) ↦
          let (f, f') = first_or_later i row rest others result status k l e in
          let (g, g') = members_iff rest others l in
          (
            (λ h. elim (f h) [ inl shown ↦ inl shown | inr later ↦ inr (g later) ]),
            λ h. elim h [ inl shown ↦ f' (inl shown) | inr later ↦ f' (inr (g' later)) ],
          )
    ]
  ]

-- Why a record is a member: the row that decides on some entity says that it is listed or suspended, the
-- registry reads the record for the entity on the day, and the filters ask for its type and market.
pub record IsMember (s : EntityStore) (lifecycle : List LifecycleRecord) (target : Date)
    (limit : Option DateTime) (entity_type market : Option String) (member : EntityRecord)
    : Type 0 where
  pub entity_id : ℕ
  pub row : LifecycleRecord
  pub decides : Decides lifecycle target limit entity_id row
  pub traded : (row.status ≡ "listed") ⊎ (row.status ≡ "suspended")
  pub registered : entity entity_id (some target) s ≡ some member
  pub of_type : IsAskedFor entity_type (some member.entity_type)
  pub of_market : IsAskedFor market member.market

elem-sorted-keys :
    (i : ℕ) (row : LifecycleRecord) (ranked : Ranked)
    → get i ranked ≡ some row
    → elem i (sorted leb (keys ranked)) ≡ true
elem-sorted-keys i row ranked g = ground (
  arith,
  elem-keys i row ranked g,
  elem-count i (sorted leb (keys ranked)),
  elem-count i (keys ranked),
  length-filter-sorted leb (nat_beq i) (keys ranked),
)

-- When `universe` returns over the registry, the records in its answer are exactly the members of the
-- day: those for which a row of the entity, known at the limit and covering the day, decides, ranked by
-- start, version and knowledge time, and says listed or suspended, and that the registry and the filters
-- let through.
pub universe_iff :
    (s : EntityStore) (lifecycle : List LifecycleRecord) (target : Date) (limit : Option DateTime)
    (entity_type market : Option String) (result : List EntityRecord) (member : EntityRecord)
    → universe
        (λ ids day. entity_many ids (some day) s)
        lifecycle
        (some target)
        limit
        entity_type
        market
      ≡ ok result
    → Any (λ x. x ≡ member) result ↔ IsMember s lifecycle target limit entity_type market member
unfolding universe get greatest_with
universe_iff s lifecycle target limit entity_type market result member e =
    let (f, f') = members_iff records entity_type market member (sorted by_id ranked) result e in
    let (g, g') = Any-sorted by_id (Shows records entity_type market member) ranked in
    let (h, h') =
      Any-entries (Shows records entity_type market member) ranked
        (rank_rows-IsDistinct limit target lifecycle [] tt) in
    (
      (λ a.
          let (i, row, found, (traded, read, typed, placed)) = h (g (f a)) in
          record {
            entity_id = i;
            row = row;
            decides =
                (Decides-iff lifecycle target limit i row).0
                  (sym (get-rank_rows limit target i lifecycle []) ∙ found);
            traded = traded;
            registered =
                sym (get-entity_many i asked (some target) s (elem-sorted-keys i row ranked found))
                ∙ read;
            of_type = typed;
            of_market = placed;
          }),
      λ m.
          let found : get m.entity_id ranked ≡ some m.row =
            get-rank_rows limit target m.entity_id lifecycle []
            ∙ (Decides-iff lifecycle target limit m.entity_id m.row).1 m.decides in
          f' (
            g' (
              h' (
                m.entity_id,
                m.row,
                found,
                (
                  m.traded,
                  get-entity_many m.entity_id asked (some target) s
                        (elem-sorted-keys m.entity_id m.row ranked found)
                      ∙ m.registered,
                  m.of_type,
                  m.of_market,
                ),
              ))),
    )
  where
    ranked : Ranked
    ranked = rank_rows limit target lifecycle []

    asked : List ℕ
    asked = sorted leb (keys ranked)

    records : Dict ℕ EntityRecord
    records = entity_many asked (some target) s
