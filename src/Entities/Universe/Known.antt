-- ===== src/Entities/Universe/Known.antt =====
-- Rows that became known after the limit have no say in the universe.
use fin_data_platform.Prelude.{
  ℕ, ◌≡◌, refl, ◌∙◌, ap, String, false, Option, none, some, List, [], ◌∷◌, filter, nat_eq, inl, inr,
  Bool-cases, if◌then◌else◌, sorted, leb,
}
use fin_data_platform.Dict.{Dict, get, put, keys}
use fin_data_platform.Runtime.Models.{DateTime, Date}
use fin_data_platform.Entities.Models.{EntityRecord}
use fin_data_platform.Entities.Universe.{
  LifecycleRecord, is_known_by, is_counted, is_outranked, Ranked, rank_row, rank_rows, members,
  by_id, universe,
}

rank_row-same :
    (limit other : Option DateTime) (target : Date) (row : LifecycleRecord) (ranked : Ranked)
    → is_counted limit target row ≡ is_counted other target row
    → rank_row limit target row ranked ≡ rank_row other target row ranked
unfolding rank_row
rank_row-same limit other target row ranked e =
    ap
      (λ b.
        if b
        then (elim (get row.entity_id ranked) [
          | none ↦ put row.entity_id row ranked
          | some current ↦ if is_outranked current row then put row.entity_id row ranked else ranked
        ])
        else ranked)
      e

rank_row-unknown :
    (limit : Option DateTime) (target : Date) (row : LifecycleRecord) (ranked : Ranked)
    → is_known_by limit row ≡ false
    → rank_row limit target row ranked ≡ ranked
unfolding rank_row
rank_row-unknown limit target row ranked t = rw (t, rank_row) refl

rank_rows-filter :
    (limit : Option DateTime) (target : Date) (rows : List LifecycleRecord) (ranked : Ranked)
    → rank_rows limit target rows ranked
      ≡ rank_rows none target (filter (is_known_by limit) rows) ranked
unfolding rank_rows
rank_rows-filter limit target [] ranked = refl
rank_rows-filter limit target (row ∷ rows) ranked = elim (Bool-cases (is_known_by limit row)) [
  | inl t ↦
      rank_rows-filter limit target rows (rank_row limit target row ranked)
      ∙ ap (rank_rows none target (filter (is_known_by limit) rows))
          (rank_row-same limit none target row ranked (rw t refl))
      ∙ rw t refl
  | inr t ↦
      rank_rows-filter limit target rows (rank_row limit target row ranked)
      ∙ ap (rank_rows none target (filter (is_known_by limit) rows))
          (rank_row-unknown limit target row ranked t)
      ∙ rw t refl
]

-- A universe with a limit on the knowledge time is the universe without one on the rows that were known
-- at the limit: rows that became known later have no say, whatever they hold.
pub universe-filter :
    (lookup : List ℕ → Date → Dict ℕ EntityRecord) (lifecycle : List LifecycleRecord)
    (target : Option Date) (limit : Option DateTime) (entity_type market : Option String)
    → universe lookup lifecycle target limit entity_type market
      ≡ universe lookup (filter (is_known_by limit) lifecycle) target none entity_type market
unfolding universe
universe-filter lookup lifecycle none limit entity_type market = refl
universe-filter lookup lifecycle (some target) limit entity_type market =
    ap
      (λ ranked.
        members (lookup (sorted leb (keys ranked)) target) entity_type market (sorted by_id ranked))
      (rank_rows-filter limit target lifecycle [])
