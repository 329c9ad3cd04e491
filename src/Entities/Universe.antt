-- ===== src/Entities/Universe.antt =====
-- src/fin_data_platform/registry/universe.py: the entities that are traded on a day, by the rows of the
-- dataset of listings that are known at a time. The argument `lookup` is `entity_many` of the registry on
-- the day. Rows come with their days and times read. Times are counted from `datetime.min`.
pub mod Ranking
pub mod Best
pub mod Rules
pub mod Deciding
pub mod Members
pub mod Known
use fin_data_platform.Prelude.{
  ℕ, String, Bool, true, false, ◌&&◌, ◌||◌, Option, none, some, List, [], ◌∷◌, ltb, leb, nat_beq,
  ◌==◌, elem, sorted, nat_eq, string_eq, or_else, if◌then◌else◌, option_eq,
}
use fin_data_platform.Dict.{Dict, get, put, keys}
use fin_data_platform.Outcome.{Outcome, ok, raise, value_error, ◌>>=◌}
use fin_data_platform.Runtime.Models.{DateTime, Date}
use fin_data_platform.Entities.Models.{epoch, EntityRecord}

pub record LifecycleRecord : Type 0 where
  pub entity_id : ℕ
  pub status : String
  pub start_date : Option Date
  pub end_date : Option Date
  pub knowledge_time : Option DateTime
  pub version : ℕ

pub data LifecycleStatus : Type 0 where
  listed suspended delisted : LifecycleStatus

-- `_status`
unfoldable pub status_of : LifecycleRecord → Outcome LifecycleStatus
status_of row =
    if row.status == "listed"
    then ok listed
    else if row.status == "suspended"
    then ok suspended
    else if row.status == "delisted"
    then ok delisted
    else raise value_error

-- `status in _IN_UNIVERSE`
abbrev pub is_traded : LifecycleStatus → Bool
is_traded listed = true
is_traded suspended = true
is_traded delisted = false

-- Whether the row was known at the limit, if there is one
abbrev pub is_known_by : Option DateTime → LifecycleRecord → Bool
is_known_by none row = true
is_known_by (some limit) row = elim row.knowledge_time [
  | none ↦ true
  | some known ↦ leb known limit
]

abbrev pub starts : LifecycleRecord → Date
starts row = or_else row.start_date epoch

-- Whether the row covers the day
abbrev pub is_on : Date → LifecycleRecord → Bool
is_on target row =
    leb (starts row) target && (elim row.end_date [ none ↦ true | some end ↦ leb target end ])

abbrev pub is_counted : Option DateTime → Date → LifecycleRecord → Bool
is_counted limit target row = is_known_by limit row && is_on target row

-- Whether the rank of the second row is above that of the first.
abbrev pub is_outranked : LifecycleRecord → LifecycleRecord → Bool
is_outranked a b =
    ltb (starts a) (starts b)
    || (nat_beq (starts a) (starts b)
        && (ltb a.version b.version
            || (nat_beq a.version b.version
                && ltb (or_else a.knowledge_time 0) (or_else b.knowledge_time 0))))

abbrev pub Ranked : Type 0
Ranked = Dict ℕ LifecycleRecord

-- One round of the first loop of `universe`
unfoldable pub rank_row : Option DateTime → Date → LifecycleRecord → Ranked → Ranked
rank_row limit target row ranked =
    if is_counted limit target row
    then (elim (get row.entity_id ranked) [
      | none ↦ put row.entity_id row ranked
      | some current ↦ if is_outranked current row then put row.entity_id row ranked else ranked
    ])
    else ranked

unfoldable pub rank_rows : Option DateTime → Date → List LifecycleRecord → Ranked → Ranked
unfolding rank_row
rank_rows limit target [] ranked = ranked
rank_rows limit target (row ∷ rows) ranked =
    rank_rows limit target rows (rank_row limit target row ranked)

-- A filter that is missing or empty admits everything.
abbrev pub is_wanted : Option String → Option String → Bool
is_wanted none value = true
is_wanted (some wanted) value = wanted == "" || value == some wanted

-- The second loop of `universe`
unfoldable pub members :
    Dict ℕ EntityRecord → Option String → Option String → Ranked → Outcome (List EntityRecord)
unfolding status_of
members records entity_type market [] = ok []
members records entity_type market ((entity_id, row) ∷ rest) =
    let later = members records entity_type market rest in
    status_of row >>= (λ status. later >>= (λ others. ok (
      if is_traded status
      then (elim (get entity_id records) [
        | none ↦ others
        | some item ↦
            if is_wanted entity_type (some item.entity_type) && is_wanted market item.market
            then item ∷ others
            else others
      ])
      else others)))

abbrev pub by_id : ℕ × LifecycleRecord → ℕ × LifecycleRecord → Bool
by_id a b = leb a.0 b.0

unfoldable pub universe :
    (List ℕ → Date → Dict ℕ EntityRecord)
    → List LifecycleRecord
    → Option Date
    → Option DateTime
    → Option String
    → Option String
    → Outcome (List EntityRecord)
unfolding rank_rows members
universe lookup lifecycle none knowledge_as_of entity_type market = raise value_error
universe lookup lifecycle (some target) knowledge_as_of entity_type market =
    let ranked = rank_rows knowledge_as_of target lifecycle [] in
    members (lookup (sorted leb (keys ranked)) target) entity_type market (sorted by_id ranked)
