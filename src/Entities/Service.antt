-- ===== src/Entities/Service.antt =====
-- src/fin_data_platform/registry/service.py, `EntityRegistry`: registration and refreshment. `now()` is the
-- argument `clock`.
pub mod Identity
use fin_data_platform.Prelude.{
  ℕ, ◌+◌, ◌-◌, String, Bool, true, false, not, ◌&&◌, ◌||◌, Option, none, some, List, [], ◌∷◌, ltb,
  ◌==◌, string_eq, option_eq, or_else, if◌then◌else◌,
}
use fin_data_platform.Dict.{Dict}
use fin_data_platform.Outcome.{Outcome, ok, raise, value_error, ◌>>=◌, ◌>>◌}
use fin_data_platform.Runtime.Models.{DateTime, Date}
use fin_data_platform.Entities.Models.{
  epoch, entity_types, entity_classes, markets, social_statuses, EntityRecord, CodeHistoryRecord,
  facet, required_facet,
}
use fin_data_platform.Entities.Store.{
  EntityStore, next_entity_id, append_entity, append_code, code_history,
}
use fin_data_platform.Entities.Rows.{current_row, covering_row, close_row, append_row}
use fin_data_platform.Entities.Codes.{resolve}

-- The keyword arguments of `register`
pub record Registration : Type 0 where
  pub code : String
  pub entity_type : String
  pub name : String
  pub entity_class : Option String
  pub market : Option String
  pub currency : Option String
  pub exchange : Option String
  pub frequency : Option String
  pub unit : Option String
  pub algorithm_id : Option String
  pub social_status : Option String
  pub valid_from : Option Date
  pub attrs : Option (Dict String String)

-- The classification that `_create` has checked
pub record Facets : Type 0 where
  pub entity_type : String
  pub entity_class : Option String
  pub market : Option String
  pub social_status : Option String

abbrev pub is_some {ℓ} : {A : Type ℓ} → Option A → Bool
is_some none = false
is_some (some a) = true

-- The status of a new entity: only an issuer has one, and it has one by default.
unfoldable pub status_of : String → Option String → Outcome (Option String)
status_of entity_type status =
    if is_some status && not (entity_type == "issuer")
    then raise value_error
    else ok (if entity_type == "issuer" then some (or_else status "operating") else status)

-- The checks at the head of `_create`
unfoldable pub facets_of : Registration → Outcome Facets
unfolding facet required_facet status_of
facets_of r = do
  entity_type ← required_facet entity_types r.entity_type
  entity_class ← facet entity_classes r.entity_class
  market ← facet markets r.market
  status ← facet social_statuses r.social_status
  social_status ← status_of entity_type status
  ok (record {
    entity_type = entity_type;
    entity_class = entity_class;
    market = market;
    social_status = social_status;
  })

abbrev pub new_entity : ℕ → Facets → Registration → DateTime → EntityRecord
new_entity entity_id f r clock = record {
  entity_id = entity_id;
  entity_type = f.entity_type;
  code = r.code;
  name = r.name;
  entity_class = f.entity_class;
  market = f.market;
  currency = r.currency;
  exchange = r.exchange;
  frequency = r.frequency;
  unit = r.unit;
  algorithm_id = r.algorithm_id;
  social_status = f.social_status;
  valid_from = some (or_else r.valid_from epoch);
  valid_to = none;
  knowledge_time = some clock;
  version = 1;
  attrs = r.attrs;
}

abbrev pub new_code : EntityRecord → CodeHistoryRecord
new_code base = record {
  entity_id = base.entity_id;
  code = base.code;
  valid_from = base.valid_from;
  valid_to = none;
  knowledge_time = base.knowledge_time;
  version = 1;
}

-- `_create`
unfoldable pub create : Registration → DateTime → EntityStore → Outcome EntityRecord × EntityStore
unfolding append_entity append_code
create r clock s = elim (facets_of r) [
  | raise e ↦ (raise e, s)
  | ok f ↦
      let (entity_id, s') = next_entity_id s in
      let base = new_entity entity_id f r clock in
      (ok base, append_entity base (append_code (new_code base) s'))
]

-- The check of one facet in `_refresh`
unfoldable pub refreshed_status : Option String → EntityRecord → Outcome (Option String)
unfolding facet
refreshed_status none current = ok current.social_status
refreshed_status (some status) current = do
  value ← facet social_statuses (some status)
  if current.entity_type == "issuer" then ok value else raise value_error

abbrev pub refreshed_facet : List String → Option String → Option String → Outcome (Option String)
refreshed_facet allowed none old = ok old
refreshed_facet allowed (some value) old = facet allowed (some value)

abbrev pub refreshed_text : Option String → Option String → Option String
refreshed_text none old = old
refreshed_text (some value) old = some value

-- `replace(current, **updates)`
unfoldable pub refreshed : Registration → EntityRecord → Outcome EntityRecord
unfolding facet refreshed_status
refreshed r current = do
  entity_class ← refreshed_facet entity_classes r.entity_class current.entity_class
  market ← refreshed_facet markets r.market current.market
  social_status ← refreshed_status r.social_status current
  ok (record current {
    name = if r.name == "" then current.name else r.name;
    entity_class = entity_class;
    market = market;
    social_status = social_status;
    currency = refreshed_text r.currency current.currency;
    exchange = refreshed_text r.exchange current.exchange;
    frequency = refreshed_text r.frequency current.frequency;
    unit = refreshed_text r.unit current.unit;
    algorithm_id = refreshed_text r.algorithm_id current.algorithm_id;
  })

-- Whether `updates` is empty
abbrev pub is_same : EntityRecord → EntityRecord → Bool
is_same a b =
    a.name == b.name
    && a.entity_class == b.entity_class
    && a.market == b.market
    && a.social_status == b.social_status
    && a.currency == b.currency
    && a.exchange == b.exchange
    && a.frequency == b.frequency
    && a.unit == b.unit
    && a.algorithm_id == b.algorithm_id

-- `_refresh`
unfoldable pub refresh : ℕ → Registration → DateTime → EntityStore → Outcome Bool × EntityStore
unfolding append_row
refresh entity_id r clock s = elim (current_row entity_id s) [
  | raise e ↦ (raise e, s)
  | ok current ↦ elim (refreshed r current) [
    | raise e ↦ (raise e, s)
    | ok row ↦
        if is_same row current
        then (ok false, s)
        else (ok true, append_row row none none current.valid_from none none clock s)
  ]
]

-- `_register_or_refresh`: the record, whether it was created, and whether it was updated
unfoldable pub register_or_refresh :
    Registration → DateTime → EntityStore → Outcome (EntityRecord × Bool × Bool) × EntityStore
register_or_refresh r clock s = elim (resolve r.code none s) [
  | none ↦ let (result, s') = create r clock s in (result >>= (λ row. ok (row, true, false)), s')
  | some entity_id ↦
      let (result, s') = refresh entity_id r clock s in
      (result >>= (λ updated. current_row entity_id s' >>= (λ row. ok (row, false, updated))), s')
]

unfoldable pub register : Registration → DateTime → EntityStore → Outcome EntityRecord × EntityStore
unfolding register_or_refresh
register r clock s =
    let (result, s') = register_or_refresh r clock s in (result >>= (λ answer. ok answer.0), s')

unfoldable pub register_issuer :
    String
    → String
    → String
    → Option String
    → Option (Dict String String)
    → DateTime
    → EntityStore
    → Outcome EntityRecord × EntityStore
unfolding register
register_issuer code name social_status currency attrs = register (record {
  code = code;
  entity_type = "issuer";
  name = name;
  entity_class = none;
  market = none;
  currency = currency;
  exchange = none;
  frequency = none;
  unit = none;
  algorithm_id = none;
  social_status = some social_status;
  valid_from = none;
  attrs = attrs;
})
