-- ===== src/Entities/ExternalIds.antt =====
-- src/fin_data_platform/registry/service.py: external identifiers of entities. Python's `str.strip` is
-- the argument `strip`.
pub mod Lookup
use fin_data_platform.Prelude.{
  ℕ, String, Bool, true, false, ◌&&◌, ◌||◌, Option, none, some, List, [], ◌∷◌, filter, head?,
  greatest, ltb, nat_beq, ◌==◌, nat_eq, string_eq, or_else, if◌then◌else◌,
}
use fin_data_platform.Outcome.{Outcome, ok, raise, value_error, ◌>>=◌}
use fin_data_platform.Runtime.Models.{DateTime, Date}
use fin_data_platform.Entities.Models.{
  epoch, id_types, EntityRecord, ExternalIdRecord, covers, required_facet,
}
use fin_data_platform.Entities.Store.{
  EntityStore, append_external_id, external_id_rows, find_external_ids,
}
use fin_data_platform.Entities.Rows.{current_row}

abbrev pub is_newer_id : ExternalIdRecord → ExternalIdRecord → Bool
is_newer_id a b =
    ltb (or_else a.valid_from epoch) (or_else b.valid_from epoch)
    || (nat_beq (or_else a.valid_from epoch) (or_else b.valid_from epoch)
        && ltb a.version b.version)

abbrev pub covers_id : Option Date → ExternalIdRecord → Bool
covers_id target row = covers row.valid_from row.valid_to target

-- The row that stands in the way of `add_external_id`
abbrev pub is_known : String → String → ExternalIdRecord → Bool
is_known id_type id_value row =
    row.id_type == id_type
    && row.id_value == id_value
    && (elim row.valid_to [ none ↦ true | some _ ↦ false ])

abbrev pub new_external_id :
    ℕ → String → String → Option Date → Option Date → DateTime → ExternalIdRecord
new_external_id entity_id id_type id_value valid_from valid_to clock = record {
  entity_id = entity_id;
  id_type = id_type;
  id_value = id_value;
  valid_from = some (or_else valid_from epoch);
  valid_to = valid_to;
  knowledge_time = some clock;
  version = 1;
}

-- The end of `add_external_id`, once its arguments are checked
unfoldable pub enter_external_id :
    ℕ
    → String
    → String
    → Option Date
    → Option Date
    → DateTime
    → EntityStore
    → ExternalIdRecord × EntityStore
unfolding external_id_rows append_external_id
enter_external_id entity_id id_type id_value valid_from valid_to clock s =
    elim (head? (filter (is_known id_type id_value) (external_id_rows entity_id s))) [
      | some row ↦ (row, s)
      | none ↦
          let row = new_external_id entity_id id_type id_value valid_from valid_to clock in
          (row, append_external_id row s)
    ]

module _ (strip : String → String) where
  unfoldable pub add_external_id :
      ℕ
      → String
      → String
      → Option Date
      → Option Date
      → DateTime
      → EntityStore
      → Outcome ExternalIdRecord × EntityStore
  unfolding enter_external_id required_facet
  add_external_id entity_id id_type id_value valid_from valid_to clock s =
      elim (current_row entity_id s) [
        | raise e ↦ (raise e, s)
        | ok _ ↦ elim (required_facet id_types id_type) [
          | raise e ↦ (raise e, s)
          | ok checked ↦
              if strip id_value == ""
              then (raise value_error, s)
              else let (row, s') =
                  enter_external_id entity_id checked (strip id_value) valid_from valid_to clock
                    s in
                (ok row, s')
        ]
      ]

  unfoldable pub find_by_external_id :
      String → String → Option Date → EntityStore → Outcome (Option ℕ)
  unfolding required_facet find_external_ids
  find_by_external_id id_type id_value target s = elim (required_facet id_types id_type) [
    | raise e ↦ raise e
    | ok checked ↦
        ok
          (elim (greatest is_newer_id
            (filter (covers_id target) (find_external_ids checked (strip id_value) s))) [
              | none ↦ none
              | some row ↦ some row.entity_id
            ])
  ]

unfoldable pub external_ids : ℕ → Option Date → EntityStore → List ExternalIdRecord
unfolding external_id_rows
external_ids entity_id target s = filter (covers_id target) (external_id_rows entity_id s)
