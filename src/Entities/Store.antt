-- ===== src/Entities/Store.antt =====
-- src/fin_data_platform/registry/repository.py, `InMemoryEntityRegistryRepository`.
use fin_data_platform.Prelude.{
  ℕ, ◌+◌, String, ◌&&◌, List, [], ◌∷◌, ◌++◌, filter, ◌==◌, nat_eq, string_eq, or_else,
}
use fin_data_platform.Dict.{Dict, get, put, values}
use fin_data_platform.Entities.Models.{
  EntityRecord, CodeHistoryRecord, RelationRecord, RelationTypeRecord, ExternalIdRecord,
}

pub record EntityStore : Type 0 where
  pub next_id : ℕ
  pub rows : Dict ℕ (List EntityRecord)
  pub codes : List CodeHistoryRecord
  pub relations : List RelationRecord
  pub relation_types : Dict String RelationTypeRecord
  pub external_ids : List ExternalIdRecord

abbrev pub empty : ℕ → EntityStore
empty id_start = record {
  next_id = id_start;
  rows = [];
  codes = [];
  relations = [];
  relation_types = [];
  external_ids = [];
}

abbrev pub next_entity_id : EntityStore → ℕ × EntityStore
next_entity_id s = (s.next_id, record s { next_id = s.next_id + 1 })

-- `list(self._rows.get(entity_id, []))`
unfoldable pub entity_rows : ℕ → EntityStore → List EntityRecord
entity_rows entity_id s = or_else (get entity_id s.rows) []

unfoldable pub append_entity : EntityRecord → EntityStore → EntityStore
unfolding entity_rows
append_entity row s = record s {
  rows = put row.entity_id (entity_rows row.entity_id s ++ row ∷ []) s.rows;
}

abbrev concat {ℓ} : {A : Type ℓ} → List (List A) → List A
concat [] = []
concat (xs ∷ rest) = xs ++ concat rest

unfoldable pub all_rows : EntityStore → List EntityRecord
all_rows s = concat (values s.rows)

unfoldable pub append_code : CodeHistoryRecord → EntityStore → EntityStore
append_code entry s = record s { codes = s.codes ++ entry ∷ [] }

unfoldable pub code_history : ℕ → EntityStore → List CodeHistoryRecord
code_history entity_id s = filter (λ item. item.entity_id == entity_id) s.codes

unfoldable pub find_by_code : String → EntityStore → List CodeHistoryRecord
find_by_code code s = filter (λ item. item.code == code) s.codes

unfoldable pub append_relation : RelationRecord → EntityStore → EntityStore
append_relation row s = record s { relations = s.relations ++ row ∷ [] }

unfoldable pub relation_rows : ℕ → EntityStore → List RelationRecord
relation_rows entity_id s = filter (λ item. item.entity_id == entity_id) s.relations

unfoldable pub find_relations_by_related : ℕ → EntityStore → List RelationRecord
find_relations_by_related entity_id s = filter (λ item. item.related_id == entity_id) s.relations

unfoldable pub append_relation_type : RelationTypeRecord → EntityStore → EntityStore
append_relation_type row s = record s {
  relation_types = put row.relation_type row s.relation_types;
}

unfoldable pub append_external_id : ExternalIdRecord → EntityStore → EntityStore
append_external_id row s = record s { external_ids = s.external_ids ++ row ∷ [] }

unfoldable pub external_id_rows : ℕ → EntityStore → List ExternalIdRecord
external_id_rows entity_id s = filter (λ item. item.entity_id == entity_id) s.external_ids

unfoldable pub find_external_ids : String → String → EntityStore → List ExternalIdRecord
find_external_ids id_type id_value s =
    filter (λ item. item.id_type == id_type && item.id_value == id_value) s.external_ids
