-- ===== src/Entities/Batch.antt =====
-- src/fin_data_platform/registry/service.py, `EntityRegistry`: the reads of many entities.
pub mod Lookup
use fin_data_platform.Prelude.{ℕ, Option, none, some, List, [], ◌∷◌, map, sorted, leb, nat_eq}
use fin_data_platform.Dict.{Dict, put, keys}
use fin_data_platform.Runtime.Models.{Date}
use fin_data_platform.Entities.Models.{EntityRecord}
use fin_data_platform.Entities.Store.{EntityStore, all_rows}
use fin_data_platform.Entities.Rows.{entity}
use fin_data_platform.Entities.Relations.{distinct_ids}

unfoldable pub entity_ids : EntityStore → List ℕ
unfolding all_rows distinct_ids
entity_ids s = sorted leb (distinct_ids (map (λ row. row.entity_id) (all_rows s)))

-- `dict.fromkeys`
unfoldable pub from_keys : List ℕ → Dict ℕ (Unit {0}) → Dict ℕ (Unit {0})
from_keys [] m = m
from_keys (i ∷ ids) m = from_keys ids (put i tt m)

-- The loop of `entity_many`
unfoldable pub collect_entities :
    List ℕ → Option Date → EntityStore → Dict ℕ EntityRecord → Dict ℕ EntityRecord
unfolding entity
collect_entities [] day s found = found
collect_entities (i ∷ ids) day s found =
    collect_entities ids day s
      (elim (entity i day s) [ none ↦ found | some item ↦ put i item found ])

unfoldable pub entity_many : List ℕ → Option Date → EntityStore → Dict ℕ EntityRecord
unfolding from_keys collect_entities
entity_many ids day s = collect_entities (keys (from_keys ids [])) day s []
