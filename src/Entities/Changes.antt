-- ===== src/Entities/Changes.antt =====
-- src/fin_data_platform/registry/service.py, `EntityRegistry`: changes of names and codes. `now()` is the
-- argument `clock`, read once per change.
pub mod Covering
pub mod Names
use fin_data_platform.Prelude.{
  ℕ, ◌+◌, ◌-◌, String, Bool, true, false, not, ◌&&◌, ◌||◌, Option, none, some, List, [], ◌∷◌, ltb,
  ◌==◌, string_eq, option_eq, or_else, if◌then◌else◌,
}
use fin_data_platform.Dict.{Dict}
use fin_data_platform.Outcome.{Outcome, ok, raise, value_error, ◌>>=◌, ◌>>◌}
use fin_data_platform.Runtime.Models.{DateTime, Date}
use fin_data_platform.Entities.Models.{
  epoch, entity_types, entity_classes, markets, social_statuses, EntityRecord, CodeHistoryRecord,
  facet, required_facet,
}
use fin_data_platform.Entities.Store.{
  EntityStore, next_entity_id, append_entity, append_code, code_history,
}
use fin_data_platform.Entities.Rows.{current_row, covering_row, close_row, append_row}
use fin_data_platform.Entities.Codes.{resolve}

-- The attributes of a name change; an empty `ann_date` is a missing one.
abbrev pub announced : Option String → Option (String × String)
announced none = none
announced (some ann_date) = some ("ann_date", ann_date)

-- Whether a row goes on past a day
abbrev pub goes_past : Date → EntityRecord → Bool
goes_past day row = elim row.valid_to [ none ↦ true | some to ↦ ltb day to ]

-- The first write of `add_name_change`: the covering row is closed.
abbrev pub close_covering : Option EntityRecord → Date → DateTime → EntityStore → EntityStore
close_covering none before clock s = s
close_covering (some row) before clock s =
    if goes_past before row then close_row row before clock s else s

-- The rest of `add_name_change`, on the current row after the first write.
abbrev pub rename :
    EntityRecord
    → String
    → String
    → Date
    → Option Date
    → Option String
    → DateTime
    → EntityStore
    → EntityStore
rename current name resume_name start end ann_date clock s =
    let s' = append_row current none (some name) (some start) end (announced ann_date) clock s in
    elim end [
      | none ↦ s'
      | some day ↦ append_row current none (some resume_name) (some (day + 1)) none none clock s'
    ]

-- `previous.name if previous is not None else self._current_row(entity_id).name`
unfoldable pub resume_name_of : Option EntityRecord → ℕ → EntityStore → Outcome String
resume_name_of (some row) entity_id s = ok row.name
resume_name_of none entity_id s = current_row entity_id s >>= (λ row. ok row.name)

unfoldable pub add_name_change :
    ℕ
    → String
    → Option Date
    → Option Date
    → Option String
    → DateTime
    → EntityStore
    → Outcome (Unit {0}) × EntityStore
unfolding resume_name_of
add_name_change entity_id name none end ann_date clock s = (raise value_error, s)
add_name_change entity_id name (some start) end ann_date clock s =
    let previous = covering_row entity_id (start - 1) s in
    elim (resume_name_of previous entity_id s) [
      | raise e ↦ (raise e, s)
      | ok resume_name ↦
          let s' = close_covering previous (start - 1) clock s in
          elim (current_row entity_id s') [
            | raise e ↦ (raise e, s')
            | ok current ↦ (ok tt, rename current name resume_name start end ann_date clock s')
          ]
    ]

-- The loop of `add_code_change` over the entity's history
unfoldable pub close_codes : List CodeHistoryRecord → Date → DateTime → EntityStore → EntityStore
unfolding append_code
close_codes [] before clock s = s
close_codes (entry ∷ entries) before clock s =
    close_codes entries before clock (elim entry.valid_to [
      | some _ ↦ s
      | none ↦
          append_code
            (record entry {
              valid_to = some before;
              knowledge_time = some clock;
              version = entry.version + 1;
            })
            s
    ])

unfoldable pub add_code_change :
    ℕ → String → Option Date → DateTime → EntityStore → Outcome (Unit {0}) × EntityStore
unfolding close_codes append_code close_row append_row
add_code_change entity_id code none clock s = (raise value_error, s)
add_code_change entity_id code (some start) clock s =
    let s' = close_codes (code_history entity_id s) (start - 1) clock s in
    elim (current_row entity_id s') [
      | raise e ↦ (raise e, s')
      | ok current ↦
          let closed = close_row current (start - 1) clock s' in
          let entered =
            append_code
              (record {
                entity_id = entity_id;
                code = code;
                valid_from = some start;
                valid_to = none;
                knowledge_time = some clock;
                version = 1;
              })
              closed in
          (ok tt, append_row current (some code) none (some start) none none clock entered)
    ]
