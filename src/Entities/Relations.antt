-- ===== src/Entities/Relations.antt =====
-- src/fin_data_platform/registry/service.py and relation_types.py: relations between entities. A relation
-- is stored in one direction, and the vocabulary names the inverse of each word.
pub mod Inverses
pub mod Entered
use fin_data_platform.Prelude.{
  ℕ, ◌+◌, String, Bool, true, false, ◌&&◌, Option, none, some, List, [], ◌∷◌, ◌++◌, map, filter,
  head?, sorted, elem, leb, ◌==◌, nat_eq, string_eq, or_else, if◌then◌else◌,
}
use fin_data_platform.Dict.{Dict, get, has}
use fin_data_platform.Outcome.{Outcome, ok, raise, value_error, ◌>>=◌}
use fin_data_platform.Runtime.Models.{DateTime, Date}
use fin_data_platform.Entities.Models.{
  epoch, EntityRecord, RelationRecord, RelationTypeRecord, covers,
}
use fin_data_platform.Entities.Store.{
  EntityStore, append_relation, relation_rows, find_relations_by_related,
}
use fin_data_platform.Entities.Rows.{current_row}

abbrev pub Vocabulary : Type 0
Vocabulary = Dict String RelationTypeRecord

-- The errors of `validate_relation_types`
pub data VocabularyError : Type 0 where
  inverse_missing : String → VocabularyError
  inverse_not_symmetric : String → VocabularyError

-- `validate_relation_types`, over the entries of the vocabulary
unfoldable pub vocabulary_errors :
    Vocabulary → Dict String RelationTypeRecord → List VocabularyError
vocabulary_errors vocabulary [] = []
vocabulary_errors vocabulary ((name, word) ∷ rest) =
    let later = vocabulary_errors vocabulary rest in
    elim (get word.inverse_relation vocabulary) [
      | none ↦ inverse_missing name ∷ later
      | some inverse ↦
          if inverse.inverse_relation == name then later else inverse_not_symmetric name ∷ later
    ]

-- Each entity once, in order: `sorted(set(...))`
unfoldable pub distinct_ids : List ℕ → List ℕ
distinct_ids [] = []
distinct_ids (x ∷ xs) = let rest = distinct_ids xs in if elem x rest then rest else x ∷ rest

abbrev pub covers_relation : Option Date → RelationRecord → Bool
covers_relation target row = covers row.valid_from row.valid_to target

-- The row that stands in the way of `add_relation`
abbrev pub is_standing : ℕ → String → RelationRecord → Bool
is_standing related_id relation_type row =
    row.related_id == related_id
    && row.relation_type == relation_type
    && (elim row.valid_to [ none ↦ true | some _ ↦ false ])

abbrev pub new_relation : ℕ → ℕ → String → Option Date → Option Date → DateTime → RelationRecord
new_relation entity_id related_id relation_type valid_from valid_to clock = record {
  entity_id = entity_id;
  related_id = related_id;
  relation_type = relation_type;
  valid_from = some (or_else valid_from epoch);
  valid_to = valid_to;
  knowledge_time = some clock;
  version = 1;
}

-- The end of `add_relation`, once its arguments are checked
unfoldable pub enter_relation :
    ℕ
    → ℕ
    → String
    → Option Date
    → Option Date
    → DateTime
    → EntityStore
    → RelationRecord × EntityStore
unfolding relation_rows append_relation
enter_relation entity_id related_id relation_type valid_from valid_to clock s =
    elim (head? (filter (is_standing related_id relation_type) (relation_rows entity_id s))) [
      | some row ↦ (row, s)
      | none ↦
          let row = new_relation entity_id related_id relation_type valid_from valid_to clock in
          (row, append_relation row s)
    ]

-- The entities that `related_ids` collects, for a word and its inverse
unfoldable pub collected : ℕ → String → String → Option Date → EntityStore → List ℕ
unfolding relation_rows find_relations_by_related
collected entity_id relation_type inverse target s =
    map (λ row. row.related_id)
      (filter (λ row. row.relation_type == relation_type && covers_relation target row)
        (relation_rows entity_id s))
    ++ map (λ row. row.entity_id)
        (filter (λ row. row.relation_type == inverse && covers_relation target row)
          (find_relations_by_related entity_id s))

module _ (vocabulary : Vocabulary) where
  unfoldable pub add_relation :
      ℕ
      → ℕ
      → String
      → Option Date
      → Option Date
      → DateTime
      → EntityStore
      → Outcome RelationRecord × EntityStore
  unfolding enter_relation
  add_relation entity_id related_id relation_type valid_from valid_to clock s =
      elim (get relation_type vocabulary) [
        | none ↦ (raise value_error, s)
        | some _ ↦ elim (current_row entity_id s) [
          | raise e ↦ (raise e, s)
          | ok _ ↦ elim (current_row related_id s) [
            | raise e ↦ (raise e, s)
            | ok _ ↦
                let (row, s') =
                  enter_relation entity_id related_id relation_type valid_from valid_to clock s in
                (ok row, s')
          ]
        ]
      ]

  unfoldable pub related_ids : ℕ → String → Option Date → EntityStore → Outcome (List ℕ)
  unfolding collected distinct_ids
  related_ids entity_id relation_type target s = elim (get relation_type vocabulary) [
    | none ↦ raise value_error
    | some word ↦ ok (
        sorted leb
          (distinct_ids (collected entity_id relation_type word.inverse_relation target s)))
  ]

  unfoldable pub link_issuer : ℕ → ℕ → DateTime → EntityStore → Outcome RelationRecord × EntityStore
  unfolding add_relation
  link_issuer listing_id issuer_id clock s = elim (current_row issuer_id s) [
    | raise e ↦ (raise e, s)
    | ok issuer ↦
        if issuer.entity_type == "issuer"
        then add_relation listing_id issuer_id "issued_by" none none clock s
        else (raise value_error, s)
  ]

  unfoldable pub issuer_of : ℕ → EntityStore → Outcome (Option ℕ)
  unfolding related_ids
  issuer_of listing_id s = related_ids listing_id "issued_by" none s >>= (λ ids. ok (head? ids))

  unfoldable pub listings_of : ℕ → EntityStore → Outcome (List ℕ)
  unfolding related_ids
  listings_of issuer_id s = related_ids issuer_id "issues" none s

unfoldable pub relations_of : ℕ → Option Date → EntityStore → List RelationRecord
unfolding relation_rows find_relations_by_related
relations_of entity_id target s =
    filter (covers_relation target)
      (relation_rows entity_id s ++ find_relations_by_related entity_id s)
