-- ===== src/Entities/Relations/Entered.antt =====
-- A relation that was added is found.
use fin_data_platform.Prelude.{
  ℕ, ◌≡◌, sym, ◌∙◌, String, true, Option, none, some, List, [], arith, Option-cases, inl, inr,
  nat_eq, string_eq, ◌==◌, filter, head?, any, elem, any-append, any_of_head,
}
use fin_data_platform.Dict.{get}
use fin_data_platform.Outcome.{ok, Outcome-cases}
use fin_data_platform.Runtime.Models.{DateTime, Date}
use fin_data_platform.Entities.Models.{covers, RelationRecord, RelationTypeRecord}
use fin_data_platform.Entities.Store.{EntityStore, relation_rows, append_relation}
use fin_data_platform.Entities.Rows.{current_row}
use fin_data_platform.Entities.Relations.{
  Vocabulary, vocabulary_errors, is_standing, enter_relation, add_relation, related_ids,
}
use fin_data_platform.Entities.Relations.Inverses.{says, elem-found, related_ids-inverse}

-- After it is entered, some open row says the relation.
any-enter_relation :
    (a b : ℕ) (word : String) (from : Option Date) (clock : DateTime) (s : EntityStore)
    → any (says a word b none) (enter_relation a b word from none clock s).1.relations ≡ true
unfolding enter_relation relation_rows append_relation covers
any-enter_relation a b word from clock s =
    elim (Option-cases (head? (filter (is_standing b word) (relation_rows a s)))) [
      | inr (row, h) ↦
          rw (h, enter_relation)
            (any_of_head (is_standing b word) (λ item. item.entity_id == a) (says a word b none)
              s.relations row h (λ y t u. is_standing-says y t u))
      | inl h ↦
          rw (h, enter_relation, any-append (says a word b none) s.relations)
            (ground (arith, nat_eq.beq_iff a a, nat_eq.beq_iff b b, string_eq.beq_iff word word))
    ]
  where
    is_standing-says :
        (y : RelationRecord)
        → is_standing b word y ≡ true
        → (y.entity_id == a) ≡ true
        → says a word b none y ≡ true
    is_standing-says y t u =
        ground (arith, nat_eq.beq_iff b y.related_id, nat_eq.beq_iff y.related_id b)

module _ (vocabulary : Vocabulary) where
  -- In a vocabulary without errors: after `add_relation` without an end returned, `related_ids` on no
  -- particular day finds the second entity from the first by the word, and the first from the second
  -- by its inverse.
  pub related_ids-add_relation :
      (a b : ℕ) (word : String) (entry : RelationTypeRecord) (from : Option Date) (clock : DateTime)
      (s : EntityStore) (row : RelationRecord)
      → vocabulary_errors vocabulary vocabulary ≡ []
      → get word vocabulary ≡ some entry
      → (add_relation vocabulary a b word from none clock s).0 ≡ ok row
      → (forth : List ℕ) × (back : List ℕ) × (related_ids vocabulary a word none
            (add_relation vocabulary a b word from none clock s).1
          ≡ ok forth)
        × (related_ids vocabulary b entry.inverse_relation none
              (add_relation vocabulary a b word from none clock s).1
            ≡ ok back)
        × (elem b forth ≡ true)
        × (elem a back ≡ true)
  unfolding add_relation
  related_ids-add_relation a b word entry from clock s row e h r =
      elim (Outcome-cases (current_row a s)) [
        | inr (x, k) ↦ cc (rw (h, k, add_relation) at r)
        | inl (x, k) ↦ elim (Outcome-cases (current_row b s)) [
          | inr (y, l) ↦ cc (rw (h, k, l, add_relation) at r)
          | inl (y, l) ↦
              let s' = (enter_relation a b word from none clock s).1 in
              let (forth, back, f, g, same) =
                related_ids-inverse vocabulary a b word entry none s' e h in
              let there : elem b forth ≡ true =
                elem-found vocabulary a b word entry none s' forth h f
                  (any-enter_relation a b word from clock s) in
              rw (h, k, l, add_relation) (forth, back, f, g, there, sym same ∙ there)
        ]
      ]
