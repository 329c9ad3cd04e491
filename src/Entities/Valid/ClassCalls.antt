-- ===== src/Entities/Valid/ClassCalls.antt =====
-- Changes of names and codes, relations and external identifiers keep the stored rows classified.
use fin_data_platform.Prelude.{
  ℕ, ◌+◌, ◌-◌, ◌≡◌, refl, sym, ◌∙◌, ap, String, Option, none, some, List, [], ◌∷◌, Bool-cases,
  Option-cases, inl, inr, nat_eq, string_eq, ◌==◌, head?, filter,
}
use fin_data_platform.Dict.{get}
use fin_data_platform.Outcome.{Outcome-cases}
use fin_data_platform.Runtime.Models.{DateTime, Date}
use fin_data_platform.Entities.Models.{EntityRecord, CodeHistoryRecord, id_types, required_facet}
use fin_data_platform.Entities.Store.{
  EntityStore, append_code, code_history, append_relation, append_external_id, relation_rows,
  external_id_rows,
}
use fin_data_platform.Entities.Rows.{current_row, covering_row, close_row}
use fin_data_platform.Entities.Changes.{
  resume_name_of, close_covering, goes_past, rename, announced, add_name_change, close_codes,
  add_code_change,
}
use fin_data_platform.Entities.Relations.{
  Vocabulary, is_standing, enter_relation, add_relation, link_issuer,
}
use fin_data_platform.Entities.ExternalIds.{is_known, enter_external_id, add_external_id}
use fin_data_platform.Entities.Valid.Classified.{
  IsClassified, AreClassified, current_row-IsClassified, covering_row-IsClassified,
  close_row-AreClassified, append_row-AreClassified,
}

close_covering-AreClassified :
    (i : ℕ) (previous : Option EntityRecord) (before : Date) (clock : DateTime) (s : EntityStore)
    → AreClassified s
    → covering_row i before s ≡ previous
    → AreClassified (close_covering previous before clock s)
close_covering-AreClassified i none before clock s c h = c
close_covering-AreClassified i (some row) before clock s c h =
    elim (Bool-cases (goes_past before row)) [
      | inl t ↦ rw t (
          close_row-AreClassified row before clock s c
            (covering_row-IsClassified s i before row c h))
      | inr t ↦ rw t c
    ]

rename-AreClassified :
    (current : EntityRecord) (name resume_name : String) (start : Date) (end : Option Date)
    (ann_date : Option String) (clock : DateTime) (s : EntityStore)
    → AreClassified s
    → IsClassified current
    → AreClassified (rename current name resume_name start end ann_date clock s)
rename-AreClassified current name resume_name start none ann_date clock s c k =
    append_row-AreClassified current none (some name) (some start) none (announced ann_date) clock s
      c k
rename-AreClassified current name resume_name start (some day) ann_date clock s c k =
    append_row-AreClassified current none (some resume_name) (some (day + 1)) none none clock _
      (append_row-AreClassified current none (some name) (some start) (some day)
        (announced ann_date) clock s c k)
      k

pub add_name_change-AreClassified :
    (i : ℕ) (name : String) (start end : Option Date) (ann_date : Option String) (clock : DateTime)
    (s : EntityStore)
    → AreClassified s
    → AreClassified (add_name_change i name start end ann_date clock s).1
unfolding add_name_change
add_name_change-AreClassified i name none end ann_date clock s c = c
add_name_change-AreClassified i name (some start) end ann_date clock s c =
    elim (Outcome-cases (resume_name_of (covering_row i (start - 1) s) i s)) [
      | inr (e, h) ↦ rw (h, add_name_change) c
      | inl (resume, h) ↦
          let first =
            close_covering-AreClassified i (covering_row i (start - 1) s) (start - 1) clock s c
              refl in
          elim (Outcome-cases
            (current_row i (close_covering (covering_row i (start - 1) s) (start - 1) clock s))) [
              | inr (e, k) ↦ rw (h, k, add_name_change) first
              | inl (current, k) ↦
                  rw (h, k, add_name_change)
                    (rename-AreClassified current name resume start end ann_date clock _ first
                      (current_row-IsClassified _ i current first k))
            ]
    ]

close_codes-rows :
    (entries : List CodeHistoryRecord) (before : Date) (clock : DateTime) (s : EntityStore)
    → (close_codes entries before clock s).rows ≡ s.rows
unfolding close_codes append_code
close_codes-rows [] before clock s = refl
close_codes-rows (entry ∷ entries) before clock s = elim (Option-cases entry.valid_to) [
  | inr (day, e) ↦ rw (e, close_codes) (close_codes-rows entries before clock s)
  | inl e ↦ rw (e, close_codes) (close_codes-rows entries before clock _)
]

rows-AreClassified : (s s' : EntityStore) → s'.rows ≡ s.rows → AreClassified s → AreClassified s'
rows-AreClassified s s' e c i rows h = c i rows (ap (get i) (sym e) ∙ h)

pub add_code_change-AreClassified :
    (i : ℕ) (code : String) (start : Option Date) (clock : DateTime) (s : EntityStore)
    → AreClassified s
    → AreClassified (add_code_change i code start clock s).1
unfolding add_code_change append_code
add_code_change-AreClassified i code none clock s c = c
add_code_change-AreClassified i code (some start) clock s c =
    let s1 = close_codes (code_history i s) (start - 1) clock s in
    let first =
      rows-AreClassified s s1 (close_codes-rows (code_history i s) (start - 1) clock s) c in
    elim (Outcome-cases (current_row i (close_codes (code_history i s) (start - 1) clock s))) [
      | inr (e, k) ↦ rw (k, add_code_change) first
      | inl (current, k) ↦
          let kept = current_row-IsClassified s1 i current first k in
          let s2 = close_row current (start - 1) clock s1 in
          let s3 =
            append_code
              (record {
                entity_id = i;
                code = code;
                valid_from = some start;
                valid_to = none;
                knowledge_time = some clock;
                version = 1;
              })
              s2 in
          rw (k, add_code_change)
            (append_row-AreClassified current (some code) none (some start) none none clock s3
              (rows-AreClassified s2 s3 refl
                (close_row-AreClassified current (start - 1) clock s1 first kept))
              kept)
    ]

module _ (vocabulary : Vocabulary) where
  add_relation-rows :
      (i j : ℕ) (word : String) (valid_from valid_to : Option Date) (clock : DateTime)
      (s : EntityStore)
      → (add_relation vocabulary i j word valid_from valid_to clock s).1.rows ≡ s.rows
  unfolding add_relation enter_relation append_relation
  add_relation-rows i j word valid_from valid_to clock s =
      elim (Option-cases (get word vocabulary)) [
        | inl h ↦ rw (h, add_relation) refl
        | inr (entry, h) ↦ elim (Outcome-cases (current_row i s)) [
          | inr (e, k) ↦ rw (h, k, add_relation) refl
          | inl (a, k) ↦ elim (Outcome-cases (current_row j s)) [
            | inr (e, l) ↦ rw (h, k, l, add_relation) refl
            | inl (b, l) ↦
                elim (Option-cases (head? (filter (is_standing j word) (relation_rows i s)))) [
                  | inl m ↦ rw (h, k, l, add_relation) (rw (m, enter_relation) refl)
                  | inr (row, m) ↦ rw (h, k, l, add_relation) (rw (m, enter_relation) refl)
                ]
          ]
        ]
      ]

  pub add_relation-AreClassified :
      (i j : ℕ) (word : String) (valid_from valid_to : Option Date) (clock : DateTime)
      (s : EntityStore)
      → AreClassified s
      → AreClassified (add_relation vocabulary i j word valid_from valid_to clock s).1
  add_relation-AreClassified i j word valid_from valid_to clock s c =
      rows-AreClassified s (add_relation vocabulary i j word valid_from valid_to clock s).1
        (add_relation-rows i j word valid_from valid_to clock s) c

  pub link_issuer-AreClassified :
      (i j : ℕ) (clock : DateTime) (s : EntityStore)
      → AreClassified s
      → AreClassified (link_issuer vocabulary i j clock s).1
  unfolding link_issuer
  link_issuer-AreClassified i j clock s c = elim (Outcome-cases (current_row j s)) [
    | inr (e, h) ↦ rw (h, link_issuer) c
    | inl (row, h) ↦ elim (Bool-cases (row.entity_type == "issuer")) [
      | inl t ↦
          rw (h, t, link_issuer) (add_relation-AreClassified i j "issued_by" none none clock s c)
      | inr t ↦ rw (h, t, link_issuer) c
    ]
  ]

module _ (strip : String → String) where
  add_external_id-rows :
      (i : ℕ) (id_type id_value : String) (valid_from valid_to : Option Date) (clock : DateTime)
      (s : EntityStore)
      → (add_external_id strip i id_type id_value valid_from valid_to clock s).1.rows ≡ s.rows
  unfolding add_external_id enter_external_id append_external_id
  add_external_id-rows i id_type id_value valid_from valid_to clock s =
      elim (Outcome-cases (current_row i s)) [
        | inr (e, h) ↦ rw (h, add_external_id) refl
        | inl (row, h) ↦ elim (Outcome-cases (required_facet id_types id_type)) [
          | inr (e, k) ↦ rw (h, k, add_external_id) refl
          | inl (checked, k) ↦ elim (Bool-cases (strip id_value == "")) [
            | inl t ↦ rw (h, k, t, add_external_id) refl
            | inr t ↦
                elim (Option-cases
                  (head? (filter (is_known checked (strip id_value)) (external_id_rows i s)))) [
                    | inl m ↦ rw (h, k, t, add_external_id) (rw (m, enter_external_id) refl)
                    | inr (known, m) ↦
                        rw (h, k, t, add_external_id) (rw (m, enter_external_id) refl)
                  ]
          ]
        ]
      ]

  pub add_external_id-AreClassified :
      (i : ℕ) (id_type id_value : String) (valid_from valid_to : Option Date) (clock : DateTime)
      (s : EntityStore)
      → AreClassified s
      → AreClassified (add_external_id strip i id_type id_value valid_from valid_to clock s).1
  add_external_id-AreClassified i id_type id_value valid_from valid_to clock s c =
      rows-AreClassified s (add_external_id strip i id_type id_value valid_from valid_to clock s).1
        (add_external_id-rows i id_type id_value valid_from valid_to clock s) c
