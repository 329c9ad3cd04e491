-- ===== src/Entities/Valid/Links.antt =====
-- Relations and external identifiers keep the store valid, and leave it as it was when they raise.
use fin_data_platform.Prelude.{
  ℕ, ◌≡◌, refl, String, Option, none, Bool-cases, Option-cases, inl, inr, nat_eq, string_eq, ◌==◌,
  filter, head?,
}
use fin_data_platform.Dict.{get}
use fin_data_platform.Outcome.{Error, ok, raise, Outcome-cases}
use fin_data_platform.Runtime.Models.{DateTime, Date}
use fin_data_platform.Entities.Models.{
  EntityRecord, RelationRecord, ExternalIdRecord, id_types, required_facet,
}
use fin_data_platform.Entities.Store.{
  EntityStore, append_relation, append_external_id, relation_rows, external_id_rows,
}
use fin_data_platform.Entities.Rows.{current_row}
use fin_data_platform.Entities.Relations.{
  Vocabulary, is_standing, new_relation, enter_relation, add_relation, link_issuer,
}
use fin_data_platform.Entities.ExternalIds.{
  is_known, new_external_id, enter_external_id, add_external_id,
}
use fin_data_platform.Entities.Valid.{Known, IsValid, All-append}
use fin_data_platform.Entities.Valid.Current.{current_row-Found, Known-Found}
use fin_data_platform.Entities.Valid.Writes.{Later, Later-refl}

current_row-ok-Known :
    (i : ℕ) (s : EntityStore) (row : EntityRecord)
    → IsValid s
    → current_row i s ≡ ok row
    → Known s i
current_row-ok-Known i s row v h = Known-Found s i row (current_row-Found s i row v h)

Later-append_relation :
    (row : RelationRecord) (s : EntityStore)
    → IsValid s
    → Known s row.entity_id
    → Known s row.related_id
    → Later s (append_relation row s)
unfolding append_relation
Later-append_relation row s v k l = record {
  valid = record {
    histories = v.histories;
    codes = v.codes;
    relations = All-append _ s.relations row v.relations (k, l);
    external_ids = v.external_ids;
  };
  known = λ i h. h;
  belongs = λ base b. record { rows = b.rows; stored = b.stored; kind = b.kind };
}

Later-append_external_id :
    (row : ExternalIdRecord) (s : EntityStore)
    → IsValid s
    → Known s row.entity_id
    → Later s (append_external_id row s)
unfolding append_external_id
Later-append_external_id row s v k = record {
  valid = record {
    histories = v.histories;
    codes = v.codes;
    relations = v.relations;
    external_ids = All-append _ s.external_ids row v.external_ids k;
  };
  known = λ i h. h;
  belongs = λ base b. record { rows = b.rows; stored = b.stored; kind = b.kind };
}

Later-enter_relation :
    (i j : ℕ) (word : String) (valid_from valid_to : Option Date) (clock : DateTime)
    (s : EntityStore)
    → IsValid s
    → Known s i
    → Known s j
    → Later s (enter_relation i j word valid_from valid_to clock s).1
unfolding enter_relation
Later-enter_relation i j word valid_from valid_to clock s v k l =
    elim (Option-cases (head? (filter (is_standing j word) (relation_rows i s)))) [
      | inr (row, h) ↦ rw (h, enter_relation) (Later-refl s v)
      | inl h ↦
          rw (h, enter_relation)
            (Later-append_relation (new_relation i j word valid_from valid_to clock) s v k l)
    ]

module _ (vocabulary : Vocabulary) where
  pub Later-add_relation :
      (i j : ℕ) (word : String) (valid_from valid_to : Option Date) (clock : DateTime)
      (s : EntityStore)
      → IsValid s
      → Later s (add_relation vocabulary i j word valid_from valid_to clock s).1
  unfolding add_relation
  Later-add_relation i j word valid_from valid_to clock s v =
      elim (Option-cases (get word vocabulary)) [
        | inl h ↦ rw (h, add_relation) (Later-refl s v)
        | inr (entry, h) ↦ elim (Outcome-cases (current_row i s)) [
          | inr (e, k) ↦ rw (h, k, add_relation) (Later-refl s v)
          | inl (a, k) ↦ elim (Outcome-cases (current_row j s)) [
            | inr (e, l) ↦ rw (h, k, l, add_relation) (Later-refl s v)
            | inl (b, l) ↦
                rw (h, k, l, add_relation)
                  (Later-enter_relation i j word valid_from valid_to clock s v
                    (current_row-ok-Known i s a v k) (current_row-ok-Known j s b v l))
          ]
        ]
      ]

  pub add_relation_failed :
      (i j : ℕ) (word : String) (valid_from valid_to : Option Date) (clock : DateTime)
      (s : EntityStore) (e : Error)
      → (add_relation vocabulary i j word valid_from valid_to clock s).0 ≡ raise e
      → (add_relation vocabulary i j word valid_from valid_to clock s).1 ≡ s
  unfolding add_relation
  add_relation_failed i j word valid_from valid_to clock s e n =
      elim (Option-cases (get word vocabulary)) [
        | inl h ↦ rw (h, add_relation) refl
        | inr (entry, h) ↦ elim (Outcome-cases (current_row i s)) [
          | inr (x, k) ↦ rw (h, k, add_relation) refl
          | inl (a, k) ↦ elim (Outcome-cases (current_row j s)) [
            | inr (x, l) ↦ rw (h, k, l, add_relation) refl
            | inl (b, l) ↦ cc (rw (h, k, l, add_relation) at n)
          ]
        ]
      ]

  pub Later-link_issuer :
      (i j : ℕ) (clock : DateTime) (s : EntityStore)
      → IsValid s
      → Later s (link_issuer vocabulary i j clock s).1
  unfolding link_issuer
  Later-link_issuer i j clock s v = elim (Outcome-cases (current_row j s)) [
    | inr (e, h) ↦ rw (h, link_issuer) (Later-refl s v)
    | inl (row, h) ↦ elim (Bool-cases (row.entity_type == "issuer")) [
      | inl t ↦ rw (h, t, link_issuer) (Later-add_relation i j "issued_by" none none clock s v)
      | inr t ↦ rw (h, t, link_issuer) (Later-refl s v)
    ]
  ]

  pub link_issuer_failed :
      (i j : ℕ) (clock : DateTime) (s : EntityStore) (e : Error)
      → (link_issuer vocabulary i j clock s).0 ≡ raise e
      → (link_issuer vocabulary i j clock s).1 ≡ s
  unfolding link_issuer
  link_issuer_failed i j clock s e n = elim (Outcome-cases (current_row j s)) [
    | inr (x, h) ↦ rw (h, link_issuer) refl
    | inl (row, h) ↦ elim (Bool-cases (row.entity_type == "issuer")) [
      | inl t ↦
          rw (h, t, link_issuer)
            (add_relation_failed i j "issued_by" none none clock s e (rw (h, t, link_issuer) at n))
      | inr t ↦ rw (h, t, link_issuer) refl
    ]
  ]

Later-enter_external_id :
    (i : ℕ) (id_type id_value : String) (valid_from valid_to : Option Date) (clock : DateTime)
    (s : EntityStore)
    → IsValid s
    → Known s i
    → Later s (enter_external_id i id_type id_value valid_from valid_to clock s).1
unfolding enter_external_id
Later-enter_external_id i id_type id_value valid_from valid_to clock s v k =
    elim (Option-cases (head? (filter (is_known id_type id_value) (external_id_rows i s)))) [
      | inr (row, h) ↦ rw (h, enter_external_id) (Later-refl s v)
      | inl h ↦
          rw (h, enter_external_id)
            (Later-append_external_id (new_external_id i id_type id_value valid_from valid_to clock)
              s v k)
    ]

module _ (strip : String → String) where
  pub Later-add_external_id :
      (i : ℕ) (id_type id_value : String) (valid_from valid_to : Option Date) (clock : DateTime)
      (s : EntityStore)
      → IsValid s
      → Later s (add_external_id strip i id_type id_value valid_from valid_to clock s).1
  unfolding add_external_id
  Later-add_external_id i id_type id_value valid_from valid_to clock s v =
      elim (Outcome-cases (current_row i s)) [
        | inr (e, h) ↦ rw (h, add_external_id) (Later-refl s v)
        | inl (row, h) ↦ elim (Outcome-cases (required_facet id_types id_type)) [
          | inr (e, k) ↦ rw (h, k, add_external_id) (Later-refl s v)
          | inl (checked, k) ↦ elim (Bool-cases (strip id_value == "")) [
            | inl t ↦ rw (h, k, t, add_external_id) (Later-refl s v)
            | inr t ↦
                rw (h, k, t, add_external_id)
                  (Later-enter_external_id i checked (strip id_value) valid_from valid_to clock s v
                    (current_row-ok-Known i s row v h))
          ]
        ]
      ]

  pub add_external_id_failed :
      (i : ℕ) (id_type id_value : String) (valid_from valid_to : Option Date) (clock : DateTime)
      (s : EntityStore) (e : Error)
      → (add_external_id strip i id_type id_value valid_from valid_to clock s).0 ≡ raise e
      → (add_external_id strip i id_type id_value valid_from valid_to clock s).1 ≡ s
  unfolding add_external_id
  add_external_id_failed i id_type id_value valid_from valid_to clock s e n =
      elim (Outcome-cases (current_row i s)) [
        | inr (x, h) ↦ rw (h, add_external_id) refl
        | inl (row, h) ↦ elim (Outcome-cases (required_facet id_types id_type)) [
          | inr (x, k) ↦ rw (h, k, add_external_id) refl
          | inl (checked, k) ↦ elim (Bool-cases (strip id_value == "")) [
            | inl t ↦ rw (h, k, t, add_external_id) refl
            | inr t ↦ cc (rw (h, k, t, add_external_id) at n)
          ]
        ]
      ]
