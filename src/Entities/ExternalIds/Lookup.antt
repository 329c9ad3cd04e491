-- ===== src/Entities/ExternalIds/Lookup.antt =====
-- An external identifier that was added leads back to its entity.
use fin_data_platform.Prelude.{
  ℕ, ◌≡◌, refl, ◌∙◌, ap, String, Bool, true, ◌&&◌, Option, none, some, List, [], ◌∷◌, arith,
  Bool-cases, Option-cases, inl, inr, nat_eq, string_eq, ◌==◌, filter, head?, any, elem, any-append,
  any_of_head, All, All-map, All-filter, greatest, greatest-any, All-greatest, filter-append_one,
}
use fin_data_platform.Outcome.{ok, Outcome-cases}
use fin_data_platform.Runtime.Models.{DateTime, Date}
use fin_data_platform.Entities.Models.{id_types, covers, required_facet, ExternalIdRecord}
use fin_data_platform.Entities.Store.{
  EntityStore, external_id_rows, append_external_id, find_external_ids,
}
use fin_data_platform.Entities.Rows.{current_row}
use fin_data_platform.Entities.Valid.{All-append}
use fin_data_platform.Entities.ExternalIds.{
  is_newer_id, covers_id, is_known, new_external_id, enter_external_id, add_external_id,
  find_by_external_id,
}

-- All rows of an identifier are of one entity.
abbrev pub IsOnlyOf : ℕ → String → String → EntityStore → Type 0
IsOnlyOf i id_type id_value s =
    All (λ row. row.entity_id ≡ i) (find_external_ids id_type id_value s)

abbrev has_id : String → String → ExternalIdRecord → Bool
has_id id_type id_value row = row.id_type == id_type && row.id_value == id_value

-- An open row of the identifier
abbrev is_held : String → String → ExternalIdRecord → Bool
is_held id_type id_value row = has_id id_type id_value row && covers_id none row

any-filter {ℓ} :
    {A : Type ℓ} (p q : A → Bool) (xs : List A) → any p (filter q xs) ≡ any (λ x. q x && p x) xs
any-filter p q [] = refl
any-filter p q (x ∷ xs) = ground (arith, any-filter p q xs)

module _ (i : ℕ) (id_type id_value : String) (from : Option Date) (clock : DateTime)
    (s : EntityStore) where
  abbrev after : EntityStore
  after = (enter_external_id i id_type id_value from none clock s).1

  abbrev new : ExternalIdRecord
  new = new_external_id i id_type id_value from none clock

  any-after : any (is_held id_type id_value) after.external_ids ≡ true
  unfolding enter_external_id external_id_rows append_external_id covers
  any-after =
      elim (Option-cases (head? (filter (is_known id_type id_value) (external_id_rows i s)))) [
        | inr (row, h) ↦
            rw (h, after, enter_external_id)
              (any_of_head (is_known id_type id_value) (λ item. item.entity_id == i)
                (is_held id_type id_value) s.external_ids row h is_known-held)
        | inl h ↦
            rw (h, after, enter_external_id, any-append (is_held id_type id_value) s.external_ids)
              (ground
                (arith, string_eq.beq_iff id_type id_type, string_eq.beq_iff id_value id_value))
      ]
    where
      is_known-held :
          (y : ExternalIdRecord)
          → is_known id_type id_value y ≡ true
          → (y.entity_id == i) ≡ true
          → is_held id_type id_value y ≡ true
      is_known-held y t u = ground arith

  IsOnlyOf-after : IsOnlyOf i id_type id_value s → IsOnlyOf i id_type id_value after
  unfolding enter_external_id external_id_rows append_external_id find_external_ids
  IsOnlyOf-after o =
      elim (Option-cases (head? (filter (is_known id_type id_value) (external_id_rows i s)))) [
        | inr (row, h) ↦ rw (h, after, enter_external_id) o
        | inl h ↦
            rw (h, after, enter_external_id)
              (rw (filter-append_one (has_id id_type id_value) s.external_ids new)
                (elim (Bool-cases (has_id id_type id_value new)) [
                  | inl t ↦
                      rw t
                        (All-append _ (filter (has_id id_type id_value) s.external_ids) new o refl)
                  | inr t ↦ rw t o
                ]))
      ]

  found_after :
      IsOnlyOf i id_type id_value s
      → (row : ExternalIdRecord) × (greatest is_newer_id
            (filter (covers_id none) (find_external_ids id_type id_value after))
          ≡ some row)
        × (row.entity_id ≡ i)
  unfolding find_external_ids
  found_after o =
      let (row, h) =
        greatest-any is_newer_id (covers_id none) (find_external_ids id_type id_value after)
          (any-filter (covers_id none) (has_id id_type id_value) after.external_ids ∙ any-after) in
      (
        row,
        h,
        All-greatest is_newer_id (λ r. r.entity_id ≡ i) _ row h
            (All-map _ _ (λ r (p, _). p) _
              (All-filter (λ r. r.entity_id ≡ i) (covers_id none) _ (IsOnlyOf-after o))),
      )

required_facet-ok :
    (allowed : List String) (value checked : String)
    → required_facet allowed value ≡ ok checked
    → checked ≡ value
unfolding required_facet
required_facet-ok allowed value checked h = elim (Bool-cases (elem value allowed)) [
  | inl t ↦ cc (rw (t, required_facet) at h)
  | inr t ↦ cc (rw (t, required_facet) at h)
]

module _ (strip : String → String) where
  -- After `add_external_id` without an end returned, for an identifier whose rows so far (under the
  -- stripped value) are all of this entity, if there are any: the identifier leads to the entity, on no
  -- particular day.
  pub find_by_external_id-add_external_id :
      (i : ℕ) (id_type id_value : String) (from : Option Date) (clock : DateTime) (s : EntityStore)
      (row : ExternalIdRecord)
      → IsOnlyOf i id_type (strip id_value) s
      → (add_external_id strip i id_type id_value from none clock s).0 ≡ ok row
      → find_by_external_id strip id_type id_value none
          (add_external_id strip i id_type id_value from none clock s).1
        ≡ ok (some i)
  unfolding add_external_id find_by_external_id required_facet
  find_by_external_id-add_external_id i id_type id_value from clock s row o r =
      elim (Outcome-cases (current_row i s)) [
        | inr (e, h) ↦ cc (rw (h, add_external_id) at r)
        | inl (x, h) ↦ elim (Outcome-cases (required_facet id_types id_type)) [
          | inr (e, k) ↦ cc (rw (h, k, add_external_id) at r)
          | inl (checked, k) ↦ elim (Bool-cases (strip id_value == "")) [
            | inl t ↦ cc (rw (h, k, t, add_external_id) at r)
            | inr t ↦
                let same : checked ≡ id_type = required_facet-ok id_types id_type checked k in
                let (found, m, own) = found_after i id_type (strip id_value) from clock s o in
                rw (h, k, t, same, add_external_id)
                  (rw (k, same, m, find_by_external_id) (ap (λ j. ok (some j)) own))
          ]
        ]
      ]
