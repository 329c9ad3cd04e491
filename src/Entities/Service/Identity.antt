-- ===== src/Entities/Service/Identity.antt =====
-- A registered code leads to the entity that the registration answered with.
use fin_data_platform.Prelude.{
  ℕ, ◌≡◌, refl, sym, ◌∙◌, ap, Bool, none, some, Bool-cases, Option-cases, inl, inr, nat_eq,
  string_eq, pair_eq, option_eq, some_injective,
}
use fin_data_platform.Outcome.{Outcome, ok, raise, Outcome-cases, ok_injective}
use fin_data_platform.Runtime.Models.{DateTime}
use fin_data_platform.Entities.Models.{EntityRecord}
use fin_data_platform.Entities.Store.{EntityStore, append_entity, append_code, next_entity_id}
use fin_data_platform.Entities.Rows.{current_row, append_row}
use fin_data_platform.Entities.Codes.{resolve}
use fin_data_platform.Entities.Service.{
  Registration, facets_of, new_entity, new_code, create, refreshed, is_same, refresh,
  register_or_refresh, register,
}
use fin_data_platform.Entities.Valid.{IsValid}
use fin_data_platform.Entities.Valid.Current.{current_row-Found}
use fin_data_platform.Entities.Valid.Refreshment.{Later-refresh, Later-register}
use fin_data_platform.Entities.Codes.Latest.{
  find_by_code-unresolved, resolve-single, find_by_code-append_code, resolve-codes,
}

-- Refreshment leaves the codes alone and gives out no number.
refresh_rest :
    (i : ℕ) (r : Registration) (clock : DateTime) (s : EntityStore)
    → ((refresh i r clock s).1.codes ≡ s.codes) × ((refresh i r clock s).1.next_id ≡ s.next_id)
unfolding refresh append_row append_entity
refresh_rest i r clock s = elim (Outcome-cases (current_row i s)) [
  | inr (x, k) ↦ rw (k, refresh) (refl, refl)
  | inl (current, k) ↦ elim (Outcome-cases (refreshed r current)) [
    | inr (x, l) ↦ rw (k, l, refresh) (refl, refl)
    | inl (row, l) ↦ elim (Bool-cases (is_same row current)) [
      | inl t ↦ rw (k, l, t, refresh) (refl, refl)
      | inr t ↦ rw (k, l, t, refresh) (refl, refl)
    ]
  ]
]

-- A new entity's code leads to it.
create-resolves :
    (r : Registration) (clock : DateTime) (s : EntityStore) (row : EntityRecord)
    → resolve r.code none s ≡ none
    → (create r clock s).0 ≡ ok row
    → resolve r.code none (create r clock s).1 ≡ some row.entity_id
unfolding create append_entity
create-resolves r clock s row n h = elim (Outcome-cases (facets_of r)) [
  | inr (x, k) ↦ cc (rw (k, create) at h)
  | inl (f, k) ↦
      let base = new_entity s.next_id f r clock in
      let same : base ≡ row = ok_injective (rw (k, create) at h) in
      let found : resolve r.code none (append_code (new_code base) (next_entity_id s).1)
          ≡ some base.entity_id =
        resolve-single r.code _ (new_code base) (
          find_by_code-append_code r.code (new_code base) (next_entity_id s).1 refl (
            find_by_code-unresolved r.code (next_entity_id s).1
              (resolve-codes r.code s (next_entity_id s).1 refl ∙ n))) in
      rw (k, create)
        (resolve-codes r.code (append_code (new_code base) (next_entity_id s).1) _ refl
          ∙ found
          ∙ ap (λ x. some x.entity_id) same)
]

register_or_refresh-resolves :
    (r : Registration) (clock : DateTime) (s : EntityStore) (answer : EntityRecord × Bool × Bool)
    → IsValid s
    → (register_or_refresh r clock s).0 ≡ ok answer
    → resolve r.code none (register_or_refresh r clock s).1 ≡ some answer.0.entity_id
unfolding register_or_refresh
register_or_refresh-resolves r clock s answer v h = elim (Option-cases (resolve r.code none s)) [
  | inl k ↦ elim (Outcome-cases (create r clock s).0) [
    | inr (x, l) ↦ cc (rw (k, l, register_or_refresh) at h)
    | inl (row, l) ↦
        let same : row ≡ answer.0 =
          ap (λ a. a.0) (ok_injective (rw (k, l, register_or_refresh) at h)) in
        rw (k, register_or_refresh)
          (create-resolves r clock s row k l ∙ ap (λ x. some x.entity_id) same)
  ]
  | inr (i, k) ↦ elim (Outcome-cases (refresh i r clock s).0) [
    | inr (x, l) ↦ cc (rw (k, l, register_or_refresh) at h)
    | inl (updated, l) ↦ elim (Outcome-cases (current_row i (refresh i r clock s).1)) [
      | inr (x, m) ↦ cc (rw (k, l, m, register_or_refresh) at h)
      | inl (row, m) ↦
          let same : row ≡ answer.0 =
            ap (λ a. a.0) (ok_injective (rw (k, l, m, register_or_refresh) at h)) in
          let own : row.entity_id ≡ i =
            (current_row-Found _ i row (Later-refresh i r clock s v).valid m).same in
          rw (k, register_or_refresh)
            (resolve-codes r.code s _ (refresh_rest i r clock s).0
              ∙ k
              ∙ ap some (sym own ∙ ap (λ x. x.entity_id) same))
    ]
  ]
]

-- After a registration on a valid store returned a record, the registered code resolves, on no
-- particular day, to the record's entity.
pub resolve-register :
    (r : Registration) (clock : DateTime) (s : EntityStore) (row : EntityRecord)
    → IsValid s
    → (register r clock s).0 ≡ ok row
    → resolve r.code none (register r clock s).1 ≡ some row.entity_id
unfolding register
resolve-register r clock s row v h = elim (Outcome-cases (register_or_refresh r clock s).0) [
  | inr (x, k) ↦ cc (rw (k, register) at h)
  | inl (answer, k) ↦
      register_or_refresh-resolves r clock s answer v k
      ∙ ap (λ x. some x.entity_id) (ok_injective (rw (k, register) at h))
]

-- A result that, if there is one, is a record of the entity
abbrev pub IsOf : ℕ → Outcome EntityRecord → Type 0
IsOf i (ok row) = row.entity_id ≡ i
IsOf i (raise e) = Unit

-- A registration of a code that resolves creates no entity: the next number and the codes stay.
register-known :
    (r : Registration) (clock : DateTime) (s : EntityStore) (i : ℕ)
    → resolve r.code none s ≡ some i
    → ((register r clock s).1.next_id ≡ s.next_id) × ((register r clock s).1.codes ≡ s.codes)
unfolding register register_or_refresh
register-known r clock s i h =
    rw (h, register, register_or_refresh)
      ((refresh_rest i r clock s).1, (refresh_rest i r clock s).0)

-- After a registration on a valid store returned a record, another registration under the same code
-- creates nothing: it gives out no number and enters no code, and if it returns, it is with a record of
-- the same entity.
pub register_again :
    (r again : Registration) (clock later : DateTime) (s : EntityStore) (row : EntityRecord)
    → IsValid s
    → (register r clock s).0 ≡ ok row
    → again.code ≡ r.code
    → ((register again later (register r clock s).1).1.next_id ≡ (register r clock s).1.next_id)
      × ((register again later (register r clock s).1).1.codes ≡ (register r clock s).1.codes)
      × IsOf row.entity_id (register again later (register r clock s).1).0
register_again r again clock later s row v h same =
    let s' = (register r clock s).1 in
    let found : resolve again.code none s' ≡ some row.entity_id =
      ap (λ code. resolve code none s') same ∙ resolve-register r clock s row v h in
    let (number, codes) = register-known again later s' row.entity_id found in
    (
      number,
      codes,
      elim (Outcome-cases (register again later s').0) [
        | inr (x, k) ↦ rw k tt
        | inl (other, k) ↦ rw k (
            some_injective (
              sym (resolve-register again later s' other (Later-register r clock s v).valid k)
              ∙ resolve-codes again.code s' _ codes
              ∙ found))
      ],
    )
