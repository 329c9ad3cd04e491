-- ===== src/Entities/Valid/Refreshment.antt =====
-- Registration keeps the store valid, and a registration that raises leaves it as it was.
use fin_data_platform.Prelude.{
  ℕ, ◌≡◌, refl, sym, ap, String, Bool, none, Bool-cases, Option-cases, inl, inr, nat_eq,
}
use fin_data_platform.Outcome.{Error, Outcome, ok, raise, Outcome-cases}
use fin_data_platform.Runtime.Models.{DateTime}
use fin_data_platform.Entities.Models.{EntityRecord, entity_classes, markets}
use fin_data_platform.Entities.Store.{EntityStore}
use fin_data_platform.Entities.Rows.{current_row, append_row}
use fin_data_platform.Entities.Codes.{resolve}
use fin_data_platform.Entities.Service.{
  Registration, create, refreshed, refreshed_facet, refreshed_status, is_same, refresh,
  register_or_refresh, register,
}
use fin_data_platform.Entities.Valid.{Known, IsValid, Belongs}
use fin_data_platform.Entities.Valid.Current.{current_row-Found, current_row-Known, Known-Found}
use fin_data_platform.Entities.Valid.Writes.{Later, Later-refl, Later-append_row}
use fin_data_platform.Entities.Valid.Creation.{Later-create, create_failed}

-- A refreshed row is of the same entity and type.
refreshed-same :
    (r : Registration) (current row : EntityRecord)
    → refreshed r current ≡ ok row
    → (row.entity_id ≡ current.entity_id) × (row.entity_type ≡ current.entity_type)
unfolding refreshed
refreshed-same r current row h =
    elim (Outcome-cases (refreshed_facet entity_classes r.entity_class current.entity_class)) [
      | inr (e, k) ↦ cc (rw (k, refreshed) at h)
      | inl (c, k) ↦ elim (Outcome-cases (refreshed_facet markets r.market current.market)) [
        | inr (e, l) ↦ cc (rw (k, l, refreshed) at h)
        | inl (m, l) ↦ elim (Outcome-cases (refreshed_status r.social_status current)) [
          | inr (e, n) ↦ cc (rw (k, l, n, refreshed) at h)
          | inl (t, n) ↦
              let given = rw (k, l, n, refreshed) at h in
              (sym (ap (id_of current) given), sym (ap (type_of current) given))
        ]
      ]
    ]
  where
    id_of : EntityRecord → Outcome EntityRecord → ℕ
    id_of other (ok x) = x.entity_id
    id_of other (raise e) = other.entity_id

    type_of : EntityRecord → Outcome EntityRecord → String
    type_of other (ok x) = x.entity_type
    type_of other (raise e) = other.entity_type

append_row-current :
    (r : Registration) (current row : EntityRecord) (clock : DateTime) (s : EntityStore)
    → IsValid s
    → Belongs s current
    → refreshed r current ≡ ok row
    → Later s (append_row row none none current.valid_from none none clock s)
append_row-current r current row clock s v b h =
    let (same, typed) = refreshed-same r current row h in
    Later-append_row row none none current.valid_from none none clock s v
      (record { rows = b.rows; stored = rw same b.stored; kind = rw typed b.kind })

pub Later-refresh :
    (i : ℕ) (r : Registration) (clock : DateTime) (s : EntityStore)
    → IsValid s
    → Later s (refresh i r clock s).1
unfolding refresh
Later-refresh i r clock s v = elim (Outcome-cases (current_row i s)) [
  | inr (e, h) ↦ rw (h, refresh) (Later-refl s v)
  | inl (current, h) ↦ elim (Outcome-cases (refreshed r current)) [
    | inr (e, k) ↦ rw (h, k, refresh) (Later-refl s v)
    | inl (row, k) ↦ elim (Bool-cases (is_same row current)) [
      | inl t ↦ rw (h, k, t, refresh) (Later-refl s v)
      | inr t ↦
          rw (h, k, t, refresh)
            (append_row-current r current row clock s v (current_row-Found s i current v h).belongs
              k)
    ]
  ]
]

pub refresh_failed :
    (i : ℕ) (r : Registration) (clock : DateTime) (s : EntityStore) (e : Error)
    → (refresh i r clock s).0 ≡ raise e
    → (refresh i r clock s).1 ≡ s
unfolding refresh
refresh_failed i r clock s e h = elim (Outcome-cases (current_row i s)) [
  | inr (x, k) ↦ rw (k, refresh) refl
  | inl (current, k) ↦ elim (Outcome-cases (refreshed r current)) [
    | inr (x, l) ↦ rw (k, l, refresh) refl
    | inl (row, l) ↦ elim (Bool-cases (is_same row current)) [
      | inl t ↦ rw (k, l, t, refresh) refl
      | inr t ↦ cc (rw (k, l, t, refresh) at h)
    ]
  ]
]

-- Only a known entity is refreshed.
pub refresh-Known :
    (i : ℕ) (r : Registration) (clock : DateTime) (s : EntityStore) (updated : Bool)
    → IsValid s
    → (refresh i r clock s).0 ≡ ok updated
    → Known s i
unfolding refresh
refresh-Known i r clock s updated v h = elim (Outcome-cases (current_row i s)) [
  | inr (x, k) ↦ cc (rw (k, refresh) at h)
  | inl (current, k) ↦ Known-Found s i current (current_row-Found s i current v k)
]

pub Later-register_or_refresh :
    (r : Registration) (clock : DateTime) (s : EntityStore)
    → IsValid s
    → Later s (register_or_refresh r clock s).1
unfolding register_or_refresh
Later-register_or_refresh r clock s v = elim (Option-cases (resolve r.code none s)) [
  | inl h ↦ rw (h, register_or_refresh) (Later-create r clock s v)
  | inr (i, h) ↦ rw (h, register_or_refresh) (Later-refresh i r clock s v)
]

pub Later-register :
    (r : Registration) (clock : DateTime) (s : EntityStore)
    → IsValid s
    → Later s (register r clock s).1
unfolding register
Later-register r clock s v = Later-register_or_refresh r clock s v

register_or_refresh_failed :
    (r : Registration) (clock : DateTime) (s : EntityStore) (e : Error)
    → IsValid s
    → (register_or_refresh r clock s).0 ≡ raise e
    → (register_or_refresh r clock s).1 ≡ s
unfolding register_or_refresh
register_or_refresh_failed r clock s e v h = elim (Option-cases (resolve r.code none s)) [
  | inl k ↦ elim (Outcome-cases (create r clock s).0) [
    | inl (row, l) ↦ cc (rw (k, l, register_or_refresh) at h)
    | inr (x, l) ↦ rw (k, register_or_refresh) (create_failed r clock s x l)
  ]
  | inr (i, k) ↦ elim (Outcome-cases (refresh i r clock s).0) [
    | inr (x, l) ↦ rw (k, register_or_refresh) (refresh_failed i r clock s x l)
    | inl (updated, l) ↦
        let later = Later-refresh i r clock s v in
        let (row, m) =
          current_row-Known (refresh i r clock s).1 i later.valid
            (later.known i (refresh-Known i r clock s updated v l)) in
        cc (rw (k, l, m, register_or_refresh) at h)
  ]
]

pub register_failed :
    (r : Registration) (clock : DateTime) (s : EntityStore) (e : Error)
    → IsValid s
    → (register r clock s).0 ≡ raise e
    → (register r clock s).1 ≡ s
unfolding register
register_failed r clock s e v h = elim (Outcome-cases (register_or_refresh r clock s).0) [
  | inl (answer, k) ↦ cc (rw (k, register) at h)
  | inr (x, k) ↦ register_or_refresh_failed r clock s x v k
]
