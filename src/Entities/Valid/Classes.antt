-- ===== src/Entities/Valid/Classes.antt =====
-- Every call keeps the stored rows classified.
use fin_data_platform.Prelude.{
  ℕ, ◌≡◌, subst, String, true, Option, none, some, List, elem, Bool-cases, Option-cases, inl, inr,
  nat_eq, string_eq, ◌==◌,
}
use fin_data_platform.Outcome.{ok, Outcome-cases, ok_injective}
use fin_data_platform.Runtime.Models.{DateTime}
use fin_data_platform.Entities.Models.{
  entity_types, entity_classes, markets, social_statuses, EntityRecord, facet, required_facet,
}
use fin_data_platform.Entities.Store.{EntityStore, append_code, next_entity_id}
use fin_data_platform.Entities.Rows.{current_row}
use fin_data_platform.Entities.Codes.{resolve}
use fin_data_platform.Entities.Service.{
  Registration, Facets, status_of, facets_of, new_entity, new_code, create, refreshed_status,
  refreshed_facet, refreshed, is_same, refresh, register_or_refresh, register,
}
use fin_data_platform.Entities.Valid.Classified.{
  IsAmong, IsStatus, IsClassified, AreClassified, append_entity-AreClassified,
  current_row-IsClassified, append_row-AreClassified, facet-IsAmong, required-elem,
  status_of-IsStatus,
}

-- The classification that `_create` lets through
record AreChecked (f : Facets) : Type 0 where
  kind : elem f.entity_type entity_types ≡ true
  class : IsAmong entity_classes f.entity_class
  market : IsAmong markets f.market
  status : IsStatus f.entity_type f.social_status

facets_of-AreChecked : (r : Registration) (f : Facets) → facets_of r ≡ ok f → AreChecked f
unfolding facets_of
facets_of-AreChecked r f h = elim (Outcome-cases (required_facet entity_types r.entity_type)) [
  | inr (e, a) ↦ cc (rw (a, facets_of) at h)
  | inl (kind, a) ↦ elim (Outcome-cases (facet entity_classes r.entity_class)) [
    | inr (e, b) ↦ cc (rw (a, b, facets_of) at h)
    | inl (class, b) ↦ elim (Outcome-cases (facet markets r.market)) [
      | inr (e, c) ↦ cc (rw (a, b, c, facets_of) at h)
      | inl (market, c) ↦ elim (Outcome-cases (facet social_statuses r.social_status)) [
        | inr (e, d) ↦ cc (rw (a, b, c, d, facets_of) at h)
        | inl (given, d) ↦ elim (Outcome-cases (status_of kind given)) [
          | inr (e, k) ↦ cc (rw (a, b, c, d, k, facets_of) at h)
          | inl (status, k) ↦
              subst AreChecked (ok_injective (rw (a, b, c, d, k, facets_of) at h)) (record {
                kind = required-elem entity_types r.entity_type kind a;
                class = facet-IsAmong entity_classes r.entity_class class b;
                market = facet-IsAmong markets r.market market c;
                status =
                    status_of-IsStatus kind given status
                      (facet-IsAmong social_statuses r.social_status given d) k;
              })
        ]
      ]
    ]
  ]
]

refreshed_facet-IsAmong :
    (allowed : List String) (value old checked : Option String)
    → IsAmong allowed old
    → refreshed_facet allowed value old ≡ ok checked
    → IsAmong allowed checked
refreshed_facet-IsAmong allowed none old checked a h = rw (← ok_injective h) a
refreshed_facet-IsAmong allowed (some value) old checked a h =
    facet-IsAmong allowed (some value) checked h

refreshed_status-IsStatus :
    (value : Option String) (current : EntityRecord) (status : Option String)
    → IsStatus current.entity_type current.social_status
    → refreshed_status value current ≡ ok status
    → IsStatus current.entity_type status
unfolding refreshed_status
refreshed_status-IsStatus none current status a h = rw (← ok_injective h) a
refreshed_status-IsStatus (some value) current status a h =
    elim (Outcome-cases (facet social_statuses (some value))) [
      | inr (e, k) ↦ cc (rw (k, refreshed_status) at h)
      | inl (given, k) ↦ elim (Bool-cases (current.entity_type == "issuer")) [
        | inr t ↦ cc (rw (k, t, refreshed_status) at h)
        | inl t ↦
            let same : given ≡ status = ok_injective (rw (k, t, refreshed_status) at h) in
            rw (← same) (issued given (facet-IsAmong social_statuses (some value) given k) t)
      ]
    ]
  where
    issued :
        (given : Option String)
        → IsAmong social_statuses given
        → (current.entity_type == "issuer") ≡ true
        → IsStatus current.entity_type given
    issued none b t = tt
    issued (some s) b t = (b, t)

refreshed-IsClassified :
    (r : Registration) (current row : EntityRecord)
    → IsClassified current
    → refreshed r current ≡ ok row
    → IsClassified row
unfolding refreshed
refreshed-IsClassified r current row c h =
    elim (Outcome-cases (refreshed_facet entity_classes r.entity_class current.entity_class)) [
      | inr (e, k) ↦ cc (rw (k, refreshed) at h)
      | inl (class, k) ↦ elim (Outcome-cases (refreshed_facet markets r.market current.market)) [
        | inr (e, l) ↦ cc (rw (k, l, refreshed) at h)
        | inl (market, l) ↦ elim (Outcome-cases (refreshed_status r.social_status current)) [
          | inr (e, n) ↦ cc (rw (k, l, n, refreshed) at h)
          | inl (status, n) ↦
              subst IsClassified (ok_injective (rw (k, l, n, refreshed) at h)) (record {
                kind = c.kind;
                class =
                    refreshed_facet-IsAmong entity_classes r.entity_class current.entity_class class
                      c.class k;
                market = refreshed_facet-IsAmong markets r.market current.market market c.market l;
                status = refreshed_status-IsStatus r.social_status current status c.status n;
              })
        ]
      ]
    ]

create-AreClassified :
    (r : Registration) (clock : DateTime) (s : EntityStore)
    → AreClassified s
    → AreClassified (create r clock s).1
unfolding create append_code
create-AreClassified r clock s c = elim (Outcome-cases (facets_of r)) [
  | inr (e, h) ↦ rw (h, create) c
  | inl (f, h) ↦
      let k = facets_of-AreChecked r f h in
      rw (h, create)
        (append_entity-AreClassified (new_entity s.next_id f r clock)
          (append_code (new_code (new_entity s.next_id f r clock)) (next_entity_id s).1) c
          (record { kind = k.kind; class = k.class; market = k.market; status = k.status }))
]

refresh-AreClassified :
    (i : ℕ) (r : Registration) (clock : DateTime) (s : EntityStore)
    → AreClassified s
    → AreClassified (refresh i r clock s).1
unfolding refresh
refresh-AreClassified i r clock s c = elim (Outcome-cases (current_row i s)) [
  | inr (e, h) ↦ rw (h, refresh) c
  | inl (current, h) ↦ elim (Outcome-cases (refreshed r current)) [
    | inr (e, k) ↦ rw (h, k, refresh) c
    | inl (row, k) ↦ elim (Bool-cases (is_same row current)) [
      | inl t ↦ rw (h, k, t, refresh) c
      | inr t ↦
          rw (h, k, t, refresh)
            (append_row-AreClassified row none none current.valid_from none none clock s c
              (refreshed-IsClassified r current row (current_row-IsClassified s i current c h) k))
    ]
  ]
]

pub register-AreClassified :
    (r : Registration) (clock : DateTime) (s : EntityStore)
    → AreClassified s
    → AreClassified (register r clock s).1
unfolding register register_or_refresh
register-AreClassified r clock s c = elim (Option-cases (resolve r.code none s)) [
  | inl h ↦ rw (h, register, register_or_refresh) (create-AreClassified r clock s c)
  | inr (i, h) ↦ rw (h, register, register_or_refresh) (refresh-AreClassified i r clock s c)
]
