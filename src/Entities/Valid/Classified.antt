-- ===== src/Entities/Valid/Classified.antt =====
-- The classification of rows: every value of a class is a member of its enumeration, and only issuers
-- have a status.
use fin_data_platform.Prelude.{
  ℕ, ◌≡◌, refl, sym, ◌∙◌, subst, String, true, Option, none, some, List, [], ◌∷◌, ◌++◌, arith, All,
  All-map, All-filter, elem, Bool-cases, Option-cases, inl, inr, nat_eq, string_eq, ◌==◌,
  All-greatest, some_injective,
}
use fin_data_platform.Dict.{get}
use fin_data_platform.Outcome.{ok, ok_injective}
use fin_data_platform.Runtime.Models.{DateTime, Date}
use fin_data_platform.Entities.Models.{
  entity_types, entity_classes, markets, social_statuses, EntityRecord, facet, required_facet,
}
use fin_data_platform.Entities.Store.{EntityStore, entity_rows, append_entity}
use fin_data_platform.Entities.Rows.{
  is_newer, open_or_all, current_row, covers_row, covering_row, close_row, append_row,
}
use fin_data_platform.Entities.Service.{status_of}
use fin_data_platform.Entities.Valid.{All-append, get-append_entity, entity_rows-stored}
use fin_data_platform.Entities.Valid.Current.{All-open_or_all, entity_rows-none, current-found}

abbrev pub IsAmong : List String → Option String → Type 0
IsAmong allowed none = Unit
IsAmong allowed (some value) = elem value allowed ≡ true

abbrev pub IsStatus : String → Option String → Type 0
IsStatus entity_type none = Unit
IsStatus entity_type (some status) =
    (elem status social_statuses ≡ true) × ((entity_type == "issuer") ≡ true)

pub record IsClassified (row : EntityRecord) : Type 0 where
  pub kind : elem row.entity_type entity_types ≡ true
  pub class : IsAmong entity_classes row.entity_class
  pub market : IsAmong markets row.market
  pub status : IsStatus row.entity_type row.social_status

-- All stored rows are classified.
abbrev pub AreClassified : EntityStore → Type 0
AreClassified s =
    (i : ℕ) (rows : List EntityRecord) → get i s.rows ≡ some rows → All IsClassified rows

All-entity_rows : (s : EntityStore) (i : ℕ) → AreClassified s → All IsClassified (entity_rows i s)
All-entity_rows s i c = elim (Option-cases (get i s.rows)) [
  | inl h ↦ subst (All IsClassified) (sym (entity_rows-none i s h)) tt
  | inr (rows, h) ↦ subst (All IsClassified) (sym (entity_rows-stored i rows s h)) (c i rows h)
]

pub append_entity-AreClassified :
    (row : EntityRecord) (s : EntityStore)
    → AreClassified s
    → IsClassified row
    → AreClassified (append_entity row s)
append_entity-AreClassified row s c k i rows h = elim (Bool-cases (nat_eq.beq row.entity_id i)) [
  | inr t ↦ c i rows (ground (arith, get-append_entity i row s))
  | inl t ↦
      let new : entity_rows row.entity_id s ++ row ∷ [] ≡ rows =
        some_injective (sym (get-append_entity i row s ∙ rw t refl) ∙ h) in
      subst (All IsClassified) new (
        All-append IsClassified (entity_rows row.entity_id s) row
          (All-entity_rows s row.entity_id c) k)
]

pub current_row-IsClassified :
    (s : EntityStore) (i : ℕ) (row : EntityRecord)
    → AreClassified s
    → current_row i s ≡ ok row
    → IsClassified row
current_row-IsClassified s i row c h =
    All-greatest is_newer IsClassified (open_or_all (entity_rows i s)) row (current-found s i row h)
      (All-open_or_all IsClassified (entity_rows i s) (All-entity_rows s i c))

pub covering_row-IsClassified :
    (s : EntityStore) (i : ℕ) (day : Date) (row : EntityRecord)
    → AreClassified s
    → covering_row i day s ≡ some row
    → IsClassified row
unfolding covering_row
covering_row-IsClassified s i day row c h = All-greatest is_newer IsClassified _ row h (
    All-map _ IsClassified (λ r (p, _). p) _
      (All-filter IsClassified (covers_row day) (entity_rows i s) (All-entity_rows s i c)))

pub close_row-AreClassified :
    (row : EntityRecord) (day : Date) (clock : DateTime) (s : EntityStore)
    → AreClassified s
    → IsClassified row
    → AreClassified (close_row row day clock s)
unfolding close_row
close_row-AreClassified row day clock s c k =
    append_entity-AreClassified _ s c
      (record { kind = k.kind; class = k.class; market = k.market; status = k.status })

pub append_row-AreClassified :
    (base : EntityRecord) (code name : Option String) (valid_from valid_to : Option Date)
    (extra : Option (String × String)) (clock : DateTime) (s : EntityStore)
    → AreClassified s
    → IsClassified base
    → AreClassified (append_row base code name valid_from valid_to extra clock s)
unfolding append_row
append_row-AreClassified base code name valid_from valid_to extra clock s c k =
    append_entity-AreClassified _ s c
      (record { kind = k.kind; class = k.class; market = k.market; status = k.status })

-- What the checks let through
pub facet-IsAmong :
    (allowed : List String) (value checked : Option String)
    → facet allowed value ≡ ok checked
    → IsAmong allowed checked
unfolding facet
facet-IsAmong allowed none checked h = rw (← ok_injective h) tt
facet-IsAmong allowed (some value) checked h = elim (Bool-cases (elem value allowed)) [
  | inl t ↦ let same : some value ≡ checked = ok_injective (rw t at h) in rw (← same) t
  | inr t ↦ cc (rw t at h)
]

pub required-elem :
    (allowed : List String) (value checked : String)
    → required_facet allowed value ≡ ok checked
    → elem checked allowed ≡ true
unfolding required_facet
required-elem allowed value checked h = elim (Bool-cases (elem value allowed)) [
  | inl t ↦ let same : value ≡ checked = ok_injective (rw t at h) in rw (← same) t
  | inr t ↦ cc (rw t at h)
]

pub status_of-IsStatus :
    (kind : String) (given status : Option String)
    → IsAmong social_statuses given
    → status_of kind given ≡ ok status
    → IsStatus kind status
unfolding status_of
status_of-IsStatus kind none status a h = elim (Bool-cases (kind == "issuer")) [
  | inl t ↦ let same : some "operating" ≡ status = ok_injective (rw t at h) in rw (← same) (refl, t)
  | inr t ↦ let same : none ≡ status = ok_injective (rw t at h) in rw (← same) tt
]
status_of-IsStatus kind (some s) status a h = elim (Bool-cases (kind == "issuer")) [
  | inl t ↦ let same : some s ≡ status = ok_injective (rw t at h) in rw (← same) (a, t)
  | inr t ↦ cc (rw t at h)
]
