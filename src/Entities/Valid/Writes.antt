-- ===== src/Entities/Valid/Writes.antt =====
-- The rows that changes append keep the store valid.
use fin_data_platform.Prelude.{
  ℕ, ◌+◌, ◌≡◌, refl, sym, ◌∙◌, String, Option, some, List, [], ◌∷◌, arith, All, All-map, Bool-cases,
  Option-cases, inl, inr, nat_eq, some_injective,
}
use fin_data_platform.Runtime.Models.{DateTime, Date}
use fin_data_platform.Entities.Models.{EntityRecord, CodeHistoryRecord}
use fin_data_platform.Entities.Store.{EntityStore, append_entity, append_code}
use fin_data_platform.Entities.Rows.{next_version, close_row, append_row}
use fin_data_platform.Entities.Changes.{close_codes}
use fin_data_platform.Entities.Valid.{
  Known, IsValid, Belongs, All-append, append_entity-IsValid, Known-append_entity, kind_of,
  get-append_entity,
}
use fin_data_platform.Entities.Valid.Current.{Belongs-append_entity}

-- A later store: valid, and everything that was known is known.
pub record Later (s s' : EntityStore) : Type 0 where
  pub valid : IsValid s'
  pub known : (i : ℕ) → Known s i → Known s' i
  pub belongs : (base : EntityRecord) → Belongs s base → Belongs s' base

pub Later-refl : (s : EntityStore) → IsValid s → Later s s
Later-refl s v = record { valid = v; known = λ i k. k; belongs = λ base b. b }

pub Later-trans : (s s' s'' : EntityStore) → Later s s' → Later s' s'' → Later s s''
Later-trans s s' s'' l m = record {
  valid = m.valid;
  known = λ i k. m.known i (l.known i k);
  belongs = λ base b. m.belongs base (l.belongs base b);
}

-- Two rows of one entity have one type.
same_type :
    (base other : EntityRecord) (s : EntityStore)
    → IsValid s
    → Belongs s base
    → Belongs s other
    → base.entity_id ≡ other.entity_id
    → base.entity_type ≡ other.entity_type
same_type base other s v b o same =
    let (below, (kind, old)) = v.histories base.entity_id b.rows b.stored in
    let one : b.rows ≡ o.rows = some_injective (sym b.stored ∙ rw same o.stored) in
    sym (kind_of base.entity_id kind base.entity_type b.rows old b.kind)
    ∙ kind_of base.entity_id kind other.entity_type b.rows old (rw one o.kind)

Later-append_entity :
    (base row : EntityRecord) (s : EntityStore)
    → IsValid s
    → Belongs s base
    → row.entity_id ≡ base.entity_id
    → row.entity_type ≡ base.entity_type
    → row.version ≡ next_version row.entity_id s
    → Later s (append_entity row s)
Later-append_entity base row s v b same typed version = record {
  valid = append_entity-IsValid base row s v b same typed version;
  known = λ i k. Known-append_entity row s i k;
  belongs = λ other o. elim (Bool-cases (nat_eq.beq row.entity_id other.entity_id)) [
    | inr f ↦ record {
      rows = o.rows;
      stored = let stored = o.stored in ground (arith, get-append_entity other.entity_id row s);
      kind = o.kind;
    }
    | inl t ↦
        let one : row.entity_id ≡ other.entity_id = ground arith in
        Belongs-append_entity s other row o one
          (typed ∙ same_type base other s v b o (sym same ∙ one))
  ];
}

pub Later-close_row :
    (row : EntityRecord) (day : Date) (clock : DateTime) (s : EntityStore)
    → IsValid s
    → Belongs s row
    → Later s (close_row row day clock s)
unfolding close_row
Later-close_row row day clock s v b = Later-append_entity row _ s v b refl refl refl

pub Later-append_row :
    (base : EntityRecord) (code name : Option String) (valid_from valid_to : Option Date)
    (extra : Option (String × String)) (clock : DateTime) (s : EntityStore)
    → IsValid s
    → Belongs s base
    → Later s (append_row base code name valid_from valid_to extra clock s)
unfolding append_row
Later-append_row base code name valid_from valid_to extra clock s v b =
    Later-append_entity base _ s v b refl refl refl

pub Later-append_code :
    (entry : CodeHistoryRecord) (s : EntityStore)
    → IsValid s
    → Known s entry.entity_id
    → Later s (append_code entry s)
unfolding append_code
Later-append_code entry s v k = record {
  valid = record {
    histories = v.histories;
    codes = All-append _ s.codes entry v.codes k;
    relations = v.relations;
    external_ids = v.external_ids;
  };
  known = λ i h. h;
  belongs = λ base b. record { rows = b.rows; stored = b.stored; kind = b.kind };
}

-- Closing entries of a known entity
pub Later-close_codes :
    (entries : List CodeHistoryRecord) (before : Date) (clock : DateTime) (s : EntityStore)
    → IsValid s
    → All (λ entry. Known s entry.entity_id) entries
    → Later s (close_codes entries before clock s)
unfolding close_codes
Later-close_codes [] before clock s v h = Later-refl s v
Later-close_codes (entry ∷ entries) before clock s v (k, h) = elim (Option-cases entry.valid_to) [
  | inr (day, e) ↦ rw (e, close_codes) (Later-close_codes entries before clock s v h)
  | inl e ↦
      let first =
        Later-append_code
          (record entry {
            valid_to = some before;
            knowledge_time = some clock;
            version = entry.version + 1;
          })
          s v k in
      rw (e, close_codes)
        (Later-trans _ _ _ first (
          Later-close_codes entries before clock _ first.valid
            (All-map _ _ (λ other known. first.known other.entity_id known) entries h)))
]
