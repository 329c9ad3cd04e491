-- ===== src/Entities/Valid/Creation.antt =====
-- Creation of an entity keeps the store valid.
use fin_data_platform.Prelude.{
  ℕ, ◌≡◌, refl, none, some, [], ◌∷◌, arith, All-map, Bool-cases, Option-cases, inl, inr, nat_eq,
  if◌then◌else◌,
}
use fin_data_platform.Dict.{get}
use fin_data_platform.Outcome.{Error, raise, Outcome-cases}
use fin_data_platform.Runtime.Models.{DateTime}
use fin_data_platform.Entities.Models.{EntityRecord}
use fin_data_platform.Entities.Store.{
  EntityStore, append_entity, append_code, entity_rows, next_entity_id,
}
use fin_data_platform.Entities.Service.{Registration, facets_of, new_entity, new_code, create}
use fin_data_platform.Entities.Valid.{Known, IsValid, All-append, get-append_entity}
use fin_data_platform.Entities.Valid.Writes.{Later, Later-refl}

-- The next number is new.
fresh : (s : EntityStore) → IsValid s → get s.next_id s.rows ≡ none
fresh s v = elim (Option-cases (get s.next_id s.rows)) [
  | inl e ↦ e
  | inr (rows, e) ↦ let (below, h) = v.histories s.next_id rows e in absurd (omega arith)
]

entity_rows-fresh : (s : EntityStore) (i : ℕ) → get i s.rows ≡ none → entity_rows i s ≡ []
unfolding entity_rows
entity_rows-fresh s i h = rw h refl

-- The store after `_create` has entered an entity and its code
abbrev entered : EntityRecord → EntityStore → EntityStore
entered base s = append_entity base (append_code (new_code base) (next_entity_id s).1)

get-entered :
    (i : ℕ) (base : EntityRecord) (s : EntityStore)
    → IsValid s
    → base.entity_id ≡ s.next_id
    → get i (entered base s).rows
      ≡ (if nat_eq.beq s.next_id i then some (base ∷ []) else get i s.rows)
unfolding append_code
get-entered i base s v same =
    let nothing : entity_rows base.entity_id (append_code (new_code base) (next_entity_id s).1)
        ≡ [] =
      entity_rows-fresh _ base.entity_id (rw same (fresh s v)) in
    rw (get-append_entity i base (append_code (new_code base) (next_entity_id s).1), nothing, same)
      refl

Later-entered :
    (base : EntityRecord) (s : EntityStore)
    → IsValid s
    → base.entity_id ≡ s.next_id
    → Later s (entered base s)
unfolding append_entity append_code
Later-entered base s v same = record {
  valid = record {
    histories = λ i rows h. elim (Bool-cases (nat_eq.beq s.next_id i)) [
      | inr f ↦
          let (below, old) = v.histories i rows (ground (arith, get-entered i base s v same)) in
          (ground arith, old)
      | inl t ↦
          let one : base ∷ [] ≡ rows = ground (arith, get-entered i base s v same) in
          (
            ground arith,
            (
              base.entity_type,
              rw (← one) (record {
                some_row = λ e. absurd (ground arith);
                own = ((ground arith, refl), tt);
                ascending = (tt, tt);
              }),
            ),
          )
    ];
    codes =
        All-append _ s.codes (new_code base)
          (All-map _ _ (λ entry k. keep entry.entity_id k) s.codes v.codes)
          (ground (arith, get-entered base.entity_id base s v same));
    relations =
        All-map _ _ (λ row (k, l). (keep row.entity_id k, keep row.related_id l)) s.relations
          v.relations;
    external_ids = All-map _ _ (λ row k. keep row.entity_id k) s.external_ids v.external_ids;
  };
  known = keep;
  belongs = λ other o.
      let stored = o.stored in
      let none_yet = fresh s v in
      record {
        rows = o.rows;
        stored = ground (arith, get-entered other.entity_id base s v same);
        kind = o.kind;
      };
}
  where
    keep : (i : ℕ) → Known s i → Known (entered base s) i
    keep i k = let none_yet = fresh s v in ground (arith, get-entered i base s v same)

pub Later-create :
    (r : Registration) (clock : DateTime) (s : EntityStore)
    → IsValid s
    → Later s (create r clock s).1
unfolding create
Later-create r clock s v = elim (Outcome-cases (facets_of r)) [
  | inr (e, h) ↦ rw (h, create) (Later-refl s v)
  | inl (f, h) ↦ rw (h, create) (Later-entered (new_entity s.next_id f r clock) s v refl)
]

pub create_failed :
    (r : Registration) (clock : DateTime) (s : EntityStore) (e : Error)
    → (create r clock s).0 ≡ raise e
    → (create r clock s).1 ≡ s
unfolding create
create_failed r clock s e h = elim (Outcome-cases (facets_of r)) [
  | inr (x, k) ↦ rw (k, create) refl
  | inl (f, k) ↦ cc (rw (k, create) at h)
]
