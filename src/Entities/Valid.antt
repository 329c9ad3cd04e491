-- ===== src/Entities/Valid.antt =====
-- The invariant of the registry's store, and what an appended row does to it.
pub mod Current
pub mod Writes
pub mod Classified
pub mod Classes
pub mod ClassCalls
pub mod Links
pub mod Changes
pub mod Creation
pub mod Refreshment
use fin_data_platform.Prelude.{
  ℕ, ◌+◌, ◌<◌, ◌≤◌, ◌≡◌, refl, sym, ap, ◌∙◌, subst, String, Bool, true, false, Option, none, some,
  List, [], ◌∷◌, ◌++◌, arith, All, All-map, All-filter, beq_refl, Bool-cases, Option-cases, inl,
  inr, Eq, nat_eq, or_else, greatest, All-greatest, filter, max, if◌then◌else◌, some_injective,
}
use fin_data_platform.Dict.{get, put, has}
use fin_data_platform.Dict.Laws.{get-put}
use fin_data_platform.Outcome.{ok, raise}
use fin_data_platform.Entities.Models.{
  EntityRecord, CodeHistoryRecord, RelationRecord, ExternalIdRecord,
}
use fin_data_platform.Entities.Store.{EntityStore, entity_rows, append_entity}
use fin_data_platform.Entities.Rows.{version_after, next_version}

-- Every later row has a larger version.
abbrev pub Ascending : List EntityRecord → Type 0
Ascending [] = Unit
Ascending (row ∷ rows) = All (λ later. row.version < later.version) rows × Ascending rows

abbrev pub IsEmpty : List EntityRecord → Type 0
IsEmpty rows = rows ≡ []

-- The rows of one entity: there are some, all are its own and of one type, with rising versions.
pub record IsHistory (entity_id : ℕ) (kind : String) (rows : List EntityRecord) : Type 0 where
  pub some_row : ¬ IsEmpty rows
  pub own : All (λ row. (row.entity_id ≡ entity_id) × (row.entity_type ≡ kind)) rows
  pub ascending : Ascending rows

-- An entity that has rows
abbrev pub Known : EntityStore → ℕ → Type 0
Known s entity_id = has entity_id s.rows ≡ true

-- Every stored entity has a history and a number below the next one; codes, relations and external
-- identifiers name stored entities.
pub record IsValid (s : EntityStore) : Type 0 where
  pub histories :
      (i : ℕ) (rows : List EntityRecord)
      → get i s.rows ≡ some rows
      → (i < s.next_id) × ((kind : String) × IsHistory i kind rows)
  pub codes : All (λ entry. Known s entry.entity_id) s.codes
  pub relations : All (λ row. Known s row.entity_id × Known s row.related_id) s.relations
  pub external_ids : All (λ row. Known s row.entity_id) s.external_ids

-- A row of a stored entity: all rows of the entity have its number and its type.
pub record Belongs (s : EntityStore) (row : EntityRecord) : Type 0 where
  pub rows : List EntityRecord
  pub stored : get row.entity_id s.rows ≡ some rows
  pub kind : All (λ other. other.entity_type ≡ row.entity_type) rows

pub All-append {ℓ κ} :
    {A : Type ℓ} (P : A → Type κ) (xs : List A) (x : A) → All P xs → P x → All P (xs ++ x ∷ [])
All-append P [] x h p = (p, tt)
All-append P (y ∷ ys) x (py, h) p = (py, All-append P ys x h p)

-- The version after some rows exceeds theirs.
pub All-version_after :
    (rows : List EntityRecord) → All (λ row. row.version < version_after rows) rows
unfolding version_after
All-version_after [] = tt
All-version_after (row ∷ rows) = (
  ground arith,
  All-map (λ other. other.version < version_after rows) _ (λ other h. ground arith) rows
      (All-version_after rows),
)

Ascending-append :
    (rows : List EntityRecord) (row : EntityRecord)
    → Ascending rows
    → All (λ other. other.version < row.version) rows
    → Ascending (rows ++ row ∷ [])
Ascending-append [] row h k = (tt, tt)
Ascending-append (x ∷ xs) row (hx, h) (kx, k) =
    (All-append (λ later. x.version < later.version) xs row hx kx, Ascending-append xs row h k)

append-some_row : (rows : List EntityRecord) (row : EntityRecord) → ¬ IsEmpty (rows ++ row ∷ [])
append-some_row [] row e = absurd (ground arith)
append-some_row (x ∷ xs) row e = absurd (ground arith)

pub get-append_entity :
    (j : ℕ) (row : EntityRecord) (s : EntityStore)
    → get j (append_entity row s).rows ≡ (
        if nat_eq.beq row.entity_id j
        then some (entity_rows row.entity_id s ++ row ∷ [])
        else get j s.rows)
unfolding append_entity
get-append_entity j row s = get-put row.entity_id j (entity_rows row.entity_id s ++ row ∷ []) s.rows

-- What was known stays known.
pub Known-append_entity :
    (row : EntityRecord) (s : EntityStore) (i : ℕ) → Known s i → Known (append_entity row s) i
Known-append_entity row s i h = ground (arith, get-append_entity i row s)

pub Known-own : (row : EntityRecord) (s : EntityStore) → Known (append_entity row s) row.entity_id
Known-own row s = ground (arith, get-append_entity row.entity_id row s)

pub entity_rows-stored :
    (i : ℕ) (rows : List EntityRecord) (s : EntityStore)
    → get i s.rows ≡ some rows
    → entity_rows i s ≡ rows
unfolding entity_rows
entity_rows-stored i rows s h = rw h refl

pub get-append_own :
    (row : EntityRecord) (s : EntityStore) (rows : List EntityRecord)
    → get row.entity_id s.rows ≡ some rows
    → get row.entity_id (append_entity row s).rows ≡ some (rows ++ row ∷ [])
get-append_own row s rows h =
    let listed : entity_rows row.entity_id s ≡ rows = entity_rows-stored row.entity_id rows s h in
    rw (get-append_entity row.entity_id row s, beq_refl row.entity_id, listed) refl

IsHistory-append :
    (i : ℕ) (kind : String) (rows : List EntityRecord) (row : EntityRecord)
    → IsHistory i kind rows
    → row.entity_id ≡ i
    → row.entity_type ≡ kind
    → row.version ≡ version_after rows
    → IsHistory i kind (rows ++ row ∷ [])
IsHistory-append i kind rows row h same typed version = record {
  some_row = append-some_row rows row;
  own = All-append _ rows row h.own (same, typed);
  ascending =
      Ascending-append rows row h.ascending
        (subst (λ n. All (λ other. other.version < n) rows) (sym version) (All-version_after rows));
}

-- All rows of a history have one type, so its type is that of any of them.
pub kind_of :
    (i : ℕ) (k l : String) (rows : List EntityRecord)
    → IsHistory i k rows
    → All (λ other. other.entity_type ≡ l) rows
    → k ≡ l
kind_of i k l [] h a = absurd (h.some_row refl)
kind_of i k l (x ∷ xs) h (ax, a) = sym h.own.0.1 ∙ ax

-- A row with the next version, of the type of its entity, keeps the store valid.
pub append_entity-IsValid :
    (base row : EntityRecord) (s : EntityStore)
    → IsValid s
    → Belongs s base
    → row.entity_id ≡ base.entity_id
    → row.entity_type ≡ base.entity_type
    → row.version ≡ next_version row.entity_id s
    → IsValid (append_entity row s)
unfolding append_entity next_version
append_entity-IsValid base row s v b same kind version = record {
  histories = λ i rows h. elim (Bool-cases (nat_eq.beq row.entity_id i)) [
    | inr f ↦ v.histories i rows (ground (arith, get-append_entity i row s))
    | inl t ↦
        let here : row.entity_id ≡ i = ground arith in
        let stored : get i s.rows ≡ some b.rows = rw (← here, same) b.stored in
        let listed : entity_rows row.entity_id s ≡ b.rows =
          rw here (entity_rows-stored i b.rows s stored) in
        let new : b.rows ++ row ∷ [] ≡ rows =
          some_injective
            (ap (λ x. some (x ++ row ∷ [])) (sym listed) ∙ now row.entity_id i t s row h refl) in
        let (below, (k, old)) = v.histories i b.rows stored in
        (
          below,
          (
            k,
            subst (IsHistory i k) new (
                IsHistory-append i k b.rows row old here
                  (kind ∙ sym (kind_of i k base.entity_type b.rows old b.kind))
                  (version ∙ ap version_after listed)),
          ),
        )
  ];
  codes = All-map _ _ (λ entry k. Known-append_entity row s entry.entity_id k) s.codes v.codes;
  relations =
      All-map _ _
        (λ entry (k, l). (
          Known-append_entity row s entry.entity_id k,
          Known-append_entity row s entry.related_id l,
        ))
        s.relations v.relations;
  external_ids =
      All-map _ _ (λ entry k. Known-append_entity row s entry.entity_id k) s.external_ids
        v.external_ids;
}
  where
    now :
        (j i : ℕ)
        → nat_eq.beq j i ≡ true
        → (s : EntityStore) (row : EntityRecord) {rows : List EntityRecord}
        → get i (append_entity row s).rows ≡ some rows
        → row.entity_id ≡ j
        → some (entity_rows row.entity_id s ++ row ∷ []) ≡ some rows
    now j i t s row h e = ground (arith, get-append_entity i row s)
