-- ===== src/Entities/Valid/Current.antt =====
-- The rows that `_current_row` and `_covering_row` find in a valid store.
use fin_data_platform.Prelude.{
  ℕ, ◌≡◌, refl, sym, ◌∙◌, String, none, some, List, [], ◌∷◌, ◌++◌, arith, All, All-map, All-filter,
  Option-cases, inl, inr, nat_eq, greatest, All-greatest, filter,
}
use fin_data_platform.Dict.{get}
use fin_data_platform.Outcome.{ok}
use fin_data_platform.Runtime.Models.{Date}
use fin_data_platform.Entities.Models.{EntityRecord}
use fin_data_platform.Entities.Store.{EntityStore, entity_rows, append_entity}
use fin_data_platform.Entities.Rows.{
  is_newer, is_open, open_or_all, current_row, covers_row, covering_row,
}
use fin_data_platform.Entities.Valid.{
  Known, IsValid, IsHistory, Belongs, All-append, get-append_own, entity_rows-stored,
}

-- A row of the entity, as its history has them
abbrev Own : ℕ → String → EntityRecord → Type 0
Own i kind row = (row.entity_id ≡ i) × (row.entity_type ≡ kind)

-- A row that stands among the stored ones
pub record Found (s : EntityStore) (i : ℕ) (row : EntityRecord) : Type 0 where
  pub same : row.entity_id ≡ i
  pub belongs : Belongs s row

Found-of :
    (s : EntityStore) (i : ℕ) (row : EntityRecord) (rows : List EntityRecord) (kind : String)
    → get i s.rows ≡ some rows
    → IsHistory i kind rows
    → Own i kind row
    → Found s i row
Found-of s i row rows kind h v (same, typed) = record {
  same = same;
  belongs = record {
    rows = rows;
    stored = rw same h;
    kind = All-map (Own i kind) _ (λ other (_, t). t ∙ sym typed) rows v.own;
  };
}

pub entity_rows-none : (i : ℕ) (s : EntityStore) → get i s.rows ≡ none → entity_rows i s ≡ []
unfolding entity_rows
entity_rows-none i s h = rw h refl

pub All-open_or_all {κ} :
    (P : EntityRecord → Type κ) (rows : List EntityRecord) → All P rows → All P (open_or_all rows)
All-open_or_all P rows h =
    go (filter is_open rows) (All-map _ P (λ row (p, _). p) _ (All-filter P is_open rows h))
  where
    go :
        (found : List EntityRecord)
        → All P found
        → All P (elim found [ [] ↦ rows | row ∷ rest ↦ row ∷ rest ])
    go [] k = h
    go (row ∷ rest) k = k

-- The chosen row of any selection of the entity's rows is found among them.
Found-greatest :
    (s : EntityStore) (i : ℕ) (row : EntityRecord) (choose : List EntityRecord → List EntityRecord)
    → ((kind : String) (rows : List EntityRecord)
        → All (Own i kind) rows
        → All (Own i kind) (choose rows))
    → choose [] ≡ []
    → IsValid s
    → greatest is_newer (choose (entity_rows i s)) ≡ some row
    → Found s i row
unfolding greatest
Found-greatest s i row choose keeps nothing v h = elim (Option-cases (get i s.rows)) [
  | inl e ↦ cc (rw (entity_rows-none i s e, nothing) at h)
  | inr (rows, e) ↦
      let (below, (kind, old)) = v.histories i rows e in
      Found-of s i row rows kind e old (
        All-greatest is_newer (Own i kind) (choose rows) row
          (rw (entity_rows-stored i rows s e) at h) (keeps kind rows old.own))
]

pub covering_row-Found :
    (s : EntityStore) (i : ℕ) (day : Date) (row : EntityRecord)
    → IsValid s
    → covering_row i day s ≡ some row
    → Found s i row
unfolding covering_row
covering_row-Found s i day row v h =
    Found-greatest s i row (filter (covers_row day))
      (λ kind rows k.
        All-map _ (Own i kind) (λ r (p, _). p) _ (All-filter (Own i kind) (covers_row day) rows k))
      refl v h

pub current-found :
    (s : EntityStore) (i : ℕ) (row : EntityRecord)
    → current_row i s ≡ ok row
    → greatest is_newer (open_or_all (entity_rows i s)) ≡ some row
unfolding current_row
current-found s i row h = elim (Option-cases (greatest is_newer (open_or_all (entity_rows i s)))) [
  | inl e ↦ cc (rw (e, current_row) at h)
  | inr (other, e) ↦ cc (rw (e, current_row) at h)
]

pub current_row-Found :
    (s : EntityStore) (i : ℕ) (row : EntityRecord)
    → IsValid s
    → current_row i s ≡ ok row
    → Found s i row
current_row-Found s i row v h =
    Found-greatest s i row open_or_all (λ kind rows k. All-open_or_all (Own i kind) rows k) refl v
      (current-found s i row h)

greatest-some :
    (rows : List EntityRecord)
    → ¬ (rows ≡ [])
    → (row : EntityRecord) × (greatest is_newer (open_or_all rows) ≡ some row)
unfolding greatest
greatest-some [] h = absurd (h refl)
greatest-some (x ∷ xs) h = go (filter is_open (x ∷ xs))
  where
    go :
        (found : List EntityRecord)
        → (row : EntityRecord) × (greatest is_newer
              (elim found [ [] ↦ x ∷ xs | row ∷ rest ↦ row ∷ rest ])
            ≡ some row)
    go [] = (_, refl)
    go (row ∷ rest) = (_, refl)

-- A known entity of a valid store has a current row.
pub current_row-Known :
    (s : EntityStore) (i : ℕ)
    → IsValid s
    → Known s i
    → (row : EntityRecord) × (current_row i s ≡ ok row)
unfolding current_row
current_row-Known s i v h = elim (Option-cases (get i s.rows)) [
  | inl e ↦ absurd (ground arith)
  | inr (rows, e) ↦
      let (below, (kind, old)) = v.histories i rows e in
      let (row, k) = greatest-some rows old.some_row in
      (row, rw (entity_rows-stored i rows s e, k, current_row) refl)
]

pub Known-Found : (s : EntityStore) (i : ℕ) (row : EntityRecord) → Found s i row → Known s i
Known-Found s i row f = let stored = f.belongs.stored in ground (arith, f.same)

-- A row of the entity still belongs to it after one more of its rows.
pub Belongs-append_entity :
    (s : EntityStore) (base row : EntityRecord)
    → Belongs s base
    → row.entity_id ≡ base.entity_id
    → row.entity_type ≡ base.entity_type
    → Belongs (append_entity row s) base
Belongs-append_entity s base row b same typed = record {
  rows = b.rows ++ row ∷ [];
  stored = rw (← same) (get-append_own row s b.rows (rw same b.stored));
  kind = All-append _ b.rows row b.kind typed;
}
