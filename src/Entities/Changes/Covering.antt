-- ===== src/Entities/Changes/Covering.antt =====
-- Which row of an entity is seen on a day after rows were appended.
use fin_data_platform.Prelude.{
  ℕ, ◌+◌, ◌≡◌, ◌≤◌, ◌<◌, refl, sym, ◌∙◌, ap, subst, String, Bool, true, false, Option, none, some,
  List, [], ◌∷◌, ◌++◌, arith, Bool-cases, inl, inr, nat_eq, filter, filter-append_one, All, All-map,
  All-filter, greatest, greatest-last, or_else,
}
use fin_data_platform.Runtime.Models.{DateTime, Date}
use fin_data_platform.Entities.Models.{EntityRecord, epoch, covers}
use fin_data_platform.Entities.Store.{EntityStore, append_entity, entity_rows}
use fin_data_platform.Entities.Rows.{
  is_newer, covers_row, covering_row, next_version, append_row, appended, entity, name_as_of,
}
use fin_data_platform.Entities.Changes.{rename, announced}
use fin_data_platform.Entities.Valid.{All-append, All-version_after, get-append_entity}

-- `row.valid_from or EPOCH`
abbrev pub start_of : EntityRecord → Date
start_of row = or_else row.valid_from epoch

pub entity_rows-append_entity :
    (i : ℕ) (row : EntityRecord) (s : EntityStore)
    → row.entity_id ≡ i
    → entity_rows i (append_entity row s) ≡ entity_rows i s ++ row ∷ []
unfolding entity_rows
entity_rows-append_entity i row s same =
    ground (arith, get-append_entity i row s, nat_eq.beq_iff row.entity_id i)

-- A row that does not cover the day is not seen on it.
pub covering-skip :
    (i : ℕ) (day : Date) (row : EntityRecord) (s : EntityStore)
    → row.entity_id ≡ i
    → covers_row day row ≡ false
    → covering_row i day (append_entity row s) ≡ covering_row i day s
unfolding covering_row
covering-skip i day row s same c =
    ap (λ rows. greatest is_newer (filter (covers_row day) rows))
      (entity_rows-append_entity i row s same)
    ∙ ap (greatest is_newer) (filter-append_one (covers_row day) (entity_rows i s) row ∙ rw c refl)

-- A row with the next version is seen on a day that it covers, unless some row that covers the day
-- starts after it.
pub covering-last :
    (i : ℕ) (day : Date) (row : EntityRecord) (s : EntityStore)
    → row.entity_id ≡ i
    → covers_row day row ≡ true
    → row.version ≡ next_version i s
    → All (λ x. start_of x ≤ start_of row) (filter (covers_row day) (entity_rows i s))
    → covering_row i day (append_entity row s) ≡ some row
unfolding covering_row next_version
covering-last i day row s same c version h =
    ap (λ rows. greatest is_newer (filter (covers_row day) rows))
      (entity_rows-append_entity i row s same)
    ∙ ap (greatest is_newer) (filter-append_one (covers_row day) (entity_rows i s) row ∙ rw c refl)
    ∙ greatest-last is_newer (filter (covers_row day) (entity_rows i s)) row (
        newer (entity_rows i s) _ h (
          subst (λ n. All (λ x. x.version < n) (entity_rows i s)) (sym version)
            (All-version_after (entity_rows i s))))
  where
    newer :
        (rows : List EntityRecord) (P : EntityRecord → Bool)
        → All (λ x. start_of x ≤ start_of row) (filter P rows)
        → All (λ x. x.version < row.version) rows
        → All (λ x. is_newer x row ≡ true) (filter P rows)
    newer [] P h k = tt
    newer (x ∷ xs) P h (kx, k) = elim (Bool-cases (P x)) [
      | inl t ↦ let (hx, rest) = (rw t at h) in rw t (ground arith, newer xs P rest k)
      | inr t ↦ rw t (newer xs P (rw t at h) k)
    ]

-- No row of the entity starts after the day.
abbrev pub Until : Date → ℕ → EntityStore → Type 0
Until start i s = All (λ x. start_of x ≤ start) (entity_rows i s)

-- A day that is not past the end, if there is one
abbrev pub IsWithin : Date → Option Date → Type 0
IsWithin day none = Unit
IsWithin day (some end) = day ≤ end

abbrev pub IsPast : Date → Option Date → Type 0
IsPast day none = ⊥
IsPast day (some end) = end < day

pub Until-append_entity :
    (start : Date) (i : ℕ) (row : EntityRecord) (s : EntityStore)
    → row.entity_id ≡ i
    → start_of row ≤ start
    → Until start i s
    → Until start i (append_entity row s)
Until-append_entity start i row s same le u =
    subst (All (λ x. start_of x ≤ start)) (sym (entity_rows-append_entity i row s same))
      (All-append _ (entity_rows i s) row u le)

pub selected-Until :
    (start : Date) (i : ℕ) (day : Date) (s : EntityStore)
    → Until start i s
    → All (λ x. start_of x ≤ start) (filter (covers_row day) (entity_rows i s))
selected-Until start i day s u =
    All-map _ _ (λ x (p, _). p) _
      (All-filter (λ x. start_of x ≤ start) (covers_row day) (entity_rows i s) u)

unfoldable pub name_of : Option EntityRecord → Option String
name_of row = elim row [ none ↦ none | some x ↦ some x.name ]

pub name_as_of-covering :
    (i : ℕ) (day : Date) (s : EntityStore)
    → name_as_of i (some day) s ≡ name_of (covering_row i day s)
unfolding name_as_of entity name_of
name_as_of-covering i day s = refl

-- The names after the writes that follow the closing of the covering row
module _ (i : ℕ) (current : EntityRecord) (name resume : String) (start : Date)
    (ann_date : Option String) (clock : DateTime) (s : EntityStore)
    (same : current.entity_id ≡ i) where
  unfoldable pub first : Option Date → EntityRecord
  first end = appended current none (some name) (some start) end (announced ann_date) clock s

  unfoldable pub second : Date → EntityRecord
  unfolding first
  second end =
      appended current none (some resume) (some (end + 1)) none none clock
        (append_entity (first (some end)) s)

  pub renamed-during :
      (end : Option Date) (day : Date)
      → Until start i s
      → start ≤ day
      → IsWithin day end
      → name_as_of i (some day) (rename current name resume start end ann_date clock s) ≡ some name
  unfolding append_row first second name_of covers
  renamed-during none day u le w =
      name_as_of-covering i day _
      ∙ ap name_of (
          covering-last i day (first none) s same (ground arith) (ap (λ j. next_version j s) same)
            (selected-Until start i day s u))
  renamed-during (some end) day u le w =
      name_as_of-covering i day _
      ∙ ap name_of (
          covering-skip i day (second end) (append_entity (first (some end)) s) same (ground arith)
          ∙ covering-last i day (first (some end)) s same (ground arith)
              (ap (λ j. next_version j s) same) (selected-Until start i day s u))

  pub renamed-before :
      (end : Option Date) (day : Date)
      → day < start
      → IsWithin start end
      → name_as_of i (some day) (rename current name resume start end ann_date clock s)
        ≡ name_as_of i (some day) s
  unfolding append_row first second covers
  renamed-before none day lt w =
      name_as_of-covering i day _
      ∙ ap name_of (covering-skip i day (first none) s same (ground arith))
      ∙ sym (name_as_of-covering i day s)
  renamed-before (some end) day lt w =
      name_as_of-covering i day _
      ∙ ap name_of (
          covering-skip i day (second end) (append_entity (first (some end)) s) same (ground arith)
          ∙ covering-skip i day (first (some end)) s same (ground arith))
      ∙ sym (name_as_of-covering i day s)

  pub renamed-after :
      (end : Option Date) (day : Date)
      → Until start i s
      → IsWithin start end
      → IsPast day end
      → name_as_of i (some day) (rename current name resume start end ann_date clock s)
        ≡ some resume
  unfolding append_row first second name_of covers
  renamed-after none day u le past = elim past [ ]
  renamed-after (some end) day u le lt =
      name_as_of-covering i day _
      ∙ ap name_of (
          covering-last i day (second end) (append_entity (first (some end)) s) same (ground arith)
            (ap (λ j. next_version j (append_entity (first (some end)) s)) same)
            (selected-Until (end + 1) i day _ (
              Until-append_entity (end + 1) i (first (some end)) s same (omega arith)
                (All-map _ _ (λ x p. omega arith) _ u))))
