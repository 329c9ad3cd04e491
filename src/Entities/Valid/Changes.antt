-- ===== src/Entities/Valid/Changes.antt =====
-- Changes of names and codes, relations and external identifiers keep the store valid, and leave it as
-- it was when they raise.
use fin_data_platform.Prelude.{
  ℕ, ◌+◌, ◌-◌, ◌≡◌, refl, String, true, false, Option, none, some, List, [], ◌∷◌, arith, All,
  All-map, Bool-cases, Option-cases, inl, inr, nat_eq, string_eq, ◌==◌, filter, All-filter, subst,
}
use fin_data_platform.Dict.{has}
use fin_data_platform.Outcome.{Error, ok, raise, Outcome-cases}
use fin_data_platform.Runtime.Models.{DateTime, Date}
use fin_data_platform.Entities.Models.{EntityRecord, CodeHistoryRecord}
use fin_data_platform.Entities.Store.{EntityStore, code_history}
use fin_data_platform.Entities.Rows.{current_row, covering_row}
use fin_data_platform.Entities.Changes.{
  resume_name_of, close_covering, goes_past, rename, announced, add_name_change, close_codes,
  add_code_change,
}
use fin_data_platform.Entities.Valid.{Known, IsValid, Belongs}
use fin_data_platform.Entities.Valid.Current.{
  current_row-Found, covering_row-Found, current_row-Known, Known-Found,
}
use fin_data_platform.Entities.Valid.Writes.{
  Later, Later-refl, Later-trans, Later-close_row, Later-append_row, Later-append_code,
  Later-close_codes,
}

pub Later-close_covering :
    (i : ℕ) (previous : Option EntityRecord) (before : Date) (clock : DateTime) (s : EntityStore)
    → IsValid s
    → covering_row i before s ≡ previous
    → Later s (close_covering previous before clock s)
Later-close_covering i none before clock s v h = Later-refl s v
Later-close_covering i (some row) before clock s v h = elim (Bool-cases (goes_past before row)) [
  | inl t ↦
      rw t (Later-close_row row before clock s v (covering_row-Found s i before row v h).belongs)
  | inr t ↦ rw t (Later-refl s v)
]

Later-rename :
    (current : EntityRecord) (name resume_name : String) (start : Date) (end : Option Date)
    (ann_date : Option String) (clock : DateTime) (s : EntityStore)
    → IsValid s
    → Belongs s current
    → Later s (rename current name resume_name start end ann_date clock s)
Later-rename current name resume_name start none ann_date clock s v b =
    Later-append_row current none (some name) (some start) none (announced ann_date) clock s v b
Later-rename current name resume_name start (some day) ann_date clock s v b =
    let first =
      Later-append_row current none (some name) (some start) (some day) (announced ann_date) clock s
        v b in
    Later-trans _ _ _ first (
      Later-append_row current none (some resume_name) (some (day + 1)) none none clock _
        first.valid (first.belongs current b))

pub Later-add_name_change :
    (i : ℕ) (name : String) (start end : Option Date) (ann_date : Option String) (clock : DateTime)
    (s : EntityStore)
    → IsValid s
    → Later s (add_name_change i name start end ann_date clock s).1
unfolding add_name_change
Later-add_name_change i name none end ann_date clock s v = Later-refl s v
Later-add_name_change i name (some start) end ann_date clock s v =
    elim (Outcome-cases (resume_name_of (covering_row i (start - 1) s) i s)) [
      | inr (e, h) ↦ rw (h, add_name_change) (Later-refl s v)
      | inl (resume, h) ↦
          let first =
            Later-close_covering i (covering_row i (start - 1) s) (start - 1) clock s v refl in
          elim (Outcome-cases
            (current_row i (close_covering (covering_row i (start - 1) s) (start - 1) clock s))) [
              | inr (e, k) ↦ rw (h, k, add_name_change) first
              | inl (current, k) ↦
                  rw (h, k, add_name_change)
                    (Later-trans _ _ _ first (
                      Later-rename current name resume start end ann_date clock _ first.valid
                        (current_row-Found _ i current first.valid k).belongs))
            ]
    ]

-- The name to resume is only found for a known entity.
resume_name_of-Known :
    (i : ℕ) (day : Date) (s : EntityStore) (name : String)
    → IsValid s
    → resume_name_of (covering_row i day s) i s ≡ ok name
    → Known s i
unfolding resume_name_of
resume_name_of-Known i day s name v h = elim (Option-cases (covering_row i day s)) [
  | inr (row, e) ↦ Known-Found s i row (covering_row-Found s i day row v e)
  | inl e ↦ elim (Outcome-cases (current_row i s)) [
    | inl (row, k) ↦ Known-Found s i row (current_row-Found s i row v k)
    | inr (x, k) ↦ cc (rw (e, k, resume_name_of) at h)
  ]
]

pub add_name_change_failed :
    (i : ℕ) (name : String) (start end : Option Date) (ann_date : Option String) (clock : DateTime)
    (s : EntityStore) (e : Error)
    → IsValid s
    → (add_name_change i name start end ann_date clock s).0 ≡ raise e
    → (add_name_change i name start end ann_date clock s).1 ≡ s
unfolding add_name_change
add_name_change_failed i name none end ann_date clock s e v h = refl
add_name_change_failed i name (some start) end ann_date clock s e v h =
    elim (Outcome-cases (resume_name_of (covering_row i (start - 1) s) i s)) [
      | inr (x, k) ↦ rw (k, add_name_change) refl
      | inl (resume, k) ↦
          let first =
            Later-close_covering i (covering_row i (start - 1) s) (start - 1) clock s v refl in
          let (current, l) =
            current_row-Known _ i first.valid
              (first.known i (resume_name_of-Known i (start - 1) s resume v k)) in
          cc (rw (k, l, add_name_change) at h)
    ]

own_entries :
    (i : ℕ) (s : EntityStore)
    → IsValid s
    → All (λ entry. Known s entry.entity_id) (code_history i s)
unfolding code_history
own_entries i s v =
    All-map _ _ (λ entry (k, _). k) _
      (All-filter (λ entry. Known s entry.entity_id) (λ item. item.entity_id == i) s.codes v.codes)

pub Later-add_code_change :
    (i : ℕ) (code : String) (start : Option Date) (clock : DateTime) (s : EntityStore)
    → IsValid s
    → Later s (add_code_change i code start clock s).1
unfolding add_code_change
Later-add_code_change i code none clock s v = Later-refl s v
Later-add_code_change i code (some start) clock s v =
    let first = Later-close_codes (code_history i s) (start - 1) clock s v (own_entries i s v) in
    elim (Outcome-cases (current_row i (close_codes (code_history i s) (start - 1) clock s))) [
      | inr (e, k) ↦ rw (k, add_code_change) first
      | inl (current, k) ↦
          let found = current_row-Found _ i current first.valid k in
          let second = Later-close_row current (start - 1) clock _ first.valid found.belongs in
          let third =
            Later-append_code
              (record {
                entity_id = i;
                code = code;
                valid_from = some start;
                valid_to = none;
                knowledge_time = some clock;
                version = 1;
              })
              _ second.valid (second.known i (Known-Found _ i current found)) in
          let fourth =
            Later-append_row current (some code) none (some start) none none clock _ third.valid
              (third.belongs current (second.belongs current found.belongs)) in
          rw (k, add_code_change)
            (Later-trans _ _ _ (Later-trans _ _ _ first second) (Later-trans _ _ _ third fourth))
    ]

-- An entity without rows has no codes to close.
code_history-unknown :
    (i : ℕ) (s : EntityStore) → IsValid s → has i s.rows ≡ false → code_history i s ≡ []
unfolding code_history
code_history-unknown i s v h = go s.codes v.codes
  where
    go :
        (entries : List CodeHistoryRecord)
        → All (λ entry. Known s entry.entity_id) entries
        → filter (λ item. item.entity_id == i) entries ≡ []
    go [] k = refl
    go (entry ∷ entries) (k, ks) = elim (Bool-cases (entry.entity_id == i)) [
      | inl t ↦
          let same : entry.entity_id ≡ i = ground arith in
          absurd (ground (arith, subst (λ j. has j s.rows ≡ true) same k))
      | inr t ↦ rw t (go entries ks)
    ]

pub add_code_change_failed :
    (i : ℕ) (code : String) (start : Option Date) (clock : DateTime) (s : EntityStore) (e : Error)
    → IsValid s
    → (add_code_change i code start clock s).0 ≡ raise e
    → (add_code_change i code start clock s).1 ≡ s
unfolding add_code_change close_codes
add_code_change_failed i code none clock s e v h = refl
add_code_change_failed i code (some start) clock s e v h =
    let first = Later-close_codes (code_history i s) (start - 1) clock s v (own_entries i s v) in
    elim (Outcome-cases (current_row i (close_codes (code_history i s) (start - 1) clock s))) [
      | inl (current, k) ↦ cc (rw (k, add_code_change) at h)
      | inr (x, k) ↦ elim (Bool-cases (has i s.rows)) [
        | inl t ↦
            let (current, l) = current_row-Known _ i first.valid (first.known i t) in cc (rw l at k)
        | inr t ↦ rw (k, add_code_change) (rw (code_history-unknown i s v t) refl)
      ]
    ]
