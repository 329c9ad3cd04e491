-- ===== src/Entities/Codes/Latest.antt =====
-- What `resolve` finds on no particular day.
use fin_data_platform.Prelude.{
  ℕ, ◌≡◌, refl, sym, ◌∙◌, ap, String, Bool, true, false, Option, none, some, List, [], ◌∷◌, arith,
  Bool-cases, Option-cases, inl, inr, nat_eq, string_eq, pair_eq, option_eq, ◌==◌, filter, head?,
  any, any_head, any-sorted, sorted, filter-append_one, ltb,
}
use fin_data_platform.Dict.{Dict, get, put, values}
use fin_data_platform.Entities.Models.{CodeHistoryRecord}
use fin_data_platform.Entities.Store.{EntityStore, append_code, find_by_code}
use fin_data_platform.Entities.Codes.{
  EntryKey, entry_key, keep_latest, latest_entries, is_earlier_listed, is_valid_on, resolve,
}

-- The entries that `resolve` looks through
abbrev pub Latest : Type 0
Latest = Dict EntryKey CodeHistoryRecord

-- Whether there is any value
abbrev pub is_full : Latest → Bool
is_full m = any (λ _. true) (values m)

pub put-is_full : (k : EntryKey) (c : CodeHistoryRecord) (m : Latest) → is_full (put k c m) ≡ true
unfolding put
put-is_full k c [] = refl
put-is_full k c ((j, d) ∷ m) = elim (Bool-cases (j == k)) [ inl t ↦ rw t refl | inr t ↦ rw t refl ]

pub stored-is_full :
    (k : EntryKey) (c : CodeHistoryRecord) (m : Latest) → get k m ≡ some c → is_full m ≡ true
unfolding get
stored-is_full k c [] h = absurd (ground arith)
stored-is_full k c (entry ∷ m) h = refl

pub keep_latest-is_full : (c : CodeHistoryRecord) (m : Latest) → is_full (keep_latest c m) ≡ true
unfolding get
keep_latest-is_full c m = elim (Option-cases (get (entry_key c) m)) [
  | inl h ↦ rw (h, keep_latest) (put-is_full (entry_key c) c m)
  | inr (old, h) ↦ elim (Bool-cases (ltb old.version c.version)) [
    | inl t ↦ rw (h, keep_latest) (rw t (put-is_full (entry_key c) c m))
    | inr t ↦ rw (h, keep_latest) (rw t (stored-is_full (entry_key c) old m h))
  ]
]

pub latest_entries-is_full :
    (entries : List CodeHistoryRecord) (m : Latest)
    → is_full m ≡ true
    → is_full (latest_entries entries m) ≡ true
unfolding latest_entries
latest_entries-is_full [] m h = h
latest_entries-is_full (c ∷ entries) m h =
    latest_entries-is_full entries (keep_latest c m) (keep_latest-is_full c m)

filter_all {ℓ} : {A : Type ℓ} (xs : List A) → filter (λ _. true) xs ≡ xs
filter_all [] = refl
filter_all (x ∷ xs) = ap (λ ys. x ∷ ys) (filter_all xs)

-- What `resolve` does on no particular day, on the entries of the code
abbrev pub first_listed : List CodeHistoryRecord → Option CodeHistoryRecord
first_listed entries =
    head?
      (filter (is_valid_on none) (sorted is_earlier_listed (values (latest_entries entries []))))

-- Only a code without entries does not resolve.
pub first_listed-none :
    (entries : List CodeHistoryRecord) → first_listed entries ≡ none → entries ≡ []
unfolding latest_entries
first_listed-none [] h = refl
first_listed-none (c ∷ entries) h =
    let listed = sorted is_earlier_listed (values (latest_entries (c ∷ entries) [])) in
    let empty : any (λ _. true) listed ≡ false =
      any_head (λ _. true) listed (ap head? (sym (filter_all listed)) ∙ h) in
    let full : any (λ _. true) listed ≡ true =
      any-sorted is_earlier_listed (λ _. true) (values (latest_entries (c ∷ entries) []))
      ∙ latest_entries-is_full entries (keep_latest c []) (keep_latest-is_full c []) in
    cc

pub find_by_code-unresolved :
    (code : String) (s : EntityStore) → resolve code none s ≡ none → find_by_code code s ≡ []
unfolding resolve
find_by_code-unresolved code s h = elim (Option-cases (first_listed (find_by_code code s))) [
  | inl e ↦ first_listed-none (find_by_code code s) e
  | inr (entry, e) ↦ cc (rw (e, resolve) at h)
]

-- A code with one entry leads to the entity of the entry.
pub resolve-single :
    (code : String) (s : EntityStore) (c : CodeHistoryRecord)
    → find_by_code code s ≡ c ∷ []
    → resolve code none s ≡ some c.entity_id
unfolding resolve latest_entries get put sorted
resolve-single code s c h = rw (h, resolve) refl

pub find_by_code-append_code :
    (code : String) (c : CodeHistoryRecord) (s : EntityStore)
    → c.code ≡ code
    → find_by_code code s ≡ []
    → find_by_code code (append_code c s) ≡ c ∷ []
unfolding find_by_code append_code
find_by_code-append_code code c s same h =
    rw
      (
        filter-append_one (λ item. item.code == code) s.codes c,
        (string_eq.beq_iff c.code code).1 same,
        h,
      )
      refl

pub resolve-codes :
    (code : String) (s s' : EntityStore)
    → s'.codes ≡ s.codes
    → resolve code none s' ≡ resolve code none s
unfolding resolve find_by_code
resolve-codes code s s' h = ap (λ codes. looked_up (filter (λ item. item.code == code) codes)) h
  where
    looked_up : List CodeHistoryRecord → Option ℕ
    looked_up entries = elim (first_listed entries) [
      | none ↦ none
      | some entry ↦ some entry.entity_id
    ]
