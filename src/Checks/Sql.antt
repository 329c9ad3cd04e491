-- ===== src/Checks/Sql.antt =====
-- A table of runs as a list, which obeys the laws of the statements, and the theorems on
-- `SqlMetaRepository` of src/fin_data_platform/runtime/repository.py at it.
use fin_data_platform.Prelude.{
  ℕ, ◌+◌, ◌≡◌, refl, sym, ap, Bool, true, false, not, ◌&&◌, ◌⊎◌, inl, inr, none, some, List, [],
  ◌∷◌, ◌++◌, arith, any, map, filter, head?, sorted, insert_sorted, any_head, any-sorted,
  head-sorted-le, All, All-head, All-sorted, All-filter, if◌then◌else◌, Bool-cases, nat_eq,
  string_eq,
}
use fin_data_platform.Outcome.{ok}
use fin_data_platform.Runtime.Models.{JobRun, JobIntent, is_running}
use fin_data_platform.Runtime.Repository.{init, new_run, scope_of}
use fin_data_platform.Runtime.Repository.Invariant.{init-IsValid}
use fin_data_platform.Runtime.Sql.Statements.{in_order, Table, Laws}
use fin_data_platform.Runtime.Sql.Refines.{Agrees, Refines}
use fin_data_platform.Runtime.Sql.Moves.{
  Move, create_move, claim_move, memory_move, sql_move, sql_move-Refines, sql_moves,
  one_running_row,
}
use fin_data_platform.Dict.{get}
use fin_data_platform.Runtime.Keys.{is_versioned, is_given, validate_version_dimension, job_key}
use fin_data_platform.Runtime.Sql
use fin_data_platform.Checks.Runtime.{digest, sync, busy}

abbrev Rows : Type 0
Rows = ℕ × List JobRun

abbrev In : JobRun → List JobRun → Type 0
In row [] = ⊥
In row (x ∷ xs) = (x ≡ row) ⊎ In row xs

abbrev rows_table : Table Rows
rows_table = record {
  select = λ p s. filter p s.1;
  first = λ major minor p s. head? (sorted (in_order major minor) (filter p s.1));
  one = λ p s. ok (head? (filter p s.1));
  update = λ p f s. (s.0, map (λ row. if p row then f row else row) s.1);
  insert = λ make s. (s.0, (s.0 + 1, s.1 ++ make s.0 ∷ []));
}

All-rows :
    (P : JobRun → Type 0) (xs : List JobRun) → ((row : JobRun) → In row xs → P row) → All P xs
All-rows P [] h = tt
All-rows P (x ∷ xs) h = (h x (inl refl), All-rows P xs (λ row i. h row (inr i)))

any_found :
    (p q : JobRun → Bool) (xs : List JobRun) (row : JobRun)
    → In row xs
    → p row ≡ true
    → q row ≡ true
    → any q (filter p xs) ≡ true
any_found p q [] row i pr qr = elim i [ ]
any_found p q (x ∷ xs) row i pr qr = elim i [
  | inl same ↦ rw (same, pr) (rw qr refl)
  | inr later ↦ ground (arith, any_found p q xs row later pr qr)
]

row_of_any :
    (p q : JobRun → Bool) (xs : List JobRun)
    → any q (filter p xs) ≡ true
    → (row : JobRun) × In row xs × (p row ≡ true) × (q row ≡ true)
row_of_any p q [] h = absurd (ground arith)
row_of_any p q (x ∷ xs) h = elim (Bool-cases (p x)) [
  | inr t ↦ let (row, i, pr, qr) = row_of_any p q xs (rw t at h) in (row, inr i, pr, qr)
  | inl t ↦ elim (Bool-cases (q x)) [
    | inl u ↦ (x, inl refl, t, u)
    | inr u ↦ let (row, i, pr, qr) = row_of_any p q xs (rw (t, u) at h) in (row, inr i, pr, qr)
  ]
]

head_found :
    (major minor : JobRun → ℕ) (p : JobRun → Bool) (xs : List JobRun) (row : JobRun)
    → head? (sorted (in_order major minor) (filter p xs)) ≡ some row
    → In row xs × (p row ≡ true)
head_found major minor p xs row e =
    All-head (λ r. In r xs × (p r ≡ true)) _ row e
      (All-sorted (in_order major minor) _ (filter p xs)
        (All-filter (λ r. In r xs) p xs (All-rows (λ r. In r xs) xs (λ r i. i))))

head-least :
    (major minor : JobRun → ℕ) (p : JobRun → Bool) (xs : List JobRun) (row other : JobRun)
    → head? (sorted (in_order major minor) (filter p xs)) ≡ some row
    → In other xs
    → p other ≡ true
    → in_order major minor row other ≡ true
head-least major minor p xs row other e i po = elim (Bool-cases (in_order major minor row other)) [
  | inl t ↦ t
  | inr t ↦ cc (
    head-sorted-le (in_order major minor) (λ a b h. ground arith) (λ a b c h k. ground arith)
        (λ a. ground arith) (filter p xs) row e,
    any_found p (λ y. not (in_order major minor row y)) xs other i po (rw t refl),
  )
]

head-none :
    (major minor : JobRun → ℕ) (p : JobRun → Bool) (xs : List JobRun) (row : JobRun)
    → head? (sorted (in_order major minor) (filter p xs)) ≡ none
    → In row xs
    → p row ≡ false
head-none major minor p xs row e i = elim (Bool-cases (p row)) [
  | inr t ↦ t
  | inl t ↦ cc (
    any_head p (sorted (in_order major minor) (filter p xs)) e,
    any-sorted (in_order major minor) p (filter p xs),
    any_found p p xs row i t t,
  )
]

head-filter :
    (p : JobRun → Bool) (xs : List JobRun) (row : JobRun)
    → In row xs
    → p row ≡ true
    → ((other : JobRun) → In other xs → p other ≡ true → other ≡ row)
    → head? (filter p xs) ≡ some row
head-filter p [] row i pr only = elim i [ ]
head-filter p (x ∷ xs) row i pr only = elim (Bool-cases (p x)) [
  | inl t ↦ rw t (ap some (only x (inl refl) t))
  | inr t ↦ elim i [
    | inl same ↦ cc (ap p same)
    | inr later ↦ rw t (head-filter p xs row later pr (λ other j. only other (inr j)))
  ]
]

nothing-filter :
    (p : JobRun → Bool) (xs : List JobRun)
    → ((row : JobRun) → In row xs → p row ≡ false)
    → head? (filter p xs) ≡ none
nothing-filter p [] h = refl
nothing-filter p (x ∷ xs) h = rw (h x (inl refl)) (nothing-filter p xs (λ row i. h row (inr i)))

map_kept :
    (g : JobRun → JobRun) (xs : List JobRun) (row : JobRun) → In row xs → In (g row) (map g xs)
map_kept g [] row i = i
map_kept g (x ∷ xs) row i = elim i [
  | inl same ↦ inl (ap g same)
  | inr later ↦ inr (map_kept g xs row later)
]

map_source :
    (g : JobRun → JobRun) (xs : List JobRun) (row : JobRun)
    → In row (map g xs)
    → (old : JobRun) × In old xs × (row ≡ g old)
map_source g [] row i = elim i [ ]
map_source g (x ∷ xs) row i = elim i [
  | inl same ↦ (x, inl refl, sym same)
  | inr later ↦ let (old, j, e) = map_source g xs row later in (old, inr j, e)
]

append_kept : (xs : List JobRun) (new row : JobRun) → In row xs → In row (xs ++ new ∷ [])
append_kept [] new row i = elim i [ ]
append_kept (x ∷ xs) new row i = elim i [
  | inl same ↦ inl same
  | inr later ↦ inr (append_kept xs new row later)
]

append_new : (xs : List JobRun) (new : JobRun) → In new (xs ++ new ∷ [])
append_new [] new = inl refl
append_new (x ∷ xs) new = inr (append_new xs new)

append_source :
    (xs : List JobRun) (new row : JobRun) → In row (xs ++ new ∷ []) → In row xs ⊎ (row ≡ new)
append_source [] new row i = elim i [ inl same ↦ inr (sym same) | inr later ↦ elim later [ ] ]
append_source (x ∷ xs) new row i = elim i [
  | inl same ↦ inl (inl same)
  | inr later ↦ elim (append_source xs new row later) [ inl j ↦ inl (inr j) | inr e ↦ inr e ]
]

rows_laws : Laws rows_table
rows_laws = record {
  Holds = λ s row. In row s.1;
  next = λ s. s.0;
  select_found = λ p q s h. row_of_any p q s.1 h;
  select_held = λ p q s row i pr qr. any_found p q s.1 row i pr qr;
  first_some = λ major minor p s row e.
      let (i, pr) = head_found major minor p s.1 row e in
      (i, pr, λ other j po. head-least major minor p s.1 row other e j po);
  first_none = λ major minor p s row e i. head-none major minor p s.1 row e i;
  one_some = λ p s row i pr only. ap ok (head-filter p s.1 row i pr only);
  one_none = λ p s h. ap ok (nothing-filter p s.1 h);
  update_held = λ p f s row i. map_kept (λ r. if p r then f r else r) s.1 row i;
  update_found = λ p f s row i. map_source (λ r. if p r then f r else r) s.1 row i;
  update_next = λ p f s. refl;
  insert_id = λ make s. refl;
  insert_next = λ make s. refl;
  insert_new = λ make s. append_new s.1 (make s.0);
  insert_held = λ make s row i. append_kept s.1 (make s.0) row i;
  insert_found = λ make s row i. append_source s.1 (make s.0) row i;
}

program : Unit {0}
unfolding rows_laws sorted insert_sorted is_versioned is_given validate_version_dimension job_key
    Sql.required Sql.read_back Sql.create_keyed Sql.create_run Sql.scope_busy Sql.take
    Sql.claim_next Sql.finish Sql.succeed sql_move sql_moves
program = tt

abbrev no_rows : Rows
no_rows = (1, [])

nothing : Refines rows_table rows_laws no_rows init
unfolding get rows_laws
nothing = record {
  held = λ i run h. absurd (ground arith);
  stored = λ run i. elim i [ ];
  next = refl;
}

-- A first creation answers with the queued run in both.
sql_move-Refines_example :
    Agrees
      (sql_move digest rows_table (create_move sync none 5) no_rows).0
      (memory_move digest (create_move sync none 5) init).0
    × Refines rows_table rows_laws
        (sql_move digest rows_table (create_move sync none 5) no_rows).1
        (memory_move digest (create_move sync none 5) init).1
sql_move-Refines_example =
    sql_move-Refines digest rows_table rows_laws (create_move sync none 5) no_rows init init-IsValid
      nothing

abbrev moves : List Move
moves = create_move sync none 5 ∷ claim_move "w-0" (some 6) 0 ∷ []

one_running_row_example : busy ≡ busy
unfolding program
one_running_row_example =
    one_running_row digest rows_table rows_laws moves no_rows busy busy (λ row i. elim i [ ]) refl
      (inl refl) (inl refl) refl refl refl refl

-- A second window of the same (dataset, scope)
abbrev next_window : JobIntent
next_window = record sync { job_id = "sync.bar.B"; window_start = some 12; window_end = some 14 }

abbrev two_rows : Rows
two_rows =
    sql_moves digest rows_table (create_move sync none 5 ∷ create_move next_window none 5 ∷ [])
      no_rows

-- Two claims whose halves overlap, as under READ COMMITTED with rows that the other claim has locked
-- skipped: the first selects run 1; the second, before the first commits, selects run 2; then both
-- update. Both runs of the one (dataset, scope) are running.
abbrev overlapped : Rows
overlapped = (Sql.take rows_table 2 "w-1" 7 (Sql.take rows_table 1 "w-0" 6 two_rows).1).1

first_choice :
    rows_table.first
      (λ run. run.priority)
      (λ run. run.run_id)
      (Sql.is_claimed_next rows_table 7 two_rows)
      two_rows
    ≡ some (new_run 1 "sync.bar.A" sync none 5)
unfolding program
first_choice = refl

second_choice :
    rows_table.first
      (λ run. run.priority)
      (λ run. run.run_id)
      (λ run. Sql.is_claimed_next rows_table 7 two_rows run && not (Sql.has_run_id 1 run))
      two_rows
    ≡ some (new_run 2 "sync.bar.B" next_window none 5)
unfolding program
second_choice = refl

both_running : map (λ run. is_running run.status) overlapped.1 ≡ true ∷ true ∷ []
unfolding program
both_running = refl

one_scope : map scope_of overlapped.1 ≡ ("bar", "A") ∷ ("bar", "A") ∷ []
unfolding program
one_scope = refl
