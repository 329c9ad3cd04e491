-- ===== src/Runtime/Sql/Statements.antt =====
-- The table of runs as its users see it: what the statements of `SqlMetaRepository` ask of the
-- database, and what it answers by the documentation of SQL. The order of rows without an ORDER BY is
-- open, so a state is known by the rows that it holds.
use fin_data_platform.Prelude.{
  ℕ, ◌+◌, ◌≡◌, Bool, true, false, ◌&&◌, ◌||◌, ◌⊎◌, Option, none, some, List, any, ltb, leb, nat_beq,
  if◌then◌else◌,
}
use fin_data_platform.Outcome.{Outcome, ok}
use fin_data_platform.Runtime.Models.{JobRun}

-- ORDER BY two columns
abbrev pub in_order : (JobRun → ℕ) → (JobRun → ℕ) → JobRun → JobRun → Bool
in_order major minor a b =
    ltb (major a) (major b) || (nat_beq (major a) (major b) && leb (minor a) (minor b))

pub record Table (State : Type 0) : Type 1 where
  -- SELECT ... WHERE
  pub select : (JobRun → Bool) → State → List JobRun
  -- SELECT ... WHERE ... ORDER BY two columns LIMIT 1
  pub first : (JobRun → ℕ) → (JobRun → ℕ) → (JobRun → Bool) → State → Option JobRun
  -- `one_or_none` on SELECT ... WHERE
  pub one : (JobRun → Bool) → State → Outcome (Option JobRun)
  -- UPDATE ... WHERE ... SET
  pub update : (JobRun → Bool) → (JobRun → JobRun) → State → State
  -- INSERT ... RETURNING run_id, where the column counts up
  pub insert : (ℕ → JobRun) → State → ℕ × State

pub record Laws {State : Type 0} (t : Table State) : Type 1 where
  pub Holds : State → JobRun → Type 0
  pub next : State → ℕ
  pub select_found :
      (p q : JobRun → Bool) (s : State)
      → any q (t.select p s) ≡ true
      → (row : JobRun) × Holds s row × (p row ≡ true) × (q row ≡ true)
  pub select_held :
      (p q : JobRun → Bool) (s : State) (row : JobRun)
      → Holds s row
      → p row ≡ true
      → q row ≡ true
      → any q (t.select p s) ≡ true
  pub first_some :
      (major minor : JobRun → ℕ) (p : JobRun → Bool) (s : State) (row : JobRun)
      → t.first major minor p s ≡ some row
      → Holds s row
        × (p row ≡ true)
        × ((other : JobRun)
            → Holds s other
            → p other ≡ true
            → in_order major minor row other ≡ true)
  pub first_none :
      (major minor : JobRun → ℕ) (p : JobRun → Bool) (s : State) (row : JobRun)
      → t.first major minor p s ≡ none
      → Holds s row
      → p row ≡ false
  pub one_some :
      (p : JobRun → Bool) (s : State) (row : JobRun)
      → Holds s row
      → p row ≡ true
      → ((other : JobRun) → Holds s other → p other ≡ true → other ≡ row)
      → t.one p s ≡ ok (some row)
  pub one_none :
      (p : JobRun → Bool) (s : State)
      → ((row : JobRun) → Holds s row → p row ≡ false)
      → t.one p s ≡ ok none
  pub update_held :
      (p : JobRun → Bool) (f : JobRun → JobRun) (s : State) (row : JobRun)
      → Holds s row
      → Holds (t.update p f s) (if p row then f row else row)
  pub update_found :
      (p : JobRun → Bool) (f : JobRun → JobRun) (s : State) (row : JobRun)
      → Holds (t.update p f s) row
      → (old : JobRun) × Holds s old × (row ≡ (if p old then f old else old))
  pub update_next :
      (p : JobRun → Bool) (f : JobRun → JobRun) (s : State) → next (t.update p f s) ≡ next s
  pub insert_id : (make : ℕ → JobRun) (s : State) → (t.insert make s).0 ≡ next s
  pub insert_next : (make : ℕ → JobRun) (s : State) → next (t.insert make s).1 ≡ next s + 1
  pub insert_new : (make : ℕ → JobRun) (s : State) → Holds (t.insert make s).1 (make (next s))
  pub insert_held :
      (make : ℕ → JobRun) (s : State) (row : JobRun) → Holds s row → Holds (t.insert make s).1 row
  pub insert_found :
      (make : ℕ → JobRun) (s : State) (row : JobRun)
      → Holds (t.insert make s).1 row
      → Holds s row ⊎ (row ≡ make (next s))
