-- ===== src/Runtime/Repository/Invariant.antt =====
-- What holds of the repository between two calls, and what a write to its runs must respect.
pub mod Writes
use fin_data_platform.Prelude.{
  ℕ, suc, ◌+◌, ◌≤◌, ◌<◌, ◌≡◌, refl, String, Bool, true, false, ◌⊎◌, inl, inr, Option, none, some,
  arith, max, nat_eq,
}
use fin_data_platform.Dict.{get, put, IsDistinct}
use fin_data_platform.Dict.Laws.{get-put, put-IsDistinct}
use fin_data_platform.Runtime.Models.{running, JobStatus, JobRun, is_claimable, is_running}
use fin_data_platform.Runtime.Repository.{Repository, init, is_live}

abbrev pub Stored : Repository → ℕ → JobRun → Type 0
Stored r i run = get i r.runs ≡ some run

pub record IsValid (r : Repository) : Type 0 where
  -- A run stands under its own number, below the next number.
  pub distinct : IsDistinct r.runs
  pub numbered : (i : ℕ) (a : JobRun) → Stored r i a → (a.run_id ≡ i) × (i < r.next_run_id)
  -- At most one run of a (dataset, scope) is running.
  pub exclusive :
      (i j : ℕ) (a b : JobRun)
      → Stored r i a
      → Stored r j b
      → is_running a.status ≡ true
      → is_running b.status ≡ true
      → a.dataset ≡ b.dataset
      → a.scope ≡ b.scope
      → i ≡ j
  -- At most one run of a key is queued, running, retrying or succeeded.
  pub unique_key :
      (i j : ℕ) (a b : JobRun)
      → Stored r i a
      → Stored r j b
      → is_live a.status ≡ true
      → is_live b.status ≡ true
      → a.job_key ≡ b.job_key
      → i ≡ j
  -- Attempts are counted from 1 and stay within the budget.
  pub budget :
      (i : ℕ) (a : JobRun) → Stored r i a → (1 ≤ a.attempt) × (a.attempt ≤ max 1 a.max_attempts)

pub init-IsValid : IsValid init
unfolding get
init-IsValid = record {
  distinct = tt;
  numbered = λ i a h. absurd (ground arith);
  exclusive = λ i j a b h. absurd (ground arith);
  unique_key = λ i j a b h. absurd (ground arith);
  budget = λ i a h. absurd (ground arith);
}
