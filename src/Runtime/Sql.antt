-- ===== src/Runtime/Sql.antt =====
-- src/fin_data_platform/runtime/repository.py, `SqlMetaRepository`: the runs as rows of the table
-- `meta.job_runs`. The database is the argument `table`; each method is one transaction, so it is one
-- function of the table's state, and its locks have no part in it; `fail`, which reads in one transaction
-- and writes in the next, is one function too, so what comes between the two is left out. The column
-- `updated_at`, which nothing reads, is left out.
pub mod Statements
pub mod Refines
pub mod Creation
pub mod Endings
pub mod Claiming
pub mod Moves
use fin_data_platform.Prelude.{
  ℕ, ◌+◌, ◌-◌, ◌*◌, ◌^◌, String, Bool, true, false, not, ◌&&◌, Option, none, some, List, any, leb,
  ltb, ◌==◌, nat_eq, string_eq, option_eq, or_else, if◌then◌else◌,
}
use fin_data_platform.Outcome.{Outcome, ok, raise, key_error, no_result_found, ◌>>=◌}
use fin_data_platform.Runtime.Keys.{Payload, job_key}
use fin_data_platform.Runtime.Models.{
  DateTime, JobStatus, running, succeeded, retrying, dead, interrupted, is_claimable, is_running,
  JobIntent, JobRun,
}
use fin_data_platform.Runtime.Repository.{is_live, payload, new_run, claimed, backoff}
use fin_data_platform.Runtime.Sql.Statements.{Table}

-- The keyword arguments of `_finish`
pub record Ending : Type 0 where
  pub status : JobStatus
  pub rows_written : Option ℕ
  pub error : Option String
  pub attempt : Option ℕ
  pub scheduled_at : Option DateTime
  pub finished : Bool

-- The columns that `_finish` writes
abbrev pub ended : Ending → DateTime → JobRun → JobRun
ended e clock run = record run {
  status = e.status;
  rows_written = e.rows_written;
  error = e.error;
  finished_at = if e.finished then some clock else none;
  attempt = or_else e.attempt run.attempt;
  scheduled_at = or_else e.scheduled_at run.scheduled_at;
}

abbrev pub has_run_id : ℕ → JobRun → Bool
has_run_id run_id run = run.run_id == run_id

-- `.mappings().one()` on what `.one_or_none()` finds
unfoldable pub required : Outcome (Option JobRun) → Outcome JobRun
required (raise e) = raise e
required (ok none) = raise no_result_found
required (ok (some run)) = ok run

-- The arguments of `succeed`, `interrupt` and of the end of `fail`
abbrev pub ends_with : JobStatus → Option ℕ → Option String → Ending
ends_with status rows reason = record {
  status = status;
  rows_written = rows;
  error = reason;
  attempt = none;
  scheduled_at = none;
  finished = true;
}

-- The arguments of a retry in `fail`
abbrev pub retried : String → DateTime → JobRun → Ending
retried reason clock run = record {
  status = retrying;
  rows_written = none;
  error = some reason;
  attempt = some (run.attempt + 1);
  scheduled_at = some (clock + backoff run.attempt);
  finished = false;
}

-- The rows that the update of `claim_next` meets
abbrev pub is_still : ℕ → JobRun → Bool
is_still run_id run = has_run_id run_id run && is_claimable run.status

module _ {State : Type 0} (table : Table State) where
  -- The row that a method reads back
  unfoldable pub read_back : ℕ → State → Outcome JobRun
  unfolding required
  read_back run_id s = required (table.one (has_run_id run_id) s)

  unfoldable pub create_keyed :
      String → JobIntent → Option String → DateTime → State → Outcome (Option JobRun) × State
  unfolding read_back
  create_keyed key intent request_id clock s =
      if any (λ run. is_live run.status) (table.select (λ run. run.job_key == key) s)
      then (ok none, s)
      else let (run_id, s') =
          table.insert (λ run_id. new_run run_id key intent request_id clock) s in
        (read_back run_id s' >>= (λ run. ok (some run)), s')

  unfoldable pub create_run :
      (Payload → String)
      → JobIntent
      → Option String
      → DateTime
      → State
      → Outcome (Option JobRun) × State
  unfolding create_keyed
  create_run digest intent request_id clock s = elim (job_key digest (payload intent)) [
    | raise e ↦ (raise e, s)
    | ok key ↦ create_keyed key intent request_id clock s
  ]

  -- The subquery `scope_busy`
  unfoldable pub scope_busy : JobRun → State → Bool
  scope_busy run s =
      any (λ _. true)
        (table.select
          (λ other.
            other.dataset == run.dataset && other.scope == run.scope && is_running other.status)
          s)

  abbrev pub is_claimed_next : DateTime → State → JobRun → Bool
  is_claimed_next moment s run =
      is_claimable run.status && leb run.scheduled_at moment && not (scope_busy run s)

  -- The second half of `claim_next`, once a row is selected
  unfoldable pub take : ℕ → String → DateTime → State → Outcome (Option JobRun) × State
  unfolding read_back
  take run_id worker moment s =
      let s' = table.update (is_still run_id) (claimed worker moment) s in
      (read_back run_id s' >>= (λ run. ok (some run)), s')

  unfoldable pub claim_next :
      String → Option DateTime → DateTime → State → Outcome (Option JobRun) × State
  unfolding take
  claim_next worker now clock s =
      let moment = or_else now clock in
      elim (table.first (λ run. run.priority) (λ run. run.run_id) (is_claimed_next moment s) s) [
        | none ↦ (ok none, s)
        | some candidate ↦ take candidate.run_id worker moment s
      ]

  -- `_finish`
  unfoldable pub finish : ℕ → Ending → DateTime → State → Outcome JobRun × State
  unfolding read_back
  finish run_id e clock s =
      let s' =
        table.update (λ run. has_run_id run_id run && is_running run.status) (ended e clock) s in
      (read_back run_id s', s')

  unfoldable pub succeed : ℕ → ℕ → DateTime → State → Outcome JobRun × State
  unfolding finish
  succeed run_id rows = finish run_id (ends_with succeeded (some rows) none)

  unfoldable pub get_run : ℕ → State → Outcome (Option JobRun)
  get_run run_id s = table.one (has_run_id run_id) s

  unfoldable pub fail : ℕ → String → DateTime → State → Outcome JobRun × State
  unfolding get_run finish
  fail run_id reason clock s = elim (get_run run_id s) [
    | raise e ↦ (raise e, s)
    | ok found ↦ elim found [
      | none ↦ (raise key_error, s)
      | some run ↦
          if ltb run.attempt run.max_attempts
          then finish run_id (retried reason clock run) clock s
          else finish run_id (ends_with dead none (some reason)) clock s
    ]
  ]

  unfoldable pub interrupt : ℕ → String → DateTime → State → Outcome JobRun × State
  unfolding finish
  interrupt run_id reason = finish run_id (ends_with interrupted none (some reason))
