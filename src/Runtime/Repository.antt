-- ===== src/Runtime/Repository.antt =====
-- src/fin_data_platform/runtime/repository.py, `InMemoryMetaRepository`. Each method runs under the
-- repository's lock, so it is one function of the state; `utcnow()` is the argument `clock`.
pub mod Invariant
pub mod Watermarks
pub mod Preserves
pub mod Commands
pub mod Lifecycle
pub mod Evolution
pub mod Queries
pub mod Gate
pub mod Monotone
pub mod OpenGate
pub mod Claims
pub mod History
use text.Mathlib.Text.{starts_with}
use fin_data_platform.Prelude.{
  ℕ, ◌+◌, ◌-◌, ◌*◌, ◌^◌, ◌≡◌, String, Bool, true, false, not, ◌&&◌, ◌||◌, Option, none, some, List,
  [], ◌∷◌, map, filter, any, head?, length, elem, take, sorted, ltb, leb, ◌==◌, nat_beq, nat_eq,
  string_eq, pair_eq, option_eq, or_else, if◌then◌else◌,
}
use fin_data_platform.Dict.{Dict, get, put, values}
use fin_data_platform.Outcome.{Outcome, ok, raise, key_error}
use fin_data_platform.Runtime.Keys.{Payload, job_key}
use fin_data_platform.Runtime.Models.{
  DateTime, Date, seconds, JobStatus, queued, running, succeeded, retrying, dead, interrupted,
  DependencyCondition, on_success, on_complete, always, is_terminal, is_claimable, is_running,
  is_succeeded, is_retrying, JobDef, JobDependency, JobIntent, JobRun, Watermark,
}

pub record Repository : Type 0 where
  pub defs : Dict String JobDef
  pub deps : List JobDependency
  pub runs : Dict ℕ JobRun
  pub watermarks : Dict (String × String) Watermark
  pub next_run_id : ℕ

abbrev pub init : Repository
init = record { defs = []; deps = []; runs = []; watermarks = []; next_run_id = 1 }

unfoldable pub put_defs : List JobDef → Dict String JobDef → Dict String JobDef
put_defs [] known = known
put_defs (item ∷ items) known = put_defs items (put item.job_id item known)

unfoldable pub sync_defs : List JobDef → Repository → Repository
unfolding put_defs
sync_defs items r = record r { defs = put_defs items r.defs }

unfoldable pub sync_dependencies : List JobDependency → Repository → Repository
sync_dependencies items r = record r { deps = items }

-- The statuses under which `create_run` finds an earlier run of the same key in its way.
abbrev pub is_live : JobStatus → Bool
is_live status = is_claimable status || is_running status || is_succeeded status

abbrev pub payload : JobIntent → Payload
payload intent = record {
  kind = intent.kind;
  job_id = intent.job_id;
  scope = intent.scope;
  window_start = intent.window_start;
  window_end = intent.window_end;
  version_dimension = intent.version_dimension;
}

abbrev pub new_run : ℕ → String → JobIntent → Option String → DateTime → JobRun
new_run run_id key intent request_id clock = record {
  run_id = run_id;
  job_key = key;
  job_id = intent.job_id;
  kind = intent.kind;
  dataset = intent.dataset;
  scope = intent.scope;
  status = queued;
  attempt = 1;
  max_attempts = intent.max_attempts;
  priority = intent.priority;
  scheduled_at = clock;
  window_start = intent.window_start;
  window_end = intent.window_end;
  version_dimension = intent.version_dimension;
  started_at = none;
  finished_at = none;
  rows_written = none;
  error = none;
  request_id = request_id;
  worker = none;
}

-- The body of `create_run` under the lock, at a computed key.
unfoldable pub create_keyed :
    String → JobIntent → Option String → DateTime → Repository → Option JobRun × Repository
create_keyed key intent request_id clock r =
    if any (λ run. run.job_key == key && is_live run.status) (values r.runs)
    then (none, r)
    else let run = new_run r.next_run_id key intent request_id clock in
      (some run, record r { runs = put run.run_id run r.runs; next_run_id = r.next_run_id + 1 })

unfoldable pub create_run :
    (Payload → String)
    → JobIntent
    → Option String
    → DateTime
    → Repository
    → Outcome (Option JobRun) × Repository
unfolding create_keyed
create_run digest intent request_id clock r = elim (job_key digest (payload intent)) [
  | raise e ↦ (raise e, r)
  | ok key ↦ let (run, r') = create_keyed key intent request_id clock r in (ok run, r')
]

abbrev pub scope_of : JobRun → String × String
scope_of run = (run.dataset, run.scope)

abbrev pub running_scopes : Repository → List (String × String)
running_scopes r = map scope_of (filter (λ run. is_running run.status) (values r.runs))

abbrev pub is_candidate : Repository → DateTime → JobRun → Bool
is_candidate r moment run =
    is_claimable run.status
    && leb run.scheduled_at moment
    && not (elem (scope_of run) (running_scopes r))

-- The order of the key `(run.priority, run.run_id)`
abbrev pub claim_order : JobRun → JobRun → Bool
claim_order a b =
    ltb a.priority b.priority || (nat_beq a.priority b.priority && leb a.run_id b.run_id)

abbrev pub claimed : String → DateTime → JobRun → JobRun
claimed worker moment run = record run {
  status = running;
  started_at = some moment;
  worker = some worker;
}

unfoldable pub claim_next :
    String → Option DateTime → DateTime → Repository → Option JobRun × Repository
claim_next worker now clock r =
    let moment = or_else now clock in
    elim (head? (sorted claim_order (filter (is_candidate r moment) (values r.runs)))) [
      | none ↦ (none, r)
      | some run ↦ (
        some (claimed worker moment run),
        record r { runs = put run.run_id (claimed worker moment run) r.runs },
      )
    ]

-- The keyword arguments of `_finish`
pub record Finish : Type 0 where
  pub status : JobStatus
  pub rows_written : Option ℕ
  pub error : Option String
  pub attempt : Option ℕ
  pub scheduled_at : Option DateTime

abbrev pub finished : Finish → DateTime → JobRun → JobRun
finished f clock run = record run {
  status = f.status;
  rows_written = f.rows_written;
  error = f.error;
  attempt = or_else f.attempt run.attempt;
  scheduled_at = or_else f.scheduled_at run.scheduled_at;
  finished_at = if is_retrying f.status then none else some clock;
}

unfoldable pub finish : ℕ → Finish → DateTime → Repository → Outcome JobRun × Repository
finish run_id f clock r = elim (get run_id r.runs) [
  | none ↦ (raise key_error, r)
  | some run ↦
      if not (is_running run.status)
      then (ok run, r)
      else (ok (finished f clock run), record r { runs = put run_id (finished f clock run) r.runs })
]

abbrev pub success : ℕ → Finish
success rows = record {
  status = succeeded;
  rows_written = some rows;
  error = none;
  attempt = none;
  scheduled_at = none;
}

abbrev pub stop_with : JobStatus → String → Finish
stop_with status reason = record {
  status = status;
  rows_written = none;
  error = some reason;
  attempt = none;
  scheduled_at = none;
}

-- RETRY_BACKOFF_SECONDS * 2 ** (attempt - 1), for an attempt that is at least 1
abbrev pub backoff : ℕ → ℕ
backoff attempt = seconds (5 * 2 ^ (attempt - 1))

abbrev pub retry : String → DateTime → JobRun → Finish
retry reason clock run = record {
  status = retrying;
  rows_written = none;
  error = some reason;
  attempt = some (run.attempt + 1);
  scheduled_at = some (clock + backoff run.attempt);
}

unfoldable pub succeed : ℕ → ℕ → DateTime → Repository → Outcome JobRun × Repository
succeed run_id rows = finish run_id (success rows)

unfoldable pub fail : ℕ → String → DateTime → Repository → Outcome JobRun × Repository
fail run_id reason clock r = elim (get run_id r.runs) [
  | none ↦ (raise key_error, r)
  | some run ↦
      if ltb run.attempt run.max_attempts
      then finish run_id (retry reason clock run) clock r
      else finish run_id (stop_with dead reason) clock r
]

unfoldable pub interrupt : ℕ → String → DateTime → Repository → Outcome JobRun × Repository
interrupt run_id reason = finish run_id (stop_with interrupted reason)

-- `(run.worker or "").startswith(worker_prefix)`
abbrev pub works_for : String → JobRun → Bool
works_for worker_prefix run = starts_with (or_else run.worker "") worker_prefix

-- The loop of `interrupt_running` over the runs that it listed first; `count` is its counter.
unfoldable pub interrupt_each :
    String → DateTime → List JobRun → ℕ → Repository → Outcome ℕ × Repository
interrupt_each worker_prefix clock [] count r = (ok count, r)
interrupt_each worker_prefix clock (run ∷ rest) count r =
    elim (is_running run.status && works_for worker_prefix run) [
      | false ↦ interrupt_each worker_prefix clock rest count r
      | true ↦
          let (result, r') = finish run.run_id (stop_with interrupted "停机超时") clock r in
          elim result [
            | raise e ↦ (raise e, r')
            | ok _ ↦ interrupt_each worker_prefix clock rest (count + 1) r'
          ]
    ]

unfoldable pub interrupt_running : String → DateTime → Repository → Outcome ℕ × Repository
unfolding interrupt_each
interrupt_running worker_prefix clock r = interrupt_each worker_prefix clock (values r.runs) 0 r
