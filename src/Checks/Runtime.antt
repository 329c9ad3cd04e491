-- ===== src/Checks/Runtime.antt =====
-- Small states of the repository of src/fin_data_platform/runtime, reached by runs of its calls.
pub mod Runs
mod Claims
mod Roles
use fin_data_platform.Prelude.{
  ℕ, ◌≤◌, ◌≡◌, refl, String, true, false, Option, none, some, List, [], ◌∷◌, arith, inr, inl, max,
  nat_eq, string_eq, pair_eq, option_eq, ltb, leb, not, ◌==◌, ◌≢◌, ◌⊎◌, ◌<◌, ◌+◌, if◌then◌else◌,
  sorted, insert_sorted,
}
use fin_data_platform.Dict.{get, put, remove}
use fin_data_platform.Runtime.Keys.{
  Payload, is_versioned, is_given, validate_version_dimension, job_key,
}
use fin_data_platform.Runtime.Models.{
  running, succeeded, JobDef, JobIntent, JobRun, JobDependency, on_success,
}
use fin_data_platform.Runtime.Repository.{
  Repository, init, new_run, claimed, finished, success, stop_with, create_keyed, create_run,
  claim_next, finish, succeed, fail, interrupt, interrupt_each, interrupt_running, sync_defs,
  sync_dependencies, put_defs,
}
use fin_data_platform.Runtime.Repository.Watermarks.{
  get_watermark, set_watermark, is_reached, advance_watermark, shown,
}
use fin_data_platform.Runtime.Repository.Queries.{
  parent_ready, all_ready, parents_ready, count_queued, list_defs,
}
use fin_data_platform.Runtime.Repository.Commands.{
  Command, mirror_dependencies, place_watermark, push_watermark, create, claim, complete, give_up,
  apply, run_all, run_all-IsValid,
}
use fin_data_platform.Runtime.Repository.History.{
  one_running_per_scope, one_live_run_per_key, run_all_final, attempts_within_budget,
}
use fin_data_platform.Runtime.Repository.Invariant.{IsValid, init-IsValid}

pub program : Unit {0}
unfolding get put remove sorted insert_sorted is_versioned is_given validate_version_dimension
    job_key create_keyed create_run claim_next finish succeed fail interrupt interrupt_each
    interrupt_running set_watermark is_reached advance_watermark get_watermark apply run_all
    parent_ready all_ready parents_ready count_queued sync_defs sync_dependencies
program = tt

-- A stand-in for the digest: the text of the job.
abbrev pub digest : Payload → String
digest p = p.job_id

abbrev pub sync : JobIntent
sync = record {
  kind = "sync";
  job_id = "sync.bar.A";
  dataset = "bar";
  scope = "A";
  window_start = some 10;
  window_end = some 12;
  version_dimension = none;
  priority = 100;
  max_attempts = 3;
}

abbrev pub waiting : JobRun
waiting = new_run 1 "sync.bar.A" sync none 5

abbrev pub busy : JobRun
busy = claimed "w-0" 6 waiting

abbrev pub closed : JobRun
closed = finished (success 7) 8 busy

abbrev pub to_busy : List Command
to_busy = create sync none 5 ∷ claim "w-0" (some 6) 0 ∷ create sync none 7 ∷ []

abbrev pub to_done : List Command
to_done = create sync none 5 ∷ claim "w-0" (some 6) 0 ∷ complete 1 7 8 ∷ []

abbrev pub derive_on_sync : JobDependency
derive_on_sync = record {
  parent_job = "sync.bar.A";
  child_job = "derive.A";
  condition = on_success;
}

abbrev pub to_gated : List Command
to_gated = mirror_dependencies (derive_on_sync ∷ []) ∷ to_done

-- One queued run; the same run running; the same run succeeded under a declared dependency.
abbrev pub queue_state : Repository
queue_state = run_all digest (create sync none 5 ∷ []) init

abbrev pub busy_state : Repository
busy_state = run_all digest to_busy init

abbrev pub gated_state : Repository
gated_state = run_all digest to_gated init

-- The watermark of ("bar", "A") at the start of day 9.
abbrev pub marked_state : Repository
marked_state = run_all digest (place_watermark "bar" "A" 777600000000 ∷ []) init

pub queue_state-IsValid : IsValid queue_state
queue_state-IsValid = run_all-IsValid digest (create sync none 5 ∷ []) init init-IsValid

pub busy_state-IsValid : IsValid busy_state
busy_state-IsValid = run_all-IsValid digest to_busy init init-IsValid

pub gated_state-IsValid : IsValid gated_state
gated_state-IsValid = run_all-IsValid digest to_gated init init-IsValid

pub to_done-IsValid : IsValid (run_all digest to_done init)
to_done-IsValid = run_all-IsValid digest to_done init init-IsValid

-- The second creation of the same key is turned down, the first run is claimed.
runs_to_busy : (run_all digest to_busy init).runs ≡ (1, busy) ∷ []
unfolding program
runs_to_busy = refl

abbrev bar_def : JobDef
bar_def = record {
  job_id = "sync.bar.A";
  kind = "sync";
  dataset = "bar";
  schedule = none;
  priority = 100;
  max_attempts = 3;
  enabled = true;
}

-- A definition that is no longer declared stays.
kept_defs : list_defs (sync_defs [] (sync_defs (bar_def ∷ []) init)) ≡ bar_def ∷ []
unfolding program list_defs put_defs
kept_defs = refl
