-- ===== src/Runtime/Models.antt =====
-- src/fin_data_platform/runtime/models.py. Times are microseconds of naive UTC, dates are ordinals.
use fin_data_platform.Prelude.{ℕ, ◌*◌, String, Bool, true, false, Option}

abbrev pub DateTime : Type 0
DateTime = ℕ

abbrev pub Date : Type 0
Date = ℕ

-- `timedelta(seconds=n)`
abbrev pub seconds : ℕ → ℕ
seconds n = n * 1000000

pub data JobStatus : Type 0 where
  queued running succeeded failed retrying dead interrupted cancelled : JobStatus

pub data DependencyCondition : Type 0 where
  on_success on_complete always : DependencyCondition

-- `status in TERMINAL_STATUSES`
abbrev pub is_terminal : JobStatus → Bool
is_terminal succeeded = true
is_terminal dead = true
is_terminal cancelled = true
is_terminal _ = false

-- `status in CLAIMABLE_STATUSES`
abbrev pub is_claimable : JobStatus → Bool
is_claimable queued = true
is_claimable retrying = true
is_claimable _ = false

-- `status == JobStatus.RUNNING.value`
abbrev pub is_running : JobStatus → Bool
is_running running = true
is_running _ = false

-- `status == JobStatus.SUCCEEDED.value`
abbrev pub is_succeeded : JobStatus → Bool
is_succeeded succeeded = true
is_succeeded _ = false

-- `status == JobStatus.RETRYING.value`
abbrev pub is_retrying : JobStatus → Bool
is_retrying retrying = true
is_retrying _ = false

pub record JobDef : Type 0 where
  pub job_id : String
  pub kind : String
  pub dataset : String
  pub schedule : Option String
  pub priority : ℕ
  pub max_attempts : ℕ
  pub enabled : Bool

pub record JobDependency : Type 0 where
  pub parent_job : String
  pub child_job : String
  pub condition : DependencyCondition

pub record JobIntent : Type 0 where
  pub kind : String
  pub job_id : String
  pub dataset : String
  pub scope : String
  pub window_start : Option Date
  pub window_end : Option Date
  pub version_dimension : Option String
  pub priority : ℕ
  pub max_attempts : ℕ

pub record JobRun : Type 0 where
  pub run_id : ℕ
  pub job_key : String
  pub job_id : String
  pub kind : String
  pub dataset : String
  pub scope : String
  pub status : JobStatus
  pub attempt : ℕ
  pub max_attempts : ℕ
  pub priority : ℕ
  pub scheduled_at : DateTime
  pub window_start : Option Date
  pub window_end : Option Date
  pub version_dimension : Option String
  pub started_at : Option DateTime
  pub finished_at : Option DateTime
  pub rows_written : Option ℕ
  pub error : Option String
  pub request_id : Option String
  pub worker : Option String

pub record Watermark : Type 0 where
  pub dataset : String
  pub scope : String
  pub watermark_time : Option DateTime
