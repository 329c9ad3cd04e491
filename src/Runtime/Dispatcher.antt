-- ===== src/Runtime/Dispatcher.antt =====
-- src/fin_data_platform/runtime/roles.py, `Dispatcher`: the gate of the dependencies and the bound on
-- the queue. The repository is shared, the health counters are the dispatcher's own.
pub mod Bound
use fin_data_platform.Prelude.{
  ℕ, ◌+◌, ◌≤◌, ◌≡◌, Bool, true, false, not, Option, none, some, leb, if◌then◌else◌,
}
use fin_data_platform.Prelude.{String}
use fin_data_platform.Outcome.{Outcome, ok, raise}
use fin_data_platform.Runtime.Keys.{Payload}
use fin_data_platform.Runtime.Models.{DateTime, JobIntent, JobRun}
use fin_data_platform.Runtime.Repository.{Repository, create_run}
use fin_data_platform.Runtime.Repository.Queries.{count_queued, parents_ready}

pub data Submission : Type 0 where
  created duplicate dependency backpressure : Submission

pub record DispatcherHealth : Type 0 where
  pub last_dispatch_at : Option DateTime
  pub created : ℕ
  pub duplicate : ℕ
  pub dependency_blocked : ℕ
  pub backpressure_blocked : ℕ

pub record Dispatcher : Type 0 where
  pub repository : Repository
  pub health : DispatcherHealth

-- The end of `submit`, by the answer of `create_run`.
abbrev pub record_creation :
    DateTime
    → DispatcherHealth
    → Outcome (Option JobRun) × Repository
    → Outcome Submission × Dispatcher
record_creation clock h (raise e, r) = (raise e, record { repository = r; health = h })
record_creation clock h (ok none, r) = (
  ok duplicate,
  record {
    repository = r;
    health = record h { duplicate = h.duplicate + 1; last_dispatch_at = some clock };
  },
)
record_creation clock h (ok (some run), r) = (
  ok created,
  record {
    repository = r;
    health = record h { created = h.created + 1; last_dispatch_at = some clock };
  },
)

module _ (digest : Payload → String) (max_queued : ℕ) where
  unfoldable pub submit : JobIntent → DateTime → Dispatcher → Outcome Submission × Dispatcher
  submit intent clock d =
      if leb max_queued (count_queued d.repository)
      then (
        ok backpressure,
        record d {
          health = record d.health {
            backpressure_blocked = d.health.backpressure_blocked + 1;
            last_dispatch_at = some clock;
          };
        },
      )
      else if not (
          parents_ready intent.job_id intent.scope intent.window_start intent.window_end
            d.repository)
      then (
        ok dependency,
        record d {
          health = record d.health {
            dependency_blocked = d.health.dependency_blocked + 1;
            last_dispatch_at = some clock;
          };
        },
      )
      else record_creation clock d.health (create_run digest intent none clock d.repository)
