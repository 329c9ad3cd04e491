-- ===== src/Checks/Runtime/Roles.antt =====
-- The theorems on the roles and on the windows, at small states.
use fin_data_platform.Prelude.{
  ◌≡◌, refl, true, false, none, some, List, [], ◌∷◌, arith, nat_eq, string_eq, pair_eq, option_eq,
  if◌then◌else◌, leb, nat_beq, ◌&&◌,
}
use fin_data_platform.Runtime.Models.{on_success}
use fin_data_platform.Runtime.Repository.{init, claim_next}
use fin_data_platform.Runtime.Repository.Invariant.{IsValid, init-IsValid}
use fin_data_platform.Prelude.{Bool}
use fin_data_platform.Outcome.{ok}
use fin_data_platform.Runtime.Models.{Date}
use fin_data_platform.Runtime.Registry.{TaskSpec, TaskRegistry}
use fin_data_platform.Prelude.{All, Option, String, subst, some_injective}
use fin_data_platform.Dict.{get}
use fin_data_platform.Runtime.Keys.{is_versioned, is_given}
use fin_data_platform.Runtime.Registry.{complaints, missing_parents}
use fin_data_platform.Runtime.Scheduler.{SchedulerHealth, DueProvider, tick}
use fin_data_platform.Runtime.Scheduler.Ticks.{HasKey, tick-HasKey}
use fin_data_platform.Runtime.Worker.{Worker, execute_once}
use fin_data_platform.Runtime.Worker.Rounds.{Closes, execute_once-Closes}
use fin_data_platform.Runtime.Windows.{
  start_of, window_to, due_windows, mark_watermark, due_windows-mark_watermark,
}
use fin_data_platform.Runtime.Dispatcher.{Dispatcher, submit}
use fin_data_platform.Runtime.Dispatcher.Bound.{Submitted, submit_outcome}
use fin_data_platform.Runtime.Calendar.{last_closed, IsLastOpen, IsFresh, last_closed-IsLastOpen}
use fin_data_platform.Checks.Runtime.{
  program, digest, sync, queue_state, marked_state, queue_state-IsValid,
}

abbrev sync_spec : TaskSpec
sync_spec = record {
  job_id = "sync.bar.A";
  kind = "sync";
  dataset = "bar";
  executor = λ context. ok (some 7);
  schedule = none;
  priority = 100;
  max_attempts = 3;
  scope = "A";
  dependencies = [];
  condition = on_success;
  version_provider = none;
  window_provider = none;
  on_success = none;
}

abbrev tasks : TaskRegistry
tasks = ("sync.bar.A", sync_spec) ∷ []

abbrev pool : Worker
pool = record {
  repository = queue_state;
  health = record {
    alive = true;
    busy = 0;
    last_completed_at = none;
    last_error = none;
    executed = 0;
  };
}

execute_once-Closes_example :
    IsValid (execute_once digest tasks [] "w-0" (some 6) 0 8 8 pool).1.repository
    × ((execute_once digest tasks [] "w-0" (some 6) 0 8 8 pool).1.health.busy ≡ 0)
    × Closes digest tasks pool
        (claim_next "w-0" (some 6) 0 pool.repository).0
        (execute_once digest tasks [] "w-0" (some 6) 0 8 8 pool)
execute_once-Closes_example =
    execute_once-Closes digest tasks [] "w-0" (some 6) 0 8 8 pool queue_state-IsValid

due_windows-mark_watermark_example :
    due_windows
      (λ _. some 12)
      []
      sync_spec
      (some 5)
      0
      (mark_watermark "bar" "A" 13 (some 12) 7 marked_state)
    ≡ (if leb 13 12 && nat_beq 7 0 then (12, 12) ∷ [] else [])
unfolding program due_windows start_of window_to
due_windows-mark_watermark_example =
    due_windows-mark_watermark (λ _. some 12) [] sync_spec (some 5) 0 13 10 12 7 marked_state
      (omega arith) refl

-- On day 12 a window from 10 to 12 brought rows, be it of the days 10 and 11 only: day 12 is passed over.
passed_over :
    due_windows
      (λ _. some 12)
      []
      sync_spec
      (some 5)
      0
      (mark_watermark "bar" "A" 12 (some 12) 7 marked_state)
    ≡ []
unfolding program due_windows start_of window_to mark_watermark
passed_over = refl

abbrev dispatcher : Dispatcher
dispatcher = record {
  repository = init;
  health = record {
    last_dispatch_at = none;
    created = 0;
    duplicate = 0;
    dependency_blocked = 0;
    backpressure_blocked = 0;
  };
}

submit_outcome_example : Submitted 10 sync dispatcher (submit digest 10 sync 5 dispatcher)
submit_outcome_example = submit_outcome digest 10 sync 5 dispatcher init-IsValid

abbrev table : Date → Date → List (Date × Bool)
table start end = (10, true) ∷ (11, false) ∷ []

-- 13:46 on day 11, so that day counts.
last_closed-IsLastOpen_example :
    IsLastOpen (table 6 11) 11 (last_closed table 5 1000000000000 []).0
    × IsFresh table 5 (last_closed table 5 1000000000000 []).1
unfolding program
last_closed-IsLastOpen_example =
    last_closed-IsLastOpen table 5 1000000000000 11 [] (λ end days h. cc) (omega arith)
      (omega arith)

abbrev idle : SchedulerHealth
idle = record { alive = true; last_tick_at = none; intents_emitted = 0; last_error = none }

abbrev each_day : DueProvider
each_day spec moment = (10, 12) ∷ []

-- A factor that is derived from the bars, at version 3 of its definition
abbrev derive_spec : TaskSpec
derive_spec = record sync_spec {
  job_id = "derive.mom.A";
  kind = "derive";
  dataset = "mom";
  dependencies = "sync.bar.A" ∷ [];
  version_provider = some (λ _. some "3");
}

abbrev derived_tasks : TaskRegistry
derived_tasks = ("sync.bar.A", sync_spec) ∷ ("derive.mom.A", derive_spec) ∷ []

tick-HasKey_example :
    All (HasKey digest) (tick derived_tasks (some each_day) (some 5) 0 none idle).0
unfolding complaints missing_parents is_versioned is_given get
tick-HasKey_example =
    tick-HasKey digest derived_tasks (some each_day) (some 5) 0 none idle refl
      ((λ p h. absurd (none_given p h)), (given, tt))
  where
    none_given : (p : Unit {0} → Option String) → none ≡ some p → ⊥
    none_given p h = cc

    given : (p : Unit {0} → Option String) → some (λ _. some "3") ≡ some p → is_given (p tt) ≡ true
    given p h = subst (λ q. is_given (q tt) ≡ true) (some_injective h) refl
