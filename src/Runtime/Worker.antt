-- ===== src/Runtime/Worker.antt =====
-- src/fin_data_platform/runtime/roles.py, `WorkerPool`: one round of a worker thread. A round reads
-- the clock three times: at the claim, when it writes the end, and for the health counters.
pub mod Endings
pub mod Holding
pub mod Rounds
use Prim.Native.String.{◌++◌ as text_append}
use fin_data_platform.Prelude.{
  ℕ, ◌+◌, ◌-◌, ◌≡◌, String, Bool, true, false, Option, none, some, List, [], ◌∷◌, elem, string_eq,
  or_else, max, if◌then◌else◌,
}
use fin_data_platform.Dict.{values}
use fin_data_platform.Outcome.{Error, Outcome, ok, raise, value_error, key_error}
use fin_data_platform.Runtime.Keys.{Payload}
use fin_data_platform.Runtime.Models.{DateTime, JobRun}
use fin_data_platform.Runtime.Repository.{Repository, claim_next, succeed, fail, create_run}
use fin_data_platform.Runtime.Repository.Commands.{Command, run_all}
use fin_data_platform.Runtime.Repository.Queries.{parents_ready}
use fin_data_platform.Runtime.Registry.{TaskSpec, TaskRegistry, JobContext, find, intent}

pub record WorkerHealth : Type 0 where
  pub alive : Bool
  pub busy : ℕ
  pub last_completed_at : Option DateTime
  pub last_error : Option String
  pub executed : ℕ

pub record Worker : Type 0 where
  pub repository : Repository
  pub health : WorkerHealth

-- The class name of an exception. The source adds its text, which nothing reads back.
unfoldable pub describe : Error → String
describe value_error = "ValueError"
describe key_error = "KeyError"
describe Error.runtime_error = "RuntimeError"
describe Error.unknown_security = "UnknownSecurityError"
describe Error.rate_limit_timeout = "RateLimitTimeout"
describe Error.no_result_found = "NoResultFound"

abbrev pub with_error : String → Worker → Worker
with_error reason w = record w { health = record w.health { last_error = some reason } }

-- `self._repo.fail(...)`, and its error in the health counters
unfoldable pub failed_with : String → JobRun → DateTime → Worker → Outcome JobRun × Worker
failed_with reason run clock w =
    let (result, r') = fail run.run_id reason clock w.repository in
    elim result [
      | raise e ↦ (raise e, record w { repository = r' })
      | ok finished ↦ (
        ok finished,
        record w { repository = r'; health = record w.health { last_error = finished.error } },
      )
    ]

abbrev pub context_of : JobRun → JobContext
context_of run = record { job_id = run.job_id; kind = run.kind; dataset = run.dataset; run = run }

-- The counters after the inner `try`; an exception that leaves it passes them by.
abbrev pub counted : DateTime → Outcome JobRun × Worker → Outcome JobRun × Worker
counted clock (raise e, w) = (raise e, w)
counted clock (ok finished, w) = (
  ok finished,
  record w {
    health = record w.health { executed = w.health.executed + 1; last_completed_at = some clock };
  },
)

abbrev pub with_busy : ℕ → Worker → Worker
with_busy busy w = record w { health = record w.health { busy = busy } }

-- The `finally`: one busy thread fewer, whatever happened.
abbrev pub released : Outcome JobRun × Worker → Outcome (Option JobRun) × Worker
released (raise e, w) = (raise e, with_busy (w.health.busy - 1) w)
released (ok finished, w) = (ok (some finished), with_busy (w.health.busy - 1) w)

module _ (digest : Payload → String) (tasks : TaskRegistry) where
  -- The loop of `_dispatch_dependents`; `created` is its counter.
  unfoldable pub dispatch_each :
      JobRun → List TaskSpec → DateTime → ℕ → Repository → Outcome ℕ × Repository
  dispatch_each parent [] clock created r = (ok created, r)
  dispatch_each parent (spec ∷ specs) clock created r =
      elim (elem parent.job_id spec.dependencies) [
        | false ↦ dispatch_each parent specs clock created r
        | true ↦
            elim (parents_ready spec.job_id spec.scope parent.window_start parent.window_end r) [
              | false ↦ dispatch_each parent specs clock created r
              | true ↦
                  let (result, r') =
                    create_run digest (intent spec parent.window_start parent.window_end) none clock
                      r in
                  elim result [
                    | raise e ↦ (raise e, r')
                    | ok none ↦ dispatch_each parent specs clock created r'
                    | ok (some _) ↦ dispatch_each parent specs clock (created + 1) r'
                  ]
            ]
      ]

  unfoldable pub dispatch_dependents : JobRun → DateTime → Repository → Outcome ℕ × Repository
  unfolding dispatch_each
  dispatch_dependents parent clock r = dispatch_each parent (values tasks) clock 0 r

  -- `spec.on_success`, whose exceptions only show in the health counters
  unfoldable pub call_back : TaskSpec → JobContext → ℕ → Worker → Worker
  call_back spec context rows w = elim spec.on_success [
    | none ↦ w
    | some callback ↦
        let (result, calls) = callback context rows w.repository in
        let w' : Worker = record w { repository = run_all digest calls w.repository } in
        elim result [
          | ok _ ↦ w'
          | raise e ↦ with_error (text_append "on_success: " (describe e)) w'
        ]
  ]

  unfoldable pub redispatch : JobRun → DateTime → Worker → Worker
  redispatch parent clock w =
      let (result, r') = dispatch_dependents parent clock w.repository in
      let w' : Worker = record w { repository = r' } in
      elim result [
        | ok _ ↦ w'
        | raise e ↦ with_error (text_append "dispatch_dependents: " (describe e)) w'
      ]

  -- The rest of the inner `try` once the executor has returned.
  unfoldable pub complete : TaskSpec → JobContext → ℕ → DateTime → Worker → Outcome JobRun × Worker
  unfolding failed_with call_back redispatch
  complete spec context rows clock w =
      let (result, r') = succeed context.run.run_id rows clock w.repository in
      let w' : Worker = record w { repository = r' } in
      elim result [
        | raise e ↦ failed_with (describe e) context.run clock w'
        | ok finished ↦ (ok finished, redispatch finished clock (call_back spec context rows w'))
      ]

  -- The inner `try`: the executor, the end of the run, the callback and the dependent tasks.
  -- `meanwhile` are the calls that other threads make on the repository while the executor runs.
  unfoldable pub execute :
      List Command → TaskSpec → JobContext → DateTime → Worker → Outcome JobRun × Worker
  unfolding failed_with complete
  execute meanwhile spec context clock w =
      let w' : Worker = record w { repository = run_all digest meanwhile w.repository } in
      elim (spec.executor context) [
        | raise e ↦ failed_with (describe e) context.run clock w'
        | ok rows ↦ complete spec context (or_else rows 0) clock w'
      ]

  unfoldable pub execute_claimed :
      List Command → JobRun → DateTime → DateTime → Worker → Outcome JobRun × Worker
  unfolding execute failed_with
  execute_claimed meanwhile run clock completed w = elim (find run.job_id tasks) [
    | raise _ ↦ failed_with (text_append "任务未注册: " run.job_id) run clock w
    | ok spec ↦ counted completed (execute meanwhile spec (context_of run) clock w)
  ]

  unfoldable pub execute_once :
      List Command
      → String
      → Option DateTime
      → DateTime
      → DateTime
      → DateTime
      → Worker
      → Outcome (Option JobRun) × Worker
  unfolding execute_claimed
  execute_once meanwhile label now moment clock completed w =
      let (claim, r') = claim_next label (some (or_else now moment)) moment w.repository in
      let w' : Worker = record w { repository = r' } in
      elim claim [
        | none ↦ (ok none, w')
        | some run ↦
            released
              (execute_claimed meanwhile run clock completed (with_busy (w'.health.busy + 1) w'))
      ]
