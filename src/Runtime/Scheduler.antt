-- ===== src/Runtime/Scheduler.antt =====
-- src/fin_data_platform/runtime/roles.py, `Scheduler.tick`: from the tasks and the windows that are due
-- to the intents of a round. The provider of windows is an argument.
pub mod Ticks
use fin_data_platform.Prelude.{
  ℕ, ◌+◌, String, Bool, true, false, Option, none, some, List, [], ◌∷◌, ◌++◌, map, elem, string_eq,
  length, or_else, if◌then◌else◌,
}
use fin_data_platform.Dict.{values}
use fin_data_platform.Runtime.Models.{DateTime, Date, JobIntent}
use fin_data_platform.Runtime.Registry.{TaskSpec, TaskRegistry, intent}

pub record SchedulerHealth : Type 0 where
  pub alive : Bool
  pub last_tick_at : Option DateTime
  pub intents_emitted : ℕ
  pub last_error : Option String

-- What tells the windows of a task that are due at a moment.
abbrev pub DueProvider : Type 0
DueProvider = TaskSpec → DateTime → List (Date × Date)

-- `only is None or spec.job_id in only`
abbrev pub is_selected : Option (List String) → TaskSpec → Bool
is_selected none spec = true
is_selected (some only) spec = elem spec.job_id only

abbrev pub window_intent : TaskSpec → Date × Date → JobIntent
window_intent spec (start, end) = intent spec (some start) (some end)

-- The loop of `tick` over the tasks.
unfoldable pub collect :
    DueProvider → DateTime → Option (List String) → List TaskSpec → List JobIntent
collect due moment only [] = []
collect due moment only (spec ∷ specs) =
    let rest = collect due moment only specs in
    if is_selected only spec then map (window_intent spec) (due spec moment) ++ rest else rest

unfoldable pub tick :
    TaskRegistry
    → Option DueProvider
    → Option DateTime
    → DateTime
    → Option (List String)
    → SchedulerHealth
    → List JobIntent × SchedulerHealth
unfolding collect
tick tasks due_provider now clock only health =
    let moment = or_else now clock in
    let intents : List JobIntent = elim due_provider [
      | none ↦ []
      | some due ↦ collect due moment only (values tasks)
    ] in
    (
      intents,
      record health {
        last_tick_at = some moment;
        intents_emitted = health.intents_emitted + length intents;
      },
    )
