-- ===== src/Runtime/Registry.antt =====
-- src/fin_data_platform/runtime/registry.py: the declared tasks, in the order of registration. What a
-- task runs is not under this repository's control and enters as functions: the executor of a run,
-- the version provider, and the callback on success, which may act on the repository by its methods
-- only, so it is given the repository and answers with the calls that it makes.
use fin_data_platform.Prelude.{
  ℕ, String, true, Option, none, some, List, [], ◌∷◌, ◌++◌, map, string_eq, if◌then◌else◌,
}
use fin_data_platform.Dict.{Dict, get, put, has, values}
use fin_data_platform.Outcome.{Outcome, ok, raise, value_error, key_error}
use fin_data_platform.Runtime.Keys.{is_versioned}
use fin_data_platform.Runtime.Models.{
  DateTime, Date, DependencyCondition, JobDef, JobDependency, JobIntent, JobRun,
}
use fin_data_platform.Runtime.Repository.{Repository}
use fin_data_platform.Runtime.Repository.Commands.{Command}

pub record JobContext : Type 0 where
  pub job_id : String
  pub kind : String
  pub dataset : String
  pub run : JobRun

pub record TaskSpec : Type 0 where
  pub job_id : String
  pub kind : String
  pub dataset : String
  -- The rows written, if the executor returned a result.
  pub executor : JobContext → Outcome (Option ℕ)
  pub schedule : Option String
  pub priority : ℕ
  pub max_attempts : ℕ
  pub scope : String
  pub dependencies : List String
  pub condition : DependencyCondition
  pub version_provider : Option (Unit {0} → Option String)
  pub window_provider : Option (DateTime → List (Date × Date))
  pub on_success : Option (JobContext → ℕ → Repository → Outcome (Unit {0}) × List Command)

abbrev pub TaskRegistry : Type 0
TaskRegistry = Dict String TaskSpec

unfoldable pub register : TaskSpec → TaskRegistry → Outcome TaskSpec × TaskRegistry
register spec tasks =
    if has spec.job_id tasks
    then (raise value_error, tasks)
    else (ok spec, put spec.job_id spec tasks)

unfoldable pub find : String → TaskRegistry → Outcome TaskSpec
find job_id tasks = elim (get job_id tasks) [ none ↦ raise key_error | some spec ↦ ok spec ]

abbrev pub job_def : TaskSpec → JobDef
job_def spec = record {
  job_id = spec.job_id;
  kind = spec.kind;
  dataset = spec.dataset;
  schedule = spec.schedule;
  priority = spec.priority;
  max_attempts = spec.max_attempts;
  enabled = true;
}

unfoldable pub defs : TaskRegistry → List JobDef
defs tasks = map job_def (values tasks)

abbrev pub dependency : TaskSpec → String → JobDependency
dependency spec parent = record {
  parent_job = parent;
  child_job = spec.job_id;
  condition = spec.condition;
}

unfoldable pub dependencies_of : List TaskSpec → List JobDependency
dependencies_of [] = []
dependencies_of (spec ∷ specs) = map (dependency spec) spec.dependencies ++ dependencies_of specs

unfoldable pub dependencies : TaskRegistry → List JobDependency
unfolding dependencies_of
dependencies tasks = dependencies_of (values tasks)

-- `spec.version_provider() if spec.version_provider else None`
abbrev pub version_of : TaskSpec → Option String
version_of spec = elim spec.version_provider [ none ↦ none | some provider ↦ provider tt ]

unfoldable pub intent : TaskSpec → Option Date → Option Date → JobIntent
intent spec window_start window_end = record {
  kind = spec.kind;
  job_id = spec.job_id;
  dataset = spec.dataset;
  scope = spec.scope;
  window_start = window_start;
  window_end = window_end;
  version_dimension = version_of spec;
  priority = spec.priority;
  max_attempts = spec.max_attempts;
}

-- The three checks of `validate` on one task, without its search for cycles.
pub data Complaint : Type 0 where
  unknown_dependency : String → String → Complaint
  version_provider_missing : String → Complaint
  version_provider_unexpected : String → Complaint

unfoldable pub missing_parents : TaskRegistry → String → List String → List Complaint
missing_parents tasks job_id [] = []
missing_parents tasks job_id (parent ∷ parents) =
    let rest = missing_parents tasks job_id parents in
    if has parent tasks then rest else unknown_dependency job_id parent ∷ rest

abbrev pub provider_complaints : TaskSpec → List Complaint
provider_complaints spec = elim spec.version_provider [
  | none ↦ if is_versioned spec.kind then version_provider_missing spec.job_id ∷ [] else []
  | some _ ↦ if is_versioned spec.kind then [] else version_provider_unexpected spec.job_id ∷ []
]

unfoldable pub complaints : TaskRegistry → List TaskSpec → List Complaint
unfolding missing_parents
complaints tasks [] = []
complaints tasks (spec ∷ specs) =
    missing_parents tasks spec.job_id spec.dependencies
    ++ provider_complaints spec
    ++ complaints tasks specs
