-- ===== src/Runtime/Repository/Queries.antt =====
-- The reading methods of `InMemoryMetaRepository`.
use fin_data_platform.Prelude.{
  ℕ, String, Bool, true, false, ◌&&◌, Option, none, some, List, [], ◌∷◌, filter, any, head?, length,
  take, sorted, leb, ◌==◌, nat_eq, string_eq, option_eq,
}
use fin_data_platform.Dict.{get, values}
use fin_data_platform.Runtime.Models.{
  Date, JobStatus, DependencyCondition, on_success, on_complete, always, is_terminal, is_claimable,
  is_succeeded, JobDef, JobDependency, JobRun,
}
use fin_data_platform.Runtime.Repository.{Repository}

unfoldable pub list_defs : Repository → List JobDef
list_defs r = values r.defs

unfoldable pub list_dependencies : Repository → List JobDependency
list_dependencies r = r.deps

unfoldable pub get_run : ℕ → Repository → Option JobRun
get_run run_id r = get run_id r.runs

-- `wanted is None or value == wanted`
abbrev pub admits {ℓ} : {A : Type ℓ} → (A → A → Bool) → Option A → A → Bool
admits same none value = true
admits same (some wanted) value = same value wanted

abbrev pub status_code : JobStatus → ℕ
status_code JobStatus.queued = 0
status_code JobStatus.running = 1
status_code JobStatus.succeeded = 2
status_code JobStatus.failed = 3
status_code JobStatus.retrying = 4
status_code JobStatus.dead = 5
status_code JobStatus.interrupted = 6
status_code JobStatus.cancelled = 7

abbrev pub same_status : JobStatus → JobStatus → Bool
same_status a b = status_code a == status_code b

abbrev pub is_listed : Option JobStatus → Option String → JobRun → Bool
is_listed status job_id run = admits same_status status run.status && admits ◌==◌ job_id run.job_id

-- `sorted(rows, key=run_id, reverse=True)`
abbrev pub newest_first : JobRun → JobRun → Bool
newest_first a b = leb b.run_id a.run_id

abbrev pub oldest_first : JobRun → JobRun → Bool
oldest_first a b = leb a.run_id b.run_id

unfoldable pub list_runs : Option JobStatus → Option String → ℕ → Repository → List JobRun
list_runs status job_id limit r =
    take limit (sorted newest_first (filter (is_listed status job_id) (values r.runs)))

-- `min` and `max` over the numbers of the matches: the head of the matches in order
unfoldable pub find_run_by_request_id : String → Repository → Option JobRun
find_run_by_request_id request_id r =
    head? (sorted oldest_first (filter (λ run. run.request_id == some request_id) (values r.runs)))

unfoldable pub find_run_by_job_key : String → Repository → Option JobRun
find_run_by_job_key key r =
    head? (sorted newest_first (filter (λ run. run.job_key == key) (values r.runs)))

unfoldable pub count_queued : Repository → ℕ
count_queued r = length (filter (λ run. is_claimable run.status) (values r.runs))

-- The runs of `matched` in `parents_ready`.
abbrev pub is_match : JobDependency → String → Option Date → Option Date → JobRun → Bool
is_match dep scope window_start window_end run =
    run.job_id == dep.parent_job
    && run.scope == scope
    && run.window_start == window_start
    && run.window_end == window_end

-- One round of the loop over the parents: whether the loop goes on.
unfoldable pub parent_ready : DependencyCondition → List JobRun → Bool
parent_ready condition [] = false
parent_ready always (run ∷ rest) = true
parent_ready on_complete (run ∷ rest) = any (λ x. is_terminal x.status) (run ∷ rest)
parent_ready on_success (run ∷ rest) = any (λ x. is_succeeded x.status) (run ∷ rest)

unfoldable pub all_ready :
    List JobDependency → String → Option Date → Option Date → Repository → Bool
unfolding parent_ready
all_ready [] scope window_start window_end r = true
all_ready (dep ∷ deps) scope window_start window_end r =
    parent_ready dep.condition (filter (is_match dep scope window_start window_end) (values r.runs))
    && all_ready deps scope window_start window_end r

unfoldable pub parents_ready : String → String → Option Date → Option Date → Repository → Bool
unfolding all_ready
parents_ready child_job scope window_start window_end r =
    all_ready (filter (λ dep. dep.child_job == child_job) r.deps) scope window_start window_end r
