-- ===== src/Runtime/Repository/Gate.antt =====
-- The gate of the dependencies: what `parents_ready` decides, and that an open gate stays open.
use fin_data_platform.Prelude.{
  ℕ, ◌≡◌, refl, String, Bool, true, ◌↔◌, Option, some, List, [], ◌∷◌, arith, nat_eq, string_eq,
  option_eq, filter, any, ◌==◌, All, sym, ◌∙◌, beq→eq, eq→beq, and_left, and_right,
}
use fin_data_platform.Dict.{get, values}
use fin_data_platform.Dict.Laws.{any_of_get-filter, get_of_any-filter}
use fin_data_platform.Runtime.Models.{
  Date, DependencyCondition, on_success, on_complete, always, JobStatus, is_terminal, is_succeeded,
  JobDependency, JobRun,
}
use fin_data_platform.Runtime.Repository.{Repository}
use fin_data_platform.Runtime.Repository.Invariant.{IsValid}
use fin_data_platform.Runtime.Repository.Queries.{is_match, parent_ready, all_ready, parents_ready}

-- What a condition asks of the status of a parent's run.
abbrev pub releases : DependencyCondition → JobStatus → Bool
releases always status = true
releases on_complete status = is_terminal status
releases on_success status = is_succeeded status

parent_ready-any :
    (condition : DependencyCondition) (runs : List JobRun)
    → parent_ready condition runs ≡ any (λ x. releases condition x.status) runs
unfolding parent_ready
parent_ready-any always [] = refl
parent_ready-any on_complete [] = refl
parent_ready-any on_success [] = refl
parent_ready-any always (run ∷ rest) = refl
parent_ready-any on_complete (run ∷ rest) = refl
parent_ready-any on_success (run ∷ rest) = refl

-- A run of the dependency's parent for the same scope and window, in a status that the condition
-- accepts, is stored.
pub record Released (r : Repository) (scope : String) (window_start window_end : Option Date)
    (dep : JobDependency) : Type 0 where
  pub place : ℕ
  pub run : JobRun
  pub stored : get place r.runs ≡ some run
  pub job_id : run.job_id ≡ dep.parent_job
  pub same_scope : run.scope ≡ scope
  pub starts : run.window_start ≡ window_start
  pub ends : run.window_end ≡ window_end
  pub released : releases dep.condition run.status ≡ true

module _ (r : Repository) (scope : String) (window_start window_end : Option Date) where
  abbrev matches : JobDependency → JobRun → Bool
  matches dep = is_match dep scope window_start window_end

  abbrev ready : JobDependency → Bool
  ready dep = parent_ready dep.condition (filter (matches dep) (values r.runs))

  Released-of_ready :
      (dep : JobDependency)
      → IsValid r
      → ready dep ≡ true
      → Released r scope window_start window_end dep
  Released-of_ready dep v h =
      let (i, a, stored, m, q) =
        get_of_any-filter (matches dep) (λ x. releases dep.condition x.status) r.runs v.distinct
          (sym (parent_ready-any dep.condition (filter (matches dep) (values r.runs))) ∙ h) in
      record {
        place = i;
        run = a;
        stored = stored;
        job_id = beq→eq _ _ (ground arith);
        same_scope = beq→eq _ _ (ground arith);
        starts = beq→eq _ _ (ground arith);
        ends = beq→eq _ _ (ground arith);
        released = q;
      }

  ready_of_Released :
      (dep : JobDependency) → Released r scope window_start window_end dep → ready dep ≡ true
  ready_of_Released dep p =
      parent_ready-any dep.condition (filter (matches dep) (values r.runs))
      ∙ any_of_get-filter (matches dep) (λ x. releases dep.condition x.status) p.place p.run r.runs
          p.stored (rw (eq→beq p.job_id, eq→beq p.same_scope, eq→beq p.starts, eq→beq p.ends) refl)
          p.released

  all_ready_iff :
      (deps : List JobDependency)
      → IsValid r
      → (all_ready deps scope window_start window_end r ≡ true)
        ↔ All (Released r scope window_start window_end) deps
  unfolding all_ready
  all_ready_iff [] v = (λ _. tt, λ _. refl)
  all_ready_iff (dep ∷ deps) v =
      let (there, back) = all_ready_iff deps v in
      (
        λ h. (Released-of_ready dep v (and_left _ _ h), there (and_right _ _ h)),
        λ p. rw (ready_of_Released dep p.0, back p.1) refl,
      )

  -- In a valid repository the gate is open exactly when each declared dependency of the child has a
  -- parent run, stored for the scope and the window, whose status its condition accepts.
  pub parents_ready_iff :
      (child : String)
      → IsValid r
      → (parents_ready child scope window_start window_end r ≡ true)
        ↔ All
            (Released r scope window_start window_end)
            (filter (λ dep. dep.child_job == child) r.deps)
  unfolding parents_ready
  parents_ready_iff child = all_ready_iff (filter (λ dep. dep.child_job == child) r.deps)
