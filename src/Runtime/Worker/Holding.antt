-- ===== src/Runtime/Worker/Holding.antt =====
-- What the callback and the dispatch of dependent tasks leave alone: a final run.
use fin_data_platform.Prelude.{
  ℕ, ◌+◌, ◌≡◌, refl, String, true, none, some, List, [], ◌∷◌, Bool-cases, Option-cases, inl, inr,
  elem, string_eq, nat_eq,
}
use fin_data_platform.Dict.{values}
use fin_data_platform.Outcome.{Outcome-cases}
use fin_data_platform.Runtime.Keys.{Payload}
use fin_data_platform.Runtime.Models.{DateTime, JobIntent, JobRun}
use fin_data_platform.Runtime.Repository.{Repository, create_run}
use fin_data_platform.Runtime.Repository.Invariant.{Stored, IsValid}
use fin_data_platform.Runtime.Repository.Preserves.{create_run-IsValid}
use fin_data_platform.Runtime.Repository.Lifecycle.{is_final}
use fin_data_platform.Runtime.Repository.Commands.{run_all, run_all-IsValid}
use fin_data_platform.Runtime.Repository.History.{run_all_final, create_run_keeps}
use fin_data_platform.Runtime.Repository.Queries.{parents_ready}
use fin_data_platform.Runtime.Registry.{TaskSpec, TaskRegistry, JobContext, intent}
use fin_data_platform.Runtime.Worker.{
  Worker, dispatch_each, dispatch_dependents, call_back, redispatch,
}

-- The repository is valid and holds the run where it held it.
abbrev pub Holds : ℕ → JobRun → Repository → Type 0
Holds j a r = IsValid r × (is_final a.status ≡ true → Stored r j a)

module _ (digest : Payload → String) (tasks : TaskRegistry) where
  pub Holds-create :
      (spec : TaskSpec) (parent : JobRun) (clock : DateTime) (j : ℕ) (a : JobRun) (r : Repository)
      → Holds j a r
      → Holds j a
          (create_run digest (intent spec parent.window_start parent.window_end) none clock r).1
  Holds-create spec parent clock j a r (v, h) = (
    create_run-IsValid digest _ none clock r v,
    λ f. create_run_keeps digest _ none clock r j a v (h f),
  )

  pub dispatch_each-Holds :
      (parent : JobRun) (specs : List TaskSpec) (clock : DateTime) (n : ℕ) (j : ℕ) (a : JobRun)
      (r : Repository)
      → Holds j a r
      → Holds j a (dispatch_each digest tasks parent specs clock n r).1
  unfolding dispatch_each
  dispatch_each-Holds parent [] clock n j a r h = h
  dispatch_each-Holds parent (spec ∷ specs) clock n j a r h =
      elim (Bool-cases (elem parent.job_id spec.dependencies)) [
        | inr t ↦ rw (t, dispatch_each) (dispatch_each-Holds parent specs clock n j a r h)
        | inl t ↦
            elim (Bool-cases
              (parents_ready spec.job_id spec.scope parent.window_start parent.window_end r)) [
                | inr u ↦
                    rw (t, dispatch_each) (rw u (dispatch_each-Holds parent specs clock n j a r h))
                | inl u ↦ elim (Outcome-cases (create_run digest child none clock r).0) [
                  | inr (x, e) ↦ rw (t, dispatch_each) (rw u (rw e created))
                  | inl (none, e) ↦
                      rw (t, dispatch_each)
                        (rw u (rw e (dispatch_each-Holds parent specs clock n j a _ created)))
                  | inl (some run, e) ↦
                      rw (t, dispatch_each)
                        (rw u (rw e (dispatch_each-Holds parent specs clock (n + 1) j a _ created)))
                ]
              ]
      ]
    where
      child : JobIntent
      child = intent spec parent.window_start parent.window_end

      created : Holds j a (create_run digest child none clock r).1
      created = Holds-create spec parent clock j a r h

  pub redispatch-Holds :
      (parent : JobRun) (clock : DateTime) (j : ℕ) (a : JobRun) (w : Worker)
      → Holds j a w.repository
      → Holds j a (redispatch digest tasks parent clock w).repository
        × ((redispatch digest tasks parent clock w).health.busy ≡ w.health.busy)
  unfolding redispatch dispatch_dependents
  redispatch-Holds parent clock j a w h =
      elim (Outcome-cases
        (dispatch_each digest tasks parent (values tasks) clock 0 w.repository).0) [
          | inl (x, e) ↦ rw (e, redispatch) (there, refl)
          | inr (x, e) ↦ rw (e, redispatch) (there, refl)
        ]
    where
      there : Holds j a (dispatch_each digest tasks parent (values tasks) clock 0 w.repository).1
      there = dispatch_each-Holds parent (values tasks) clock 0 j a w.repository h

  pub call_back-Holds :
      (spec : TaskSpec) (context : JobContext) (rows : ℕ) (j : ℕ) (a : JobRun) (w : Worker)
      → Holds j a w.repository
      → Holds j a (call_back digest tasks spec context rows w).repository
        × ((call_back digest tasks spec context rows w).health.busy ≡ w.health.busy)
  unfolding call_back
  call_back-Holds spec context rows j a w (v, h) = elim (Option-cases spec.on_success) [
    | inl e ↦ rw (e, call_back) ((v, h), refl)
    | inr (f, e) ↦
        let calls = (f context rows w.repository).1 in
        let there : Holds j a (run_all digest calls w.repository) = (
          run_all-IsValid digest calls w.repository v,
          λ final. run_all_final digest calls w.repository j a v (h final) final,
        ) in
        elim (Outcome-cases (f context rows w.repository).0) [
          | inl (x, e') ↦ rw (e, call_back) (rw e' (there, refl))
          | inr (x, e') ↦ rw (e, call_back) (rw e' (there, refl))
        ]
  ]
