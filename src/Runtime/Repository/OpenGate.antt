-- ===== src/Runtime/Repository/OpenGate.antt =====
-- An open gate stays open, whatever calls follow, as long as the declared dependencies are the same.
use fin_data_platform.Prelude.{
  ◌≡◌, refl, String, true, inl, inr, Option, List, [], ◌∷◌, arith, filter, ◌==◌, string_eq, All,
  All-map, subst, sym, ◌∙◌,
}
use fin_data_platform.Runtime.Keys.{Payload}
use fin_data_platform.Runtime.Models.{
  Date, DependencyCondition, on_success, on_complete, always, JobStatus, JobDependency,
}
use fin_data_platform.Runtime.Repository.{Repository}
use fin_data_platform.Runtime.Repository.Invariant.{IsValid}
use fin_data_platform.Runtime.Repository.Lifecycle.{moves}
use fin_data_platform.Runtime.Repository.Commands.{
  Command, apply, run_all, apply-IsValid, run_all-IsValid,
}
use fin_data_platform.Runtime.Repository.History.{apply-Evolves}
use fin_data_platform.Runtime.Repository.Queries.{parents_ready}
use fin_data_platform.Runtime.Repository.Gate.{releases, Released, parents_ready_iff}

-- A status that releases a condition is never left for one that does not.
releases-moves :
    (c : DependencyCondition) (s t : JobStatus)
    → releases c s ≡ true
    → moves s t ≡ true
    → releases c t ≡ true
releases-moves always s t h m = refl
releases-moves on_complete s t h m = ground arith
releases-moves on_success s t h m = ground arith

module _ (digest : Payload → String) (scope : String) (window_start window_end : Option Date)
    (dep : JobDependency) where
  Released-apply :
      (c : Command) (r : Repository)
      → IsValid r
      → Released r scope window_start window_end dep
      → Released (apply digest c r) scope window_start window_end dep
  Released-apply c r v p =
      let (b, stored, e) = apply-Evolves digest c r p.place p.run v p.stored in
      record {
        place = p.place;
        run = b;
        stored = stored;
        job_id = e.same_job.job_id ∙ p.job_id;
        same_scope = e.same_job.scope ∙ p.same_scope;
        starts = e.same_job.window_start ∙ p.starts;
        ends = e.same_job.window_end ∙ p.ends;
        released = elim e.move [
          | inl same ↦ rw same p.released
          | inr m ↦ releases-moves dep.condition p.run.status b.status p.released m
        ];
      }

  pub Released-run_all :
      (cs : List Command) (r : Repository)
      → IsValid r
      → Released r scope window_start window_end dep
      → Released (run_all digest cs r) scope window_start window_end dep
  unfolding run_all
  Released-run_all [] r v p = p
  Released-run_all (c ∷ cs) r v p =
      Released-run_all cs (apply digest c r) (apply-IsValid digest c r v) (Released-apply c r v p)

-- Once the gate of a child is open for a scope and a window in a valid repository, it is open after any calls that leave
-- the declared dependencies as they were.
pub parents_ready-run_all :
    (digest : Payload → String) (child scope : String) (window_start window_end : Option Date)
    (cs : List Command) (r : Repository)
    → IsValid r
    → (run_all digest cs r).deps ≡ r.deps
    → parents_ready child scope window_start window_end r ≡ true
    → parents_ready child scope window_start window_end (run_all digest cs r) ≡ true
parents_ready-run_all digest child scope ws we cs r v same h =
    (parents_ready_iff (run_all digest cs r) scope ws we child (run_all-IsValid digest cs r v)).1 (
      subst
        (λ deps.
          All (Released (run_all digest cs r) scope ws we)
            (filter (λ dep. dep.child_job == child) deps))
        (sym same)
        (All-map _ _ (λ dep p. Released-run_all digest scope ws we dep cs r v p) _
          ((parents_ready_iff r scope ws we child v).0 h)))
