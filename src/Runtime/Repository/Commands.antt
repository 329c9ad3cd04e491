-- ===== src/Runtime/Repository/Commands.antt =====
-- The state-changing calls of the repository, and runs of them. The roles of the runtime share the
-- repository and nothing else, and each call holds its lock: whatever threads do to it is one list
-- of calls, in the order in which they get the lock.
use fin_data_platform.Prelude.{
  ℕ, String, Option, List, [], ◌∷◌, Option-cases, inl, inr, string_eq, pair_eq,
}
use fin_data_platform.Dict.{get}
use fin_data_platform.Runtime.Keys.{Payload}
use fin_data_platform.Runtime.Models.{DateTime, JobDef, JobDependency, JobIntent}
use fin_data_platform.Runtime.Repository.{
  Repository, sync_defs, sync_dependencies, create_run, claim_next, succeed, fail, interrupt,
  interrupt_running,
}
use fin_data_platform.Runtime.Repository.Invariant.{IsValid}
use fin_data_platform.Runtime.Repository.Preserves.{
  create_run-IsValid, claim_next-IsValid, succeed-IsValid, fail-IsValid, interrupt-IsValid,
  interrupt_running-IsValid,
}
use fin_data_platform.Runtime.Repository.Watermarks.{set_watermark, is_reached, advance_watermark}

pub data Command : Type 0 where
  mirror_defs : List JobDef → Command
  mirror_dependencies : List JobDependency → Command
  create : JobIntent → Option String → DateTime → Command
  claim : String → Option DateTime → DateTime → Command
  complete : ℕ → ℕ → DateTime → Command
  give_up : ℕ → String → DateTime → Command
  break_off : ℕ → String → DateTime → Command
  break_off_worker : String → DateTime → Command
  place_watermark : String → String → DateTime → Command
  push_watermark : String → String → DateTime → Command

advance_watermark-IsValid :
    (dataset scope : String) (time : DateTime) (r : Repository)
    → IsValid r
    → IsValid (advance_watermark dataset scope time r).1
unfolding advance_watermark set_watermark
advance_watermark-IsValid dataset scope time r v =
    elim (Option-cases (is_reached (get (dataset, scope) r.watermarks) time)) [
      | inl e ↦ rw (e, advance_watermark) assumption
      | inr (mark, e) ↦ rw (e, advance_watermark) v
    ]

module _ (digest : Payload → String) where
  unfoldable pub apply : Command → Repository → Repository
  apply (mirror_defs items) r = sync_defs items r
  apply (mirror_dependencies items) r = sync_dependencies items r
  apply (create intent request clock) r = (create_run digest intent request clock r).1
  apply (claim worker now clock) r = (claim_next worker now clock r).1
  apply (complete i rows clock) r = (succeed i rows clock r).1
  apply (give_up i reason clock) r = (fail i reason clock r).1
  apply (break_off i reason clock) r = (interrupt i reason clock r).1
  apply (break_off_worker prefix clock) r = (interrupt_running prefix clock r).1
  apply (place_watermark dataset scope time) r = (set_watermark dataset scope time r).1
  apply (push_watermark dataset scope time) r = (advance_watermark dataset scope time r).1

  unfoldable pub run_all : List Command → Repository → Repository
  unfolding apply
  run_all [] r = r
  run_all (c ∷ cs) r = run_all cs (apply c r)

  pub apply-IsValid : (c : Command) (r : Repository) → IsValid r → IsValid (apply c r)
  unfolding apply sync_defs sync_dependencies set_watermark
  apply-IsValid (mirror_defs items) r v = assumption
  apply-IsValid (mirror_dependencies items) r v = assumption
  apply-IsValid (create intent request clock) r v =
      create_run-IsValid digest intent request clock r v
  apply-IsValid (claim worker now clock) r v = claim_next-IsValid worker now clock r v
  apply-IsValid (complete i rows clock) r v = succeed-IsValid i rows clock r v
  apply-IsValid (give_up i reason clock) r v = fail-IsValid i reason clock r v
  apply-IsValid (break_off i reason clock) r v = interrupt-IsValid i reason clock r v
  apply-IsValid (break_off_worker prefix clock) r v = interrupt_running-IsValid prefix clock r v
  apply-IsValid (place_watermark dataset scope time) r v = assumption
  apply-IsValid (push_watermark dataset scope time) r v =
      advance_watermark-IsValid dataset scope time r v

  pub run_all-IsValid : (cs : List Command) (r : Repository) → IsValid r → IsValid (run_all cs r)
  unfolding run_all
  run_all-IsValid [] r v = v
  run_all-IsValid (c ∷ cs) r v = run_all-IsValid cs (apply c r) (apply-IsValid c r v)
