-- ===== src/Runtime/Worker/Rounds.antt =====
-- What a round of a worker leaves behind.
use fin_data_platform.Prelude.{
  ℕ, ◌+◌, ◌≡◌, refl, String, Bool, true, false, Option, none, some, List, arith, Bool-cases,
  Option-cases, inl, inr, string_eq, or_else, nat_eq, ◌∙◌, ◌⊎◌,
}
use fin_data_platform.Dict.{get}
use fin_data_platform.Outcome.{Outcome, ok, raise, Outcome-cases}
use fin_data_platform.Runtime.Keys.{Payload}
use fin_data_platform.Runtime.Models.{DateTime, JobRun, is_running}
use fin_data_platform.Runtime.Repository.{success, claim_next, succeed}
use fin_data_platform.Runtime.Repository.Invariant.{Stored, IsValid}
use fin_data_platform.Runtime.Repository.Preserves.{succeed-IsValid, claim_next-IsValid}
use fin_data_platform.Runtime.Repository.Lifecycle.{is_final}
use fin_data_platform.Runtime.Repository.Commands.{Command, run_all, run_all-IsValid}
use fin_data_platform.Runtime.Repository.History.{run_all_keeps}
use fin_data_platform.Runtime.Repository.Claims.{claim_next-some, claim_next_idle}
use fin_data_platform.Runtime.Registry.{TaskSpec, TaskRegistry, JobContext, find}
use fin_data_platform.Runtime.Worker.{
  Worker, complete, call_back, redispatch, execute, execute_claimed, execute_once, context_of,
  counted, released, describe, with_busy,
}
use fin_data_platform.Runtime.Worker.Endings.{Ended, finish-Ended, Closed, failed_with-Closed}
use fin_data_platform.Runtime.Worker.Holding.{Holds, redispatch-Holds, call_back-Holds}

module _ (digest : Payload → String) (tasks : TaskRegistry) where
  complete-Closed :
      (spec : TaskSpec) (context : JobContext) (rows : ℕ) (clock : DateTime) (w : Worker)
      (a : JobRun)
      → IsValid w.repository
      → Stored w.repository context.run.run_id a
      → Closed context.run.run_id w.health.busy (complete digest tasks spec context rows clock w)
  unfolding complete succeed
  complete-Closed spec context rows clock w a v h = record {
    run = e.run;
    answers = rw (e.answers, complete) refl;
    numbered = (valid.numbered context.run.run_id e.run e.stored).0;
    stopped = e.stopped;
    valid = rw (e.answers, complete) again.0.0;
    kept = λ final. rw (e.answers, complete) (again.0.1 final);
    same_busy = rw (e.answers, complete) (again.1 ∙ called.1);
  }
    where
      e : Ended context.run.run_id (succeed context.run.run_id rows clock w.repository)
      e = finish-Ended context.run.run_id (success rows) clock w.repository a refl h

      after : Worker
      after = record w { repository = (succeed context.run.run_id rows clock w.repository).1 }

      valid : IsValid after.repository
      valid = succeed-IsValid context.run.run_id rows clock w.repository v

      held : Holds e.run.run_id e.run after.repository
      held = (valid, λ _. rw (valid.numbered context.run.run_id e.run e.stored).0 e.stored)

      called :
          Holds e.run.run_id e.run (call_back digest tasks spec context rows after).repository
          × ((call_back digest tasks spec context rows after).health.busy ≡ w.health.busy)
      called = call_back-Holds digest tasks spec context rows e.run.run_id e.run after held

      again :
          Holds e.run.run_id e.run
            (redispatch digest tasks e.run clock
              (call_back digest tasks spec context rows after)).repository
          × ((redispatch digest tasks e.run clock
                (call_back digest tasks spec context rows after)).health.busy
              ≡ (call_back digest tasks spec context rows after).health.busy)
      again =
          redispatch-Holds digest tasks e.run clock e.run.run_id e.run
            (call_back digest tasks spec context rows after) called.0

  execute-Closed :
      (meanwhile : List Command) (spec : TaskSpec) (context : JobContext) (clock : DateTime)
      (w : Worker) (a : JobRun)
      → IsValid w.repository
      → Stored w.repository context.run.run_id a
      → Closed context.run.run_id w.health.busy
          (execute digest tasks meanwhile spec context clock w)
  unfolding execute
  execute-Closed meanwhile spec context clock w a v h =
      let during : Worker = record w { repository = run_all digest meanwhile w.repository } in
      let valid : IsValid during.repository = run_all-IsValid digest meanwhile w.repository v in
      let (b, stored, _) = run_all_keeps digest meanwhile w.repository context.run.run_id a v h in
      elim (Outcome-cases (spec.executor context)) [
        | inr (x, e) ↦
            rw (e, execute)
              (failed_with-Closed (describe x) context.run clock during b valid stored)
        | inl (rows, e) ↦
            rw (e, execute)
              (complete-Closed spec context (or_else rows 0) clock during b valid stored)
      ]

  counted-Closed :
      (completed : DateTime) (i busy : ℕ) (result : Outcome JobRun × Worker)
      → Closed i busy result
      → Closed i busy (counted completed result)
  counted-Closed completed i busy (ok run, w) c = record {
    run = c.run;
    answers = c.answers;
    numbered = c.numbered;
    stopped = c.stopped;
    valid = c.valid;
    kept = c.kept;
    same_busy = c.same_busy;
  }
  counted-Closed completed i busy (raise x, w) c = c

  execute_claimed-Closed :
      (meanwhile : List Command) (run : JobRun) (clock completed : DateTime) (w : Worker)
      → IsValid w.repository
      → Stored w.repository run.run_id run
      → Closed run.run_id w.health.busy
          (execute_claimed digest tasks meanwhile run clock completed w)
  unfolding execute_claimed
  execute_claimed-Closed meanwhile run clock completed w v h =
      elim (Outcome-cases (find run.job_id tasks)) [
        | inr (x, e) ↦ rw (e, execute_claimed) (failed_with-Closed _ run clock w run v h)
        | inl (spec, e) ↦
            rw (e, execute_claimed)
              (counted-Closed completed _ _ _
                (execute-Closed meanwhile spec (context_of run) clock w run v h))
      ]

  -- What a round answers with that claimed the run of this number.
  abbrev pub Finished : ℕ → Outcome (Option JobRun) × Worker → Type 0
  Finished i result =
      (run : JobRun) × (result.0 ≡ ok (some run))
      × (run.run_id ≡ i)
      × (is_running run.status ≡ false)
      × ((is_final run.status ≡ false) ⊎ (get run.run_id result.1.repository.runs ≡ some run))

  -- What a round answers with after its claim.
  abbrev pub Closes : Worker → Option JobRun → Outcome (Option JobRun) × Worker → Type 0
  Closes w none result = result ≡ (ok none, w)
  Closes w (some claimed) result = Finished claimed.run_id result

  kept_or : {b : Bool} {P : Type 0} → (b ≡ true) ⊎ (b ≡ false) → (b ≡ true → P) → (b ≡ false) ⊎ P
  kept_or (inl t) h = inr (h t)
  kept_or (inr f) h = inl f

  released_closes :
      (i busy : ℕ) (result : Outcome JobRun × Worker)
      → Closed i (busy + 1) result
      → IsValid (released result).1.repository
        × ((released result).1.health.busy ≡ busy)
        × Finished i (released result)
  released_closes i busy (ok run, w') c =
      let same : run ≡ c.run = ground (arith, c.answers) in
      (
        c.valid,
        omega (arith, c.same_busy),
        (
          run,
          refl,
          rw same c.numbered,
          rw same c.stopped,
          kept_or (Bool-cases (is_final run.status)) (rw same c.kept),
        ),
      )
  released_closes i busy (raise x, w') c = absurd (ground (arith, c.answers))

  -- A round of a worker on a valid repository, whatever the executor, the callback and the other
  -- threads do: it never raises, the repository stays valid, and the number of busy threads is what
  -- it was. If the claim that it starts with finds nothing, it answers with none and changes nothing.
  -- If that claim finds a run, the round answers with the run of that number, which is not running,
  -- and which is stored under the number as answered if its status is final.
  pub execute_once-Closes :
      (meanwhile : List Command) (label : String) (now : Option DateTime)
      (moment clock completed : DateTime) (w : Worker)
      → IsValid w.repository
      → let result = execute_once digest tasks meanwhile label now moment clock completed w in
        IsValid result.1.repository
        × (result.1.health.busy ≡ w.health.busy)
        × Closes w (claim_next label (some (or_else now moment)) moment w.repository).0 result
  unfolding execute_once
  execute_once-Closes meanwhile label now moment clock completed w v =
      elim (Option-cases (claim_next label (some at) moment w.repository).0) [
        | inl e ↦
            let same : (claim_next label (some at) moment w.repository).1 ≡ w.repository =
              claim_next_idle label (some at) moment w.repository e in
            rw (e, execute_once) (rw same (v, refl, refl))
        | inr (run, e) ↦
            let (_, _, _, _, stored) =
              claim_next-some label (some at) moment w.repository run v e in
            rw (e, execute_once)
              (released_closes run.run_id w.health.busy _ (
                execute_claimed-Closed meanwhile run clock completed
                  (with_busy (w.health.busy + 1) (claimed_worker w))
                  (claim_next-IsValid label (some at) moment w.repository v) stored))
      ]
    where
      at : DateTime
      at = or_else now moment

      claimed_worker : Worker → Worker
      claimed_worker w = record w {
        repository = (claim_next label (some at) moment w.repository).1;
      }
