-- ===== src/Runtime/Dispatcher/Bound.antt =====
-- What a submission does, and the bound that it keeps on the queue.
use fin_data_platform.Prelude.{
  ℕ, ◌+◌, ◌≤◌, ◌<◌, ◌≡◌, ◌≢◌, refl, String, true, ◌&&◌, ◌⊎◌, inl, inr, Option, none, some, arith,
  subst, leb, max, Bool-cases, Option-cases, any, ◌==◌, nat_eq, string_eq,
}
use fin_data_platform.Dict.{get, values}
use fin_data_platform.Dict.Laws.{length-filter-put}
use fin_data_platform.Outcome.{Outcome, ok, raise, Outcome-cases}
use fin_data_platform.Runtime.Keys.{Payload, job_key}
use fin_data_platform.Runtime.Models.{DateTime, JobIntent, JobRun, is_claimable}
use fin_data_platform.Runtime.Repository.{
  Repository, is_live, payload, create_keyed, create_run, new_run,
}
use fin_data_platform.Runtime.Repository.Invariant.{IsValid}
use fin_data_platform.Runtime.Repository.Queries.{count_queued, parents_ready}
use fin_data_platform.Runtime.Dispatcher.{Dispatcher, Submission, created, submit, record_creation}

-- The next number is free.
next_is_free : (r : Repository) → IsValid r → get r.next_run_id r.runs ≡ none
next_is_free r v = elim (Option-cases (get r.next_run_id r.runs)) [
  | inl e ↦ e
  | inr (a, e) ↦ absurd (omega (arith, (v.numbered r.next_run_id a e).1))
]

-- Creation returns a run and one more is queued, or it changes nothing.
abbrev Adds : Repository → Outcome (Option JobRun) × Repository → Type 0
Adds r (ok (some run), r') = count_queued r' ≡ count_queued r + 1
Adds r (ok none, r') = r' ≡ r
Adds r (raise e, r') = r' ≡ r

create_run-Adds :
    (digest : Payload → String) (intent : JobIntent) (request : Option String) (clock : DateTime)
    (r : Repository)
    → IsValid r
    → Adds r (create_run digest intent request clock r)
unfolding create_run create_keyed count_queued
create_run-Adds digest intent request clock r v =
    elim (Outcome-cases (job_key digest (payload intent))) [
      | inr (x, e) ↦ rw (e, create_run) refl
      | inl (key, e) ↦
          elim (Bool-cases
            (any (λ run. run.job_key == key && is_live run.status) (values r.runs))) [
              | inl t ↦ rw (e, create_run) (rw t refl)
              | inr t ↦
                  rw (e, create_run)
                    (rw t (
                      length-filter-put (λ run. is_claimable run.status) r.next_run_id
                        (new_run r.next_run_id key intent request clock) r.runs (next_is_free r v)))
            ]
    ]

-- What `submit` answers and does: `created` on an open gate and a queue below its bound, with one
-- more run queued; or another answer, or ValueError, with the repository unchanged.
abbrev pub Submitted : ℕ → JobIntent → Dispatcher → Outcome Submission × Dispatcher → Type 0
Submitted max_queued intent d (answer, d') =
    ((answer ≡ ok created)
      × (count_queued d.repository < max_queued)
      × (parents_ready intent.job_id intent.scope intent.window_start intent.window_end d.repository
          ≡ true)
      × (count_queued d'.repository ≡ count_queued d.repository + 1))
    ⊎ ((answer ≢ ok created) × (d'.repository ≡ d.repository))

module _ (digest : Payload → String) (max_queued : ℕ) (intent : JobIntent) (clock : DateTime)
    (d : Dispatcher) where
  Submitted-creation :
      (result : Outcome (Option JobRun) × Repository)
      → Adds d.repository result
      → count_queued d.repository < max_queued
      → parents_ready intent.job_id intent.scope intent.window_start intent.window_end d.repository
        ≡ true
      → Submitted max_queued intent d (record_creation clock d.health result)
  Submitted-creation (ok (some run), r) h low open_gate = inl (refl, low, open_gate, h)
  Submitted-creation (ok none, r) h low open_gate = inr (λ e. cc, h)
  Submitted-creation (raise x, r) h low open_gate = inr (λ e. cc, h)

  -- On a valid repository a submission either answers `created`, the queue was below its bound, the
  -- gate of the intent open, and one more run is queued; or it answers otherwise or raises, and the
  -- repository is as it was.
  pub submit_outcome :
      IsValid d.repository → Submitted max_queued intent d (submit digest max_queued intent clock d)
  unfolding submit
  submit_outcome v = elim (Bool-cases (leb max_queued (count_queued d.repository))) [
    | inl full ↦ rw full (inr (λ e. cc, refl))
    | inr low ↦
        elim (Bool-cases (
          parents_ready intent.job_id intent.scope intent.window_start intent.window_end
            d.repository)) [
              | inr shut ↦ rw (low, shut) (inr (λ e. cc, refl))
              | inl open_gate ↦
                  let e : record_creation clock d.health
                        (create_run digest intent none clock d.repository)
                      ≡ submit digest max_queued intent clock d =
                    rw (low, open_gate, submit) refl in
                  subst (Submitted max_queued intent d) e (
                    Submitted-creation (create_run digest intent none clock d.repository)
                      (create_run-Adds digest intent none clock d.repository v) (ground arith)
                      open_gate)
            ]
  ]

  -- A submission never lengthens a queue beyond its bound.
  pub submit_bounded :
      IsValid d.repository
      → count_queued (submit digest max_queued intent clock d).1.repository
        ≤ max max_queued (count_queued d.repository)
  submit_bounded v = elim (submit_outcome v) [ inl p ↦ omega arith | inr p ↦ rw p.1 (omega arith) ]
