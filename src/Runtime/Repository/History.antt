-- ===== src/Runtime/Repository/History.antt =====
-- What any run of calls of the repository does to its runs, from the empty repository on.
use fin_data_platform.Prelude.{
  ℕ, ◌≤◌, ◌≡◌, refl, String, true, ◌&&◌, ◌⊎◌, inl, inr, Option, some, List, [], ◌∷◌, arith, nat_eq,
  string_eq, pair_eq, Bool-cases, Option-cases, any, ◌==◌, subst, max,
}
use fin_data_platform.Dict.{get, values}
use fin_data_platform.Dict.Laws.{get-put}
use fin_data_platform.Outcome.{Outcome-cases}
use fin_data_platform.Runtime.Keys.{Payload, job_key}
use fin_data_platform.Runtime.Models.{
  DateTime, JobStatus, running, interrupted, JobIntent, JobRun, is_running,
}
use fin_data_platform.Runtime.Repository.{
  Repository, init, is_live, payload, new_run, create_keyed, create_run, sync_defs,
  sync_dependencies, succeed, interrupt, interrupt_running,
}
use fin_data_platform.Runtime.Repository.Invariant.{Stored, IsValid, init-IsValid}
use fin_data_platform.Runtime.Repository.Watermarks.{set_watermark, is_reached, advance_watermark}
use fin_data_platform.Runtime.Repository.Lifecycle.{
  SameJob, moves, is_final, Evolves, SameJob-refl, SameJob-trans, Evolves-refl,
}
use fin_data_platform.Runtime.Repository.Evolution.{
  finish-Evolves, claim_next-Evolves, fail-Evolves, interrupt_each_effect,
}
use fin_data_platform.Runtime.Repository.Commands.{
  Command, mirror_defs, mirror_dependencies, create, claim, complete, give_up, break_off,
  break_off_worker, place_watermark, push_watermark, apply, run_all, apply-IsValid, run_all-IsValid,
}

create_keyed_keeps :
    (key : String) (intent : JobIntent) (request : Option String) (clock : DateTime)
    (r : Repository) (j : ℕ) (a : JobRun)
    → IsValid r
    → Stored r j a
    → Stored (create_keyed key intent request clock r).1 j a
unfolding create_keyed
create_keyed_keeps key intent request clock r j a v h =
    elim (Bool-cases (any (λ run. run.job_key == key && is_live run.status) (values r.runs))) [
      | inl t ↦ rw (t, create_keyed) h
      | inr t ↦
          rw (t, create_keyed)
            (ground (
              arith,
              v.numbered j a h,
              get-put r.next_run_id j (new_run r.next_run_id key intent request clock) r.runs,
            ))
    ]

pub create_run_keeps :
    (digest : Payload → String) (intent : JobIntent) (request : Option String) (clock : DateTime)
    (r : Repository) (j : ℕ) (a : JobRun)
    → IsValid r
    → Stored r j a
    → Stored (create_run digest intent request clock r).1 j a
unfolding create_run
create_run_keeps digest intent request clock r j a v h =
    elim (Outcome-cases (job_key digest (payload intent))) [
      | inl (key, e) ↦ rw (e, create_run) (create_keyed_keeps key intent request clock r j a v h)
      | inr (x, e) ↦ rw (e, create_run) h
    ]

advance_watermark_keeps :
    (dataset scope : String) (time : DateTime) (r : Repository) (j : ℕ) (a : JobRun)
    → Stored r j a
    → Stored (advance_watermark dataset scope time r).1 j a
unfolding advance_watermark set_watermark
advance_watermark_keeps dataset scope time r j a h =
    elim (Option-cases (is_reached (get (dataset, scope) r.watermarks) time)) [
      | inl e ↦ rw (e, advance_watermark) h
      | inr (mark, e) ↦ rw (e, advance_watermark) h
    ]

module _ (digest : Payload → String) where
  abbrev After : (Repository → Repository) → Repository → ℕ → JobRun → Type 0
  After f r j a = (b : JobRun) × Stored (f r) j b × Evolves a b

  -- Any call on a valid repository leaves a stored run in its place as a run of the same job, with no
  -- fewer attempts: either untouched, or one move on, from queued or retrying to running or from
  -- running to succeeded, retrying, dead or interrupted.
  pub apply-Evolves :
      (c : Command) (r : Repository) (j : ℕ) (a : JobRun)
      → IsValid r
      → Stored r j a
      → (b : JobRun) × Stored (apply digest c r) j b × Evolves a b
  unfolding apply sync_defs sync_dependencies set_watermark succeed interrupt interrupt_running
  apply-Evolves (mirror_defs items) r j a v h = (a, h, Evolves-refl a)
  apply-Evolves (mirror_dependencies items) r j a v h = (a, h, Evolves-refl a)
  apply-Evolves (create intent request clock) r j a v h =
      (a, create_run_keeps digest intent request clock r j a v h, Evolves-refl a)
  apply-Evolves (claim worker now clock) r j a v h = claim_next-Evolves worker now clock r j a v h
  apply-Evolves (complete i rows clock) r j a v h =
      finish-Evolves i _ clock r j a refl (λ _. omega arith) h
  apply-Evolves (give_up i reason clock) r j a v h = fail-Evolves i reason clock r j a h
  apply-Evolves (break_off i reason clock) r j a v h =
      finish-Evolves i _ clock r j a refl (λ _. omega arith) h
  apply-Evolves (break_off_worker prefix clock) r j a v h =
      let (b, stored, how) = interrupt_each_effect prefix clock (values r.runs) 0 r j a h in
      (
        b,
        stored,
        elim how [
          | inl p ↦ rw p (Evolves-refl a)
          | inr p ↦ rw p.1 (record {
            same_job = assumption refl;
            attempt = omega arith;
            move = inr (from_running a.status p.0);
          })
        ],
      )
    where
      from_running : (s : JobStatus) → is_running s ≡ true → moves s interrupted ≡ true
      from_running s t = ground arith
  apply-Evolves (place_watermark dataset scope time) r j a v h = (a, h, Evolves-refl a)
  apply-Evolves (push_watermark dataset scope time) r j a v h =
      (a, advance_watermark_keeps dataset scope time r j a h, Evolves-refl a)

  stays_final :
      (a b : JobRun) → is_final a.status ≡ true → (b ≡ a) ⊎ (moves a.status b.status ≡ true) → b ≡ a
  stays_final a b final (inl p) = p
  stays_final a b final (inr m) = absurd (no_move a.status b.status final m)
    where
      no_move : (s t : JobStatus) → is_final s ≡ true → moves s t ≡ true → ⊥
      no_move s t f m = ground arith

  -- In a valid repository, a stored run that has succeeded, is dead, interrupted, failed or cancelled
  -- is never changed again, whatever calls follow.
  pub run_all_final :
      (cs : List Command) (r : Repository) (j : ℕ) (a : JobRun)
      → IsValid r
      → Stored r j a
      → is_final a.status ≡ true
      → Stored (run_all digest cs r) j a
  unfolding run_all
  run_all_final [] r j a v h final = h
  run_all_final (c ∷ cs) r j a v h final =
      let (b, stored, e) = apply-Evolves c r j a v h in
      let same : b ≡ a = stays_final a b final e.move in
      run_all_final cs (apply digest c r) j a (apply-IsValid digest c r v)
        (subst (λ x. Stored (apply digest c r) j x) same stored) final

  -- From the empty repository, after any calls: two running runs of one (dataset, scope) are one run.
  pub one_running_per_scope :
      (cs : List Command) (i j : ℕ) (a b : JobRun)
      → get i (run_all digest cs init).runs ≡ some a
      → get j (run_all digest cs init).runs ≡ some b
      → a.status ≡ running
      → b.status ≡ running
      → a.dataset ≡ b.dataset
      → a.scope ≡ b.scope
      → i ≡ j
  one_running_per_scope cs i j a b h k ra rb =
      (run_all-IsValid digest cs init init-IsValid).exclusive i j a b h k (rw ra refl) (rw rb refl)

  -- From the empty repository, after any calls: two runs of one job key that are each queued,
  -- retrying, running or succeeded are one run.
  pub one_live_run_per_key :
      (cs : List Command) (i j : ℕ) (a b : JobRun)
      → get i (run_all digest cs init).runs ≡ some a
      → get j (run_all digest cs init).runs ≡ some b
      → is_live a.status ≡ true
      → is_live b.status ≡ true
      → a.job_key ≡ b.job_key
      → i ≡ j
  one_live_run_per_key cs = (run_all-IsValid digest cs init init-IsValid).unique_key

  -- From the empty repository, after any calls: the attempt number of a stored run is at least 1 and
  -- at most its budget, where a budget of 0 counts as 1.
  pub attempts_within_budget :
      (cs : List Command) (i : ℕ) (a : JobRun)
      → get i (run_all digest cs init).runs ≡ some a
      → (1 ≤ a.attempt) × (a.attempt ≤ max 1 a.max_attempts)
  attempts_within_budget cs = (run_all-IsValid digest cs init init-IsValid).budget

  -- A stored run stays in its place, as a run of the same job.
  pub run_all_keeps :
      (cs : List Command) (r : Repository) (j : ℕ) (a : JobRun)
      → IsValid r
      → Stored r j a
      → (b : JobRun) × Stored (run_all digest cs r) j b × SameJob a b
  unfolding run_all
  run_all_keeps [] r j a v h = (a, h, SameJob-refl a)
  run_all_keeps (c ∷ cs) r j a v h =
      let (b, stored, e) = apply-Evolves c r j a v h in
      let (x, kept, same) =
        run_all_keeps cs (apply digest c r) j b (apply-IsValid digest c r v) stored in
      (x, kept, SameJob-trans e.same_job same)
