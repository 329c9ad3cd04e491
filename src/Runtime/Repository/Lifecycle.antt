-- ===== src/Runtime/Repository/Lifecycle.antt =====
-- How a stored run may change: which status follows which, and what never changes.
use fin_data_platform.Prelude.{
  ℕ, ◌≤◌, ◌≡◌, refl, String, Bool, true, false, ◌&&◌, not, ◌⊎◌, inl, inr, Option, none, some, arith,
  nat_eq, Bool-cases, nat_beq, or_else, ap, ◌∙◌, head?, sorted, filter,
}
use fin_data_platform.Dict.{get, put, values}
use fin_data_platform.Dict.Laws.{get-put}
use fin_data_platform.Runtime.Models.{
  DateTime, JobStatus, queued, running, succeeded, retrying, dead, interrupted, JobRun,
  is_claimable, is_running,
}
use fin_data_platform.Runtime.Repository.{
  Repository, is_candidate, claim_order, claimed, claim_next, Finish, finished, finish,
}
use fin_data_platform.Runtime.Repository.Invariant.{Stored, IsValid}
use fin_data_platform.Runtime.Repository.Preserves.{claim_found}

-- What names the job of a run and its budget.
pub record SameJob (a b : JobRun) : Type 0 where
  pub run_id : b.run_id ≡ a.run_id
  pub job_key : b.job_key ≡ a.job_key
  pub job_id : b.job_id ≡ a.job_id
  pub kind : b.kind ≡ a.kind
  pub dataset : b.dataset ≡ a.dataset
  pub scope : b.scope ≡ a.scope
  pub max_attempts : b.max_attempts ≡ a.max_attempts
  pub priority : b.priority ≡ a.priority
  pub window_start : b.window_start ≡ a.window_start
  pub window_end : b.window_end ≡ a.window_end
  pub version_dimension : b.version_dimension ≡ a.version_dimension
  pub request_id : b.request_id ≡ a.request_id

-- The moves of the status: a claim, and the four ways in which a running run ends.
abbrev pub moves : JobStatus → JobStatus → Bool
moves queued running = true
moves retrying running = true
moves running succeeded = true
moves running retrying = true
moves running dead = true
moves running interrupted = true
moves _ _ = false

-- The statuses that no move leaves.
abbrev pub is_final : JobStatus → Bool
is_final status = not (is_claimable status) && not (is_running status)

-- A run after a call: the same job, either untouched or one move on, its attempts not fewer.
pub record Evolves (a b : JobRun) : Type 0 where
  pub same_job : SameJob a b
  pub attempt : a.attempt ≤ b.attempt
  pub move : (b ≡ a) ⊎ (moves a.status b.status ≡ true)

pub SameJob-refl : (a : JobRun) → SameJob a a
SameJob-refl a = assumption refl

pub SameJob-trans : {a b c : JobRun} → SameJob a b → SameJob b c → SameJob a c
SameJob-trans p q = record {
  run_id = q.run_id ∙ p.run_id;
  job_key = q.job_key ∙ p.job_key;
  job_id = q.job_id ∙ p.job_id;
  kind = q.kind ∙ p.kind;
  dataset = q.dataset ∙ p.dataset;
  scope = q.scope ∙ p.scope;
  max_attempts = q.max_attempts ∙ p.max_attempts;
  priority = q.priority ∙ p.priority;
  window_start = q.window_start ∙ p.window_start;
  window_end = q.window_end ∙ p.window_end;
  version_dimension = q.version_dimension ∙ p.version_dimension;
  request_id = q.request_id ∙ p.request_id;
}

pub Evolves-refl : (a : JobRun) → Evolves a a
Evolves-refl a = record { same_job = SameJob-refl a; attempt = omega arith; move = inl refl }

-- One place holds one run.
pub same-Stored :
    (r : Repository) {i j : ℕ} {a b : JobRun} → i ≡ j → Stored r i a → Stored r j b → a ≡ b
same-Stored r p h k = cc

-- What stands in place `j` after a write to place `i`.
written :
    (i j : ℕ) (b a : JobRun) (r : Repository)
    → Stored r j a
    → (c : JobRun) × (get j (put i b r.runs) ≡ some c) × ((c ≡ a) ⊎ (i ≡ j) × (c ≡ b))
written i j b a r h = elim (Bool-cases (nat_beq i j)) [
  | inl t ↦ (b, ground (arith, get-put i j b r.runs), inr (ground arith, refl))
  | inr t ↦ (a, ground (arith, get-put i j b r.runs), inl refl)
]

-- The effect of `_finish` on any stored run.
pub finish_effect :
    (i : ℕ) (f : Finish) (clock : DateTime) (r : Repository) (j : ℕ) (a : JobRun)
    → Stored r j a
    → (b : JobRun) × Stored (finish i f clock r).1 j b
      × ((b ≡ a) ⊎ (i ≡ j) × (is_running a.status ≡ true) × (b ≡ finished f clock a))
unfolding finish
finish_effect i f clock r j a h = go _ refl
  where
    Effect : Repository → Type 0
    Effect r' =
        (b : JobRun) × Stored r' j b
        × ((b ≡ a) ⊎ (i ≡ j) × (is_running a.status ≡ true) × (b ≡ finished f clock a))

    go : (o : Option JobRun) → get i r.runs ≡ o → Effect (finish i f clock r).1
    go none e = rw (e, finish) (a, h, inl refl)
    go (some run) e = elim (Bool-cases (is_running run.status)) [
      | inr t ↦ rw (e, finish) (rw t (a, h, inl refl))
      | inl t ↦
          let (c, stored, how) = written i j (finished f clock run) a r h in
          rw (e, finish)
            (rw t (
              c,
              stored,
              elim how [
                | inl p ↦ inl p
                | inr p ↦
                    let same : run ≡ a = same-Stored r p.0 e h in
                    inr (p.0, rw (← same) t, p.1 ∙ ap (finished f clock) same)
              ],
            ))
    ]

-- A run after a claim.
pub claim_effect :
    (worker : String) (now : Option DateTime) (clock : DateTime) (r : Repository) (j : ℕ)
    (a : JobRun)
    → IsValid r
    → Stored r j a
    → (b : JobRun) × Stored (claim_next worker now clock r).1 j b
      × ((b ≡ a) ⊎ (is_claimable a.status ≡ true) × (b ≡ claimed worker (or_else now clock) a))
unfolding claim_next
claim_effect worker now clock r j a v h = go _ refl
  where
    moment : DateTime
    moment = or_else now clock

    Effect : Repository → Type 0
    Effect r' =
        (b : JobRun) × Stored r' j b
        × ((b ≡ a) ⊎ (is_claimable a.status ≡ true) × (b ≡ claimed worker moment a))

    go :
        (o : Option JobRun)
        → head? (sorted claim_order (filter (is_candidate r moment) (values r.runs))) ≡ o
        → Effect (claim_next worker now clock r).1
    go none e = rw (e, claim_next) (a, h, inl refl)
    go (some run) e =
        let (old, can) = claim_found r moment run v e in
        let (c, stored, how) = written run.run_id j (claimed worker moment run) a r h in
        rw (e, claim_next)
          (
            c,
            stored,
            elim how [
              | inl p ↦ inl p
              | inr p ↦
                  let same : run ≡ a = same-Stored r p.0 old h in
                  inr (rw (← same) (ground arith), p.1 ∙ ap (claimed worker moment) same)
            ],
          )
