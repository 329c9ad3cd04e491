-- ===== src/Runtime/Repository/Preserves.antt =====
-- Every method of the repository keeps its invariant.
use fin_data_platform.Prelude.{
  ℕ, ◌+◌, ◌≤◌, ◌≡◌, refl, String, true, false, ◌&&◌, inl, inr, Option, none, some, List, [], ◌∷◌,
  arith, max, nat_eq, string_eq, sym, subst, Bool-cases, ◌==◌, ltb, or_else, All-filter, All-sorted,
  All-head, head?, sorted, filter, any, elem, pair_eq, beq_refl,
}
use fin_data_platform.Dict.{get, values}
use fin_data_platform.Dict.Laws.{All-values, elem_of_get, any_of_get}
use fin_data_platform.Outcome.{Outcome-cases}
use fin_data_platform.Runtime.Keys.{Payload, job_key}
use fin_data_platform.Runtime.Models.{DateTime, interrupted, JobIntent, JobRun, is_running}
use fin_data_platform.Runtime.Repository.{
  Repository, is_live, payload, new_run, create_keyed, create_run, scope_of, running_scopes,
  is_candidate, claim_order, claimed, claim_next, Finish, finished, finish, stop_with, retry,
  succeed, fail, interrupt, interrupt_each, interrupt_running, works_for,
}
use fin_data_platform.Runtime.Repository.Invariant.{Stored, IsValid}
use fin_data_platform.Runtime.Repository.Invariant.Writes.{
  Revises, revised-IsValid, extended-IsValid,
}

-- The first of the sorted candidates is stored under its number and is a candidate.
pub claim_found :
    (r : Repository) (moment : DateTime) (run : JobRun)
    → IsValid r
    → head? (sorted claim_order (filter (is_candidate r moment) (values r.runs))) ≡ some run
    → Stored r run.run_id run × (is_candidate r moment run ≡ true)
claim_found r moment run v found =
    All-head (λ x. Stored r x.run_id x × (is_candidate r moment x ≡ true)) _ run found
      (All-sorted _ _ _ (
        All-filter (λ x. Stored r x.run_id x) _ _
          (All-values _ r.runs v.distinct
            λ i a h. subst (λ k. Stored r k a) (sym (v.numbered i a h).0) h)))

claimed-Revises :
    (r : Repository) (moment : DateTime) (worker : String) (run : JobRun)
    → IsValid r
    → Stored r run.run_id run
    → is_candidate r moment run ≡ true
    → Revises r run (claimed worker moment run)
claimed-Revises r moment worker run v old c = record {
  run_id = refl;
  job_key = refl;
  dataset = refl;
  scope = refl;
  live = λ _. ground arith;
  alone = λ _ j d h running ds sc.
      let busy : elem (scope_of run) (running_scopes r) ≡ true =
        rw (← ds, ← sc) (elem_of_get scope_of (λ x. is_running x.status) j d r.runs h running) in
      ground arith;
  budget = v.budget run.run_id run old;
}

pub claim_next-IsValid :
    (worker : String) (now : Option DateTime) (clock : DateTime) (r : Repository)
    → IsValid r
    → IsValid (claim_next worker now clock r).1
unfolding claim_next
claim_next-IsValid worker now clock r v = go _ refl
  where
    moment : DateTime
    moment = or_else now clock

    go :
        (o : Option JobRun)
        → head? (sorted claim_order (filter (is_candidate r moment) (values r.runs))) ≡ o
        → IsValid (claim_next worker now clock r).1
    go none e = rw (e, claim_next) v
    go (some run) e =
        let (old, c) = claim_found r moment run v e in
        rw (e, claim_next)
          (revised-IsValid r run.run_id run (claimed worker moment run) v old
            (claimed-Revises r moment worker run v old c))

-- What `_finish` is asked for: never a run that runs on, and an attempt within the budget.
pub record Closes (r : Repository) (i : ℕ) (f : Finish) : Type 0 where
  pub stopped : is_running f.status ≡ false
  pub alive :
      (run : JobRun)
      → Stored r i run
      → is_running run.status ≡ true
      → 1 ≤ or_else f.attempt run.attempt
  pub within :
      (run : JobRun) → Stored r i run → or_else f.attempt run.attempt ≤ max 1 run.max_attempts

finished-Revises :
    (r : Repository) (i : ℕ) (f : Finish) (clock : DateTime) (run : JobRun)
    → Closes r i f
    → Stored r i run
    → is_running run.status ≡ true
    → Revises r run (finished f clock run)
finished-Revises r i f clock run c old running = record {
  run_id = refl;
  job_key = refl;
  dataset = refl;
  scope = refl;
  live = λ _. ground arith;
  alone = λ h j d k _ _ _. ground (arith, c.stopped);
  budget = (c.alive run old running, c.within run old);
}

pub finish-IsValid :
    (i : ℕ) (f : Finish) (clock : DateTime) (r : Repository)
    → IsValid r
    → Closes r i f
    → IsValid (finish i f clock r).1
unfolding finish
finish-IsValid i f clock r v c = go _ refl
  where
    go : (o : Option JobRun) → get i r.runs ≡ o → IsValid (finish i f clock r).1
    go none e = rw (e, finish) v
    go (some run) e = elim (Bool-cases (is_running run.status)) [
      | inl t ↦
          rw (e, finish)
            (rw t (
              revised-IsValid r i run (finished f clock run) v e
                (finished-Revises r i f clock run c e t)))
      | inr t ↦ rw (e, finish) (rw t v)
    ]

keep-Closes :
    (r : Repository) (i : ℕ) (f : Finish)
    → IsValid r
    → is_running f.status ≡ false
    → f.attempt ≡ none
    → Closes r i f
keep-Closes r i f v s n = record {
  stopped = s;
  alive = λ run h _. rw n (v.budget i run h).0;
  within = λ run h. rw n (v.budget i run h).1;
}

pub succeed-IsValid :
    (i rows : ℕ) (clock : DateTime) (r : Repository)
    → IsValid r
    → IsValid (succeed i rows clock r).1
unfolding succeed
succeed-IsValid i rows clock r v = finish-IsValid i _ clock r v (keep-Closes r i _ v refl refl)

pub interrupt-IsValid :
    (i : ℕ) (reason : String) (clock : DateTime) (r : Repository)
    → IsValid r
    → IsValid (interrupt i reason clock r).1
unfolding interrupt
interrupt-IsValid i reason clock r v = finish-IsValid i _ clock r v (keep-Closes r i _ v refl refl)

retry-Closes :
    (r : Repository) (i : ℕ) (reason : String) (clock : DateTime) (run : JobRun)
    → Stored r i run
    → ltb run.attempt run.max_attempts ≡ true
    → Closes r i (retry reason clock run)
retry-Closes r i reason clock run old t = record {
  stopped = refl;
  alive = λ _ _ _. omega arith;
  within = λ run' h. let same : run' ≡ run = ground arith in rw same (ground arith);
}

pub fail-IsValid :
    (i : ℕ) (reason : String) (clock : DateTime) (r : Repository)
    → IsValid r
    → IsValid (fail i reason clock r).1
unfolding fail
fail-IsValid i reason clock r v = go _ refl
  where
    go : (o : Option JobRun) → get i r.runs ≡ o → IsValid (fail i reason clock r).1
    go none e = rw (e, fail) v
    go (some run) e = elim (Bool-cases (ltb run.attempt run.max_attempts)) [
      | inl t ↦
          rw (e, fail) (rw t (finish-IsValid i _ clock r v (retry-Closes r i reason clock run e t)))
      | inr t ↦ rw (e, fail) (rw t (finish-IsValid i _ clock r v (keep-Closes r i _ v refl refl)))
    ]

pub interrupt_each-IsValid :
    (prefix : String) (clock : DateTime) (runs : List JobRun) (count : ℕ) (r : Repository)
    → IsValid r
    → IsValid (interrupt_each prefix clock runs count r).1
unfolding interrupt_each
interrupt_each-IsValid prefix clock [] count r v = v
interrupt_each-IsValid prefix clock (run ∷ rest) count r v =
    elim (Bool-cases (is_running run.status && works_for prefix run)) [
      | inr t ↦ rw (t, interrupt_each) (interrupt_each-IsValid prefix clock rest count r v)
      | inl t ↦ elim (Outcome-cases (finish run.run_id f clock r).0) [
        | inl (x, e) ↦
            rw (t, interrupt_each)
              (rw e (
                interrupt_each-IsValid prefix clock rest (count + 1) (finish run.run_id f clock r).1
                  kept))
        | inr (x, e) ↦ rw (t, interrupt_each) (rw e kept)
      ]
    ]
  where
    f : Finish
    f = stop_with interrupted "停机超时"

    kept : IsValid (finish run.run_id f clock r).1
    kept = finish-IsValid run.run_id f clock r v (keep-Closes r run.run_id f v refl refl)

pub interrupt_running-IsValid :
    (prefix : String) (clock : DateTime) (r : Repository)
    → IsValid r
    → IsValid (interrupt_running prefix clock r).1
unfolding interrupt_running
interrupt_running-IsValid prefix clock r v =
    interrupt_each-IsValid prefix clock (values r.runs) 0 r v

pub create_keyed-IsValid :
    (key : String) (intent : JobIntent) (request : Option String) (clock : DateTime)
    (r : Repository)
    → IsValid r
    → IsValid (create_keyed key intent request clock r).1
unfolding create_keyed
create_keyed-IsValid key intent request clock r v =
    elim (Bool-cases (any (λ run. run.job_key == key && is_live run.status) (values r.runs))) [
      | inl t ↦ rw (t, create_keyed) v
      | inr t ↦
          rw (t, create_keyed)
            (extended-IsValid r (new_run r.next_run_id key intent request clock) v refl refl
              (omega arith)
              λ j c h alive same. cc (
                t,
                any_of_get (λ run. run.job_key == key && is_live run.status) j c r.runs h
                    (rw (same, alive) (rw (beq_refl key) refl)),
              ))
    ]

pub create_run-IsValid :
    (digest : Payload → String) (intent : JobIntent) (request : Option String) (clock : DateTime)
    (r : Repository)
    → IsValid r
    → IsValid (create_run digest intent request clock r).1
unfolding create_run
create_run-IsValid digest intent request clock r v =
    elim (Outcome-cases (job_key digest (payload intent))) [
      | inl (key, e) ↦ rw (e, create_run) (create_keyed-IsValid key intent request clock r v)
      | inr (x, e) ↦ rw (e, create_run) v
    ]
