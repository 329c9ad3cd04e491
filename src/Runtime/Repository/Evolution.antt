-- ===== src/Runtime/Repository/Evolution.antt =====
-- What each call of the repository does to a stored run, and what no run of calls undoes.
use fin_data_platform.Prelude.{
  ℕ, ◌+◌, ◌≤◌, ◌≡◌, refl, String, Bool, true, ◌&&◌, ◌⊎◌, inl, inr, Option, none, some, List, [],
  ◌∷◌, arith, nat_eq, Bool-cases, or_else, ap, ◌∙◌, ltb,
}
use fin_data_platform.Dict.{get}
use fin_data_platform.Outcome.{Outcome-cases}
use fin_data_platform.Runtime.Models.{
  DateTime, JobStatus, running, dead, interrupted, JobRun, is_claimable, is_running,
}
use fin_data_platform.Runtime.Repository.{
  Repository, claim_next, Finish, finished, finish, stop_with, retry, fail, interrupt_each,
  works_for,
}
use fin_data_platform.Runtime.Repository.Invariant.{Stored, IsValid}
use fin_data_platform.Runtime.Repository.Lifecycle.{
  moves, Evolves, Evolves-refl, same-Stored, finish_effect, claim_effect,
}

-- The statuses that `_finish` is called with are those that end a running run.
abbrev pub is_end : JobStatus → Bool
is_end status = moves running status

pub finish-Evolves :
    (i : ℕ) (f : Finish) (clock : DateTime) (r : Repository) (j : ℕ) (a : JobRun)
    → is_end f.status ≡ true
    → (i ≡ j → a.attempt ≤ or_else f.attempt a.attempt)
    → Stored r j a
    → (b : JobRun) × Stored (finish i f clock r).1 j b × Evolves a b
finish-Evolves i f clock r j a ends grows h =
    let (b, stored, how) = finish_effect i f clock r j a h in
    (
      b,
      stored,
      elim how [
        | inl p ↦ rw p (Evolves-refl a)
        | inr p ↦ rw p.2 (record {
          same_job = assumption refl;
          attempt = grows p.0;
          move = inr (rw (is_running-eq a.status p.1) ends);
        })
      ],
    )
  where
    is_running-eq : (s : JobStatus) → is_running s ≡ true → s ≡ running
    is_running-eq s t = ground arith

pub claim_next-Evolves :
    (worker : String) (now : Option DateTime) (clock : DateTime) (r : Repository) (j : ℕ)
    (a : JobRun)
    → IsValid r
    → Stored r j a
    → (b : JobRun) × Stored (claim_next worker now clock r).1 j b × Evolves a b
claim_next-Evolves worker now clock r j a v h =
    let (b, stored, how) = claim_effect worker now clock r j a v h in
    (
      b,
      stored,
      elim how [
        | inl p ↦ rw p (Evolves-refl a)
        | inr p ↦ rw p.1 (record {
          same_job = assumption refl;
          attempt = omega arith;
          move = inr (starts a.status p.0);
        })
      ],
    )
  where
    starts : (s : JobStatus) → is_claimable s ≡ true → moves s running ≡ true
    starts s t = ground arith

pub fail-Evolves :
    (i : ℕ) (reason : String) (clock : DateTime) (r : Repository) (j : ℕ) (a : JobRun)
    → Stored r j a
    → (b : JobRun) × Stored (fail i reason clock r).1 j b × Evolves a b
unfolding fail
fail-Evolves i reason clock r j a h = go _ refl
  where
    Effect : Repository → Type 0
    Effect r' = (b : JobRun) × Stored r' j b × Evolves a b

    go : (o : Option JobRun) → get i r.runs ≡ o → Effect (fail i reason clock r).1
    go none e = rw (e, fail) (a, h, Evolves-refl a)
    go (some run) e = elim (Bool-cases (ltb run.attempt run.max_attempts)) [
      | inl t ↦
          rw (e, fail)
            (rw t (
              finish-Evolves i (retry reason clock run) clock r j a refl
                (λ p. let same : run ≡ a = same-Stored r p e h in rw (← same) (omega arith)) h))
      | inr t ↦
          rw (e, fail)
            (rw t (finish-Evolves i (stop_with dead reason) clock r j a refl (λ _. omega arith) h))
    ]

-- Interruption of a list of runs: a stored run stays, or it was running and is interrupted.
pub interrupt_each_effect :
    (prefix : String) (clock : DateTime) (runs : List JobRun) (count : ℕ) (r : Repository) (j : ℕ)
    (a : JobRun)
    → Stored r j a
    → (b : JobRun) × Stored (interrupt_each prefix clock runs count r).1 j b
      × ((b ≡ a)
          ⊎ (is_running a.status ≡ true) × (b ≡ finished (stop_with interrupted "停机超时") clock a))
unfolding interrupt_each
interrupt_each_effect prefix clock [] count r j a h = (a, h, inl refl)
interrupt_each_effect prefix clock (run ∷ rest) count r j a h =
    elim (Bool-cases (is_running run.status && works_for prefix run)) [
      | inr t ↦ rw (t, interrupt_each) (interrupt_each_effect prefix clock rest count r j a h)
      | inl t ↦
          let (b, stored, how) = finish_effect run.run_id f clock r j a h in
          elim (Outcome-cases (finish run.run_id f clock r).0) [
            | inr (x, e) ↦
                rw (t, interrupt_each)
                  (rw e (b, stored, elim how [ inl p ↦ inl p | inr p ↦ inr (p.1, p.2) ]))
            | inl (x, e) ↦
                let (c, kept, then_how) =
                  interrupt_each_effect prefix clock rest (count + 1)
                    (finish run.run_id f clock r).1 j b stored in
                rw (t, interrupt_each)
                  (rw e (
                    c,
                    kept,
                    elim how [
                      | inl p ↦ elim then_how [
                        | inl q ↦ inl (q ∙ p)
                        | inr q ↦ inr (rw (← p) q.0, q.1 ∙ ap (finished f clock) p)
                      ]
                      | inr p ↦ elim then_how [
                        | inl q ↦ inr (p.1, q ∙ p.2)
                        | inr q ↦ absurd (ended b a p.2 q.0)
                      ]
                    ],
                  ))
          ]
    ]
  where
    f : Finish
    f = stop_with interrupted "停机超时"

    ended : (b a : JobRun) → b ≡ finished f clock a → is_running b.status ≡ true → ⊥
    ended b a p q = cc
