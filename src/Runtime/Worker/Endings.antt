-- ===== src/Runtime/Worker/Endings.antt =====
-- How a round of a worker ends: the write of the end, and the counters.
use fin_data_platform.Prelude.{
  ℕ, ◌≡◌, refl, String, true, false, Bool-cases, inl, inr, string_eq, nat_eq, ltb,
}
use fin_data_platform.Dict.Laws.{get-put_self}
use fin_data_platform.Outcome.{Outcome, ok}
use fin_data_platform.Runtime.Models.{DateTime, JobRun, is_running}
use fin_data_platform.Runtime.Repository.{Repository, Finish, finish, finished, retry, fail}
use fin_data_platform.Runtime.Repository.Invariant.{Stored, IsValid}
use fin_data_platform.Runtime.Repository.Preserves.{fail-IsValid}
use fin_data_platform.Runtime.Repository.Lifecycle.{is_final}
use fin_data_platform.Runtime.Worker.{Worker, failed_with}

-- A result of a round's end: a run that is not running, stored under its number.
pub record Ended (i : ℕ) (result : Outcome JobRun × Repository) : Type 0 where
  pub run : JobRun
  pub answers : result.0 ≡ ok run
  pub stored : Stored result.1 i run
  pub stopped : is_running run.status ≡ false

pub finish-Ended :
    (i : ℕ) (f : Finish) (clock : DateTime) (r : Repository) (a : JobRun)
    → is_running f.status ≡ false
    → Stored r i a
    → Ended i (finish i f clock r)
unfolding finish
finish-Ended i f clock r a stops h = elim (Bool-cases (is_running a.status)) [
  | inl t ↦ record {
    run = finished f clock a;
    answers = rw (h, finish) (rw t refl);
    stored = rw (h, finish) (rw t (get-put_self i (finished f clock a) r.runs));
    stopped = stops;
  }
  | inr t ↦ record {
    run = a;
    answers = rw (h, finish) (rw t refl);
    stored = rw (h, finish) (rw t h);
    stopped = t;
  }
]

pub fail-Ended :
    (i : ℕ) (reason : String) (clock : DateTime) (r : Repository) (a : JobRun)
    → Stored r i a
    → Ended i (fail i reason clock r)
unfolding fail
fail-Ended i reason clock r a h = elim (Bool-cases (ltb a.attempt a.max_attempts)) [
  | inl t ↦ rw (h, fail) (rw t (finish-Ended i (retry reason clock a) clock r a refl h))
  | inr t ↦ rw (h, fail) (rw t (finish-Ended i _ clock r a refl h))
]

-- A round up to its counters: it answers with the run of the number, not running, the repository is
-- valid, a final run is stored as it was answered, and the number of busy threads is untouched.
pub record Closed (i busy : ℕ) (result : Outcome JobRun × Worker) : Type 0 where
  pub run : JobRun
  pub answers : result.0 ≡ ok run
  pub numbered : run.run_id ≡ i
  pub stopped : is_running run.status ≡ false
  pub valid : IsValid result.1.repository
  pub kept : is_final run.status ≡ true → Stored result.1.repository run.run_id run
  pub same_busy : result.1.health.busy ≡ busy

pub failed_with-Closed :
    (reason : String) (run : JobRun) (clock : DateTime) (w : Worker) (a : JobRun)
    → IsValid w.repository
    → Stored w.repository run.run_id a
    → Closed run.run_id w.health.busy (failed_with reason run clock w)
unfolding failed_with
failed_with-Closed reason run clock w a v h =
    let e = fail-Ended run.run_id reason clock w.repository a h in
    let after : IsValid (fail run.run_id reason clock w.repository).1 =
      fail-IsValid run.run_id reason clock w.repository v in
    record {
      run = e.run;
      answers = rw (e.answers, failed_with) refl;
      numbered = (after.numbered run.run_id e.run e.stored).0;
      stopped = e.stopped;
      valid = rw (e.answers, failed_with) after;
      kept = λ _.
          rw (e.answers, failed_with) (rw (after.numbered run.run_id e.run e.stored).0 e.stored);
      same_busy = rw (e.answers, failed_with) refl;
    }
