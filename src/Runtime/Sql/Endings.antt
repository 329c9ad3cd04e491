-- ===== src/Runtime/Sql/Endings.antt =====
-- `_finish` and its callers in the SQL repository do what those in memory do.
use fin_data_platform.Prelude.{
  ℕ, ◌≡◌, refl, sym, ap, ◌∙◌, String, Bool, false, ◌&&◌, inl, inr, none, some, ltb, nat_eq, beq→eq,
  beq_refl, Bool-cases, Option-cases, and_left,
}
use fin_data_platform.Dict.{get}
use fin_data_platform.Dict.Laws.{get-put_self}
use fin_data_platform.Runtime.Models.{DateTime, JobRun, is_running, dead, interrupted, succeeded}
use fin_data_platform.Runtime.Repository.{Repository, Finish, finished, success, stop_with, retry}
use fin_data_platform.Runtime.Repository as Memory
use fin_data_platform.Runtime.Repository.Invariant.{IsValid, Stored}
use fin_data_platform.Runtime.Sql
use fin_data_platform.Runtime.Sql.{
  Ending, ended, ends_with, retried, has_run_id, required, read_back,
}
use fin_data_platform.Runtime.Sql.Statements.{Table, Laws}
use fin_data_platform.Runtime.Sql.Refines.{
  Agrees, Refines, same_run, update-Refines, update_nothing-Refines, read-stored, read-missing,
}

-- The rows that `_finish` updates
abbrev is_finished_by : ℕ → JobRun → Bool
is_finished_by i run = has_run_id i run && is_running run.status

module _ {State : Type 0} (table : Table State) (laws : Laws table) where
  missed-none :
      (i : ℕ) (s : State) (r : Repository) (run : JobRun)
      → Refines table laws s r
      → get i r.runs ≡ none
      → laws.Holds s run
      → is_finished_by i run ≡ false
  missed-none i s r run f h holds = elim (Bool-cases (has_run_id i run)) [
    | inr t ↦ rw t refl
    | inl t ↦ cc (sym (f.stored run holds) ∙ ap (λ j. get j r.runs) (beq→eq run.run_id i t) ∙ h)
  ]

  missed-ended :
      (i : ℕ) (s : State) (r : Repository) (old run : JobRun)
      → Refines table laws s r
      → Stored r i old
      → is_running old.status ≡ false
      → laws.Holds s run
      → is_finished_by i run ≡ false
  missed-ended i s r old run f h stopped holds = elim (Bool-cases (has_run_id i run)) [
    | inr t ↦ rw t refl
    | inl t ↦
        let same : run ≡ old =
          same_run table laws r i run old (f.stored run holds) h (beq→eq run.run_id i t) in
        rw (t, same) stopped
  ]

  finish-Refines :
      (i : ℕ) (e : Ending) (m : Finish) (clock : DateTime) (s : State) (r : Repository)
      → IsValid r
      → Refines table laws s r
      → ((run : JobRun) → ended e clock run ≡ finished m clock run)
      → Agrees (Sql.finish table i e clock s).0 (Memory.finish i m clock r).0
        × Refines table laws (Sql.finish table i e clock s).1 (Memory.finish i m clock r).1
  unfolding Sql.finish Memory.finish read_back required
  finish-Refines i e m clock s r v f same = elim (Option-cases (get i r.runs)) [
    | inl h ↦
        let after =
          update_nothing-Refines table laws s r (is_finished_by i) (ended e clock) f
            (λ run holds. missed-none i s r run f h holds) in
        let back = read-missing table laws _ r i after h in
        rw (h, Memory.finish) (rw (back, Sql.finish, read_back) (tt, after))
    | inr (run, h) ↦ elim (Bool-cases (is_running run.status)) [
      | inr t ↦
          let (number, _) = v.numbered i run h in
          let after =
            update_nothing-Refines table laws s r (is_finished_by i) (ended e clock) f
              (λ other holds. missed-ended i s r run other f h t holds) in
          let back = read-stored table laws _ r i run after number h in
          rw (h, t, Memory.finish) (rw (back, Sql.finish, read_back) (refl, after))
      | inl t ↦
          let (number, _) = v.numbered i run h in
          let after =
            update-Refines table laws s r (is_finished_by i) (ended e clock) i run v f h
              (rw (number, beq_refl i) t) (λ other met. beq→eq other.run_id i (and_left _ _ met))
              (λ other. refl) in
          let back =
            read-stored table laws _ _ i (ended e clock run) after number
              (get-put_self i (ended e clock run) r.runs) in
          rw (h, t, Memory.finish)
            (rw (← same run) (rw (back, Sql.finish, read_back) (refl, after)))
    ]
  ]

  pub succeed-Refines :
      (i rows : ℕ) (clock : DateTime) (s : State) (r : Repository)
      → IsValid r
      → Refines table laws s r
      → Agrees (Sql.succeed table i rows clock s).0 (Memory.succeed i rows clock r).0
        × Refines table laws (Sql.succeed table i rows clock s).1 (Memory.succeed i rows clock r).1
  unfolding Sql.succeed Memory.succeed
  succeed-Refines i rows clock s r v f =
      finish-Refines i (ends_with succeeded (some rows) none) (success rows) clock s r v f
        (λ run. refl)

  pub interrupt-Refines :
      (i : ℕ) (reason : String) (clock : DateTime) (s : State) (r : Repository)
      → IsValid r
      → Refines table laws s r
      → Agrees (Sql.interrupt table i reason clock s).0 (Memory.interrupt i reason clock r).0
        × Refines table laws
            (Sql.interrupt table i reason clock s).1
            (Memory.interrupt i reason clock r).1
  unfolding Sql.interrupt Memory.interrupt
  interrupt-Refines i reason clock s r v f =
      finish-Refines i (ends_with interrupted none (some reason)) (stop_with interrupted reason)
        clock s r v f (λ run. refl)

  pub fail-Refines :
      (i : ℕ) (reason : String) (clock : DateTime) (s : State) (r : Repository)
      → IsValid r
      → Refines table laws s r
      → Agrees (Sql.fail table i reason clock s).0 (Memory.fail i reason clock r).0
        × Refines table laws (Sql.fail table i reason clock s).1 (Memory.fail i reason clock r).1
  unfolding Sql.fail Memory.fail Sql.get_run
  fail-Refines i reason clock s r v f = elim (Option-cases (get i r.runs)) [
    | inl h ↦
        rw (h, Memory.fail) (rw (read-missing table laws s r i f h, Sql.fail, Sql.get_run) (tt, f))
    | inr (run, h) ↦
        let (number, _) = v.numbered i run h in
        let found = read-stored table laws s r i run f number h in
        elim (Bool-cases (ltb run.attempt run.max_attempts)) [
          | inl t ↦
              rw (h, Memory.fail)
                (rw (found, Sql.fail, Sql.get_run)
                  (rw t (
                    finish-Refines i (retried reason clock run) (retry reason clock run) clock s r v
                      f (λ other. refl))))
          | inr t ↦
              rw (h, Memory.fail)
                (rw (found, Sql.fail, Sql.get_run)
                  (rw t (
                    finish-Refines i (ends_with dead none (some reason)) (stop_with dead reason)
                      clock s r v f (λ other. refl))))
        ]
  ]
