-- ===== src/Runtime/Sql/Creation.antt =====
-- `create_run` of the SQL repository does what the one in memory does.
use fin_data_platform.Prelude.{
  ℕ, ◌≡◌, refl, sym, ◌∙◌, String, ◌&&◌, inl, inr, Option, some, any, ◌==◌, nat_eq, string_eq,
  Bool-cases,
}
use fin_data_platform.Dict.{values}
use fin_data_platform.Dict.Laws.{get-put_self}
use fin_data_platform.Outcome.{ok, Outcome-cases}
use fin_data_platform.Runtime.Keys.{Payload, job_key}
use fin_data_platform.Runtime.Models.{DateTime, JobRun, JobIntent}
use fin_data_platform.Runtime.Repository.{Repository, is_live, new_run, payload}
use fin_data_platform.Runtime.Repository as Memory
use fin_data_platform.Runtime.Repository.Invariant.{IsValid}
use fin_data_platform.Runtime.Sql
use fin_data_platform.Runtime.Sql.{has_run_id, required, read_back}
use fin_data_platform.Runtime.Sql.Statements.{Table, Laws}
use fin_data_platform.Runtime.Sql.Refines.{Agrees, Refines, any-select, insert-Refines, read-stored}

module _ {State : Type 0} (table : Table State) (laws : Laws table) where
  create_keyed-Refines :
      (key : String) (intent : JobIntent) (request_id : Option String) (clock : DateTime)
      (s : State) (r : Repository)
      → IsValid r
      → Refines table laws s r
      → Agrees
          (Sql.create_keyed table key intent request_id clock s).0
          (ok (Memory.create_keyed key intent request_id clock r).0)
        × Refines table laws
            (Sql.create_keyed table key intent request_id clock s).1
            (Memory.create_keyed key intent request_id clock r).1
  unfolding Sql.create_keyed Memory.create_keyed Sql.read_back Sql.required
  create_keyed-Refines key intent request_id clock s r v f =
      elim (Bool-cases
        (any (λ run. is_live run.status) (table.select (λ run. run.job_key == key) s))) [
          | inl t ↦ rw (t, sym same ∙ t, Sql.create_keyed, Memory.create_keyed) (refl, f)
          | inr t ↦
              let after = insert-Refines table laws s r make v f (λ i. refl) in
              let number : (table.insert make s).0 ≡ r.next_run_id =
                laws.insert_id make s ∙ f.next in
              let back : table.one (has_run_id r.next_run_id) (table.insert make s).1
                  ≡ ok (some (make r.next_run_id)) =
                read-stored table laws _ _ r.next_run_id (make r.next_run_id) after refl
                  (get-put_self r.next_run_id (make r.next_run_id) r.runs) in
              rw (t, sym same ∙ t, Sql.create_keyed, Memory.create_keyed)
                (rw (number, back, Sql.read_back) (refl, after))
        ]
    where
      make : ℕ → JobRun
      make run_id = new_run run_id key intent request_id clock

      same :
          any (λ run. is_live run.status) (table.select (λ run. run.job_key == key) s)
          ≡ any (λ run. run.job_key == key && is_live run.status) (values r.runs)
      same = any-select table laws s r _ _ _ v f (λ run. refl)

  -- With the same runs in a table and in a valid repository: `create_run` of the SQL repository answers
  -- as the one in memory does (the same new run, no run, or an error of the key), and the table holds
  -- the same runs again.
  pub create_run-Refines :
      (digest : Payload → String) (intent : JobIntent) (request_id : Option String)
      (clock : DateTime) (s : State) (r : Repository)
      → IsValid r
      → Refines table laws s r
      → Agrees
          (Sql.create_run table digest intent request_id clock s).0
          (Memory.create_run digest intent request_id clock r).0
        × Refines table laws
            (Sql.create_run table digest intent request_id clock s).1
            (Memory.create_run digest intent request_id clock r).1
  unfolding Sql.create_run Memory.create_run
  create_run-Refines digest intent request_id clock s r v f =
      elim (Outcome-cases (job_key digest (payload intent))) [
        | inr (e, h) ↦ rw (h, Sql.create_run, Memory.create_run) (tt, f)
        | inl (key, h) ↦
            rw (h, Sql.create_run, Memory.create_run)
              (create_keyed-Refines key intent request_id clock s r v f)
      ]
