-- ===== src/Runtime/Sql/Moves.antt =====
-- The life of a run in the two repositories: the calls that create, claim and end runs, one by one and
-- in sequence. `interrupt_running`, the mirrored definitions and the watermarks are not among them.
use fin_data_platform.Prelude.{
  ℕ, ◌≡◌, ap, String, true, nat_eq, Option, some, List, [], ◌∷◌, ◌∙◌, arith, sym, some_injective,
}
use fin_data_platform.Dict.{get}
use fin_data_platform.Outcome.{Outcome, ok, raise, ◌>>=◌}
use fin_data_platform.Runtime.Keys.{Payload}
use fin_data_platform.Runtime.Models.{DateTime, JobIntent, JobRun, is_running}
use fin_data_platform.Runtime.Repository.{Repository, init}
use fin_data_platform.Runtime.Repository as Memory
use fin_data_platform.Runtime.Repository.Invariant.{IsValid, init-IsValid}
use fin_data_platform.Runtime.Repository.Preserves.{
  create_run-IsValid, claim_next-IsValid, succeed-IsValid, fail-IsValid, interrupt-IsValid,
}
use fin_data_platform.Runtime.Sql
use fin_data_platform.Runtime.Sql.Statements.{Table, Laws}
use fin_data_platform.Runtime.Sql.Refines.{Agrees, Refines}
use fin_data_platform.Runtime.Sql.Creation.{create_run-Refines}
use fin_data_platform.Runtime.Sql.Claiming.{claim_next-Refines}
use fin_data_platform.Runtime.Sql.Endings.{succeed-Refines, fail-Refines, interrupt-Refines}

pub data Move : Type 0 where
  create_move : JobIntent → Option String → DateTime → Move
  claim_move : String → Option DateTime → DateTime → Move
  succeed_move : ℕ → ℕ → DateTime → Move
  fail_move : ℕ → String → DateTime → Move
  interrupt_move : ℕ → String → DateTime → Move

-- An answer with a run, as one that may have none
abbrev found : {S : Type 0} → Outcome JobRun × S → Outcome (Option JobRun) × S
found answer = (answer.0 >>= (λ run. ok (some run)), answer.1)

found-Agrees :
    (a b : Outcome JobRun)
    → Agrees a b
    → Agrees (a >>= (λ run. ok (some run))) (b >>= (λ run. ok (some run)))
found-Agrees (ok a) (ok b) h = ap some h
found-Agrees (ok a) (raise e) h = h
found-Agrees (raise e) (ok b) h = h
found-Agrees (raise e) (raise x) h = h

module _ (digest : Payload → String) where
  unfoldable pub memory_move : Move → Repository → Outcome (Option JobRun) × Repository
  memory_move (create_move intent request_id clock) r =
      Memory.create_run digest intent request_id clock r
  memory_move (claim_move worker now clock) r =
      let (run, r') = Memory.claim_next worker now clock r in (ok run, r')
  memory_move (succeed_move i rows clock) r = found (Memory.succeed i rows clock r)
  memory_move (fail_move i reason clock) r = found (Memory.fail i reason clock r)
  memory_move (interrupt_move i reason clock) r = found (Memory.interrupt i reason clock r)

  memory_move-IsValid : (m : Move) (r : Repository) → IsValid r → IsValid (memory_move m r).1
  unfolding memory_move
  memory_move-IsValid (create_move intent request_id clock) r v =
      create_run-IsValid digest intent request_id clock r v
  memory_move-IsValid (claim_move worker now clock) r v = claim_next-IsValid worker now clock r v
  memory_move-IsValid (succeed_move i rows clock) r v = succeed-IsValid i rows clock r v
  memory_move-IsValid (fail_move i reason clock) r v = fail-IsValid i reason clock r v
  memory_move-IsValid (interrupt_move i reason clock) r v = interrupt-IsValid i reason clock r v

  unfoldable pub memory_moves : List Move → Repository → Repository
  unfolding memory_move
  memory_moves [] r = r
  memory_moves (m ∷ ms) r = memory_moves ms (memory_move m r).1

module _ (digest : Payload → String) {State : Type 0} (table : Table State) where
  unfoldable pub sql_move : Move → State → Outcome (Option JobRun) × State
  sql_move (create_move intent request_id clock) s =
      Sql.create_run table digest intent request_id clock s
  sql_move (claim_move worker now clock) s = Sql.claim_next table worker now clock s
  sql_move (succeed_move i rows clock) s = found (Sql.succeed table i rows clock s)
  sql_move (fail_move i reason clock) s = found (Sql.fail table i reason clock s)
  sql_move (interrupt_move i reason clock) s = found (Sql.interrupt table i reason clock s)

  unfoldable pub sql_moves : List Move → State → State
  unfolding sql_move
  sql_moves [] s = s
  sql_moves (m ∷ ms) s = sql_moves ms (sql_move m s).1

module _ (digest : Payload → String) {State : Type 0} (table : Table State)
    (laws : Laws table) where
  -- With the same runs in a table and in a valid repository: each of `create_run`, `claim_next`,
  -- `succeed`, `fail` and `interrupt` of the SQL repository answers as the one in memory does, with the
  -- same run, with none, or with an error where that one raises an error; and the table holds the same
  -- runs again.
  pub sql_move-Refines :
      (m : Move) (s : State) (r : Repository)
      → IsValid r
      → Refines table laws s r
      → Agrees (sql_move digest table m s).0 (memory_move digest m r).0
        × Refines table laws (sql_move digest table m s).1 (memory_move digest m r).1
  unfolding sql_move memory_move
  sql_move-Refines (create_move intent request_id clock) s r v f =
      create_run-Refines table laws digest intent request_id clock s r v f
  sql_move-Refines (claim_move worker now clock) s r v f =
      claim_next-Refines table laws worker now clock s r v f
  sql_move-Refines (succeed_move i rows clock) s r v f =
      let (same, after) = succeed-Refines table laws i rows clock s r v f in
      (found-Agrees _ _ same, after)
  sql_move-Refines (fail_move i reason clock) s r v f =
      let (same, after) = fail-Refines table laws i reason clock s r v f in
      (found-Agrees _ _ same, after)
  sql_move-Refines (interrupt_move i reason clock) s r v f =
      let (same, after) = interrupt-Refines table laws i reason clock s r v f in
      (found-Agrees _ _ same, after)

  sql_moves-Refines :
      (ms : List Move) (s : State) (r : Repository)
      → IsValid r
      → Refines table laws s r
      → Refines table laws (sql_moves digest table ms s) (memory_moves digest ms r)
        × IsValid (memory_moves digest ms r)
  unfolding sql_moves memory_moves
  sql_moves-Refines [] s r v f = (f, v)
  sql_moves-Refines (m ∷ ms) s r v f =
      sql_moves-Refines ms (sql_move digest table m s).1 (memory_move digest m r).1
        (memory_move-IsValid digest m r v) (sql_move-Refines m s r v f).1

  -- From a table without rows whose numbers start at 1, after any sequence of `create_run`,
  -- `claim_next`, `succeed`, `fail` and `interrupt`, each of them one transaction after the other: two
  -- rows of one (dataset, scope) that are running are one row.
  pub one_running_row :
      (ms : List Move) (s : State) (a b : JobRun)
      → ((row : JobRun) → laws.Holds s row → ⊥)
      → laws.next s ≡ 1
      → laws.Holds (sql_moves digest table ms s) a
      → laws.Holds (sql_moves digest table ms s) b
      → is_running a.status ≡ true
      → is_running b.status ≡ true
      → a.dataset ≡ b.dataset
      → a.scope ≡ b.scope
      → a ≡ b
  unfolding get
  one_running_row ms s a b empty start ha hb ra rb ds sc =
      let (f, v) = sql_moves-Refines ms s init init-IsValid (record {
        held = λ i run h. absurd (ground arith);
        stored = λ run holds. absurd (empty run holds);
        next = start;
      }) in
      let one = v.exclusive a.run_id b.run_id a b (f.stored a ha) (f.stored b hb) ra rb ds sc in
      some_injective (
        sym (f.stored a ha)
        ∙ ap (λ i. get i (memory_moves digest ms init).runs) one
        ∙ f.stored b hb)
