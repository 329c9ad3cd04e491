-- ===== src/Runtime/Sql/Claiming.antt =====
-- `claim_next` of the SQL repository does what the one in memory does.
use fin_data_platform.Prelude.{
  ℕ, ◌≡◌, refl, sym, ap, ◌∙◌, String, true, false, ◌&&◌, inl, inr, Option, none, some, arith, elem,
  filter, sorted, ◌==◌, nat_eq, string_eq, pair_eq, beq→eq, beq_refl, or_else, any_head, any-sorted,
  Bool-cases, Option-cases, and_left, and_right,
}
use fin_data_platform.Dict.{values}
use fin_data_platform.Dict.Laws.{get-put_self, elem_of_get, get_of_elem, any_of_get-filter}
use fin_data_platform.Outcome.{ok}
use fin_data_platform.Runtime.Models.{DateTime, JobRun, is_running}
use fin_data_platform.Runtime.Repository.{
  Repository, scope_of, running_scopes, is_candidate, claim_order, claimed,
}
use fin_data_platform.Runtime.Repository as Memory
use fin_data_platform.Runtime.Repository.Invariant.{IsValid, Stored}
use fin_data_platform.Runtime.Repository.Preserves.{claim_found}
use fin_data_platform.Runtime.Repository.Claims.{chosen, chosen_first}
use fin_data_platform.Runtime.Sql
use fin_data_platform.Runtime.Sql.{
  has_run_id, required, read_back, scope_busy, is_claimed_next, is_still,
}
use fin_data_platform.Runtime.Sql.Statements.{Table, Laws}
use fin_data_platform.Runtime.Sql.Refines.{Agrees, Refines, same_run, update-Refines, read-stored}

busy :
    (other run : JobRun)
    → is_running other.status ≡ true
    → other.dataset ≡ run.dataset
    → other.scope ≡ run.scope
    → (other.dataset == run.dataset && other.scope == run.scope && is_running other.status) ≡ true
busy other run runs ds sc =
    ground
      (arith, string_eq.beq_iff other.dataset run.dataset, string_eq.beq_iff other.scope run.scope)

-- No choice means no candidate.
chosen-none :
    (r : Repository) (moment : DateTime) (i : ℕ) (a : JobRun)
    → chosen r moment ≡ none
    → Stored r i a
    → is_candidate r moment a ≡ false
chosen-none r moment i a e h = elim (Bool-cases (is_candidate r moment a)) [
  | inr t ↦ t
  | inl t ↦ cc (
    any_head (is_candidate r moment)
        (sorted claim_order (filter (is_candidate r moment) (values r.runs))) e,
    any-sorted claim_order (is_candidate r moment) (filter (is_candidate r moment) (values r.runs)),
    any_of_get-filter (is_candidate r moment) (is_candidate r moment) i a r.runs h t t,
    t,
  )
]

module _ {State : Type 0} (table : Table State) (laws : Laws table) where
  -- The subquery finds a scope busy exactly if the list of running scopes has it.
  scope_busy-running_scopes :
      (s : State) (r : Repository) (run : JobRun)
      → IsValid r
      → Refines table laws s r
      → scope_busy table run s ≡ elem (scope_of run) (running_scopes r)
  unfolding scope_busy
  scope_busy-running_scopes s r run v f = elim (Bool-cases (scope_busy table run s)) [
    | inl t ↦
        let (other, holds, here, _) = laws.select_found _ (λ _. true) s t in
        let ds : other.dataset ≡ run.dataset = beq→eq _ _ (and_left _ _ (and_left _ _ here)) in
        let sc : other.scope ≡ run.scope = beq→eq _ _ (and_right _ _ (and_left _ _ here)) in
        t
        ∙ sym (
            rw (← ds, ← sc)
              (elem_of_get scope_of (λ x. is_running x.status) other.run_id other r.runs
                (f.stored other holds) (and_right _ _ here)))
    | inr t ↦ elim (Bool-cases (elem (scope_of run) (running_scopes r))) [
      | inr u ↦ t ∙ sym u
      | inl u ↦
          let (j, other, h, runs, same) =
            get_of_elem scope_of (λ x. is_running x.status) (scope_of run) r.runs v.distinct u in
          let found : scope_busy table run s ≡ true =
            laws.select_held _ (λ _. true) s other (f.held j other h)
              (busy other run runs (ap (λ p. p.0) same) (ap (λ p. p.1) same)) refl in
          cc
    ]
  ]

  is_claimed_next-is_candidate :
      (s : State) (r : Repository) (moment : DateTime) (run : JobRun)
      → IsValid r
      → Refines table laws s r
      → is_claimed_next table moment s run ≡ is_candidate r moment run
  is_claimed_next-is_candidate s r moment run v f = rw (scope_busy-running_scopes s r run v f) refl

  -- The first row of the query is the run that the repository in memory chooses.
  first-chosen :
      (moment : DateTime) (s : State) (r : Repository)
      → IsValid r
      → Refines table laws s r
      → table.first (λ run. run.priority) (λ run. run.run_id) (is_claimed_next table moment s) s
        ≡ chosen r moment
  first-chosen moment s r v f =
      elim (Option-cases (
        table.first (λ run. run.priority) (λ run. run.run_id) (is_claimed_next table moment s) s)) [
          | inl none_first ↦ elim (Option-cases (chosen r moment)) [
            | inl e ↦ none_first ∙ sym e
            | inr (run, e) ↦
                let (stored, can) = claim_found r moment run v e in
                cc (
                  laws.first_none _ _ _ s run none_first (f.held run.run_id run stored),
                  is_claimed_next-is_candidate s r moment run v f,
                  can,
                )
          ]
          | inr (row, found) ↦
              let (holds, met, least) = laws.first_some _ _ _ s row found in
              let can : is_candidate r moment row ≡ true =
                sym (is_claimed_next-is_candidate s r moment row v f) ∙ met in
              elim (Option-cases (chosen r moment)) [
                | inl e ↦ cc (chosen-none r moment row.run_id row e (f.stored row holds), can)
                | inr (run, e) ↦
                    let (stored, other_can) = claim_found r moment run v e in
                    let order =
                      least run (f.held run.run_id run stored)
                        (is_claimed_next-is_candidate s r moment run v f ∙ other_can) in
                    let before =
                      chosen_first r moment run e row.run_id row (f.stored row holds) can in
                    let same : row ≡ run =
                      same_run table laws r run.run_id row run (f.stored row holds) stored
                        (ground arith) in
                    found ∙ ap some same ∙ sym e
              ]
        ]

  -- With the same runs in a table and in a valid repository: a claim of the SQL repository answers with
  -- the run that the one in memory answers with, if there is one, and the table holds the same runs
  -- again.
  pub claim_next-Refines :
      (worker : String) (now : Option DateTime) (clock : DateTime) (s : State) (r : Repository)
      → IsValid r
      → Refines table laws s r
      → Agrees
          (Sql.claim_next table worker now clock s).0
          (ok (Memory.claim_next worker now clock r).0)
        × Refines table laws
            (Sql.claim_next table worker now clock s).1
            (Memory.claim_next worker now clock r).1
  unfolding Sql.claim_next Memory.claim_next Sql.take read_back required
  claim_next-Refines worker now clock s r v f = elim (Option-cases (chosen r (or_else now clock))) [
    | inl e ↦
        rw (e, Memory.claim_next)
          (rw (first-chosen (or_else now clock) s r v f ∙ e, Sql.claim_next) (refl, f))
    | inr (run, e) ↦
        let (stored, can) = claim_found r (or_else now clock) run v e in
        let after =
          update-Refines table laws s r (is_still run.run_id) (claimed worker (or_else now clock))
            run.run_id run v f stored (rw (beq_refl run.run_id) (and_left _ _ (and_left _ _ can)))
            (λ other met. beq→eq other.run_id run.run_id (and_left _ _ met)) (λ other. refl) in
        let back =
          read-stored table laws _ _ run.run_id (claimed worker (or_else now clock) run) after refl
            (get-put_self run.run_id (claimed worker (or_else now clock) run) r.runs) in
        rw (e, Memory.claim_next)
          (rw (first-chosen (or_else now clock) s r v f ∙ e, Sql.claim_next)
            (rw (back, Sql.take, read_back) (refl, after)))
  ]
