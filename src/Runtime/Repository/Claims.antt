-- ===== src/Runtime/Repository/Claims.antt =====
-- Which run a claim takes: an independent description of the candidates, and the order among them.
use fin_data_platform.Prelude.{
  ℕ, ◌≤◌, ◌<◌, ◌≡◌, refl, String, true, false, not, ◌⊎◌, inl, inr, ◌↔◌, Option, none, some, arith,
  nat_eq, string_eq, pair_eq, or_else, head?, sorted, filter, elem, any_head, any-sorted,
  head-sorted-le, Bool-cases, Option-cases, sym, ap, subst, ◌∙◌, some_injective,
}
use fin_data_platform.Dict.{get, values}
use fin_data_platform.Dict.Laws.{get-put_self, elem_of_get, get_of_elem, any_of_get-filter}
use fin_data_platform.Runtime.Models.{DateTime, JobRun, is_claimable, is_running}
use fin_data_platform.Runtime.Repository.{
  Repository, scope_of, running_scopes, is_candidate, claim_order, claimed, claim_next,
}
use fin_data_platform.Runtime.Repository.Invariant.{Stored, IsValid}
use fin_data_platform.Runtime.Repository.Preserves.{claim_found}

-- A run waits, is due, and nothing of its (dataset, scope) runs.
pub record Claimable (r : Repository) (moment : DateTime) (run : JobRun) : Type 0 where
  pub waits : is_claimable run.status ≡ true
  pub due : run.scheduled_at ≤ moment
  pub free :
      (j : ℕ) (c : JobRun)
      → Stored r j c
      → is_running c.status ≡ true
      → c.dataset ≡ run.dataset
      → c.scope ≡ run.scope
      → ⊥

-- `a` goes before `b`: by priority, then by number.
abbrev pub Before : JobRun → JobRun → Type 0
Before a b = (a.priority < b.priority) ⊎ (a.priority ≡ b.priority) × (a.run_id ≤ b.run_id)

Claimable-of :
    (r : Repository) (moment : DateTime) (run : JobRun)
    → is_candidate r moment run ≡ true
    → Claimable r moment run
Claimable-of r moment run c = record {
  waits = ground arith;
  due = ground arith;
  free = λ j d h running ds sc.
      let busy : elem (scope_of run) (running_scopes r) ≡ true =
        rw (← ds, ← sc) (elem_of_get scope_of (λ x. is_running x.status) j d r.runs h running) in
      ground arith;
}

candidate_of :
    (r : Repository) (moment : DateTime) (run : JobRun)
    → IsValid r
    → Claimable r moment run
    → is_candidate r moment run ≡ true
candidate_of r moment run v c = elim (Bool-cases (elem (scope_of run) (running_scopes r))) [
  | inr f ↦ ground (arith, c.waits, c.due)
  | inl t ↦
      let (j, d, h, running, same) =
        get_of_elem scope_of (λ x. is_running x.status) (scope_of run) r.runs v.distinct t in
      absurd (c.free j d h running (ap (λ p. p.0) same) (ap (λ p. p.1) same))
]

claim_order-total : (a b : JobRun) → claim_order a b ≡ false → claim_order b a ≡ true
claim_order-total a b h = ground arith

claim_order_trans :
    (a b c : JobRun) → claim_order a b ≡ true → claim_order b c ≡ true → claim_order a c ≡ true
claim_order_trans a b c h k = ground arith

claim_order_refl : (a : JobRun) → claim_order a a ≡ true
claim_order_refl a = ground arith

abbrev pub chosen : Repository → DateTime → Option JobRun
chosen r moment = head? (sorted claim_order (filter (is_candidate r moment) (values r.runs)))

-- No stored run waits, is due and has an idle (dataset, scope).
abbrev pub IsIdle : Repository → DateTime → Type 0
IsIdle r moment = (i : ℕ) (a : JobRun) → get i r.runs ≡ some a → ¬ Claimable r moment a

-- The head of the sorted candidates goes before every candidate.
pub chosen_first :
    (r : Repository) (moment : DateTime) (run : JobRun)
    → head? (sorted claim_order (filter (is_candidate r moment) (values r.runs))) ≡ some run
    → (i : ℕ) (a : JobRun) → Stored r i a
    → is_candidate r moment a ≡ true
    → Before run a
chosen_first r moment run e i a h c = elim (Bool-cases (claim_order run a)) [
  | inl t ↦ ground arith
  | inr f ↦ cc (
    head-sorted-le claim_order claim_order-total claim_order_trans claim_order_refl _ run e,
    any_of_get-filter (is_candidate r moment) (λ y. not (claim_order run y)) i a r.runs h c
        (rw f refl),
  )
]

-- On a valid repository, a claim that returns a run took a stored run that waits, is due and whose (dataset, scope) is
-- idle. What it returns is that run, running, with the worker and the moment written in, and it is
-- what is stored under the number from then on.
pub claim_next-some :
    (worker : String) (now : Option DateTime) (clock : DateTime) (r : Repository) (run : JobRun)
    → IsValid r
    → (claim_next worker now clock r).0 ≡ some run
    → (old : JobRun) × (get old.run_id r.runs ≡ some old)
      × (run ≡ claimed worker (or_else now clock) old)
      × Claimable r (or_else now clock) old
      × (get run.run_id (claim_next worker now clock r).1.runs ≡ some run)
unfolding claim_next
claim_next-some worker now clock r run v h = elim (Option-cases (chosen r moment)) [
  | inl e ↦ cc (rw (e, claim_next) at h)
  | inr (old, e) ↦
      let (stored, can) = claim_found r moment old v e in
      let same : claimed worker moment old ≡ run = some_injective (rw (e, claim_next) at h) in
      (
        old,
        stored,
        sym same,
        Claimable-of r moment old can,
        rw (e, claim_next)
            (rw (← same) (get-put_self old.run_id (claimed worker moment old) r.runs)),
      )
]
  where
    moment : DateTime
    moment = or_else now clock

-- The run that a claim on a valid repository returns goes before every stored run that waits, is due and has an idle
-- (dataset, scope): by its priority and, at one priority, by its number.
pub claim_next-Before :
    (worker : String) (now : Option DateTime) (clock : DateTime) (r : Repository) (run : JobRun)
    (i : ℕ) (a : JobRun)
    → IsValid r
    → (claim_next worker now clock r).0 ≡ some run
    → get i r.runs ≡ some a
    → Claimable r (or_else now clock) a
    → Before run a
unfolding claim_next
claim_next-Before worker now clock r run i a v h k c = elim (Option-cases (chosen r moment)) [
  | inl e ↦ cc (rw (e, claim_next) at h)
  | inr (old, e) ↦
      let same : claimed worker moment old ≡ run = some_injective (rw (e, claim_next) at h) in
      subst (λ x. Before x a) same (chosen_first r moment old e i a k (candidate_of r moment a v c))
]
  where
    moment : DateTime
    moment = or_else now clock

-- A claim on a valid repository returns nothing exactly when no stored run waits, is due and has an idle (dataset, scope).
pub claim_next-none :
    (worker : String) (now : Option DateTime) (clock : DateTime) (r : Repository)
    → IsValid r
    → ((claim_next worker now clock r).0 ≡ none) ↔ IsIdle r (or_else now clock)
unfolding claim_next
claim_next-none worker now clock r v = elim (Option-cases (chosen r moment)) [
  | inl e ↦ (
    λ _ i a h c. cc (any_head-sorted e i a h (candidate_of r moment a v c)),
    λ _. rw (e, claim_next) refl,
  )
  | inr (old, e) ↦
      let (stored, can) = claim_found r moment old v e in
      (
        λ h. cc (rw (e, claim_next) at h),
        λ idle. absurd (idle old.run_id old stored (Claimable-of r moment old can)),
      )
]
  where
    moment : DateTime
    moment = or_else now clock

    any_head-sorted :
        chosen r moment ≡ none
        → (i : ℕ) (a : JobRun) → get i r.runs ≡ some a
        → is_candidate r moment a ≡ true
        → false ≡ true
    any_head-sorted e i a h c =
        sym (any_head (is_candidate r moment) _ e)
        ∙ any-sorted claim_order (is_candidate r moment) _
        ∙ any_of_get-filter (is_candidate r moment) (is_candidate r moment) i a r.runs h c c

-- A claim that returns nothing changes nothing.
pub claim_next_idle :
    (worker : String) (now : Option DateTime) (clock : DateTime) (r : Repository)
    → (claim_next worker now clock r).0 ≡ none
    → (claim_next worker now clock r).1 ≡ r
unfolding claim_next
claim_next_idle worker now clock r h = elim (Option-cases (chosen r (or_else now clock))) [
  | inl e ↦ rw (e, claim_next) refl
  | inr (old, e) ↦ cc (rw (e, claim_next) at h)
]
