-- ===== src/Runtime/Sql/Refines.antt =====
-- `SqlMetaRepository` against `InMemoryMetaRepository`: with the same runs, each method of the first
-- answers as the second does and leaves the same runs.
use fin_data_platform.Prelude.{
  ℕ, ◌+◌, ◌≡◌, refl, sym, ap, ◌∙◌, subst, Bool, true, false, ◌&&◌, inl, inr, none, some, arith, any,
  ◌==◌, nat_eq, string_eq, pair_eq, Bool-cases, beq_refl, beq→eq, some_injective,
}
use fin_data_platform.Dict.{get, put, values}
use fin_data_platform.Dict.Laws.{any_of_get, get_of_any, get-put, get-put_self}
use fin_data_platform.Outcome.{Outcome, ok, raise}
use fin_data_platform.Runtime.Models.{JobRun}
use fin_data_platform.Runtime.Repository.{Repository}
use fin_data_platform.Runtime.Repository.Invariant.{IsValid, Stored}
use fin_data_platform.Runtime.Sql.{has_run_id}
use fin_data_platform.Runtime.Sql.Statements.{Table, Laws}

-- Answers that agree: the same value, or both are errors.
abbrev pub Agrees : {A : Type 0} → Outcome A → Outcome A → Type 0
Agrees (ok a) (ok b) = a ≡ b
Agrees (ok a) (raise e) = ⊥
Agrees (raise e) (ok b) = ⊥
Agrees (raise e) (raise x) = Unit

module _ {State : Type 0} (table : Table State) (laws : Laws table) where
  -- The table holds the runs of the repository and nothing else, and gives out the same next number.
  pub record Refines (s : State) (r : Repository) : Type 0 where
    pub held : (i : ℕ) (run : JobRun) → Stored r i run → laws.Holds s run
    pub stored : (run : JobRun) → laws.Holds s run → Stored r run.run_id run
    pub next : laws.next s ≡ r.next_run_id

  pub any-select :
      (s : State) (r : Repository) (p q t : JobRun → Bool)
      → IsValid r
      → Refines s r
      → ((run : JobRun) → t run ≡ (p run && q run))
      → any q (table.select p s) ≡ any t (values r.runs)
  any-select s r p q t v f split = elim (Bool-cases (any q (table.select p s))) [
    | inl found ↦
        let (run, holds, pr, qr) = laws.select_found p q s found in
        found
        ∙ sym
            (any_of_get t run.run_id run r.runs (f.stored run holds) (split run ∙ rw (pr, qr) refl))
    | inr missing ↦ elim (Bool-cases (any t (values r.runs))) [
      | inr nowhere ↦ missing ∙ sym nowhere
      | inl found ↦
          let (i, run, here, tr) = get_of_any t r.runs v.distinct found in
          let both : (p run && q run) ≡ true = sym (split run) ∙ tr in
          absurd (
            ground
              (arith, laws.select_held p q s run (f.held i run here) (ground arith) (ground arith)))
    ]
  ]

  -- Reading a number gives what is stored under it.
  pub read-stored :
      (s : State) (r : Repository) (i : ℕ) (run : JobRun)
      → Refines s r
      → run.run_id ≡ i
      → Stored r i run
      → table.one (has_run_id i) s ≡ ok (some run)
  read-stored s r i run f number h =
      laws.one_some (has_run_id i) s run (f.held i run h) (rw number (beq_refl i))
        (λ other holds same.
          some_injective
            (sym (f.stored other holds) ∙ ap (λ j. get j r.runs) (beq→eq other.run_id i same) ∙ h))

  pub read-missing :
      (s : State) (r : Repository) (i : ℕ)
      → Refines s r
      → get i r.runs ≡ none
      → table.one (has_run_id i) s ≡ ok none
  read-missing s r i f h = laws.one_none (has_run_id i) s (λ run holds.
      elim (Bool-cases (has_run_id i run)) [
        | inr t ↦ t
        | inl t ↦
            let same : run.run_id ≡ i = beq→eq run.run_id i t in
            cc (sym (f.stored run holds) ∙ ap (λ j. get j r.runs) same ∙ h)
      ])

  -- An insertion of a new run
  pub insert-Refines :
      (s : State) (r : Repository) (make : ℕ → JobRun)
      → IsValid r
      → Refines s r
      → ((i : ℕ) → (make i).run_id ≡ i)
      → Refines (table.insert make s).1 (record r {
        runs = put (make r.next_run_id).run_id (make r.next_run_id) r.runs;
        next_run_id = r.next_run_id + 1;
      })
  insert-Refines s r make v f own = record {
    held = λ i run h. elim (Bool-cases ((make r.next_run_id).run_id == i)) [
      | inl t ↦
          let new : make r.next_run_id ≡ run =
            some_injective
              (ground (arith, get-put (make r.next_run_id).run_id i (make r.next_run_id) r.runs)) in
          subst (laws.Holds (table.insert make s).1) (ap make f.next ∙ new) (laws.insert_new make s)
      | inr t ↦ laws.insert_held make s run (
          f.held i run
            (ground (arith, get-put (make r.next_run_id).run_id i (make r.next_run_id) r.runs)))
    ];
    stored = λ run holds. elim (laws.insert_found make s run holds) [
      | inl old ↦
          let here = f.stored run old in
          let (_, below) = v.numbered run.run_id run here in
          let number = own r.next_run_id in
          ground (arith, get-put (make r.next_run_id).run_id run.run_id (make r.next_run_id) r.runs)
      | inr new ↦
          let same : make r.next_run_id ≡ run = ap make (sym f.next) ∙ sym new in
          subst
            (λ x.
              get x.run_id (put (make r.next_run_id).run_id (make r.next_run_id) r.runs) ≡ some x)
            same (get-put_self (make r.next_run_id).run_id (make r.next_run_id) r.runs)
    ];
    next = laws.insert_next make s ∙ ap (λ n. n + 1) f.next;
  }

  pub same_run :
      (r : Repository) (i : ℕ) (a b : JobRun)
      → Stored r a.run_id a
      → Stored r i b
      → a.run_id ≡ i
      → a ≡ b
  same_run r i a b h k e = some_injective (sym h ∙ ap (λ j. get j r.runs) e ∙ k)

  -- An update that meets one run
  pub update-Refines :
      (s : State) (r : Repository) (p : JobRun → Bool) (g : JobRun → JobRun) (i : ℕ) (run : JobRun)
      → IsValid r
      → Refines s r
      → Stored r i run
      → p run ≡ true
      → ((other : JobRun) → p other ≡ true → other.run_id ≡ i)
      → ((other : JobRun) → (g other).run_id ≡ other.run_id)
      → Refines (table.update p g s) (record r { runs = put i (g run) r.runs })
  update-Refines s r p g i run v f h pr only own = record {
    held = λ j other k. elim (Bool-cases (i == j)) [
      | inl t ↦
          let new : g run ≡ other = some_injective (ground (arith, get-put i j (g run) r.runs)) in
          subst (laws.Holds (table.update p g s)) (rw pr new)
            (laws.update_held p g s run (f.held i run h))
      | inr t ↦
          let here : Stored r j other = ground (arith, get-put i j (g run) r.runs) in
          let (number, _) = v.numbered j other here in
          let miss : p other ≡ false = elim (Bool-cases (p other)) [
            | inr u ↦ u
            | inl u ↦ let met = only other u in absurd (ground arith)
          ] in
          subst (laws.Holds (table.update p g s)) (rw miss refl)
            (laws.update_held p g s other (f.held j other here))
    ];
    stored = λ row holds.
        let (old, before, became) = laws.update_found p g s row holds in
        let here = f.stored old before in
        let (number, _) = v.numbered i run h in
        elim (Bool-cases (p old)) [
          | inl t ↦
              let same : old ≡ run = same_run r i old run here h (only old t) in
              let e : row ≡ g run = became ∙ rw t refl ∙ ap g same in
              subst (λ x. get x.run_id (put i (g run) r.runs) ≡ some x) (sym e)
                (ap (λ j. get j (put i (g run) r.runs)) (own run ∙ number)
                  ∙ get-put_self i (g run) r.runs)
          | inr t ↦
              let e : row ≡ old = became ∙ rw t refl in
              subst (λ x. get x.run_id (put i (g run) r.runs) ≡ some x) (sym e)
                (elim (Bool-cases (i == old.run_id)) [
                  | inr u ↦ ground (arith, get-put i old.run_id (g run) r.runs)
                  | inl u ↦
                      let same : old ≡ run = same_run r i old run here h (ground arith) in
                      cc (sym t, ap p same, pr)
                ])
        ];
    next = laws.update_next p g s ∙ f.next;
  }

  -- An update that meets no run
  pub update_nothing-Refines :
      (s : State) (r : Repository) (p : JobRun → Bool) (g : JobRun → JobRun)
      → Refines s r
      → ((other : JobRun) → laws.Holds s other → p other ≡ false)
      → Refines (table.update p g s) r
  update_nothing-Refines s r p g f miss = record {
    held = λ i run h.
        let holds = f.held i run h in
        subst (laws.Holds (table.update p g s)) (rw (miss run holds) refl)
          (laws.update_held p g s run holds);
    stored = λ row holds.
        let (old, before, became) = laws.update_found p g s row holds in
        let same : row ≡ old = became ∙ rw (miss old before) refl in
        subst (λ x. Stored r x.run_id x) (sym same) (f.stored old before);
    next = laws.update_next p g s ∙ f.next;
  }
