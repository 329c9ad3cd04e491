-- ===== src/Runtime/Repository/Invariant/Writes.antt =====
-- The two ways in which the repository writes a run: in the place of a stored one, or as a new one.
use fin_data_platform.Prelude.{
  ℕ, ◌+◌, ◌≤◌, ◌≡◌, ◌≢◌, subst, true, false, ◌⊎◌, inl, inr, arith, max, nat_eq, Bool-cases, nat_beq,
}
use fin_data_platform.Dict.{put}
use fin_data_platform.Dict.Laws.{get-put, put-IsDistinct}
use fin_data_platform.Runtime.Models.{JobRun, is_running}
use fin_data_platform.Runtime.Repository.{Repository, is_live}
use fin_data_platform.Runtime.Repository.Invariant.{Stored, IsValid}

-- The new content `b` of a place that held `a`: the same job, not livelier, within the budget, and
-- running only where it ran before or nothing of its scope runs.
pub record Revises (r : Repository) (a b : JobRun) : Type 0 where
  pub run_id : b.run_id ≡ a.run_id
  pub job_key : b.job_key ≡ a.job_key
  pub dataset : b.dataset ≡ a.dataset
  pub scope : b.scope ≡ a.scope
  pub live : is_live b.status ≡ true → is_live a.status ≡ true
  pub alone :
      is_running b.status ≡ true
      → (j : ℕ) (c : JobRun) → Stored r j c
      → is_running c.status ≡ true
      → c.dataset ≡ a.dataset
      → c.scope ≡ a.scope
      → ⊥
  pub budget : (1 ≤ b.attempt) × (b.attempt ≤ max 1 b.max_attempts)

module _ (r : Repository) (i : ℕ) (a b : JobRun) where
  abbrev revised : Repository
  revised = record r { runs = put i b r.runs }

  -- What stands in a place after the write.
  Stored-revised :
      (j : ℕ) (c : JobRun) → Stored revised j c → ((i ≡ j) × (b ≡ c)) ⊎ (i ≢ j) × Stored r j c
  Stored-revised j c h = elim (Bool-cases (nat_beq i j)) [
    | inl t ↦ inl (ground arith, ground (arith, get-put i j b r.runs))
    | inr f ↦ inr (λ e. ground arith, ground (arith, get-put i j b r.runs))
  ]

  module _ (v : IsValid r) (old : Stored r i a) (w : Revises r a b) where
    exclusive_revised :
        (j k : ℕ) (c d : JobRun)
        → Stored revised j c
        → Stored revised k d
        → is_running c.status ≡ true
        → is_running d.status ≡ true
        → c.dataset ≡ d.dataset
        → c.scope ≡ d.scope
        → j ≡ k
    exclusive_revised j k c d hc hd rc rd ds sc = elim (Stored-revised j c hc) [
      | inl p ↦ elim (Stored-revised k d hd) [
        | inl q ↦ omega arith
        | inr q ↦ absurd (w.alone (cc) k d q.1 rd (cc w.dataset) (cc w.scope))
      ]
      | inr p ↦ elim (Stored-revised k d hd) [
        | inl q ↦ absurd (w.alone (cc) j c p.1 rc (cc w.dataset) (cc w.scope))
        | inr q ↦ v.exclusive j k c d p.1 q.1 rc rd ds sc
      ]
    ]

    unique_revised :
        (j k : ℕ) (c d : JobRun)
        → Stored revised j c
        → Stored revised k d
        → is_live c.status ≡ true
        → is_live d.status ≡ true
        → c.job_key ≡ d.job_key
        → j ≡ k
    unique_revised j k c d hc hd lc ld same = elim (Stored-revised j c hc) [
      | inl p ↦ elim (Stored-revised k d hd) [
        | inl q ↦ omega arith
        | inr q ↦ omega (arith, v.unique_key i k a d old q.1 (w.live (cc)) ld (cc w.job_key))
      ]
      | inr p ↦ elim (Stored-revised k d hd) [
        | inl q ↦ omega (arith, v.unique_key j i c a p.1 old lc (w.live (cc)) (cc w.job_key))
        | inr q ↦ v.unique_key j k c d p.1 q.1 lc ld same
      ]
    ]

    pub revised-IsValid : IsValid revised
    revised-IsValid = record {
      distinct = put-IsDistinct i b r.runs v.distinct;
      numbered = λ j c h. elim (Stored-revised j c h) [
        | inl p ↦ ground (arith, v.numbered i a old, w.run_id)
        | inr p ↦ v.numbered j c p.1
      ];
      exclusive = exclusive_revised;
      unique_key = unique_revised;
      budget = λ j c h. elim (Stored-revised j c h) [
        | inl p ↦ subst (λ x. (1 ≤ x.attempt) × (x.attempt ≤ max 1 x.max_attempts)) p.1 w.budget
        | inr p ↦ v.budget j c p.1
      ];
    }

-- A new run at the next number: nothing of its key is alive, and it is not running.
module _ (r : Repository) (b : JobRun) where
  abbrev extended : Repository
  extended = record r { runs = put r.next_run_id b r.runs; next_run_id = r.next_run_id + 1 }

  Stored-extended :
      (j : ℕ) (c : JobRun) → Stored extended j c → ((r.next_run_id ≡ j) × (b ≡ c)) ⊎ Stored r j c
  Stored-extended j c h = elim (Bool-cases (nat_beq r.next_run_id j)) [
    | inl t ↦ inl (ground arith, ground (arith, get-put r.next_run_id j b r.runs))
    | inr f ↦ inr (ground (arith, get-put r.next_run_id j b r.runs))
  ]

  module _ (v : IsValid r) (number : b.run_id ≡ r.next_run_id) (idle : is_running b.status ≡ false)
      (fits : (1 ≤ b.attempt) × (b.attempt ≤ max 1 b.max_attempts))
      (fresh : (j : ℕ) (c : JobRun)
        → Stored r j c
        → is_live c.status ≡ true
        → c.job_key ≡ b.job_key
        → ⊥) where
    pub extended-IsValid : IsValid extended
    extended-IsValid = record {
      distinct = put-IsDistinct r.next_run_id b r.runs v.distinct;
      numbered = λ j c h. elim (Stored-extended j c h) [
        | inl p ↦ ground arith
        | inr p ↦ omega (arith, v.numbered j c p)
      ];
      exclusive = λ j k c d hc hd rc rd ds sc. elim (Stored-extended j c hc) [
        | inl p ↦ cc
        | inr p ↦ elim (Stored-extended k d hd) [
          | inl q ↦ cc
          | inr q ↦ v.exclusive j k c d p q rc rd ds sc
        ]
      ];
      unique_key = λ j k c d hc hd lc ld same. elim (Stored-extended j c hc) [
        | inl p ↦ elim (Stored-extended k d hd) [
          | inl q ↦ omega arith
          | inr q ↦ absurd (fresh k d q ld (cc))
        ]
        | inr p ↦ elim (Stored-extended k d hd) [
          | inl q ↦ absurd (fresh j c p lc (cc))
          | inr q ↦ v.unique_key j k c d p q lc ld same
        ]
      ];
      budget = λ j c h. elim (Stored-extended j c h) [
        | inl p ↦ subst (λ x. (1 ≤ x.attempt) × (x.attempt ≤ max 1 x.max_attempts)) p.1 fits
        | inr p ↦ v.budget j c p
      ];
    }
