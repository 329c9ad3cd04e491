-- ===== src/Derived/Graph/Rounds.antt =====
-- What one round of `topological_order` keeps: every node is once ordered, ready or waiting.
use fin_data_platform.Prelude.{
  ℕ, ◌+◌, ◌-◌, ◌≡◌, refl, subst, inl, inr, true, false, not, ◌&&◌, List, [], ◌∷◌, filter, length,
  elem, if◌then◌else◌, ltb, pair_eq, string_eq, arith, count, length-append, length-filter-append,
  Bool-cases, Eq,
}
use fin_data_platform.Dict.{get, put, has, IsDistinct}
use fin_data_platform.Dict.Laws.{get-put, put-IsDistinct}
use fin_data_platform.Derived.Graph.{
  FactorId, Nodes, inputs_of, Degrees, degree_of, Sorting, lower, release,
}

abbrev pub factor_eq : Eq FactorId
factor_eq = pair_eq

abbrev pub waits : FactorId → Degrees → ℕ
waits factor indegree = if ltb 0 (degree_of factor indegree) then 1 else 0

-- How many nodes have a positive count
abbrev pub waiting : Degrees → ℕ
waiting [] = 0
waiting ((factor, degree) ∷ rest) = (if ltb 0 degree then 1 else 0) + waiting rest

-- The nodes among the inputs of a factor that are not yet ordered
abbrev pub missing : Nodes → List FactorId → FactorId → ℕ
missing nodes done factor =
    length (filter (λ up. has up nodes && not (elem up done)) (inputs_of factor nodes))

degree-put :
    (factor other : FactorId) (degree : ℕ) (indegree : Degrees)
    → degree_of other (put factor degree indegree)
      ≡ (if factor_eq.beq factor other then degree else degree_of other indegree)
degree-put factor other degree indegree = ground (arith, get-put factor other degree indegree)

waiting-put :
    (factor : FactorId) (degree : ℕ) (indegree : Degrees)
    → waiting (put factor degree indegree) + waits factor indegree
      ≡ waiting indegree + (if ltb 0 degree then 1 else 0)
unfolding put get
waiting-put factor degree [] = ground arith
waiting-put factor degree ((other, n) ∷ rest) = ground (arith, waiting-put factor degree rest)

-- A node moves from waiting to ready, or stays.
lower-count :
    (c x : FactorId) (s : Sorting)
    → count x (lower c s).ready + waits x (lower c s).indegree
      ≡ count x s.ready + waits x s.indegree
unfolding lower
lower-count c x s = ground (
  arith,
  degree-put c x (degree_of c s.indegree - 1) s.indegree,
  length-filter-append (factor_eq.beq x) s.ready (c ∷ []),
  factor_eq.beq_iff x c,
  factor_eq.beq_iff c x,
)

lower-length :
    (c : FactorId) (s : Sorting)
    → length (lower c s).ready + waiting (lower c s).indegree ≡ length s.ready + waiting s.indegree
unfolding lower
lower-length c s =
    ground
      (arith, waiting-put c (degree_of c s.indegree - 1) s.indegree, length-append s.ready (c ∷ []))

lower-degree :
    (c x : FactorId) (s : Sorting)
    → degree_of x (lower c s).indegree
      ≡ degree_of x s.indegree - (if factor_eq.beq x c then 1 else 0)
unfolding lower
lower-degree c x s = ground (
  arith,
  degree-put c x (degree_of c s.indegree - 1) s.indegree,
  factor_eq.beq_iff x c,
  factor_eq.beq_iff c x,
)

module _ (node : FactorId) (nodes : Nodes) where
  pub release-count :
      (cs : List FactorId) (s : Sorting) (x : FactorId)
      → count x (release node nodes cs s).ready + waits x (release node nodes cs s).indegree
        ≡ count x s.ready + waits x s.indegree
  unfolding release
  release-count [] s x = refl
  release-count (c ∷ cs) s x = elim (Bool-cases (elem node (inputs_of c nodes))) [
    | inl t ↦ rw (t, release) (omega (arith, release-count cs (lower c s) x, lower-count c x s))
    | inr t ↦ rw (t, release) (release-count cs s x)
  ]

  pub release-length :
      (cs : List FactorId) (s : Sorting)
      → length (release node nodes cs s).ready + waiting (release node nodes cs s).indegree
        ≡ length s.ready + waiting s.indegree
  unfolding release
  release-length [] s = refl
  release-length (c ∷ cs) s = elim (Bool-cases (elem node (inputs_of c nodes))) [
    | inl t ↦ rw (t, release) (omega (arith, release-length cs (lower c s), lower-length c s))
    | inr t ↦ rw (t, release) (release-length cs s)
  ]

  pub release-order : (cs : List FactorId) (s : Sorting) → (release node nodes cs s).order ≡ s.order
  unfolding release lower
  release-order [] s = refl
  release-order (c ∷ cs) s = elim (Bool-cases (elem node (inputs_of c nodes))) [
    | inl t ↦ rw (t, release) (release-order cs (lower c s))
    | inr t ↦ rw (t, release) (release-order cs s)
  ]

  pub release-IsDistinct :
      (cs : List FactorId) (s : Sorting)
      → IsDistinct s.indegree
      → IsDistinct (release node nodes cs s).indegree
  unfolding release lower
  release-IsDistinct [] s d = d
  release-IsDistinct (c ∷ cs) s d = elim (Bool-cases (elem node (inputs_of c nodes))) [
    | inl t ↦
        rw (t, release)
          (release-IsDistinct cs (lower c s)
            (put-IsDistinct c (degree_of c s.indegree - 1) s.indegree d))
    | inr t ↦ rw (t, release) (release-IsDistinct cs s d)
  ]

  -- The count of a factor falls by one for each time it is a candidate, if the node is its input.
  pub release-degree :
      (cs : List FactorId) (s : Sorting) (x : FactorId)
      → degree_of x (release node nodes cs s).indegree
        ≡ degree_of x s.indegree - (if elem node (inputs_of x nodes) then count x cs else 0)
  unfolding release
  release-degree [] s x = ground arith
  release-degree (c ∷ cs) s x = elim (Bool-cases (factor_eq.beq x c)) [
    | inl same ↦
        let e = factor_eq.beq_iff x c in
        elim (Bool-cases (elem node (inputs_of c nodes))) [
          | inl t ↦
              let u : elem node (inputs_of x nodes) ≡ true = rw (e.0 same) t in
              rw (t, release, u, same)
                (omega (
                  arith,
                  subst
                      (λ b.
                        degree_of x (release node nodes cs (lower c s)).indegree
                        ≡ degree_of x (lower c s).indegree - (if b then count x cs else 0))
                      u (release-degree cs (lower c s) x),
                  subst
                      (λ b.
                        degree_of x (lower c s).indegree
                        ≡ degree_of x s.indegree - (if b then 1 else 0))
                      same (lower-degree c x s),
                ))
          | inr t ↦
              let u : elem node (inputs_of x nodes) ≡ false = rw (e.0 same) t in
              rw (t, release, u)
                (subst
                  (λ b.
                    degree_of x (release node nodes cs s).indegree
                    ≡ degree_of x s.indegree - (if b then count x cs else 0))
                  u (release-degree cs s x))
        ]
    | inr other ↦ elim (Bool-cases (elem node (inputs_of c nodes))) [
      | inl t ↦
          rw (t, release, other)
            (ground (arith, release-degree cs (lower c s) x, lower-degree c x s))
      | inr t ↦ rw (t, release, other) (release-degree cs s x)
    ]
  ]
