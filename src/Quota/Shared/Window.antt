-- ===== src/Quota/Shared/Window.antt =====
-- What all limiters together grant in one window of the shared counter.
use fin_data_platform.Prelude.{
  ℕ, ◌+◌, ◌*◌, ◌≤◌, ◌≡◌, ◌⊎◌, inl, inr, refl, ap, none, some, List, [], ◌∷◌, ltb, leb,
  if◌then◌else◌, arith, All, Bool-cases, Option-cases, leb→le,
}
use fin_data_platform.Quota.Shared.{
  Counter, SharedRateLimiter, Readings, whole, try_count, try_acquire,
}

-- The documented behaviour of the counter within a window, where `total` is its value: an answer is the
-- value after the increment, and no call lowers the value.
pub record Counts {ℓ} {State : Type ℓ} (counter : Counter State) (total : State → ℕ) : Type ℓ where
  pub answered :
      (now amount n : ℕ) (s : State)
      → (counter.try_incrby now amount s).0 ≡ some n
      → (total s + amount ≤ n) × (n ≤ total (counter.try_incrby now amount s).1)
  pub rising : (now amount : ℕ) (s : State) → total s ≤ total (counter.try_incrby now amount s).1

-- A call of `try_acquire`, by a limiter in any state
pub record Call : Type 0 where
  pub limiter : SharedRateLimiter
  pub at : Readings
  pub tokens : ℕ

mul_bound : (a n one cap : ℕ) → a ≤ n → n * one ≤ cap → a * one ≤ cap
mul_bound a n one cap h k = grind arith

module _ {ℓ} {State : Type ℓ} (counter : Counter State) (one : ℕ) where
  -- The whole tokens that a call is granted by the counter
  abbrev pub granted : Call → State → ℕ
  granted c s =
      let answer = (try_acquire counter one c.at c.tokens c.limiter s).0 in
      let count = (try_count counter one c.at (whole one c.tokens) c.limiter s).0 in
      if answer then elim count [ none ↦ 0 | some _ ↦ whole one c.tokens ] else 0

  abbrev pub after : Call → State → State
  after c s = (try_acquire counter one c.at c.tokens c.limiter s).1.1

  -- The calls of all processes, one after the other
  unfoldable pub granted_all : List Call → State → ℕ
  granted_all [] s = 0
  granted_all (c ∷ calls) s = granted c s + granted_all calls (after c s)

  module _ (total : State → ℕ) (counts : Counts counter total) where
    call_lem :
        (c : Call) (s : State)
        → (granted c s ≡ 0) × (total s ≤ total (after c s))
          ⊎ (total s + granted c s ≤ total (after c s))
            × ((total s + granted c s) * one ≤ c.limiter.capacity)
    unfolding try_acquire try_count
    call_lem c s = elim (Bool-cases (ltb c.limiter.capacity (whole one c.tokens * one))) [
      | inl over ↦ rw (granted, after, try_acquire, over) (inl (refl, omega arith))
      | inr fits ↦ elim (Bool-cases (ltb c.at.now c.limiter.retry_at)) [
        | inl cooling ↦
            let count : try_count counter one c.at (whole one c.tokens) c.limiter s
                ≡ (none, (c.limiter, s)) =
              rw (try_count, cooling) refl in
            rw (granted, after, try_acquire, fits, count)
              (inl (ground arith, omega (arith, ap (λ r. total r.1.1) count)))
        | inr asks ↦ elim (Option-cases (counter.try_incrby c.at.now (whole one c.tokens) s).0) [
          | inl failed ↦
              let count : try_count counter one c.at (whole one c.tokens) c.limiter s ≡ (
                none,
                (
                  record c.limiter { retry_at = c.at.later + c.limiter.cooldown },
                  (counter.try_incrby c.at.now (whole one c.tokens) s).1,
                ),
              ) =
                rw (try_count, asks, failed) refl in
              rw (granted, after, try_acquire, fits, count)
                (inl (
                  ground arith,
                  omega (
                    arith,
                    ap (λ r. total r.1.1) count,
                    counts.rising c.at.now (whole one c.tokens) s,
                  ),
                ))
          | inr (n, e) ↦
              let (low, high) = counts.answered c.at.now (whole one c.tokens) n s e in
              let s' = (counter.try_incrby c.at.now (whole one c.tokens) s).1 in
              let count : try_count counter one c.at (whole one c.tokens) c.limiter s
                  ≡ (some n, (c.limiter, s')) =
                rw (try_count, asks, e) refl in
              elim (Bool-cases (leb (n * one) c.limiter.capacity)) [
                | inl t ↦
                    rw (granted, after, try_acquire, fits, count, t)
                      (inr (
                        omega (arith, low, high, ap (λ r. total r.1.1) count),
                        mul_bound _ _ _ _ low (leb→le _ _ t),
                      ))
                | inr f ↦
                    rw (granted, after, try_acquire, fits, count, f)
                      (inl (
                        refl,
                        omega (
                          arith,
                          ap (λ r. total r.1.1) count,
                          counts.rising c.at.now (whole one c.tokens) s,
                        ),
                      ))
              ]
        ]
      ]
    ]

    granted_all_lem :
        (capacity : ℕ) (calls : List Call) (s : State)
        → All (λ c. c.limiter.capacity ≡ capacity) calls
        → (granted_all calls s ≡ 0) ⊎ ((total s + granted_all calls s) * one ≤ capacity)
    unfolding granted_all
    granted_all_lem capacity [] s h = inl refl
    granted_all_lem capacity (c ∷ calls) s (same, h) =
        let later = granted_all_lem capacity calls (after c s) h in
        elim (call_lem c s) [
          | inl (zero_here, rises) ↦ elim later [
            | inl e ↦ inl (omega (arith, zero_here, e))
            | inr le ↦ inr (
                mul_bound _ (total (after c s) + granted_all calls (after c s)) one capacity
                  (omega (arith, zero_here, rises)) le)
          ]
          | inr (rises, le) ↦ elim later [
            | inl e ↦ inr (
                mul_bound _ (total s + granted c s) one capacity (omega (arith, e))
                  (omega (arith, le, same)))
            | inr le' ↦ inr (
                mul_bound _ (total (after c s) + granted_all calls (after c s)) one capacity
                  (omega (arith, rises)) le')
          ]
        ]

-- However many limiters of one capacity take tokens through a counter that counts as documented, and in
-- whatever order and state, what the counter grants to their calls of `try_acquire` within its window
-- is at most that capacity.
pub granted-le-capacity {ℓ} :
    {State : Type ℓ} (counter : Counter State) (total : State → ℕ) (one capacity : ℕ)
    (calls : List Call) (s : State)
    → Counts counter total
    → All (λ c. c.limiter.capacity ≡ capacity) calls
    → granted_all counter one calls s * one ≤ capacity
granted-le-capacity counter total one capacity calls s counts h =
    elim (granted_all_lem counter one total counts capacity calls s h) [
      | inl e ↦ rw e (omega arith)
      | inr le ↦
          mul_bound _ (total s + granted_all counter one calls s) one capacity (omega arith) le
    ]
