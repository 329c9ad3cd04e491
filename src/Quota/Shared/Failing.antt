-- ===== src/Quota/Shared/Failing.antt =====
-- The limiter while the cache gives no answer.
use fin_data_platform.Prelude.{
  ℕ, ◌+◌, ◌*◌, ◌≤◌, ◌≡◌, refl, inl, inr, false, Option, none, some, List, ◌∷◌, ltb, arith,
  Bool-cases,
}
use fin_data_platform.Outcome.{Outcome}
use fin_data_platform.Hub.Limiter.{
  RateLimiter, try_acquire as try_fallback, acquire as acquire_fallback,
}
use fin_data_platform.Quota.Shared.{
  Counter, SharedRateLimiter, Readings, whole, remaining, try_count, try_acquire, acquire_rounds,
  acquire,
}

-- The `acquire` of the process's limiter, under the time that remains of a timeout
abbrev pub own_acquire :
    Readings
    → ℕ
    → ℕ
    → Option ℕ
    → List (ℕ × ℕ)
    → RateLimiter
    → Option (Outcome (Unit {0})) × RateLimiter
own_acquire at tokens start timeout waits fallback =
    acquire_fallback tokens
      (remaining (elim timeout [ none ↦ none | some ticks ↦ some (start + ticks) ]) at.check) at.own
      waits fallback

module _ {ℓ} {State : Type ℓ} (counter : Counter State) (one : ℕ)
    (down : (now amount : ℕ) (s : State) → (counter.try_incrby now amount s).0 ≡ none) where
  -- No count, and the limiter that it falls back to is untouched.
  try_count_down :
      (at : Readings) (amount : ℕ) (l : SharedRateLimiter) (s : State)
      → ((try_count counter one at amount l s).0 ≡ none)
        × ((try_count counter one at amount l s).1.0.fallback ≡ l.fallback)
  unfolding try_count
  try_count_down at amount l s = elim (Bool-cases (ltb at.now l.retry_at)) [
    | inl cooling ↦ rw (try_count, cooling) (refl, refl)
    | inr asks ↦ rw (try_count, asks, down at.now amount s) (refl, refl)
  ]

  -- While the cache fails, a request that fits the bucket is answered by the limiter of the process: by
  -- its `try_acquire`, with what that leaves of its bucket.
  pub try_acquire_down :
      (at : Readings) (tokens : ℕ) (l : SharedRateLimiter) (s : State)
      → whole one tokens * one ≤ l.capacity
      → ((try_acquire counter one at tokens l s).0 ≡ (try_fallback tokens at.own l.fallback).0)
        × ((try_acquire counter one at tokens l s).1.0.fallback
            ≡ (try_fallback tokens at.own l.fallback).1)
  unfolding try_acquire
  try_acquire_down at tokens l s fits =
      let (none_counted, kept) = try_count_down at (whole one tokens) l s in
      let within : ltb l.capacity (whole one tokens * one) ≡ false = ground arith in
      rw (within, none_counted, kept) (refl, refl)

  -- While the cache fails, `acquire` of tokens that fit the bucket answers in its first round as the
  -- `acquire` of the process's limiter under the time that remains, and leaves that limiter as this does.
  pub acquire_down :
      (at : Readings) (tokens start : ℕ) (timeout : Option ℕ) (rounds : List Readings)
      (waits : List (ℕ × ℕ)) (l : SharedRateLimiter) (s : State)
      → tokens ≤ l.capacity
      → whole one tokens * one ≤ l.capacity
      → ((acquire counter one tokens timeout start (at ∷ rounds) waits l s).0
          ≡ (own_acquire at tokens start timeout waits l.fallback).0)
        × ((acquire counter one tokens timeout start (at ∷ rounds) waits l s).1.0.fallback
            ≡ (own_acquire at tokens start timeout waits l.fallback).1)
  unfolding acquire acquire_rounds
  acquire_down at tokens start timeout rounds waits l s small fits =
      let (none_counted, kept) = try_count_down at (whole one tokens) l s in
      let first : ltb l.capacity tokens ≡ false = ground arith in
      let second : ltb l.capacity (whole one tokens * one) ≡ false = ground arith in
      rw (first, second, acquire_rounds, none_counted, kept) (refl, refl)
