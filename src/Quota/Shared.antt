-- ===== src/Quota/Shared.antt =====
-- src/fin_data_platform/quota/shared.py, `SharedRateLimiter`. Tokens and times are counted as in the
-- limiter of one process, to which it falls back. The counter of the cache is an interface: a call takes
-- the time and gives its answer, `none` where the cache fails, and its new state.

pub mod Window
pub mod Failing
use fin_data_platform.Prelude.{
  ℕ, ◌+◌, ◌-◌, ◌*◌, ◌/◌, Bool, true, false, ◌||◌, Option, none, some, List, [], ◌∷◌, ltb, leb,
  nat_beq, max, if◌then◌else◌,
}
use fin_data_platform.Outcome.{Outcome, ok, raise, value_error, rate_limit_timeout}
use fin_data_platform.Hub.Limiter.{
  RateLimiter, refill, create as create_fallback, try_acquire as try_fallback,
  acquire as acquire_fallback,
}

-- `try_incrby` and `read_counter` of the cache, at the limiter's key and window
pub record Counter {ℓ} (State : Type ℓ) : Type ℓ where
  pub try_incrby : ℕ → ℕ → State → Option ℕ × State
  pub read_counter : ℕ → State → Option ℕ × State

pub record SharedRateLimiter : Type 0 where
  pub capacity : ℕ
  -- the window's ticks, as numerator and denominator
  pub window : ℕ × ℕ
  pub cooldown : ℕ
  pub retry_at : ℕ
  pub fallback : RateLimiter

-- `__init__`: `rate` flows in per tick, `second` is the ticks of a second
unfoldable pub create : ℕ → ℕ → ℕ → Option ℕ → Option ℕ → ℕ → ℕ → Outcome SharedRateLimiter
unfolding create_fallback
create one second rate burst window cooldown now =
    if nat_beq rate 0
    then raise value_error
    else let capacity : ℕ = elim burst [ some amount ↦ amount | none ↦ max one (rate * second) ] in
      if nat_beq capacity 0
      then raise value_error
      else let window' : ℕ × ℕ = elim window [
        | some ticks ↦ (ticks, 1)
        | none ↦ (capacity, rate)
      ] in
        if nat_beq (window'.0) 0
        then raise value_error
        else elim (create_fallback one second rate burst now) [
          | raise e ↦ raise e
          | ok fallback ↦ ok (record {
            capacity = capacity;
            window = window';
            cooldown = cooldown;
            retry_at = 0;
            fallback = fallback;
          })
        ]

-- `max(1, math.ceil(tokens))`, in whole tokens
abbrev pub whole : ℕ → ℕ → ℕ
whole one tokens = max 1 ((tokens + (one - 1)) / one)

-- `_remaining`
abbrev pub remaining : Option ℕ → ℕ → Option ℕ
remaining deadline now = elim deadline [ none ↦ none | some time ↦ some (time - now) ]

-- The readings of the clock in one attempt: at the start, after a failure of the cache, for what remains
-- until the deadline, and that of the limiter which it falls back to.
pub record Readings : Type 0 where
  pub now : ℕ
  pub later : ℕ
  pub check : ℕ
  pub own : ℕ

module _ {ℓ} {State : Type ℓ} (counter : Counter State) (one : ℕ) where
  -- `_try_count`
  unfoldable pub try_count :
      Readings → ℕ → SharedRateLimiter → State → Option ℕ × (SharedRateLimiter × State)
  try_count at amount l s =
      if ltb at.now l.retry_at
      then (none, (l, s))
      else let (count, s') = counter.try_incrby at.now amount s in
        elim count [
          | none ↦ (none, (record l { retry_at = at.later + l.cooldown }, s'))
          | some n ↦ (some n, (l, s'))
        ]

  unfoldable pub try_acquire :
      Readings → ℕ → SharedRateLimiter → State → Bool × (SharedRateLimiter × State)
  unfolding try_count try_fallback
  try_acquire at tokens l s =
      if ltb l.capacity (whole one tokens * one)
      then (false, (l, s))
      else let (count, (l', s')) = try_count at (whole one tokens) l s in
        elim count [
          | some n ↦ (leb (n * one) l.capacity, (l', s'))
          | none ↦
              let (granted, fallback) = try_fallback tokens at.own l'.fallback in
              (granted, (record l' { fallback = fallback }, s'))
        ]

  -- `tokens`
  unfoldable pub tokens_left :
      Readings → SharedRateLimiter → State → ℕ × (SharedRateLimiter × State)
  unfolding refill
  tokens_left at l s =
      let refilled = refill at.own l.fallback in
      let own = record l { fallback = refilled } in
      if ltb at.now l.retry_at
      then (refilled.tokens, (own, s))
      else let (count, s') = counter.read_counter at.now s in
        elim count [
          | none ↦ (refilled.tokens, (own, s'))
          | some n ↦ (l.capacity - n * one, (l, s'))
        ]

  -- The loop of `acquire`, with the clock readings of its rounds and those of the limiter it falls back
  -- to; without an answer the caller still waits.
  unfoldable pub acquire_rounds :
      ℕ
      → Option ℕ
      → List Readings
      → List (ℕ × ℕ)
      → SharedRateLimiter
      → State
      → Option (Outcome (Unit {0})) × (SharedRateLimiter × State)
  unfolding try_count acquire_fallback
  acquire_rounds tokens deadline [] waits l s = (none, (l, s))
  acquire_rounds tokens deadline (at ∷ rounds) waits l s =
      let (count, (l', s')) = try_count at (whole one tokens) l s in
      let next = acquire_rounds tokens deadline rounds waits l' s' in
      elim count [
        | none ↦
            let (answer, fallback) =
              acquire_fallback tokens (remaining deadline at.check) at.own waits l'.fallback in
            (answer, (record l' { fallback = fallback }, s'))
        | some n ↦
            if leb (n * one) l.capacity
            then (some (ok tt), (l', s'))
            else elim (remaining deadline at.check) [
              | none ↦ next
              | some ticks ↦ elim (nat_beq ticks 0) [
                | true ↦ (some (raise rate_limit_timeout), (l', s'))
                | false ↦ next
              ]
            ]
      ]

  unfoldable pub acquire :
      ℕ
      → Option ℕ
      → ℕ
      → List Readings
      → List (ℕ × ℕ)
      → SharedRateLimiter
      → State
      → Option (Outcome (Unit {0})) × (SharedRateLimiter × State)
  unfolding acquire_rounds
  acquire tokens timeout start rounds waits l s =
      if ltb l.capacity tokens || ltb l.capacity (whole one tokens * one)
      then (some (raise value_error), (l, s))
      else acquire_rounds tokens (elim timeout [ none ↦ none | some ticks ↦ some (start + ticks) ])
          rounds waits l s
