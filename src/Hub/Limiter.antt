-- ===== src/Hub/Limiter.antt =====
-- src/fin_data_hub/ratelimit.py, `RateLimiter`: a token bucket. The code counts in floating point;
-- here time is whole ticks, and tokens are counted in a unit of which `rate` flow in per tick, so
-- that the arithmetic is exact. `one` is the unit's count of 1.0 token and `second` that of a second.
pub mod Grants
use fin_data_platform.Prelude.{
  ℕ, ◌+◌, ◌-◌, ◌*◌, Bool, true, false, ◌||◌, Option, none, some, List, [], ◌∷◌, ltb, leb, nat_beq,
  min, max, if◌then◌else◌,
}
use fin_data_platform.Outcome.{Outcome, ok, raise, value_error, rate_limit_timeout}

pub record RateLimiter : Type 0 where
  pub rate : ℕ
  pub capacity : ℕ
  pub tokens : ℕ
  pub updated : ℕ

abbrev pub full : ℕ → ℕ → ℕ → RateLimiter
full rate capacity now = record {
  rate = rate;
  capacity = capacity;
  tokens = capacity;
  updated = now;
}

-- `__init__`
unfoldable pub create : ℕ → ℕ → ℕ → Option ℕ → ℕ → Outcome RateLimiter
create one second rate burst now = elim (nat_beq rate 0) [
  | true ↦ raise value_error
  | false ↦ elim burst [
    | none ↦ ok (full rate (max one (rate * second)) now)
    | some amount ↦ if nat_beq amount 0 then raise value_error else ok (full rate amount now)
  ]
]

-- `_refill`
unfoldable pub refill : ℕ → RateLimiter → RateLimiter
refill now l =
    if ltb l.updated now
    then record l { tokens = min l.capacity (l.tokens + (now - l.updated) * l.rate); updated = now }
    else l

unfoldable pub try_acquire : ℕ → ℕ → RateLimiter → Bool × RateLimiter
unfolding refill
try_acquire amount now l =
    let l' = refill now l in
    if leb amount l'.tokens then (true, record l' { tokens = l'.tokens - amount }) else (false, l')

-- The loop of `acquire`. A round reads the clock for `_refill` and, under a deadline, once more; the
-- rounds are those that the condition's wake-ups allow, and without an answer the caller still waits.
unfoldable pub acquire_rounds :
    ℕ → Option ℕ → List (ℕ × ℕ) → RateLimiter → Option (Outcome (Unit {0})) × RateLimiter
unfolding refill
acquire_rounds amount deadline [] l = (none, l)
acquire_rounds amount deadline ((now, check) ∷ rounds) l =
    let l' = refill now l in
    let later = acquire_rounds amount deadline rounds l' in
    if leb amount l'.tokens
    then (some (ok tt), record l' { tokens = l'.tokens - amount })
    else elim deadline [
      | none ↦ later
      | some time ↦ if leb time check then (some (raise rate_limit_timeout), l') else later
    ]

unfoldable pub acquire :
    ℕ → Option ℕ → ℕ → List (ℕ × ℕ) → RateLimiter → Option (Outcome (Unit {0})) × RateLimiter
unfolding acquire_rounds
acquire amount timeout start rounds l =
    if ltb l.capacity amount
    then (some (raise value_error), l)
    else acquire_rounds amount (elim timeout [ none ↦ none | some ticks ↦ some (start + ticks) ])
        rounds l
