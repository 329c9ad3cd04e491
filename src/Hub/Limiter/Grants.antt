-- ===== src/Hub/Limiter/Grants.antt =====
-- How much a token bucket grants over a span of time.
use fin_data_platform.Prelude.{
  ℕ, zero, suc, ◌+◌, ◌-◌, ◌*◌, ◌≤◌, ◌<◌, ◌≡◌, refl, true, false, inl, inr, Option, none, some, List,
  [], ◌∷◌, arith, ltb, leb, min, Bool-cases, if◌then◌else◌, ◌∙◌,
}
use fin_data_platform.Outcome.{Outcome, ok, raise, rate_limit_timeout}
use fin_data_platform.Hub.Limiter.{RateLimiter, refill, try_acquire, acquire_rounds, acquire}

-- A call on the bucket: `try_acquire`, or `acquire` with its timeout, its start and its rounds.
pub data Attempt : Type 0 where
  trial : ℕ → ℕ → Attempt
  wait : ℕ → Option ℕ → ℕ → List (ℕ × ℕ) → Attempt

abbrev taken : ℕ → Option (Outcome (Unit {0})) → ℕ
taken amount (some (ok _)) = amount
taken amount (some (raise _)) = 0
taken amount none = 0

-- What an attempt takes, and the bucket after it.
unfoldable pub attempt : Attempt → RateLimiter → ℕ × RateLimiter
attempt (trial amount now) l =
    let (granted, l') = try_acquire amount now l in (if granted then amount else 0, l')
attempt (wait amount timeout start rounds) l =
    let (result, l') = acquire amount timeout start rounds l in (taken amount result, l')

-- What a list of attempts takes in all.
unfoldable pub attempt_all : List Attempt → RateLimiter → ℕ × RateLimiter
unfolding attempt
attempt_all [] l = (0, l)
attempt_all (a ∷ rest) l =
    let (first, l') = attempt a l in let (more, l'') = attempt_all rest l' in (first + more, l'')

abbrev RoundsUntil : ℕ → List (ℕ × ℕ) → Type 0
RoundsUntil t [] = Unit
RoundsUntil t ((now, check) ∷ rounds) = (now ≤ t) × RoundsUntil t rounds

-- Every reading of the clock by the attempts is at most `t`.
abbrev pub Until : ℕ → List Attempt → Type 0
Until t [] = Unit
Until t (trial amount now ∷ rest) = (now ≤ t) × Until t rest
Until t (wait amount timeout start rounds ∷ rest) = RoundsUntil t rounds × Until t rest

-- The bucket `l'` after taking `n` from `l`: time has gone on by some ticks, and what was taken and
-- what is left is covered by what was there and what flowed in.
record Covers (t n : ℕ) (l l' : RateLimiter) : Type 0 where
  ticks : ℕ
  inflow : ℕ
  flows : inflow ≡ ticks * l.rate
  same_rate : l'.rate ≡ l.rate
  same_capacity : l'.capacity ≡ l.capacity
  later : l'.updated ≡ l.updated + ticks
  within : l'.updated ≤ t
  covered : n + l'.tokens ≤ l.tokens + inflow
  bounded : l'.tokens ≤ l'.capacity

scale_add : (a b c : ℕ) → (a + b) * c ≡ a * c + b * c
scale_add zero b c = omega arith
scale_add (suc a) b c = omega (arith, scale_add a b c)

Covers-trans :
    (t n m k : ℕ) (a b c : RateLimiter)
    → n + m ≡ k
    → Covers t n a b
    → Covers t m b c
    → Covers t k a c
Covers-trans t n m k a b c sum p q = record {
  ticks = p.ticks + q.ticks;
  inflow = p.inflow + q.inflow;
  flows = rw (p.flows, q.flows, p.same_rate, scale_add p.ticks q.ticks a.rate) refl;
  same_rate = q.same_rate ∙ p.same_rate;
  same_capacity = q.same_capacity ∙ p.same_capacity;
  later = omega (arith, p.later, q.later);
  within = q.within;
  covered = omega (arith, p.covered, q.covered, sum);
  bounded = q.bounded;
}

module _ (t : ℕ) where
  refill-Covers :
      (now : ℕ) (l : RateLimiter)
      → now ≤ t
      → l.updated ≤ t
      → l.tokens ≤ l.capacity
      → Covers t 0 l (refill now l)
  unfolding refill
  refill-Covers now l le before full_enough = elim (Bool-cases (ltb l.updated now)) [
    | inl h ↦
        rw (h, refill)
          (record {
            ticks = now - l.updated;
            inflow = (now - l.updated) * l.rate;
            flows = refl;
            same_rate = refl;
            same_capacity = refl;
            later = ground arith;
            within = le;
            covered = omega arith;
            bounded = omega arith;
          })
    | inr h ↦
        rw (h, refill)
          (record {
            ticks = 0;
            inflow = 0;
            flows = omega arith;
            same_rate = refl;
            same_capacity = refl;
            later = omega arith;
            within = before;
            covered = omega arith;
            bounded = full_enough;
          })
  ]

  -- Taking what is there.
  take-Covers :
      (amount : ℕ) (l m : RateLimiter)
      → leb amount m.tokens ≡ true
      → Covers t 0 l m
      → Covers t amount l (record m { tokens = m.tokens - amount })
  take-Covers amount l m h p = record {
    ticks = p.ticks;
    inflow = p.inflow;
    flows = p.flows;
    same_rate = p.same_rate;
    same_capacity = p.same_capacity;
    later = p.later;
    within = p.within;
    covered = ground (arith, p.covered);
    bounded = omega (arith, p.bounded);
  }

  abbrev Done : ℕ → RateLimiter → Option (Outcome (Unit {0})) × RateLimiter → Type 0
  Done amount l result = Covers t (taken amount result.0) l result.1

  -- A round that finds too few tokens: it raises, or waits for the rounds after it.
  poor_round :
      (amount check : ℕ) (deadline : Option ℕ) (l l' : RateLimiter)
      (later : Option (Outcome (Unit {0})) × RateLimiter)
      → Covers t 0 l l'
      → Done amount l later
      → Done amount l (elim deadline [
        | none ↦ later
        | some time ↦ if leb time check then (some (raise rate_limit_timeout), l') else later
      ])
  poor_round amount check none l l' later first on = on
  poor_round amount check (some time) l l' later first on = elim (Bool-cases (leb time check)) [
    | inl h ↦ rw h first
    | inr h ↦ rw h on
  ]

  acquire_rounds-Covers :
      (amount : ℕ) (deadline : Option ℕ) (rounds : List (ℕ × ℕ)) (l : RateLimiter)
      → RoundsUntil t rounds
      → l.updated ≤ t
      → l.tokens ≤ l.capacity
      → Done amount l (acquire_rounds amount deadline rounds l)
  unfolding acquire_rounds
  acquire_rounds-Covers amount deadline [] l u before bounded = record {
    ticks = 0;
    inflow = 0;
    flows = omega arith;
    same_rate = refl;
    same_capacity = refl;
    later = omega arith;
    within = before;
    covered = omega arith;
    bounded = bounded;
  }
  acquire_rounds-Covers amount deadline ((now, check) ∷ rounds) l (le, u) before bounded =
      let first : Covers t 0 l (refill now l) = refill-Covers now l le before bounded in
      let later : Option (Outcome (Unit {0})) × RateLimiter =
        acquire_rounds amount deadline rounds (refill now l) in
      elim (Bool-cases (leb amount (refill now l).tokens)) [
        | inl h ↦ rw (h, acquire_rounds) (take-Covers amount l (refill now l) h first)
        | inr h ↦
            rw (h, acquire_rounds)
              (poor_round amount check deadline l (refill now l) later first (
                Covers-trans t 0 (taken amount later.0) (taken amount later.0) l (refill now l)
                  later.1 (omega arith) first
                  (acquire_rounds-Covers amount deadline rounds (refill now l) u first.within
                    first.bounded)))
      ]

  attempt-Covers :
      (a : Attempt) (rest : List Attempt) (l : RateLimiter)
      → Until t (a ∷ rest)
      → l.updated ≤ t
      → l.tokens ≤ l.capacity
      → Covers t (attempt a l).0 l (attempt a l).1
  unfolding attempt try_acquire acquire
  attempt-Covers (trial amount now) rest l (le, u) before bounded =
      let first : Covers t 0 l (refill now l) = refill-Covers now l le before bounded in
      elim (Bool-cases (leb amount (refill now l).tokens)) [
        | inl h ↦ rw (h, try_acquire) (take-Covers amount l (refill now l) h first)
        | inr h ↦ rw (h, try_acquire) first
      ]
  attempt-Covers (wait amount timeout start rounds) rest l (le, u) before bounded =
      elim (Bool-cases (ltb l.capacity amount)) [
        | inl h ↦ rw (h, acquire) (acquire_rounds-Covers 0 none [] l tt before bounded)
        | inr h ↦ rw (h, acquire) (acquire_rounds-Covers amount _ rounds l le before bounded)
      ]

  attempt_all-Covers :
      (attempts : List Attempt) (l : RateLimiter)
      → Until t attempts
      → l.updated ≤ t
      → l.tokens ≤ l.capacity
      → Covers t (attempt_all attempts l).0 l (attempt_all attempts l).1
  unfolding attempt_all acquire_rounds
  attempt_all-Covers [] l u before bounded = acquire_rounds-Covers 0 none [] l tt before bounded
  attempt_all-Covers (a ∷ rest) l u before bounded =
      let p : Covers t (attempt a l).0 l (attempt a l).1 =
        attempt-Covers a rest l u before bounded in
      Covers-trans t (attempt a l).0 (attempt_all rest (attempt a l).1).0
        (attempt_all (a ∷ rest) l).0 l (attempt a l).1 (attempt_all rest (attempt a l).1).1 refl p
        (attempt_all-Covers rest (attempt a l).1 (rest_until a rest u) p.within p.bounded)
    where
      rest_until : (a : Attempt) (rest : List Attempt) → Until t (a ∷ rest) → Until t rest
      rest_until (trial amount now) rest u = u.1
      rest_until (wait amount timeout start rounds) rest u = u.1

-- Whatever the attempts on a bucket, while the clock reads at most `t` they take in all at most what
-- the bucket held and what flows in from its last refill to `t`, and what is left is within its
-- capacity.
pub granted_bounded :
    (attempts : List Attempt) (t : ℕ) (l : RateLimiter)
    → Until t attempts
    → l.updated ≤ t
    → l.tokens ≤ l.capacity
    → ((attempt_all attempts l).0 ≤ l.tokens + (t - l.updated) * l.rate)
      × ((attempt_all attempts l).1.tokens ≤ l.capacity)
granted_bounded attempts t l u before bounded =
    let p : Covers t (attempt_all attempts l).0 l (attempt_all attempts l).1 =
      attempt_all-Covers t attempts l u before bounded in
    let split : t - l.updated ≡ p.ticks + (t - l.updated - p.ticks) =
      omega (arith, p.later, p.within) in
    (
      rw split (
          rw (scale_add p.ticks (t - l.updated - p.ticks) l.rate)
            (omega (arith, p.covered, p.flows))),
      omega (arith, p.bounded, p.same_capacity),
    )

-- An acquisition of no more than the capacity succeeds in a round that finds that enough has flowed in
-- since the last refill.
pub acquire_enough :
    (amount : ℕ) (timeout : Option ℕ) (start now check : ℕ) (rounds : List (ℕ × ℕ))
    (l : RateLimiter)
    → amount ≤ l.capacity
    → l.updated < now
    → amount ≤ l.tokens + (now - l.updated) * l.rate
    → (acquire amount timeout start ((now, check) ∷ rounds) l).0 ≡ some (ok tt)
unfolding acquire acquire_rounds refill
acquire_enough amount timeout start now check rounds l fits later enough =
    let room : ltb l.capacity amount ≡ false = ground arith in
    let ticks : ltb l.updated now ≡ true = ground arith in
    let plenty : leb amount (min l.capacity (l.tokens + (now - l.updated) * l.rate)) ≡ true =
      ground arith in
    rw (room, acquire) (rw (ticks, acquire_rounds, refill) (rw plenty refl))
