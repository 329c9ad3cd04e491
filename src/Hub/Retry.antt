-- ===== src/Hub/Retry.antt =====
-- src/fin_data_hub/ratelimit.py, `compute_backoff` and `retry_call`. What the retried function does at
-- its n-th call is the argument `fn`. A delay is a fraction, numerator and denominator: `jitter` and
-- what `rand` returns are fractions too, and the numerator's subtraction stops at 0 as the code's
-- `max(0.0, ...)` does.
pub mod Attempts
use fin_data_platform.Prelude.{
  ℕ, zero, suc, ◌+◌, ◌-◌, ◌*◌, ◌^◌, Bool, true, false, List, [], ◌∷◌, leb, min, nat_beq,
  if◌then◌else◌,
}

-- An answer of the function: a value, an exception that is retried on, or another exception.
pub data Reply {ℓ κ} (A : Type ℓ) (E : Type κ) : Type (ℓ ⊔ κ) where
  answer : A → Reply A E
  transient : E → Reply A E
  fatal : E → Reply A E

-- How the call ends: with a value, with an exception of the function, or with ValueError.
pub data Ending {ℓ κ} (A : Type ℓ) (E : Type κ) : Type (ℓ ⊔ κ) where
  returned : A → Ending A E
  raised : E → Ending A E
  rejected : Ending A E

pub record Policy : Type 0 where
  pub base : ℕ
  pub max_delay : ℕ
  pub jitter : ℕ × ℕ

unfoldable pub compute_backoff : Policy → ℕ × ℕ → ℕ → ℕ × ℕ
compute_backoff policy rand attempt =
    let delay = min policy.max_delay (policy.base * 2 ^ (attempt - 1)) in
    let scale = policy.jitter.1 * rand.1 in
    (delay * (scale + policy.jitter.0 * 2 * rand.0 - policy.jitter.0 * rand.1), scale)

abbrev pub prepend {ℓ κ} :
    {A : Type ℓ} {E : Type κ} → ℕ × ℕ → Ending A E × List (ℕ × ℕ) → Ending A E × List (ℕ × ℕ)
prepend delay (ending, delays) = (ending, delay ∷ delays)

module _ {ℓ κ} {A : Type ℓ} {E : Type κ} (policy : Policy) (rand : ℕ → ℕ × ℕ)
    (fn : ℕ → Reply A E) where
  -- The loop from `attempt` on, with `left` further attempts after it, and the delays that it sleeps.
  unfoldable pub retry_from : ℕ → ℕ → Ending A E × List (ℕ × ℕ)
  retry_from zero attempt = elim (fn attempt) [
    | answer a ↦ (returned a, [])
    | transient x ↦ (raised x, [])
    | fatal x ↦ (raised x, [])
  ]
  retry_from (suc left) attempt = elim (fn attempt) [
    | answer a ↦ (returned a, [])
    | transient x ↦
        prepend (compute_backoff policy (rand attempt) attempt) (retry_from left (attempt + 1))
    | fatal x ↦ (raised x, [])
  ]

  unfoldable pub retry_call : ℕ → Ending A E × List (ℕ × ℕ)
  unfolding retry_from
  retry_call zero = (rejected, [])
  retry_call (suc attempts) = retry_from attempts 1
