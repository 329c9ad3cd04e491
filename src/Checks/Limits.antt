-- ===== src/Checks/Limits.antt =====
-- The theorems on src/fin_data_hub/ratelimit.py at small inputs.
use fin_data_platform.Prelude.{
  leb, if◌then◌else◌, ℕ, ◌+◌, ◌-◌, ◌*◌, ◌≤◌, ◌≡◌, String, none, some, List, [], ◌∷◌, arith,
}
use fin_data_platform.Outcome.{ok}
use fin_data_platform.Hub.Limiter.{RateLimiter, full, acquire}
use fin_data_platform.Hub.Limiter.Grants.{
  Attempt, trial, wait, attempt_all, granted_bounded, acquire_enough,
}
use fin_data_platform.Hub.Retry.{Reply, answer, transient, Policy, retry_call}
use fin_data_platform.Hub.Retry.Attempts.{Tries, retry_call-Tries}

-- Two units per tick, at most ten, full at time 0.
abbrev bucket : RateLimiter
bucket = full 2 10 0

abbrev attempts : List Attempt
attempts = trial 8 1 ∷ wait 8 (some 9) 1 ((2, 2) ∷ (5, 5) ∷ []) ∷ []

granted_bounded_example :
    ((attempt_all attempts bucket).0 ≤ 10 + (6 - 0) * 2)
    × ((attempt_all attempts bucket).1.tokens ≤ 10)
granted_bounded_example =
    granted_bounded attempts 6 bucket (omega arith, ((omega arith, (omega arith, tt)), tt))
      (omega arith) (omega arith)

acquire_enough_case : (acquire 8 none 0 ((3, 3) ∷ []) bucket).0 ≡ some (ok tt)
acquire_enough_case =
    acquire_enough 8 none 0 3 3 [] bucket (omega arith) (omega arith) (omega arith)

-- A function that fails twice and then answers.
abbrev flaky : ℕ → Reply String String
flaky n = if leb n 2 then transient "busy" else answer "rows"

abbrev policy : Policy
policy = record { base = 2; max_delay = 60; jitter = (1, 2) }

retry_call-Tries_example : Tries flaky 1 2 (retry_call policy (λ n. (1, 2)) flaky 3)
retry_call-Tries_example = retry_call-Tries policy (λ n. (1, 2)) flaky 2
