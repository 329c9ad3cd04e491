-- ===== src/Checks/Quota.antt =====
-- The theorems on src/fin_data_platform/quota/shared.py at a counter of one number.
use fin_data_platform.Prelude.{ℕ, ◌+◌, ◌*◌, ◌≤◌, ◌≡◌, refl, none, some, List, [], ◌∷◌, arith}
use fin_data_platform.Hub.Limiter.{full, try_acquire as try_fallback}
use fin_data_platform.Quota.Shared.{
  Counter, SharedRateLimiter, Readings, try_count, try_acquire, acquire,
}
use fin_data_platform.Quota.Shared.Window.{Counts, Call, granted_all, granted-le-capacity}
use fin_data_platform.Quota.Shared.Failing.{own_acquire, try_acquire_down, acquire_down}

-- The count of the window
abbrev counting : Counter ℕ
counting = record {
  try_incrby = λ now amount s. (some (s + amount), s + amount);
  read_counter = λ now s. (some s, s);
}

counting-Counts : Counts counting (λ s. s)
counting-Counts = record {
  answered = λ now amount n s e. ground arith;
  rising = λ now amount s. omega arith;
}

abbrev failing : Counter ℕ
failing = record { try_incrby = λ now amount s. (none, s); read_counter = λ now s. (none, s) }

-- Two tokens of four units in the bucket, and one unit flows in per tick.
abbrev limiter : SharedRateLimiter
limiter = record {
  capacity = 8;
  window = (8, 1);
  cooldown = 5;
  retry_at = 0;
  fallback = full 1 8 0;
}

abbrev at : Readings
at = record { now = 1; later = 1; check = 1; own = 1 }

abbrev calls : List Call
calls =
    record { limiter = limiter; at = at; tokens = 4 }
    ∷ record { limiter = limiter; at = at; tokens = 3 }
    ∷ record { limiter = limiter; at = at; tokens = 4 }
    ∷ []

-- The third call goes over the window.
calls-granted : granted_all counting 4 calls 0 ≡ 2
unfolding granted_all try_acquire try_count
calls-granted = refl

granted-le-capacity_example : granted_all counting 4 calls 0 * 4 ≤ 8
granted-le-capacity_example =
    granted-le-capacity counting (λ s. s) 4 8 calls 0 counting-Counts (refl, (refl, (refl, tt)))

try_acquire_down_case :
    ((try_acquire failing 4 at 4 limiter 0).0 ≡ (try_fallback 4 1 limiter.fallback).0)
    × ((try_acquire failing 4 at 4 limiter 0).1.0.fallback ≡ (try_fallback 4 1 limiter.fallback).1)
try_acquire_down_case =
    try_acquire_down failing 4 (λ now amount s. refl) at 4 limiter 0 (omega arith)

acquire_down_case :
    ((acquire failing 4 4 (some 3) 0 (at ∷ []) ((1, 1) ∷ []) limiter 0).0
      ≡ (own_acquire at 4 0 (some 3) ((1, 1) ∷ []) limiter.fallback).0)
    × ((acquire failing 4 4 (some 3) 0 (at ∷ []) ((1, 1) ∷ []) limiter 0).1.0.fallback
        ≡ (own_acquire at 4 0 (some 3) ((1, 1) ∷ []) limiter.fallback).1)
acquire_down_case =
    acquire_down failing 4 (λ now amount s. refl) at 4 0 (some 3) [] ((1, 1) ∷ []) limiter 0
      (omega arith) (omega arith)
