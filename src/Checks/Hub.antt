-- ===== src/Checks/Hub.antt =====
-- The theorems on src/fin_data_hub at small states.
use fin_data_platform.Prelude.{
  ℕ, ◌≤◌, ◌≡◌, refl, String, ◌⊎◌, none, some, List, [], ◌∷◌, arith, length, nat_eq, string_eq,
}
use fin_data_platform.Dict.{has, values}
use fin_data_platform.Dict.Totals.{sum}
use fin_data_platform.Hub.Cache.{Limits, MemoryCache, init, get, put}
use fin_data_platform.Hub.Cache.Bounds.{Call, read, store, answer_all, within_limits}
use fin_data_platform.Prelude.{◌+◌, true}
use fin_data_platform.Hub.Cache.{Entry, evict, is_over}
use fin_data_platform.Hub.Cache.Order.{skip, evict-skip}
use fin_data_platform.Hub.Cache.Validity.{init-IsValid}
use fin_data_platform.Hub.Cache.Reads.{get-get}
use fin_data_platform.Hub.Cache.Stores.{get-put_self, get-put_other}

-- Ten bytes, two entries, entries of at most eight bytes, five ticks of life, a factor of 6/5.
abbrev limits : Limits
limits = record {
  max_bytes = 10;
  max_entries = 2;
  max_entry_bytes = 8;
  ttl = some 5;
  safety = (6, 5);
}

-- A value is its own size.
abbrev size_of : ℕ → ℕ
size_of n = n

abbrev calls : List (Call String ℕ)
calls = store "a" 5 none 1 1 ∷ store "b" 5 none 2 2 ∷ read "a" 3 ∷ []

abbrev empty : MemoryCache String ℕ
empty = init

within_limits_example :
    ((answer_all limits size_of calls empty).total_bytes
      ≡ sum (values (answer_all limits size_of calls empty).sizes))
    × ((answer_all limits size_of calls empty).total_bytes ≤ 10)
    × (length (answer_all limits size_of calls empty).entries ≤ 2)
    × ((k : String)
        → has k (answer_all limits size_of calls empty).entries
          ≡ has k (answer_all limits size_of calls empty).sizes)
within_limits_example = within_limits limits size_of calls

read_twice : (get "a" 4 (get "a" 3 empty).1).0 ≡ (get "a" 4 empty).0
read_twice = get-get "a" "a" 3 4 empty (omega arith)

get-put_self_case : (get "a" 4 (put limits size_of "a" 5 none 1 2 empty).1).0 ≡ some 5
get-put_self_case =
    get-put_self limits size_of "a" 5 none 1 empty 2 4 (init-IsValid limits) (omega arith)
      (omega arith) (omega arith) (omega arith) refl

abbrev numbered : MemoryCache ℕ ℕ
numbered = init

read_other :
    ((get 2 4 (put limits size_of 1 5 none 1 2 numbered).1).0 ≡ none)
    ⊎ ((get 2 4 (put limits size_of 1 5 none 1 2 numbered).1).0 ≡ (get 2 4 numbered).0)
read_other =
    get-put_other limits size_of 1 5 none 1 numbered 2 2 4 (init-IsValid limits)
      (λ h. omega (arith, h)) (omega arith)

abbrev entry_of : ℕ → Entry ℕ
entry_of n = record { value = n; expires_at = none }

-- Twelve bytes in two entries, where ten are allowed.
abbrev crowded : MemoryCache String ℕ
crowded = record {
  entries = ("a", entry_of 5) ∷ ("b", entry_of 5) ∷ [];
  sizes = ("a", 6) ∷ ("b", 6) ∷ [];
  total_bytes = 12;
  hits = 0;
  misses = 0;
  evictions = 0;
  stores = 2;
}

evict-skip_case :
    (n : ℕ) × ((evict limits crowded).entries ≡ skip n crowded.entries)
    × ((evict limits crowded).evictions ≡ crowded.evictions + n)
    × ((is_over limits crowded ≡ true) ⊎ (n ≡ 0))
evict-skip_case = evict-skip limits crowded
