-- ===== src/Hub/Cache.antt =====
-- src/fin_data_hub/cache.py, `MemoryCache`: entries with a lifetime, in the order of their last use,
-- under a budget of bytes and of entries. Times are ticks of the monotonic clock. Each method holds the
-- lock, so it is one function of the state. A value stands for itself: what `_copy` returns is equal
-- to what is stored. The size of a value is the argument `size_fn`; the safety factor is a fraction,
-- and `int(size * factor)` is the quotient.
pub mod Books
pub mod Validity
pub mod Bounds
pub mod Reads
pub mod Stores
pub mod Order
use fin_data_platform.Prelude.{
  ℕ, ◌+◌, ◌-◌, ◌*◌, ◌/◌, ◌%◌, Bool, true, false, ◌||◌, Option, none, some, List, [], ◌∷◌, Eq, ltb,
  leb, nat_beq, length, or_else, if◌then◌else◌,
}
use fin_data_platform.Dict.{Dict, get as dict_get, put as dict_put, has, remove, move_to_end}
use fin_data_platform.Outcome.{Outcome, ok, raise, value_error}

pub record Limits : Type 0 where
  pub max_bytes : ℕ
  pub max_entries : ℕ
  pub max_entry_bytes : ℕ
  pub ttl : Option ℕ
  -- numerator and denominator of `size_safety_factor`
  pub safety : ℕ × ℕ

-- The checks of `__init__`.
unfoldable pub check_limits : Limits → Outcome Limits
check_limits limits =
    if nat_beq limits.max_bytes 0
      || nat_beq limits.max_entries 0
      || nat_beq limits.max_entry_bytes 0
    then raise value_error
    else if ltb limits.safety.0 limits.safety.1
    then raise value_error
    else ok limits

pub record Entry {κ} (V : Type κ) : Type κ where
  pub value : V
  pub expires_at : Option ℕ

pub record MemoryCache {ℓ κ} (K : Type ℓ) (V : Type κ) : Type (ℓ ⊔ κ) where
  pub entries : Dict K (Entry V)
  pub sizes : Dict K ℕ
  pub total_bytes : ℕ
  pub hits : ℕ
  pub misses : ℕ
  pub evictions : ℕ
  pub stores : ℕ

pub record CacheStats : Type 0 where
  pub entries : ℕ
  pub bytes : ℕ
  pub hits : ℕ
  pub misses : ℕ
  pub evictions : ℕ

-- `entry.expires_at is not None and now >= entry.expires_at`
abbrev pub is_expired {κ} : {V : Type κ} → ℕ → Entry V → Bool
is_expired now entry = elim entry.expires_at [ none ↦ false | some at ↦ leb at now ]

-- `int(self._size_fn(value) * self._size_safety_factor)`
abbrev pub padded : Limits → ℕ → ℕ
padded limits size = size * limits.safety.0 / limits.safety.1

-- `None if effective_ttl is None else self._time_fn() + effective_ttl`
abbrev pub deadline : Limits → Option ℕ → ℕ → Option ℕ
deadline limits ttl now = elim ttl [
  | some lifetime ↦ some (now + lifetime)
  | none ↦ elim limits.ttl [ none ↦ none | some lifetime ↦ some (now + lifetime) ]
]

abbrev pub sweep_every : ℕ
sweep_every = 128

module _ {ℓ κ} {K : Type ℓ} {V : Type κ} ⦃e : Eq K⦄ where
  abbrev pub init : MemoryCache K V
  init = record {
    entries = [];
    sizes = [];
    total_bytes = 0;
    hits = 0;
    misses = 0;
    evictions = 0;
    stores = 0;
  }

  -- `_remove`
  unfoldable pub drop : K → MemoryCache K V → MemoryCache K V
  drop k c = elim (dict_get k c.entries) [
    | none ↦ c
    | some _ ↦ record c {
      entries = remove k c.entries;
      sizes = remove k c.sizes;
      total_bytes = c.total_bytes - or_else (dict_get k c.sizes) 0;
    }
  ]

  abbrev pub missed : MemoryCache K V → MemoryCache K V
  missed c = record c { misses = c.misses + 1 }

  unfoldable pub get : K → ℕ → MemoryCache K V → Option V × MemoryCache K V
  unfolding drop
  get k now c = elim (dict_get k c.entries) [
    | none ↦ (none, missed c)
    | some entry ↦
        if is_expired now entry
        then (none, missed (drop k c))
        else (some entry.value, record c { entries = move_to_end k c.entries; hits = c.hits + 1 })
  ]

  unfoldable pub contains : K → ℕ → MemoryCache K V → Bool × MemoryCache K V
  unfolding drop
  contains k now c = elim (dict_get k c.entries) [
    | none ↦ (false, c)
    | some entry ↦ if is_expired now entry then (false, drop k c) else (true, c)
  ]

  -- The test of the loop of `_evict`, past `self._entries`
  abbrev pub is_over : Limits → MemoryCache K V → Bool
  is_over limits c = ltb limits.max_bytes c.total_bytes || ltb limits.max_entries (length c.entries)

  -- One round of the loop: `popitem(last=False)` of an entry under `k` before `rest`
  abbrev pub popped : K → Dict K (Entry V) → MemoryCache K V → MemoryCache K V
  popped k rest c = record c {
    entries = rest;
    sizes = remove k c.sizes;
    total_bytes = c.total_bytes - or_else (dict_get k c.sizes) 0;
    evictions = c.evictions + 1;
  }

  -- The loop of `_evict`, over the entries from the oldest on
  unfoldable pub evict_each : Limits → Dict K (Entry V) → MemoryCache K V → MemoryCache K V
  evict_each limits [] c = c
  evict_each limits ((k, entry) ∷ rest) c =
      let after = evict_each limits rest (popped k rest c) in if is_over limits c then after else c

  unfoldable pub evict : Limits → MemoryCache K V → MemoryCache K V
  unfolding evict_each
  evict limits c = evict_each limits c.entries c

  -- The list `expired` of `_sweep_expired`
  unfoldable pub expired_keys : ℕ → Dict K (Entry V) → List K
  expired_keys now [] = []
  expired_keys now ((k, entry) ∷ m) =
      let rest = expired_keys now m in if is_expired now entry then k ∷ rest else rest

  unfoldable pub drop_each : List K → MemoryCache K V → MemoryCache K V
  unfolding drop
  drop_each [] c = c
  drop_each (k ∷ ks) c = drop_each ks (drop k c)

  unfoldable pub sweep_expired : ℕ → MemoryCache K V → MemoryCache K V
  unfolding drop_each expired_keys
  sweep_expired now c = drop_each (expired_keys now c.entries) c

  unfoldable pub invalidate : K → MemoryCache K V → MemoryCache K V
  unfolding drop
  invalidate k c = drop k c

  unfoldable pub clear : MemoryCache K V → MemoryCache K V
  clear c = record c { entries = []; sizes = []; total_bytes = 0 }

  unfoldable pub stats : MemoryCache K V → CacheStats
  stats c = record {
    entries = length c.entries;
    bytes = c.total_bytes;
    hits = c.hits;
    misses = c.misses;
    evictions = c.evictions;
  }

  -- `put` once the entry under `k`, if there was one, is gone
  abbrev pub entered : K → V → ℕ → Option ℕ → MemoryCache K V → MemoryCache K V
  entered k value size expires_at c = record c {
    entries = dict_put k (record { value = value; expires_at = expires_at }) c.entries;
    sizes = dict_put k size c.sizes;
    total_bytes = c.total_bytes + size;
  }

  abbrev pub counted : MemoryCache K V → MemoryCache K V
  counted c = record c { stores = c.stores + 1 }

  -- `now` is the clock at the deadline of the entry, `swept` at the sweep.
  unfoldable pub put :
      Limits → (V → ℕ) → K → V → Option ℕ → ℕ → ℕ → MemoryCache K V → Bool × MemoryCache K V
  unfolding drop evict sweep_expired
  put limits size_fn k value ttl now swept c =
      let size = padded limits (size_fn value) in
      if ltb limits.max_entry_bytes size
      then (false, c)
      else let c' = counted (
          evict limits (
            entered k value size (deadline limits ttl now)
              (if has k c.entries then drop k c else c))) in
        (true, if nat_beq (c'.stores % sweep_every) 0 then sweep_expired swept c' else c')
