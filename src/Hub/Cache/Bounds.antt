-- ===== src/Hub/Cache/Bounds.antt =====
-- The limits of the cache hold after every call.
use fin_data_platform.Prelude.{
  ℕ, ◌≤◌, ◌≡◌, refl, inl, inr, Option, none, List, [], ◌∷◌, Eq, Bool-cases, Option-cases, arith,
  if◌then◌else◌, ltb, nat_beq, ◌%◌, length, sym, subst,
}
use fin_data_platform.Dict.{get as dict_get, has, values, IsDistinct}
use fin_data_platform.Dict.Laws.{get-put, get-remove}
use fin_data_platform.Dict.Totals.{sum, get-move_to_end, move_to_end-IsDistinct, length-move_to_end}
use fin_data_platform.Hub.Cache.{
  Limits, MemoryCache, init, drop, is_expired, evict, entered, counted, padded, deadline,
  expired_keys, sweep_expired, sweep_every, get, contains, put, invalidate, clear, missed,
}
use fin_data_platform.Hub.Cache.Books.{entered-IsBalanced}
use fin_data_platform.Hub.Cache.Validity.{
  IsSmall, IsValid, init-IsValid, drop-IsValid, drop_each-IsValid, evict-IsValid,
}

-- The calls of the cache.
pub data Call {ℓ κ} (K : Type ℓ) (V : Type κ) : Type (ℓ ⊔ κ) where
  read : K → ℕ → Call K V
  probe : K → ℕ → Call K V
  store : K → V → Option ℕ → ℕ → ℕ → Call K V
  forget : K → Call K V
  reset : Call K V

module _ {ℓ κ} {K : Type ℓ} {V : Type κ} ⦃e : Eq K⦄ (limits : Limits) where
  pub absent_then :
      (k : K) (c : MemoryCache K V)
      → dict_get k (if has k c.entries then drop k c else c).entries ≡ none
  unfolding drop
  absent_then k c = elim (Option-cases (dict_get k c.entries)) [
    | inl h ↦ rw (h, has) h
    | inr (entry, h) ↦ rw (h, has, drop) (ground (arith, get-remove k k c.entries, e.beq_iff k k))
  ]

  pub cleared-IsValid :
      (k : K) (c : MemoryCache K V)
      → IsValid limits c
      → IsValid limits (if has k c.entries then drop k c else c)
  cleared-IsValid k c v = elim (Bool-cases (has k c.entries)) [
    | inl t ↦ rw t (drop-IsValid limits k c v)
    | inr t ↦ rw t v
  ]

  entered-IsSmall :
      (k : K) (value : V) (size : ℕ) (expires_at : Option ℕ) (c : MemoryCache K V)
      → size ≤ limits.max_entry_bytes
      → IsSmall limits c
      → IsSmall limits (entered k value size expires_at c)
  entered-IsSmall k value size expires_at c le s j n g =
      ground (arith, get-put k j size c.sizes, s j n)

  -- A change of the counters alone.
  same_contents-IsValid :
      (c d : MemoryCache K V)
      → d.entries ≡ c.entries
      → d.sizes ≡ c.sizes
      → d.total_bytes ≡ c.total_bytes
      → IsValid limits c
      → IsValid limits d
  same_contents-IsValid c d p q s v = record {
    balanced = record {
      distinct = subst IsDistinct (sym p) v.balanced.distinct;
      sizes_distinct = subst IsDistinct (sym q) v.balanced.sizes_distinct;
      same_keys = λ k. rw (p, q, has) (v.balanced.same_keys k);
      total = rw (s, q) v.balanced.total;
    };
    bytes = rw s v.bytes;
    count = rw p v.count;
    small = rw q v.small;
  }

  sweep_expired-IsValid :
      (now : ℕ) (c : MemoryCache K V) → IsValid limits c → IsValid limits (sweep_expired now c)
  unfolding sweep_expired
  sweep_expired-IsValid now c v = drop_each-IsValid limits (expired_keys now c.entries) c v

  pub put-IsValid :
      (size_fn : V → ℕ) (k : K) (value : V) (ttl : Option ℕ) (now swept : ℕ) (c : MemoryCache K V)
      → IsValid limits c
      → IsValid limits (put limits size_fn k value ttl now swept c).1
  unfolding put
  put-IsValid size_fn k value ttl now swept c v =
      elim (Bool-cases (ltb limits.max_entry_bytes size)) [
        | inl t ↦ rw t v
        | inr t ↦
            rw t
              (elim (Bool-cases
                (nat_beq ((counted (evict limits stored)).stores % sweep_every) 0)) [
                  | inl u ↦ rw u (
                      sweep_expired-IsValid swept (counted (evict limits stored))
                        (done (ground arith)))
                  | inr u ↦ rw u (done (ground arith))
                ])
      ]
    where
      size : ℕ
      size = padded limits (size_fn value)

      at : Option ℕ
      at = deadline limits ttl now

      room : MemoryCache K V
      room = if has k c.entries then drop k c else c

      room-IsValid : IsValid limits room
      room-IsValid = cleared-IsValid k c v

      stored : MemoryCache K V
      stored = entered k value size at room

      done : size ≤ limits.max_entry_bytes → IsValid limits (counted (evict limits stored))
      done le =
          same_contents-IsValid (evict limits stored) (counted (evict limits stored)) refl refl refl
            (evict-IsValid limits stored
              (entered-IsBalanced k value size at room (absent_then k c) room-IsValid.balanced)
              (entered-IsSmall k value size at room le room-IsValid.small))

  pub get-IsValid :
      (k : K) (now : ℕ) (c : MemoryCache K V) → IsValid limits c → IsValid limits (get k now c).1
  unfolding get
  get-IsValid k now c v = elim (Option-cases (dict_get k c.entries)) [
    | inl h ↦ rw (h, get) (same_contents-IsValid c (missed c) refl refl refl v)
    | inr (entry, h) ↦ elim (Bool-cases (is_expired now entry)) [
      | inl t ↦
          rw (h, get)
            (rw t (
              same_contents-IsValid (drop k c) (missed (drop k c)) refl refl refl
                (drop-IsValid limits k c v)))
      | inr t ↦
          rw (h, get)
            (rw t (record {
              balanced = record {
                distinct = move_to_end-IsDistinct k c.entries v.balanced.distinct;
                sizes_distinct = v.balanced.sizes_distinct;
                same_keys =
                    λ j. ground (arith, get-move_to_end k j c.entries, v.balanced.same_keys j);
                total = v.balanced.total;
              };
              bytes = v.bytes;
              count = omega (arith, v.count, length-move_to_end k c.entries);
              small = v.small;
            }))
    ]
  ]

  contains-IsValid :
      (k : K) (now : ℕ) (c : MemoryCache K V)
      → IsValid limits c
      → IsValid limits (contains k now c).1
  unfolding contains
  contains-IsValid k now c v = elim (Option-cases (dict_get k c.entries)) [
    | inl h ↦ rw (h, contains) v
    | inr (entry, h) ↦ elim (Bool-cases (is_expired now entry)) [
      | inl t ↦ rw (h, contains) (rw t (drop-IsValid limits k c v))
      | inr t ↦ rw (h, contains) (rw t v)
    ]
  ]

  module _ (size_fn : V → ℕ) where
    unfoldable pub answer : Call K V → MemoryCache K V → MemoryCache K V
    answer (read k now) c = (get k now c).1
    answer (probe k now) c = (contains k now c).1
    answer (store k value ttl now swept) c = (put limits size_fn k value ttl now swept c).1
    answer (forget k) c = invalidate k c
    answer reset c = clear c

    unfoldable pub answer_all : List (Call K V) → MemoryCache K V → MemoryCache K V
    unfolding answer
    answer_all [] c = c
    answer_all (call ∷ calls) c = answer_all calls (answer call c)

    answer-IsValid :
        (call : Call K V) (c : MemoryCache K V) → IsValid limits c → IsValid limits (answer call c)
    unfolding answer invalidate clear
    answer-IsValid (read k now) c v = get-IsValid k now c v
    answer-IsValid (probe k now) c v = contains-IsValid k now c v
    answer-IsValid (store k value ttl now swept) c v = put-IsValid size_fn k value ttl now swept c v
    answer-IsValid (forget k) c v = drop-IsValid limits k c v
    answer-IsValid reset c v =
        same_contents-IsValid (init {K = K} {V = V}) (clear c) refl refl refl (init-IsValid limits)

    pub answer_all-IsValid :
        (calls : List (Call K V)) (c : MemoryCache K V)
        → IsValid limits c
        → IsValid limits (answer_all calls c)
    unfolding answer_all
    answer_all-IsValid [] c v = v
    answer_all-IsValid (call ∷ calls) c v =
        answer_all-IsValid calls (answer call c) (answer-IsValid call c v)

    -- From the empty cache, after any calls: the total is the sum of the recorded sizes and at most
    -- `max_bytes`, there are at most `max_entries` entries, and the entries and the recorded sizes
    -- have the same keys.
    pub within_limits :
        (calls : List (Call K V))
        → let c = answer_all calls init in
          (c.total_bytes ≡ sum (values c.sizes))
          × (c.total_bytes ≤ limits.max_bytes)
          × (length c.entries ≤ limits.max_entries)
          × ((k : K) → has k c.entries ≡ has k c.sizes)
    within_limits calls =
        let v = answer_all-IsValid calls init (init-IsValid limits) in
        (v.balanced.total, v.bytes, v.count, v.balanced.same_keys)
