-- ===== src/Hub/Cache/Validity.antt =====
-- A valid cache: balanced books and the limits kept. Removal and eviction keep it, or make it so.
use fin_data_platform.Prelude.{
  ℕ, ◌≤◌, ◌≡◌, refl, false, inl, inr, some, List, [], ◌∷◌, Eq, Bool-cases, Option-cases, arith,
  length,
}
use fin_data_platform.Dict.{Dict, get as dict_get}
use fin_data_platform.Dict.Laws.{get-remove}
use fin_data_platform.Dict.Totals.{length-remove}
use fin_data_platform.Hub.Cache.{
  Limits, Entry, MemoryCache, init, drop, drop_each, is_over, popped, evict_each, evict,
}
use fin_data_platform.Hub.Cache.Books.{
  IsBalanced, drop-IsBalanced, popped-IsBalanced, evict_each-IsBalanced, empty_total,
}

-- Every entry is small enough.
abbrev pub IsSmall {ℓ κ} : {K : Type ℓ} {V : Type κ} ⦃e : Eq K⦄ → Limits → MemoryCache K V → Type ℓ
IsSmall {K = K} limits c =
    (k : K) (n : ℕ) → dict_get k c.sizes ≡ some n → n ≤ limits.max_entry_bytes

pub record IsValid {ℓ κ} {K : Type ℓ} {V : Type κ} ⦃e : Eq K⦄ (limits : Limits)
    (c : MemoryCache K V) : Type (ℓ ⊔ κ) where
  pub balanced : IsBalanced c
  pub bytes : c.total_bytes ≤ limits.max_bytes
  pub count : length c.entries ≤ limits.max_entries
  pub small : IsSmall limits c

module _ {ℓ κ} {K : Type ℓ} {V : Type κ} ⦃e : Eq K⦄ (limits : Limits) where
  pub init-IsValid : IsValid limits (init {K = K} {V = V})
  unfolding dict_get
  init-IsValid = record {
    balanced = record { distinct = tt; sizes_distinct = tt; same_keys = λ k. refl; total = refl };
    bytes = omega arith;
    count = omega arith;
    small = λ k n h. cc;
  }

  pub drop-IsValid : (k : K) (c : MemoryCache K V) → IsValid limits c → IsValid limits (drop k c)
  unfolding drop
  drop-IsValid k c v = elim (Option-cases (dict_get k c.entries)) [
    | inl h ↦ rw (h, drop) v
    | inr (entry, h) ↦
        let b : IsBalanced (drop k c) = drop-IsBalanced k c v.balanced in
        rw (h, drop)
          (record {
            balanced = rw (h, drop) at b;
            bytes = omega (arith, v.bytes);
            count = omega (arith, v.count, length-remove k c.entries);
            small = λ j n g. ground (arith, get-remove k j c.sizes, v.small j n);
          })
  ]

  pub drop_each-IsValid :
      (ks : List K) (c : MemoryCache K V) → IsValid limits c → IsValid limits (drop_each ks c)
  unfolding drop_each
  drop_each-IsValid [] c v = v
  drop_each-IsValid (k ∷ ks) c v = drop_each-IsValid ks (drop k c) (drop-IsValid k c v)

  pub not_over :
      (m : Dict K (Entry V)) (c : MemoryCache K V)
      → c.entries ≡ m
      → IsBalanced c
      → is_over limits (evict_each limits m c) ≡ false
  unfolding evict_each
  not_over [] c at b = let t : c.total_bytes ≡ 0 = empty_total c b at in rw (at, t) (ground arith)
  not_over ((k, entry) ∷ rest) c at b = elim (Bool-cases (is_over limits c)) [
    | inl t ↦
        rw (t, evict_each)
          (not_over rest (popped k rest c) refl (popped-IsBalanced k entry rest c at b))
    | inr t ↦ rw (t, evict_each) t
  ]

  pub evict_each-IsSmall :
      (m : Dict K (Entry V)) (c : MemoryCache K V)
      → IsSmall limits c
      → IsSmall limits (evict_each limits m c)
  unfolding evict_each
  evict_each-IsSmall [] c s = s
  evict_each-IsSmall ((k, entry) ∷ rest) c s = elim (Bool-cases (is_over limits c)) [
    | inl t ↦
        rw (t, evict_each)
          (evict_each-IsSmall rest (popped k rest c)
            (λ j n g. ground (arith, get-remove k j c.sizes, s j n)))
    | inr t ↦ rw (t, evict_each) s
  ]

  -- Eviction brings a cache of small entries under its limits.
  pub evict-IsValid :
      (c : MemoryCache K V) → IsBalanced c → IsSmall limits c → IsValid limits (evict limits c)
  unfolding evict
  evict-IsValid c b s =
      let under : is_over limits (evict_each limits c.entries c) ≡ false =
        not_over c.entries c refl b in
      record {
        balanced = evict_each-IsBalanced limits c.entries c refl b;
        bytes = ground (arith, under);
        count = ground (arith, under);
        small = evict_each-IsSmall c.entries c s;
      }
