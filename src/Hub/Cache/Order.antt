-- ===== src/Hub/Cache/Order.antt =====
-- Eviction takes the entries whose last use is the oldest.
use fin_data_platform.Prelude.{
  ℕ, zero, suc, ◌+◌, ◌≡◌, refl, true, ◌⊎◌, inl, inr, List, [], ◌∷◌, Eq, Bool-cases, arith,
}
use fin_data_platform.Dict.{Dict}
use fin_data_platform.Hub.Cache.{Limits, Entry, MemoryCache, is_over, popped, evict_each, evict}

-- A list without its first elements.
abbrev pub skip {ℓ} : {A : Type ℓ} → ℕ → List A → List A
skip zero xs = xs
skip (suc n) [] = []
skip (suc n) (x ∷ xs) = skip n xs

module _ {ℓ κ} {K : Type ℓ} {V : Type κ} ⦃e : Eq K⦄ (limits : Limits) where
  evict_each-skip :
      (m : Dict K (Entry V)) (c : MemoryCache K V)
      → c.entries ≡ m
      → (n : ℕ) × ((evict_each limits m c).entries ≡ skip n m)
        × ((evict_each limits m c).evictions ≡ c.evictions + n)
        × ((is_over limits c ≡ true) ⊎ (n ≡ 0))
  unfolding evict_each
  evict_each-skip [] c at = (0, at, omega arith, inr refl)
  evict_each-skip ((k, entry) ∷ m) c at = elim (Bool-cases (is_over limits c)) [
    | inr t ↦ rw (t, evict_each) (0, at, omega arith, inr refl)
    | inl t ↦
        let (n, same, count, _) = evict_each-skip m (popped k m c) refl in
        rw (t, evict_each) (suc n, same, omega (arith, count), inl refl)
  ]

  -- What eviction leaves are the entries without the first ones, those whose last use is the oldest,
  -- in their order; the counter of evictions grows by the number of entries that went, and none goes
  -- unless the cache was over a limit.
  pub evict-skip :
      (c : MemoryCache K V)
      → (n : ℕ) × ((evict limits c).entries ≡ skip n c.entries)
        × ((evict limits c).evictions ≡ c.evictions + n)
        × ((is_over limits c ≡ true) ⊎ (n ≡ 0))
  unfolding evict
  evict-skip c = evict_each-skip c.entries c refl
