-- ===== src/Hub/Cache/Books.antt =====
-- The books of the cache: the sizes stand under the keys of the entries, and the total is their sum.
use fin_data_platform.Prelude.{
  ℕ, ◌≡◌, refl, inl, inr, Option, none, List, [], ◌∷◌, Eq, Bool-cases, Option-cases, arith, sym,
  subst, ◌∙◌,
}
use fin_data_platform.Dict.{Dict, get as dict_get, has, remove, values, IsDistinct}
use fin_data_platform.Dict.Laws.{get-put, put-IsDistinct, remove-IsDistinct}
use fin_data_platform.Dict.Totals.{sum, has-remove, sum-put, sum-remove, empty_of_none}
use fin_data_platform.Hub.Cache.{
  Limits, Entry, MemoryCache, drop, drop_each, is_over, popped, evict_each, entered,
}

pub record IsBalanced {ℓ κ} {K : Type ℓ} {V : Type κ} ⦃e : Eq K⦄ (c : MemoryCache K V)
    : Type (ℓ ⊔ κ) where
  pub distinct : IsDistinct c.entries
  pub sizes_distinct : IsDistinct c.sizes
  pub same_keys : (k : K) → has k c.entries ≡ has k c.sizes
  pub total : c.total_bytes ≡ sum (values c.sizes)

module _ {ℓ κ} {K : Type ℓ} {V : Type κ} ⦃e : Eq K⦄ where
  pub drop-IsBalanced : (k : K) (c : MemoryCache K V) → IsBalanced c → IsBalanced (drop k c)
  unfolding drop
  drop-IsBalanced k c b = elim (Option-cases (dict_get k c.entries)) [
    | inl h ↦ rw (h, drop) b
    | inr (entry, h) ↦
        rw (h, drop)
          (record {
            distinct = remove-IsDistinct k c.entries b.distinct;
            sizes_distinct = remove-IsDistinct k c.sizes b.sizes_distinct;
            same_keys =
                λ j. has-remove k j c.entries ∙ rw (b.same_keys j) (sym (has-remove k j c.sizes));
            total = omega (arith, sum-remove k c.sizes b.sizes_distinct, b.total);
          })
  ]

  pub drop_each-IsBalanced :
      (ks : List K) (c : MemoryCache K V) → IsBalanced c → IsBalanced (drop_each ks c)
  unfolding drop_each
  drop_each-IsBalanced [] c b = b
  drop_each-IsBalanced (k ∷ ks) c b = drop_each-IsBalanced ks (drop k c) (drop-IsBalanced k c b)

  pub popped-IsBalanced :
      (k : K) (entry : Entry V) (rest : Dict K (Entry V)) (c : MemoryCache K V)
      → c.entries ≡ (k, entry) ∷ rest
      → IsBalanced c
      → IsBalanced (popped k rest c)
  unfolding dict_get
  popped-IsBalanced k entry rest c at b =
      let d : IsDistinct ((k, entry) ∷ rest) = subst IsDistinct at b.distinct in
      record {
        distinct = d.1;
        sizes_distinct = remove-IsDistinct k c.sizes b.sizes_distinct;
        same_keys = λ j. same j d.0;
        total = omega (arith, sum-remove k c.sizes b.sizes_distinct, b.total);
      }
    where
      same : (j : K) → dict_get k rest ≡ none → has j rest ≡ has j (remove k c.sizes)
      same j fresh =
          let before : has j ((k, entry) ∷ rest) ≡ has j c.sizes =
            subst (λ m. has j m ≡ has j c.sizes) at (b.same_keys j) in
          rw (has-remove k j c.sizes) (elim (Bool-cases (e.beq k j)) [
            | inl t ↦ rw t (ground (arith, e.beq_iff k j))
            | inr t ↦ rw t (ground (arith, before))
          ])

  pub evict_each-IsBalanced :
      (limits : Limits) (m : Dict K (Entry V)) (c : MemoryCache K V)
      → c.entries ≡ m
      → IsBalanced c
      → IsBalanced (evict_each limits m c)
  unfolding evict_each
  evict_each-IsBalanced limits [] c at b = b
  evict_each-IsBalanced limits ((k, entry) ∷ rest) c at b = elim (Bool-cases (is_over limits c)) [
    | inl t ↦
        rw (t, evict_each)
          (evict_each-IsBalanced limits rest (popped k rest c) refl
            (popped-IsBalanced k entry rest c at b))
    | inr t ↦ rw (t, evict_each) b
  ]

  -- A new entry, under a key that has none.
  pub entered-IsBalanced :
      (k : K) (value : V) (size : ℕ) (expires_at : Option ℕ) (c : MemoryCache K V)
      → dict_get k c.entries ≡ none
      → IsBalanced c
      → IsBalanced (entered k value size expires_at c)
  entered-IsBalanced k value size expires_at c h b = record {
    distinct = put-IsDistinct k _ c.entries b.distinct;
    sizes_distinct = put-IsDistinct k size c.sizes b.sizes_distinct;
    same_keys = λ j. ground (
      arith,
      b.same_keys j,
      get-put k j size c.sizes,
      get-put k j (record { value = value; expires_at = expires_at }) c.entries,
    );
    total = omega (arith, b.total, sum-put k size c.sizes (ground (arith, b.same_keys k)));
  }

  -- An empty cache holds no bytes.
  pub empty_total : (c : MemoryCache K V) → IsBalanced c → c.entries ≡ [] → c.total_bytes ≡ 0
  unfolding dict_get
  empty_total c b at =
      let none_left : c.sizes ≡ [] = empty_of_none c.sizes (λ k. absent k (b.same_keys k)) in
      b.total ∙ rw none_left refl
    where
      absent : (k : K) → has k c.entries ≡ has k c.sizes → dict_get k c.sizes ≡ none
      absent k h =
          let h' : has {V = Entry V} k [] ≡ has k c.sizes =
            subst (λ m. has k m ≡ has k c.sizes) at h in
          ground (arith, h')
