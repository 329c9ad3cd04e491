-- ===== src/Hub/Cache/Stores.antt =====
-- What a write keeps: the new entry is read back, and the other entries stay or are evicted.
use fin_data_platform.Prelude.{
  ℕ, ◌≤◌, ◌≡◌, ◌≢◌, refl, false, ◌⊎◌, inl, inr, Option, none, some, [], ◌∷◌, ◌++◌, Eq, Bool-cases,
  arith, or_else, if◌then◌else◌, ltb, nat_beq, ◌%◌, length, sym, ◌∙◌, ap, subst,
}
use fin_data_platform.Dict.{Dict, get as dict_get, has, remove, values, IsDistinct}
use fin_data_platform.Dict.Laws.{get-put, get-remove}
use fin_data_platform.Dict.Totals.{sum, sum-remove, put_absent, empty_of_none, get-append_one}
use fin_data_platform.Hub.Cache.{
  Limits, Entry, MemoryCache, drop, is_over, is_expired, popped, evict_each, evict, entered,
  counted, padded, deadline, sweep_expired, sweep_every, get, put,
}
use fin_data_platform.Hub.Cache.Books.{
  IsBalanced, popped-IsBalanced, entered-IsBalanced, evict_each-IsBalanced,
}
use fin_data_platform.Hub.Cache.Bounds.{absent_then, cleared-IsValid}
use fin_data_platform.Hub.Cache.Validity.{IsValid}
use fin_data_platform.Hub.Cache.Reads.{shown, shown-kept, get-shown, get-drop, get-sweep_expired}

module _ {ℓ κ} {K : Type ℓ} {V : Type κ} ⦃e : Eq K⦄ (limits : Limits) where
  -- The bytes of a cache with one entry.
  one_total :
      (k : K) (entry : Entry V) (c : MemoryCache K V)
      → c.entries ≡ (k, entry) ∷ []
      → IsBalanced c
      → c.total_bytes ≡ or_else (dict_get k c.sizes) 0
  unfolding dict_get
  one_total k entry c at b =
      omega (arith, b.total, sum-remove k c.sizes b.sizes_distinct, ap (λ m. sum (values m)) left)
    where
      left : remove k c.sizes ≡ []
      left = empty_of_none (remove k c.sizes) (λ j.
          let same : has {V = Entry V} j ((k, entry) ∷ []) ≡ has j c.sizes =
            subst (λ m. has j m ≡ has j c.sizes) at (b.same_keys j) in
          ground (arith, same, get-remove k j c.sizes, e.beq_iff k j))

  -- The newest entry survives eviction if it fits on its own.
  newest_stays :
      (k : K) (entry : Entry V) (m : Dict K (Entry V)) (c : MemoryCache K V)
      → c.entries ≡ m ++ (k, entry) ∷ []
      → dict_get k c.entries ≡ some entry
      → IsBalanced c
      → or_else (dict_get k c.sizes) 0 ≤ limits.max_bytes
      → 1 ≤ limits.max_entries
      → dict_get k (evict_each limits (m ++ (k, entry) ∷ []) c).entries ≡ some entry
  unfolding evict_each dict_get
  newest_stays k entry [] c at here b fits one =
      let t : c.total_bytes ≡ or_else (dict_get k c.sizes) 0 = one_total k entry c at b in
      let n : length c.entries ≡ 1 = ap length at in
      let under : is_over limits c ≡ false = ground (arith, t, n) in rw (under, evict_each) here
  newest_stays k entry ((j, x) ∷ m) c at here b fits one = elim (Bool-cases (is_over limits c)) [
    | inr t ↦ rw (t, evict_each) here
    | inl t ↦
        rw (t, evict_each)
          (newest_stays k entry m (popped j (m ++ (k, entry) ∷ []) c) refl last
            (popped-IsBalanced j x (m ++ (k, entry) ∷ []) c at b)
            (ground (arith, get-remove j k c.sizes, apart)) one)
  ]
    where
      fresh : dict_get j (m ++ (k, entry) ∷ []) ≡ none
      fresh = (subst IsDistinct at b.distinct).0

      apart : e.beq j k ≡ false
      apart = ground (arith, fresh, get-append_one j k entry m, e.beq_iff j k, e.beq_iff k j)

      last : dict_get k (m ++ (k, entry) ∷ []) ≡ some entry
      last =
          let before : dict_get k ((j, x) ∷ (m ++ (k, entry) ∷ [])) ≡ some entry =
            subst (λ q. dict_get k q ≡ some entry) at here in
          ground (arith, before, apart)

  -- An entry is evicted, or stays as it was.
  evicted_or_same :
      (j : K) (m : Dict K (Entry V)) (c : MemoryCache K V)
      → c.entries ≡ m
      → IsDistinct m
      → (dict_get j (evict_each limits m c).entries ≡ none)
        ⊎ (dict_get j (evict_each limits m c).entries ≡ dict_get j m)
  unfolding evict_each dict_get
  evicted_or_same j [] c at d = inr (ap (dict_get j) at)
  evicted_or_same j ((k, x) ∷ m) c at (fresh, d) = elim (Bool-cases (is_over limits c)) [
    | inr t ↦ rw (t, evict_each) (inr (ap (dict_get j) at))
    | inl t ↦
        rw (t, evict_each)
          (elim (evicted_or_same j m (popped k m c) refl d) [
            | inl h ↦ inl h
            | inr h ↦ elim (Bool-cases (e.beq k j)) [
              | inl u ↦ inl (h ∙ ground (arith, e.beq_iff k j))
              | inr u ↦ inr (h ∙ rw u refl)
            ]
          ])
  ]

  module _ (size_fn : V → ℕ) (k : K) (value : V) (ttl : Option ℕ) (now : ℕ)
      (c : MemoryCache K V) where
    abbrev room : MemoryCache K V
    room = if has k c.entries then drop k c else c

    abbrev newest : Entry V
    newest = record { value = value; expires_at = deadline limits ttl now }

    abbrev stored : MemoryCache K V
    stored = entered k value (padded limits (size_fn value)) (deadline limits ttl now) room

    -- After the sweep that a write may end with, a read answers what it would without the sweep.
    read_after_put :
        (j : K) (swept later : ℕ)
        → IsValid limits c
        → padded limits (size_fn value) ≤ limits.max_entry_bytes
        → swept ≤ later
        → (get j later (put limits size_fn k value ttl now swept c).1).0
          ≡ shown later (dict_get j (evict limits stored).entries)
    unfolding put evict
    read_after_put j swept later v small le =
        rw fits
          (elim (Bool-cases (nat_beq ((counted (evict limits stored)).stores % sweep_every) 0)) [
            | inr u ↦ rw u (get-shown j later (counted (evict limits stored)))
            | inl u ↦ rw u (
                get-shown j later (sweep_expired swept (counted (evict limits stored)))
                ∙ ap (shown later)
                    (get-sweep_expired swept j (counted (evict limits stored)) full.distinct)
                ∙ shown-kept swept later (dict_get j (evict limits stored).entries) le)
          ])
      where
        fits : ltb limits.max_entry_bytes (padded limits (size_fn value)) ≡ false
        fits = ground arith

        full : IsBalanced (evict limits stored)
        full = evict_each-IsBalanced limits stored.entries stored refl (
            entered-IsBalanced k value (padded limits (size_fn value)) (deadline limits ttl now)
              room (absent_then limits k c) (cleared-IsValid limits k c v).balanced)

    -- A value that fits into the limits on its own is read back, after the write and the sweep that it
    -- may end with, until it expires.
    pub get-put_self :
        (swept later : ℕ)
        → IsValid limits c
        → padded limits (size_fn value) ≤ limits.max_entry_bytes
        → padded limits (size_fn value) ≤ limits.max_bytes
        → 1 ≤ limits.max_entries
        → swept ≤ later
        → is_expired later newest ≡ false
        → (get k later (put limits size_fn k value ttl now swept c).1).0 ≡ some value
    unfolding evict
    get-put_self swept later v small fits one le alive =
        read_after_put k swept later v small le ∙ ap (shown later) stays ∙ rw alive refl
      where
        order : stored.entries ≡ room.entries ++ (k, newest) ∷ []
        order = put_absent k newest room.entries (absent_then limits k c)

        sized : dict_get k stored.sizes ≡ some (padded limits (size_fn value))
        sized =
            ground (arith, get-put k k (padded limits (size_fn value)) room.sizes, e.beq_iff k k)

        stays : dict_get k (evict limits stored).entries ≡ some newest
        stays =
            subst (λ m. dict_get k (evict_each limits m stored).entries ≡ some newest) (sym order)
              (newest_stays k newest room.entries stored order
                (ground (arith, get-put k k newest room.entries, e.beq_iff k k))
                (entered-IsBalanced k value (padded limits (size_fn value))
                  (deadline limits ttl now) room (absent_then limits k c)
                  (cleared-IsValid limits k c v).balanced)
                (rw sized fits) one)

    -- A write under another key leaves what a read answers as it was, or the entry has been evicted.
    pub get-put_other :
        (j : K) (swept later : ℕ)
        → IsValid limits c
        → k ≢ j
        → swept ≤ later
        → ((get j later (put limits size_fn k value ttl now swept c).1).0 ≡ none)
          ⊎ ((get j later (put limits size_fn k value ttl now swept c).1).0 ≡ (get j later c).0)
    unfolding put evict
    get-put_other j swept later v apart le =
        elim (Bool-cases (ltb limits.max_entry_bytes (padded limits (size_fn value)))) [
          | inl t ↦ rw t (inr refl)
          | inr t ↦
              let answer : (get j later (put limits size_fn k value ttl now swept c).1).0
                  ≡ shown later (dict_get j (evict limits stored).entries) =
                read_after_put j swept later v (ground arith) le in
              elim (evicted_or_same j stored.entries stored refl balanced.distinct) [
                | inl h ↦ inl (answer ∙ ap (shown later) h)
                | inr h ↦ inr (answer ∙ ap (shown later) (h ∙ before) ∙ sym (get-shown j later c))
              ]
        ]
      where
        balanced : IsBalanced stored
        balanced =
            entered-IsBalanced k value (padded limits (size_fn value)) (deadline limits ttl now)
              room (absent_then limits k c) (cleared-IsValid limits k c v).balanced

        different : e.beq k j ≡ false
        different = ground (arith, e.beq_iff k j, apart)

        before : dict_get j stored.entries ≡ dict_get j c.entries
        before = elim (Bool-cases (has k c.entries)) [
          | inl u ↦ ground (arith, u, different, get-put k j newest room.entries, get-drop k j c)
          | inr u ↦ ground (arith, u, different, get-put k j newest room.entries)
        ]
