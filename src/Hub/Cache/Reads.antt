-- ===== src/Hub/Cache/Reads.antt =====
-- What a read answers, and that reads and sweeps do not change what later reads answer.
use fin_data_platform.Prelude.{
  ℕ, ◌≤◌, ◌≡◌, refl, false, ◌⊎◌, inl, inr, Option, none, some, List, [], ◌∷◌, Eq, Bool-cases,
  Option-cases, arith, if◌then◌else◌, elem, sym, ◌∙◌, ap,
}
use fin_data_platform.Dict.{Dict, get as dict_get, IsDistinct}
use fin_data_platform.Dict.Laws.{get-remove}
use fin_data_platform.Dict.Totals.{get-move_to_end}
use fin_data_platform.Hub.Cache.{
  Entry, MemoryCache, drop, drop_each, is_expired, expired_keys, sweep_expired, get,
}

-- An entry as a read at `now` sees it.
abbrev pub shown {κ} : {V : Type κ} → ℕ → Option (Entry V) → Option V
shown now none = none
shown now (some entry) = if is_expired now entry then none else some entry.value

-- An entry that a removal of the expired ones at `now` leaves.
abbrev pub kept {κ} : {V : Type κ} → ℕ → Option (Entry V) → Option (Entry V)
kept now none = none
kept now (some entry) = if is_expired now entry then none else some entry

pub shown-kept {κ} :
    {V : Type κ} (now later : ℕ) (o : Option (Entry V))
    → now ≤ later
    → shown later (kept now o) ≡ shown later o
shown-kept now later none le = refl
shown-kept now later (some entry) le = ground arith

module _ {ℓ κ} {K : Type ℓ} {V : Type κ} ⦃e : Eq K⦄ where
  pub get-shown :
      (k : K) (now : ℕ) (c : MemoryCache K V) → (get k now c).0 ≡ shown now (dict_get k c.entries)
  unfolding get
  get-shown k now c = elim (Option-cases (dict_get k c.entries)) [
    | inl h ↦ rw (h, get) refl
    | inr (entry, h) ↦ elim (Bool-cases (is_expired now entry)) [
      | inl t ↦ rw (h, get) (rw t refl)
      | inr t ↦ rw (h, get) (rw t refl)
    ]
  ]

  pub get-drop :
      (k j : K) (c : MemoryCache K V)
      → dict_get j (drop k c).entries ≡ (if e.beq k j then none else dict_get j c.entries)
  unfolding drop
  get-drop k j c = elim (Option-cases (dict_get k c.entries)) [
    | inl h ↦
        rw (h, drop)
          (elim (Bool-cases (e.beq k j)) [
            | inl t ↦ rw t (ground (arith, e.beq_iff k j))
            | inr t ↦ rw t refl
          ])
    | inr (entry, h) ↦ rw (h, drop) (get-remove k j c.entries)
  ]

  pub get-drop_each :
      (ks : List K) (j : K) (c : MemoryCache K V)
      → dict_get j (drop_each ks c).entries ≡ (if elem j ks then none else dict_get j c.entries)
  unfolding drop_each
  get-drop_each [] j c = refl
  get-drop_each (k ∷ ks) j c =
      ground (arith, get-drop_each ks j (drop k c), get-drop k j c, e.beq_iff k j, e.beq_iff j k)

  not_expired :
      (now : ℕ) (j : K) (m : Dict K (Entry V))
      → dict_get j m ≡ none
      → elem j (expired_keys now m) ≡ false
  unfolding dict_get expired_keys
  not_expired now j [] h = refl
  not_expired now j ((k, entry) ∷ m) h =
      ground (arith, not_expired now j m, e.beq_iff j k, e.beq_iff k j)

  kept-expired :
      (now : ℕ) (j : K) (m : Dict K (Entry V))
      → IsDistinct m
      → (if elem j (expired_keys now m) then none else dict_get j m) ≡ kept now (dict_get j m)
  unfolding dict_get expired_keys
  kept-expired now j [] d = refl
  kept-expired now j ((k, entry) ∷ m) (fresh, d) = elim (Bool-cases (e.beq k j)) [
    | inl t ↦ ground (arith, t, e.beq_iff j k, e.beq_iff k j, fresh, not_expired now k m)
    | inr t ↦ ground (arith, t, e.beq_iff j k, e.beq_iff k j, kept-expired now j m d)
  ]

  pub get-sweep_expired :
      (now : ℕ) (j : K) (c : MemoryCache K V)
      → IsDistinct c.entries
      → dict_get j (sweep_expired now c).entries ≡ kept now (dict_get j c.entries)
  unfolding sweep_expired
  get-sweep_expired now j c d =
      get-drop_each (expired_keys now c.entries) j c ∙ kept-expired now j c.entries d

  entry_after_get :
      (k j : K) (now : ℕ) (c : MemoryCache K V)
      → (dict_get j (get k now c).1.entries ≡ dict_get j c.entries)
        ⊎ (dict_get j (get k now c).1.entries ≡ kept now (dict_get j c.entries))
  unfolding get
  entry_after_get k j now c = elim (Option-cases (dict_get k c.entries)) [
    | inl h ↦ inl (rw (h, get) refl)
    | inr (entry, h) ↦ elim (Bool-cases (is_expired now entry)) [
      | inr t ↦ inl (rw (h, get) (rw t (get-move_to_end k j c.entries)))
      | inl t ↦ elim (Bool-cases (e.beq k j)) [
        | inl u ↦ inr (rw (h, get) (rw t (ground (arith, get-drop k j c, e.beq_iff k j))))
        | inr u ↦ inl (rw (h, get) (rw t (ground (arith, get-drop k j c))))
      ]
    ]
  ]

  -- A read, even one that finds its entry expired, does not change what any later read answers.
  pub get-get :
      (k j : K) (now later : ℕ) (c : MemoryCache K V)
      → now ≤ later
      → (get j later (get k now c).1).0 ≡ (get j later c).0
  get-get k j now later c le =
      get-shown j later (get k now c).1
      ∙ elim (entry_after_get k j now c) [
        | inl h ↦ ap (shown later) h
        | inr h ↦ ap (shown later) h ∙ shown-kept now later (dict_get j c.entries) le
      ]
      ∙ sym (get-shown j later c)
