-- ===== src/Dict/Entries.antt =====
-- The entries and the keys of a dictionary with distinct keys, by its lookups.
use fin_data_platform.Prelude.{
  ◌≡◌, refl, true, ◌||◌, ◌↔◌, inl, inr, some, [], ◌∷◌, Eq, elem, Any, arith, Bool-cases, beq_refl,
  beq→eq, subst, sym, some_injective,
}
use fin_data_platform.Dict.{Dict, get, put, keys, IsDistinct}

module _ {K V : Type 0} ⦃e : Eq K⦄ where
  pub elem-keys-put :
      (k j : K) (v : V) (m : Dict K V) → elem j (keys (put k v m)) ≡ (e.beq j k || elem j (keys m))
  unfolding put
  elem-keys-put k j v [] = refl
  elem-keys-put k j v ((i, w) ∷ m) =
      ground (arith, e.beq_iff i k, e.beq_iff j k, e.beq_iff j i, elem-keys-put k j v m)

  pub elem-keys : (k : K) (v : V) (m : Dict K V) → get k m ≡ some v → elem k (keys m) ≡ true
  unfolding get
  elem-keys k v [] h = cc
  elem-keys k v ((i, w) ∷ m) h = ground (arith, e.beq_iff i k, e.beq_iff k i, elem-keys k v m)

  -- An entry has a property just when a lookup answers a value that has it.
  pub Any-entries :
      (P : K × V → Type 0) (m : Dict K V)
      → IsDistinct m
      → Any P m ↔ ((k : K) × (v : V) × (get k m ≡ some v) × P (k, v))
  unfolding get
  Any-entries P [] d = ((λ h. absurd h), λ (k, v, g, p). absurd (cc))
  Any-entries P ((i, w) ∷ m) (fresh, d) =
      let (f, f') = Any-entries P m d in
      (
        (λ h. elim h [
          | inl p ↦ (i, w, rw (beq_refl i) refl, p)
          | inr rest ↦ let (k, v, g, p) = f rest in (k, v, ground (arith, e.beq_iff i k), p)
        ]),
        λ (k, v, g, p). elim (Bool-cases (e.beq i k)) [
          | inr t ↦ inr (f' (k, v, rw t at g, p))
          | inl t ↦
              let same : w ≡ v = some_injective (rw t at g) in
              inl (subst (λ j. P (j, w)) (sym (beq→eq i k t)) (subst (λ u. P (k, u)) (sym same) p))
        ],
      )
