-- ===== src/Dict/Laws.antt =====
-- The laws of the dictionary, in the form of tests on keys.
use fin_data_platform.Prelude.{
  ◌+◌, ◌≡◌, refl, Bool, true, none, some, [], ◌∷◌, Eq, any, filter, length, if◌then◌else◌, arith,
  beq_refl, Bool-cases, inl, inr, All, subst, elem, map, ◌&&◌, length, ◌+◌,
}
use fin_data_platform.Dict.{Dict, values, get, put, remove, IsDistinct}

module _ {ℓ κ} {K : Type ℓ} {V : Type κ} ⦃e : Eq K⦄ where
  pub get-put :
      (k j : K) (v : V) (m : Dict K V) → get j (put k v m) ≡ (if e.beq k j then some v else get j m)
  unfolding get put
  get-put k j v [] = refl
  get-put k j v ((i, w) ∷ m) =
      ground (arith, e.beq_iff k j, e.beq_iff i k, e.beq_iff i j, get-put k j v m)

  pub get-put_self : (k : K) (v : V) (m : Dict K V) → get k (put k v m) ≡ some v
  get-put_self k v m = ground (arith, get-put k k v m, e.beq_iff k k)

  pub get-remove :
      (k j : K) (m : Dict K V) → get j (remove k m) ≡ (if e.beq k j then none else get j m)
  unfolding get remove
  get-remove k j [] = ground arith
  get-remove k j ((i, w) ∷ m) =
      ground (arith, e.beq_iff k j, e.beq_iff i k, e.beq_iff i j, get-remove k j m)

  pub put-IsDistinct : (k : K) (v : V) (m : Dict K V) → IsDistinct m → IsDistinct (put k v m)
  unfolding get put
  put-IsDistinct k v [] d = (refl, tt)
  put-IsDistinct k v ((i, w) ∷ m) (fresh, d) = elim (Bool-cases (e.beq i k)) [
    | inl same ↦ rw same (fresh, d)
    | inr other ↦
        rw other
          (ground (arith, get-put k i v m, e.beq_iff k i, e.beq_iff i k), put-IsDistinct k v m d)
  ]

  pub remove-IsDistinct : (k : K) (m : Dict K V) → IsDistinct m → IsDistinct (remove k m)
  unfolding remove
  remove-IsDistinct k [] d = tt
  remove-IsDistinct k ((i, w) ∷ m) (fresh, d) = elim (Bool-cases (e.beq i k)) [
    | inl same ↦ rw same (remove-IsDistinct k m d)
    | inr other ↦ rw other (ground (arith, get-remove k i m), remove-IsDistinct k m d)
  ]

  -- A value that is stored is among the values.
  pub any_of_get :
      (p : V → Bool) (k : K) (v : V) (m : Dict K V)
      → get k m ≡ some v
      → p v ≡ true
      → any p (values m) ≡ true
  unfolding get
  any_of_get p k v [] h t = cc
  any_of_get p k v ((i, w) ∷ m) h t = ground (arith, any_of_get p k v m)

  -- Among the values of a dictionary with distinct keys, one that passes a test is stored.
  pub get_of_any :
      (p : V → Bool) (m : Dict K V)
      → IsDistinct m
      → any p (values m) ≡ true
      → (k : K) × (v : V) × (get k m ≡ some v) × (p v ≡ true)
  unfolding get
  get_of_any p [] d h = absurd (ground arith)
  get_of_any p ((i, w) ∷ m) (fresh, d) h = elim (Bool-cases (p w)) [
    | inl t ↦ (i, w, rw (beq_refl i), t)
    | inr f ↦
        let (k, v, g, t) = get_of_any p m d (ground arith) in
        (k, v, ground (arith, e.beq_iff i k), t)
  ]

  -- A fact about every stored value holds of the values, and the other way round.
  pub All-values {μ} :
      (P : V → Type μ) (m : Dict K V)
      → IsDistinct m
      → ((k : K) (v : V) → get k m ≡ some v → P v)
      → All P (values m)
  unfolding get
  All-values P [] d h = tt
  All-values P ((i, w) ∷ m) (fresh, d) h =
      (h i w (rw (beq_refl i)), All-values P m d (λ k v g. h k v (ground (arith, e.beq_iff i k))))

  pub All-values-get {μ} :
      (P : V → Type μ) (k : K) (v : V) (m : Dict K V) → All P (values m) → get k m ≡ some v → P v
  unfolding get
  All-values-get P k v [] h g = absurd (ground arith)
  All-values-get P k v ((i, w) ∷ m) (pw, h) g = elim (Bool-cases (e.beq i k)) [
    | inl t ↦ let same : w ≡ v = ground arith in subst P same pw
    | inr f ↦ All-values-get P k v m h (ground arith)
  ]

  -- An image of a stored value that passes a test is among the images.
  pub elem_of_get {μ} :
      {B : Type μ} ⦃b : Eq B⦄ (f : V → B) (p : V → Bool) (k : K) (v : V) (m : Dict K V)
      → get k m ≡ some v
      → p v ≡ true
      → elem (f v) (map f (filter p (values m))) ≡ true
  unfolding get
  elem_of_get f p k v [] h t = absurd (ground arith)
  elem_of_get ⦃b⦄ f p k v ((i, w) ∷ m) h t = elim (Bool-cases (e.beq i k)) [
    | inl same ↦ let here : w ≡ v = ground arith in rw (here, t) (rw (beq_refl (f v)) refl)
    | inr other ↦ elim (Bool-cases (p w)) [
      | inl q ↦ rw q (ground (arith, elem_of_get f p k v m (ground arith) t))
      | inr q ↦ rw q (elem_of_get f p k v m (ground arith) t)
    ]
  ]

  -- An image that is among the images is that of a stored value which passes the test.
  pub get_of_elem {μ} :
      {B : Type μ} ⦃b : Eq B⦄ (f : V → B) (p : V → Bool) (x : B) (m : Dict K V)
      → IsDistinct m
      → elem x (map f (filter p (values m))) ≡ true
      → (k : K) × (v : V) × (get k m ≡ some v) × (p v ≡ true) × (f v ≡ x)
  unfolding get
  get_of_elem f p x [] d h = absurd (ground arith)
  get_of_elem ⦃b⦄ f p x ((i, w) ∷ m) (fresh, d) h = elim (Bool-cases (p w && b.beq x (f w))) [
    | inl t ↦ (i, w, rw (beq_refl i), ground arith, ground (arith, b.beq_iff x (f w)))
    | inr t ↦
        let (k, v, g, pv, same) = get_of_elem f p x m d (ground arith) in
        (k, v, ground (arith, e.beq_iff i k), pv, same)
  ]

  -- A stored value that passes two tests is found by the one among those that pass the other.
  pub any_of_get-filter :
      (p q : V → Bool) (k : K) (v : V) (m : Dict K V)
      → get k m ≡ some v
      → p v ≡ true
      → q v ≡ true
      → any q (filter p (values m)) ≡ true
  unfolding get
  any_of_get-filter p q k v [] h t u = absurd (ground arith)
  any_of_get-filter p q k v ((i, w) ∷ m) h t u = ground (arith, any_of_get-filter p q k v m)

  pub get_of_any-filter :
      (p q : V → Bool) (m : Dict K V)
      → IsDistinct m
      → any q (filter p (values m)) ≡ true
      → (k : K) × (v : V) × (get k m ≡ some v) × (p v ≡ true) × (q v ≡ true)
  unfolding get
  get_of_any-filter p q [] d h = absurd (ground arith)
  get_of_any-filter p q ((i, w) ∷ m) (fresh, d) h = elim (Bool-cases (p w && q w)) [
    | inl t ↦ (i, w, rw (beq_refl i), ground arith, ground arith)
    | inr t ↦
        let (k, v, g, pv, qv) = get_of_any-filter p q m d (ground arith) in
        (k, v, ground (arith, e.beq_iff i k), pv, qv)
  ]

  -- Writing at a new key adds its value to the values that pass a test.
  pub length-filter-put :
      (p : V → Bool) (k : K) (v : V) (m : Dict K V)
      → get k m ≡ none
      → length (filter p (values (put k v m)))
        ≡ length (filter p (values m)) + (if p v then 1 else 0)
  unfolding get put
  length-filter-put p k v [] h = ground arith
  length-filter-put p k v ((i, w) ∷ m) h = ground (arith, length-filter-put p k v m)
