-- ===== src/Prelude/Sort.antt =====
-- Python's `sorted`: a stable sort by insertion, over a Boolean order.
use Prim.Native.Nat.{suc}
use mathlib.Core.Path.{◌≡◌, refl, subst}
use mathlib.Core.Bool.{Bool, true, false, not, ◌||◌}
use mathlib.Core.Logic.{inl, inr, ◌↔◌, ◌⊎◌}
use mathlib.Core.Option.{some}
use mathlib.Core.List.{List, [], ◌∷◌}
use native.Mathlib.Omega.{arith}
use fin_data_platform.Prelude.Tests.{if◌then◌else◌, Bool-cases}
use fin_data_platform.Prelude.Lists.{any, All, Any, All-map, head?, length, filter}

module _ {ℓ} {A : Type ℓ} (le : A → A → Bool) where
  unfoldable pub insert_sorted : A → List A → List A
  insert_sorted a [] = a ∷ []
  insert_sorted a (x ∷ xs) =
      let rest = insert_sorted a xs in if le a x then a ∷ x ∷ xs else x ∷ rest

  unfoldable pub sorted : List A → List A
  unfolding insert_sorted
  sorted [] = []
  sorted (x ∷ xs) = insert_sorted x (sorted xs)

  -- Sorting neither drops nor adds an element that a test can see.
  any-insert_sorted :
      (p : A → Bool) (a : A) (xs : List A) → any p (insert_sorted a xs) ≡ (p a || any p xs)
  unfolding insert_sorted
  any-insert_sorted p a [] = refl
  any-insert_sorted p a (x ∷ xs) = ground (arith, any-insert_sorted p a xs)

  pub any-sorted : (p : A → Bool) (xs : List A) → any p (sorted xs) ≡ any p xs
  unfolding sorted
  any-sorted p [] = refl
  any-sorted p (x ∷ xs) = ground (arith, any-sorted p xs, any-insert_sorted p x (sorted xs))

  length-filter-insert_sorted :
      (p : A → Bool) (a : A) (xs : List A)
      → length (filter p (insert_sorted a xs)) ≡ length (filter p (a ∷ xs))
  unfolding insert_sorted
  length-filter-insert_sorted p a [] = refl
  length-filter-insert_sorted p a (x ∷ xs) = ground (arith, length-filter-insert_sorted p a xs)

  pub length-filter-sorted :
      (p : A → Bool) (xs : List A) → length (filter p (sorted xs)) ≡ length (filter p xs)
  unfolding sorted
  length-filter-sorted p [] = refl
  length-filter-sorted p (x ∷ xs) =
      ground (arith, length-filter-insert_sorted p x (sorted xs), length-filter-sorted p xs)

  length-insert_sorted : (a : A) (xs : List A) → length (insert_sorted a xs) ≡ suc (length xs)
  unfolding insert_sorted
  length-insert_sorted a [] = refl
  length-insert_sorted a (x ∷ xs) = ground (arith, length-insert_sorted a xs)

  pub length-sorted : (xs : List A) → length (sorted xs) ≡ length xs
  unfolding sorted
  length-sorted [] = refl
  length-sorted (x ∷ xs) = omega (arith, length-insert_sorted x (sorted xs), length-sorted xs)

  All-insert_sorted {κ} :
      (P : A → Type κ) (a : A) (xs : List A) → P a → All P xs → All P (insert_sorted a xs)
  unfolding insert_sorted
  All-insert_sorted P a [] pa h = (pa, tt)
  All-insert_sorted P a (x ∷ xs) pa (px, h) = elim (Bool-cases (le a x)) [
    | inl t ↦ rw t (pa, (px, h))
    | inr f ↦ rw f (px, All-insert_sorted P a xs pa h)
  ]

  pub All-sorted {κ} : (P : A → Type κ) (xs : List A) → All P xs → All P (sorted xs)
  unfolding sorted
  All-sorted P [] h = tt
  All-sorted P (x ∷ xs) (px, h) = All-insert_sorted P x (sorted xs) px (All-sorted P xs h)

  Any-insert_sorted :
      (P : A → Type 0) (a : A) (xs : List A) → Any P (insert_sorted a xs) ↔ (P a ⊎ Any P xs)
  unfolding insert_sorted
  Any-insert_sorted P a [] = ((λ h. h), λ h. h)
  Any-insert_sorted P a (x ∷ xs) =
      let (f, g) = Any-insert_sorted P a xs in
      elim (Bool-cases (le a x)) [
        | inl t ↦ rw t ((λ h. h), λ h. h)
        | inr t ↦ rw t (
          (λ h. elim h [
            | inl px ↦ inr (inl px)
            | inr rest ↦ elim (f rest) [ inl pa ↦ inl pa | inr later ↦ inr (inr later) ]
          ]),
          λ h. elim h [
            | inl pa ↦ inr (g (inl pa))
            | inr rest ↦ elim rest [ inl px ↦ inl px | inr later ↦ inr (g (inr later)) ]
          ],
        )
      ]

  pub Any-sorted : (P : A → Type 0) (xs : List A) → Any P (sorted xs) ↔ Any P xs
  unfolding sorted
  Any-sorted P [] = ((λ h. h), λ h. h)
  Any-sorted P (x ∷ xs) =
      let (f, g) = Any-insert_sorted P x (sorted xs) in
      let (f', g') = Any-sorted P xs in
      (
        (λ h. elim (f h) [ inl px ↦ inl px | inr rest ↦ inr (f' rest) ]),
        λ h. elim h [ inl px ↦ g (inl px) | inr rest ↦ g (inr (g' rest)) ],
      )

  -- The first element of a sorted list is at most every element.
  abbrev pub Leads : List A → Type 0
  Leads [] = Unit
  Leads (x ∷ xs) = All (λ y. le x y ≡ true) xs

  module _ (total : (a b : A) → le a b ≡ false → le b a ≡ true)
      (trans : (a b c : A) → le a b ≡ true → le b c ≡ true → le a c ≡ true) where
    Leads-insert_sorted : (a : A) (xs : List A) → Leads xs → Leads (insert_sorted a xs)
    unfolding insert_sorted
    Leads-insert_sorted a [] h = tt
    Leads-insert_sorted a (x ∷ xs) h = elim (Bool-cases (le a x)) [
      | inl t ↦ rw t (t, All-map _ _ (λ y k. trans a x y t k) xs h)
      | inr f ↦ rw f (All-insert_sorted (λ y. le x y ≡ true) a xs (total a x f) h)
    ]

    pub Leads-sorted : (xs : List A) → Leads (sorted xs)
    unfolding sorted
    Leads-sorted [] = tt
    Leads-sorted (x ∷ xs) = Leads-insert_sorted x (sorted xs) (Leads-sorted xs)

    none_below :
        (x : A) (ys : List A) → All (λ y. le x y ≡ true) ys → any (λ y. not (le x y)) ys ≡ false
    none_below x [] h = refl
    none_below x (y ∷ ys) (t, h) = rw (t, none_below x ys h)

    -- The head of a sorted list is at most every element that the list had.
    pub head-sorted-le :
        ((a : A) → le a a ≡ true)
        → (xs : List A) (x : A) → head? (sorted xs) ≡ some x
        → any (λ y. not (le x y)) xs ≡ false
    head-sorted-le reflexive xs x e =
        rw (← any-sorted (λ y. not (le x y)) xs) (go (sorted xs) e (Leads-sorted xs))
      where
        go : (ys : List A) → head? ys ≡ some x → Leads ys → any (λ y. not (le x y)) ys ≡ false
        go [] e h = absurd (ground arith)
        go (y ∷ ys) e h =
            let same : y ≡ x = ground arith in
            subst (λ z. any (λ w. not (le z w)) (y ∷ ys) ≡ false) same
              (rw (reflexive y) (none_below y ys h))
