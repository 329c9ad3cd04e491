-- ===== src/Prelude/Greatest.antt =====
-- Python's `max` by a key: the first element that no later one exceeds.
use mathlib.Core.Path.{◌≡◌, refl, sym, subst}
use mathlib.Core.Bool.{Bool, true, false}
use mathlib.Core.Option.{Option, none, some}
use mathlib.Core.List.{List, [], ◌∷◌, ◌++◌}
use mathlib.Core.Logic.{inl, inr}
use native.Mathlib.Omega.{arith}
use fin_data_platform.Prelude.Tests.{if◌then◌else◌, Bool-cases}
use fin_data_platform.Prelude.Lists.{All, any, filter}

module _ {ℓ} {A : Type ℓ} (exceeds : A → A → Bool) where
  -- The best of `best` and the list, where `exceeds a b` is whether `b` is better than `a`.
  unfoldable pub greatest_from : A → List A → A
  greatest_from best [] = best
  greatest_from best (x ∷ xs) = greatest_from (if exceeds best x then x else best) xs

  unfoldable pub greatest : List A → Option A
  unfolding greatest_from
  greatest [] = none
  greatest (x ∷ xs) = some (greatest_from x xs)

  pub All-greatest_from {κ} :
      (P : A → Type κ) (best : A) (xs : List A) → P best → All P xs → P (greatest_from best xs)
  unfolding greatest_from
  All-greatest_from P best [] p h = p
  All-greatest_from P best (x ∷ xs) p (px, h) = elim (Bool-cases (exceeds best x)) [
    | inl t ↦ rw (t, greatest_from) (All-greatest_from P x xs px h)
    | inr t ↦ rw (t, greatest_from) (All-greatest_from P best xs p h)
  ]

  -- The greatest element is one of them.
  pub All-greatest {κ} :
      (P : A → Type κ) (xs : List A) (best : A) → greatest xs ≡ some best → All P xs → P best
  unfolding greatest
  All-greatest P [] best e h = absurd (ground arith)
  All-greatest P (x ∷ xs) best e (px, h) =
      let same : greatest_from x xs ≡ best = ground arith in
      rw (← same) (All-greatest_from P x xs px h)

  last_from :
      (best last : A) (xs : List A)
      → exceeds best last ≡ true
      → All (λ x. exceeds x last ≡ true) xs
      → greatest_from best (xs ++ last ∷ []) ≡ last
  unfolding greatest_from
  last_from best last [] p h = rw p refl
  last_from best last (x ∷ xs) p (px, h) = elim (Bool-cases (exceeds best x)) [
    | inl t ↦ rw (t, greatest_from) (last_from x last xs px h)
    | inr t ↦ rw (t, greatest_from) (last_from best last xs p h)
  ]

  -- A last element that exceeds all others is the greatest.
  pub greatest-last :
      (xs : List A) (last : A)
      → All (λ x. exceeds x last ≡ true) xs
      → greatest (xs ++ last ∷ []) ≡ some last
  unfolding greatest greatest_from
  greatest-last [] last h = refl
  greatest-last (x ∷ xs) last (px, h) = rw (last_from x last xs px h) refl

  pub greatest-any :
      (p : A → Bool) (xs : List A) → any p xs ≡ true → (x : A) × (greatest (filter p xs) ≡ some x)
  unfolding greatest
  greatest-any p [] h = absurd (ground arith)
  greatest-any p (x ∷ xs) h = elim (Bool-cases (p x)) [
    | inl t ↦ rw t (_, refl)
    | inr t ↦ rw t (greatest-any p xs (ground arith))
  ]

  module _ (trans : (a b c : A) → exceeds a b ≡ false → exceeds b c ≡ false → exceeds a c ≡ false)
      (asym : (a b : A) → exceeds a b ≡ true → exceeds b a ≡ false) where
    most_from :
        (best : A) (xs : List A)
        → (exceeds (greatest_from best xs) best ≡ false)
          × All (λ x. exceeds (greatest_from best xs) x ≡ false) xs
    unfolding greatest_from
    most_from best [] = elim (Bool-cases (exceeds best best)) [
      | inl t ↦ (asym best best t, tt)
      | inr t ↦ (t, tt)
    ]
    most_from best (x ∷ xs) = elim (Bool-cases (exceeds best x)) [
      | inl t ↦
          let (p, h) = most_from x xs in
          subst (λ b. Most (greatest_from (if b then x else best) xs)) (sym t)
            (trans (greatest_from x xs) x best p (asym best x t), (p, h))
      | inr t ↦
          let (p, h) = most_from best xs in
          subst (λ b. Most (greatest_from (if b then x else best) xs)) (sym t)
            (p, (trans (greatest_from best xs) best x p t, h))
    ]
      where
        Most : A → Type 0
        Most g = (exceeds g best ≡ false) × All (λ y. exceeds g y ≡ false) (x ∷ xs)

    -- No element exceeds the greatest.
    pub greatest_most :
        (xs : List A) (best : A) → greatest xs ≡ some best → All (λ x. exceeds best x ≡ false) xs
    unfolding greatest
    greatest_most [] best e = tt
    greatest_most (x ∷ xs) best e =
        let same : greatest_from x xs ≡ best = ground arith in
        subst (λ g. (exceeds g x ≡ false) × All (λ y. exceeds g y ≡ false) xs) same (most_from x xs)
