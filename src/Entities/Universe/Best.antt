-- ===== src/Entities/Universe/Best.antt =====
-- The greatest element of the rows that pass a test, by its place among them.
use fin_data_platform.Prelude.{
  ◌≡◌, refl, ap, ◌∙◌, Bool, true, false, ◌⊎◌, inl, inr, some, List, [], ◌∷◌, ◌++◌, filter, greatest,
  greatest_from, All, Bool-cases, some_injective, subst,
}

module _ {ℓ} {A : Type ℓ} (exceeds : A → A → Bool) where
  -- The place of an element that passes the test: those that pass it before it are below it, and those
  -- after it are not above it.
  pub record IsBest (p : A → Bool) (xs : List A) (best : A) : Type ℓ where
    pub earlier : List A
    pub later : List A
    pub place : xs ≡ earlier ++ best ∷ later
    pub passes : p best ≡ true
    pub below : All (λ x. p x ≡ true → exceeds x best ≡ true) earlier
    pub no_better : All (λ x. p x ≡ true → exceeds best x ≡ false) later

  -- The greatest of a row that passes and those of a list that do
  greatest_after :
      (p : A → Bool) (best : A) (later : List A)
      → All (λ x. p x ≡ true → exceeds best x ≡ false) later
      → greatest_from exceeds best (filter p later) ≡ best
  unfolding greatest_from
  greatest_after p best [] h = refl
  greatest_after p best (x ∷ later) (hx, h) = elim (Bool-cases (p x)) [
    | inl t ↦ rw (t, greatest_from, hx t) (greatest_after p best later h)
    | inr f ↦ rw f (greatest_after p best later h)
  ]

  greatest_through :
      (p : A → Bool) (first best : A) (earlier later : List A)
      → exceeds first best ≡ true
      → p best ≡ true
      → All (λ x. p x ≡ true → exceeds x best ≡ true) earlier
      → All (λ x. p x ≡ true → exceeds best x ≡ false) later
      → greatest_from exceeds first (filter p (earlier ++ best ∷ later)) ≡ best
  unfolding greatest_from
  greatest_through p first best [] later e pb h h' =
      rw (pb, greatest_from, e) (greatest_after p best later h')
  greatest_through p first best (x ∷ earlier) later e pb (hx, h) h' = elim (Bool-cases (p x)) [
    | inr f ↦ rw f (greatest_through p first best earlier later e pb h h')
    | inl t ↦ elim (Bool-cases (exceeds first x)) [
      | inl u ↦ rw (t, greatest_from, u) (greatest_through p x best earlier later (hx t) pb h h')
      | inr u ↦ rw (t, greatest_from, u) (greatest_through p first best earlier later e pb h h')
    ]
  ]

  greatest_at :
      (p : A → Bool) (best : A) (earlier later : List A)
      → p best ≡ true
      → All (λ x. p x ≡ true → exceeds x best ≡ true) earlier
      → All (λ x. p x ≡ true → exceeds best x ≡ false) later
      → greatest exceeds (filter p (earlier ++ best ∷ later)) ≡ some best
  unfolding greatest
  greatest_at p best [] later pb h h' = rw pb (ap some (greatest_after p best later h'))
  greatest_at p best (x ∷ earlier) later pb (hx, h) h' = elim (Bool-cases (p x)) [
    | inr f ↦ rw f (greatest_at p best earlier later pb h h')
    | inl t ↦ rw t (ap some (greatest_through p x best earlier later (hx t) pb h h'))
  ]

  pub greatest_of_IsBest :
      (p : A → Bool) (xs : List A) (best : A)
      → IsBest p xs best
      → greatest exceeds (filter p xs) ≡ some best
  greatest_of_IsBest p xs best b =
      ap (λ ys. greatest exceeds (filter p ys)) b.place
      ∙ greatest_at p best b.earlier b.later b.passes b.below b.no_better

  module _ (trans : (a b c : A) → exceeds a b ≡ true → exceeds b c ≡ true → exceeds a c ≡ true)
      (mixed : (a b c : A) → exceeds a b ≡ false → exceeds a c ≡ true → exceeds b c ≡ true) where
    -- The greatest is the row to begin with, or a later one above it.
    IsBest-greatest_from :
        (p : A → Bool) (first best : A) (xs : List A)
        → greatest_from exceeds first (filter p xs) ≡ best
        → ((first ≡ best) × All (λ x. p x ≡ true → exceeds best x ≡ false) xs)
          ⊎ ((exceeds first best ≡ true) × IsBest p xs best)
    unfolding greatest_from
    IsBest-greatest_from p first best [] e = inl (e, tt)
    IsBest-greatest_from p first best (x ∷ xs) e = elim (Bool-cases (p x)) [
      | inr f ↦ elim (IsBest-greatest_from p first best xs (rw f at e)) [
        | inl (same, h) ↦ inl (same, ((λ t. absurd (cc)), h))
        | inr (up, b) ↦ inr (
          up,
          record {
            earlier = x ∷ b.earlier;
            later = b.later;
            place = ap (λ ys. x ∷ ys) b.place;
            passes = b.passes;
            below = ((λ t. absurd (cc)), b.below);
            no_better = b.no_better;
          },
        )
      ]
      | inl t ↦ elim (Bool-cases (exceeds first x)) [
        | inl u ↦ elim (IsBest-greatest_from p x best xs (rw (t, greatest_from, u) at e)) [
          | inl (same, h) ↦ inr (
            subst (λ y. exceeds first y ≡ true) same u,
            record {
              earlier = [];
              later = xs;
              place = ap (λ y. y ∷ xs) same;
              passes = subst (λ y. p y ≡ true) same t;
              below = tt;
              no_better = h;
            },
          )
          | inr (up, b) ↦ inr (
            trans first x best u up,
            record {
              earlier = x ∷ b.earlier;
              later = b.later;
              place = ap (λ ys. x ∷ ys) b.place;
              passes = b.passes;
              below = ((λ _. up), b.below);
              no_better = b.no_better;
            },
          )
        ]
        | inr u ↦ elim (IsBest-greatest_from p first best xs (rw (t, greatest_from, u) at e)) [
          | inl (same, h) ↦ inl (same, ((λ _. subst (λ y. exceeds y x ≡ false) same u), h))
          | inr (up, b) ↦ inr (
            up,
            record {
              earlier = x ∷ b.earlier;
              later = b.later;
              place = ap (λ ys. x ∷ ys) b.place;
              passes = b.passes;
              below = ((λ _. mixed first x best u up), b.below);
              no_better = b.no_better;
            },
          )
        ]
      ]
    ]

    pub IsBest-greatest :
        (p : A → Bool) (xs : List A) (best : A)
        → greatest exceeds (filter p xs) ≡ some best
        → IsBest p xs best
    unfolding greatest
    IsBest-greatest p [] best e = absurd (cc)
    IsBest-greatest p (x ∷ xs) best e = elim (Bool-cases (p x)) [
      | inr f ↦
          let b = IsBest-greatest p xs best (rw f at e) in
          record {
            earlier = x ∷ b.earlier;
            later = b.later;
            place = ap (λ ys. x ∷ ys) b.place;
            passes = b.passes;
            below = ((λ t. absurd (cc)), b.below);
            no_better = b.no_better;
          }
      | inl t ↦ elim (IsBest-greatest_from p x best xs (some_injective (rw t at e))) [
        | inl (same, h) ↦ record {
          earlier = [];
          later = xs;
          place = ap (λ y. y ∷ xs) same;
          passes = subst (λ y. p y ≡ true) same t;
          below = tt;
          no_better = h;
        }
        | inr (up, b) ↦ record {
          earlier = x ∷ b.earlier;
          later = b.later;
          place = ap (λ ys. x ∷ ys) b.place;
          passes = b.passes;
          below = ((λ _. up), b.below);
          no_better = b.no_better;
        }
      ]
    ]
