-- ===== src/Prelude/Lists.antt =====
-- Lists measured by native numbers, Boolean search over lists, and predicates by recursion.
use Prim.Native.Nat.{ℕ, zero, suc, ◌+◌, ◌<◌}
use mathlib.Core.Path.{◌≡◌, refl, subst}
use mathlib.Core.Logic.{◌⊎◌, inl, inr}
use mathlib.Core.Bool.{Bool, true, false, ◌&&◌, ◌||◌}
use mathlib.Core.Option.{Option, none, some}
use mathlib.Core.List.{List, [], ◌∷◌, ◌++◌}
use native.Mathlib.Omega.{arith}
use fin_data_platform.Prelude.Tests.{if◌then◌else◌, Bool-cases, nat_beq}
use fin_data_platform.Prelude.Equality.{Eq}

module _ {ℓ} {A : Type ℓ} where
  abbrev pub length : List A → ℕ
  length [] = 0
  length (x ∷ xs) = suc (length xs)

  abbrev pub take : ℕ → List A → List A
  take zero xs = []
  take (suc n) [] = []
  take (suc n) (x ∷ xs) = x ∷ take n xs

  -- A comprehension's `if`: the elements that pass the test, in order.
  abbrev pub filter : (A → Bool) → List A → List A
  filter p [] = []
  filter p (x ∷ xs) = let rest = filter p xs in if p x then x ∷ rest else rest

  abbrev pub any : (A → Bool) → List A → Bool
  any p [] = false
  any p (x ∷ xs) = p x || any p xs

  abbrev pub all : (A → Bool) → List A → Bool
  all p [] = true
  all p (x ∷ xs) = p x && all p xs

  abbrev pub head? : List A → Option A
  head? [] = none
  head? (x ∷ xs) = some x

  pub List-cases : (xs : List A) → (xs ≡ []) ⊎ ((x : A) × (rest : List A) × (xs ≡ x ∷ rest))
  List-cases [] = inl refl
  List-cases (x ∷ rest) = inr (x, rest, refl)

  pub length-append : (xs ys : List A) → length (xs ++ ys) ≡ length xs + length ys
  length-append [] ys = omega arith
  length-append (x ∷ xs) ys = omega (arith, length-append xs ys)

-- A predicate by recursion computes to tuples, which the tactics read and build.
abbrev pub All {ℓ κ} : {A : Type ℓ} → (A → Type κ) → List A → Type κ
All P [] = Unit
All P (x ∷ xs) = P x × All P xs

-- One of the elements has the property.
abbrev pub Any {ℓ} : {A : Type ℓ} → (A → Type 0) → List A → Type 0
Any P [] = ⊥
Any P (x ∷ xs) = P x ⊎ Any P xs

-- Membership by a Boolean search.
abbrev pub elem {ℓ} : {A : Type ℓ} ⦃e : Eq A⦄ → A → List A → Bool
elem ⦃e⦄ a [] = false
elem ⦃e⦄ a (x ∷ xs) = e.beq a x || elem a xs

module _ {ℓ κ} {A : Type ℓ} (P : A → Type κ) where
  pub All-filter :
      (p : A → Bool) (xs : List A) → All P xs → All (λ x. P x × (p x ≡ true)) (filter p xs)
  All-filter p [] h = tt
  All-filter p (x ∷ xs) (px, h) = elim (Bool-cases (p x)) [
    | inl t ↦ rw t ((px, t), All-filter p xs h)
    | inr f ↦ rw f (All-filter p xs h)
  ]

  pub All-map {μ} : (Q : A → Type μ) → ((x : A) → P x → Q x) → (xs : List A) → All P xs → All Q xs
  All-map Q f [] h = tt
  All-map Q f (x ∷ xs) (px, h) = (f x px, All-map Q f xs h)

  pub All-head : (xs : List A) (x : A) → head? xs ≡ some x → All P xs → P x
  All-head [] x e h = absurd (ground arith)
  All-head (y ∷ ys) x e (py, h) = let e' : y ≡ x = ground arith in subst P e' py

module _ {ℓ} {A : Type ℓ} where
  pub any_head : (p : A → Bool) (xs : List A) → head? xs ≡ none → any p xs ≡ false
  any_head p [] h = refl
  any_head p (x ∷ xs) h = absurd (ground arith)

  -- What a search does not find fails the test everywhere.
  pub All-of_any : (p : A → Bool) (xs : List A) → any p xs ≡ false → All (λ x. p x ≡ false) xs
  All-of_any p [] h = tt
  All-of_any p (x ∷ xs) h = (ground arith, All-of_any p xs (ground arith))

  pub any-append : (p : A → Bool) (xs ys : List A) → any p (xs ++ ys) ≡ (any p xs || any p ys)
  any-append p [] ys = refl
  any-append p (x ∷ xs) ys = ground (arith, any-append p xs ys)

  pub filter-append_one :
      (p : A → Bool) (xs : List A) (x : A)
      → filter p (xs ++ x ∷ []) ≡ (if p x then filter p xs ++ x ∷ [] else filter p xs)
  filter-append_one p [] x = refl
  filter-append_one p (y ∷ ys) x = ground (arith, filter-append_one p ys x)

  -- An element that two filters leave passes any test that they imply together.
  pub any_of_head :
      (p q r : A → Bool) (xs : List A) (x : A)
      → head? (filter p (filter q xs)) ≡ some x
      → ((y : A) → p y ≡ true → q y ≡ true → r y ≡ true)
      → any r xs ≡ true
  any_of_head p q r [] x e h = absurd (ground arith)
  any_of_head p q r (y ∷ ys) x e h = elim (Bool-cases (q y)) [
    | inr t ↦ rw (any_of_head p q r ys x (rw t at e) h) (ground arith)
    | inl t ↦ elim (Bool-cases (p y)) [
      | inl u ↦ rw (h y u t) refl
      | inr u ↦ rw (any_of_head p q r ys x (rw (t, u) at e) h) (ground arith)
    ]
  ]

-- How often an element stands in a list.
abbrev pub count {ℓ} : {A : Type ℓ} ⦃e : Eq A⦄ → A → List A → ℕ
count ⦃e⦄ a xs = length (filter (e.beq a) xs)

module _ {ℓ} {A : Type ℓ} where
  pub length-filter-append :
      (p : A → Bool) (xs ys : List A)
      → length (filter p (xs ++ ys)) ≡ length (filter p xs) + length (filter p ys)
  length-filter-append p [] ys = omega arith
  length-filter-append p (x ∷ xs) ys = ground (arith, length-filter-append p xs ys)

  pub elem-append :
      ⦃e : Eq A⦄ → (a : A) (xs ys : List A) → elem a (xs ++ ys) ≡ (elem a xs || elem a ys)
  elem-append a [] ys = refl
  elem-append a (x ∷ xs) ys = ground (arith, elem-append a xs ys)

  pub elem-count :
      ⦃e : Eq A⦄
      → (a : A) (xs : List A) → elem a xs ≡ (if nat_beq (count a xs) 0 then false else true)
  elem-count a [] = refl
  elem-count ⦃e⦄ a (x ∷ xs) = ground (arith, elem-count a xs)

  -- A search that counts something finds it.
  pub elem_of_length-filter :
      ⦃e : Eq A⦄
      → (p : A → Bool) (xs : List A) → 0 < length (filter p xs)
      → (a : A) × (elem a xs ≡ true) × (p a ≡ true)
  elem_of_length-filter p [] h = elim h [ ]
  elem_of_length-filter ⦃e⦄ p (x ∷ xs) h = elim (Bool-cases (p x)) [
    | inl t ↦ (x, rw ((e.beq_iff x x).1 refl) refl, t)
    | inr f ↦
        let (a, there, t) = elem_of_length-filter p xs (ground arith) in (a, ground (arith), t)
  ]
