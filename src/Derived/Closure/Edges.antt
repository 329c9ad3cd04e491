-- ===== src/Derived/Closure/Edges.antt =====
-- The stack of `upstream_closure`, and the inputs that are still to be pushed.
use mathlib.Core.List.{reverse, reverse_aux}
use fin_data_platform.Prelude.{
  ◌+◌, ◌≤◌, ◌≡◌, inl, inr, refl, sym, subst, Bool, false, ◌||◌, List, [], ◌∷◌, ◌++◌, length, elem,
  sorted, pair_eq, string_eq, arith, elem-append, elem-count, length-filter-sorted, Bool-cases,
}
use fin_data_platform.Dict.{get}
use fin_data_platform.Derived.Graph.{FactorId, Nodes, inputs_of}
use fin_data_platform.Derived.Graph.Rounds.{factor_eq}
use fin_data_platform.Derived.Closure.{edges}

pub elem-reverse_aux :
    (x : FactorId) (xs ys : List FactorId) → elem x (reverse_aux xs ys) ≡ (elem x xs || elem x ys)
elem-reverse_aux x [] ys = refl
elem-reverse_aux x (y ∷ xs) ys = ground (arith, elem-reverse_aux x xs (y ∷ ys))

pub length-reverse_aux :
    (xs ys : List FactorId) → length (reverse_aux xs ys) ≡ length xs + length ys
length-reverse_aux [] ys = omega arith
length-reverse_aux (y ∷ xs) ys = omega (arith, length-reverse_aux xs (y ∷ ys))

pub elem-pushed :
    (x : FactorId) (xs ys : List FactorId) → elem x (reverse xs ++ ys) ≡ (elem x xs || elem x ys)
elem-pushed x xs ys = ground (arith, elem-append x (reverse xs) ys, elem-reverse_aux x xs [])

pub elem-sorted :
    (le : FactorId → FactorId → Bool) (x : FactorId) (xs : List FactorId)
    → elem x (sorted le xs) ≡ elem x xs
elem-sorted le x xs = ground (
  arith,
  elem-count x (sorted le xs),
  elem-count x xs,
  length-filter-sorted le (factor_eq.beq x) xs,
)

edges-le : (c : FactorId) (seen : List FactorId) (m : Nodes) → edges (c ∷ seen) m ≤ edges seen m
edges-le c seen [] = omega arith
edges-le c seen ((k, n) ∷ m) = ground (arith, edges-le c seen m)

pub edges-cons :
    (c : FactorId) (seen : List FactorId) (m : Nodes)
    → elem c seen ≡ false
    → edges (c ∷ seen) m + length (inputs_of c m) ≤ edges seen m
unfolding get
edges-cons c seen [] new = omega arith
edges-cons c seen ((k, n) ∷ m) new = elim (Bool-cases (factor_eq.beq k c)) [
  | inl t ↦
      let e = (factor_eq.beq_iff k c).0 t in
      let new' : elem k seen ≡ false = subst (λ y. elem y seen ≡ false) (sym e) new in
      ground (arith, edges-le c seen m)
  | inr f ↦ ground (arith, edges-cons c seen m new)
]
