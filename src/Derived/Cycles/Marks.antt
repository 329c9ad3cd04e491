-- ===== src/Derived/Cycles/Marks.antt =====
-- The marks of a depth-first search, and the factors that have none.
use fin_data_platform.Prelude.{
  All, ℕ, suc, ◌+◌, ◌≤◌, ◌≡◌, ◌⊎◌, inl, inr, refl, ap, subst, true, false, not, Option, none, some,
  List, [], ◌∷◌, length, count, filter, pair_eq, string_eq, arith, Bool-cases,
}
use fin_data_platform.Dict.{Dict, get, put, has, keys}
use fin_data_platform.Dict.Laws.{get-put}
use fin_data_platform.Derived.Graph.{FactorId, Nodes}
use fin_data_platform.Derived.Graph.Rounds.{factor_eq}
use fin_data_platform.Derived.Cycles.{Mark, entered, finished, Tour}

pub Mark-cases : (o : Option Mark) → (o ≡ none) ⊎ (o ≡ some entered) ⊎ (o ≡ some finished)
Mark-cases none = inl refl
Mark-cases (some entered) = inr (inl refl)
Mark-cases (some finished) = inr (inr refl)

-- The factors of a list that have no mark
abbrev pub fresh : List FactorId → Tour → ℕ
fresh ks t = length (filter (λ k. not (has k t.state)) ks)

-- What a visit adds is never taken back.
pub record Grows (t t' : Tour) : Type 0 where
  pub found : length t.found ≤ length t'.found
  pub kept : (x : FactorId) → get x t.state ≡ some finished → get x t'.state ≡ some finished
  pub marked : (x : FactorId) → has x t.state ≡ true → has x t'.state ≡ true
  pub open_before : (x : FactorId) → get x t'.state ≡ some entered → get x t.state ≡ some entered

pub Grows-refl : (t : Tour) → Grows t t
Grows-refl t = record {
  found = omega arith;
  kept = λ x h. h;
  marked = λ x h. h;
  open_before = λ x h. h;
}

pub Grows-trans : (r s t : Tour) → Grows r s → Grows s t → Grows r t
Grows-trans r s t g h = record {
  found = omega (arith, g.found, h.found);
  kept = λ x f. h.kept x (g.kept x f);
  marked = λ x f. h.marked x (g.marked x f);
  open_before = λ x f. g.open_before x (h.open_before x f);
}

pub fresh-Grows : (ks : List FactorId) (t t' : Tour) → Grows t t' → fresh ks t' ≤ fresh ks t
fresh-Grows [] t t' g = omega arith
fresh-Grows (k ∷ ks) t t' g = elim (Bool-cases (has k t.state)) [
  | inl m ↦ rw (m, g.marked k m) (fresh-Grows ks t t' g)
  | inr f ↦ ground (arith, fresh-Grows ks t t' g)
]

pub fresh-put :
    (node : FactorId) (mark : Mark) (ks : List FactorId) (t : Tour)
    → has node t.state ≡ false
    → fresh ks (record t { state = put node mark t.state }) + count node ks ≡ fresh ks t
fresh-put node mark [] t h = refl
fresh-put node mark (k ∷ ks) t h = elim (Bool-cases (factor_eq.beq node k)) [
  | inl same ↦
      let e = (factor_eq.beq_iff node k).0 same in
      let here : has k (put node mark t.state) ≡ true =
        ground (arith, get-put node k mark t.state) in
      let new : has k t.state ≡ false = subst (λ y. has y t.state ≡ false) e h in
      rw (here, new, same) (omega (arith, fresh-put node mark ks t h))
  | inr other ↦
      let here : has k (put node mark t.state) ≡ has k t.state =
        ground (arith, get-put node k mark t.state) in
      rw (here, other) (ground (arith, fresh-put node mark ks t h))
]

pub fresh-le : (ks : List FactorId) (t : Tour) → fresh ks t ≤ length ks
fresh-le [] t = omega arith
fresh-le (k ∷ ks) t = ground (arith, fresh-le ks t)

pub length-keys : {V : Type 0} (m : Dict FactorId V) → length (keys m) ≡ length m
length-keys [] = refl
length-keys ((k, v) ∷ m) = ap suc (length-keys m)

pub count-has : (x : FactorId) (m : Nodes) → has x m ≡ true → 1 ≤ count x (keys m)
unfolding get
count-has x [] h = absurd (ground arith)
count-has x ((k, n) ∷ m) h =
    ground (arith, count-has x m, factor_eq.beq_iff k x, factor_eq.beq_iff x k)

-- A fact about every key of a dict holds of its keys, and the other way round.
pub All-keys {ℓ} :
    {V : Type 0} (P : FactorId → Type ℓ) (m : Dict FactorId V)
    → ((x : FactorId) → has x m ≡ true → P x)
    → All P (keys m)
unfolding get
All-keys P [] h = tt
All-keys P ((k, n) ∷ m) h =
    (h k (ground (arith, factor_eq.beq_iff k k)), All-keys P m (λ x e. h x (ground arith)))

pub All-keys-has {ℓ} :
    {V : Type 0} (P : FactorId → Type ℓ) (x : FactorId) (m : Dict FactorId V)
    → All P (keys m)
    → has x m ≡ true
    → P x
unfolding get
All-keys-has P x [] h known = absurd (ground arith)
All-keys-has P x ((k, n) ∷ m) (pk, h) known = elim (Bool-cases (factor_eq.beq k x)) [
  | inl t ↦ subst P ((factor_eq.beq_iff k x).0 t) pk
  | inr f ↦ All-keys-has P x m h (ground arith)
]
