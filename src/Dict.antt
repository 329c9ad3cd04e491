-- ===== src/Dict.antt =====
-- Python's dict as an association list in insertion order: assignment to a present key keeps its
-- place, a new key goes to the end. `OrderedDict` adds `move_to_end` and `popitem(last=False)`.
pub mod Laws
pub mod Totals
pub mod Entries
use fin_data_platform.Prelude.{
  ◌≡◌, Bool, true, false, Option, none, some, List, [], ◌∷◌, ◌++◌, Eq, if◌then◌else◌,
}

abbrev pub Dict {ℓ κ} : Type ℓ → Type κ → Type (ℓ ⊔ κ)
Dict K V = List (K × V)

abbrev pub values {ℓ κ} : {K : Type ℓ} {V : Type κ} → Dict K V → List V
values [] = []
values ((k, v) ∷ m) = v ∷ values m

abbrev pub keys {ℓ κ} : {K : Type ℓ} {V : Type κ} → Dict K V → List K
keys [] = []
keys ((k, v) ∷ m) = k ∷ keys m

module _ {ℓ κ} {K : Type ℓ} {V : Type κ} ⦃e : Eq K⦄ where
  unfoldable pub get : K → Dict K V → Option V
  get k [] = none
  get k ((j, v) ∷ m) = if e.beq j k then some v else get k m

  abbrev pub has : K → Dict K V → Bool
  has k m = elim (get k m) [ none ↦ false | some _ ↦ true ]

  -- `m[k] = v`
  unfoldable pub put : K → V → Dict K V → Dict K V
  put k v [] = (k, v) ∷ []
  put k v ((j, w) ∷ m) = let rest = put k v m in if e.beq j k then (j, v) ∷ m else (j, w) ∷ rest

  -- `m.pop(k, None)`
  unfoldable pub remove : K → Dict K V → Dict K V
  remove k [] = []
  remove k ((j, w) ∷ m) = let rest = remove k m in if e.beq j k then rest else (j, w) ∷ rest

  -- `m.move_to_end(k)` at a present key
  unfoldable pub move_to_end : K → Dict K V → Dict K V
  unfolding get remove
  move_to_end k m = elim (get k m) [ none ↦ m | some v ↦ remove k m ++ (k, v) ∷ [] ]

  -- No key stands twice.
  abbrev pub IsDistinct : Dict K V → Type κ
  IsDistinct [] = Unit
  IsDistinct ((k, v) ∷ m) = (get k m ≡ none) × IsDistinct m
