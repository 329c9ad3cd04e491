-- ===== src/Entities/Batch/Lookup.antt =====
-- What `entity_many` answers for one entity.
use fin_data_platform.Prelude.{
  nat_beq, beq→eq, ℕ, ◌≡◌, refl, ◌∙◌, ap, ◌||◌, true, Option, none, some, List, [], ◌∷◌, elem,
  nat_eq, arith, Bool-cases, Option-cases, inl, inr, if◌then◌else◌,
}
use fin_data_platform.Dict.{Dict, get, put, keys}
use fin_data_platform.Dict.Laws.{get-put}
use fin_data_platform.Dict.Entries.{elem-keys-put}
use fin_data_platform.Runtime.Models.{Date}
use fin_data_platform.Entities.Models.{EntityRecord}
use fin_data_platform.Entities.Store.{EntityStore}
use fin_data_platform.Entities.Rows.{entity}
use fin_data_platform.Entities.Batch.{from_keys, collect_entities, entity_many}

elem-from_keys :
    (i : ℕ) (ids : List ℕ) (m : Dict ℕ (Unit {0}))
    → elem i (keys (from_keys ids m)) ≡ (elem i ids || elem i (keys m))
unfolding from_keys
elem-from_keys i [] m = refl
elem-from_keys i (j ∷ ids) m =
    ground (arith, elem-from_keys i ids (put j tt m), elem-keys-put j i tt m)

-- The lookup of an entity in what the loop has collected
get-collect_entities :
    (i : ℕ) (ids : List ℕ) (day : Option Date) (s : EntityStore) (found : Dict ℕ EntityRecord)
    → get i (collect_entities ids day s found) ≡ (
        if elem i ids
        then (elim (entity i day s) [ none ↦ get i found | some item ↦ some item ])
        else get i found)
unfolding collect_entities
get-collect_entities i [] day s found = refl
get-collect_entities i (j ∷ ids) day s found = elim (Option-cases (entity j day s)) [
  | inl h ↦ rw h (
      get-collect_entities i ids day s found ∙ (elim (Bool-cases (nat_beq i j)) [
        | inr t ↦ rw t refl
        | inl t ↦
            let gone : entity i day s ≡ none = ap (λ k. entity k day s) (beq→eq i j t) ∙ h in
            rw (t, gone) (ground arith)
      ]))
  | inr (item, h) ↦ rw h (
      get-collect_entities i ids day s (put j item found) ∙ (elim (Bool-cases (nat_beq i j)) [
        | inr t ↦ ground (arith, get-put j i item found)
        | inl t ↦
            let there : entity i day s ≡ some item = ap (λ k. entity k day s) (beq→eq i j t) ∙ h in
            rw (t, there) (ground (arith, get-put j i item found))
      ]))
]

-- For an entity that is asked for, `entity_many` has what `entity` answers.
pub get-entity_many :
    (i : ℕ) (ids : List ℕ) (day : Option Date) (s : EntityStore)
    → elem i ids ≡ true
    → get i (entity_many ids day s) ≡ entity i day s
unfolding entity_many get
get-entity_many i ids day s h =
    let asked : elem i (keys (from_keys ids [])) ≡ true = ground (arith, elem-from_keys i ids []) in
    get-collect_entities i (keys (from_keys ids [])) day s []
    ∙ rw asked
        (elim (Option-cases (entity i day s)) [ inl e ↦ rw e refl | inr (item, e) ↦ rw e refl ])
