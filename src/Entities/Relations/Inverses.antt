-- ===== src/Entities/Relations/Inverses.antt =====
-- What a vocabulary without errors gives: a relation is seen from both of its ends.
use fin_data_platform.Prelude.{
  ℕ, ◌≡◌, refl, sym, ◌∙◌, ap, String, Bool, true, ◌&&◌, ◌||◌, Option, some, List, [], ◌∷◌, ◌++◌,
  arith, Bool-cases, Option-cases, inl, inr, Eq, nat_eq, string_eq, ◌==◌, filter, any, elem, map,
  sorted, any-sorted, leb, beq→eq,
}
use fin_data_platform.Dict.{Dict, get}
use fin_data_platform.Outcome.{ok, ok_injective}
use fin_data_platform.Runtime.Models.{Date}
use fin_data_platform.Entities.Models.{RelationRecord, RelationTypeRecord}
use fin_data_platform.Entities.Store.{EntityStore, relation_rows, find_relations_by_related}
use fin_data_platform.Entities.Relations.{
  Vocabulary, vocabulary_errors, distinct_ids, covers_relation, collected, related_ids,
}

elem-any {ℓ} : {A : Type ℓ} ⦃e : Eq A⦄ (a : A) (xs : List A) → elem a xs ≡ any (λ x. a == x) xs
elem-any a [] = refl
elem-any a (x ∷ xs) = ground (arith, elem-any a xs)

elem-distinct_ids : (a : ℕ) (xs : List ℕ) → elem a (distinct_ids xs) ≡ elem a xs
unfolding distinct_ids
elem-distinct_ids a [] = refl
elem-distinct_ids a (x ∷ xs) =
    ground (arith, elem-distinct_ids a xs, elem-distinct_ids x xs, nat_eq.beq_iff a x)

elem-append {ℓ} :
    {A : Type ℓ} ⦃e : Eq A⦄ (a : A) (xs ys : List A) → elem a (xs ++ ys) ≡ (elem a xs || elem a ys)
elem-append a [] ys = refl
elem-append a (x ∷ xs) ys = ground (arith, elem-append a xs ys)

-- Sorting and removal of duplicates keep what is there.
elem-sorted_ids : (a : ℕ) (xs : List ℕ) → elem a (sorted leb (distinct_ids xs)) ≡ elem a xs
elem-sorted_ids a xs =
    elem-any a (sorted leb (distinct_ids xs))
    ∙ any-sorted leb (λ x. a == x) (distinct_ids xs)
    ∙ sym (elem-any a (distinct_ids xs))
    ∙ elem-distinct_ids a xs

-- Membership among the images of selected rows is a search among the rows.
elem-selected {ℓ} :
    {A : Type ℓ} (f : A → ℕ) (p q : A → Bool) (a : ℕ) (xs : List A)
    → elem a (map f (filter p (filter q xs))) ≡ any (λ x. q x && (p x && a == f x)) xs
elem-selected f p q a [] = refl
elem-selected f p q a (x ∷ xs) = elim (Bool-cases (q x)) [
  | inr t ↦ rw t (elem-selected f p q a xs)
  | inl t ↦ elim (Bool-cases (p x)) [
    | inr u ↦ rw (t, u) (elem-selected f p q a xs)
    | inl u ↦ rw (t, u) (ap (λ b. a == f x || b) (elem-selected f p q a xs))
  ]
]

-- A row that says: `a` has the relation `word` to `b`
abbrev pub says : ℕ → String → ℕ → Option Date → RelationRecord → Bool
says a word b target row =
    row.entity_id == a
    && ((row.relation_type == word && covers_relation target row) && b == row.related_id)

says_back : ℕ → String → ℕ → Option Date → RelationRecord → Bool
says_back a word b target row =
    row.related_id == b
    && ((row.relation_type == word && covers_relation target row) && a == row.entity_id)

any_ext {ℓ} :
    {A : Type ℓ} (p q : A → Bool) (xs : List A) → ((x : A) → p x ≡ q x) → any p xs ≡ any q xs
any_ext p q [] h = refl
any_ext p q (x ∷ xs) h = rw (h x, any_ext p q xs h) refl

says_back-says :
    (a : ℕ) (word : String) (b : ℕ) (target : Option Date) (row : RelationRecord)
    → says_back a word b target row ≡ says a word b target row
unfolding says_back
says_back-says a word b target row =
    ground (arith, nat_eq.beq_iff a row.entity_id, nat_eq.beq_iff b row.related_id)

or_ext : {a b c d : Bool} → a ≡ b → c ≡ d → (a || c) ≡ (b || d)
or_ext h k = rw (h, k) refl

-- What `related_ids` collects: the rows that say it forwards, and those that say the inverse backwards.
elem-collected :
    (a b : ℕ) (word inverse : String) (target : Option Date) (s : EntityStore)
    → elem b (collected a word inverse target s)
      ≡ (any (says a word b target) s.relations || any (says b inverse a target) s.relations)
unfolding collected relation_rows find_relations_by_related says_back
elem-collected a b word inverse target s =
    elem-append b _ _
    ∙ or_ext (elem-selected (λ row. row.related_id) _ (λ item. item.entity_id == a) b s.relations) (
        elem-selected (λ row. row.entity_id) _ (λ item. item.related_id == a) b s.relations
        ∙ any_ext (says_back b inverse a target) _ s.relations (says_back-says b inverse a target))

-- In a vocabulary without errors the inverse of an entry is there and names the entry.
inverse-stored :
    (v rest : Dict String RelationTypeRecord) (name : String) (word : RelationTypeRecord)
    → vocabulary_errors v rest ≡ []
    → get name rest ≡ some word
    → (inverse : RelationTypeRecord) × (get word.inverse_relation v ≡ some inverse)
      × (inverse.inverse_relation ≡ name)
unfolding vocabulary_errors get
inverse-stored v [] name word e h = absurd (ground arith)
inverse-stored v ((n, w) ∷ rest) name word e h = elim (Option-cases (get w.inverse_relation v)) [
  | inl k ↦ cc (rw (k, vocabulary_errors) at e)
  | inr (inverse, k) ↦ elim (Bool-cases (inverse.inverse_relation == n)) [
    | inr t ↦ cc (rw (k, t, vocabulary_errors) at e)
    | inl t ↦ elim (Bool-cases (n == name)) [
      | inr u ↦ inverse-stored v rest name word (rw (k, t, vocabulary_errors) at e) (ground arith)
      | inl u ↦
          let same : w ≡ word = ground arith in
          (inverse, ap (λ x. get x.inverse_relation v) (sym same) ∙ k, beq→eq _ _ t ∙ beq→eq _ _ u)
    ]
  ]
]

module _ (vocabulary : Vocabulary) where
  related_ids-found :
      (a : ℕ) (word : String) (entry : RelationTypeRecord) (target : Option Date) (s : EntityStore)
      → get word vocabulary ≡ some entry
      → related_ids vocabulary a word target s
        ≡ ok (sorted leb (distinct_ids (collected a word entry.inverse_relation target s)))
  unfolding related_ids
  related_ids-found a word entry target s h = rw (h, related_ids) refl

  -- In a vocabulary without errors, for a word that it has: the entities that `related_ids` finds for
  -- the word and those that it finds for its inverse are two views of one relation. On any day (or on
  -- none), both calls return, and `b` is related to `a` by the word exactly if `a` is related to `b`
  -- by the inverse.
  pub related_ids-inverse :
      (a b : ℕ) (word : String) (entry : RelationTypeRecord) (target : Option Date)
      (s : EntityStore)
      → vocabulary_errors vocabulary vocabulary ≡ []
      → get word vocabulary ≡ some entry
      → (forth : List ℕ) × (back : List ℕ) × (related_ids vocabulary a word target s ≡ ok forth)
        × (related_ids vocabulary b entry.inverse_relation target s ≡ ok back)
        × (elem b forth ≡ elem a back)
  related_ids-inverse a b word entry target s e h =
      let (inverse, k, named) = inverse-stored vocabulary vocabulary word entry e h in
      (
        _,
        _,
        related_ids-found a word entry target s h,
        related_ids-found b entry.inverse_relation inverse target s k,
        elem-sorted_ids b _
            ∙ elem-collected a b word entry.inverse_relation target s
            ∙ or_comm (any (says a word b target) s.relations) _
            ∙ ap
                (λ w.
                  any (says b entry.inverse_relation a target) s.relations
                  || any (says a w b target) s.relations)
                (sym named)
            ∙ sym (elem-collected b a entry.inverse_relation inverse.inverse_relation target s)
            ∙ sym (elem-sorted_ids a _),
      )
    where
      or_comm : (x y : Bool) → (x || y) ≡ (y || x)
      or_comm x y = ground arith

  -- A row that says the relation is found.
  pub elem-found :
      (a b : ℕ) (word : String) (entry : RelationTypeRecord) (target : Option Date)
      (s : EntityStore) (ids : List ℕ)
      → get word vocabulary ≡ some entry
      → related_ids vocabulary a word target s ≡ ok ids
      → any (says a word b target) s.relations ≡ true
      → elem b ids ≡ true
  elem-found a b word entry target s ids h r t =
      let same : sorted leb (distinct_ids (collected a word entry.inverse_relation target s))
          ≡ ids =
        ok_injective (sym (related_ids-found a word entry target s h) ∙ r) in
      rw (← same, elem-sorted_ids b, elem-collected a b word entry.inverse_relation target s, t)
        refl
