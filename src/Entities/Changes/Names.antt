-- ===== src/Entities/Changes/Names.antt =====
-- What a name change does to the name of an entity on a day.
use fin_data_platform.Prelude.{
  ℕ, ◌-◌, ◌≡◌, ◌≤◌, ◌<◌, ◌⊎◌, refl, sym, ◌∙◌, ap, subst, String, true, false, Option, none, some,
  List, [], ◌∷◌, arith, Bool-cases, Option-cases, inl, inr, nat_eq, All, All-map, All-filter,
  greatest_most, All-greatest, some_injective,
}
use fin_data_platform.Outcome.{ok, Outcome-cases}
use fin_data_platform.Runtime.Models.{DateTime, Date}
use fin_data_platform.Entities.Models.{EntityRecord, covers}
use fin_data_platform.Entities.Store.{EntityStore, entity_rows}
use fin_data_platform.Entities.Rows.{
  is_newer, covers_row, covering_row, current_row, next_version, close_row, name_as_of,
}
use fin_data_platform.Entities.Changes.{resume_name_of, close_covering, goes_past, add_name_change}
use fin_data_platform.Entities.Valid.{IsValid}
use fin_data_platform.Entities.Valid.Changes.{Later-close_covering}
use fin_data_platform.Entities.Valid.Current.{current_row-Found, covering_row-Found}
use fin_data_platform.Entities.Changes.Covering.{
  start_of, covering-last, Until, IsWithin, IsPast, Until-append_entity, selected-Until, name_of,
  name_as_of-covering, renamed-during, renamed-before, renamed-after,
}

-- What covers a day still does when it is closed on it.
covers_to :
    (from to : Option Date) (day : Date)
    → covers from to (some day) ≡ true
    → covers from (some day) (some day) ≡ true
unfolding covers
covers_to none none day t = absurd (ground arith)
covers_to none (some to) day t = absurd (ground arith)
covers_to (some from) none day t = ground arith
covers_to (some from) (some to) day t = ground arith

-- The closing of the covering row
module _ (i : ℕ) (before : Date) (clock : DateTime) (s : EntityStore) (v : IsValid s) where
  closed-Until :
      (start : Date) (previous : Option EntityRecord)
      → covering_row i before s ≡ previous
      → Until start i s
      → Until start i (close_covering previous before clock s)
  unfolding close_row covering_row
  closed-Until start none h u = u
  closed-Until start (some row) h u = elim (Bool-cases (goes_past before row)) [
    | inr t ↦ rw t u
    | inl t ↦ rw t (
        Until-append_entity start i _ s (covering_row-Found s i before row v h).same
          (All-greatest is_newer (λ x. start_of x ≤ start) _ row h
            (selected-Until start i before s u))
          u)
  ]

  closed-name :
      (row : EntityRecord)
      → covering_row i before s ≡ some row
      → name_as_of i (some before) (close_covering (some row) before clock s) ≡ some row.name
  unfolding close_row covering_row name_of covers
  closed-name row h = elim (Bool-cases (goes_past before row)) [
    | inr t ↦ rw t (name_as_of-covering i before s ∙ ap name_of h)
    | inl t ↦ rw t (
        name_as_of-covering i before _
        ∙ ap name_of (
            covering-last i before _ s (covering_row-Found s i before row v h).same
              (covers_to row.valid_from row.valid_to before covered)
              (ap (λ j. next_version j s) (covering_row-Found s i before row v h).same)
              (All-map _ _ (λ x p. ground arith) _
                (greatest_most is_newer is_newer_trans is_newer_asym _ row h))))
  ]
    where
      all_unit : (rows : List EntityRecord) → All (λ x. Unit {0}) rows
      all_unit [] = tt
      all_unit (x ∷ xs) = (tt, all_unit xs)

      covered : covers_row before row ≡ true
      covered =
          All-greatest is_newer (λ x. covers_row before x ≡ true) _ row h
            (All-map _ _ (λ x (_, t). t) _
              (All-filter (λ x. Unit {0}) (covers_row before) (entity_rows i s)
                (all_unit (entity_rows i s))))

      is_newer_trans :
          (a b c : EntityRecord)
          → is_newer a b ≡ false
          → is_newer b c ≡ false
          → is_newer a c ≡ false
      is_newer_trans a b c p q = ground arith

      is_newer_asym : (a b : EntityRecord) → is_newer a b ≡ true → is_newer b a ≡ false
      is_newer_asym a b p = ground arith

-- On a valid store, for an entity none of whose rows starts after the change: after `add_name_change`
-- returned, the entity has the new name on every day from the start on that is not past the end, if
-- there is one.
pub name_as_of-add_name_change :
    (i : ℕ) (name : String) (start : Date) (end : Option Date) (ann_date : Option String)
    (clock : DateTime) (s : EntityStore) (day : Date)
    → IsValid s
    → Until start i s
    → (add_name_change i name (some start) end ann_date clock s).0 ≡ ok tt
    → start ≤ day
    → IsWithin day end
    → name_as_of i (some day) (add_name_change i name (some start) end ann_date clock s).1
      ≡ some name
unfolding add_name_change
name_as_of-add_name_change i name start end ann_date clock s day v u h le w =
    elim (Outcome-cases (resume_name_of (covering_row i (start - 1) s) i s)) [
      | inr (x, k) ↦ cc (rw (k, add_name_change) at h)
      | inl (resume, k) ↦
          let later =
            Later-close_covering i (covering_row i (start - 1) s) (start - 1) clock s v refl in
          elim (Outcome-cases
            (current_row i (close_covering (covering_row i (start - 1) s) (start - 1) clock s))) [
              | inr (x, l) ↦ cc (rw (k, l, add_name_change) at h)
              | inl (current, l) ↦
                  rw (k, l, add_name_change)
                    (renamed-during i current name resume start ann_date clock _
                      (current_row-Found _ i current later.valid l).same end day
                      (closed-Until i (start - 1) clock s v start _ refl u) le w)
            ]
    ]

-- On a valid store, for an entity none of whose rows starts after the change, that has a name on the
-- day before it: after `add_name_change`, with an end not before its start if it has one, returned, the
-- entity has the old name on the day before the start and on every day past the end.
pub name_as_of-add_name_change_old :
    (i : ℕ) (name : String) (start : Date) (end : Option Date) (ann_date : Option String)
    (clock : DateTime) (s : EntityStore) (day : Date) (old : String)
    → IsValid s
    → Until start i s
    → 0 < start
    → IsWithin start end
    → name_as_of i (some (start - 1)) s ≡ some old
    → (add_name_change i name (some start) end ann_date clock s).0 ≡ ok tt
    → (day ≡ start - 1) ⊎ IsPast day end
    → name_as_of i (some day) (add_name_change i name (some start) end ann_date clock s).1
      ≡ some old
unfolding add_name_change resume_name_of name_of
name_as_of-add_name_change_old i name start end ann_date clock s day old v u pos w n h which =
    elim (Option-cases (covering_row i (start - 1) s)) [
      | inl e ↦ cc (sym (name_as_of-covering i (start - 1) s) ∙ n, ap name_of e)
      | inr (row, e) ↦
          let named : row.name ≡ old =
            some_injective (sym (name_as_of-covering i (start - 1) s ∙ ap name_of e) ∙ n) in
          let k : resume_name_of (covering_row i (start - 1) s) i s ≡ ok row.name =
            rw (e, resume_name_of) refl in
          let later =
            Later-close_covering i (covering_row i (start - 1) s) (start - 1) clock s v refl in
          elim (Outcome-cases
            (current_row i (close_covering (covering_row i (start - 1) s) (start - 1) clock s))) [
              | inr (x, l) ↦ cc (rw (k, l, add_name_change) at h)
              | inl (current, l) ↦
                  let same = (current_row-Found _ i current later.valid l).same in
                  rw (k, l, add_name_change)
                    (elim which [
                      | inl d ↦ rw d (
                          renamed-before i current name row.name start ann_date clock _ same end
                            (start - 1) (omega arith) w
                          ∙ subst
                              (λ p.
                                name_as_of i (some (start - 1))
                                  (close_covering p (start - 1) clock s)
                                ≡ some row.name)
                              (sym e) (closed-name i (start - 1) clock s v row e)
                          ∙ ap some named)
                      | inr past ↦
                          renamed-after i current name row.name start ann_date clock _ same end day
                            (closed-Until i (start - 1) clock s v start _ refl u) w past
                          ∙ ap some named
                    ])
            ]
    ]
