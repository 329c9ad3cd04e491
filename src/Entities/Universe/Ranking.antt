-- ===== src/Entities/Universe/Ranking.antt =====
-- Which row of an entity the ranking keeps.
use fin_data_platform.Prelude.{
  ℕ, ◌≡◌, refl, sym, ◌∙◌, ap, Bool, ◌&&◌, Option, none, some, List, [], ◌∷◌, filter, greatest,
  greatest_from, ◌==◌, nat_eq, inl, inr, Bool-cases, Option-cases, arith, if◌then◌else◌, beq→eq,
}
use fin_data_platform.Dict.{get}
use fin_data_platform.Dict.Laws.{get-put}
use fin_data_platform.Runtime.Models.{DateTime, Date}
use fin_data_platform.Entities.Universe.{
  LifecycleRecord, is_counted, is_outranked, Ranked, rank_row, rank_rows,
}

-- A row that is known at the limit, covers the day and is of the entity
abbrev pub counts_for : Option DateTime → Date → ℕ → LifecycleRecord → Bool
counts_for limit target i row = is_counted limit target row && row.entity_id == i

-- The greatest of a row that may be there and a list
unfoldable pub greatest_with :
    Option LifecycleRecord → List LifecycleRecord → Option LifecycleRecord
greatest_with none rows = greatest is_outranked rows
greatest_with (some best) rows = some (greatest_from is_outranked best rows)

module _ (limit : Option DateTime) (target : Date) (i : ℕ) where
  get-rank_row :
      (row : LifecycleRecord) (ranked : Ranked)
      → get i (rank_row limit target row ranked) ≡ (
          if counts_for limit target i row
          then (elim (get i ranked) [
            | none ↦ some row
            | some best ↦ some (if is_outranked best row then row else best)
          ])
          else get i ranked)
  unfolding rank_row
  get-rank_row row ranked = elim (Bool-cases (is_counted limit target row)) [
    | inr t ↦ rw (t, rank_row) refl
    | inl t ↦ elim (Bool-cases (row.entity_id == i)) [
      | inl u ↦
          let same : row.entity_id ≡ i = beq→eq row.entity_id i u in
          elim (Option-cases (get row.entity_id ranked)) [
            | inl h ↦ rw (t, h, rank_row) (ground (arith, get-put row.entity_id i row ranked))
            | inr (best, h) ↦ elim (Bool-cases (is_outranked best row)) [
              | inl w ↦
                  rw (t, h, rank_row) (rw w (ground (arith, get-put row.entity_id i row ranked)))
              | inr w ↦
                  rw (t, h, rank_row) (rw w (rw (u, ap (λ j. get j ranked) (sym same) ∙ h, w) refl))
            ]
          ]
      | inr u ↦ elim (Option-cases (get row.entity_id ranked)) [
        | inl h ↦ rw (t, h, rank_row) (ground (arith, get-put row.entity_id i row ranked))
        | inr (best, h) ↦ elim (Bool-cases (is_outranked best row)) [
          | inl w ↦ rw (t, h, rank_row) (rw w (ground (arith, get-put row.entity_id i row ranked)))
          | inr w ↦ rw (t, h, rank_row) (rw w (rw u refl))
        ]
      ]
    ]
  ]

  pub get-rank_rows :
      (rows : List LifecycleRecord) (ranked : Ranked)
      → get i (rank_rows limit target rows ranked)
        ≡ greatest_with (get i ranked) (filter (counts_for limit target i) rows)
  unfolding rank_rows greatest_with greatest greatest_from
  get-rank_rows [] ranked = elim (Option-cases (get i ranked)) [
    | inl h ↦ rw h refl
    | inr (best, h) ↦ rw h refl
  ]
  get-rank_rows (row ∷ rows) ranked =
      get-rank_rows rows (rank_row limit target row ranked)
      ∙ ap (λ o. greatest_with o (filter (counts_for limit target i) rows))
          (get-rank_row row ranked)
      ∙ (elim (Bool-cases (counts_for limit target i row)) [
        | inr t ↦ rw t refl
        | inl t ↦ elim (Option-cases (get i ranked)) [
          | inl h ↦ rw (t, h) refl
          | inr (best, h) ↦ rw (t, h) refl
        ]
      ])
