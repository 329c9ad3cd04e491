-- ===== src/Entities/Universe/Deciding.antt =====
-- The row of an entity that decides whether it is in the universe, and the ranking that finds it.
use fin_data_platform.Prelude.{
  ℕ, ◌≡◌, ◌↔◌, Option, some, List, [], ◌∷◌, ◌++◌, filter, greatest, nat_eq, inl, inr, Bool-cases,
  Option-cases, All, All-map,
}
use fin_data_platform.Dict.{get, IsDistinct}
use fin_data_platform.Dict.Laws.{put-IsDistinct}
use fin_data_platform.Runtime.Models.{DateTime, Date}
use fin_data_platform.Entities.Universe.{
  LifecycleRecord, is_counted, is_outranked, Ranked, rank_row, rank_rows,
}
use fin_data_platform.Entities.Universe.Ranking.{counts_for}
use fin_data_platform.Entities.Universe.Best.{greatest_of_IsBest, IsBest-greatest}
use fin_data_platform.Entities.Universe.Rules.{
  Speaks, RanksBelow, counts_for_iff, outranked_iff, outranked_trans, outranked_mixed,
}

rank_row-IsDistinct :
    (limit : Option DateTime) (target : Date) (row : LifecycleRecord) (ranked : Ranked)
    → IsDistinct ranked
    → IsDistinct (rank_row limit target row ranked)
unfolding rank_row
rank_row-IsDistinct limit target row ranked d = elim (Bool-cases (is_counted limit target row)) [
  | inr t ↦ rw (t, rank_row) d
  | inl t ↦ elim (Option-cases (get row.entity_id ranked)) [
    | inl h ↦ rw (t, h, rank_row) (put-IsDistinct row.entity_id row ranked d)
    | inr (best, h) ↦ elim (Bool-cases (is_outranked best row)) [
      | inl w ↦ rw (t, h, rank_row) (rw w (put-IsDistinct row.entity_id row ranked d))
      | inr w ↦ rw (t, h, rank_row) (rw w d)
    ]
  ]
]

pub rank_rows-IsDistinct :
    (limit : Option DateTime) (target : Date) (rows : List LifecycleRecord) (ranked : Ranked)
    → IsDistinct ranked
    → IsDistinct (rank_rows limit target rows ranked)
unfolding rank_rows
rank_rows-IsDistinct limit target [] ranked d = d
rank_rows-IsDistinct limit target (row ∷ rows) ranked d =
    rank_rows-IsDistinct limit target rows _ (rank_row-IsDistinct limit target row ranked d)

-- The row that decides on an entity: by its place among the rows, those before it that speak for the
-- entity rank below it, and those after it do not rank above it.
pub record Decides (lifecycle : List LifecycleRecord) (target : Date) (limit : Option DateTime)
    (i : ℕ) (row : LifecycleRecord) : Type 0 where
  pub earlier : List LifecycleRecord
  pub later : List LifecycleRecord
  pub place : lifecycle ≡ earlier ++ row ∷ later
  pub speaks : Speaks limit target i row
  pub below : All (λ x. Speaks limit target i x → RanksBelow x row) earlier
  pub no_better : All (λ x. Speaks limit target i x → RanksBelow row x → ⊥) later

module _ (lifecycle : List LifecycleRecord) (target : Date) (limit : Option DateTime) (i : ℕ)
    (row : LifecycleRecord) where
  pub Decides-iff :
      (greatest is_outranked (filter (counts_for limit target i) lifecycle) ≡ some row)
      ↔ Decides lifecycle target limit i row
  Decides-iff = (
    (λ e.
        let b =
          IsBest-greatest is_outranked outranked_trans outranked_mixed (counts_for limit target i)
            lifecycle row e in
        record {
          earlier = b.earlier;
          later = b.later;
          place = b.place;
          speaks = (counts_for_iff limit target i row).0 b.passes;
          below =
              All-map _ _
                (λ x h s. (outranked_iff x row).0 (h ((counts_for_iff limit target i x).1 s)))
                b.earlier b.below;
          no_better =
              All-map _ _
                (λ x h s up.
                  cc (h ((counts_for_iff limit target i x).1 s), (outranked_iff row x).1 up))
                b.later b.no_better;
        }),
    λ d. greatest_of_IsBest is_outranked (counts_for limit target i) lifecycle row (record {
      earlier = d.earlier;
      later = d.later;
      place = d.place;
      passes = (counts_for_iff limit target i row).1 d.speaks;
      below =
          All-map _ _ (λ x h t. (outranked_iff x row).1 (h ((counts_for_iff limit target i x).0 t)))
            d.earlier d.below;
      no_better =
          All-map _ _
            (λ x h t. elim (Bool-cases (is_outranked row x)) [
              | inl up ↦
                  absurd (h ((counts_for_iff limit target i x).0 t) ((outranked_iff row x).0 up))
              | inr f ↦ f
            ])
            d.later d.no_better;
    }),
  )
