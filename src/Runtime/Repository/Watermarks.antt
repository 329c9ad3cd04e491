-- ===== src/Runtime/Repository/Watermarks.antt =====
-- The watermarks of `InMemoryMetaRepository`.
use fin_data_platform.Prelude.{
  ◌≡◌, refl, String, Option, none, some, arith, leb, max, string_eq, pair_eq, ap, ◌==◌, ◌&&◌,
  Bool-cases, subst, beq→eq, eq→beq, and_left, and_right, Option-cases, inl, inr, if◌then◌else◌,
}
use fin_data_platform.Dict.{get, put}
use fin_data_platform.Dict.Laws.{get-put, get-put_self}
use fin_data_platform.Runtime.Models.{DateTime, Watermark}
use fin_data_platform.Runtime.Repository.{Repository}

unfoldable pub get_watermark : String → String → Repository → Option Watermark
get_watermark dataset scope r = get (dataset, scope) r.watermarks

unfoldable pub set_watermark : String → String → DateTime → Repository → Watermark × Repository
set_watermark dataset scope time r =
    let mark : Watermark = record {
      dataset = dataset;
      scope = scope;
      watermark_time = some time;
    } in
    (mark, record r { watermarks = put (dataset, scope) mark r.watermarks })

-- The test of `advance_watermark`: a mark is there, has a time, and the time is not before `time`.
unfoldable pub is_reached : Option Watermark → DateTime → Option Watermark
is_reached none time = none
is_reached (some mark) time = elim mark.watermark_time [
  | none ↦ none
  | some reached ↦ if leb time reached then some mark else none
]

unfoldable pub advance_watermark : String → String → DateTime → Repository → Watermark × Repository
unfolding set_watermark is_reached
advance_watermark dataset scope time r =
    elim (is_reached (get (dataset, scope) r.watermarks) time) [
      | none ↦ set_watermark dataset scope time r
      | some current ↦ (current, r)
    ]

-- The time that a watermark shows, if any.
abbrev pub shown : Option Watermark → Option DateTime
shown none = none
shown (some mark) = mark.watermark_time

-- The later of a time that may be missing and a time.
abbrev pub latest : Option DateTime → DateTime → DateTime
latest none time = time
latest (some reached) time = max reached time

unreached :
    (o : Option Watermark) (time : DateTime)
    → is_reached o time ≡ none
    → time ≡ latest (shown o) time
unfolding is_reached
unreached none time e = refl
unreached (some mark) time e = ground arith

reached :
    (o : Option Watermark) (time : DateTime) (mark : Watermark)
    → is_reached o time ≡ some mark
    → (shown o ≡ some (latest (shown o) time)) × (o ≡ some mark)
unfolding is_reached
reached none time mark e = absurd (ground arith)
reached (some m) time mark e = (ground arith, ground arith)

module _ (dataset scope : String) (time : DateTime) (r : Repository) where
  pub get_watermark-advance_watermark :
      (shown (get_watermark dataset scope (advance_watermark dataset scope time r).1)
        ≡ some (latest (shown (get_watermark dataset scope r)) time))
      × (get_watermark dataset scope (advance_watermark dataset scope time r).1
          ≡ some (advance_watermark dataset scope time r).0)
      × ((d s : String)
          → ¬ ((dataset ≡ d) × (scope ≡ s))
          → get_watermark d s (advance_watermark dataset scope time r).1 ≡ get_watermark d s r)
  unfolding get_watermark advance_watermark
  get_watermark-advance_watermark =
      elim (Option-cases (is_reached (get (dataset, scope) r.watermarks) time)) [
        | inl e ↦
            rw (e, advance_watermark, set_watermark)
              (
                rw (get-put_self (dataset, scope) placed r.watermarks)
                    (ap some (unreached _ time e)),
                get-put_self (dataset, scope) placed r.watermarks,
                λ d s other. ground (
                  arith,
                  get-put (dataset, scope) (d, s) placed r.watermarks,
                  string_eq.beq_iff dataset d,
                  string_eq.beq_iff scope s,
                ),
              )
        | inr (mark, e) ↦
            rw (e, advance_watermark)
              ((reached _ time mark e).0, (reached _ time mark e).1, λ d s _. refl)
      ]
    where
      placed : Watermark
      placed = record { dataset = dataset; scope = scope; watermark_time = some time }

-- After an advance the mark of its (dataset, scope) shows the later of the old time and the new one,
-- and every other mark shows what it showed.
pub shown-advance_watermark :
    (dataset scope : String) (time : DateTime) (r : Repository) (d s : String)
    → shown (get_watermark d s (advance_watermark dataset scope time r).1) ≡ (
        if dataset == d && scope == s
        then some (latest (shown (get_watermark d s r)) time)
        else shown (get_watermark d s r))
shown-advance_watermark dataset scope time r d s = elim (Bool-cases (dataset == d && scope == s)) [
  | inl t ↦
      let ed : dataset ≡ d = beq→eq dataset d (and_left _ _ t) in
      let es : scope ≡ s = beq→eq scope s (and_right _ _ t) in
      rw t (
        subst
          (λ x.
            shown (get_watermark x s (advance_watermark dataset scope time r).1)
            ≡ some (latest (shown (get_watermark x s r)) time))
          ed
          (subst
            (λ y.
              shown (get_watermark dataset y (advance_watermark dataset scope time r).1)
              ≡ some (latest (shown (get_watermark dataset y r)) time))
            es (get_watermark-advance_watermark dataset scope time r).0))
  | inr f ↦ rw f (
      ap shown (
        (get_watermark-advance_watermark dataset scope time r).2 d s
          (λ p. cc (rw (eq→beq p.0, eq→beq p.1) at f))))
]
