-- ===== src/Runtime/Calendar.antt =====
-- src/fin_data_platform/runtime/calendar.py, `HubTradeCalendar`. What the hub answers is the
-- argument `rows`: for a start and an end, the days of its table with their `is_open` flags.
use fin_data_platform.Prelude.{
  ℕ, ◌+◌, ◌*◌, ◌-◌, ◌/◌, ◌%◌, ◌≤◌, ◌<◌, ◌≡◌, refl, Bool, true, false, ◌⊎◌, inl, inr, Option, none,
  some, List, [], ◌∷◌, arith, leb, max, nat_eq, elem, filter, if◌then◌else◌, Bool-cases,
  Option-cases, subst, sym,
}
use fin_data_platform.Dict.{Dict, get, put}
use fin_data_platform.Dict.Laws.{get-put}
use fin_data_platform.Runtime.Models.{DateTime, Date}

-- One day in microseconds
abbrev pub day_length : ℕ
day_length = 86400000000

-- `moment.date()` and `moment.time()`
abbrev pub date_of : DateTime → Date
date_of moment = moment / day_length

abbrev pub time_of : DateTime → ℕ
time_of moment = moment % day_length

-- `_PUBLISH_CUTOFF_UTC`, 08:30
abbrev pub publish_cutoff : ℕ
publish_cutoff = 30600000000

abbrev pub Cache : Type 0
Cache = Dict Date (List Date)

-- The days of the loop in `_load`: those whose row is open.
unfoldable pub open_days : List (Date × Bool) → List Date
open_days [] = []
open_days ((day, is_open) ∷ rows) =
    let rest = open_days rows in if is_open then day ∷ rest else rest

-- `max(days) if days else None`
unfoldable pub latest_day : List Date → Option Date
latest_day [] = none
latest_day (day ∷ days) = elim (latest_day days) [
  | none ↦ some day
  | some best ↦ some (max day best)
]

-- The last day that may count as closed.
unfoldable pub closed_end : DateTime → Date
closed_end moment =
    if leb publish_cutoff (time_of moment) then date_of moment else date_of moment - 1

module _ (rows : Date → Date → List (Date × Bool)) (lookback : ℕ) where
  unfoldable pub load : Date → Cache → List Date × Cache
  unfolding open_days
  load end cache = elim (get end cache) [
    | some days ↦ (days, cache)
    | none ↦ let days = open_days (rows (end - lookback) end) in (days, put end days cache)
  ]

  unfoldable pub is_trading_day : Date → Cache → Bool × Cache
  unfolding load
  is_trading_day day cache = let (days, cache') = load day cache in (elem day days, cache')

  unfoldable pub last_closed : DateTime → Cache → Option Date × Cache
  last_closed moment cache =
      let end = closed_end moment in
      let (days, cache') = load end cache in (latest_day (filter (λ day. leb day end) days), cache')

-- `day` is an open day of the rows.
abbrev pub IsOpen : Date → List (Date × Bool) → Type 0
IsOpen day [] = ⊥
IsOpen day ((d, is_open) ∷ rows) = ((d ≡ day) × (is_open ≡ true)) ⊎ IsOpen day rows

-- The last open day up to an end: it is one, and no later one is.
abbrev pub IsLastOpen : List (Date × Bool) → Date → Option Date → Type 0
IsLastOpen rows end none = (day : Date) → IsOpen day rows → day ≤ end → ⊥
IsLastOpen rows end (some best) =
    IsOpen best rows × (best ≤ end) × ((day : Date) → IsOpen day rows → day ≤ end → day ≤ best)

-- A row that is shut, or that lies behind the end, changes nothing.
IsLastOpen-skip :
    (d : Date) (is_open : Bool) (rows : List (Date × Bool)) (end : Date) (best : Option Date)
    → (is_open ≡ true → end < d)
    → IsLastOpen rows end best
    → IsLastOpen ((d, is_open) ∷ rows) end best
IsLastOpen-skip d is_open rows end none out h =
    λ day found le. elim found [ inl p ↦ absurd (omega (arith, out p.1)) | inr p ↦ h day p le ]
IsLastOpen-skip d is_open rows end (some best) out (found, le, most) = (
  inr found,
  le,
  λ day f q. elim f [ inl p ↦ absurd (omega (arith, out p.1)) | inr p ↦ most day p q ],
)

-- An open row up to the end joins the choice.
IsLastOpen-join :
    (d : Date) (rows : List (Date × Bool)) (end : Date) (best : Option Date)
    → d ≤ end
    → IsLastOpen rows end best
    → IsLastOpen ((d, true) ∷ rows) end (elim best [ none ↦ some d | some b ↦ some (max d b) ])
IsLastOpen-join d rows end none le h =
    (inl (refl, refl), le, λ day f q. elim f [ inl p ↦ omega arith | inr p ↦ absurd (h day p q) ])
IsLastOpen-join d rows end (some best) le (found, le', most) = (
  elim (Bool-cases (leb best d)) [
    | inl t ↦ inl (ground arith, refl)
    | inr t ↦
        let same : best ≡ max d best = ground arith in inr (subst (λ x. IsOpen x rows) same found)
  ],
  omega arith,
  λ day f q. elim f [ inl p ↦ omega arith | inr p ↦ omega (arith, most day p q) ],
)

latest_day-IsLastOpen :
    (end : Date) (rows : List (Date × Bool))
    → IsLastOpen rows end (latest_day (filter (λ day. leb day end) (open_days rows)))
unfolding latest_day open_days
latest_day-IsLastOpen end [] = λ day h le. h
latest_day-IsLastOpen end ((d, false) ∷ rows) =
    IsLastOpen-skip d false rows end _ (λ e. cc) (latest_day-IsLastOpen end rows)
latest_day-IsLastOpen end ((d, true) ∷ rows) = elim (Bool-cases (leb d end)) [
  | inl t ↦ rw t (IsLastOpen-join d rows end _ (ground arith) (latest_day-IsLastOpen end rows))
  | inr t ↦
      rw t (IsLastOpen-skip d true rows end _ (λ _. ground arith) (latest_day-IsLastOpen end rows))
]

-- The last day that may count as closed is the last one whose cut-off has come.
closed_end_lem :
    (moment : DateTime) (end : Date)
    → end * 86400000000 + (8 * 60 + 30) * 60000000 ≤ moment
    → moment < (end + 1) * 86400000000 + (8 * 60 + 30) * 60000000
    → closed_end moment ≡ end
unfolding closed_end
closed_end_lem moment end passed ahead = ground arith

module _ (rows : Date → Date → List (Date × Bool)) (lookback : ℕ) where
  -- Every cached answer is what the hub answers for its end.
  abbrev pub IsFresh : Cache → Type 0
  IsFresh cache =
      (end : Date) (days : List Date)
      → get end cache ≡ some days
      → days ≡ open_days (rows (end - lookback) end)

  load-IsFresh :
      (end : Date) (cache : Cache)
      → IsFresh cache
      → ((load rows lookback end cache).0 ≡ open_days (rows (end - lookback) end))
        × IsFresh (load rows lookback end cache).1
  unfolding load
  load-IsFresh end cache fresh = elim (Option-cases (get end cache)) [
    | inl e ↦
        rw (e, load)
          (
            refl,
            λ x days h.
                ground (
                  arith,
                  get-put end x (open_days (rows (end - lookback) end)) cache,
                  fresh x days,
                ),
          )
    | inr (days, e) ↦ rw (e, load) (fresh end days e, fresh)
  ]

  -- On a fresh cache, at a moment where `end` is the last day whose 08:30 has come: `last_closed` is the
  -- last open day up to `end` in what the hub answers for the days from `lookback` before `end` to `end`,
  -- or nothing where that has no such day; and the cache stays fresh.
  pub last_closed-IsLastOpen :
      (moment : DateTime) (end : Date) (cache : Cache)
      → IsFresh cache
      → end * 86400000000 + (8 * 60 + 30) * 60000000 ≤ moment
      → moment < (end + 1) * 86400000000 + (8 * 60 + 30) * 60000000
      → IsLastOpen (rows (end - lookback) end) end (last_closed rows lookback moment cache).0
        × IsFresh (last_closed rows lookback moment cache).1
  unfolding last_closed
  last_closed-IsLastOpen moment end cache fresh passed ahead =
      let (days, kept) = load-IsFresh end cache fresh in
      rw (closed_end_lem moment end passed ahead) (
        subst
            (λ d.
              IsLastOpen (rows (end - lookback) end) end
                (latest_day (filter (λ day. leb day end) d)))
            (sym days) (latest_day-IsLastOpen end (rows (end - lookback) end)),
        kept,
      )
