-- ===== src/Runtime/Windows.antt =====
-- src/fin_data_platform/runtime/windows.py, from a watermark and the calendar to the window that is
-- due, and the handler of src/fin_data_platform/ingestion/tasks.py that advances the watermark. The
-- calendar is the argument `last_closed`.
use fin_data_platform.Prelude.{
  ℕ, ◌+◌, ◌-◌, ◌*◌, ◌≤◌, ◌≡◌, String, Bool, ◌&&◌, inl, inr, Option, none, some, List, [], ◌∷◌,
  arith, ltb, leb, nat_beq, string_eq, nat_eq, ◌==◌, or_else, if◌then◌else◌, Option-cases, ap, ◌∙◌,
}
use fin_data_platform.Dict.{Dict, get}
use fin_data_platform.Runtime.Models.{DateTime, Date}
use fin_data_platform.Runtime.Repository.{Repository}
use fin_data_platform.Runtime.Repository.Watermarks.{
  get_watermark, shown, advance_watermark, latest, get_watermark-advance_watermark,
}
use fin_data_platform.Runtime.Registry.{TaskSpec}
use fin_data_platform.Runtime.Calendar.{date_of, day_length}

-- The day after the watermark or, without one, the configured first day.
unfoldable pub start_of : Option DateTime → Option Date → Option Date
start_of (some time) configured = some (date_of time + 1)
start_of none configured = configured

-- The window from a start to the last closed day, unless the start lies behind it.
unfoldable pub window_to : Date → Option Date → List (Date × Date)
window_to end none = []
window_to end (some start) = if ltb end start then [] else (start, end) ∷ []

module _ (last_closed : DateTime → Option Date) (start_dates : Dict String Date) where
  unfoldable pub due_windows :
      TaskSpec → Option DateTime → DateTime → Repository → List (Date × Date)
  unfolding start_of window_to
  due_windows spec now clock r = elim (last_closed (or_else now clock)) [
    | none ↦ []
    | some end ↦
        window_to end
          (start_of (shown (get_watermark spec.dataset spec.scope r)) (get spec.job_id start_dates))
  ]

-- A window that ends today or later and brought nothing does not count its last day.
abbrev pub is_held : Date → Date → ℕ → Bool
is_held today end rows = leb today end && rows == 0

abbrev pub target_of : Date → Date → ℕ → Date
target_of today end rows = if is_held today end rows then end - 1 else end

unfoldable pub mark_watermark : String → String → Date → Option Date → ℕ → Repository → Repository
mark_watermark dataset code today none rows r = r
mark_watermark dataset code today (some end) rows r =
    (advance_watermark dataset code (target_of today end rows * day_length) r).1

-- The first day to fetch after an advance to the start of a day that is not before the day in front
-- of the old first day.
start_of-latest :
    (o : Option DateTime) (configured : Option Date) (start target : Date)
    → start_of o configured ≡ some start
    → start ≤ target + 1
    → start_of (some (latest o (target * day_length))) configured ≡ some (target + 1)
unfolding start_of
start_of-latest none configured start target h le = ground arith
start_of-latest (some time) configured start target h le = ground arith

window_to-inv :
    (last start end : Date) (o : Option Date)
    → window_to last o ≡ (start, end) ∷ []
    → (last ≡ end) × (o ≡ some start) × (start ≤ end)
unfolding window_to
window_to-inv last start end none h = absurd (ground arith)
window_to-inv last start end (some s) h = ground arith

window_to_again :
    (today end rows : ℕ)
    → 1 ≤ end
    → window_to end (some (target_of today end rows + 1))
      ≡ (if is_held today end rows then (end, end) ∷ [] else [])
unfolding window_to
window_to_again today end rows pos = ground arith

-- After a task has fetched the window that was due, which ends after day 0, and its handler has run
-- with the number of rows of the whole window, the same moment asks for the last day once more if the
-- window ends today or later and brought no rows on any of its days, and for nothing otherwise.
pub due_windows-mark_watermark :
    (last_closed : DateTime → Option Date) (start_dates : Dict String Date) (spec : TaskSpec)
    (now : Option DateTime) (clock : DateTime) (today start end : Date) (rows : ℕ) (r : Repository)
    → 1 ≤ end
    → due_windows last_closed start_dates spec now clock r ≡ (start, end) ∷ []
    → due_windows last_closed start_dates spec now clock
        (mark_watermark spec.dataset spec.scope today (some end) rows r)
      ≡ (if leb today end && nat_beq rows 0 then (end, end) ∷ [] else [])
unfolding due_windows mark_watermark
due_windows-mark_watermark last_closed start_dates spec now clock today start end rows r pos h =
    elim (Option-cases (last_closed (or_else now clock))) [
      | inl e ↦ absurd (none_due (rw (e, due_windows) at h))
      | inr (last, e) ↦
          let (same, from, le) = window_to-inv last start end before (rw (e, due_windows) at h) in
          rw (e, due_windows)
            (rw law (
              ap (window_to last) (
                start_of-latest (shown (get_watermark spec.dataset spec.scope r)) _ start target
                  from (fits le))
              ∙ rw same (window_to_again today end rows pos)))
    ]
  where
    target : Date
    target = target_of today end rows

    before : Option Date
    before =
        start_of (shown (get_watermark spec.dataset spec.scope r)) (get spec.job_id start_dates)

    law :
        shown (
          get_watermark spec.dataset spec.scope
            (advance_watermark spec.dataset spec.scope (target * day_length) r).1)
        ≡ some (latest (shown (get_watermark spec.dataset spec.scope r)) (target * day_length))
    law = (get_watermark-advance_watermark spec.dataset spec.scope (target * day_length) r).0

    fits : start ≤ end → start ≤ target + 1
    fits le = ground arith

    none_due : ◌≡◌ {A = List (Date × Date)} [] ((start, end) ∷ []) → ⊥
    none_due h = cc
