-- ===== src/Checks/Runtime/Runs.antt =====
-- The theorems on runs of the calls of the repository, at small states.
use fin_data_platform.Prelude.{
  ℕ, ◌≤◌, ◌≡◌, refl, String, some, [], ◌∷◌, arith, max, nat_eq, string_eq, pair_eq, option_eq, ◌==◌,
  if◌then◌else◌,
}
use fin_data_platform.Dict.{get}
use fin_data_platform.Runtime.Models.{JobRun}
use fin_data_platform.Runtime.Repository.{init}
use fin_data_platform.Runtime.Repository.Watermarks.{get_watermark, advance_watermark, shown}
use fin_data_platform.Runtime.Repository.Commands.{push_watermark, give_up, apply, run_all}
use fin_data_platform.Runtime.Repository.History.{
  one_running_per_scope, one_live_run_per_key, run_all_final, attempts_within_budget,
}
use fin_data_platform.Prelude.{◌&&◌}
use fin_data_platform.Runtime.Repository.Monotone.{AtLeast, watermark_monotone}
use fin_data_platform.Runtime.Repository.Lifecycle.{Evolves}
use fin_data_platform.Runtime.Repository.History.{apply-Evolves}
use fin_data_platform.Runtime.Repository.Watermarks.{latest, shown-advance_watermark}
use fin_data_platform.Checks.Runtime.{
  program, digest, busy, closed, to_busy, to_done, busy_state, marked_state, busy_state-IsValid,
  to_done-IsValid,
}

one_running_per_scope_example : ◌≡◌ {A = ℕ} 1 1
unfolding program
one_running_per_scope_example =
    one_running_per_scope digest to_busy 1 1 busy busy refl refl refl refl refl refl

one_live_run_per_key_example : ◌≡◌ {A = ℕ} 1 1
unfolding program
one_live_run_per_key_example =
    one_live_run_per_key digest to_busy 1 1 busy busy refl refl refl refl refl

attempts_within_budget_example : (1 ≤ busy.attempt) × (busy.attempt ≤ max 1 busy.max_attempts)
unfolding program
attempts_within_budget_example = attempts_within_budget digest to_busy 1 busy refl

-- A failure that is reported late does not change a run that has succeeded.
run_all_final_example :
    get 1 (run_all digest (give_up 1 "late" 9 ∷ []) (run_all digest to_done init)).runs
    ≡ some closed
unfolding program
run_all_final_example =
    run_all_final digest (give_up 1 "late" 9 ∷ []) (run_all digest to_done init) 1 closed
      to_done-IsValid refl refl

apply-Evolves_example :
    (b : JobRun) × (get 1 (apply digest (give_up 1 "down" 20) busy_state).runs ≡ some b)
    × Evolves busy b
unfolding program
apply-Evolves_example =
    apply-Evolves digest (give_up 1 "down" 20) busy_state 1 busy busy_state-IsValid refl

watermark_monotone_example :
    AtLeast
      (shown
        (get_watermark "bar" "A" (run_all digest (push_watermark "bar" "A" 50 ∷ []) marked_state)))
      777600000000
unfolding program
watermark_monotone_example =
    watermark_monotone digest "bar" "A" (push_watermark "bar" "A" 50 ∷ []) marked_state 777600000000
      refl (omega arith)

shown-advance_watermark_case :
    shown (get_watermark "bar" "A" (advance_watermark "bar" "A" 50 marked_state).1) ≡ (
      if ◌==◌ {Key = String} "bar" "bar" && ◌==◌ {Key = String} "A" "A"
      then some (latest (shown (get_watermark "bar" "A" marked_state)) 50)
      else shown (get_watermark "bar" "A" marked_state))
shown-advance_watermark_case = shown-advance_watermark "bar" "A" 50 marked_state "bar" "A"
