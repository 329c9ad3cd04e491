-- ===== src/Checks/Runtime/Claims.antt =====
-- The theorems on claims and on the gate of the dependencies, at small states.
use fin_data_platform.Prelude.{
  ℕ, ◌≡◌, refl, true, none, some, [], ◌∷◌, arith, nat_eq, string_eq, pair_eq, option_eq, ◌==◌,
}
use fin_data_platform.Dict.{get}
use fin_data_platform.Runtime.Models.{JobRun}
use fin_data_platform.Runtime.Repository.{claimed, claim_next}
use fin_data_platform.Runtime.Repository.Queries.{parents_ready}
use fin_data_platform.Runtime.Repository.Commands.{create, run_all}
use fin_data_platform.Prelude.{All, filter, ◌==◌, ◌↔◌}
use fin_data_platform.Runtime.Models.{is_running}
use fin_data_platform.Runtime.Repository.Claims.{
  Claimable, Before, IsIdle, claim_next-some, claim_next-Before, claim_next-none,
}
use fin_data_platform.Runtime.Repository.Gate.{Released, parents_ready_iff}
use fin_data_platform.Runtime.Repository.OpenGate.{parents_ready-run_all}
use fin_data_platform.Checks.Runtime.{
  program, digest, sync, waiting, busy, queue_state, busy_state, gated_state, queue_state-IsValid,
  busy_state-IsValid, gated_state-IsValid,
}

claim_next-some_example :
    (old : JobRun) × (get old.run_id queue_state.runs ≡ some old)
    × (busy ≡ claimed "w-0" 6 old)
    × Claimable queue_state 6 old
    × (get busy.run_id (claim_next "w-0" (some 6) 0 queue_state).1.runs ≡ some busy)
unfolding program
claim_next-some_example = claim_next-some "w-0" (some 6) 0 queue_state busy queue_state-IsValid refl

waiting_is_Claimable : Claimable queue_state 6 waiting
unfolding program
waiting_is_Claimable = record {
  waits = refl;
  due = omega arith;
  free = λ j c h t _ _. still j c h t;
}
  where
    still : (j : ℕ) (c : JobRun) → get j queue_state.runs ≡ some c → is_running c.status ≡ true → ⊥
    still j c h t = ground arith

claim_next-Before_example : Before busy waiting
unfolding program
claim_next-Before_example =
    claim_next-Before "w-0" (some 6) 0 queue_state busy 1 waiting queue_state-IsValid refl refl
      waiting_is_Claimable

claim_next-none_example : ((claim_next "w-1" (some 9) 0 busy_state).0 ≡ none) ↔ IsIdle busy_state 9
claim_next-none_example = claim_next-none "w-1" (some 9) 0 busy_state busy_state-IsValid

parents_ready_iff_example :
    (parents_ready "derive.A" "A" (some 10) (some 12) gated_state ≡ true)
    ↔ All
        (Released gated_state "A" (some 10) (some 12))
        (filter (λ dep. dep.child_job == "derive.A") gated_state.deps)
parents_ready_iff_example =
    parents_ready_iff gated_state "A" (some 10) (some 12) "derive.A" gated_state-IsValid

parents_ready-run_all_example :
    parents_ready "derive.A" "A"
      (some 10)
      (some 12)
      (run_all digest (create sync none 9 ∷ []) gated_state)
    ≡ true
unfolding program
parents_ready-run_all_example =
    parents_ready-run_all digest "derive.A" "A" (some 10) (some 12) (create sync none 9 ∷ [])
      gated_state gated_state-IsValid refl refl
