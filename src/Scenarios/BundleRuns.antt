-- ===== src/Scenarios/BundleRuns.antt =====
-- The theorems on the replays of a bundle and on the participation at small states.
use goteth.Common.{◌≡◌, refl, Bool, false, none, some, List, [], ◌∷◌}
use goteth.Spec.Validator.{Validator}
use goteth.Spec.State.{AgnosticState, PendingConsolidation, PendingDeposit}
use goteth.Spec.State.Participation.{setup, process_altair_attestations}
use goteth.Spec.State.Participation.Altair.{IsMarked, process_altair_attestations-IsMarked}
use goteth.Metrics.{StateMetricsBase}
use goteth.Metrics.Electra.Bundle.{pre_process_balances}
use goteth.Metrics.Electra.Bundle.Reprocessing.{pre_process_balances-again}
use goteth.Scenarios.Fixtures.{state, bundle, validator, slashed_validator}

-- The validator 1 is withdrawable, and is consolidated into the validator 3; a deposit of the
-- validator 3 waits.
abbrev leaving : Validator
leaving = record (validator 101) { exit_epoch = 40; withdrawable_epoch = 300 }

abbrev moving : AgnosticState
moving = record state {
  validators = validator 100 ∷ leaving ∷ slashed_validator 102 ∷ validator 103 ∷ [];
  pending_consolidations = record { source_index = 1; target_index = 3 } ∷ [];
  pending_deposits =
      record {
        pubkey = 103;
        withdrawal_credentials = 0;
        amount = 5000000000;
        signature = 0;
        slot = 9000;
      }
      ∷ [];
}

abbrev first : StateMetricsBase
first = record bundle { current_state = moving; next_state = record moving { epoch = 301 } }

abbrev second : StateMetricsBase
second = elim (pre_process_balances first) [ none ↦ first | some q ↦ q ]

abbrev third : StateMetricsBase
third = elim (pre_process_balances second) [ none ↦ second | some q ↦ q ]

second_run : pre_process_balances first ≡ some second
unfolding pre_process_balances goteth.Metrics.Electra.Bundle.replay_balances
    goteth.Metrics.Electra.Pending.process_excess_active_balance_restructuring
    goteth.Metrics.Electra.Bundle.clear_maps
    goteth.Metrics.Electra.Deposits.process_pending_deposits
    goteth.Metrics.Electra.Pending.process_consolidations_for_reward_calculation
    goteth.Metrics.Electra.Pending.verdict
    goteth.Metrics.Electra.Pending.process_pending_consolidations
second_run = refl

third_run : pre_process_balances second ≡ some third
unfolding pre_process_balances goteth.Metrics.Electra.Bundle.replay_balances
    goteth.Metrics.Electra.Pending.process_excess_active_balance_restructuring
    goteth.Metrics.Electra.Bundle.clear_maps
    goteth.Metrics.Electra.Deposits.process_pending_deposits
    goteth.Metrics.Electra.Pending.process_consolidations_for_reward_calculation
    goteth.Metrics.Electra.Pending.verdict
    goteth.Metrics.Electra.Pending.process_pending_consolidations
    goteth.Metrics.Electra.Deposits.process_deposits_for_reward_calculation
third_run = refl

pre_process_balances-again_example : third.current_state ≡ second.current_state
pre_process_balances-again_example =
    pre_process_balances-again first second third second_run third_run

abbrev row : List Bool
row = false ∷ false ∷ false ∷ false ∷ []

-- Two validators with all flags, one with the source only, one with none.
abbrev flagless : AgnosticState
flagless = record state {
  attesting_balance = 0 ∷ 0 ∷ 0 ∷ [];
  prev_epoch_correct_flags = row ∷ row ∷ row ∷ [];
}

abbrev marked : AgnosticState
marked = elim (process_altair_attestations flagless (7 ∷ 1 ∷ 0 ∷ 7 ∷ [])) [
  | none ↦ flagless
  | some t ↦ t
]

marked_run : process_altair_attestations flagless (7 ∷ 1 ∷ 0 ∷ 7 ∷ []) ≡ some marked
unfolding process_altair_attestations goteth.Spec.State.Participation.process_items
    goteth.Spec.State.Participation.process_item goteth.Spec.State.Participation.has_flag
    goteth.Spec.State.Participation.mark_flag
marked_run = refl

process_altair_attestations-IsMarked_example : IsMarked flagless (7 ∷ 1 ∷ 0 ∷ 7 ∷ []) marked
process_altair_attestations-IsMarked_example =
    process_altair_attestations-IsMarked flagless marked (7 ∷ 1 ∷ 0 ∷ 7 ∷ []) marked_run
