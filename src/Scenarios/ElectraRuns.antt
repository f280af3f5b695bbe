-- ===== src/Scenarios/ElectraRuns.antt =====
-- The theorems on the operations of Electra at small states.
use goteth.Common.{ℕ, ◌≡◌, ◌↔◌, refl, none, some, List, [], ◌∷◌, loop, add64, arith}
use goteth.Spec.State.{AgnosticState, success, PendingConsolidation, PendingDeposit}
use goteth.Metrics.{StateMetricsBase}
use goteth.Metrics.Electra.{
  get_balance_churn_limit, get_activation_exit_churn_limit, get_consolidation_churn_limit,
}
use goteth.Metrics.Electra.Consolidation.{
  look_up, process_consolidation_request, process_consolidation_requests,
}
use goteth.Metrics.Electra.Consolidation.Eligible.{
  Accepted, process_consolidation_request-success_iff,
}
use goteth.Metrics.Electra.Consolidation.Queue.{
  QueueValid, process_consolidation_requests-QueueValid,
}
use goteth.Metrics.Electra.Withdrawal.{process_withdrawal_requests}
use goteth.Metrics.Electra.Withdrawal.Exits.{ExitsValid, process_withdrawal_requests-ExitsValid}
use goteth.Metrics.Electra.Pending.{
  process_pending_consolidations, process_consolidations_for_reward_calculation,
}
use goteth.Metrics.Electra.Pending.Flow.{
  moves, amounts, reached, paid_to, paid_from, process_consolidations_for_reward_calculation-moves,
  process_pending_consolidations-agrees,
}
use goteth.Metrics.Electra.Deposits.{process_pending_deposits, available_for_processing}
use goteth.Metrics.Electra.Deposits.Bounds.{IsProcessed, process_pending_deposits-IsProcessed}
use goteth.Scenarios.Fixtures.{state, bundle, consolidation_request}

process_consolidation_request-success_iff_example :
    ((process_consolidation_request state consolidation_request).1 ≡ success)
    ↔ Accepted state consolidation_request
        (look_up consolidation_request 0 state.validators (record { source = none; target = none }))
process_consolidation_request-success_iff_example =
    process_consolidation_request-success_iff state consolidation_request

process_consolidation_requests-QueueValid_example :
    QueueValid (process_consolidation_requests bundle).current_state
process_consolidation_requests-QueueValid_example =
    process_consolidation_requests-QueueValid bundle
      (record { bounded = omega arith; distinct = tt })

abbrev withdrawing : StateMetricsBase
withdrawing = elim (process_withdrawal_requests bundle) [ none ↦ bundle | some q ↦ q ]

withdrawing_run : process_withdrawal_requests bundle ≡ some withdrawing
unfolding process_withdrawal_requests goteth.Metrics.Electra.Withdrawal.process_withdrawal_request
    goteth.Metrics.Electra.Withdrawal.find_validator
    goteth.Metrics.Electra.has_execution_withdrawal_credential
    goteth.Metrics.Electra.has_compounding_withdrawal_credential goteth.Spec.Validator.is_active
    add64
withdrawing_run = refl

process_withdrawal_requests-ExitsValid_example : ExitsValid withdrawing.current_state
process_withdrawal_requests-ExitsValid_example =
    process_withdrawal_requests-ExitsValid bundle withdrawing
      (record { bounded = omega arith; distinct = tt }) withdrawing_run

-- Two entries: a slashed source, and a source that is withdrawable.
abbrev queued : AgnosticState
queued = record state {
  epoch = 18446744073709551614;
  pending_consolidations =
      record { source_index = 2; target_index = 1 }
      ∷ record { source_index = 0; target_index = 1 }
      ∷ [];
}

abbrev rewarded : AgnosticState
rewarded = elim (process_consolidations_for_reward_calculation queued) [
  | none ↦ queued
  | some r ↦ r
]

rewarded_run : process_consolidations_for_reward_calculation queued ≡ some rewarded
unfolding process_consolidations_for_reward_calculation goteth.Metrics.Electra.Pending.verdict add64
rewarded_run = refl

abbrev recorded : AgnosticState
recorded = elim (process_pending_consolidations queued) [ none ↦ queued | some r ↦ r ]

recorded_run : process_pending_consolidations queued ≡ some recorded
unfolding process_pending_consolidations goteth.Metrics.Electra.Pending.verdict add64
recorded_run = refl

process_consolidations_for_reward_calculation-moves_example :
    let ms = amounts queued (reached queued (add64 queued.epoch 1) queued.pending_consolidations) in
    ((j : ℕ) → rewarded.consolidated_amounts j ≡ paid_to j 0 ms)
    × ((j : ℕ) → rewarded.consolidated_out_amounts j ≡ paid_from j 0 ms)
process_consolidations_for_reward_calculation-moves_example =
    process_consolidations_for_reward_calculation-moves queued rewarded rewarded_run

process_pending_consolidations-agrees_example :
    ((j : ℕ) → recorded.consolidated_amounts j ≡ rewarded.consolidated_amounts j)
    × ((ms : List (PendingConsolidation × ℕ)) × (moves queued
            (add64 queued.epoch 1)
            queued.pending_consolidations
          ≡ some ms)
        × (recorded.consolidations_processed_amount
            ≡ loop (λ acc (m : PendingConsolidation × ℕ). add64 acc m.1) 0 ms))
process_pending_consolidations-agrees_example =
    process_pending_consolidations-agrees queued recorded rewarded recorded_run rewarded_run

abbrev deposit : ℕ → ℕ → ℕ → PendingDeposit
deposit pubkey amount slot = record {
  pubkey = pubkey;
  withdrawal_credentials = 0;
  amount = amount;
  signature = 0;
  slot = slot;
}

-- A new key, an exiting validator, a known validator, and a deposit that is not finalized.
abbrev depositing : AgnosticState
depositing = record state {
  pending_deposits =
      deposit 200 32000000000 9000
      ∷ deposit 102 1000000000 0
      ∷ deposit 101 5000000000 9100
      ∷ deposit 103 5000000000 9600
      ∷ [];
}

depositing_available : available_for_processing depositing ≡ 256000000000
unfolding available_for_processing get_balance_churn_limit
depositing_available = refl

process_pending_deposits-IsProcessed_example :
    IsProcessed depositing (process_pending_deposits depositing)
process_pending_deposits-IsProcessed_example =
    let limit = depositing_available in
    process_pending_deposits-IsProcessed depositing (
      ground (arith, limit),
      (ground (arith, limit), (ground (arith, limit), (ground (arith, limit), ground arith))),
    )
