-- ===== src/Db/Requests.antt =====
-- pkg/db/consolidation_requests.go, withdrawal_requests.go, deposit_requests.go and
-- validator_rewards_aggregation.go: the columns of the requests and of the aggregated rewards.
use goteth.Common.{ℕ, List, []}
use mathlib.Core.List.{◌∷◌}
use goteth.Spec.State.{
  ConsolidationRequest, ConsolidationRequestResult, WithdrawalRequest, WithdrawalRequestResult,
  DepositRequest,
}
use goteth.Spec.Rewards.{ValidatorRewardsAggregation}
use goteth.Db.{uint64, uint32, uint16, uint8, int64, text, Input, Columns, to_input}

-- The numbers of the results of a consolidation.
unfoldable pub consolidation_result_code : ConsolidationRequestResult → ℕ
consolidation_result_code ConsolidationRequestResult.success = 1
consolidation_result_code ConsolidationRequestResult.total_balance_too_low = 10
consolidation_result_code ConsolidationRequestResult.queue_full = 11
consolidation_result_code ConsolidationRequestResult.request_used_as_exit = 12
consolidation_result_code ConsolidationRequestResult.src_not_found = 20
consolidation_result_code ConsolidationRequestResult.src_invalid_credentials = 21
consolidation_result_code ConsolidationRequestResult.src_not_active = 23
consolidation_result_code ConsolidationRequestResult.src_not_old_enough = 24
consolidation_result_code ConsolidationRequestResult.src_has_pending_withdrawal = 25
consolidation_result_code ConsolidationRequestResult.src_exit_already_initiated = 26
consolidation_result_code ConsolidationRequestResult.tgt_not_found = 30
consolidation_result_code ConsolidationRequestResult.tgt_not_compounding = 33
consolidation_result_code ConsolidationRequestResult.tgt_not_active = 34
consolidation_result_code ConsolidationRequestResult.tgt_exit_already_initiated = 35

abbrev pub consolidation_request_columns : Columns ConsolidationRequest
consolidation_request_columns =
    ("f_slot", λ r. uint64 r.slot)
    ∷ ("f_index", λ r. uint64 r.index)
    ∷ ("f_source_address", λ r. text r.source_address)
    ∷ ("f_source_pubkey", λ r. text r.source_pubkey)
    ∷ ("f_target_pubkey", λ r. text r.target_pubkey)
    ∷ ("f_result", λ r. uint8 (consolidation_result_code r.result))
    ∷ []

unfoldable pub consolidation_requests_input : List ConsolidationRequest → Input
unfolding to_input
consolidation_requests_input rows = to_input consolidation_request_columns rows

unfoldable pub withdrawal_result_code : WithdrawalRequestResult → ℕ
withdrawal_result_code WithdrawalRequestResult.success = 1
withdrawal_result_code WithdrawalRequestResult.queue_full = 2
withdrawal_result_code WithdrawalRequestResult.validator_not_found = 3
withdrawal_result_code WithdrawalRequestResult.invalid_credentials = 4
withdrawal_result_code WithdrawalRequestResult.validator_not_active = 5
withdrawal_result_code WithdrawalRequestResult.exit_already_initiated = 6
withdrawal_result_code WithdrawalRequestResult.validator_not_old_enough = 7
withdrawal_result_code WithdrawalRequestResult.pending_withdrawal_exists = 8
withdrawal_result_code WithdrawalRequestResult.insufficient_balance = 9
withdrawal_result_code WithdrawalRequestResult.validator_not_compounding = 10
withdrawal_result_code WithdrawalRequestResult.no_excess_balance = 11

abbrev pub withdrawal_request_columns : Columns WithdrawalRequest
withdrawal_request_columns =
    ("f_slot", λ r. uint64 r.slot)
    ∷ ("f_index", λ r. uint64 r.index)
    ∷ ("f_source_address", λ r. text r.source_address)
    ∷ ("f_validator_pubkey", λ r. text r.validator_pubkey)
    ∷ ("f_amount", λ r. uint64 r.amount)
    ∷ ("f_result", λ r. uint8 (withdrawal_result_code r.result))
    ∷ []

unfoldable pub withdrawal_requests_input : List WithdrawalRequest → Input
unfolding to_input
withdrawal_requests_input rows = to_input withdrawal_request_columns rows

abbrev pub deposit_request_columns : Columns DepositRequest
deposit_request_columns =
    ("f_slot", λ r. uint64 r.slot)
    ∷ ("f_pubkey", λ r. text r.pubkey)
    ∷ ("f_withdrawal_credentials", λ r. text r.withdrawal_credentials)
    ∷ ("f_amount", λ r. uint64 r.amount)
    ∷ ("f_signature", λ r. text r.signature)
    ∷ ("f_index", λ r. uint64 r.index)
    ∷ []

unfoldable pub deposit_requests_input : List DepositRequest → Input
unfolding to_input
deposit_requests_input rows = to_input deposit_request_columns rows

-- A reward is an `int64`, as its bit pattern.
abbrev pub rewards_aggregation_columns : Columns ValidatorRewardsAggregation
rewards_aggregation_columns =
    ("f_val_idx", λ v. uint64 v.validator_index)
    ∷ ("f_start_epoch", λ v. uint64 v.start_epoch)
    ∷ ("f_end_epoch", λ v. uint64 v.end_epoch)
    ∷ ("f_reward", λ v. int64 v.reward)
    ∷ ("f_max_reward", λ v. uint64 v.max_reward)
    ∷ ("f_max_att_reward", λ v. uint64 v.max_attestation_reward)
    ∷ ("f_max_sync_reward", λ v. uint64 v.max_sync_committee_reward)
    ∷ ("f_base_reward", λ v. uint64 v.base_reward)
    ∷ ("f_in_sync_committee_count", λ v. uint16 v.in_sync_committee_count)
    ∷ (
      "f_sync_committee_participations_included",
      λ v. uint16 v.sync_committee_participations_included,
    )
    ∷ ("f_attestations_included", λ v. uint16 v.attestations_included)
    ∷ ("f_missing_source_count", λ v. uint16 v.missing_source_count)
    ∷ ("f_missing_target_count", λ v. uint16 v.missing_target_count)
    ∷ ("f_missing_head_count", λ v. uint16 v.missing_head_count)
    ∷ ("f_block_api_reward", λ v. uint64 v.proposer_api_reward)
    ∷ ("f_block_experimental_reward", λ v. uint64 v.proposer_manual_reward)
    ∷ ("f_inclusion_delay_sum", λ v. uint32 v.inclusion_delay_sum)
    ∷ []

unfoldable pub rewards_aggregation_input : List ValidatorRewardsAggregation → Input
unfolding to_input
rewards_aggregation_input rows = to_input rewards_aggregation_columns rows
