-- ===== src/Spec/State.antt =====
-- pkg/spec/state.go: the state of any fork. A map from validator index to Gwei is a function,
-- which is 0 where the map has no key.

pub mod Status
pub mod Totals
pub mod Blocks
pub mod Missed
pub mod Roots
pub mod Participation
use goteth.Common.{ℕ, ◌==◌, Bool, Option, List, if◌then◌else◌, add64}
use goteth.Spec.Validator.{Validator}
use goteth.Spec.Block.{AgnosticBlock, PendingAttestation, DataVersion}
pub use goteth.Spec.Block.{unknown, phase0, altair, bellatrix, capella, deneb, electra, fulu}

abbrev pub GweiMap : Type 0
GweiMap = ℕ → ℕ

-- `m[key] += amount`.
unfoldable pub bump : GweiMap → ℕ → ℕ → GweiMap
bump m key amount j = if j == key then add64 (m j) amount else m j

pub record ProposerDuty : Type 0 where
  pub validator_index : ℕ
  pub slot : ℕ

pub record BeaconCommittee : Type 0 where
  pub slot : ℕ
  pub index : ℕ
  pub validators : List ℕ

pub record EpochDuties : Type 0 where
  pub proposer_duties : List ProposerDuty
  pub beacon_committees : List BeaconCommittee
  pub validator_att_slot : ℕ → ℕ

pub record Checkpoint : Type 0 where
  pub epoch : ℕ
  pub root : ℕ

pub record PendingConsolidation : Type 0 where
  pub source_index : ℕ
  pub target_index : ℕ

pub record PendingPartialWithdrawal : Type 0 where
  pub validator_index : ℕ
  pub amount : ℕ

pub record PendingDeposit : Type 0 where
  pub pubkey : ℕ
  pub withdrawal_credentials : ℕ
  pub amount : ℕ
  pub signature : ℕ
  pub slot : ℕ

pub data SlashingReason : Type 0 where
  proposer_slashing attester_slashing : SlashingReason

pub record AgnosticSlashing : Type 0 where
  pub slashed_validator : ℕ
  pub slashed_by : ℕ
  pub slashing_reason : SlashingReason
  pub epoch : ℕ
  pub slot : ℕ
  pub valid : Bool

pub data ConsolidationRequestResult : Type 0 where
  success total_balance_too_low queue_full request_used_as_exit : ConsolidationRequestResult
  src_not_found src_invalid_credentials src_not_active : ConsolidationRequestResult
  src_not_old_enough src_has_pending_withdrawal : ConsolidationRequestResult
  src_exit_already_initiated tgt_not_found tgt_not_compounding : ConsolidationRequestResult
  tgt_not_active tgt_exit_already_initiated : ConsolidationRequestResult

pub record ConsolidationRequest : Type 0 where
  pub slot : ℕ
  pub index : ℕ
  pub source_address : ℕ
  pub source_pubkey : ℕ
  pub target_pubkey : ℕ
  pub result : ConsolidationRequestResult

pub data WithdrawalRequestResult : Type 0 where
  success queue_full validator_not_found invalid_credentials : WithdrawalRequestResult
  validator_not_active exit_already_initiated validator_not_old_enough : WithdrawalRequestResult
  pending_withdrawal_exists insufficient_balance : WithdrawalRequestResult
  validator_not_compounding no_excess_balance : WithdrawalRequestResult

pub record WithdrawalRequest : Type 0 where
  pub slot : ℕ
  pub index : ℕ
  pub source_address : ℕ
  pub validator_pubkey : ℕ
  pub amount : ℕ
  pub result : WithdrawalRequestResult

pub record DepositRequest : Type 0 where
  pub slot : ℕ
  pub pubkey : ℕ
  pub withdrawal_credentials : ℕ
  pub amount : ℕ
  pub signature : ℕ
  pub index : ℕ

pub record ConsolidationProcessed : Type 0 where
  pub epoch : ℕ
  pub index : ℕ
  pub source_index : ℕ
  pub target_index : ℕ
  pub consolidated_amount : ℕ
  pub valid : Bool

pub record Deposit : Type 0 where
  pub slot : ℕ
  pub epoch_processed : ℕ
  pub public_key : ℕ
  pub withdrawal_credentials : ℕ
  pub amount : ℕ
  pub signature : ℕ
  pub index : ℕ

pub record AgnosticState : Type 0 where
  pub version : DataVersion
  pub genesis_timestamp : ℕ
  pub state_root : ℕ
  pub epoch : ℕ
  pub slot : ℕ
  pub balances : List ℕ
  pub validators : List Validator
  pub total_active_balance : ℕ
  pub total_active_real_balance : ℕ
  pub attesting_balance : List ℕ
  pub epoch_structs : EpochDuties
  pub prev_epoch_correct_flags : List (List Bool)
  pub prev_attestations : List PendingAttestation
  pub validator_attestation_included : List Bool
  pub num_attestations : ℕ
  pub num_active_vals : ℕ
  pub num_exited_vals : ℕ
  pub num_slashed_vals : ℕ
  pub num_queued_vals : ℕ
  pub block_roots : List ℕ
  pub missed_blocks : List ℕ
  pub sync_committee_pubkeys : List ℕ
  pub blocks : List AgnosticBlock
  pub withdrawals : List ℕ
  pub withdrawals_num : ℕ
  pub total_withdrawals_amount : ℕ
  pub deposits : List ℕ
  pub deposits_num : ℕ
  pub total_deposits_amount : ℕ
  pub current_justified_checkpoint : Checkpoint
  pub current_finalized_checkpoint : Checkpoint
  pub latest_block_header_slot : Option ℕ
  pub sync_committee_participation : ℕ
  pub new_proposer_slashings : ℕ
  pub new_attester_slashings : ℕ
  pub slashings : List AgnosticSlashing
  pub consolidation_requests : List ConsolidationRequest
  pub withdrawal_requests : List WithdrawalRequest
  pub deposit_requests : List DepositRequest
  pub pending_consolidations : List PendingConsolidation
  pub pending_partial_withdrawals : List PendingPartialWithdrawal
  pub consolidations_processed : List ConsolidationProcessed
  pub consolidations_processed_amount : ℕ
  pub new_exiting_validators : List ℕ
  pub consolidated_amounts : GweiMap
  pub consolidated_out_amounts : GweiMap
  pub pending_deposits : List PendingDeposit
  pub deposits_processed : List Deposit
  pub deposited_amounts : GweiMap
  pub deposit_balance_to_consume : ℕ
  pub eth1_deposit_index : ℕ
  pub deposit_requests_start_index : ℕ
