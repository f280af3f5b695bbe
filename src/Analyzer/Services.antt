-- ===== src/Analyzer/Services.antt =====
-- pkg/analyzer/chain_analyzer.go, `ChainAnalyzer`: the state that the routines share, and the services
-- that they call. The answers of the nodes and the failures of the database are parameters, fixed
-- during a run; the calls of the database are a log.
pub mod Waits
use goteth.Common.{ℕ, suc, ◌*◌, Bool, Option, List, ◌∷◌}
use goteth.Spec.Block.{AgnosticBlock, Withdrawal, AgnosticTransaction, Receipt}
use goteth.Spec.Block.Transactions.{EthTransaction, Eth1Deposit, AgnosticBlobSidecar}
use goteth.Spec.State.{
  AgnosticState, Deposit, DepositRequest, WithdrawalRequest, ConsolidationRequest,
  ConsolidationProcessed, AgnosticSlashing,
}
use goteth.Spec.State.Status.{ValidatorStatus}
use goteth.Spec.Rewards.{ValidatorRewards}
use goteth.Metrics.{StateMetricsBase}
use goteth.Utils.RoutineBook.{RoutineBook}
use goteth.Analyzer.Aggregation.{Aggregator}
use goteth.Analyzer.ChainCache.{ChainCache}
use goteth.Relay.Bids.{RelayBidsPerSlot}

-- pkg/db/metrics.go.
pub record DbMetrics : Type 0 where
  pub block : Bool
  pub epoch : Bool
  pub validator_rewards : Bool
  pub api_rewards : Bool
  pub transactions : Bool
  pub blob_sidecars : Bool

-- The rows that the analyzer builds (pkg/spec, pkg/db).
pub record WithdrawalRow : Type 0 where
  pub slot : ℕ
  pub index : ℕ
  pub validator_index : ℕ
  pub address : ℕ
  pub amount : ℕ

pub record BlsToExecutionChange : Type 0 where
  pub slot : ℕ
  pub epoch : ℕ
  pub validator_index : ℕ
  pub from_bls_public_key : ℕ
  pub to_execution_address : ℕ

pub record ProposerDutyRow : Type 0 where
  pub val_idx : ℕ
  pub proposer_slot : ℕ
  pub proposed : Bool

pub record ValidatorLastStatus : Type 0 where
  pub val_idx : ℕ
  pub epoch : ℕ
  pub current_balance : ℕ
  pub effective_balance : ℕ
  pub current_status : ValidatorStatus
  pub slashed : Bool
  pub activation_epoch : ℕ
  pub withdrawal_epoch : ℕ
  pub exit_epoch : ℕ
  pub public_key : ℕ
  pub withdrawal_prefix : ℕ
  pub withdrawal_address : ℕ

pub record BlockReward : Type 0 where
  pub slot : ℕ
  pub cl_manual_reward : ℕ
  pub cl_api_reward : ℕ
  pub reward_fees : ℕ
  pub burnt_fees : ℕ
  pub relays : List ℕ
  pub bid_commision : ℕ
  pub builder_pubkeys : List ℕ

-- A call of the database with what it is given. `persist_epochs` stands for the row that
-- `ExportToEpoch` makes of the states.
pub data Call : Type 0 where
  persist_blocks persist_orphans : List AgnosticBlock → Call
  persist_withdrawals : List WithdrawalRow → Call
  persist_deposits : List Deposit → Call
  persist_eth1_deposits : List Eth1Deposit → Call
  persist_bls_to_execution_changes : List BlsToExecutionChange → Call
  persist_transactions : List AgnosticTransaction → Call
  persist_blob_sidecars : List AgnosticBlobSidecar → Call
  persist_slashings : List AgnosticSlashing → Call
  persist_consolidations_processed : List ConsolidationProcessed → Call
  persist_withdrawal_requests : List WithdrawalRequest → Call
  persist_consolidation_requests : List ConsolidationRequest → Call
  persist_deposit_requests : List DepositRequest → Call
  persist_epochs : StateMetricsBase → Call
  insert_pool_summary : ℕ → Call
  persist_duties : List ProposerDutyRow → Call
  persist_val_last_status : List ValidatorLastStatus → Call
  delete_val_last_status : ℕ → Call
  persist_validator_rewards : List ValidatorRewards → Call
  persist_block_rewards : List BlockReward → Call
  delete_block_metrics delete_state_metrics : ℕ → Call
  persist_head_events persist_finalized persist_reorgs persist_blob_sidecars_events : ℕ → Call

-- The interface `StateMetrics` of pkg/spec/metrics: `none` is an error of `GetMaxReward`.
pub record StateMetrics : Type 0 where
  pub metrics_base : StateMetricsBase
  pub get_max_reward : ℕ → Option ValidatorRewards

-- The nodes, the relays and the database. `none` is an error, except in `request_block_root`, whose
-- source has no error. A state asked by its root takes the number of the attempt; the relays take the
-- slot and the limit; `state_metrics_by_fork_version` takes the next, the current, the previous state.
pub record Services : Type 0 where
  pub request_beacon_block : ℕ → Option AgnosticBlock
  pub request_beacon_state : ℕ → Option AgnosticState
  pub request_beacon_state_by_root : ℕ → ℕ → ℕ → Option AgnosticState
  pub request_block_root : ℕ → ℕ
  pub request_state_root : ℕ → Option ℕ
  pub request_finalized_beacon_block : Option AgnosticBlock
  pub request_current_head : ℕ
  pub request_fulu_blobs : ℕ → List AgnosticBlobSidecar
  pub request_blob_sidecars : ℕ → List AgnosticBlobSidecar
  pub get_block_receipts : AgnosticBlock → Option (List Receipt)
  pub unmarshal : ℕ → Option EthTransaction
  pub get_delivered_bids : ℕ → ℕ → Option RelayBidsPerSlot
  pub state_metrics_by_fork_version :
      AgnosticState → AgnosticState → AgnosticState → Option StateMetrics
  pub retrieve_last_slot : Option ℕ
  pub fails : Call → Bool

pub data DownloadMode : Type 0 where
  historical finalized other : DownloadMode

-- `calls` holds the calls of the database, the last one first, and `cancelled` whether the context
-- has ended. `aggregator` holds the fields of the aggregation.
pub record ChainAnalyzer : Type 0 where
  pub beacon_contract_address : ℕ
  pub init_slot : ℕ
  pub final_slot : ℕ
  pub download_mode : DownloadMode
  pub stop : Bool
  pub cancelled : Bool
  pub metrics : DbMetrics
  pub processer_book : RoutineBook
  pub download_cache : ChainCache
  pub aggregator : Aggregator
  pub epoch_boundary_state_roots : List (ℕ × ℕ)
  pub calls : List Call

-- The keys of the book, "slot=n" and "epoch=n", as different numbers.
unfoldable pub slot_page : ℕ → ℕ
slot_page slot = 2 * slot

unfoldable pub epoch_page : ℕ → ℕ
epoch_page epoch = suc (2 * epoch)

-- One more call of the database.
abbrev pub write : ChainAnalyzer → Call → ChainAnalyzer
write s call = record s { calls = call ∷ s.calls }
