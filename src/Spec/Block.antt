-- ===== src/Spec/Block.antt =====
-- pkg/spec/block.go: a block of any fork, with the parts that the source computes with. A slice
-- that the source tests for nil is an `Option`.
pub mod Fees
pub mod Transactions
use goteth.Common.{ℕ, Bool, Option, List}

-- The fork of a block or of a state, in the order of the forks.
pub data DataVersion : Type 0 where
  unknown phase0 altair bellatrix capella deneb electra fulu : DataVersion

pub record AttestationData : Type 0 where
  pub slot : ℕ
  pub index : ℕ
  pub beacon_block_root : ℕ
  pub source_root : ℕ
  pub target_epoch : ℕ
  pub target_root : ℕ

-- Before Electra one committee votes, and `committee_bits` is empty.
pub record Attestation : Type 0 where
  pub aggregation_bits : List Bool
  pub committee_bits : List Bool
  pub data' : AttestationData

pub record PendingAttestation : Type 0 where
  pub aggregation_bits : List Bool
  pub inclusion_delay : ℕ
  pub data' : AttestationData

pub record BlockDeposit : Type 0 where
  pub public_key : ℕ
  pub withdrawal_credentials : ℕ
  pub amount : ℕ
  pub signature : ℕ

pub record Withdrawal : Type 0 where
  pub index : ℕ
  pub validator_index : ℕ
  pub address : ℕ
  pub amount : ℕ

pub record BlsChangeMessage : Type 0 where
  pub validator_index : ℕ
  pub from_bls_pubkey : ℕ
  pub to_execution_address : ℕ

pub record AttesterSlashing : Type 0 where
  pub attesting_indices1 : List ℕ
  pub attesting_indices2 : List ℕ

pub record DepositRequestMessage : Type 0 where
  pub pubkey : ℕ
  pub withdrawal_credentials : ℕ
  pub amount : ℕ
  pub signature : ℕ
  pub index : ℕ

pub record WithdrawalRequestMessage : Type 0 where
  pub source_address : ℕ
  pub validator_pubkey : ℕ
  pub amount : ℕ

pub record ConsolidationRequestMessage : Type 0 where
  pub source_address : ℕ
  pub source_pubkey : ℕ
  pub target_pubkey : ℕ

pub record ExecutionRequests : Type 0 where
  pub deposits : List DepositRequestMessage
  pub withdrawals : List WithdrawalRequestMessage
  pub consolidations : List ConsolidationRequestMessage

-- A log of a receipt; `topics` are hashes and `data'` bytes.
pub record LogEntry : Type 0 where
  pub address : ℕ
  pub topics : List ℕ
  pub data' : List ℕ
  pub block_hash : ℕ
  pub index : ℕ

pub record Receipt : Type 0 where
  pub tx_hash : ℕ
  pub gas_used : ℕ
  pub effective_gas_price : ℕ
  pub logs : List LogEntry

-- Without the fields that are only stored: type, chain, data, tips, value, nonce, size and blob gas.
pub record AgnosticTransaction : Type 0 where
  pub tx_idx : ℕ
  pub gas : ℕ
  pub gas_price : ℕ
  pub to : Option ℕ
  pub from : ℕ
  pub hash : ℕ
  pub slot : ℕ
  pub block_number : ℕ
  pub timestamp : ℕ
  pub blob_hashes : List ℕ
  pub receipt : Receipt

-- `transactions` holds the encoded transactions, each the number that its bytes spell.
pub record AgnosticExecutionPayload : Type 0 where
  pub base_fee_per_gas : ℕ
  pub block_hash : ℕ
  pub block_number : ℕ
  pub timestamp : ℕ
  pub transactions : List ℕ
  pub agnostic_transactions : List AgnosticTransaction
  pub withdrawals : List Withdrawal

-- A proposer slashing is read through the proposer index of its first header only.
pub record AgnosticBlock : Type 0 where
  pub hard_fork_version : DataVersion
  pub slot : ℕ
  pub state_root : ℕ
  pub root : ℕ
  pub parent_root : ℕ
  pub proposer_index : ℕ
  pub proposed : Bool
  pub attestations : Option (List Attestation)
  pub votes_included : ℕ
  pub new_votes_included : ℕ
  pub deposits : List BlockDeposit
  pub bls_to_execution_changes : List BlsChangeMessage
  pub proposer_slashings : List ℕ
  pub attester_slashings : List AttesterSlashing
  pub sync_committee_bits : List Bool
  pub execution_payload : AgnosticExecutionPayload
  pub reward_total : ℕ
  pub manual_reward : ℕ
  pub electra_attestations : Option (List Attestation)
  pub electra_attester_slashings : List AttesterSlashing
  pub execution_requests : Option ExecutionRequests
