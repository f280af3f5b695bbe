-- ===== src/Scenarios/Fixtures.antt =====
-- Concrete values of the records of pkg/spec and pkg/spec/metrics.
use goteth.Common.{ℕ, true, false, none, some, [], ◌∷◌}
use goteth.Spec.Validator.{Validator}
use goteth.Spec.Block.{
  AgnosticBlock, ConsolidationRequestMessage, WithdrawalRequestMessage, PendingAttestation, Receipt,
  AgnosticTransaction,
}
use goteth.Spec.State.{AgnosticState, electra}
use goteth.Spec.Rewards.{ValidatorRewards}
use goteth.Metrics.{StateMetricsBase}

abbrev pub eth : ℕ
eth = 1000000000

-- An active validator with compounding credentials.
abbrev pub validator : ℕ → Validator
validator key = record {
  public_key = key;
  withdrawal_prefix = 2;
  withdrawal_address = 7;
  effective_balance = 32000000000;
  slashed = false;
  activation_epoch = 0;
  exit_epoch = 18446744073709551615;
  withdrawable_epoch = 18446744073709551615;
}

abbrev pub slashed_validator : ℕ → Validator
slashed_validator key = record (validator key) {
  slashed = true;
  exit_epoch = 3;
  withdrawable_epoch = 8000;
}

-- Electra, epoch 300, four validators, one of them slashed, 40 million ETH active.
abbrev pub state : AgnosticState
state = record {
  version = electra;
  genesis_timestamp = 0;
  state_root = 0;
  epoch = 300;
  slot = 9631;
  balances = 32000000000 ∷ 33000000000 ∷ 31000000000 ∷ 40000000000 ∷ [];
  validators = validator 100 ∷ validator 101 ∷ slashed_validator 102 ∷ validator 103 ∷ [];
  total_active_balance = 40000000000000000;
  total_active_real_balance = 40000000000000000;
  attesting_balance = 0 ∷ 0 ∷ 0 ∷ [];
  epoch_structs = record {
    proposer_duties = [];
    beacon_committees = [];
    validator_att_slot = λ _. 0;
  };
  prev_epoch_correct_flags = [];
  prev_attestations = [];
  validator_attestation_included = [];
  num_attestations = 0;
  num_active_vals = 0;
  num_exited_vals = 0;
  num_slashed_vals = 0;
  num_queued_vals = 0;
  block_roots = [];
  missed_blocks = [];
  sync_committee_pubkeys = [];
  blocks = [];
  withdrawals = 0 ∷ 0 ∷ 0 ∷ 0 ∷ [];
  withdrawals_num = 0;
  total_withdrawals_amount = 0;
  deposits = 0 ∷ 0 ∷ 0 ∷ 0 ∷ [];
  deposits_num = 0;
  total_deposits_amount = 0;
  current_justified_checkpoint = record { epoch = 299; root = 0 };
  current_finalized_checkpoint = record { epoch = 298; root = 0 };
  latest_block_header_slot = some 9631;
  sync_committee_participation = 0;
  new_proposer_slashings = 0;
  new_attester_slashings = 0;
  slashings = [];
  consolidation_requests = [];
  withdrawal_requests = [];
  deposit_requests = [];
  pending_consolidations = [];
  pending_partial_withdrawals = [];
  consolidations_processed = [];
  consolidations_processed_amount = 0;
  new_exiting_validators = [];
  consolidated_amounts = λ _. 0;
  consolidated_out_amounts = λ _. 0;
  pending_deposits = [];
  deposits_processed = [];
  deposited_amounts = λ _. 0;
  deposit_balance_to_consume = 0;
  eth1_deposit_index = 5;
  deposit_requests_start_index = 5;
}

abbrev pub consolidation_request : ConsolidationRequestMessage
consolidation_request = record { source_address = 7; source_pubkey = 100; target_pubkey = 101 }

abbrev pub withdrawal_request : WithdrawalRequestMessage
withdrawal_request = record { source_address = 7; validator_pubkey = 103; amount = 0 }

abbrev pub receipt : ℕ → ℕ → ℕ → Receipt
receipt hash gas price = record {
  tx_hash = hash;
  gas_used = gas;
  effective_gas_price = price;
  logs = [];
}

abbrev pub transaction : ℕ → ℕ → ℕ → AgnosticTransaction
transaction hash gas price = record {
  tx_idx = 0;
  gas = gas;
  gas_price = price;
  to = some 1;
  from = 2;
  hash = hash;
  slot = 9632;
  block_number = 77;
  timestamp = 12;
  blob_hashes = [];
  receipt = receipt hash gas price;
}

abbrev pub block : AgnosticBlock
block = record {
  hard_fork_version = electra;
  slot = 9632;
  state_root = 0;
  root = 1;
  parent_root = 0;
  proposer_index = 3;
  proposed = true;
  attestations = none;
  votes_included = 0;
  new_votes_included = 0;
  deposits =
      record { public_key = 101; withdrawal_credentials = 8; amount = 5; signature = 9 } ∷ [];
  bls_to_execution_changes = [];
  proposer_slashings = [];
  attester_slashings = [];
  sync_committee_bits = true ∷ false ∷ true ∷ [];
  execution_payload = record {
    base_fee_per_gas = 10;
    block_hash = 0;
    block_number = 77;
    timestamp = 12;
    transactions = 501 ∷ 502 ∷ [];
    agnostic_transactions = transaction 501 21000 12 ∷ transaction 502 50000 9 ∷ [];
    withdrawals = record { index = 6; validator_index = 1; address = 4; amount = 1000 } ∷ [];
  };
  reward_total = 0;
  manual_reward = 0;
  electra_attestations = some [];
  electra_attester_slashings =
      record { attesting_indices1 = 0 ∷ 1 ∷ 2 ∷ []; attesting_indices2 = 1 ∷ 2 ∷ [] } ∷ [];
  execution_requests = some (record {
    deposits = [];
    withdrawals = withdrawal_request ∷ [];
    consolidations = consolidation_request ∷ [];
  });
}

-- The states of the epochs 299, 300 and 301, the last with one block.
abbrev pub bundle : StateMetricsBase
bundle = record {
  prev_state = record state { epoch = 299 };
  current_state = state;
  next_state = record state { epoch = 301; blocks = block ∷ [] };
  max_slashing_rewards = λ _. 0;
  max_block_rewards = λ _. 0;
  inclusion_delays = [];
  max_attester_rewards = λ _. 0;
}

abbrev pub rewards : ℕ → ValidatorRewards
rewards index = record {
  validator_index = index;
  epoch = 300;
  reward = 10;
  max_reward = 12;
  attestation_reward = 11;
  sync_committee_reward = 1;
  attestation_included = true;
  base_reward = 3;
  in_sync_committee = false;
  sync_committee_participations_included = 0;
  missing_source = false;
  missing_target = false;
  missing_head = true;
  proposer_api_reward = 0;
  proposer_manual_reward = 0;
  inclusion_delay = 1;
}

-- An attestation of a slot, included after a delay.
abbrev pub attestation : ℕ → ℕ → PendingAttestation
attestation slot delay = record {
  aggregation_bits = true ∷ [];
  inclusion_delay = delay;
  data' = record {
    slot = slot;
    index = 0;
    beacon_block_root = 0;
    source_root = 0;
    target_epoch = 0;
    target_root = 0;
  };
}
