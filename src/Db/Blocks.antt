-- ===== src/Db/Blocks.antt =====
-- pkg/db/withdrawals.go, deposits.go, eth1_deposits.go, bls_to_execution_changes.go, block_rewards.go:
-- the columns of what is written for a block.
use goteth.Common.{ℕ, ◌≡◌, refl, Option, none, some, List, [], ◌∷◌, length}
use goteth.Spec.Block.Transactions.{Eth1Deposit}
use goteth.Spec.State.{Deposit}
use goteth.Analyzer.Services.{WithdrawalRow, BlsToExecutionChange, BlockReward}
use goteth.Db.{
  Value, uint64, uint8, text, bytes, texts, Input, Columns, to_input, entries_of, read_rows,
  read_rows-to_input,
}

abbrev pub withdrawal_columns : Columns WithdrawalRow
withdrawal_columns =
    ("f_slot", λ w. uint64 w.slot)
    ∷ ("f_index", λ w. uint64 w.index)
    ∷ ("f_val_idx", λ w. uint64 w.validator_index)
    ∷ ("f_address", λ w. text w.address)
    ∷ ("f_amount", λ w. uint64 w.amount)
    ∷ []

unfoldable pub withdrawals_input : List WithdrawalRow → Input
unfolding to_input
withdrawals_input rows = to_input withdrawal_columns rows

-- The index of a deposit is a `uint8` already.
abbrev pub deposit_columns : Columns Deposit
deposit_columns =
    ("f_slot", λ d. uint64 d.slot)
    ∷ ("f_epoch_processed", λ d. uint64 d.epoch_processed)
    ∷ ("f_public_key", λ d. text d.public_key)
    ∷ ("f_withdrawal_credentials", λ d. text d.withdrawal_credentials)
    ∷ ("f_amount", λ d. uint64 d.amount)
    ∷ ("f_signature", λ d. text d.signature)
    ∷ ("f_index", λ d. uint8 d.index)
    ∷ []

unfoldable pub deposits_input : List Deposit → Input
unfolding to_input
deposits_input rows = to_input deposit_columns rows

abbrev pub eth1_deposit_columns : Columns Eth1Deposit
eth1_deposit_columns =
    ("f_block_number", λ d. uint64 d.block_number)
    ∷ ("f_block_hash", λ d. text d.block_hash)
    ∷ ("f_tx_hash", λ d. text d.tx_hash)
    ∷ ("f_log_index", λ d. uint64 d.log_index)
    ∷ ("f_sender", λ d. text d.sender)
    ∷ ("f_recipient", λ d. text d.recipient)
    ∷ ("f_gas_used", λ d. uint64 d.gas_used)
    ∷ ("f_gas_price", λ d. uint64 d.gas_price)
    ∷ ("f_deposit_index", λ d. uint64 d.deposit_index)
    ∷ ("f_validator_pubkey", λ d. bytes d.validator_pubkey)
    ∷ ("f_withdrawal_credentials", λ d. bytes d.withdrawal_credentials)
    ∷ ("f_signature", λ d. bytes d.signature)
    ∷ ("f_amount", λ d. uint64 d.amount)
    ∷ []

unfoldable pub eth1_deposits_input : List Eth1Deposit → Input
unfolding to_input
eth1_deposits_input rows = to_input eth1_deposit_columns rows

abbrev pub bls_to_execution_change_columns : Columns BlsToExecutionChange
bls_to_execution_change_columns =
    ("f_slot", λ c. uint64 c.slot)
    ∷ ("f_epoch", λ c. uint64 c.epoch)
    ∷ ("f_validator_index", λ c. uint64 c.validator_index)
    ∷ ("f_from_bls_pubkey", λ c. text c.from_bls_public_key)
    ∷ ("f_to_execution_address", λ c. text c.to_execution_address)
    ∷ []

unfoldable pub bls_to_execution_changes_input : List BlsToExecutionChange → Input
unfolding to_input
bls_to_execution_changes_input rows = to_input bls_to_execution_change_columns rows

-- The first key of a builder, an empty text where there is none.
abbrev pub first_builder : List ℕ → Value
first_builder [] = texts []
first_builder (key ∷ _) = texts (key ∷ [])

abbrev pub block_reward_columns : Columns BlockReward
block_reward_columns =
    ("f_slot", λ r. uint64 r.slot)
    ∷ ("f_reward_fees", λ r. uint64 r.reward_fees)
    ∷ ("f_burnt_fees", λ r. uint64 r.burnt_fees)
    ∷ ("f_cl_manual_reward", λ r. uint64 r.cl_manual_reward)
    ∷ ("f_cl_api_reward", λ r. uint64 r.cl_api_reward)
    ∷ ("f_relays", λ r. texts r.relays)
    ∷ ("f_builder_pubkey", λ r. first_builder r.builder_pubkeys)
    ∷ ("f_bid_commission", λ r. uint64 r.bid_commision)
    ∷ []

unfoldable pub block_rewards_input : List BlockReward → Input
unfolding to_input
block_rewards_input rows = to_input block_reward_columns rows

-- The rows that the entries stand for.
abbrev pub read_withdrawal : List Value → Option WithdrawalRow
read_withdrawal (uint64 slot ∷ uint64 index ∷ uint64 val ∷ text address ∷ uint64 amount ∷ []) =
    some (record {
      slot = slot;
      index = index;
      validator_index = val;
      address = address;
      amount = amount;
    })
read_withdrawal _ = none

abbrev pub read_eth1_deposit : List Value → Option Eth1Deposit
read_eth1_deposit
      (uint64 number
        ∷ text hash
        ∷ text tx
        ∷ uint64 log
        ∷ text sender
        ∷ text recipient
        ∷ uint64 gas
        ∷ uint64 price
        ∷ uint64 index
        ∷ bytes pubkey
        ∷ bytes credentials
        ∷ bytes signature
        ∷ uint64 amount
        ∷ []) =
    some (record {
      block_number = number;
      block_hash = hash;
      tx_hash = tx;
      log_index = log;
      sender = sender;
      recipient = recipient;
      gas_used = gas;
      gas_price = price;
      deposit_index = index;
      validator_pubkey = pubkey;
      withdrawal_credentials = credentials;
      signature = signature;
      amount = amount;
    })
read_eth1_deposit _ = none

-- The columns of the withdrawals and of the deposits hold the rows: the database reads back the rows
-- that were written.
pub block_tables_roundtrip :
    (withdrawals : List WithdrawalRow) (deposits : List Eth1Deposit)
    → (read_rows read_withdrawal (length withdrawals) (withdrawals_input withdrawals)
        ≡ some withdrawals)
      × (read_rows read_eth1_deposit (length deposits) (eth1_deposits_input deposits)
          ≡ some deposits)
unfolding withdrawals_input eth1_deposits_input entries_of
block_tables_roundtrip withdrawals deposits = (
  read_rows-to_input withdrawal_columns read_withdrawal (λ row. refl) withdrawals,
  read_rows-to_input eth1_deposit_columns read_eth1_deposit (λ row. refl) deposits,
)
