-- ===== src/Metrics/Electra/Deposits.antt =====
-- pkg/spec/metrics/state_electra.go: the queue of pending deposits, replayed for the records
-- (`processPendingDeposits`) and for the rewards (`processDepositsForRewardCalculation`). Neither
-- loop writes a field of the state that it reads, so both read the state they start from.
pub mod Agree
pub mod Bounds
use goteth.Common.{
  ℕ, suc, ◌+◌, ◌%◌, ◌≡◌, Bool, true, false, not, ◌&&◌, Option, none, some, List, [], ◌∷◌, ◌++◌,
  ◌==◌, ltb, leb, if◌then◌else◌, add64,
}
use goteth.Spec.Constants.{far_future_epoch, max_pending_deposits_per_epoch}
use goteth.Spec.Slots.{compute_start_slot_at_epoch}
use goteth.Spec.Validator.{Validator}
use goteth.Spec.State.{AgnosticState, GweiMap, bump, PendingDeposit, Deposit}
use goteth.Metrics.Electra.{get_activation_exit_churn_limit}

-- The look-up in the map `validatorPubkeys`, whose last write of a key stays, with the validator.
unfoldable pub validator_of_pubkey : ℕ → ℕ → List Validator → Option (ℕ × Validator)
validator_of_pubkey pubkey i [] = none
validator_of_pubkey pubkey i (v ∷ vs) = elim (validator_of_pubkey pubkey (suc i) vs) [
  | some later ↦ some later
  | none ↦ if v.public_key == pubkey then some (i, v) else none
]

abbrev pub find_pubkey : AgnosticState → ℕ → Option (ℕ × Validator)
find_pubkey state pubkey = validator_of_pubkey pubkey 0 state.validators

abbrev pub is_withdrawn : ℕ → Option (ℕ × Validator) → Bool
is_withdrawn next_epoch none = false
is_withdrawn next_epoch (some (i, validator)) = ltb validator.withdrawable_epoch next_epoch

abbrev pub is_exited : Option (ℕ × Validator) → Bool
is_exited none = false
is_exited (some (i, validator)) = ltb validator.exit_epoch far_future_epoch

-- What a round of the loop does: leave the loop, go on without the deposit, or apply the deposit,
-- with the amount processed from then on.
pub data Fate : Type 0 where
  stop postpone : Fate
  apply : ℕ → Fate

-- The tests at the top of both loops.
abbrev pub must_stop : AgnosticState → ℕ → ℕ → PendingDeposit → Bool
must_stop state finalized_slot count deposit =
    if ltb 0 deposit.slot && ltb state.eth1_deposit_index state.deposit_requests_start_index
    then true
    else if ltb finalized_slot deposit.slot
    then true
    else leb max_pending_deposits_per_epoch count

abbrev pub consume : ℕ → ℕ → PendingDeposit → Fate
consume available amount deposit =
    if ltb available (add64 amount deposit.amount)
    then stop
    else apply (add64 amount deposit.amount)

unfoldable pub record_fate : AgnosticState → ℕ → ℕ → ℕ → ℕ → ℕ → PendingDeposit → Fate
unfolding add64
record_fate state next_epoch finalized_slot available amount count deposit =
    if must_stop state finalized_slot count deposit
    then stop
    else if is_withdrawn next_epoch (find_pubkey state deposit.pubkey)
    then apply amount
    else if is_exited (find_pubkey state deposit.pubkey)
    then postpone
    else consume available amount deposit

unfoldable pub reward_fate : AgnosticState → ℕ → ℕ → ℕ → ℕ → ℕ → PendingDeposit → Fate
unfolding add64
reward_fate state next_epoch finalized_slot available amount count deposit =
    if must_stop state finalized_slot count deposit
    then stop
    else elim (find_pubkey state deposit.pubkey) [
      | some (i, validator) ↦
          let exited = ltb validator.exit_epoch far_future_epoch in
          let withdrawn = ltb validator.withdrawable_epoch next_epoch in
          if exited && not withdrawn
          then postpone
          else if not withdrawn
          then consume available amount deposit
          else apply amount
      | none ↦ consume available amount deposit
    ]

-- `DepositedAmounts[validatorIdx] += deposit.Amount`, where the key is known.
abbrev pub credit : GweiMap → Option (ℕ × Validator) → ℕ → GweiMap
unfolding bump
credit m none amount = m
credit m (some (i, validator)) amount = bump m i amount

pub record DepositsPass : Type 0 where
  pub deposited_amounts : GweiMap
  pub deposits_num : ℕ
  pub total_deposits_amount : ℕ
  pub processed_amount : ℕ
  pub next_deposit_index : ℕ
  pub index : ℕ
  pub processed_deposits : List Deposit

abbrev pub processed_deposit : AgnosticState → PendingDeposit → ℕ → Deposit
processed_deposit state deposit index = record {
  slot = deposit.slot;
  epoch_processed = state.epoch;
  public_key = deposit.pubkey;
  withdrawal_credentials = deposit.withdrawal_credentials;
  amount = deposit.amount;
  signature = deposit.signature;
  index = index;
}

abbrev pub apply_deposit : AgnosticState → PendingDeposit → ℕ → DepositsPass → DepositsPass
unfolding add64
apply_deposit state deposit amount p = record {
  deposited_amounts = credit p.deposited_amounts (find_pubkey state deposit.pubkey) deposit.amount;
  deposits_num = add64 p.deposits_num 1;
  total_deposits_amount = add64 p.total_deposits_amount deposit.amount;
  processed_amount = amount;
  next_deposit_index = add64 p.next_deposit_index 1;
  index = (p.index + 1) % 256;
  processed_deposits = p.processed_deposits ++ processed_deposit state deposit p.index ∷ [];
}

unfoldable pub process_deposits_from :
    AgnosticState → ℕ → ℕ → ℕ → List PendingDeposit → DepositsPass → DepositsPass
unfolding record_fate add64
process_deposits_from state next_epoch finalized_slot available [] p = p
process_deposits_from state next_epoch finalized_slot available (deposit ∷ rest) p =
    elim (record_fate state next_epoch finalized_slot available p.processed_amount
      p.next_deposit_index deposit) [
        | stop ↦ p
        | postpone ↦
            process_deposits_from state next_epoch finalized_slot available rest
              (record p { next_deposit_index = add64 p.next_deposit_index 1 })
        | apply amount ↦
            process_deposits_from state next_epoch finalized_slot available rest
              (apply_deposit state deposit amount p)
      ]

unfoldable pub available_for_processing : AgnosticState → ℕ
unfolding add64 get_activation_exit_churn_limit
available_for_processing state =
    add64 state.deposit_balance_to_consume (get_activation_exit_churn_limit state)

abbrev pub start : AgnosticState → DepositsPass
start state = record {
  deposited_amounts = state.deposited_amounts;
  deposits_num = state.deposits_num;
  total_deposits_amount = state.total_deposits_amount;
  processed_amount = 0;
  next_deposit_index = 0;
  index = 0;
  processed_deposits = [];
}

abbrev pub finish : AgnosticState → DepositsPass → AgnosticState
finish state p = record state {
  deposited_amounts = p.deposited_amounts;
  deposits_num = p.deposits_num;
  total_deposits_amount = p.total_deposits_amount;
  deposits_processed = p.processed_deposits;
}

unfoldable pub process_pending_deposits : AgnosticState → AgnosticState
unfolding process_deposits_from add64 compute_start_slot_at_epoch available_for_processing
process_pending_deposits state = finish state (
    process_deposits_from state (add64 state.epoch 1)
      (compute_start_slot_at_epoch state.current_finalized_checkpoint.epoch)
      (available_for_processing state) state.pending_deposits (start state))

unfoldable pub deposit_rewards_from :
    AgnosticState → ℕ → ℕ → ℕ → List PendingDeposit → ℕ → ℕ → GweiMap → GweiMap
unfolding reward_fate add64
deposit_rewards_from state next_epoch finalized_slot available [] amount count m = m
deposit_rewards_from state next_epoch finalized_slot available (deposit ∷ rest) amount count m =
    elim (reward_fate state next_epoch finalized_slot available amount count deposit) [
      | stop ↦ m
      | postpone ↦
          deposit_rewards_from state next_epoch finalized_slot available rest amount (add64 count 1)
            m
      | apply amount' ↦
          deposit_rewards_from state next_epoch finalized_slot available rest amount'
            (add64 count 1) (credit m (find_pubkey state deposit.pubkey) deposit.amount)
    ]

unfoldable pub process_deposits_for_reward_calculation :
    AgnosticState → AgnosticState → AgnosticState
unfolding deposit_rewards_from add64 compute_start_slot_at_epoch available_for_processing
process_deposits_for_reward_calculation current next = record current {
  deposited_amounts =
      deposit_rewards_from current (add64 current.epoch 1)
        (compute_start_slot_at_epoch next.current_finalized_checkpoint.epoch)
        (available_for_processing current) current.pending_deposits 0 0 current.deposited_amounts;
}
