-- ===== src/Metrics/Electra/Withdrawal.antt =====
-- pkg/spec/metrics/state_electra.go: `processWithdrawalRequest` and the loop over the blocks.
pub mod Exits
use goteth.Common.{
  ℕ, zero, suc, ◌≡◌, Bool, true, false, not, ◌&&◌, ◌||◌, Option, none, some, List, [], ◌∷◌, ◌++◌,
  ◌==◌, leb, ltb, if◌then◌else◌, length, elem, add64, loop?, get_elem?, ◌>>=◌,
}
use goteth.Spec.Constants.{
  far_future_epoch, pending_partial_withdrawals_limit, min_activation_balance,
  full_exit_request_amount, shard_committee_period,
}
use goteth.Spec.Validator.{Validator, is_active}
use goteth.Spec.Block.{AgnosticBlock, WithdrawalRequestMessage}
use goteth.Spec.State.{AgnosticState, WithdrawalRequestResult, WithdrawalRequest}
use goteth.Metrics.{StateMetricsBase}
use goteth.Metrics.Electra.{
  has_compounding_withdrawal_credential, has_execution_withdrawal_credential,
  get_pending_balance_to_withdraw,
}

-- The first validator with the key, with its index: the loop breaks there.
unfoldable pub find_validator : ℕ → ℕ → List Validator → Option (ℕ × Validator)
find_validator key i [] = none
find_validator key i (v ∷ rest) =
    if v.public_key == key then some (i, v) else find_validator key (suc i) rest

-- The branch of a full exit.
unfoldable pub full_exit : AgnosticState → ℕ → ℕ → AgnosticState × WithdrawalRequestResult
full_exit state index pending =
    if pending == 0
    then (
      record state { new_exiting_validators = state.new_exiting_validators ++ index ∷ [] },
      WithdrawalRequestResult.success,
    )
    else (state, WithdrawalRequestResult.pending_withdrawal_exists)

-- The branch of a partial withdrawal. The balance is read before the guards.
unfoldable pub partial_withdrawal :
    AgnosticState → ℕ → Validator → ℕ → ℕ → Option (AgnosticState × WithdrawalRequestResult)
partial_withdrawal state index validator amount pending =
    get_elem? state.balances index >>= λ balance. some (
      if not (has_compounding_withdrawal_credential validator)
      then (state, WithdrawalRequestResult.validator_not_compounding)
      else if ltb validator.effective_balance min_activation_balance
      then (state, WithdrawalRequestResult.insufficient_balance)
      else if not (ltb (add64 min_activation_balance pending) balance)
      then (state, WithdrawalRequestResult.no_excess_balance)
      else (
        record state {
          pending_partial_withdrawals =
              state.pending_partial_withdrawals
              ++ (record { validator_index = index; amount = amount }) ∷ [];
        },
        WithdrawalRequestResult.success,
      ))

-- The guards on a validator that was found.
unfoldable pub withdraw :
    AgnosticState
    → WithdrawalRequestMessage
    → ℕ
    → Validator
    → Option (AgnosticState × WithdrawalRequestResult)
unfolding full_exit partial_withdrawal
withdraw state request index validator =
    if not (
      has_execution_withdrawal_credential validator
      && validator.withdrawal_address == request.source_address)
    then some (state, WithdrawalRequestResult.invalid_credentials)
    else if not (is_active validator state.epoch)
    then some (state, WithdrawalRequestResult.validator_not_active)
    else if not (validator.exit_epoch == far_future_epoch)
        || elem index state.new_exiting_validators
    then some (state, WithdrawalRequestResult.exit_already_initiated)
    else if ltb state.epoch (add64 validator.activation_epoch shard_committee_period)
    then some (state, WithdrawalRequestResult.validator_not_old_enough)
    else let pending = get_pending_balance_to_withdraw state index in
      if request.amount == full_exit_request_amount
      then some (full_exit state index pending)
      else partial_withdrawal state index validator request.amount pending

unfoldable pub withdraw_found :
    AgnosticState
    → WithdrawalRequestMessage
    → Option (ℕ × Validator)
    → Option (AgnosticState × WithdrawalRequestResult)
unfolding withdraw
withdraw_found state request none = some (state, WithdrawalRequestResult.validator_not_found)
withdraw_found state request (some (index, validator)) = withdraw state request index validator

unfoldable pub process_withdrawal_request :
    AgnosticState → WithdrawalRequestMessage → Option (AgnosticState × WithdrawalRequestResult)
unfolding withdraw_found
process_withdrawal_request state request =
    if length state.pending_partial_withdrawals == pending_partial_withdrawals_limit
      && not (request.amount == full_exit_request_amount)
    then some (state, WithdrawalRequestResult.queue_full)
    else withdraw_found state request (find_validator request.validator_pubkey 0 state.validators)

pub record WithdrawalsPass : Type 0 where
  pub state : AgnosticState
  pub requests : List WithdrawalRequest

unfoldable pub process_block_withdrawal_requests :
    AgnosticBlock → ℕ → List WithdrawalRequestMessage → WithdrawalsPass → Option WithdrawalsPass
process_block_withdrawal_requests block i [] pass = some pass
process_block_withdrawal_requests block i (request ∷ rest) pass =
    process_withdrawal_request pass.state request >>= λ r.
    process_block_withdrawal_requests block (suc i) rest (record {
      state = r.0;
      requests =
          pass.requests
          ++ (record {
            slot = block.slot;
            index = i;
            source_address = request.source_address;
            validator_pubkey = request.validator_pubkey;
            amount = request.amount;
            result = r.1;
          })
            ∷ [];
    })

unfoldable pub process_block_withdrawals : WithdrawalsPass → AgnosticBlock → Option WithdrawalsPass
unfolding process_block_withdrawal_requests
process_block_withdrawals pass block = elim block.execution_requests [
  | none ↦ some pass
  | some r ↦ process_block_withdrawal_requests block 0 r.withdrawals pass
]

unfoldable pub process_withdrawal_requests : StateMetricsBase → Option StateMetricsBase
unfolding process_block_withdrawals
process_withdrawal_requests p =
    loop? process_block_withdrawals (record { state = p.current_state; requests = [] })
      p.next_state.blocks
    >>= λ pass. some (record p {
      current_state = pass.state;
      next_state = record (p.next_state) { withdrawal_requests = pass.requests };
    })
