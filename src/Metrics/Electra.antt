-- ===== src/Metrics/Electra.antt =====
-- pkg/spec/metrics/state_electra.go: the credentials, the churn limits and the balance that is
-- pending withdrawal. The operations of the fork are in the child modules.
pub mod Churn
pub mod Consolidation
pub mod Withdrawal
pub mod Pending
pub mod Deposits
pub mod Bundle
use goteth.Common.{ℕ, ◌/◌, ◌%◌, ◌≡◌, Bool, ◌||◌, List, ◌==◌, if◌then◌else◌, add64, sub64, loop}
use goteth.Spec.Constants.{
  compounding_withdrawal_prefix, eth1_address_withdrawal_prefix, min_per_epoch_churn_limit_electra,
  churn_limit_quotient, effective_balance_inc, max_per_epoch_activation_exit_churn_limit_electra,
}
use goteth.Spec.Slots.{uint64_max, uint64_min}
use goteth.Spec.Validator.{Validator}
use goteth.Spec.State.{AgnosticState}

unfoldable pub get_pending_balance_to_withdraw : AgnosticState → ℕ → ℕ
get_pending_balance_to_withdraw state validator_index =
    loop (λ total w. if w.validator_index == validator_index then add64 total w.amount else total) 0
      state.pending_partial_withdrawals

unfoldable pub has_compounding_withdrawal_credential : Validator → Bool
has_compounding_withdrawal_credential validator =
    validator.withdrawal_prefix == compounding_withdrawal_prefix

unfoldable pub has_eth1_withdrawal_credential : Validator → Bool
has_eth1_withdrawal_credential validator =
    validator.withdrawal_prefix == eth1_address_withdrawal_prefix

unfoldable pub has_execution_withdrawal_credential : Validator → Bool
has_execution_withdrawal_credential validator =
    has_compounding_withdrawal_credential validator || has_eth1_withdrawal_credential validator

unfoldable pub get_balance_churn_limit : AgnosticState → ℕ
unfolding uint64_max sub64
get_balance_churn_limit state =
    let churn =
      uint64_max min_per_epoch_churn_limit_electra
        (state.total_active_balance / churn_limit_quotient) in
    sub64 churn (churn % effective_balance_inc)

unfoldable pub get_activation_exit_churn_limit : AgnosticState → ℕ
unfolding uint64_min
get_activation_exit_churn_limit state =
    uint64_min max_per_epoch_activation_exit_churn_limit_electra (get_balance_churn_limit state)

unfoldable pub get_consolidation_churn_limit : AgnosticState → ℕ
unfolding sub64
get_consolidation_churn_limit state =
    sub64 (get_balance_churn_limit state) (get_activation_exit_churn_limit state)
