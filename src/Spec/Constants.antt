-- ===== src/Spec/Constants.antt =====
-- pkg/spec/constants.go: the parameters of the consensus specification.
use goteth.Common.{ℕ}

abbrev pub base_reward_factor : ℕ
base_reward_factor = 64

abbrev pub effective_balance_inc : ℕ
effective_balance_inc = 1000000000

abbrev pub slots_per_epoch : ℕ
slots_per_epoch = 32

abbrev pub slots_per_historical_root : ℕ
slots_per_historical_root = 8192

abbrev pub whistle_blower_reward_quotient : ℕ
whistle_blower_reward_quotient = 512

abbrev pub min_inclusion_delay : ℕ
min_inclusion_delay = 1

abbrev pub eth1_address_withdrawal_prefix : ℕ
eth1_address_withdrawal_prefix = 1

abbrev pub churn_limit_quotient : ℕ
churn_limit_quotient = 65536

abbrev pub far_future_epoch : ℕ
far_future_epoch = 18446744073709551615

abbrev pub shard_committee_period : ℕ
shard_committee_period = 256

abbrev pub proposer_weight : ℕ
proposer_weight = 8

abbrev pub weight_denominator : ℕ
weight_denominator = 64

abbrev pub compounding_withdrawal_prefix : ℕ
compounding_withdrawal_prefix = 2

abbrev pub pending_consolidations_limit : ℕ
pending_consolidations_limit = 262144

abbrev pub pending_partial_withdrawals_limit : ℕ
pending_partial_withdrawals_limit = 134217728

abbrev pub min_per_epoch_churn_limit_electra : ℕ
min_per_epoch_churn_limit_electra = 128000000000

abbrev pub max_per_epoch_activation_exit_churn_limit_electra : ℕ
max_per_epoch_activation_exit_churn_limit_electra = 256000000000

abbrev pub min_activation_balance : ℕ
min_activation_balance = 32000000000

abbrev pub full_exit_request_amount : ℕ
full_exit_request_amount = 0

abbrev pub max_pending_deposits_per_epoch : ℕ
max_pending_deposits_per_epoch = 16
