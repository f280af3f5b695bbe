-- ===== src/Metrics/Electra/Churn.antt =====
-- The three churn limits together (pkg/spec/metrics/state_electra.go).
use goteth.Common.{◌+◌, ◌%◌, ◌≡◌, ◌≤◌, ◌<◌, arith, u64_mod}
use goteth.Spec.State.{AgnosticState}
use goteth.Metrics.Electra.{
  get_balance_churn_limit, get_activation_exit_churn_limit, get_consolidation_churn_limit,
}

-- For a total balance that is a `uint64`, no subtraction wraps: the churn limit for activations and
-- exits and the one for consolidations add up to the balance churn limit, each is a whole number of
-- increments, the first lies between 128 and 256 ETH, and consolidations have a limit only from a
-- balance churn of more than 256 ETH on.
pub churn_limits :
    (state : AgnosticState)
    → state.total_active_balance < u64_mod
    → (get_activation_exit_churn_limit state + get_consolidation_churn_limit state
        ≡ get_balance_churn_limit state)
      × (get_activation_exit_churn_limit state % 1000000000 ≡ 0)
      × (get_consolidation_churn_limit state % 1000000000 ≡ 0)
      × (128000000000 ≤ get_activation_exit_churn_limit state)
      × (get_activation_exit_churn_limit state ≤ 256000000000)
      × (get_balance_churn_limit state ≤ 256000000000 → get_consolidation_churn_limit state ≡ 0)
unfolding get_balance_churn_limit get_activation_exit_churn_limit get_consolidation_churn_limit
churn_limits state h = ground arith
