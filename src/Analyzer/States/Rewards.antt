-- ===== src/Analyzer/States/Rewards.antt =====
-- pkg/analyzer/process_state.go, `processEpochValRewards`: the rewards of the validators of an epoch.
use goteth.Common.{
  ℕ, suc, Bool, not, ◌&&◌, ◌||◌, Option, none, some, List, [], ◌∷◌, leb, if◌then◌else◌, ◌>>=◌,
}
use goteth.Spec.Validator.{Validator, is_active}
use goteth.Spec.Rewards.{ValidatorRewards}
use goteth.Analyzer.Aggregation.{aggregate_epoch}
use goteth.Analyzer.Services.{ChainAnalyzer, Services, StateMetrics, persist_validator_rewards}
use goteth.Analyzer.States.{write_or_die}

-- The test that passes over a validator.
unfoldable pub is_left_out : ℕ → Validator → ValidatorRewards → Bool
is_left_out prev_epoch validator max_rewards =
    not (is_active validator prev_epoch)
    && (not validator.slashed || leb validator.exit_epoch prev_epoch)
    && not max_rewards.in_sync_committee

-- A validator whose reward gives an error is passed over too.
unfoldable pub collect_rewards : StateMetrics → ℕ → List Validator → List ValidatorRewards
unfolding is_left_out
collect_rewards bundle i [] = []
collect_rewards bundle i (validator ∷ validators) =
    let rest = collect_rewards bundle (suc i) validators in
    elim (bundle.get_max_reward i) [
      | none ↦ rest
      | some max_rewards ↦
          if is_left_out bundle.metrics_base.prev_state.epoch validator max_rewards
          then rest
          else max_rewards ∷ rest
    ]

-- The rows of the aggregation are logged in the aggregator; a failure to write them, which ends the
-- program, is not followed.
abbrev pub persist_rewards : Services → ChainAnalyzer → List ValidatorRewards → Option ChainAnalyzer
persist_rewards v s [] = some s
persist_rewards v s (r ∷ rs) = write_or_die v s (persist_validator_rewards (r ∷ rs))

unfoldable pub process_epoch_val_rewards :
    Services → ChainAnalyzer → StateMetrics → Option ChainAnalyzer
unfolding collect_rewards write_or_die
process_epoch_val_rewards v s bundle =
    let insert_vals = collect_rewards bundle 0 bundle.metrics_base.next_state.validators in
    persist_rewards v s insert_vals >>= λ t. some (record t {
      aggregator = aggregate_epoch t.aggregator bundle.metrics_base.next_state.epoch insert_vals;
    })
