-- ===== src/Scenarios/MetricsRuns.antt =====
-- The theorems on the slashings, the rewards and the attestations at small states.
use goteth.Common.{
  ℕ, ◌+◌, ◌≡◌, ◌⊎◌, inl, inr, refl, true, false, none, some, List, [], ◌∷◌, elem, ◌&&◌, ◌==◌,
  if◌then◌else◌, sub_ℕ, int64_value, arith,
}
use goteth.Metrics.EpochReward.{deposited_amount, received, sent, epoch_reward, epoch_reward_value}
use goteth.Scenarios.Fixtures.{bundle}

deposited_run : deposited_amount bundle 1 ≡ some 0
unfolding deposited_amount goteth.Common.add64
deposited_run = refl

epoch_reward_value_example :
    (reward : ℕ) × (epoch_reward bundle 1 ≡ some reward)
    × (int64_value reward
        ≡ sub_ℕ (33000000000 + 0 + sent bundle 1) (33000000000 + 0 + received bundle 1))
epoch_reward_value_example =
    epoch_reward_value bundle 1 33000000000 33000000000 0 0 refl refl refl deposited_run
      (omega arith) (omega arith)
