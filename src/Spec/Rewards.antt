-- ===== src/Spec/Rewards.antt =====
-- pkg/spec/validator_rewards.go and pkg/spec/validator_rewards_aggregation.go: the rewards of a
-- validator in an epoch, as far as the aggregation reads them, and their aggregation over a window of
-- epochs.
use goteth.Common.{ℕ, ◌+◌, ◌%◌, Bool, add64, if◌then◌else◌}

pub record ValidatorRewards : Type 0 where
  pub validator_index : ℕ
  pub epoch : ℕ
  pub reward : ℕ
  pub max_reward : ℕ
  pub attestation_reward : ℕ
  pub sync_committee_reward : ℕ
  pub attestation_included : Bool
  pub base_reward : ℕ
  pub in_sync_committee : Bool
  pub sync_committee_participations_included : ℕ
  pub missing_source : Bool
  pub missing_target : Bool
  pub missing_head : Bool
  pub proposer_api_reward : ℕ
  pub proposer_manual_reward : ℕ
  pub inclusion_delay : ℕ

pub record ValidatorRewardsAggregation : Type 0 where
  pub validator_index : ℕ
  pub start_epoch : ℕ
  pub end_epoch : ℕ
  pub reward : ℕ
  pub max_reward : ℕ
  pub max_attestation_reward : ℕ
  pub max_sync_committee_reward : ℕ
  pub base_reward : ℕ
  pub in_sync_committee_count : ℕ
  pub sync_committee_participations_included : ℕ
  pub attestations_included : ℕ
  pub missing_source_count : ℕ
  pub missing_target_count : ℕ
  pub missing_head_count : ℕ
  pub proposer_api_reward : ℕ
  pub proposer_manual_reward : ℕ
  pub inclusion_delay_sum : ℕ

unfoldable pub new_validator_rewards_aggregation : ℕ → ℕ → ℕ → ValidatorRewardsAggregation
new_validator_rewards_aggregation validator_index start_epoch end_epoch = record {
  validator_index = validator_index;
  start_epoch = start_epoch;
  end_epoch = end_epoch;
  reward = 0;
  max_reward = 0;
  max_attestation_reward = 0;
  max_sync_committee_reward = 0;
  base_reward = 0;
  in_sync_committee_count = 0;
  sync_committee_participations_included = 0;
  attestations_included = 0;
  missing_source_count = 0;
  missing_target_count = 0;
  missing_head_count = 0;
  proposer_api_reward = 0;
  proposer_manual_reward = 0;
  inclusion_delay_sum = 0;
}

-- `if flag { count++ }` on a `uint16`.
abbrev pub count_if : Bool → ℕ → ℕ
count_if flag count = if flag then (count + 1) % 65536 else count

-- `reward` is an `int64` and `inclusion_delay` an `int`, as their bit patterns.
unfoldable pub aggregate :
    ValidatorRewardsAggregation → ValidatorRewards → ValidatorRewardsAggregation
unfolding add64
aggregate f val_rewards = record {
  validator_index = f.validator_index;
  start_epoch = f.start_epoch;
  end_epoch = f.end_epoch;
  reward = add64 f.reward val_rewards.reward;
  max_reward = add64 f.max_reward val_rewards.max_reward;
  max_attestation_reward = add64 f.max_attestation_reward val_rewards.attestation_reward;
  max_sync_committee_reward = add64 f.max_sync_committee_reward val_rewards.sync_committee_reward;
  base_reward = add64 f.base_reward val_rewards.base_reward;
  in_sync_committee_count = count_if val_rewards.in_sync_committee f.in_sync_committee_count;
  sync_committee_participations_included =
      (f.sync_committee_participations_included
        + val_rewards.sync_committee_participations_included)
      % 65536;
  attestations_included = count_if val_rewards.attestation_included f.attestations_included;
  missing_source_count = count_if val_rewards.missing_source f.missing_source_count;
  missing_target_count = count_if val_rewards.missing_target f.missing_target_count;
  missing_head_count = count_if val_rewards.missing_head f.missing_head_count;
  proposer_api_reward = add64 f.proposer_api_reward val_rewards.proposer_api_reward;
  proposer_manual_reward = add64 f.proposer_manual_reward val_rewards.proposer_manual_reward;
  inclusion_delay_sum =
      (f.inclusion_delay_sum + val_rewards.inclusion_delay % 4294967296) % 4294967296;
}
