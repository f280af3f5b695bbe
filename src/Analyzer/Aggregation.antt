-- ===== src/Analyzer/Aggregation.antt =====
-- pkg/analyzer/process_state.go, `processEpochValRewards` from line 298 on: the aggregation of the
-- rewards of the validators over windows of epochs, under its mutex.
pub mod Window
pub mod Rows
pub mod Run
use goteth.Common.{
  ℕ, ◌+◌, ◌≡◌, Bool, true, false, not, ◌&&◌, List, [], ◌∷◌, ◌++◌, ◌==◌, ltb, leb, if◌then◌else◌,
  add64, sub64, elem, length, loop,
}
use goteth.Spec.Slots.{epoch_at_slot}
use goteth.Spec.Rewards.{
  ValidatorRewards, ValidatorRewardsAggregation, new_validator_rewards_aggregation, aggregate,
}

-- The fields of `ChainAnalyzer` that the aggregation uses. The map of the rows is a list, each row
-- with its key; the set of epochs is a list without repetition. `persisted` holds what the calls of
-- the database wrote, the last call first; a call that fails ends the program.
pub record Aggregator : Type 0 where
  pub rewards_aggregation_epochs : ℕ
  pub start_epoch_aggregation : ℕ
  pub end_epoch_aggregation : ℕ
  pub validators_rewards_aggregations : List ValidatorRewardsAggregation
  pub aggregated_epochs_in_window : List ℕ
  pub persisted : List (List ValidatorRewardsAggregation)

-- The window of an analyzer of historical slots, and of one that follows the head once it has filled
-- the gap: both set it from the first slot.
unfoldable pub new_aggregator : ℕ → ℕ → Aggregator
unfolding add64 sub64 epoch_at_slot
new_aggregator init_slot rewards_aggregation_epochs =
    let start = add64 (epoch_at_slot init_slot) 2 in
    record {
      rewards_aggregation_epochs = rewards_aggregation_epochs;
      start_epoch_aggregation = start;
      end_epoch_aggregation = add64 start (sub64 rewards_aggregation_epochs 1);
      validators_rewards_aggregations = [];
      aggregated_epochs_in_window = [];
      persisted = [];
    }

-- The round of the loop: a new row where the validator has none, and the aggregation into its row.
unfoldable pub add_rewards :
    ℕ → ℕ → List ValidatorRewardsAggregation → ValidatorRewards → List ValidatorRewardsAggregation
add_rewards start_epoch end_epoch [] rewards =
    aggregate (new_validator_rewards_aggregation rewards.validator_index start_epoch end_epoch)
      rewards
    ∷ []
add_rewards start_epoch end_epoch (row ∷ rows) rewards =
    let rest = add_rewards start_epoch end_epoch rows rewards in
    if row.validator_index == rewards.validator_index
    then aggregate row rewards ∷ rows
    else row ∷ rest

abbrev pub is_empty : List ValidatorRewardsAggregation → Bool
is_empty [] = true
is_empty (_ ∷ _) = false

unfoldable pub flush : Aggregator → Aggregator
unfolding add64
flush s = record s {
  persisted =
      if is_empty s.validators_rewards_aggregations
      then s.persisted
      else s.validators_rewards_aggregations ∷ s.persisted;
  validators_rewards_aggregations = [];
  start_epoch_aggregation = add64 s.end_epoch_aggregation 1;
  end_epoch_aggregation = add64 s.end_epoch_aggregation s.rewards_aggregation_epochs;
  aggregated_epochs_in_window = [];
}

abbrev pub in_window : Aggregator → ℕ → Bool
in_window s epoch = leb s.start_epoch_aggregation epoch && leb epoch s.end_epoch_aggregation

unfoldable pub taken : Aggregator → ℕ → List ValidatorRewards → Aggregator
unfolding add_rewards
taken s epoch insert_vals = record s {
  validators_rewards_aggregations =
      loop (add_rewards s.start_epoch_aggregation s.end_epoch_aggregation)
        s.validators_rewards_aggregations insert_vals;
  aggregated_epochs_in_window = epoch ∷ s.aggregated_epochs_in_window;
}

unfoldable pub aggregate_epoch : Aggregator → ℕ → List ValidatorRewards → Aggregator
unfolding flush taken
aggregate_epoch s epoch insert_vals =
    if ltb 1 s.rewards_aggregation_epochs
    then (if in_window s epoch && not (elem epoch s.aggregated_epochs_in_window)
        then (if leb s.rewards_aggregation_epochs (length (epoch ∷ s.aggregated_epochs_in_window))
            then flush (taken s epoch insert_vals)
            else taken s epoch insert_vals)
        else s)
    else s
