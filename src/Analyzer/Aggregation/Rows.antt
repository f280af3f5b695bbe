-- ===== src/Analyzer/Aggregation/Rows.antt =====
-- The rows of the aggregation, one for each validator (pkg/analyzer/process_state.go).
use goteth.Common.{
  ℕ, ◌≡◌, refl, ap, ◌∙◌, Option, none, some, List, [], ◌∷◌, ◌==◌, if◌then◌else◌, loop, arith,
}
use goteth.Spec.Rewards.{
  ValidatorRewards, ValidatorRewardsAggregation, new_validator_rewards_aggregation, aggregate,
}
use goteth.Analyzer.Aggregation.{add_rewards}

abbrev pub row_of : ℕ → List ValidatorRewardsAggregation → Option ValidatorRewardsAggregation
row_of v [] = none
row_of v (row ∷ rows) = if row.validator_index == v then some row else row_of v rows

-- What the map holds for `v`, after one more rewards record.
abbrev pub aggregate_for :
    (start_epoch end_epoch v : ℕ)
    → Option ValidatorRewardsAggregation
    → ValidatorRewards
    → Option ValidatorRewardsAggregation
aggregate_for start_epoch end_epoch v row rewards =
    if rewards.validator_index == v
    then some (
        aggregate
          (elim row [
            | none ↦ new_validator_rewards_aggregation v start_epoch end_epoch
            | some held ↦ held
          ])
          rewards)
    else row

aggregate_index :
    (row : ValidatorRewardsAggregation) (rewards : ValidatorRewards)
    → (aggregate row rewards).validator_index ≡ row.validator_index
unfolding aggregate
aggregate_index row rewards = refl

new_index : (v lo hi : ℕ) → (new_validator_rewards_aggregation v lo hi).validator_index ≡ v
unfolding new_validator_rewards_aggregation
new_index v lo hi = refl

row_of-add_rewards :
    (lo hi v : ℕ) (rows : List ValidatorRewardsAggregation) (rewards : ValidatorRewards)
    → row_of v (add_rewards lo hi rows rewards) ≡ aggregate_for lo hi v (row_of v rows) rewards
unfolding add_rewards
row_of-add_rewards lo hi v [] rewards = ground (
  arith,
  aggregate_index (new_validator_rewards_aggregation rewards.validator_index lo hi) rewards,
  new_index rewards.validator_index lo hi,
)
row_of-add_rewards lo hi v (row ∷ rows) rewards =
    ground (arith, aggregate_index row rewards, row_of-add_rewards lo hi v rows rewards)

-- After the loop over the rewards of an epoch, the row of every validator is what the map held for it,
-- or a new row of the window, aggregated with the records of that validator alone, in their order.
pub row_of-loop :
    (start_epoch end_epoch v : ℕ) (rows : List ValidatorRewardsAggregation)
    (vals : List ValidatorRewards)
    → row_of v (loop (add_rewards start_epoch end_epoch) rows vals)
      ≡ loop (aggregate_for start_epoch end_epoch v) (row_of v rows) vals
row_of-loop start_epoch end_epoch v rows [] = refl
row_of-loop start_epoch end_epoch v rows (x ∷ xs) =
    row_of-loop start_epoch end_epoch v (add_rewards start_epoch end_epoch rows x) xs
    ∙ ap (λ o. loop (aggregate_for start_epoch end_epoch v) o xs)
        (row_of-add_rewards start_epoch end_epoch v rows x)
