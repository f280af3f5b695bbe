-- ===== src/Metrics/Electra/Pending.antt =====
-- pkg/spec/metrics/state_electra.go: the queue of pending consolidations, replayed for the records
-- (`processPendingConsolidations`) and for the rewards (`processConsolidationsForRewardCalculation`),
-- and the excess of validators that switched to compounding credentials.
pub mod Flow
use goteth.Common.{
  ℕ, zero, suc, ◌≡◌, Bool, true, false, ◌&&◌, Option, none, some, List, [], ◌∷◌, ◌++◌, ◌==◌, ltb,
  ◌>>=◌, if◌then◌else◌, get_elem?, add64, sub64, length,
}
use goteth.Spec.Constants.{
  eth1_address_withdrawal_prefix, compounding_withdrawal_prefix, min_activation_balance,
}
use goteth.Spec.Slots.{uint64_min}
use goteth.Spec.Validator.{Validator}
use goteth.Spec.State.{AgnosticState, GweiMap, bump, PendingConsolidation, ConsolidationProcessed}

-- What the loop does with an entry of the queue: skip a slashed source, stop at a source that is not
-- withdrawable yet, or move the smaller of the balance and the effective balance.
pub data Verdict : Type 0 where
  skip stop : Verdict
  move : ℕ → Verdict

-- An index out of bounds panics.
unfoldable pub verdict : AgnosticState → ℕ → PendingConsolidation → Option Verdict
unfolding uint64_min
verdict s next_epoch c = get_elem? s.validators c.source_index >>= λ source.
    if source.slashed
    then some skip
    else if ltb next_epoch source.withdrawable_epoch
    then some stop
    else get_elem? s.balances c.source_index
      >>= (λ balance. some (move (uint64_min balance source.effective_balance)))

abbrev pub processed : AgnosticState → ℕ → PendingConsolidation → ℕ → Bool → ConsolidationProcessed
processed s index c amount valid = record {
  epoch = s.epoch;
  index = index;
  source_index = c.source_index;
  target_index = c.target_index;
  consolidated_amount = amount;
  valid = valid;
}

unfoldable pub process_pending_from :
    ℕ → ℕ → List PendingConsolidation → AgnosticState → Option AgnosticState
unfolding bump
process_pending_from next_epoch index [] s = some s
process_pending_from next_epoch index (c ∷ rest) s = verdict s next_epoch c >>= λ v. elim v [
  | skip ↦ process_pending_from next_epoch (suc index) rest (record s {
    consolidations_processed = s.consolidations_processed ++ processed s index c 0 false ∷ [];
  })
  | stop ↦ some s
  | move amount ↦ process_pending_from next_epoch (suc index) rest (record s {
    consolidated_amounts = bump s.consolidated_amounts c.target_index amount;
    consolidations_processed = s.consolidations_processed ++ processed s index c amount true ∷ [];
    consolidations_processed_amount = add64 s.consolidations_processed_amount amount;
  })
]

unfoldable pub process_pending_consolidations : AgnosticState → Option AgnosticState
unfolding process_pending_from
process_pending_consolidations s =
    process_pending_from (add64 s.epoch 1) 0 s.pending_consolidations s

unfoldable pub consolidate_rewards_from :
    ℕ → List PendingConsolidation → AgnosticState → Option AgnosticState
unfolding bump
consolidate_rewards_from next_epoch [] s = some s
consolidate_rewards_from next_epoch (c ∷ rest) s = verdict s next_epoch c >>= λ v. elim v [
  | skip ↦ consolidate_rewards_from next_epoch rest s
  | stop ↦ some s
  | move amount ↦ consolidate_rewards_from next_epoch rest (record s {
    consolidated_amounts = bump s.consolidated_amounts c.target_index amount;
    consolidated_out_amounts = bump s.consolidated_out_amounts c.source_index amount;
  })
]

unfoldable pub process_consolidations_for_reward_calculation : AgnosticState → Option AgnosticState
unfolding consolidate_rewards_from
process_consolidations_for_reward_calculation current =
    consolidate_rewards_from (add64 current.epoch 1) current.pending_consolidations current

-- The loop runs over the validators that both states have; `i` is the index of the heads.
unfoldable pub restructure_from :
    ℕ → List Validator → List Validator → AgnosticState → Option AgnosticState
unfolding bump sub64
restructure_from i (c ∷ cs) (n ∷ ns) s =
    (if c.withdrawal_prefix == eth1_address_withdrawal_prefix
        && n.withdrawal_prefix == compounding_withdrawal_prefix
      then get_elem? s.balances i >>= (λ balance. some (
          if ltb min_activation_balance balance
          then (record s {
            consolidated_out_amounts =
                bump s.consolidated_out_amounts i (sub64 balance min_activation_balance);
          })
          else s))
      else some s)
    >>= λ t. restructure_from (suc i) cs ns t
restructure_from i _ _ s = some s

unfoldable pub process_excess_active_balance_restructuring :
    AgnosticState → AgnosticState → Option AgnosticState
unfolding restructure_from
process_excess_active_balance_restructuring current next =
    restructure_from 0 current.validators next.validators current
