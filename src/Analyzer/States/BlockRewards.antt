-- ===== src/Analyzer/States/BlockRewards.antt =====
-- pkg/analyzer/process_state.go, `processBlockRewards`: the rewards of the blocks of the current state.
use goteth.Common.{
  ℕ, ◌%◌, Option, some, List, [], ◌∷◌, ◌++◌, ◌==◌, if◌then◌else◌, ◌>>=◌, loop, u64_mod,
}
use goteth.Spec.Constants.{slots_per_epoch}
use goteth.Spec.Block.{AgnosticBlock}
use goteth.Spec.Block.Fees.{Fees, fees, failed, block_gas_fees}
use goteth.Metrics.{StateMetricsBase}
use goteth.Relay.Bids.{BidTrace, SlotBids, RelayBidsPerSlot, get_bids_at_slot}
use goteth.Analyzer.Services.{
  ChainAnalyzer, Services, BlockReward, slot_page, write, persist_block_rewards,
}
use goteth.Analyzer.Services.Waits.{wait_until_inactive}
use goteth.Analyzer.Blocks.{share_block}
use goteth.Analyzer.Blocks.Process.{recover_block_receipts}

-- What the loop over the bids collects.
pub record Delivered : Type 0 where
  pub bid_commision : ℕ
  pub relay_addresses : List ℕ
  pub builder_pubkeys : List ℕ

abbrev pub no_delivery : Delivered
no_delivery = record { bid_commision = 0; relay_addresses = []; builder_pubkeys = [] }

-- A round of the loop; `Value.Uint64()` keeps the low 64 bits.
unfoldable pub deliver : ℕ → Delivered → ℕ × BidTrace → Delivered
deliver block_hash d (address, bid) =
    if block_hash == bid.block_hash
    then (record {
      bid_commision = bid.value % u64_mod;
      relay_addresses = d.relay_addresses ++ address ∷ [];
      builder_pubkeys = d.builder_pubkeys ++ bid.builder_pubkey ∷ [];
    })
    else d

-- The map is read in an order that the source does not fix: the order of the list.
unfoldable pub delivered : ℕ → SlotBids → Delivered
unfolding deliver
delivered block_hash bids = loop (deliver block_hash) no_delivery bids

-- The fees computed so far are kept with an error.
abbrev pub reward_of : Fees → ℕ
reward_of (fees reward burn) = reward
reward_of (failed reward burn _) = reward

abbrev pub burn_of : Fees → ℕ
burn_of (fees reward burn) = burn
burn_of (failed reward burn _) = burn

unfoldable pub get_single_block_rewards : AgnosticBlock → Option RelayBidsPerSlot → BlockReward
unfolding delivered
get_single_block_rewards block mev_bids =
    let found =
      delivered block.execution_payload.block_hash (get_bids_at_slot mev_bids block.slot) in
    record {
      slot = block.slot;
      cl_manual_reward = block.manual_reward;
      cl_api_reward = block.reward_total;
      reward_fees = reward_of (block_gas_fees block.execution_payload);
      burnt_fees = burn_of (block_gas_fees block.execution_payload);
      relays = found.relay_addresses;
      bid_commision = found.bid_commision;
      builder_pubkeys = found.builder_pubkeys;
    }

-- The loop over the blocks: each waits for the routine of its slot, and may get its receipts.
unfoldable pub block_rewards :
    Services
    → ChainAnalyzer
    → Option RelayBidsPerSlot
    → List AgnosticBlock
    → Option (ChainAnalyzer × List BlockReward)
unfolding get_single_block_rewards
block_rewards v s mev_bids [] = some (s, [])
block_rewards v s mev_bids (block ∷ blocks) = wait_until_inactive s (slot_page block.slot) >>= λ t.
    let recovered = recover_block_receipts v t block in
    block_rewards v (share_block t recovered) mev_bids blocks >>= λ rest.
    some (rest.0, get_single_block_rewards recovered mev_bids ∷ rest.1)

-- An error of the relays is logged, and leaves no bids.
unfoldable pub process_block_rewards :
    Services → ChainAnalyzer → StateMetricsBase → Option ChainAnalyzer
unfolding block_rewards
process_block_rewards v s base =
    block_rewards v s (v.get_delivered_bids base.current_state.slot slots_per_epoch)
      base.current_state.blocks
    >>= λ done. some (write done.0 (persist_block_rewards done.1))
