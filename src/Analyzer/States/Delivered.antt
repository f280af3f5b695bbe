-- ===== src/Analyzer/States/Delivered.antt =====
-- The bids that the relays delivered for a block (pkg/analyzer/process_state.go,
-- `getSingleBlockRewards`).
use goteth.Common.{
  ℕ, ◌%◌, ◌≡◌, ap, ◌∙◌, [], ◌∷◌, ◌++◌, ◌==◌, if◌then◌else◌, loop, map, arith, u64_mod, Option,
}
use mathlib.Core.List.{append-nil, append_assoc}
use goteth.Spec.Block.{AgnosticBlock}
use goteth.Relay.Bids.{SlotBids, RelayBidsPerSlot, get_bids_at_slot}
use goteth.Analyzer.States.BlockRewards.{
  Delivered, no_delivery, deliver, delivered, get_single_block_rewards,
}

-- The bids whose block is that of the slot.
abbrev pub matching : ℕ → SlotBids → SlotBids
matching block_hash [] = []
matching block_hash (bid ∷ bids) =
    if block_hash == bid.1.block_hash
    then bid ∷ matching block_hash bids
    else matching block_hash bids

-- The value of the last one by its low 64 bits, or that at the start.
abbrev pub last_value : ℕ → SlotBids → ℕ
last_value value [] = value
last_value value (bid ∷ bids) = last_value (bid.1.value % u64_mod) bids

abbrev append_delivered : Delivered → SlotBids → Delivered
append_delivered d bids = record {
  bid_commision = last_value d.bid_commision bids;
  relay_addresses = d.relay_addresses ++ map (λ bid. bid.0) bids;
  builder_pubkeys = d.builder_pubkeys ++ map (λ bid. bid.1.builder_pubkey) bids;
}

loop-deliver :
    (block_hash : ℕ) (d : Delivered) (bids : SlotBids)
    → loop (deliver block_hash) d bids ≡ append_delivered d (matching block_hash bids)
unfolding deliver
loop-deliver block_hash d [] =
    ground (arith, append-nil d.relay_addresses, append-nil d.builder_pubkeys)
loop-deliver block_hash d (bid ∷ bids) =
    loop-deliver block_hash (deliver block_hash d bid) bids
    ∙ ground (
      arith,
      append_assoc d.relay_addresses (bid.0 ∷ []) (map (λ b. b.0) (matching block_hash bids)),
      append_assoc d.builder_pubkeys (bid.1.builder_pubkey ∷ [])
          (map (λ b. b.1.builder_pubkey) (matching block_hash bids)),
    )

-- The relays and the builders of a block are those of the bids of its slot whose block has its hash, in
-- the order of the bids, and the commission is the value of the last of them by its low 64 bits; without
-- such a bid both lists are empty and the commission is 0.
pub get_single_block_rewards-matching :
    (block : AgnosticBlock) (mev_bids : Option RelayBidsPerSlot)
    → let bids =
        matching block.execution_payload.block_hash (get_bids_at_slot mev_bids block.slot) in
      let row = get_single_block_rewards block mev_bids in
      (row.relays ≡ map (λ b. b.0) bids)
      × (row.builder_pubkeys ≡ map (λ b. b.1.builder_pubkey) bids)
      × (row.bid_commision ≡ last_value 0 bids)
unfolding get_single_block_rewards delivered
get_single_block_rewards-matching block mev_bids =
    let hash = block.execution_payload.block_hash in
    let all = loop-deliver hash no_delivery (get_bids_at_slot mev_bids block.slot) in
    (
      ap (λ d. d.relay_addresses) all,
      ap (λ d. d.builder_pubkeys) all,
      ap (λ d. d.bid_commision) all,
    )
