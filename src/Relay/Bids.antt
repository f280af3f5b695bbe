-- ===== src/Relay/Bids.antt =====
-- pkg/relay/relay_bid_trace.go: the bids that the relays delivered, by slot and by relay. The map of
-- maps is a list of slots, each with the list of its relays; `mu` makes each operation atomic.
use goteth.Common.{ℕ, Option, none, some, List, []}
use goteth.Analyzer.AgnosticMap.{find, put}

-- `value` is a number of wei of any size; roots and keys are the numbers that their bytes spell.
pub record BidTrace : Type 0 where
  pub slot : ℕ
  pub block_hash : ℕ
  pub builder_pubkey : ℕ
  pub value : ℕ

abbrev pub SlotBids : Type 0
SlotBids = List (ℕ × BidTrace)

abbrev pub RelayBidsPerSlot : Type 0
RelayBidsPerSlot = List (ℕ × SlotBids)

unfoldable pub new_relay_bids_per_slot : RelayBidsPerSlot
new_relay_bids_per_slot = []

-- The inner map of a slot, empty where there is none.
unfoldable pub bids_of : RelayBidsPerSlot → ℕ → SlotBids
bids_of bids slot = elim (find slot bids) [ none ↦ [] | some slot_bids ↦ slot_bids ]

unfoldable pub add_bid : ℕ → RelayBidsPerSlot → BidTrace → RelayBidsPerSlot
unfolding bids_of
add_bid address bids bid = put bid.slot (put address bid (bids_of bids bid.slot)) bids

-- A nil receiver, `none`, has no bids.
unfoldable pub get_bids_at_slot : Option RelayBidsPerSlot → ℕ → SlotBids
unfolding bids_of
get_bids_at_slot none slot = []
get_bids_at_slot (some bids) slot = bids_of bids slot
