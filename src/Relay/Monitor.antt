-- ===== src/Relay/Monitor.antt =====
-- pkg/relay/relay_bid_trace.go, `RelaysMonitor`: all relays are asked at once, each by a routine of its
-- own, and the bids of the requested slots are put together.
pub mod Range
use Prim.Native.String.{String}
use goteth.Common.{
  ℕ, Bool, true, false, ◌&&◌, Option, none, some, List, [], ◌∷◌, ◌++◌, ltb, leb, if◌then◌else◌,
  sub64, loop, map, ◌>>=◌,
}
use goteth.Relay.Constants.{get_network_relays}
use goteth.Relay.Bids.{BidTrace, RelayBidsPerSlot, new_relay_bids_per_slot, add_bid}
use goteth.Relay.Breaker.{RelayClient, get_delivered_bids}

-- `connect` is the client of the relay library: the number that stands for the address, or an error.
unfoldable pub new : (String → Option ℕ) → String → Option RelayClient
new connect address = connect address >>= λ client.
    some (record { address = client; consecutive_fail = 0; open_until = 0 })

unfoldable pub connect_all : (String → Option ℕ) → List String → Option (List RelayClient)
unfolding new
connect_all connect [] = some []
connect_all connect (item ∷ items) = do
  relay_client ← new connect item
  relay_clients ← connect_all connect items
  some (relay_client ∷ relay_clients)

unfoldable pub init_relays_monitorer : (String → Option ℕ) → ℕ → Option (List RelayClient)
unfolding connect_all get_network_relays
init_relays_monitorer connect genesis_time = connect_all connect (get_network_relays genesis_time)

-- Slots are `uint64`: the lower end wraps around below the limit.
unfoldable pub in_range : ℕ → ℕ → BidTrace → Bool
in_range slot limit bid = ltb (sub64 slot limit) bid.slot && leb bid.slot slot

-- The bids of one relay that are added, in order; its answer is `none` where it fails.
unfoldable pub requested : ℕ → ℕ → List BidTrace → List BidTrace
requested slot limit [] = []
requested slot limit (bid ∷ bids) =
    if in_range slot limit bid then bid ∷ requested slot limit bids else requested slot limit bids

-- The additions of one relay, each with its address.
abbrev pub additions_of : ℕ → ℕ → RelayClient × Option (List BidTrace) → List (ℕ × BidTrace)
additions_of slot limit (r, none) = []
additions_of slot limit (r, some bids) = map (λ bid. (r.address, bid)) (requested slot limit bids)

-- What the relay with an address answers, and the times at which a routine asks and is answered.
pub record Answers : Type 0 where
  pub now : ℕ → ℕ
  pub later : ℕ → ℕ
  pub delivered_bulk_bid_trace : ℕ → ℕ → ℕ → Option (List BidTrace)

unfoldable pub query : Answers → ℕ → ℕ → RelayClient → RelayClient × Option (List BidTrace)
query a slot limit r =
    get_delivered_bids (a.now r.address) (a.later r.address) r
      (a.delivered_bulk_bid_trace r.address slot limit)

-- The additions of all relays, in the order of the relays.
unfoldable pub additions : Answers → ℕ → ℕ → List RelayClient → List (ℕ × BidTrace)
additions a slot limit [] = []
additions a slot limit (r ∷ relays) =
    additions_of slot limit (query a slot limit r) ++ additions a slot limit relays

unfoldable pub add_all : RelayBidsPerSlot → List (ℕ × BidTrace) → RelayBidsPerSlot
unfolding add_bid
add_all bids adds = loop (λ b add. add_bid add.0 b add.1) bids adds

-- The clients after the query, and the bids; the error of the source is always nil.
unfoldable pub get_delivered_bids_per_slot_range :
    Answers → List RelayClient → ℕ → ℕ → List RelayClient × RelayBidsPerSlot
unfolding query additions add_all new_relay_bids_per_slot
get_delivered_bids_per_slot_range a relays slot limit = (
  map (λ r. (query a slot limit r).0) relays,
  add_all new_relay_bids_per_slot (additions a slot limit relays),
)
