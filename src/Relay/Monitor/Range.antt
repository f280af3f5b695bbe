-- ===== src/Relay/Monitor/Range.antt =====
-- What is in the map of bids after the routines of all relays, in whatever order they added.
use goteth.Common.{
  ℕ, ◌-◌, ◌≤◌, ◌<◌, ◌≡◌, refl, sym, ap, ◌∙◌, true, Option, none, some, List, [], ◌∷◌, ◌++◌, ◌==◌,
  if◌then◌else◌, sub64, u64_mod, arith, map, Bool-cases, ◌⊎◌, inl, inr,
}
use goteth.Analyzer.AgnosticMap.{find, put}
use goteth.Analyzer.AgnosticMap.Waiting.{find-put}
use goteth.Relay.Bids.{
  BidTrace, RelayBidsPerSlot, bids_of, add_bid, get_bids_at_slot, new_relay_bids_per_slot,
}
use goteth.Relay.Breaker.{RelayClient}
use goteth.Relay.Monitor.{
  add_all, additions, additions_of, requested, in_range, query, Answers,
  get_delivered_bids_per_slot_range,
}

-- The last bid of the slot that the relay with the address added, in a sequence of additions.
abbrev pub last_bid : Option BidTrace → ℕ → ℕ → List (ℕ × BidTrace) → Option BidTrace
last_bid old address slot [] = old
last_bid old address slot (add ∷ adds) =
    last_bid (if slot == add.1.slot then (if address == add.0 then some add.1 else old) else old)
      address slot adds

-- The additions of one relay, in their order.
abbrev pub of_address : ℕ → List (ℕ × BidTrace) → List (ℕ × BidTrace)
of_address address [] = []
of_address address (add ∷ adds) =
    if address == add.0 then add ∷ of_address address adds else of_address address adds

last_bid-of_address :
    (old : Option BidTrace) (address slot : ℕ) (adds : List (ℕ × BidTrace))
    → last_bid old address slot (of_address address adds) ≡ last_bid old address slot adds
last_bid-of_address old address slot [] = refl
last_bid-of_address old address slot (add ∷ adds) = ground (
  arith,
  last_bid-of_address old address slot adds,
  last_bid-of_address (some add.1) address slot adds,
)

bids_of-add_bid :
    (address slot from : ℕ) (bids : RelayBidsPerSlot) (bid : BidTrace)
    → find address (bids_of (add_bid from bids bid) slot) ≡ (
        if slot == bid.slot
        then (if address == from then some bid else find address (bids_of bids slot))
        else find address (bids_of bids slot))
unfolding bids_of add_bid
bids_of-add_bid address slot from bids bid = ground (
  arith,
  find-put bid.slot slot (put from bid (bids_of bids bid.slot)) bids,
  find-put from address bid (bids_of bids bid.slot),
)

find-add_all :
    (bids : RelayBidsPerSlot) (adds : List (ℕ × BidTrace)) (address slot : ℕ)
    → find address (bids_of (add_all bids adds) slot)
      ≡ last_bid (find address (bids_of bids slot)) address slot adds
unfolding add_all
find-add_all bids [] address slot = refl
find-add_all bids (add ∷ adds) address slot =
    find-add_all (add_bid add.0 bids add.1) adds address slot
    ∙ ap (λ old. last_bid old address slot adds) (bids_of-add_bid address slot add.0 bids add.1)

-- After any sequence of additions by the routines of the relays, the bid of a relay in a slot is the
-- last one that this relay added for the slot: how the routines take turns does not matter.
pub add_all-last_bid :
    (adds : List (ℕ × BidTrace)) (address slot : ℕ)
    → find address (get_bids_at_slot (some (add_all new_relay_bids_per_slot adds)) slot)
      ≡ last_bid none address slot (of_address address adds)
unfolding get_bids_at_slot new_relay_bids_per_slot bids_of find
add_all-last_bid adds address slot =
    find-add_all [] adds address slot ∙ sym (last_bid-of_address none address slot adds)

-- Of the additions of a query, each lies in the requested range.
data AllInRange (slot limit : ℕ) : List (ℕ × BidTrace) → Type 0 where
  range_nil : AllInRange slot limit []
  range_cons :
      {add : ℕ × BidTrace} {adds : List (ℕ × BidTrace)}
      → in_range slot limit add.1 ≡ true
      → AllInRange slot limit adds
      → AllInRange slot limit (add ∷ adds)

module _ (slot limit : ℕ) where
  AllInRange-append :
      {xs ys : List (ℕ × BidTrace)}
      → AllInRange slot limit xs
      → AllInRange slot limit ys
      → AllInRange slot limit (xs ++ ys)
  AllInRange-append range_nil q = q
  AllInRange-append (range_cons h p) q = range_cons h (AllInRange-append p q)

  requested-AllInRange :
      (address : ℕ) (bids : List BidTrace)
      → AllInRange slot limit (map (λ bid. (address, bid)) (requested slot limit bids))
  unfolding requested
  requested-AllInRange address [] = range_nil
  requested-AllInRange address (bid ∷ bids) =
      let rest = requested-AllInRange address bids in
      elim (Bool-cases (in_range slot limit bid)) [
        | inl h ↦ rw h (range_cons h rest)
        | inr h ↦ rw h rest
      ]

  additions_of-AllInRange :
      (r : RelayClient) (answer : Option (List BidTrace))
      → AllInRange slot limit (additions_of slot limit (r, answer))
  additions_of-AllInRange r none = range_nil
  additions_of-AllInRange r (some bids) = requested-AllInRange r.address bids

  additions-AllInRange :
      (a : Answers) (relays : List RelayClient)
      → AllInRange slot limit (additions a slot limit relays)
  unfolding additions
  additions-AllInRange a [] = range_nil
  additions-AllInRange a (r ∷ relays) =
      AllInRange-append (additions_of-AllInRange (query a slot limit r).0 (query a slot limit r).1)
        (additions-AllInRange a relays)

  last_bid-in_range :
      (old : Option BidTrace) (address slot' : ℕ) {adds : List (ℕ × BidTrace)}
      → AllInRange slot limit adds
      → (bid : BidTrace) → last_bid old address slot' adds ≡ some bid
      → (old ≡ some bid) ⊎ ((bid.slot ≡ slot') × (in_range slot limit bid ≡ true))
  last_bid-in_range old address slot' range_nil bid e = inl e
  last_bid-in_range old address slot' (range_cons {add} {adds} h p) bid e = ground (
    arith,
    last_bid-in_range old address slot' p bid,
    last_bid-in_range (some add.1) address slot' p bid,
    h,
    e,
  )

-- A bid that the monitor gives for a slot is a bid of that slot, above `slot - limit` and up to
-- `slot`, both `uint64`s; below the limit, where the lower end wraps around, it gives none at all.
pub get_delivered_bids_per_slot_range-in_range :
    (a : Answers) (relays : List RelayClient) (slot limit address slot' : ℕ) (bid : BidTrace)
    → slot < u64_mod
    → limit ≤ u64_mod
    → find address
        (get_bids_at_slot (some (get_delivered_bids_per_slot_range a relays slot limit).1) slot')
      ≡ some bid
    → (bid.slot ≡ slot') × (limit ≤ slot) × (slot - limit < bid.slot) × (bid.slot ≤ slot)
unfolding get_delivered_bids_per_slot_range get_bids_at_slot new_relay_bids_per_slot bids_of find
    in_range sub64
get_delivered_bids_per_slot_range-in_range a relays slot limit address slot' bid h k e = ground (
  arith,
  last_bid-in_range slot limit none address slot' (additions-AllInRange slot limit a relays) bid
      (sym (find-add_all [] (additions a slot limit relays) address slot') ∙ e),
)
