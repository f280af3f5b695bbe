-- ===== src/Scenarios/RelayRuns.antt =====
-- The theorems on the relays, the metrics that are asked for and the database at small values.
use goteth.Common.{
  ℕ, ◌+◌, ◌-◌, ◌≤◌, ◌<◌, ◌≡◌, refl, Bool, true, false, ◌&&◌, none, some, List, [], ◌∷◌, leb, length,
  if◌then◌else◌, arith,
}
use goteth.Spec.State.{AgnosticSlashing, ConsolidationProcessed, proposer_slashing}
use goteth.Analyzer.AgnosticMap.{find}
use goteth.Analyzer.Services.{DbMetrics, ProposerDutyRow}
use goteth.Relay.Bids.{BidTrace, new_relay_bids_per_slot, get_bids_at_slot}
use goteth.Relay.Breaker.{
  RelayClient, get_delivered_bids, breaker_of, next_breaker, passes,
  get_delivered_bids-next_breaker,
}
use goteth.Relay.Monitor.{Answers, add_all, get_delivered_bids_per_slot_range}
use goteth.Relay.Monitor.Range.{
  last_bid, of_address, add_all-last_bid, get_delivered_bids_per_slot_range-in_range,
}
use goteth.Config.Metrics.{new_metrics, needs_met, new_metrics-needs_met}

-- Two failures in a row, and a third.
abbrev failing : RelayClient
failing = record { address = 70; consecutive_fail = 2; open_until = 0 }

get_delivered_bids-next_breaker_example :
    (breaker_of (get_delivered_bids 1000 2000 failing none).0
      ≡ next_breaker 1000 2000 (breaker_of failing) none)
    × ((get_delivered_bids 1000 2000 failing none).1
        ≡ (if passes 1000 (breaker_of failing) then none else none))
    × ((get_delivered_bids 1000 2000 failing none).0.address ≡ 70)
get_delivered_bids-next_breaker_example = get_delivered_bids-next_breaker 1000 2000 failing none

abbrev bid : ℕ → ℕ → BidTrace
bid slot value = record { slot = slot; block_hash = 8; builder_pubkey = 9; value = value }

-- The relay 70 adds two bids for the slot 9632, with one of the relay 71 between them.
abbrev adds : List (ℕ × BidTrace)
adds = (70, bid 9632 5) ∷ (71, bid 9632 6) ∷ (70, bid 9632 7) ∷ []

add_all-last_bid_example :
    find 70 (get_bids_at_slot (some (add_all new_relay_bids_per_slot adds)) 9632)
    ≡ last_bid none 70 9632 (of_address 70 adds)
add_all-last_bid_example = add_all-last_bid adds 70 9632

-- The relay gives a bid of slot 9600 as well, below the range.
abbrev answers : Answers
answers = record {
  now = λ _. 1000;
  later = λ _. 2000;
  delivered_bulk_bid_trace = λ _ _ _. some (bid 9632 7 ∷ bid 9600 8 ∷ []);
}

range_run :
    find 70 (
      get_bids_at_slot
        (some (get_delivered_bids_per_slot_range answers (failing ∷ []) 9663 32).1)
        9632)
    ≡ some (bid 9632 7)
unfolding find get_bids_at_slot get_delivered_bids_per_slot_range get_delivered_bids
    goteth.Relay.Monitor.requested goteth.Relay.Monitor.in_range goteth.Common.sub64
    goteth.Analyzer.AgnosticMap.put
range_run = refl

get_delivered_bids_per_slot_range-in_range_example :
    ((bid 9632 7).slot ≡ 9632) × (32 ≤ 9663) × (9663 - 32 < 9632) × (9632 ≤ 9663)
get_delivered_bids_per_slot_range-in_range_example =
    get_delivered_bids_per_slot_range-in_range answers (failing ∷ []) 9663 32 70 9632 (bid 9632 7)
      (omega arith) (omega arith) range_run

abbrev rewards_metrics : DbMetrics
rewards_metrics = record {
  block = true;
  epoch = true;
  validator_rewards = true;
  api_rewards = false;
  transactions = true;
  blob_sidecars = false;
}

metrics_run : new_metrics "rewards,transactions" ≡ some rewards_metrics
unfolding new_metrics
metrics_run = refl

new_metrics-needs_met_example : needs_met rewards_metrics ≡ true
new_metrics-needs_met_example =
    new_metrics-needs_met "rewards,transactions" rewards_metrics metrics_run

abbrev duties : List ProposerDutyRow
duties =
    record { val_idx = 3; proposer_slot = 9632; proposed = true }
    ∷ record { val_idx = 1; proposer_slot = 9633; proposed = false }
    ∷ []

abbrev slashed : List AgnosticSlashing
slashed =
    record {
      slashed_validator = 2;
      slashed_by = 3;
      slashing_reason = proposer_slashing;
      slot = 9632;
      epoch = 301;
      valid = true;
    }
    ∷ []

abbrev consolidated : List ConsolidationProcessed
consolidated =
    record {
      epoch = 301;
      index = 0;
      source_index = 1;
      target_index = 3;
      consolidated_amount = 32000000000;
      valid = true;
    }
    ∷ []
