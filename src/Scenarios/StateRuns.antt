-- ===== src/Scenarios/StateRuns.antt =====
-- The theorems on the transitions and the rewards of blocks at a small analyzer.
use goteth.Common.{
  some_inj, ℕ, suc, ◌%◌, ◌≡◌, refl, sym, ap, true, false, none, some, List, [], ◌∷◌, map, get_elem?,
  arith, u64_mod,
}
use goteth.Spec.Block.{AgnosticBlock}
use goteth.Spec.State.{AgnosticState}
use goteth.Relay.Bids.{BidTrace, SlotBids, get_bids_at_slot}
use goteth.Analyzer.Services.{ChainAnalyzer, Services, epoch_page}
use goteth.Analyzer.States.{epoch_duties}
use goteth.Analyzer.States.Duties.{epoch_duties-proposed}
use goteth.Analyzer.States.BlockRewards.{get_single_block_rewards}
use goteth.Analyzer.States.Delivered.{get_single_block_rewards-matching}
use goteth.Analyzer.States.Transition.{process_state_transition_metrics}
use goteth.Analyzer.States.Transition.Frees.{process_state_transition_metrics-frees}
use goteth.Analyzer.States.Transition.Incomplete.{KeepsRoot, process_state_transition_metrics-early}
use goteth.Scenarios.Fixtures.{state, block}
use goteth.Scenarios.AnalyzerFixtures.{
  book-HasRoom, services, analyzer, book, complete, measuring, state_metrics,
}

-- Everything is written for the epoch 301.
abbrev after_transition : ChainAnalyzer
after_transition = elim (process_state_transition_metrics (measuring complete) analyzer 301) [
  | none ↦ analyzer
  | some t ↦ t
]

transition_run :
    process_state_transition_metrics (measuring complete) analyzer 301 ≡ some after_transition
unfolding process_state_transition_metrics goteth.Analyzer.Services.Waits.acquire
    goteth.Utils.RoutineBook.receive goteth.Utils.RoutineBook.set_page epoch_page
    goteth.Analyzer.Services.Waits.wait_until_inactive goteth.Utils.RoutineBook.check_page_active
    goteth.Analyzer.States.Transition.wait_back goteth.Analyzer.Services.Waits.wait_state
    goteth.Analyzer.AgnosticMap.find goteth.Analyzer.States.Transition.empty_state_root
    goteth.Analyzer.States.Transition.process_complete goteth.Analyzer.States.process_epoch_duties
    goteth.Analyzer.States.process_val_last_status goteth.Analyzer.States.Transition.share_states
    goteth.Analyzer.States.BlockRewards.process_block_rewards
    goteth.Analyzer.States.process_epoch_metrics goteth.Analyzer.Aggregation.add_rewards
    goteth.Analyzer.Aggregation.aggregate_epoch goteth.Analyzer.Aggregation.flush
    goteth.Analyzer.Aggregation.taken goteth.Analyzer.AgnosticMap.put
    goteth.Analyzer.Blocks.Process.recover_block_receipts goteth.Analyzer.Blocks.share_block
    goteth.Analyzer.Services.Waits.release goteth.Analyzer.Services.Waits.wait_key
    goteth.Analyzer.Services.slot_page goteth.Analyzer.States.BlockRewards.block_rewards
    goteth.Analyzer.States.BlockRewards.deliver goteth.Analyzer.States.BlockRewards.delivered
    get_single_block_rewards goteth.Analyzer.States.Rewards.collect_rewards
    goteth.Analyzer.States.Rewards.is_left_out
    goteth.Analyzer.States.Rewards.process_epoch_val_rewards
    goteth.Analyzer.States.Transition.empty_state goteth.Analyzer.States.Transition.process_bundle
    goteth.Analyzer.States.Transition.process_states goteth.Analyzer.States.Transition.shut_down
    goteth.Analyzer.States.Transition.store_all epoch_duties goteth.Analyzer.States.last_status
    goteth.Analyzer.States.last_statuses goteth.Analyzer.States.process_pool_metrics
    goteth.Analyzer.States.process_slashings goteth.Analyzer.States.proposed_by_slot
    goteth.Analyzer.States.store_consolidation_requests
    goteth.Analyzer.States.store_consolidations_processed
    goteth.Analyzer.States.store_deposit_requests goteth.Analyzer.States.store_deposits_processed
    goteth.Analyzer.States.store_withdrawal_requests goteth.Analyzer.States.write_or_die
    goteth.Analyzer.States.write_rows goteth.Common.add64 goteth.Common.mul64 goteth.Common.sub64
    goteth.Relay.Bids.bids_of get_bids_at_slot goteth.Spec.Block.Fees.base_fee
    goteth.Spec.Block.Fees.block_gas_fees goteth.Spec.Block.Fees.gas_fees_from
    goteth.Spec.Block.Fees.is_skipped goteth.Spec.Block.Fees.priority_fee
    goteth.Spec.Block.Transactions.find_receipt
    goteth.Spec.Block.Transactions.parse_transaction_from_receipt
    goteth.Spec.Block.Transactions.parse_transactions
    goteth.Spec.Block.Transactions.parse_transactions_from_block goteth.Spec.Rewards.aggregate
    goteth.Spec.Rewards.new_validator_rewards_aggregation goteth.Spec.State.Status.get_val_status
    goteth.Spec.State.Status.status_at goteth.Spec.Validator.is_active
    goteth.Utils.RoutineBook.free_page goteth.Utils.RoutineBook.remove
transition_run = refl

process_state_transition_metrics-frees_example : after_transition.processer_book ≡ book
process_state_transition_metrics-frees_example =
    process_state_transition_metrics-frees (measuring complete) analyzer after_transition 301
      (book-HasRoom (epoch_page 301)) transition_run

-- The analyzer starts in epoch 300; the metrics put the states that they are given in the bundle.
abbrev starting : ChainAnalyzer
starting = record analyzer { init_slot = 9600 }

abbrev bundling : Services
bundling = record services {
  state_metrics_by_fork_version = λ n c p.
      some (state_metrics (record complete { prev_state = p; current_state = c; next_state = n }));
}

bundling-KeepsRoot : KeepsRoot bundling
bundling-KeepsRoot n c p b e = ap (λ x. x.metrics_base.prev_state.state_root) (sym (some_inj e))

abbrev after_early : ChainAnalyzer
after_early = elim (process_state_transition_metrics bundling starting 301) [
  | none ↦ starting
  | some t ↦ t
]

early_run : process_state_transition_metrics bundling starting 301 ≡ some after_early
unfolding process_state_transition_metrics goteth.Analyzer.Services.Waits.acquire
    goteth.Utils.RoutineBook.receive goteth.Utils.RoutineBook.set_page epoch_page
    goteth.Analyzer.Services.Waits.wait_until_inactive goteth.Utils.RoutineBook.check_page_active
    goteth.Analyzer.States.Transition.wait_back goteth.Analyzer.Services.Waits.wait_state
    goteth.Analyzer.AgnosticMap.find goteth.Analyzer.States.Transition.empty_state_root
    goteth.Analyzer.Services.Waits.release goteth.Utils.RoutineBook.free_page
    goteth.Analyzer.States.Transition.share_states
early_run = refl

process_state_transition_metrics-early_example : after_early.calls ≡ []
process_state_transition_metrics-early_example =
    process_state_transition_metrics-early bundling starting after_early 301 bundling-KeepsRoot
      (omega arith) early_run

-- The validator 3 has the duty of slot 9632, after one that missed.
abbrev on_duty : AgnosticState
on_duty = record state {
  epoch = 301;
  blocks = record block { slot = 9631; proposed = false } ∷ block ∷ [];
  epoch_structs = record {
    proposer_duties =
        record { slot = 9631; validator_index = 2 }
        ∷ record { slot = 9632; validator_index = 3 }
        ∷ [];
    beacon_committees = [];
    validator_att_slot = λ _. 0;
  };
}

epoch_duties-proposed_example :
    get_elem? (epoch_duties on_duty) 1
    ≡ some (record { val_idx = 3; proposer_slot = 9632; proposed = true })
epoch_duties-proposed_example =
    epoch_duties-proposed on_duty (record block { slot = 9631; proposed = false } ∷ []) [] block
      (record { slot = 9632; validator_index = 3 }) 1 refl refl refl refl

-- Two relays delivered the block of slot 9632, a third another block.
abbrev bid : ℕ → ℕ → ℕ × BidTrace
bid relay hash = (relay, record { slot = 9632; block_hash = hash; builder_pubkey = 40; value = 6 })

abbrev bids : SlotBids
bids = bid 70 0 ∷ bid 71 8 ∷ bid 72 0 ∷ []

get_single_block_rewards-matching_example :
    let row = get_single_block_rewards block (some ((9632, bids) ∷ [])) in
    (row.relays ≡ 70 ∷ 72 ∷ [])
    × (row.builder_pubkeys ≡ 40 ∷ 40 ∷ [])
    × (row.bid_commision ≡ 6 % u64_mod)
unfolding get_bids_at_slot goteth.Analyzer.AgnosticMap.find
get_single_block_rewards-matching_example =
    get_single_block_rewards-matching block (some ((9632, bids) ∷ []))
