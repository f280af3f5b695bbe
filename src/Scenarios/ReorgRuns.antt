-- ===== src/Scenarios/ReorgRuns.antt =====
-- The theorems on the checks of final blocks and on reorganisations at a small analyzer.
use goteth.Common.{
  sym, ap, some_inj, map, range_from, inl, ◌/◌, ℕ, ◌+◌, ◌-◌, ◌≤◌, ◌<◌, ◌≡◌, refl, Bool, true, false,
  ◌&&◌, ◌||◌, none, some, List, [], ◌∷◌, ◌++◌, leb, elem, ◌==◌, arith,
}
use goteth.Spec.Block.{AgnosticBlock}
use goteth.Analyzer.Services.{ChainAnalyzer, Services}
use goteth.Analyzer.Reorg.{Step, go_on, stop_at, Checked, check_blocks}
use goteth.Analyzer.Reorg.Advance.Stale.{any_differs, cached_root, check_blocks-stale}
use goteth.Analyzer.Reorg.Handle.{ChainReorgEvent, Handled, handle_reorg}
use goteth.Analyzer.Reorg.Handle.Reach.{handle_reorg-reach}
use goteth.Analyzer.Reorg.{ensure_dependency_states}
use goteth.Analyzer.Reorg.Ensured.{AnswersSlots, ensure_dependency_states-available}
use goteth.Analyzer.AgnosticMap.{available}
use goteth.Scenarios.Fixtures.{block, state}
use goteth.Scenarios.AnalyzerFixtures.{services, analyzer}

-- The node has another root for the slot 9633.
abbrev after_check : Checked
after_check = elim (check_blocks services analyzer false (9632 ∷ 9633 ∷ [])) [
  | none ↦ (analyzer, false)
  | some (stop_at s) ↦ (s, false)
  | some (go_on c) ↦ c
]

check_run : check_blocks services analyzer false (9632 ∷ 9633 ∷ []) ≡ some (go_on after_check)
unfolding check_blocks goteth.Analyzer.Services.Waits.wait_block goteth.Analyzer.AgnosticMap.find
    goteth.Analyzer.Blocks.Process.process_block goteth.Analyzer.Services.Waits.acquire
    goteth.Utils.RoutineBook.receive goteth.Utils.RoutineBook.set_page
    goteth.Analyzer.Services.slot_page goteth.Analyzer.Blocks.process_eth1_data
    goteth.Analyzer.Blocks.process_withdrawals goteth.Analyzer.Blocks.process_receipts
    goteth.Analyzer.Blocks.process_transactions
    goteth.Spec.Block.Transactions.parse_transactions_from_block
    goteth.Analyzer.Blocks.process_eth1_deposits goteth.Analyzer.Blocks.deposits_of_transactions
    goteth.Analyzer.Services.Waits.release goteth.Utils.RoutineBook.free_page
    goteth.Analyzer.Blocks.Process.process_waited goteth.Analyzer.Blocks.deposit_row
    goteth.Analyzer.Blocks.deposit_rows goteth.Analyzer.Blocks.deposits_of_logs
    goteth.Analyzer.Blocks.has_event goteth.Analyzer.Blocks.is_deposit_log
    goteth.Analyzer.Blocks.process_blob_sidecars goteth.Analyzer.Blocks.process_blobs
    goteth.Analyzer.Blocks.process_bls_to_execution_changes goteth.Analyzer.Blocks.process_deposits
    goteth.Analyzer.Blocks.share_block goteth.Analyzer.Blocks.version_rank
    goteth.Analyzer.Reorg.check_root goteth.Analyzer.Services.Waits.wait_key
    goteth.Spec.Block.Transactions.find_receipt goteth.Spec.Block.Transactions.get_tx_hash
    goteth.Spec.Block.Transactions.little_endian
    goteth.Spec.Block.Transactions.parse_eth1_deposit_from_log
    goteth.Spec.Block.Transactions.parse_transaction_from_receipt
    goteth.Spec.Block.Transactions.parse_transactions goteth.Spec.Slots.epoch_at_slot
    goteth.Utils.RoutineBook.remove
check_run = refl

check_blocks-stale_example :
    (after_check.1 ≡ (false || any_differs services analyzer (9632 ∷ 9633 ∷ [])))
    × ((slot : ℕ) → cached_root after_check.0 slot ≡ cached_root analyzer slot)
check_blocks-stale_example =
    check_blocks-stale services analyzer false (9632 ∷ 9633 ∷ []) after_check check_run

-- A reorganisation of one slot below the head: three slots are handled.
abbrev blocks : List (ℕ × AgnosticBlock)
blocks =
    (9630, record block { slot = 9630 })
    ∷ (9631, record block { slot = 9631 })
    ∷ (9632, block)
    ∷ (9633, record block { slot = 9633 })
    ∷ []

abbrev reorganised : ChainAnalyzer
reorganised = record analyzer {
  download_cache = record (analyzer.download_cache) {
    block_history = record { entries = blocks; subs = []; gone = []; received = [] };
  };
}

abbrev reorg : ChainReorgEvent
reorg = record { slot = 9632; depth = 0 }

abbrev handled : Handled
handled = elim (handle_reorg services reorganised reorg) [
  | none ↦ (reorganised, 0)
  | some (stop_at s) ↦ (s, 0)
  | some (go_on done) ↦ done
]

handled_run : handle_reorg services reorganised reorg ≡ some (go_on handled)
unfolding handle_reorg goteth.Analyzer.Services.Waits.wait_block
    goteth.Analyzer.Services.Waits.wait_key goteth.Analyzer.AgnosticMap.find
    goteth.Analyzer.Services.Waits.wait_until_inactive goteth.Analyzer.Download.download_block
    goteth.Analyzer.Download.take_epoch_boundary_state_root goteth.Analyzer.ChainCache.add_new_block
    goteth.Analyzer.ChainCache.add_new_state goteth.Analyzer.AgnosticMap.set_key
    goteth.Analyzer.AgnosticMap.waiting goteth.Analyzer.AgnosticMap.get_key_list
    goteth.Analyzer.AgnosticMap.keys goteth.Analyzer.AgnosticMap.put
    goteth.Analyzer.AgnosticMap.forget goteth.Analyzer.Services.Waits.wait_state
    goteth.Analyzer.Download.download_state goteth.Analyzer.States.Transition.shut_down
    goteth.Analyzer.Services.slot_page goteth.Analyzer.Services.epoch_page
    goteth.Utils.RoutineBook.check_page_active goteth.Common.add64 goteth.Common.sub64
handled_run = refl

handle_reorg-reach_example : (handled.1 + 0 < 9632) × (handled.1 ≤ 9633)
handle_reorg-reach_example =
    handle_reorg-reach services reorg reorganised (record block { slot = 9633 }) handled
      (omega arith) refl handled_run

-- The state of the epoch 301 is missing, the blocks are there.
abbrev quiet : ℕ → AgnosticBlock
quiet slot = record block {
  slot = slot;
  deposits = [];
  sync_committee_bits = [];
  execution_payload = record (block.execution_payload) { withdrawals = [] };
}

abbrev evicted : ChainAnalyzer
evicted = record analyzer {
  init_slot = 9632;
  download_cache = record (analyzer.download_cache) {
    state_history = record { entries = (300, state) ∷ []; subs = []; gone = []; received = [] };
    block_history = record {
      entries = map (λ slot. (slot, quiet slot)) (range_from 9632 32);
      subs = [];
      gone = [];
      received = [];
    };
  };
  epoch_boundary_state_roots = [];
}

abbrev answering : Services
answering = record services {
  request_beacon_state = λ slot. some (record state { epoch = slot / 32 });
}

answering-AnswersSlots : AnswersSlots answering
answering-AnswersSlots = record {
  by_slot = λ slot s e. sym (ap (λ x. x.epoch) (some_inj e));
  by_root = λ _ _ _ s e. absurd (cc);
}

abbrev ensured : ChainAnalyzer
ensured = elim (ensure_dependency_states answering evicted 301) [ none ↦ evicted | some t ↦ t ]

ensured_run : ensure_dependency_states answering evicted 301 ≡ some ensured
unfolding ensure_dependency_states goteth.Analyzer.Reorg.dependencies available
    goteth.Analyzer.AgnosticMap.find goteth.Analyzer.ChainCache.slots_of goteth.Common.mul64
    goteth.Analyzer.Download.download_state goteth.Analyzer.ChainCache.add_new_state
    goteth.Analyzer.ChainCache.collect goteth.Common.sub64 goteth.Common.add64
    goteth.Spec.State.Blocks.add_blocks goteth.Spec.State.Blocks.calculate_withdrawals
    goteth.Spec.State.Blocks.add_block_withdrawals goteth.Analyzer.AgnosticMap.set_key
    goteth.Analyzer.AgnosticMap.waiting
ensured_run = refl

ensure_dependency_states-available_example :
    available ensured.download_cache.state_history 301 ≡ true
unfolding ensure_dependency_states goteth.Analyzer.Reorg.dependencies available
    goteth.Analyzer.AgnosticMap.find goteth.Analyzer.ChainCache.slots_of goteth.Common.mul64
    goteth.Analyzer.Download.download_state goteth.Analyzer.ChainCache.add_new_state
    goteth.Analyzer.ChainCache.collect goteth.Common.sub64 goteth.Common.add64
    goteth.Spec.State.Blocks.add_blocks goteth.Spec.State.Blocks.calculate_withdrawals
    goteth.Spec.State.Blocks.add_block_withdrawals goteth.Analyzer.AgnosticMap.set_key
    goteth.Analyzer.AgnosticMap.waiting
ensure_dependency_states-available_example =
    ensure_dependency_states-available answering answering-AnswersSlots evicted ensured 301 301 refl
      (omega arith) ensured_run refl (inl refl) (omega arith)
