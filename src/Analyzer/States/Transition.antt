-- ===== src/Analyzer/States/Transition.antt =====
-- pkg/analyzer/process_state.go, `ProcessStateTransitionMetrics`: the transition to an epoch, from the
-- states of the epoch and of the two before it. The metrics change the states that they are given:
-- the states that the bundle holds replace those of the cache.
pub mod Book
pub mod Frees
pub mod Incomplete
use goteth.Common.{
  ℕ, suc, ◌-◌, ◌/◌, ◌≡◌, Bool, true, false, not, ◌&&◌, Option, none, some, List, [], ◌∷◌, ◌==◌, leb,
  if◌then◌else◌, ◌>>=◌,
}
use goteth.Spec.Constants.{slots_per_epoch}
use goteth.Spec.State.{AgnosticState, unknown}
use goteth.Metrics.{StateMetricsBase}
use goteth.Analyzer.AgnosticMap.{put}
use goteth.Analyzer.Services.{ChainAnalyzer, Services, StateMetrics, epoch_page}
use goteth.Analyzer.Services.Waits.{
  Waited, got, ended, wait_state, acquire, release, wait_until_inactive,
}
use goteth.Analyzer.States.{
  process_slashings, store_deposits_processed, store_consolidations_processed,
  store_withdrawal_requests, store_consolidation_requests, store_deposit_requests,
  process_epoch_metrics, process_pool_metrics, process_epoch_duties, process_val_last_status,
}
use goteth.Analyzer.States.Rewards.{process_epoch_val_rewards}
use goteth.Analyzer.States.BlockRewards.{process_block_rewards}

-- `&spec.AgnosticState{}`.
unfoldable pub empty_state : AgnosticState
empty_state = record {
  version = unknown;
  genesis_timestamp = 0;
  state_root = 0;
  epoch = 0;
  slot = 0;
  balances = [];
  validators = [];
  total_active_balance = 0;
  total_active_real_balance = 0;
  attesting_balance = [];
  epoch_structs = record {
    proposer_duties = [];
    beacon_committees = [];
    validator_att_slot = λ _. 0;
  };
  prev_epoch_correct_flags = [];
  prev_attestations = [];
  validator_attestation_included = [];
  num_attestations = 0;
  num_active_vals = 0;
  num_exited_vals = 0;
  num_slashed_vals = 0;
  num_queued_vals = 0;
  block_roots = [];
  missed_blocks = [];
  sync_committee_pubkeys = [];
  blocks = [];
  withdrawals = [];
  withdrawals_num = 0;
  total_withdrawals_amount = 0;
  deposits = [];
  deposits_num = 0;
  total_deposits_amount = 0;
  current_justified_checkpoint = record { epoch = 0; root = 0 };
  current_finalized_checkpoint = record { epoch = 0; root = 0 };
  latest_block_header_slot = none;
  sync_committee_participation = 0;
  new_proposer_slashings = 0;
  new_attester_slashings = 0;
  slashings = [];
  consolidation_requests = [];
  withdrawal_requests = [];
  deposit_requests = [];
  pending_consolidations = [];
  pending_partial_withdrawals = [];
  consolidations_processed = [];
  consolidations_processed_amount = 0;
  new_exiting_validators = [];
  consolidated_amounts = λ _. 0;
  consolidated_out_amounts = λ _. 0;
  pending_deposits = [];
  deposits_processed = [];
  deposited_amounts = λ _. 0;
  deposit_balance_to_consume = 0;
  eth1_deposit_index = 0;
  deposit_requests_start_index = 0;
}

-- `EmptyStateRoot` (pkg/spec/state.go).
unfoldable pub empty_state_root : AgnosticState → Bool
empty_state_root state = state.state_root == 0

-- Whether the state `back` epochs before is waited for: the ones below the first slot never come.
abbrev pub is_loaded : ChainAnalyzer → ℕ → ℕ → Bool
is_loaded s epoch back = leb back epoch && leb (s.init_slot / slots_per_epoch) (epoch - back)

unfoldable pub wait_back : ChainAnalyzer → ℕ → ℕ → Option (Waited AgnosticState)
wait_back s epoch back =
    if is_loaded s epoch back then wait_state s (epoch - back) else some (got empty_state)

abbrev pub put_state : ChainAnalyzer → ℕ → AgnosticState → ChainAnalyzer
put_state s epoch state = record s {
  download_cache = record (s.download_cache) {
    state_history = record (s.download_cache.state_history) {
      entries = put epoch state s.download_cache.state_history.entries;
    };
  };
}

abbrev pub put_back : ChainAnalyzer → ℕ → ℕ → AgnosticState → ChainAnalyzer
put_back s epoch back state = if is_loaded s epoch back then put_state s (epoch - back) state else s

unfoldable pub share_states : ChainAnalyzer → ℕ → StateMetricsBase → ChainAnalyzer
share_states s epoch base =
    put_back (put_back (put_state s epoch base.next_state) epoch 1 base.current_state) epoch 2
      base.prev_state

abbrev pub is_complete : StateMetricsBase → Bool
is_complete base =
    not (empty_state_root base.next_state)
    && not (empty_state_root base.current_state)
    && not (empty_state_root base.prev_state)

abbrev pub process_val_rewards : Services → ChainAnalyzer → StateMetrics → Option ChainAnalyzer
process_val_rewards v s bundle =
    if s.metrics.validator_rewards then process_epoch_val_rewards v s bundle else some s

unfoldable pub store_all : ChainAnalyzer → StateMetricsBase → ChainAnalyzer
store_all s base =
    store_consolidations_processed
      (store_deposit_requests
        (store_withdrawal_requests
          (store_consolidation_requests (store_deposits_processed (process_slashings s base) base)
            base)
          base)
        base)
      base

-- What is written when the three states are there, in this order.
unfoldable pub process_complete : Services → ChainAnalyzer → StateMetrics → Option ChainAnalyzer
unfolding store_all
process_complete v s bundle = do
  duties ← process_epoch_duties v s bundle.metrics_base
  statuses ← process_val_last_status duties bundle.metrics_base
  blocks ←
      process_block_rewards v (process_epoch_metrics statuses bundle.metrics_base)
        bundle.metrics_base
  rewards ← process_val_rewards v blocks bundle
  process_pool_metrics v (store_all rewards bundle.metrics_base)
      bundle.metrics_base.prev_state.epoch

unfoldable pub shut_down : ChainAnalyzer → ChainAnalyzer
shut_down s = record s { stop = true; cancelled = true }

-- What the metrics of a fork make of the states, or their error.
unfoldable pub process_bundle :
    Services → ChainAnalyzer → ℕ → Option StateMetrics → Option ChainAnalyzer
unfolding shut_down
process_bundle v s epoch none = release s (epoch_page epoch) >>= λ t. some (shut_down t)
process_bundle v s epoch (some bundle) =
    let t = share_states s epoch bundle.metrics_base in
    if is_complete bundle.metrics_base
    then (process_complete v t bundle >>= λ u. release u (epoch_page epoch))
    else release t (epoch_page epoch)

-- A wait that the end of the context breaks frees the page.
abbrev pub with_state :
    ChainAnalyzer
    → ℕ
    → Option (Waited AgnosticState)
    → (AgnosticState → Option ChainAnalyzer)
    → Option ChainAnalyzer
with_state s epoch none k = none
with_state s epoch (some ended) k = release s (epoch_page epoch)
with_state s epoch (some (got state)) k = k state

-- The epoch before is waited for, when there is one.
abbrev pub wait_previous : ChainAnalyzer → ℕ → Option ChainAnalyzer
wait_previous s epoch =
    if leb 1 epoch then wait_until_inactive s (epoch_page (epoch - 1)) else some s

unfoldable pub process_states : Services → ChainAnalyzer → ℕ → Option ChainAnalyzer
unfolding process_bundle
process_states v s epoch = with_state s epoch (wait_back s epoch 2) λ prev_state.
    with_state s epoch (wait_back s epoch 1) λ current_state.
      with_state s epoch (wait_state s epoch) λ next_state.
        process_bundle v s epoch
          (v.state_metrics_by_fork_version next_state current_state prev_state)

unfoldable pub process_state_transition_metrics :
    Services → ChainAnalyzer → ℕ → Option ChainAnalyzer
unfolding process_states
process_state_transition_metrics v s epoch =
    if s.metrics.epoch
    then (acquire s (epoch_page epoch) >>= λ t.
        wait_previous t epoch >>= λ u. process_states v u epoch)
    else some s
