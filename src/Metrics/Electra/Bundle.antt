-- ===== src/Metrics/Electra/Bundle.antt =====
-- pkg/spec/metrics/state_electra.go: the deposit requests of the blocks, and the part of
-- `PreProcessBundle` that replays what the epoch transition does to balances.
pub mod Reprocessing
use goteth.Common.{ℕ, Option, none, some, List, [], ◌∷◌, ◌++◌, loop, ◌>>=◌}
use goteth.Spec.Block.{AgnosticBlock, DepositRequestMessage}
use goteth.Spec.State.{AgnosticState, DepositRequest}
use goteth.Metrics.{StateMetricsBase}
use goteth.Metrics.Electra.Pending.{
  process_pending_consolidations, process_consolidations_for_reward_calculation,
  process_excess_active_balance_restructuring,
}
use goteth.Metrics.Electra.Deposits.{
  process_pending_deposits, process_deposits_for_reward_calculation,
}

abbrev pub deposit_request : AgnosticBlock → DepositRequestMessage → DepositRequest
deposit_request block d = record {
  slot = block.slot;
  pubkey = d.pubkey;
  withdrawal_credentials = d.withdrawal_credentials;
  amount = d.amount;
  signature = d.signature;
  index = d.index;
}

unfoldable pub add_deposit_requests : List DepositRequest → AgnosticBlock → List DepositRequest
add_deposit_requests requests block = elim block.execution_requests [
  | none ↦ requests
  | some r ↦ loop (λ rs d. rs ++ deposit_request block d ∷ []) requests r.deposits
]

unfoldable pub process_deposit_requests : StateMetricsBase → StateMetricsBase
process_deposit_requests p = record p {
  next_state = record (p.next_state) {
    deposit_requests = loop add_deposit_requests p.next_state.deposit_requests p.next_state.blocks;
  };
}

-- The maps of the current state start empty, since the state objects are used again.
unfoldable pub clear_maps : AgnosticState → AgnosticState
clear_maps s = record s {
  consolidated_amounts = λ _. 0;
  consolidated_out_amounts = λ _. 0;
  deposited_amounts = λ _. 0;
}

-- The three replays on the current state.
unfoldable pub replay_balances : AgnosticState → AgnosticState → Option AgnosticState
replay_balances current next =
    process_excess_active_balance_restructuring (clear_maps current) next >>= λ s.
    process_consolidations_for_reward_calculation s
    >>= (λ t. some (process_deposits_for_reward_calculation t next))

unfoldable pub pre_process_balances : StateMetricsBase → Option StateMetricsBase
pre_process_balances p =
    let next = process_pending_deposits p.next_state in
    replay_balances p.current_state next >>= λ current.
    process_pending_consolidations next
    >>= (λ next'. some (record p { current_state = current; next_state = next' }))
