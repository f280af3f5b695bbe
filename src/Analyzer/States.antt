-- ===== src/Analyzer/States.antt =====
-- pkg/analyzer/process_state.go: what is written for the states of three epochs. `none` is a
-- `log.Fatal`, a panic, or a wait for another routine.
pub mod Rewards
pub mod Duties
pub mod Delivered
pub mod BlockRewards
pub mod Transition
use goteth.Common.{
  ℕ, suc, ◌+◌, ◌-◌, ◌≤◌, ◌<◌, ◌≡◌, refl, sym, ap, ◌∙◌, Bool, true, false, Option, none, some, List,
  [], ◌∷◌, ◌==◌, if◌then◌else◌, loop, ◌>>=◌, get_elem?, length, map, range_from, arith,
}
use goteth.Spec.Validator.{Validator}
use goteth.Spec.Block.{AgnosticBlock}
use goteth.Spec.State.{
  AgnosticState, ProposerDuty, ConsolidationProcessed, WithdrawalRequest, ConsolidationRequest,
  DepositRequest, AgnosticSlashing, Deposit,
}
use goteth.Spec.State.Status.{get_val_status}
use goteth.Metrics.{StateMetricsBase}
use goteth.Analyzer.Services.{
  ChainAnalyzer, Services, Call, ProposerDutyRow, ValidatorLastStatus, DownloadMode, historical,
  finalized, other, write, persist_slashings, persist_deposits, persist_consolidations_processed,
  persist_withdrawal_requests, persist_consolidation_requests, persist_deposit_requests,
  persist_epochs, insert_pool_summary, persist_duties, persist_val_last_status,
  delete_val_last_status,
}

-- A call with the rows, unless there are none.
unfoldable pub write_rows : {A : Type 0} → (List A → Call) → ChainAnalyzer → List A → ChainAnalyzer
write_rows persist s [] = s
write_rows persist s (row ∷ rows) = write s (persist (row ∷ rows))

unfoldable pub process_slashings : ChainAnalyzer → StateMetricsBase → ChainAnalyzer
unfolding write_rows
process_slashings s base = write_rows persist_slashings s base.next_state.slashings

unfoldable pub store_deposits_processed : ChainAnalyzer → StateMetricsBase → ChainAnalyzer
unfolding write_rows
store_deposits_processed s base = write_rows persist_deposits s base.next_state.deposits_processed

unfoldable pub store_consolidations_processed : ChainAnalyzer → StateMetricsBase → ChainAnalyzer
unfolding write_rows
store_consolidations_processed s base =
    write_rows persist_consolidations_processed s base.next_state.consolidations_processed

unfoldable pub store_withdrawal_requests : ChainAnalyzer → StateMetricsBase → ChainAnalyzer
unfolding write_rows
store_withdrawal_requests s base =
    write_rows persist_withdrawal_requests s base.next_state.withdrawal_requests

unfoldable pub store_consolidation_requests : ChainAnalyzer → StateMetricsBase → ChainAnalyzer
unfolding write_rows
store_consolidation_requests s base =
    write_rows persist_consolidation_requests s base.next_state.consolidation_requests

unfoldable pub store_deposit_requests : ChainAnalyzer → StateMetricsBase → ChainAnalyzer
unfolding write_rows
store_deposit_requests s base =
    write_rows persist_deposit_requests s base.next_state.deposit_requests

unfoldable pub process_epoch_metrics : ChainAnalyzer → StateMetricsBase → ChainAnalyzer
process_epoch_metrics s base = write s (persist_epochs base)

-- A call whose failure ends the program.
unfoldable pub write_or_die : Services → ChainAnalyzer → Call → Option ChainAnalyzer
write_or_die v s call = if v.fails call then none else some (write s call)

unfoldable pub process_pool_metrics : Services → ChainAnalyzer → ℕ → Option ChainAnalyzer
unfolding write_or_die
process_pool_metrics v s epoch = write_or_die v s (insert_pool_summary epoch)

-- The map of the slots, false where it has no key: the last block of a slot counts.
unfoldable pub proposed_by_slot : List AgnosticBlock → ℕ → Bool
proposed_by_slot blocks =
    loop {S = ℕ → Bool} (λ m block slot. if slot == block.slot then block.proposed else m slot)
      (λ _. false) blocks

abbrev pub duty_row : (ℕ → Bool) → ProposerDuty → ProposerDutyRow
duty_row proposed item = record {
  val_idx = item.validator_index;
  proposer_slot = item.slot;
  proposed = proposed item.slot;
}

unfoldable pub epoch_duties : AgnosticState → List ProposerDutyRow
unfolding proposed_by_slot
epoch_duties next_state =
    map (duty_row (proposed_by_slot next_state.blocks)) next_state.epoch_structs.proposer_duties

unfoldable pub process_epoch_duties :
    Services → ChainAnalyzer → StateMetricsBase → Option ChainAnalyzer
unfolding write_or_die
process_epoch_duties v s base = write_or_die v s (persist_duties (epoch_duties base.next_state))

-- A validator without a balance is a read out of range.
unfoldable pub last_status : AgnosticState → ℕ → Validator → Option ValidatorLastStatus
last_status next_state val_idx validator = get_elem? next_state.balances val_idx >>= λ balance.
    some (record {
      val_idx = val_idx;
      epoch = next_state.epoch;
      current_balance = balance;
      effective_balance = validator.effective_balance;
      current_status = get_val_status next_state val_idx;
      slashed = validator.slashed;
      activation_epoch = validator.activation_epoch;
      withdrawal_epoch = validator.withdrawable_epoch;
      exit_epoch = validator.exit_epoch;
      public_key = validator.public_key;
      withdrawal_prefix = validator.withdrawal_prefix;
      withdrawal_address = validator.withdrawal_address;
    })

unfoldable pub last_statuses :
    AgnosticState → ℕ → List Validator → Option (List ValidatorLastStatus)
unfolding last_status
last_statuses next_state i [] = some []
last_statuses next_state i (validator ∷ validators) = do
  status ← last_status next_state i validator
  statuses ← last_statuses next_state (suc i) validators
  some (status ∷ statuses)

-- The rows of the epoch are written, then those of other epochs are deleted.
abbrev pub replace_statuses : ChainAnalyzer → ℕ → List ValidatorLastStatus → ChainAnalyzer
replace_statuses s epoch [] = s
replace_statuses s epoch (status ∷ statuses) =
    write (write s (persist_val_last_status (status ∷ statuses))) (delete_val_last_status epoch)

abbrev pub is_finalized : DownloadMode → Bool
is_finalized historical = false
is_finalized finalized = true
is_finalized other = false

unfoldable pub process_val_last_status : ChainAnalyzer → StateMetricsBase → Option ChainAnalyzer
unfolding last_statuses
process_val_last_status s base =
    if is_finalized s.download_mode
    then (last_statuses base.next_state 0 base.next_state.validators >>= λ statuses.
        some (replace_statuses s base.next_state.epoch statuses))
    else some s
