-- ===== src/Metrics/Electra/Consolidation.antt =====
-- pkg/spec/metrics/state_electra.go: `processConsolidationRequest` and the loop over the blocks.
pub mod Eligible
pub mod Queue
pub mod Again
pub mod LookUp
use goteth.Common.{
  ℕ, zero, suc, ◌≡◌, Bool, true, false, not, ◌&&◌, ◌||◌, Option, none, some, List, [], ◌∷◌, ◌++◌,
  ◌==◌, leb, ltb, if◌then◌else◌, length, elem, add64, loop,
}
use goteth.Spec.Constants.{
  far_future_epoch, pending_consolidations_limit, min_activation_balance, shard_committee_period,
}
use goteth.Spec.Validator.{Validator, is_active}
use goteth.Spec.Block.{AgnosticBlock, ConsolidationRequestMessage}
use goteth.Spec.State.{
  AgnosticState, ConsolidationRequestResult, ConsolidationRequest, success, total_balance_too_low,
  queue_full, request_used_as_exit, src_not_found, src_invalid_credentials, src_not_active,
  src_not_old_enough, src_has_pending_withdrawal, src_exit_already_initiated, tgt_not_found,
  tgt_not_compounding, tgt_not_active, tgt_exit_already_initiated,
}
use goteth.Metrics.{StateMetricsBase}
use goteth.Metrics.Electra.{
  has_eth1_withdrawal_credential, has_compounding_withdrawal_credential,
  has_execution_withdrawal_credential, get_consolidation_churn_limit,
  get_pending_balance_to_withdraw,
}

-- The validators with the keys of the request, the source with its index: the last ones that the
-- loop meets.
pub record PubkeyLookup : Type 0 where
  pub source : Option (ℕ × Validator)
  pub target : Option Validator

unfoldable pub look_at : ConsolidationRequestMessage → ℕ → Validator → PubkeyLookup → PubkeyLookup
look_at request index validator found = record {
  source =
      if validator.public_key == request.source_pubkey
      then some (index, validator)
      else found.source;
  target = if validator.public_key == request.target_pubkey then some validator else found.target;
}

unfoldable pub look_up :
    ConsolidationRequestMessage → ℕ → List Validator → PubkeyLookup → PubkeyLookup
unfolding look_at
look_up request index [] found = found
look_up request index (v ∷ vs) found =
    look_up request (suc index) vs (look_at request index v found)

unfoldable pub is_valid_switch_to_compounding_request :
    AgnosticState → ConsolidationRequestMessage → Option (ℕ × Validator) → Bool
is_valid_switch_to_compounding_request state request none = false
is_valid_switch_to_compounding_request state request (some (index, source)) =
    if not (request.source_pubkey == request.target_pubkey)
    then false
    else if not (source.withdrawal_address == request.source_address)
    then false
    else if not (has_eth1_withdrawal_credential source)
    then false
    else if not (is_active source state.epoch)
    then false
    else if not (source.exit_epoch == far_future_epoch)
    then false
    else true

-- The guards once both validators are known; the last branch is the accepted consolidation.
unfoldable pub consolidate :
    AgnosticState
    → ConsolidationRequestMessage
    → ℕ
    → Validator
    → Validator
    → AgnosticState × ConsolidationRequestResult
consolidate state request index source target =
    if not (
      has_execution_withdrawal_credential source
      && source.withdrawal_address == request.source_address)
    then (state, src_invalid_credentials)
    else if not (has_compounding_withdrawal_credential target)
    then (state, tgt_not_compounding)
    else if not (is_active source state.epoch)
    then (state, src_not_active)
    else if not (is_active target state.epoch)
    then (state, tgt_not_active)
    else if not (source.exit_epoch == far_future_epoch) || elem index state.new_exiting_validators
    then (state, src_exit_already_initiated)
    else if not (target.exit_epoch == far_future_epoch)
    then (state, tgt_exit_already_initiated)
    else if ltb state.epoch (add64 source.activation_epoch shard_committee_period)
    then (state, src_not_old_enough)
    else if ltb 0 (get_pending_balance_to_withdraw state index)
    then (state, src_has_pending_withdrawal)
    else (
      record state {
        new_exiting_validators = state.new_exiting_validators ++ index ∷ [];
        pending_consolidations =
            state.pending_consolidations ++ (record { source_index = 0; target_index = 0 }) ∷ [];
      },
      success,
    )

unfoldable pub with_validators :
    AgnosticState
    → ConsolidationRequestMessage
    → Option (ℕ × Validator)
    → Option Validator
    → AgnosticState × ConsolidationRequestResult
unfolding consolidate
with_validators state request none target = (state, src_not_found)
with_validators state request (some (index, source)) none = (state, tgt_not_found)
with_validators state request (some (index, source)) (some target) =
    consolidate state request index source target

-- The guards that need no validator.
unfoldable pub process_found :
    AgnosticState
    → ConsolidationRequestMessage
    → PubkeyLookup
    → AgnosticState × ConsolidationRequestResult
unfolding with_validators is_valid_switch_to_compounding_request
process_found state request found =
    if is_valid_switch_to_compounding_request state request found.source
    then (state, success)
    else if request.source_pubkey == request.target_pubkey
    then (state, request_used_as_exit)
    else if length state.pending_consolidations == pending_consolidations_limit
    then (state, queue_full)
    else if leb (get_consolidation_churn_limit state) min_activation_balance
    then (state, total_balance_too_low)
    else with_validators state request found.source found.target

unfoldable pub process_consolidation_request :
    AgnosticState → ConsolidationRequestMessage → AgnosticState × ConsolidationRequestResult
unfolding process_found
process_consolidation_request state request =
    process_found state request
      (look_up request 0 state.validators (record { source = none; target = none }))

-- The requests of one block, numbered from `i`, and the requests of all blocks.
pub record RequestsPass : Type 0 where
  pub state : AgnosticState
  pub requests : List ConsolidationRequest

unfoldable pub process_block_requests :
    AgnosticBlock → ℕ → List ConsolidationRequestMessage → RequestsPass → RequestsPass
process_block_requests block i [] pass = pass
process_block_requests block i (request ∷ rest) pass =
    let (state, result) = process_consolidation_request pass.state request in
    process_block_requests block (suc i) rest (record {
      state = state;
      requests =
          pass.requests
          ++ (record {
            slot = block.slot;
            index = i;
            source_address = request.source_address;
            source_pubkey = request.source_pubkey;
            target_pubkey = request.target_pubkey;
            result = result;
          })
            ∷ [];
    })

unfoldable pub process_block_consolidations : RequestsPass → AgnosticBlock → RequestsPass
unfolding process_block_requests
process_block_consolidations pass block = elim block.execution_requests [
  | none ↦ pass
  | some r ↦ process_block_requests block 0 r.consolidations pass
]

unfoldable pub process_consolidation_requests : StateMetricsBase → StateMetricsBase
unfolding process_block_consolidations
process_consolidation_requests p =
    let pass : RequestsPass =
      loop process_block_consolidations (record { state = p.current_state; requests = [] })
        p.next_state.blocks in
    record p {
      current_state = pass.state;
      next_state = record (p.next_state) { consolidation_requests = pass.requests };
    }
