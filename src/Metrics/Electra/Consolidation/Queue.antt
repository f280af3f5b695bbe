-- ===== src/Metrics/Electra/Consolidation/Queue.antt =====
-- What the consolidation requests of an epoch do to the queue and to the list of exiting
-- validators (pkg/spec/metrics/state_electra.go).
use goteth.Common.{
  ℕ, suc, ◌≡◌, ◌≢◌, ◌≤◌, ◌⊎◌, inl, inr, false, Option, none, some, List, [], ◌∷◌, ◌++◌, length,
  elem, Distinct, Distinct-append, loop_inv, arith, length-append, Option-cases, ap, ◌∙◌,
}
use goteth.Spec.Constants.{pending_consolidations_limit}
use goteth.Spec.Validator.{Validator}
use goteth.Spec.Block.{AgnosticBlock, ConsolidationRequestMessage}
use goteth.Spec.State.{AgnosticState}
use goteth.Metrics.{StateMetricsBase}
use goteth.Metrics.Electra.Consolidation.{
  PubkeyLookup, look_up, consolidate, with_validators, process_found, process_consolidation_request,
  RequestsPass, process_block_requests, process_block_consolidations,
  process_consolidation_requests,
}

-- What a request may do to the state: nothing, or append one validator that is not yet exiting to
-- the list, and one entry to a queue that is not full.
pub data Effect (p : AgnosticState) : AgnosticState → Type 0 where
  unchanged : {q : AgnosticState} → q ≡ p → Effect p q
  accepted :
      {q : AgnosticState} (index : ℕ)
      → elem index p.new_exiting_validators ≡ false
      → q.new_exiting_validators ≡ p.new_exiting_validators ++ index ∷ []
      → length q.pending_consolidations ≡ suc (length p.pending_consolidations)
      → length p.pending_consolidations ≢ pending_consolidations_limit
      → Effect p q

module _ (state : AgnosticState) (request : ConsolidationRequestMessage) where
  consolidate-cases :
      (index : ℕ) (source target : Validator)
      → ((consolidate state request index source target).0 ≡ state)
        ⊎ ((elem index state.new_exiting_validators ≡ false)
            × ((consolidate state request index source target).0.new_exiting_validators
                ≡ state.new_exiting_validators ++ index ∷ [])
            × (length (consolidate state request index source target).0.pending_consolidations
                ≡ suc (length state.pending_consolidations)))
  unfolding consolidate
  consolidate-cases index source target = ground (
    arith,
    length-append state.pending_consolidations
        ((record { source_index = 0; target_index = 0 }) ∷ []),
  )

  found-cases :
      (found : PubkeyLookup)
      → ((process_found state request found).0 ≡ state)
        ⊎ ((length state.pending_consolidations ≢ pending_consolidations_limit)
            × ((process_found state request found).0
                ≡ (with_validators state request found.source found.target).0))
  unfolding process_found
  found-cases found = ground arith

  with_validators-Effect :
      (q : AgnosticState) (source : Option (ℕ × Validator)) (target : Option Validator)
      → length state.pending_consolidations ≢ pending_consolidations_limit
      → q ≡ (with_validators state request source target).0
      → Effect state q
  unfolding with_validators
  with_validators-Effect q none target open' e = unchanged e
  with_validators-Effect q (some (i, s)) none open' e = unchanged e
  with_validators-Effect q (some (i, s)) (some t) open' e = elim (consolidate-cases i s t) [
    | inl same ↦ unchanged (e ∙ same)
    | inr (fresh, list, queue) ↦
        accepted i fresh (ap (λ (r : AgnosticState). r.new_exiting_validators) e ∙ list)
          (ap (λ (r : AgnosticState). length r.pending_consolidations) e ∙ queue) open'
  ]

  -- A request leaves the state as it was, or it appends to a queue that is not full and to the list
  -- of exiting validators one that is not in it.
  pub process_consolidation_request-Effect :
      Effect state (process_consolidation_request state request).0
  unfolding process_consolidation_request
  process_consolidation_request-Effect =
      let found = look_up request 0 state.validators (record { source = none; target = none }) in
      elim (found-cases found) [
        | inl same ↦ unchanged same
        | inr (open', e) ↦ with_validators-Effect _ found.source found.target open' e
      ]

-- A predicate that every request keeps holds of the current state after all blocks.
module _ {ℓ} (P : AgnosticState → Type ℓ)
    (keep : (s : AgnosticState) (r : ConsolidationRequestMessage)
      → P s
      → P (process_consolidation_request s r).0) where
  block_inv :
      (block : AgnosticBlock) (i : ℕ) (rs : List ConsolidationRequestMessage) (pass : RequestsPass)
      → P pass.state
      → P (process_block_requests block i rs pass).state
  unfolding process_block_requests
  block_inv block i [] pass p = p
  block_inv block i (r ∷ rs) pass p = block_inv block (suc i) rs _ (keep pass.state r p)

  blocks_inv :
      (pass : RequestsPass) (block : AgnosticBlock)
      → P pass.state
      → P (process_block_consolidations pass block).state
  unfolding process_block_consolidations
  blocks_inv pass block p = elim (Option-cases block.execution_requests) [
    | inl e ↦ rw (e, process_block_consolidations) p
    | inr (r, e) ↦ rw (e, process_block_consolidations) (block_inv block 0 r.consolidations pass p)
  ]

  pub requests_inv :
      (p : StateMetricsBase)
      → P p.current_state
      → P (process_consolidation_requests p).current_state
  unfolding process_consolidation_requests
  requests_inv p h =
      loop_inv (λ (pass : RequestsPass). P pass.state) process_block_consolidations blocks_inv
        (record { state = p.current_state; requests = [] }) p.next_state.blocks h

-- The queue within its limit, and no validator exiting twice.
pub record QueueValid (p : AgnosticState) : Type 0 where
  pub bounded : length p.pending_consolidations ≤ pending_consolidations_limit
  pub distinct : Distinct p.new_exiting_validators

Effect-QueueValid : {p q : AgnosticState} → Effect p q → QueueValid p → QueueValid q
Effect-QueueValid (unchanged e) v = rw e v
Effect-QueueValid {p} (accepted i fresh list queue open') v = record {
  bounded = omega (arith, v.bounded);
  distinct = rw list (Distinct-append p.new_exiting_validators i v.distinct fresh);
}

-- However many requests the blocks hold, the queue of pending consolidations stays within its limit
-- and no validator enters the list of exiting validators twice.
pub process_consolidation_requests-QueueValid :
    (p : StateMetricsBase)
    → QueueValid p.current_state
    → QueueValid (process_consolidation_requests p).current_state
process_consolidation_requests-QueueValid p v =
    requests_inv QueueValid
      (λ s r k. Effect-QueueValid (process_consolidation_request-Effect s r) k) p v
