-- ===== src/Metrics/Electra/Consolidation/Eligible.antt =====
-- When a consolidation request is accepted (pkg/spec/metrics/state_electra.go).
use goteth.Common.{
  ℕ, ◌≡◌, ◌≢◌, ◌≤◌, ◌<◌, ◌⊎◌, ◌↔◌, inl, inr, true, false, Option, none, some, length, elem, add64,
  arith, refl, Bool-cases,
}
use goteth.Spec.Constants.{
  far_future_epoch, pending_consolidations_limit, min_activation_balance, shard_committee_period,
}
use goteth.Spec.Validator.{Validator, is_active}
use goteth.Spec.Block.{ConsolidationRequestMessage}
use goteth.Spec.State.{AgnosticState, success}
use goteth.Metrics.Electra.{
  has_compounding_withdrawal_credential, has_execution_withdrawal_credential,
  get_consolidation_churn_limit, get_pending_balance_to_withdraw,
}
use goteth.Metrics.Electra.Consolidation.{
  PubkeyLookup, look_up, is_valid_switch_to_compounding_request, consolidate, with_validators,
  process_found, process_consolidation_request,
}

-- The conditions of the consensus specification for a consolidation of `source` into `target`.
pub record Consolidates (state : AgnosticState) (request : ConsolidationRequestMessage) (index : ℕ)
    (source target : Validator) : Type 0 where
  pub distinct : request.source_pubkey ≢ request.target_pubkey
  pub queue_open : length state.pending_consolidations ≢ pending_consolidations_limit
  pub enough_churn : min_activation_balance < get_consolidation_churn_limit state
  pub execution : has_execution_withdrawal_credential source ≡ true
  pub authorized : source.withdrawal_address ≡ request.source_address
  pub compounding : has_compounding_withdrawal_credential target ≡ true
  pub source_active : is_active source state.epoch ≡ true
  pub target_active : is_active target state.epoch ≡ true
  pub source_staying : source.exit_epoch ≡ far_future_epoch
  pub not_exiting : elem index state.new_exiting_validators ≡ false
  pub target_staying : target.exit_epoch ≡ far_future_epoch
  pub old_enough : add64 source.activation_epoch shard_committee_period ≤ state.epoch
  pub nothing_pending : get_pending_balance_to_withdraw state index ≡ 0

-- The two ways in which a request succeeds.
abbrev pub Accepted : AgnosticState → ConsolidationRequestMessage → PubkeyLookup → Type 0
Accepted state request found =
    (is_valid_switch_to_compounding_request state request found.source ≡ true)
    ⊎ ((index : ℕ) × (source : Validator) × (target : Validator) × (found.source
          ≡ some (index, source))
        × (found.target ≡ some target)
        × Consolidates state request index source target)

consolidate-Consolidates :
    (state : AgnosticState) (request : ConsolidationRequestMessage) (index : ℕ)
    (source target : Validator)
    → request.source_pubkey ≢ request.target_pubkey
    → length state.pending_consolidations ≢ pending_consolidations_limit
    → min_activation_balance < get_consolidation_churn_limit state
    → (consolidate state request index source target).1 ≡ success
    → Consolidates state request index source target
unfolding consolidate
consolidate-Consolidates state request index source target d q c e = ground arith

consolidate-success :
    (state : AgnosticState) (request : ConsolidationRequestMessage) (index : ℕ)
    (source target : Validator)
    → Consolidates state request index source target
    → (consolidate state request index source target).1 ≡ success
unfolding consolidate
consolidate-success state request index source target k = ground arith

module _ (state : AgnosticState) (request : ConsolidationRequestMessage) where
  abbrev looked : Option (ℕ × Validator) → Option Validator → PubkeyLookup
  looked s t = record { source = s; target = t }

  needs_both :
      (found : PubkeyLookup)
      → is_valid_switch_to_compounding_request state request found.source ≡ false
      → (process_found state request found).1 ≡ success
      → (request.source_pubkey ≢ request.target_pubkey)
        × (length state.pending_consolidations ≢ pending_consolidations_limit)
        × (min_activation_balance < get_consolidation_churn_limit state)
        × ((with_validators state request found.source found.target).1 ≡ success)
  unfolding process_found
  needs_both found v e = ground arith

  success-Accepted :
      (found : PubkeyLookup) (s : Option (ℕ × Validator)) (t : Option Validator)
      → found.source ≡ s
      → found.target ≡ t
      → is_valid_switch_to_compounding_request state request found.source ≡ false
      → (process_found state request found).1 ≡ success
      → Accepted state request found
  unfolding with_validators
  success-Accepted found none t es et v e =
      let (d, q, c, w) = needs_both found v e in absurd (ground (arith, es, w))
  success-Accepted found (some (index, source)) none es et v e =
      let (d, q, c, w) = needs_both found v e in absurd (ground (arith, es, et, w))
  success-Accepted found (some (index, source)) (some target) es et v e =
      let (d, q, c, w) = needs_both found v e in
      inr (
        index,
        source,
        target,
        es,
        et,
        consolidate-Consolidates state request index source target d q c (rw (es, et) at w),
      )

  Accepted-of-success :
      (found : PubkeyLookup)
      → (process_found state request found).1 ≡ success
      → Accepted state request found
  Accepted-of-success found e =
      elim (Bool-cases (is_valid_switch_to_compounding_request state request found.source)) [
        | inl v ↦ inl v
        | inr v ↦ success-Accepted found found.source found.target refl refl v e
      ]

  success_of-Accepted :
      (found : PubkeyLookup)
      → Accepted state request found
      → (process_found state request found).1 ≡ success
  unfolding process_found with_validators
  success_of-Accepted found (inl v) = ground arith
  success_of-Accepted found (inr (index, source, target, es, et, k)) =
      ground (arith, es, et, k, consolidate-success state request index source target k)

-- A request succeeds exactly if it is a valid switch to compounding credentials, or the validators
-- with its two keys exist and meet every condition of the consensus specification.
pub process_consolidation_request-success_iff :
    (state : AgnosticState) (request : ConsolidationRequestMessage)
    → ((process_consolidation_request state request).1 ≡ success)
      ↔ Accepted state request
          (look_up request 0 state.validators (record { source = none; target = none }))
unfolding process_consolidation_request
process_consolidation_request-success_iff state request =
    (Accepted-of-success state request _, success_of-Accepted state request _)
