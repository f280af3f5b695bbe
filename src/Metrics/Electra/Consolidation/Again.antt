-- ===== src/Metrics/Electra/Consolidation/Again.antt =====
-- A second look at a request that was accepted (pkg/spec/metrics/state_electra.go).
use mathlib.Core.Path.{subst}
use goteth.Common.{
  ℕ, ◌≡◌, ◌⊎◌, false, Option, none, some, List, [], ◌∷◌, ◌++◌, arith, refl, elem-append_self, ap,
  sym,
}
use goteth.Spec.Validator.{Validator}
use goteth.Spec.Block.{ConsolidationRequestMessage}
use goteth.Spec.State.{AgnosticState, success, src_exit_already_initiated, queue_full}
use goteth.Metrics.Electra.{
  get_consolidation_churn_limit, get_balance_churn_limit, get_activation_exit_churn_limit,
}
use goteth.Metrics.Electra.Consolidation.{
  PubkeyLookup, look_up, consolidate, with_validators, process_found, process_consolidation_request,
  is_valid_switch_to_compounding_request,
}

-- The state that an accepted consolidation leaves.
abbrev after_accepted : AgnosticState → ℕ → AgnosticState
after_accepted p index = record p {
  new_exiting_validators = p.new_exiting_validators ++ index ∷ [];
  pending_consolidations =
      p.pending_consolidations ++ (record { source_index = 0; target_index = 0 }) ∷ [];
}

module _ (p : AgnosticState) (request : ConsolidationRequestMessage) where
  churn_kept :
      (i : ℕ) → get_consolidation_churn_limit (after_accepted p i) ≡ get_consolidation_churn_limit p
  unfolding get_consolidation_churn_limit get_balance_churn_limit get_activation_exit_churn_limit
  churn_kept i = refl

  switch_kept :
      (i : ℕ) (source : Option (ℕ × Validator))
      → is_valid_switch_to_compounding_request (after_accepted p i) request source
        ≡ is_valid_switch_to_compounding_request p request source
  unfolding is_valid_switch_to_compounding_request
  switch_kept i none = refl
  switch_kept i (some (j, s)) = refl

  again_both :
      (i : ℕ) (s t : Validator) (q : AgnosticState) (found : PubkeyLookup)
      → found.source ≡ some (i, s)
      → found.target ≡ some t
      → is_valid_switch_to_compounding_request p request found.source ≡ false
      → process_found p request found ≡ (q, success)
      → (q ≡ after_accepted p i)
        × (((process_found (after_accepted p i) request found).1 ≡ src_exit_already_initiated)
            ⊎ ((process_found (after_accepted p i) request found).1 ≡ queue_full))
  unfolding process_found with_validators consolidate
  again_both i s t q found es et v e = ground (
    arith,
    es,
    et,
    churn_kept i,
    switch_kept i found.source,
    elem-append_self i p.new_exiting_validators,
  )

  again_found :
      (q : AgnosticState) (found : PubkeyLookup) (s : Option (ℕ × Validator)) (t : Option Validator)
      → found.source ≡ s
      → found.target ≡ t
      → is_valid_switch_to_compounding_request p request found.source ≡ false
      → process_found p request found ≡ (q, success)
      → (q.validators ≡ p.validators)
        × (((process_found q request found).1 ≡ src_exit_already_initiated)
            ⊎ ((process_found q request found).1 ≡ queue_full))
  unfolding with_validators process_found
  again_found q found none t es et v e = absurd (ground (arith, es))
  again_found q found (some (i, s)) none es et v e = absurd (ground (arith, es, et))
  again_found q found (some (i, s)) (some t) es et v e =
      let (left, again) = again_both i s t q found es et v e in
      (ap (λ (r : AgnosticState). r.validators) left, rw left again)

-- A consolidation that was accepted is refused when the same request is processed again in the state
-- that it left: the exit of its source is already initiated, unless the queue is full by then.
pub process_consolidation_request-again :
    (p q : AgnosticState) (request : ConsolidationRequestMessage)
    → is_valid_switch_to_compounding_request p request
        (look_up request 0 p.validators (record { source = none; target = none })).source
      ≡ false
    → process_consolidation_request p request ≡ (q, success)
    → ((process_consolidation_request q request).1 ≡ src_exit_already_initiated)
      ⊎ ((process_consolidation_request q request).1 ≡ queue_full)
unfolding process_consolidation_request
process_consolidation_request-again p q request v e =
    let found = look_up request 0 p.validators (record { source = none; target = none }) in
    let (same, again) = again_found p request q found found.source found.target refl refl v e in
    let at = λ (vs : List Validator).
      (process_found q request
        (look_up request 0 vs (record { source = none; target = none }))).1 in
    subst (λ vs. (at vs ≡ src_exit_already_initiated) ⊎ (at vs ≡ queue_full)) (sym same) again
