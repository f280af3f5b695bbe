-- ===== src/Metrics/Electra/Withdrawal/Exits.antt =====
-- What a withdrawal request does to the state (pkg/spec/metrics/state_electra.go).
use mathlib.Core.Path.{subst}
use goteth.Common.{
  ℕ, suc, ◌≡◌, ◌≢◌, ◌≤◌, ◌⊎◌, inl, inr, Option, none, some, List, [], ◌∷◌, length, Distinct,
  Distinct-append, loop?, loop?_inv, >>=-eq-some, arith, refl, some_inj, length-append,
  Option-cases, ◌∙◌, sym,
}
use goteth.Spec.Constants.{pending_partial_withdrawals_limit, full_exit_request_amount}
use goteth.Spec.Validator.{Validator}
use goteth.Spec.Block.{AgnosticBlock, WithdrawalRequestMessage, ExecutionRequests}
use goteth.Spec.State.{AgnosticState, WithdrawalRequestResult}
use goteth.Metrics.{StateMetricsBase}
use goteth.Metrics.Electra.Withdrawal.{
  find_validator, withdraw, withdraw_found, process_withdrawal_request, WithdrawalsPass,
  process_block_withdrawal_requests, process_block_withdrawals, process_withdrawal_requests,
}

-- The partial withdrawals within their limit, and no validator exiting twice.
pub record ExitsValid (p : AgnosticState) : Type 0 where
  pub bounded : length p.pending_partial_withdrawals ≤ pending_partial_withdrawals_limit
  pub distinct : Distinct p.new_exiting_validators

withdraw-ExitsValid :
    (p : AgnosticState) (request : WithdrawalRequestMessage) (index : ℕ) (v : Validator)
    (r : AgnosticState × WithdrawalRequestResult)
    → (length p.pending_partial_withdrawals ≢ pending_partial_withdrawals_limit)
      ⊎ (request.amount ≡ full_exit_request_amount)
    → ExitsValid p
    → withdraw p request index v ≡ some r
    → ExitsValid r.0
unfolding withdraw
withdraw-ExitsValid p request index v r room k e = ground (
  arith,
  Distinct-append p.new_exiting_validators index k.distinct,
  length-append p.pending_partial_withdrawals
      ((record { validator_index = index; amount = request.amount }) ∷ []),
)

-- A request either leaves the state as it was, or is handled with the validator found and room in
-- the queue.
process-cases :
    (p : AgnosticState) (request : WithdrawalRequestMessage)
    (r : AgnosticState × WithdrawalRequestResult) (o : Option (ℕ × Validator))
    → find_validator request.validator_pubkey 0 p.validators ≡ o
    → process_withdrawal_request p request ≡ some r
    → (r.0 ≡ p)
      ⊎ (((length p.pending_partial_withdrawals ≢ pending_partial_withdrawals_limit)
            ⊎ (request.amount ≡ full_exit_request_amount))
          × (withdraw_found p request o ≡ some r))
unfolding process_withdrawal_request
process-cases p request r o h e = ground arith

found-ExitsValid :
    (p : AgnosticState) (request : WithdrawalRequestMessage)
    (r : AgnosticState × WithdrawalRequestResult) (o : Option (ℕ × Validator))
    → (length p.pending_partial_withdrawals ≢ pending_partial_withdrawals_limit)
      ⊎ (request.amount ≡ full_exit_request_amount)
    → ExitsValid p
    → withdraw_found p request o ≡ some r
    → ExitsValid r.0
unfolding withdraw_found
found-ExitsValid p request r none room k e =
    subst (λ (x : AgnosticState × WithdrawalRequestResult). ExitsValid x.0) (some_inj e) k
found-ExitsValid p request r (some (index, v)) room k e =
    withdraw-ExitsValid p request index v r room k e

process-ExitsValid :
    (p : AgnosticState) (request : WithdrawalRequestMessage)
    (r : AgnosticState × WithdrawalRequestResult)
    → ExitsValid p
    → process_withdrawal_request p request ≡ some r
    → ExitsValid r.0
process-ExitsValid p request r k e =
    let o = find_validator request.validator_pubkey 0 p.validators in
    elim (process-cases p request r o refl e) [
      | inl same ↦ rw same k
      | inr (room, w) ↦ found-ExitsValid p request r o room k w
    ]

block-ExitsValid :
    (block : AgnosticBlock) (i : ℕ) (rs : List WithdrawalRequestMessage) (pass q : WithdrawalsPass)
    → ExitsValid pass.state
    → process_block_withdrawal_requests block i rs pass ≡ some q
    → ExitsValid q.state
unfolding process_block_withdrawal_requests
block-ExitsValid block i [] pass q k e =
    subst (λ (x : WithdrawalsPass). ExitsValid x.state) (some_inj e) k
block-ExitsValid block i (request ∷ rest) pass q k e =
    let (r, handled, more) = >>=-eq-some (process_withdrawal_request pass.state request) _ e in
    block-ExitsValid block (suc i) rest _ q (process-ExitsValid pass.state request r k handled) more

none_block :
    (pass : WithdrawalsPass) (block : AgnosticBlock)
    → block.execution_requests ≡ none
    → process_block_withdrawals pass block ≡ some pass
unfolding process_block_withdrawals
none_block pass block e = ground arith

some_block :
    (pass : WithdrawalsPass) (block : AgnosticBlock) (r : ExecutionRequests)
    → block.execution_requests ≡ some r
    → process_block_withdrawals pass block
      ≡ process_block_withdrawal_requests block 0 r.withdrawals pass
unfolding process_block_withdrawals
some_block pass block r e = ground arith

blocks-ExitsValid :
    (pass : WithdrawalsPass) (block : AgnosticBlock) (q : WithdrawalsPass)
    → ExitsValid pass.state
    → process_block_withdrawals pass block ≡ some q
    → ExitsValid q.state
blocks-ExitsValid pass block q k e = elim (Option-cases block.execution_requests) [
  | inl none' ↦
      subst (λ (x : WithdrawalsPass). ExitsValid x.state)
        (some_inj (sym (none_block pass block none') ∙ e)) k
  | inr (r, some') ↦
      block-ExitsValid block 0 r.withdrawals pass q k (sym (some_block pass block r some') ∙ e)
]

-- However many withdrawal requests the blocks hold, the queue of partial withdrawals stays within its
-- limit and no validator enters the list of exiting validators twice.
pub process_withdrawal_requests-ExitsValid :
    (p q : StateMetricsBase)
    → ExitsValid p.current_state
    → process_withdrawal_requests p ≡ some q
    → ExitsValid q.current_state
unfolding process_withdrawal_requests
process_withdrawal_requests-ExitsValid p q k e =
    let start : WithdrawalsPass = record { state = p.current_state; requests = [] } in
    let (pass, looped, done) =
      >>=-eq-some (loop? process_block_withdrawals start p.next_state.blocks) _ e in
    subst (λ (x : StateMetricsBase). ExitsValid x.current_state) (some_inj done)
      (loop?_inv (λ (x : WithdrawalsPass). ExitsValid x.state) process_block_withdrawals
        blocks-ExitsValid start p.next_state.blocks pass k looped)
