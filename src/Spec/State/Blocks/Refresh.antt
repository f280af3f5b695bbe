-- ===== src/Spec/State/Blocks/Refresh.antt =====
-- A refresh of the blocks forgets the blocks that were there (pkg/spec/state.go).
use goteth.Common.{
  ℕ, suc, ◌≡◌, refl, sym, ap, ◌∙◌, some, List, [], ◌∷◌, arith, length, get_elem?, replicate,
  loop?_inv, ◌>>=◌, >>=-eq-some, loop_inv, some_inj, loop?_commute, bind_swap,
}
use goteth.Spec.Block.{AgnosticBlock, Withdrawal, BlockDeposit}
use goteth.Spec.Validator.{Validator}
use goteth.Spec.State.{AgnosticState}
use goteth.Spec.State.Blocks.{
  add_withdrawal, add_block_withdrawals, calculate_withdrawals, credit, credit_deposit,
  credit_block, calculate_deposits, count_attestations, calculate_num_attestations,
  add_participation, calculate_sync_participation, add_blocks, reset, refresh_blocks,
}

-- What `AddBlocks` does not touch.
abbrev pub base : AgnosticState → AgnosticState
base p = record p {
  blocks = [];
  withdrawals = [];
  withdrawals_num = 0;
  total_withdrawals_amount = 0;
  deposits = [];
  deposits_num = 0;
  total_deposits_amount = 0;
  num_attestations = 0;
  sync_committee_participation = 0;
}

module _ (b : AgnosticState) where
  abbrev Keeps : AgnosticState → Type 0
  Keeps p = base p ≡ b

  add_withdrawal-Keeps :
      (p : AgnosticState) (w : Withdrawal) (q : AgnosticState)
      → Keeps p
      → add_withdrawal p w ≡ some q
      → Keeps q
  unfolding add_withdrawal
  add_withdrawal-Keeps p w q k e =
      let (old, _, done) = >>=-eq-some (get_elem? p.withdrawals w.validator_index) _ e in
      ap base (sym (some_inj done)) ∙ k

  calculate_withdrawals-Keeps :
      (p q : AgnosticState) → Keeps p → calculate_withdrawals p ≡ some q → Keeps q
  unfolding calculate_withdrawals add_block_withdrawals
  calculate_withdrawals-Keeps p q k e =
      loop?_inv Keeps add_block_withdrawals
        (λ s block t ks es.
          loop?_inv Keeps add_withdrawal add_withdrawal-Keeps s block.execution_payload.withdrawals
            t ks es)
        (record p { withdrawals = replicate (length p.validators) 0 }) p.blocks q k e

  credit-Keeps :
      (d : BlockDeposit) (i : ℕ) (v : Validator) (p : AgnosticState)
      → Keeps p
      → Keeps (credit d i v p)
  unfolding credit
  credit-Keeps d i v p k = ground arith

  credit_deposit-Keeps :
      (d : BlockDeposit) (i : ℕ) (vs : List Validator) (p : AgnosticState)
      → Keeps p
      → Keeps (credit_deposit d i vs p)
  unfolding credit_deposit
  credit_deposit-Keeps d i [] p k = k
  credit_deposit-Keeps d i (v ∷ vs) p k =
      credit_deposit-Keeps d (suc i) vs (credit d i v p) (credit-Keeps d i v p k)

  calculate_deposits-Keeps : (p : AgnosticState) → Keeps p → Keeps (calculate_deposits p)
  unfolding calculate_deposits credit_block
  calculate_deposits-Keeps p k =
      loop_inv Keeps credit_block
        (λ s block ks.
          loop_inv Keeps (λ q d. credit_deposit d 0 q.validators q)
            (λ q d kq. credit_deposit-Keeps d 0 q.validators q kq) s block.deposits ks)
        (record p { deposits = replicate (length p.validators) 0 }) p.blocks k

  counts-Keeps :
      (p : AgnosticState)
      → Keeps p
      → Keeps (calculate_sync_participation (calculate_num_attestations p))
  unfolding calculate_sync_participation calculate_num_attestations count_attestations
      add_participation
  counts-Keeps p k =
      loop_inv Keeps add_participation (λ s block ks. ks) (calculate_num_attestations p)
        (calculate_num_attestations p).blocks
        (loop_inv Keeps count_attestations (λ s block ks. ks) p p.blocks k)

  add_blocks-Keeps :
      (p q : AgnosticState) (bl : List AgnosticBlock) → Keeps p → add_blocks p bl ≡ some q → Keeps q
  unfolding add_blocks
  add_blocks-Keeps p q bl k e =
      let (r, withdrawn, done) =
        >>=-eq-some (calculate_withdrawals (record p { blocks = bl })) _ e in
      ap base (sym (some_inj done))
      ∙ counts-Keeps (calculate_deposits r) (
          calculate_deposits-Keeps r
            (calculate_withdrawals-Keeps (record p { blocks = bl }) r k withdrawn))

-- `CalculateDeposits` starts a new array, and what comes before it does not read the old one.
abbrev forget_deposits : AgnosticState → AgnosticState
forget_deposits p = record p { deposits = [] }

add_withdrawal-forget :
    (p : AgnosticState) (w : Withdrawal)
    → add_withdrawal (forget_deposits p) w ≡ (add_withdrawal p w >>= λ q. some (forget_deposits q))
unfolding add_withdrawal
add_withdrawal-forget p w = ground arith

calculate_withdrawals-forget :
    (p : AgnosticState)
    → calculate_withdrawals (forget_deposits p)
      ≡ (calculate_withdrawals p >>= λ q. some (forget_deposits q))
unfolding calculate_withdrawals add_block_withdrawals
calculate_withdrawals-forget p =
    loop?_commute forget_deposits add_block_withdrawals
      (λ s block.
        loop?_commute forget_deposits add_withdrawal add_withdrawal-forget s
          block.execution_payload.withdrawals)
      (record p { withdrawals = replicate (length p.validators) 0 }) p.blocks

add_blocks-forget :
    (p : AgnosticState) (bl : List AgnosticBlock)
    → add_blocks (forget_deposits p) bl ≡ add_blocks p bl
unfolding add_blocks calculate_deposits
add_blocks-forget p bl =
    ap
      (λ o. o >>= λ q.
        some (calculate_sync_participation (calculate_num_attestations (calculate_deposits q))))
      (calculate_withdrawals-forget (record p { blocks = bl }))
    ∙ bind_swap forget_deposits (calculate_withdrawals (record p { blocks = bl })) _ _ (λ q. refl)

refresh_blocks-base :
    (p : AgnosticState) (bl : List AgnosticBlock) → refresh_blocks p bl ≡ refresh_blocks (base p) bl
unfolding refresh_blocks add_blocks calculate_withdrawals
refresh_blocks-base p bl = sym (add_blocks-forget (reset p) bl)

-- `RefreshBlocks` forgets the blocks that an earlier `AddBlocks` put in: after it the state is the
-- one that a refresh of the state before it gives, with no value counted twice.
pub refresh_blocks-add_blocks :
    (p q : AgnosticState) (before after : List AgnosticBlock)
    → add_blocks p before ≡ some q
    → refresh_blocks q after ≡ refresh_blocks p after
refresh_blocks-add_blocks p q before after e =
    refresh_blocks-base q after
    ∙ ap (λ b. refresh_blocks b after) (add_blocks-Keeps (base p) p q before refl e)
    ∙ sym (refresh_blocks-base p after)
