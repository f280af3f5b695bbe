-- ===== src/Spec/State/Blocks.antt =====
-- pkg/spec/state.go: `AddBlocks`, `RefreshBlocks` and what they derive from the blocks of an epoch.
pub mod Refresh
pub mod Totals
use goteth.Common.{
  ℕ, zero, suc, ◌+◌, ◌%◌, ◌≡◌, refl, sym, ap, ◌∙◌, Bool, true, false, Option, none, some, List, [],
  ◌∷◌, arith, ◌==◌, if◌then◌else◌, length, get_elem?, set, replicate, loop, loop?, loop?_inv,
  loop?_commute, bind_swap, add64, ◌>>=◌, >>=-eq-some, u64_mod, loop_inv, some_inj,
}
use goteth.Spec.Block.{AgnosticBlock, Withdrawal, BlockDeposit, Attestation}
use goteth.Spec.Validator.{Validator}
use goteth.Spec.State.{AgnosticState}

-- An index beyond `p.Withdrawals` panics.
unfoldable pub add_withdrawal : AgnosticState → Withdrawal → Option AgnosticState
add_withdrawal p w = do
  old ← get_elem? p.withdrawals w.validator_index
  some (record p {
    withdrawals = set p.withdrawals w.validator_index (add64 old w.amount);
    withdrawals_num = add64 p.withdrawals_num 1;
    total_withdrawals_amount = add64 p.total_withdrawals_amount w.amount;
  })

unfoldable pub add_block_withdrawals : AgnosticState → AgnosticBlock → Option AgnosticState
add_block_withdrawals p block = loop? add_withdrawal p block.execution_payload.withdrawals

unfoldable pub calculate_withdrawals : AgnosticState → Option AgnosticState
calculate_withdrawals p =
    loop? add_block_withdrawals (record p { withdrawals = replicate (length p.validators) 0 })
      p.blocks

-- `xs[i] += amount`, at an index within bounds.
unfoldable pub add_at : List ℕ → ℕ → ℕ → List ℕ
add_at [] i amount = []
add_at (x ∷ xs) zero amount = add64 x amount ∷ xs
add_at (x ∷ xs) (suc i) amount = x ∷ add_at xs i amount

-- One validator of the innermost loop of `CalculateDeposits`; `p.Deposits` is as long as the list
-- of validators, so the index is within bounds.
unfoldable pub credit : BlockDeposit → ℕ → Validator → AgnosticState → AgnosticState
credit deposit val_idx validator p =
    if deposit.public_key == validator.public_key
    then (record p {
      deposits = add_at p.deposits val_idx deposit.amount;
      deposits_num = add64 p.deposits_num 1;
      total_deposits_amount = add64 p.total_deposits_amount deposit.amount;
    })
    else p

-- Every validator with the key of the deposit is credited.
unfoldable pub credit_deposit : BlockDeposit → ℕ → List Validator → AgnosticState → AgnosticState
credit_deposit deposit val_idx [] p = p
credit_deposit deposit val_idx (validator ∷ rest) p =
    credit_deposit deposit (suc val_idx) rest (credit deposit val_idx validator p)

unfoldable pub credit_block : AgnosticState → AgnosticBlock → AgnosticState
credit_block p block = loop (λ q deposit. credit_deposit deposit 0 q.validators q) p block.deposits

unfoldable pub calculate_deposits : AgnosticState → AgnosticState
calculate_deposits p =
    loop credit_block (record p { deposits = replicate (length p.validators) 0 }) p.blocks

unfoldable pub attestations_num : Option (List Attestation) → Option (List Attestation) → ℕ
attestations_num (some atts) electra = length atts
attestations_num none (some electra) = length electra
attestations_num none none = 0

unfoldable pub count_attestations : AgnosticState → AgnosticBlock → AgnosticState
count_attestations p block = record p {
  num_attestations =
      add64 p.num_attestations (attestations_num block.attestations block.electra_attestations);
}

unfoldable pub calculate_num_attestations : AgnosticState → AgnosticState
calculate_num_attestations p = loop count_attestations p p.blocks

-- `Bitvector512.Count` of github.com/prysmaticlabs/go-bitfield: the number of bits that are set.
unfoldable pub bits_count : List Bool → ℕ
bits_count [] = 0
bits_count (true ∷ bits) = suc (bits_count bits)
bits_count (false ∷ bits) = bits_count bits

unfoldable pub add_participation : AgnosticState → AgnosticBlock → AgnosticState
add_participation p block = record p {
  sync_committee_participation =
      add64 p.sync_committee_participation (bits_count block.sync_committee_bits);
}

unfoldable pub calculate_sync_participation : AgnosticState → AgnosticState
calculate_sync_participation p = loop add_participation p p.blocks

unfoldable pub add_blocks : AgnosticState → List AgnosticBlock → Option AgnosticState
add_blocks p block_list = do
  q ← calculate_withdrawals (record p { blocks = block_list })
  some (calculate_sync_participation (calculate_num_attestations (calculate_deposits q)))

abbrev pub reset : AgnosticState → AgnosticState
reset p = record p {
  withdrawals_num = 0;
  total_withdrawals_amount = 0;
  deposits_num = 0;
  total_deposits_amount = 0;
  num_attestations = 0;
  sync_committee_participation = 0;
}

unfoldable pub refresh_blocks : AgnosticState → List AgnosticBlock → Option AgnosticState
refresh_blocks p block_list = add_blocks (reset p) block_list
