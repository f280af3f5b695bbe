-- ===== src/Spec/State/Blocks/Totals.antt =====
-- The totals of a refresh against its arrays, one entry for each validator (pkg/spec/state.go).
use goteth.Common.{
  ℕ, zero, suc, ◌+◌, ◌≡◌, refl, sym, ap, ◌∙◌, some, List, [], ◌∷◌, arith, length, get_elem?, set,
  replicate, loop?_inv, add64, >>=-eq-some, loop_inv, some_inj, length-replicate, ◌≤◌, ◌<◌,
}
use goteth.Spec.Block.{AgnosticBlock, Withdrawal, BlockDeposit}
use goteth.Spec.Validator.{Validator}
use goteth.Spec.State.{AgnosticState}
use goteth.Spec.State.Blocks.{
  add_withdrawal, add_block_withdrawals, calculate_withdrawals, add_at, credit, credit_deposit,
  credit_block, calculate_deposits, count_attestations, calculate_num_attestations,
  add_participation, calculate_sync_participation, add_blocks, reset, refresh_blocks,
}

-- The sum of an array of Gwei, modulo 2 ^ 64.
abbrev pub sum64 : List ℕ → ℕ
sum64 [] = 0
sum64 (x ∷ xs) = add64 x (sum64 xs)

sum64-replicate : (n : ℕ) → sum64 (replicate n 0) ≡ 0
unfolding add64
sum64-replicate zero = refl
sum64-replicate (suc n) = omega (arith, sum64-replicate n)

swap_add64 : (x a s : ℕ) → add64 (add64 x a) s ≡ add64 (add64 x s) a
unfolding add64
swap_add64 x a s = omega arith

shift_add64 : (x a s : ℕ) → add64 x (add64 s a) ≡ add64 (add64 x s) a
unfolding add64
shift_add64 x a s = omega arith

sum64-set :
    (xs : List ℕ) (i old a : ℕ)
    → get_elem? xs i ≡ some old
    → sum64 (set xs i (add64 old a)) ≡ add64 (sum64 xs) a
sum64-set [] i old a e = cc
sum64-set (x ∷ xs) zero old a e = rw (← some_inj e) (swap_add64 x a (sum64 xs))
sum64-set (x ∷ xs) (suc i) old a e =
    ap (add64 x) (sum64-set xs i old a e) ∙ shift_add64 x a (sum64 xs)

sum64-add_at : (xs : List ℕ) (i a : ℕ) → i < length xs → sum64 (add_at xs i a) ≡ add64 (sum64 xs) a
unfolding add_at
sum64-add_at [] i a h = elim h [ ]
sum64-add_at (x ∷ xs) zero a h = swap_add64 x a (sum64 xs)
sum64-add_at (x ∷ xs) (suc i) a h =
    ap (add64 x) (sum64-add_at xs i a (omega arith)) ∙ shift_add64 x a (sum64 xs)

length-add_at : (xs : List ℕ) (i a : ℕ) → length (add_at xs i a) ≡ length xs
unfolding add_at
length-add_at [] i a = refl
length-add_at (x ∷ xs) zero a = refl
length-add_at (x ∷ xs) (suc i) a = ap suc (length-add_at xs i a)

abbrev Withdrawn : AgnosticState → Type 0
Withdrawn p = p.total_withdrawals_amount ≡ sum64 p.withdrawals

record Deposited (n : ℕ) (p : AgnosticState) : Type 0 where
  total : p.total_deposits_amount ≡ sum64 p.deposits
  sized : length p.deposits ≡ n
  fixed : length p.validators ≡ n
  withdrawn : Withdrawn p

abbrev Started : AgnosticState → Type 0
Started p = Withdrawn p × (p.total_deposits_amount ≡ 0)

add_withdrawal-Started :
    (p : AgnosticState) (w : Withdrawal) (q : AgnosticState)
    → Started p
    → add_withdrawal p w ≡ some q
    → Started q
unfolding add_withdrawal
add_withdrawal-Started p w q k e =
    let (old, found, done) = >>=-eq-some (get_elem? p.withdrawals w.validator_index) _ e in
    ground (arith, done, k, sum64-set p.withdrawals w.validator_index old w.amount found)

calculate_withdrawals-Started :
    (p q : AgnosticState)
    → p.total_withdrawals_amount ≡ 0
    → p.total_deposits_amount ≡ 0
    → calculate_withdrawals p ≡ some q
    → Started q
unfolding calculate_withdrawals add_block_withdrawals
calculate_withdrawals-Started p q k d e =
    loop?_inv Started add_block_withdrawals
      (λ s block t ks es.
        loop?_inv Started add_withdrawal add_withdrawal-Started s
          block.execution_payload.withdrawals t ks es)
      (record p { withdrawals = replicate (length p.validators) 0 }) p.blocks q
      (k ∙ sym (sum64-replicate (length p.validators)), d) e

credit-Deposited :
    (n : ℕ) (d : BlockDeposit) (i : ℕ) (v : Validator) (p : AgnosticState)
    → i < n
    → Deposited n p
    → Deposited n (credit d i v p)
unfolding credit
credit-Deposited n d i v p h k =
    ground (arith, sum64-add_at p.deposits i d.amount, length-add_at p.deposits i d.amount)

credit_deposit-Deposited :
    (n : ℕ) (d : BlockDeposit) (i : ℕ) (vs : List Validator) (p : AgnosticState)
    → i + length vs ≤ n
    → Deposited n p
    → Deposited n (credit_deposit d i vs p)
unfolding credit_deposit
credit_deposit-Deposited n d i [] p h k = k
credit_deposit-Deposited n d i (v ∷ vs) p h k =
    credit_deposit-Deposited n d (suc i) vs (credit d i v p) (omega arith)
      (credit-Deposited n d i v p (omega arith) k)

calculate_deposits-Deposited :
    (p : AgnosticState)
    → p.total_deposits_amount ≡ 0
    → Withdrawn p
    → Deposited (length p.validators) (calculate_deposits p)
unfolding calculate_deposits credit_block
calculate_deposits-Deposited p k w =
    let n = length p.validators in
    loop_inv (Deposited n) credit_block
      (λ s block ks.
        loop_inv (Deposited n) (λ q d. credit_deposit d 0 q.validators q)
          (λ q d kq. credit_deposit-Deposited n d 0 q.validators q (omega (arith, kq.fixed)) kq) s
          block.deposits ks)
      (record p { deposits = replicate n 0 }) p.blocks
      (record {
        total = k ∙ sym (sum64-replicate n);
        sized = length-replicate n 0;
        fixed = refl;
        withdrawn = w;
      })

counts-Deposited :
    (n : ℕ) (p : AgnosticState)
    → Deposited n p
    → Deposited n (calculate_sync_participation (calculate_num_attestations p))
unfolding calculate_sync_participation calculate_num_attestations count_attestations
    add_participation
counts-Deposited n p k =
    loop_inv (Deposited n) add_participation
      (λ s block ks. record {
        total = ks.total;
        sized = ks.sized;
        fixed = ks.fixed;
        withdrawn = ks.withdrawn;
      })
      (calculate_num_attestations p) (calculate_num_attestations p).blocks
      (loop_inv (Deposited n) count_attestations
        (λ s block ks. record {
          total = ks.total;
          sized = ks.sized;
          fixed = ks.fixed;
          withdrawn = ks.withdrawn;
        })
        p p.blocks k)

-- After a refresh that does not panic, the total withdrawn and the total deposited are the sums,
-- modulo 2 ^ 64, of the amounts held for the single validators.
pub refresh_blocks_totals :
    (p q : AgnosticState) (bl : List AgnosticBlock)
    → refresh_blocks p bl ≡ some q
    → (q.total_withdrawals_amount ≡ sum64 q.withdrawals)
      × (q.total_deposits_amount ≡ sum64 q.deposits)
unfolding refresh_blocks add_blocks
refresh_blocks_totals p q bl e =
    let (r, withdrawn, done) =
      >>=-eq-some (calculate_withdrawals (record (reset p) { blocks = bl })) _ e in
    let (w, d) =
      calculate_withdrawals-Started (record (reset p) { blocks = bl }) r refl refl withdrawn in
    let k =
      counts-Deposited (length r.validators) (calculate_deposits r)
        (calculate_deposits-Deposited r d w) in
    ground (arith, done, k.withdrawn, k.total)
