-- ===== src/Spec/Block/Fees.antt =====
-- pkg/spec/block.go, `BlockGasFees`: the priority and the base fees of the transactions of a block.
pub mod Exact
pub mod Products
use goteth.Common.{
  ℕ, ◌+◌, ◌-◌, ◌*◌, ◌≤◌, ◌<◌, ◌≡◌, refl, sym, Bool-cases, ◌⊎◌, inl, inr, Bool, true, false, List,
  [], ◌∷◌, ltb, if◌then◌else◌, add64, sub64, mul64, u64_mod, arith,
}
use mathlib.Core.Path.{subst}
use goteth.Spec.Block.{AgnosticTransaction, AgnosticExecutionPayload}

-- `math.MaxUint64` and the cap of one transaction's priority fee.
abbrev pub max_uint64 : ℕ
max_uint64 = 18446744073709551615

abbrev pub max_reasonable_tx_fee : ℕ
max_reasonable_tx_fee = 10000000000000000000

pub data FeesError : Type 0 where
  no_transactions fee_overflow burn_overflow : FeesError

-- The three results of the source: the reward, the burn, and the error, if any.
pub data Fees : Type 0 where
  fees : (reward burn : ℕ) → Fees
  failed : (reward burn : ℕ) → FeesError → Fees

unfoldable pub priority_fee : ℕ → AgnosticTransaction → ℕ
priority_fee base_fee_per_gas tx = mul64 (sub64 tx.gas_price base_fee_per_gas) tx.gas

unfoldable pub base_fee : ℕ → AgnosticTransaction → ℕ
base_fee base_fee_per_gas tx = mul64 base_fee_per_gas tx.gas

-- The transactions that the loop passes over.
unfoldable pub is_skipped : ℕ → AgnosticTransaction → Bool
is_skipped base_fee_per_gas tx =
    if ltb tx.gas_price base_fee_per_gas
    then true
    else ltb max_reasonable_tx_fee (priority_fee base_fee_per_gas tx)

unfoldable pub gas_fees_from : ℕ → List AgnosticTransaction → ℕ → ℕ → Fees
gas_fees_from base_fee_per_gas [] reward burn = fees reward burn
gas_fees_from base_fee_per_gas (tx ∷ txs) reward burn =
    let priority = priority_fee base_fee_per_gas tx in
    let burnt = base_fee base_fee_per_gas tx in
    let skipped = gas_fees_from base_fee_per_gas txs reward burn in
    let added = gas_fees_from base_fee_per_gas txs (add64 reward priority) (add64 burn burnt) in
    if is_skipped base_fee_per_gas tx
    then skipped
    else if ltb (sub64 max_uint64 reward) priority
    then failed reward burn fee_overflow
    else if ltb (sub64 max_uint64 burn) burnt
    then failed reward burn burn_overflow
    else added

unfoldable pub block_gas_fees : AgnosticExecutionPayload → Fees
unfolding gas_fees_from
block_gas_fees payload = elim payload.agnostic_transactions [
  | [] ↦ failed 0 0 no_transactions
  | tx ∷ txs ↦ gas_fees_from payload.base_fee_per_gas (tx ∷ txs) 0 0
]
