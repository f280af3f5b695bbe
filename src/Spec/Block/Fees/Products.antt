-- ===== src/Spec/Block/Fees/Products.antt =====
-- The fees of a block against the products that they mean (pkg/spec/block.go).
use goteth.Common.{ℕ, ◌+◌, ◌-◌, ◌*◌, ◌<◌, Bool, List, [], ◌∷◌, leb, ◌&&◌, if◌then◌else◌, u64_mod}
use mathlib.Core.List.{Memᴰ}
use goteth.Spec.Block.{AgnosticTransaction}

-- What a transaction pays in all is a `uint64`, as its gas price is.
pub record Fits (tx : AgnosticTransaction) : Type 0 where
  pub price_fits : tx.gas_price < u64_mod
  pub paid_fits : tx.gas_price * tx.gas < u64_mod

abbrev pub AllFit : List AgnosticTransaction → Type 0
AllFit txs = (tx : AgnosticTransaction) → Memᴰ tx txs → Fits tx

-- A transaction counts if its gas price is not below the base fee, and its priority fee at most 10 ETH.
abbrev pub counts : ℕ → AgnosticTransaction → Bool
counts base tx = leb base tx.gas_price && leb ((tx.gas_price - base) * tx.gas) 10000000000000000000

abbrev pub priority_paid : ℕ → List AgnosticTransaction → ℕ
priority_paid base [] = 0
priority_paid base (tx ∷ txs) =
    if counts base tx
    then (tx.gas_price - base) * tx.gas + priority_paid base txs
    else priority_paid base txs

abbrev pub burn_paid : ℕ → List AgnosticTransaction → ℕ
burn_paid base [] = 0
burn_paid base (tx ∷ txs) =
    if counts base tx then base * tx.gas + burn_paid base txs else burn_paid base txs
