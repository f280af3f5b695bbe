-- ===== src/Spec/Block/Fees/Exact.antt =====
-- The fees of a block are exact sums (pkg/spec/block.go).
use goteth.Common.{
  ℕ, ◌+◌, ◌≤◌, ◌<◌, ◌≡◌, refl, sym, Bool-cases, ◌⊎◌, inl, inr, true, false, List, [], ◌∷◌,
  if◌then◌else◌, add64, sub64, u64_mod, arith,
}
use mathlib.Core.Path.{subst}
use goteth.Spec.Block.{AgnosticTransaction, AgnosticExecutionPayload}
use goteth.Spec.Block.Fees.{
  FeesError, fee_overflow, burn_overflow, Fees, fees, failed, priority_fee, base_fee, is_skipped,
  gas_fees_from, block_gas_fees,
}

-- The sums, over the transactions that are not skipped, of the fees of each, with no wrap of a sum.
unfoldable pub priority_sum : ℕ → List AgnosticTransaction → ℕ
priority_sum base [] = 0
priority_sum base (tx ∷ txs) =
    if is_skipped base tx
    then priority_sum base txs
    else priority_fee base tx + priority_sum base txs

unfoldable pub burn_sum : ℕ → List AgnosticTransaction → ℕ
burn_sum base [] = 0
burn_sum base (tx ∷ txs) =
    if is_skipped base tx then burn_sum base txs else base_fee base tx + burn_sum base txs

-- The fees are the exact sums if these are `uint64`s, and an error otherwise.
abbrev pub FeesAre : Fees → (reward burn : ℕ) → Type 0
FeesAre (fees r b) reward burn = (r ≡ reward) × (b ≡ burn) × (reward < u64_mod) × (burn < u64_mod)
FeesAre (failed r b e) reward burn =
    (r ≤ reward) × (b ≤ burn) × ((reward < u64_mod) → (burn < u64_mod) → ⊥)

module _ (base : ℕ) (tx : AgnosticTransaction) (txs : List AgnosticTransaction)
    (reward burn : ℕ) where
  abbrev Result : Type 0
  Result =
      FeesAre (gas_fees_from base (tx ∷ txs) reward burn) (reward + priority_sum base (tx ∷ txs))
        (burn + burn_sum base (tx ∷ txs))

  skip-FeesAre :
      is_skipped base tx ≡ true
      → FeesAre
          (gas_fees_from base txs reward burn)
          (reward + priority_sum base txs)
          (burn + burn_sum base txs)
      → Result
  unfolding gas_fees_from priority_sum burn_sum
  skip-FeesAre skip ih = rw (skip, gas_fees_from, priority_sum, burn_sum) ih

  added :
      is_skipped base tx ≡ false
      → reward + priority_fee base tx < u64_mod
      → burn + base_fee base tx < u64_mod
      → gas_fees_from base (tx ∷ txs) reward burn
        ≡ gas_fees_from base txs (reward + priority_fee base tx) (burn + base_fee base tx)
  unfolding gas_fees_from add64 sub64
  added keep r b = ground (arith, keep, r, b)

  stopped :
      is_skipped base tx ≡ false
      → reward < u64_mod
      → burn < u64_mod
      → (u64_mod ≤ reward + priority_fee base tx) ⊎ (u64_mod ≤ burn + base_fee base tx)
      → (gas_fees_from base (tx ∷ txs) reward burn ≡ failed reward burn fee_overflow)
        ⊎ (gas_fees_from base (tx ∷ txs) reward burn ≡ failed reward burn burn_overflow)
  unfolding gas_fees_from add64 sub64
  stopped keep h k over = ground (arith, keep, h, k, over)

  sums :
      is_skipped base tx ≡ false
      → (priority_sum base (tx ∷ txs) ≡ priority_fee base tx + priority_sum base txs)
        × (burn_sum base (tx ∷ txs) ≡ base_fee base tx + burn_sum base txs)
  unfolding priority_sum burn_sum
  sums keep = (rw (keep, priority_sum) refl, rw (keep, burn_sum) refl)

  failed-FeesAre :
      (e : FeesError)
      → is_skipped base tx ≡ false
      → (u64_mod ≤ reward + priority_fee base tx) ⊎ (u64_mod ≤ burn + base_fee base tx)
      → gas_fees_from base (tx ∷ txs) reward burn ≡ failed reward burn e
      → Result
  failed-FeesAre e keep over same =
      let (p, b) = sums keep in
      subst
        (λ f. FeesAre f (reward + priority_sum base (tx ∷ txs)) (burn + burn_sum base (tx ∷ txs)))
        (sym same)
        (
          omega arith,
          omega arith,
          λ small little. elim over [
            | inl o ↦ omega (arith, o, p, small)
            | inr o ↦ omega (arith, o, b, little)
          ],
        )

  stop-FeesAre :
      is_skipped base tx ≡ false
      → reward < u64_mod
      → burn < u64_mod
      → (u64_mod ≤ reward + priority_fee base tx) ⊎ (u64_mod ≤ burn + base_fee base tx)
      → Result
  stop-FeesAre keep h k over = elim (stopped keep h k over) [
    | inl same ↦ failed-FeesAre fee_overflow keep over same
    | inr same ↦ failed-FeesAre burn_overflow keep over same
  ]

  add-FeesAre :
      is_skipped base tx ≡ false
      → reward + priority_fee base tx < u64_mod
      → burn + base_fee base tx < u64_mod
      → FeesAre
          (gas_fees_from base txs (reward + priority_fee base tx) (burn + base_fee base tx))
          (reward + priority_fee base tx + priority_sum base txs)
          (burn + base_fee base tx + burn_sum base txs)
      → Result
  add-FeesAre keep r b ih =
      let (p, q) = sums keep in
      let r' : reward + priority_fee base tx + priority_sum base txs
          ≡ reward + priority_sum base (tx ∷ txs) =
        omega (arith, p) in
      let b' : burn + base_fee base tx + burn_sum base txs ≡ burn + burn_sum base (tx ∷ txs) =
        omega (arith, q) in
      rw (added keep r b, sym r', sym b') ih

below-or-above : (a b : ℕ) → (a < b) ⊎ (b ≤ a)
below-or-above a b = ground arith

gas_fees_from-FeesAre :
    (base : ℕ) (txs : List AgnosticTransaction) (reward burn : ℕ)
    → reward < u64_mod
    → burn < u64_mod
    → FeesAre
        (gas_fees_from base txs reward burn)
        (reward + priority_sum base txs)
        (burn + burn_sum base txs)
unfolding gas_fees_from priority_sum burn_sum
gas_fees_from-FeesAre base [] reward burn h k =
    (omega arith, omega arith, omega (arith, h), omega (arith, k))
gas_fees_from-FeesAre base (tx ∷ txs) reward burn h k = elim (Bool-cases (is_skipped base tx)) [
  | inl skip ↦
      skip-FeesAre base tx txs reward burn skip (gas_fees_from-FeesAre base txs reward burn h k)
  | inr keep ↦ elim (below-or-above (reward + priority_fee base tx) u64_mod) [
    | inr over ↦ stop-FeesAre base tx txs reward burn keep h k (inl over)
    | inl r ↦ elim (below-or-above (burn + base_fee base tx) u64_mod) [
      | inr over ↦ stop-FeesAre base tx txs reward burn keep h k (inr over)
      | inl b ↦ add-FeesAre base tx txs reward burn keep r b (
          gas_fees_from-FeesAre base txs (reward + priority_fee base tx) (burn + base_fee base tx) r
            b)
    ]
  ]
]

FeesAre-≡ : (f : Fees) (a a' b b' : ℕ) → a ≡ a' → b ≡ b' → FeesAre f a b → FeesAre f a' b'
FeesAre-≡ f a a' b b' p q h = subst (λ x. FeesAre f x b') p (subst (λ x. FeesAre f a x) q h)

-- For a block with transactions, the reward and the burn are the sums of the fees of the transactions
-- that are not skipped, without a wrap of a sum, where both sums are `uint64`s; where one is not, the
-- result is an error, whose reward and burn do not exceed the sums.
pub block_gas_fees-FeesAre :
    (payload : AgnosticExecutionPayload) (tx : AgnosticTransaction) (txs : List AgnosticTransaction)
    → payload.agnostic_transactions ≡ tx ∷ txs
    → FeesAre
        (block_gas_fees payload)
        (priority_sum payload.base_fee_per_gas payload.agnostic_transactions)
        (burn_sum payload.base_fee_per_gas payload.agnostic_transactions)
unfolding block_gas_fees
block_gas_fees-FeesAre payload tx txs e =
    rw (e, block_gas_fees)
      (FeesAre-≡ _ _ _ _ _ (omega arith) (omega arith)
        (gas_fees_from-FeesAre payload.base_fee_per_gas (tx ∷ txs) 0 0 (omega arith) (omega arith)))
