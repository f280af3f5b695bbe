-- ===== src/Metrics/EpochReward.antt =====
-- pkg/spec/metrics/standard.go: `EpochReward`. An `int64` is its bit pattern; validator indices lie
-- below 2 ^ 63, so that their conversion to `int` keeps them.
use goteth.Common.{
  ℕ, ◌+◌, ◌≡◌, ◌<◌, ◌&&◌, Option, some, arith, ltb, if◌then◌else◌, length, get_elem?, get_elem?-lt,
  add64, sub64, ◌>>=◌, int64_value, sub_ℕ, i64_min_bits,
}
use goteth.Metrics.{StateMetricsBase}

-- `depositedAmount`: what was processed from the queue and what the blocks brought.
unfoldable pub deposited_amount : StateMetricsBase → ℕ → Option ℕ
deposited_amount p val_idx =
    if ltb val_idx (length p.next_state.deposits)
    then get_elem? p.next_state.deposits val_idx
      >>= (λ d. some (add64 (p.current_state.deposited_amounts val_idx) d))
    else some (p.current_state.deposited_amounts val_idx)

-- What the validator received as the target, and sent as the source, of consolidations.
abbrev pub received : StateMetricsBase → ℕ → ℕ
received p = p.current_state.consolidated_amounts

abbrev pub sent : StateMetricsBase → ℕ → ℕ
sent p = p.current_state.consolidated_out_amounts

-- The five steps that change `reward`.
unfoldable pub balance_reward : (next current withdrawn deposited : ℕ) → (taken given : ℕ) → ℕ
balance_reward next current withdrawn deposited taken given =
    let reward = add64 (sub64 next current) withdrawn in
    add64 (sub64 (sub64 reward deposited) taken) given

unfoldable pub reward_in_range : StateMetricsBase → ℕ → ℕ → Option ℕ
unfolding balance_reward
reward_in_range p val_idx deposited = do
  next_balance ← get_elem? p.next_state.balances val_idx
  current_balance ← get_elem? p.current_state.balances val_idx
  withdrawn ← get_elem? p.next_state.withdrawals val_idx
  some (
      balance_reward next_balance current_balance withdrawn deposited (received p val_idx)
        (sent p val_idx))

unfoldable pub epoch_reward : StateMetricsBase → ℕ → Option ℕ
unfolding deposited_amount reward_in_range
epoch_reward p val_idx = deposited_amount p val_idx >>= λ deposited.
    if ltb val_idx (length p.current_state.balances) && ltb val_idx (length p.next_state.balances)
    then reward_in_range p val_idx deposited
    else some 0

balance_reward_value :
    (next current withdrawn deposited taken given : ℕ)
    → next + withdrawn + given < i64_min_bits
    → current + deposited + taken < i64_min_bits
    → int64_value (balance_reward next current withdrawn deposited taken given)
      ≡ sub_ℕ (next + withdrawn + given) (current + deposited + taken)
unfolding balance_reward add64 sub64
balance_reward_value next current withdrawn deposited taken given g l = ground arith

-- For a validator that both states hold, where what it gained and what it was given stay below
-- 2 ^ 63, the reward is the exact integer: the next balance with the withdrawals and the
-- consolidated amount sent, less the current balance with the deposits and the consolidated amount
-- received.
pub epoch_reward_value :
    (p : StateMetricsBase) (val_idx next current withdrawn deposited : ℕ)
    → get_elem? p.next_state.balances val_idx ≡ some next
    → get_elem? p.current_state.balances val_idx ≡ some current
    → get_elem? p.next_state.withdrawals val_idx ≡ some withdrawn
    → deposited_amount p val_idx ≡ some deposited
    → next + withdrawn + sent p val_idx < i64_min_bits
    → current + deposited + received p val_idx < i64_min_bits
    → (reward : ℕ) × (epoch_reward p val_idx ≡ some reward)
      × (int64_value reward
          ≡ sub_ℕ (next + withdrawn + sent p val_idx) (current + deposited + received p val_idx))
unfolding epoch_reward reward_in_range
epoch_reward_value p val_idx next current withdrawn deposited n c w d g l = (
  balance_reward next current withdrawn deposited (received p val_idx) (sent p val_idx),
  ground (
    arith,
    n,
    c,
    w,
    d,
    get_elem?-lt p.next_state.balances val_idx n,
    get_elem?-lt p.current_state.balances val_idx c,
  ),
  balance_reward_value next current withdrawn deposited _ _ g l,
)
