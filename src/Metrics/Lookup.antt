-- ===== src/Metrics/Lookup.antt =====
-- pkg/spec/metrics/utils.go: the state and the block of a slot, and the delay to the closest
-- proposed block. An error result is `none` inside the answer; a panic is `none` around it.
use goteth.Common.{
  ℕ, ◌+◌, ◌%◌, ◌≡◌, Bool, ◌&&◌, Option, none, some, arith, leb, ltb, ◌==◌, if◌then◌else◌, get_elem?,
  add64, mul64, ◌>>=◌,
}
use goteth.Spec.Constants.{slots_per_epoch}
use goteth.Spec.Slots.{EpochFits, epoch_at_slot}
use goteth.Spec.Block.{AgnosticBlock}
use goteth.Spec.State.{AgnosticState}
use goteth.Metrics.{StateMetricsBase}

-- `start ≤ slot < end`, the test of each branch.
unfoldable pub between : ℕ → ℕ → ℕ → Bool
between start end slot = leb start slot && ltb slot end

unfoldable pub get_state_at_slot : StateMetricsBase → ℕ → Option AgnosticState
unfolding between mul64 add64
get_state_at_slot s slot =
    let prev = mul64 s.prev_state.epoch slots_per_epoch in
    let current = mul64 s.current_state.epoch slots_per_epoch in
    let next = mul64 s.next_state.epoch slots_per_epoch in
    if between prev current slot
    then some s.prev_state
    else if between current next slot
    then some s.current_state
    else if between next (mul64 (add64 s.next_state.epoch 1) slots_per_epoch) slot
    then some s.next_state
    else none

-- The same three branches; the block is then read at the slot's place in the epoch.
unfoldable pub get_block_from_slot : StateMetricsBase → ℕ → Option (Option AgnosticBlock)
unfolding between mul64 add64
get_block_from_slot s slot =
    let prev = mul64 s.prev_state.epoch slots_per_epoch in
    let current = mul64 s.current_state.epoch slots_per_epoch in
    let next = mul64 s.next_state.epoch slots_per_epoch in
    let place = slot % slots_per_epoch in
    if between prev current slot
    then get_elem? s.prev_state.blocks place >>= (λ b. some (some b))
    else if between current next slot
    then get_elem? s.current_state.blocks place >>= (λ b. some (some b))
    else if between next (mul64 (add64 s.next_state.epoch 1) slots_per_epoch) slot
    then get_elem? s.next_state.blocks place >>= (λ b. some (some b))
    else some none

-- The states of three consecutive epochs, whose slots fit.
pub record Consecutive (s : StateMetricsBase) : Type 0 where
  pub current_follows : s.current_state.epoch ≡ s.prev_state.epoch + 1
  pub next_follows : s.next_state.epoch ≡ s.prev_state.epoch + 2
  pub fits : EpochFits s.next_state.epoch

-- Of three consecutive epochs, the state of a slot is the state whose epoch is that of the slot,
-- and there is none exactly if the slot lies in no epoch of the three.
pub get_state_at_slot-epoch_at_slot :
    (s : StateMetricsBase) (slot : ℕ)
    → Consecutive s
    → get_state_at_slot s slot ≡ (
        if epoch_at_slot slot == s.prev_state.epoch
        then some s.prev_state
        else if epoch_at_slot slot == s.current_state.epoch
        then some s.current_state
        else if epoch_at_slot slot == s.next_state.epoch
        then some s.next_state
        else none)
unfolding get_state_at_slot epoch_at_slot
get_state_at_slot-epoch_at_slot s slot c = ground arith
