-- ===== src/Spec/Slots.antt =====
-- pkg/spec/utils.go and pkg/spec/metrics/utils.go: slots and epochs, which are `uint64`.
use goteth.Common.{
  ℕ, ◌+◌, ◌*◌, ◌/◌, ◌<◌, ◌≡◌, Bool, true, false, ◌&&◌, ◌↔◌, arith, ltb, leb, if◌then◌else◌, mul64,
  add64, u64_mod,
}
use goteth.Spec.Constants.{slots_per_epoch}

unfoldable pub compute_start_slot_at_epoch : ℕ → ℕ
unfolding mul64
compute_start_slot_at_epoch epoch = mul64 epoch slots_per_epoch

unfoldable pub first_slot_in_epoch : ℕ → ℕ
first_slot_in_epoch slot = slot / slots_per_epoch * slots_per_epoch

unfoldable pub epoch_at_slot : ℕ → ℕ
epoch_at_slot slot = slot / slots_per_epoch

unfoldable pub uint64_max : ℕ → ℕ → ℕ
uint64_max a b = if ltb b a then a else b

unfoldable pub uint64_min : ℕ → ℕ → ℕ
uint64_min a b = if ltb a b then a else b

unfoldable pub slot_in_epoch : ℕ → ℕ → Bool
unfolding mul64 add64
slot_in_epoch slot epoch =
    if leb (mul64 epoch slots_per_epoch) slot && ltb slot (mul64 (add64 epoch 1) slots_per_epoch)
    then true
    else false

-- The epochs whose slots, and the first slot after them, are `uint64` values.
abbrev pub EpochFits : ℕ → Type 0
EpochFits epoch = (epoch + 1) * slots_per_epoch < u64_mod

-- In an epoch that fits, the epoch of its first slot is the epoch itself, and that slot is the
-- first one of the epoch of every slot of the epoch.
pub epoch_at_slot-compute_start_slot_at_epoch :
    (epoch slot : ℕ)
    → EpochFits epoch
    → (epoch_at_slot (compute_start_slot_at_epoch epoch) ≡ epoch)
      × (epoch_at_slot slot ≡ epoch → first_slot_in_epoch slot ≡ compute_start_slot_at_epoch epoch)
unfolding epoch_at_slot compute_start_slot_at_epoch first_slot_in_epoch
epoch_at_slot-compute_start_slot_at_epoch epoch slot h = omega arith

-- In an epoch that fits, `slotInEpoch` holds exactly of the slots that `EpochAtSlot` sends to it.
pub slot_in_epoch_iff :
    (slot epoch : ℕ)
    → EpochFits epoch
    → (slot_in_epoch slot epoch ≡ true) ↔ (epoch_at_slot slot ≡ epoch)
unfolding slot_in_epoch epoch_at_slot
slot_in_epoch_iff slot epoch h = ground arith
