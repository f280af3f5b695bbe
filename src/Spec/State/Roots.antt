-- ===== src/Spec/State/Roots.antt =====
-- pkg/spec/state.go: `GetBlockRoot` and `GetBlockRootAtSlot`. A read out of bounds panics.
use goteth.Common.{ℕ, ◌%◌, Option, get_elem?, mul64}
use goteth.Spec.Constants.{slots_per_epoch, slots_per_historical_root}
use goteth.Spec.State.{AgnosticState}

unfoldable pub get_block_root_at_slot : AgnosticState → ℕ → Option ℕ
get_block_root_at_slot state slot = get_elem? state.block_roots (slot % slots_per_historical_root)

unfoldable pub get_block_root : AgnosticState → ℕ → Option ℕ
get_block_root state epoch = get_block_root_at_slot state (mul64 epoch slots_per_epoch)
