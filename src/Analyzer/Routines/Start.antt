-- ===== src/Analyzer/Routines/Start.antt =====
-- pkg/analyzer/routines.go: the slots at which `fillToHead` starts and from which `runHead` waits.
use goteth.Common.{
  ℕ, ◌+◌, ◌-◌, ◌*◌, ◌/◌, ◌%◌, ◌≤◌, ◌<◌, ◌≡◌, ◌⊎◌, ◌||◌, Option, none, some, ◌==◌, ltb,
  if◌then◌else◌, sub64, u64_mod, arith,
}
use goteth.Spec.Constants.{slots_per_epoch}
use goteth.Spec.Slots.{first_slot_in_epoch}
use goteth.Analyzer.Aggregation.{Aggregator, new_aggregator}

abbrev pub epochs_to_finalized_tentative : ℕ
epochs_to_finalized_tentative = 4

-- The first slot, from the last one in the database and the finalized one.
unfoldable pub next_slot_download : ℕ → ℕ → ℕ
next_slot_download db_head finalized_slot =
    let start = first_slot_in_epoch db_head in
    let from = if (start == 0) || ltb finalized_slot start then finalized_slot else start in
    sub64 from (epochs_to_finalized_tentative * slots_per_epoch) / slots_per_epoch * slots_per_epoch

-- The part of `fillToHead` that sets the analyzer: the first slot, and the window of the aggregation.
-- `none` is the end of the program, where the node or the database gives an error.
unfoldable pub fill_to_head : Option ℕ → Option ℕ → ℕ → Option (ℕ × Aggregator)
unfolding next_slot_download
fill_to_head none db_head rewards_aggregation_epochs = none
fill_to_head (some finalized_slot) none rewards_aggregation_epochs = none
fill_to_head (some finalized_slot) (some db_head) rewards_aggregation_epochs =
    let init_slot = next_slot_download db_head finalized_slot / slots_per_epoch * slots_per_epoch in
    some (init_slot, new_aggregator init_slot rewards_aggregation_epochs)

-- The first slot whose block `runHead` waits for.
unfoldable pub wait_from : ℕ → ℕ → ℕ
wait_from init_slot next =
    let from = if ltb (5 * slots_per_epoch) next then next - 5 * slots_per_epoch else next in
    if ltb from init_slot then init_slot else from

-- Once the chain and the database are four epochs along, the start is the first slot of an epoch, four
-- to five epochs below the finalized slot or below the last slot in the database, whichever it goes on
-- from, and never above the finalized slot: no subtraction wraps around.
pub next_slot_download_bounds :
    (db_head finalized_slot : ℕ)
    → 128 ≤ finalized_slot
    → finalized_slot < u64_mod
    → (db_head / 32 ≡ 0) ⊎ (128 ≤ db_head)
    → (next_slot_download db_head finalized_slot % 32 ≡ 0)
      × (next_slot_download db_head finalized_slot + 128 ≤ finalized_slot)
unfolding next_slot_download first_slot_in_epoch sub64
next_slot_download_bounds db_head finalized_slot h l m = ground (arith, m)
