-- ===== src/Scenarios/SpecRuns.antt =====
-- The theorems on pkg/spec at small states.
use goteth.Common.{◌≡◌, refl, none, some, [], ◌∷◌}
use goteth.Spec.State.{AgnosticState}
use goteth.Spec.State.Blocks.{add_blocks, refresh_blocks}
use goteth.Spec.State.Blocks.Refresh.{refresh_blocks-add_blocks}
use goteth.Scenarios.Fixtures.{state, block}

-- `add_blocks` with the one block.
abbrev filled : AgnosticState
filled = elim (add_blocks state (block ∷ [])) [ none ↦ state | some s ↦ s ]

filled_run : add_blocks state (block ∷ []) ≡ some filled
unfolding add_blocks goteth.Spec.State.Blocks.calculate_withdrawals
    goteth.Spec.State.Blocks.add_block_withdrawals goteth.Spec.State.Blocks.add_withdrawal
filled_run = refl

refresh_blocks-add_blocks_example : refresh_blocks filled [] ≡ refresh_blocks state []
refresh_blocks-add_blocks_example =
    refresh_blocks-add_blocks state filled (block ∷ []) [] filled_run
