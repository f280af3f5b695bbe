-- ===== src/Analyzer/Services/Waits.antt =====
-- The waits of the routines of pkg/analyzer. `none` is a call that waits for another routine. A wait
-- that the end of the context breaks leaves its channel in the map, which is not followed here.
use goteth.Common.{ℕ, ◌≡◌, Bool, Option, none, some, if◌then◌else◌, ◌>>=◌, arith}
use goteth.Spec.Block.{AgnosticBlock}
use goteth.Spec.State.{AgnosticState}
use goteth.Utils.RoutineBook.{receive, set_page, free_page, check_page_active}
use goteth.Analyzer.AgnosticMap.{AgnosticMap, find}
use goteth.Analyzer.Services.{ChainAnalyzer}

-- A wait that ended: by a value, or by the end of the context.
pub data Waited (A : Type 0) : Type 0 where
  got : A → Waited A
  ended : Waited A

unfoldable pub wait_key : {A : Type 0} → AgnosticMap A → Bool → ℕ → Option (Waited A)
wait_key m cancelled key = elim (find key m.entries) [
  | some value ↦ some (got value)
  | none ↦ if cancelled then some ended else none
]

unfoldable pub wait_block : ChainAnalyzer → ℕ → Option (Waited AgnosticBlock)
unfolding wait_key
wait_block s slot = wait_key s.download_cache.block_history s.cancelled slot

unfoldable pub wait_state : ChainAnalyzer → ℕ → Option (Waited AgnosticState)
unfolding wait_key
wait_state s epoch = wait_key s.download_cache.state_history s.cancelled epoch

-- `Acquire` of a routine that nothing interrupts between its two steps.
unfoldable pub acquire : ChainAnalyzer → ℕ → Option ChainAnalyzer
acquire s key = do
  received ← receive s.processer_book key
  booked ← set_page received key
  some (record s { processer_book = booked })

unfoldable pub release : ChainAnalyzer → ℕ → Option ChainAnalyzer
release s key = free_page s.processer_book key >>= λ book. some (record s { processer_book = book })

unfoldable pub wait_until_inactive : ChainAnalyzer → ℕ → Option ChainAnalyzer
wait_until_inactive s key = if check_page_active s.processer_book key then none else some s

pub wait_block_found :
    (s : ChainAnalyzer) (slot : ℕ) (block : AgnosticBlock)
    → find slot s.download_cache.block_history.entries ≡ some block
    → wait_block s slot ≡ some (got block)
unfolding wait_block wait_key
wait_block_found s slot block h = ground (arith, h)

pub wait_state_found :
    (s : ChainAnalyzer) (epoch : ℕ) (state : AgnosticState)
    → find epoch s.download_cache.state_history.entries ≡ some state
    → wait_state s epoch ≡ some (got state)
unfolding wait_state wait_key
wait_state_found s epoch state h = ground (arith, h)
