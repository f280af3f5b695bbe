-- ===== src/Analyzer/Download.antt =====
-- pkg/analyzer/download.go and epoch_boundary_state_root.go: the downloads of blocks and states, and
-- the state roots that the head events announced. `none` is a wait for another routine.
pub mod Roots
use goteth.Common.{
  ℕ, zero, suc, ◌+◌, ◌-◌, ◌*◌, ◌/◌, ◌≡◌, Bool, true, false, not, ◌&&◌, ◌||◌, Option, none, some,
  List, List, [], ◌∷◌, ◌==◌, ltb, leb, if◌then◌else◌, ◌>>=◌,
}
use goteth.Spec.Constants.{slots_per_epoch}
use goteth.Spec.Block.{AgnosticBlock}
use goteth.Spec.State.{AgnosticState}
use goteth.Utils.RoutineBook.{check_page_active}
use goteth.Analyzer.AgnosticMap.{find, put, remove_key, available}
use goteth.Analyzer.ChainCache.{ChainCache, add_new_block, add_new_state, collect, slots_of}
use goteth.Analyzer.Services.{ChainAnalyzer, Services, epoch_page}
use goteth.Analyzer.States.Transition.{shut_down}

unfoldable pub set_epoch_boundary_state_root : ChainAnalyzer → ℕ → ℕ → ChainAnalyzer
set_epoch_boundary_state_root s slot root = record s {
  epoch_boundary_state_roots = put slot root s.epoch_boundary_state_roots;
}

-- The root, where there is one; it is taken out.
unfoldable pub take_epoch_boundary_state_root : ChainAnalyzer → ℕ → ChainAnalyzer × Option ℕ
take_epoch_boundary_state_root s slot = (
  record s { epoch_boundary_state_roots = remove_key slot s.epoch_boundary_state_roots },
  find slot s.epoch_boundary_state_roots,
)

-- The cache after a block has come; `none` is a set on a key whose waiting routine is gone.
abbrev pub with_cache : ChainAnalyzer → Option ChainCache → Option ChainAnalyzer
with_cache s cache = cache >>= λ c. some (record s { download_cache = c })

abbrev pub add_block : ChainAnalyzer → Option AgnosticBlock → Option ChainAnalyzer
add_block s none = some (shut_down s)
add_block s (some new_block) = with_cache s (add_new_block s.download_cache new_block)

unfoldable pub download_block : Services → ChainAnalyzer → ℕ → Option ChainAnalyzer
download_block v s slot =
    if s.metrics.block then add_block s (v.request_beacon_block slot) else some s

-- At most three attempts, one second apart.
unfoldable pub attempts : Services → ℕ → ℕ → ℕ → ℕ → Option AgnosticState
attempts v slot root attempt zero = none
attempts v slot root attempt (suc left) =
    let again = attempts v slot root (suc attempt) left in
    elim (v.request_beacon_state_by_root attempt slot root) [
      | some state ↦ some state
      | none ↦ again
    ]

abbrev pub state_by : Services → ℕ → Option ℕ → Option AgnosticState
state_by v slot none = v.request_beacon_state slot
state_by v slot (some root) = attempts v slot root 0 3

-- `AddNewState` waits for the blocks of the epoch; where one is missing and the context has ended it
-- gives up, and the cache stays.
abbrev pub with_blocks :
    ChainAnalyzer → Option (List AgnosticBlock) → Option ChainAnalyzer → Option ChainAnalyzer
with_blocks s none k = if s.cancelled then some s else none
with_blocks s (some _) k = k

abbrev pub add_state : ChainAnalyzer → Option AgnosticState → Option ChainAnalyzer
add_state s none = some (shut_down s)
add_state s (some state) =
    with_blocks s (collect s.download_cache.block_history (slots_of state.epoch))
      (with_cache s (add_new_state s.download_cache state))

unfoldable pub download_state : Services → ChainAnalyzer → ℕ → Option ChainAnalyzer
unfolding attempts take_epoch_boundary_state_root
download_state v s slot =
    if s.metrics.epoch
    then (let (t, root) = take_epoch_boundary_state_root s slot in
        add_state t (state_by v slot root))
    else some s

-- The epoch that a block waits for, and the slot at whose end its state is downloaded.
abbrev pub prev_state_epoch : ℕ → ℕ
prev_state_epoch slot = slot / slots_per_epoch - 2

abbrev pub prev_state_slot : ℕ → ℕ
prev_state_slot slot = (prev_state_epoch slot + 1) * slots_per_epoch - 1

abbrev pub is_behind : ChainAnalyzer → ℕ → Bool
is_behind s slot =
    not (available s.download_cache.state_history (prev_state_epoch slot))
    || check_page_active s.processer_book (epoch_page (prev_state_epoch slot))

-- `none` where the routine waits with its ticker.
unfoldable pub wait_for_prev_state : ChainAnalyzer → ℕ → Option ChainAnalyzer
wait_for_prev_state s slot =
    if not s.metrics.epoch
    then some s
    else if ltb slot (slots_per_epoch * 2)
    then some s
    else if is_behind s slot && leb s.init_slot (prev_state_slot slot)
    then (if s.cancelled then some s else none)
    else some s

unfoldable pub download_block_cotrolled : Services → ChainAnalyzer → ℕ → Option ChainAnalyzer
unfolding wait_for_prev_state download_block
download_block_cotrolled v s slot = wait_for_prev_state s slot >>= λ t. download_block v t slot
