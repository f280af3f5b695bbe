-- ===== src/Analyzer/Reorg.antt =====
-- pkg/analyzer/reorg.go: what is checked and written again when blocks become final, and when the
-- chain is reorganised. Slots and epochs are `uint64`. `none` is a wait for another routine or a
-- `log.Fatal`; a run that the end of the context breaks off is `some`.
pub mod Advance
pub mod Ensured
pub mod Handle
use goteth.Common.{
  ℕ, zero, suc, ◌+◌, ◌-◌, ◌*◌, ◌/◌, ◌%◌, ◌≡◌, Bool, true, false, not, ◌&&◌, ◌||◌, Option, none,
  some, List, [], ◌∷◌, ◌==◌, ltb, leb, if◌then◌else◌, ◌>>=◌, add64, sub64, mul64, range_from, loop?,
  elem,
}
use goteth.Spec.Constants.{slots_per_epoch}
use goteth.Spec.Block.{AgnosticBlock}
use goteth.Spec.State.{AgnosticState}
use goteth.Analyzer.AgnosticMap.{available, delete, get_key_list}
use goteth.Analyzer.ChainCache.{ChainCache, slots_of, refresh_state_blocks, clean_up_to}
use goteth.Analyzer.Services.{
  ChainAnalyzer, Services, slot_page, epoch_page, write, delete_block_metrics, delete_state_metrics,
  persist_orphans,
}
use goteth.Analyzer.Services.Waits.{Waited, got, ended, wait_block, wait_state, wait_until_inactive}
use goteth.Analyzer.Blocks.Process.{process_block}
use goteth.Analyzer.States.Transition.{process_state_transition_metrics}
use goteth.Analyzer.Download.{download_block, download_state}

-- The epochs whose states the transition to an epoch reads, first the epoch itself.
unfoldable pub dependencies : ℕ → List ℕ
dependencies epoch =
    epoch
    ∷ (if leb 1 epoch then (epoch - 1) ∷ (if leb 2 epoch then (epoch - 2) ∷ [] else []) else [])

unfoldable pub ensure_block : Services → ChainAnalyzer → ℕ → Option ChainAnalyzer
ensure_block v s slot =
    if available s.download_cache.block_history slot then some s else download_block v s slot

-- The state of an epoch is asked for by its last slot, after the blocks of the epoch.
unfoldable pub ensure_state : Services → ChainAnalyzer → ℕ → Option ChainAnalyzer
unfolding ensure_block
ensure_state v s dep =
    if ltb dep (s.init_slot / slots_per_epoch)
    then some s
    else if available s.download_cache.state_history dep
    then some s
    else (loop? (ensure_block v) s (slots_of dep) >>= λ t.
        download_state v t (sub64 (mul64 (add64 dep 1) slots_per_epoch) 1))

unfoldable pub ensure_dependency_states : Services → ChainAnalyzer → ℕ → Option ChainAnalyzer
unfolding ensure_state
ensure_dependency_states v s epoch = loop? (ensure_state v) s (dependencies epoch)

-- A step of a loop that the end of the context may break off.
pub data Step (A : Type 0) : Type 0 where
  go_on : A → Step A
  stop_at : ChainAnalyzer → Step A

-- The rest of a round, unless the slot ended the loop.
abbrev pub turn : {A B : Type 0} → Step A → (A → Option (Step B)) → Option (Step B)
turn (stop_at t) k = some (stop_at t)
turn (go_on a) k = k a

pub turn-go_on :
    {A B : Type 0} (step : Step A) (k : A → Option (Step B)) (b : B)
    → turn step k ≡ some (go_on b)
    → (a : A) × (k a ≡ some (go_on b))
turn-go_on (stop_at t) k b e = absurd (cc)
turn-go_on (go_on a) k b e = (a, e)

-- One slot of the check: the analyzer, and whether a block of the epoch has changed.
abbrev pub Checked : Type 0
Checked = ChainAnalyzer × Bool

unfoldable pub check_root :
    Services → ChainAnalyzer → Bool → ℕ → Waited AgnosticBlock → Option (Step Checked)
check_root v s changed slot ended = some (stop_at s)
check_root v s changed slot (got cache_block) =
    if v.request_block_root cache_block.slot == cache_block.root
    then some (go_on (s, changed))
    else (process_block v (write s (delete_block_metrics slot)) slot >>= λ t.
        some (go_on (t, true)))

unfoldable pub check_blocks : Services → ChainAnalyzer → Bool → List ℕ → Option (Step Checked)
unfolding check_root
check_blocks v s changed [] = some (go_on (s, changed))
check_blocks v s changed (slot ∷ slots) = wait_block s slot >>= λ waited.
    check_root v s changed slot waited >>= λ step. turn step λ c. check_blocks v c.0 c.1 slots
