-- ===== src/Analyzer/Reorg/Advance.antt =====
-- pkg/analyzer/reorg.go, `AdvanceFinalized`: the blocks and states of the final epochs are compared
-- with the node, and the metrics that depend on one that changed are written again.
pub mod Sorted
pub mod Stale
use goteth.Common.{
  ℕ, zero, suc, ◌+◌, ◌-◌, ◌/◌, ◌≡◌, Bool, true, false, not, ◌&&◌, ◌||◌, Option, none, some, List,
  [], ◌∷◌, ◌==◌, leb, if◌then◌else◌, ◌>>=◌, elem,
}
use goteth.Spec.Constants.{slots_per_epoch}
use goteth.Spec.State.{AgnosticState}
use goteth.Analyzer.AgnosticMap.{find, delete, get_key_list}
use goteth.Analyzer.ChainCache.{collect, slots_of, refresh_state_blocks, clean_up_to}
use goteth.Analyzer.Services.{ChainAnalyzer, Services, write, delete_state_metrics}
use goteth.Analyzer.Services.Waits.{Waited, got, ended, wait_state}
use goteth.Analyzer.States.Transition.{process_state_transition_metrics}
use goteth.Analyzer.Download.{download_state, with_cache, with_blocks}
use goteth.Analyzer.Reorg.{
  Step, go_on, stop_at, turn, Checked, check_blocks, ensure_dependency_states,
}

-- `sort.Slice` of the keys, by insertion.
unfoldable pub insert_key : ℕ → List ℕ → List ℕ
insert_key key [] = key ∷ []
insert_key key (x ∷ xs) = if leb key x then key ∷ x ∷ xs else x ∷ insert_key key xs

unfoldable pub sort_keys : List ℕ → List ℕ
unfolding insert_key
sort_keys [] = []
sort_keys (x ∷ xs) = insert_key x (sort_keys xs)

-- The analyzer, and the epochs some of whose blocks have changed.
pub record Advance : Type 0 where
  pub analyzer : ChainAnalyzer
  pub changed : List ℕ

unfoldable pub needs_reprocess : Bool → Bool → List ℕ → ℕ → Bool
needs_reprocess state_root_changed blocks_changed changed epoch =
    state_root_changed
    || blocks_changed
    || (leb 1 epoch && elem (epoch - 1) changed)
    || (leb 2 epoch && elem (epoch - 2) changed)

-- A state whose root is wrong is taken out of the cache and downloaded again.
unfoldable pub replace_state :
    Services → ChainAnalyzer → Bool → ℕ → AgnosticState → Option ChainAnalyzer
replace_state v s false epoch cache_state = some s
replace_state v s true epoch cache_state =
    download_state v
      (record s {
        download_cache = record (s.download_cache) {
          state_history = delete s.download_cache.state_history epoch;
        };
      })
      cache_state.slot

unfoldable pub reprocess :
    Services → ChainAnalyzer → Bool → ℕ → AgnosticState → Option ChainAnalyzer
unfolding replace_state
reprocess v s state_root_changed epoch cache_state = do
  replaced ← replace_state v s state_root_changed epoch cache_state
  ensured ← ensure_dependency_states v replaced epoch
  process_state_transition_metrics v (write ensured (delete_state_metrics epoch)) epoch

-- The answer of the node on the root of the state; on an error the epoch is passed over.
unfoldable pub check_state_root :
    Services → ChainAnalyzer → List ℕ → Bool → ℕ → AgnosticState → Option ℕ → Option (Step Advance)
unfolding needs_reprocess reprocess
check_state_root v s changed blocks_changed epoch cache_state none =
    some (go_on (record { analyzer = s; changed = changed }))
check_state_root v s changed blocks_changed epoch cache_state (some root) =
    let state_root_changed = not (root == cache_state.state_root) in
    if needs_reprocess state_root_changed blocks_changed changed epoch
    then (reprocess v s state_root_changed epoch cache_state >>= λ t.
        some (go_on (record { analyzer = t; changed = changed })))
    else some (go_on (record { analyzer = s; changed = changed }))

unfoldable pub check_state :
    Services → ChainAnalyzer → List ℕ → Bool → ℕ → Waited AgnosticState → Option (Step Advance)
unfolding check_state_root
check_state v s changed blocks_changed epoch ended = some (stop_at s)
check_state v s changed blocks_changed epoch (got cache_state) =
    check_state_root v s changed blocks_changed epoch cache_state
      (v.request_state_root cache_state.slot)

-- The state and then the blocks of the epoch are waited for, and the blocks of the state are read again;
-- where one is missing and the context has ended, the error is only logged.
abbrev pub refreshed : ChainAnalyzer → Bool → ℕ → Option ChainAnalyzer
refreshed s false epoch = some s
refreshed s true epoch =
    with_blocks s
      (find epoch s.download_cache.state_history.entries >>= λ _.
        collect s.download_cache.block_history (slots_of epoch))
      (with_cache s (refresh_state_blocks s.download_cache epoch))

abbrev pub mark_changed : Bool → ℕ → List ℕ → List ℕ
mark_changed false epoch changed = changed
mark_changed true epoch changed = epoch ∷ changed

unfoldable pub after_blocks : Services → List ℕ → ℕ → Step Checked → Option (Step Advance)
unfolding check_state
after_blocks v changed epoch (stop_at t) = some (stop_at t)
after_blocks v changed epoch (go_on (s, blocks_changed)) = refreshed s blocks_changed epoch >>= λ t.
    wait_state t epoch >>= λ waited.
    check_state v t (mark_changed blocks_changed epoch changed) blocks_changed epoch waited

unfoldable pub advance_epoch : Services → Advance → ℕ → Option (Step Advance)
unfolding after_blocks
advance_epoch v a epoch =
    check_blocks v a.analyzer false (slots_of epoch) >>= λ step. after_blocks v a.changed epoch step

unfoldable pub advance_epochs : Services → ℕ → Advance → List ℕ → Option (Step Advance)
unfolding advance_epoch
advance_epochs v finalized_epoch a [] = some (go_on a)
advance_epochs v finalized_epoch a (epoch ∷ epochs) =
    let skipped = advance_epochs v finalized_epoch a epochs in
    if leb finalized_epoch epoch
    then skipped
    else (advance_epoch v a epoch >>= λ step.
        turn step λ b. advance_epochs v finalized_epoch b epochs)

-- The cache is cleaned unless the end of the context broke the loop off.
abbrev pub cleaned : ℕ → Step Advance → ChainAnalyzer
cleaned new_finalized_slot (stop_at t) = t
cleaned new_finalized_slot (go_on a) = record (a.analyzer) {
  download_cache = clean_up_to a.analyzer.download_cache new_finalized_slot;
}

unfoldable pub advance_finalized : Services → ChainAnalyzer → ℕ → Option ChainAnalyzer
unfolding sort_keys advance_epochs
advance_finalized v s new_finalized_slot =
    advance_epochs v (new_finalized_slot / slots_per_epoch) (record { analyzer = s; changed = [] })
      (sort_keys (get_key_list s.download_cache.state_history))
    >>= λ step. some (cleaned new_finalized_slot step)
