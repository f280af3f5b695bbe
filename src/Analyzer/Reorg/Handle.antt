-- ===== src/Analyzer/Reorg/Handle.antt =====
-- pkg/analyzer/reorg.go, `HandleReorg`: from the head down, every slot is downloaded again until more
-- proposed blocks below the slot of the reorganisation than its depth are seen.
pub mod Reach
use goteth.Common.{
  ℕ, zero, suc, ◌+◌, ◌-◌, ◌/◌, ◌%◌, ◌≡◌, Bool, true, false, not, ◌&&◌, Option, none, some, List, [],
  ◌∷◌, ◌==◌, ltb, leb, if◌then◌else◌, ◌>>=◌, add64, sub64,
}
use goteth.Spec.Constants.{slots_per_epoch}
use goteth.Spec.Block.{AgnosticBlock}
use goteth.Spec.State.{AgnosticState}
use goteth.Analyzer.Services.{
  ChainAnalyzer, Services, slot_page, epoch_page, write, delete_block_metrics, delete_state_metrics,
  persist_orphans,
}
use goteth.Analyzer.Services.Waits.{Waited, got, ended, wait_block, wait_state, wait_until_inactive}
use goteth.Analyzer.Blocks.Process.{process_block}
use goteth.Analyzer.States.Transition.{process_state_transition_metrics}
use goteth.Analyzer.Download.{download_block, download_state}
use goteth.Analyzer.Reorg.{Step, go_on, stop_at, turn}

pub record ChainReorgEvent : Type 0 where
  pub slot : ℕ
  pub depth : ℕ

-- A wait that the end of the context breaks ends the loop.
abbrev pub or_stop :
    {A B : Type 0} → ChainAnalyzer → Option (Waited A) → (A → Option (Step B)) → Option (Step B)
or_stop s none k = none
or_stop s (some ended) k = some (stop_at s)
or_stop s (some (got a)) k = k a

-- The metrics of a slot whose block changed; a block that was proposed is kept as an orphan.
unfoldable pub rewrite_block :
    Services → ChainAnalyzer → ℕ → AgnosticBlock → AgnosticBlock → Option ChainAnalyzer
rewrite_block v s slot old_block new_block =
    if new_block.root == old_block.root
    then some s
    else process_block v
        (write (if old_block.proposed then write s (persist_orphans (old_block ∷ [])) else s)
          (delete_block_metrics slot))
        slot

unfoldable pub rewrite_state :
    Services → ChainAnalyzer → ℕ → AgnosticState → AgnosticState → Option ChainAnalyzer
rewrite_state v s epoch old_state new_state =
    if new_state.state_root == old_state.state_root
    then some s
    else process_state_transition_metrics v (write s (delete_state_metrics epoch)) epoch

-- The page that is waited for is that of the epoch whose number is the slot.
unfoldable pub reorg_state : Services → ChainAnalyzer → ℕ → Option (Step ChainAnalyzer)
unfolding rewrite_state
reorg_state v s slot =
    let epoch = slot / slots_per_epoch in
    or_stop s (wait_state s epoch) λ old_state. wait_until_inactive s (epoch_page slot) >>= λ t.
    download_state v t slot >>= λ u.
    or_stop u (wait_state u epoch)
      λ new_state. rewrite_state v u epoch old_state new_state >>= λ w. some (go_on w)

-- The part of a round after the count.
unfoldable pub reorg_slot :
    Services → ChainAnalyzer → ℕ → AgnosticBlock → Option (Step ChainAnalyzer)
unfolding rewrite_block reorg_state
reorg_slot v s slot old_block = wait_until_inactive s (slot_page slot) >>= λ t.
    download_block v t slot >>= λ u. or_stop u (wait_block u slot) λ new_block.
      rewrite_block v u slot old_block new_block >>= λ w.
      if add64 slot 1 % slots_per_epoch == 0 then reorg_state v w slot else some (go_on w)

abbrev pub count_reorged : ChainReorgEvent → ℕ → AgnosticBlock → ℕ → ℕ
count_reorged new_reorg slot block reorged_slots =
    if ltb slot new_reorg.slot && block.proposed then add64 reorged_slots 1 else reorged_slots

-- The analyzer at the end of the loop, and the last slot that was handled.
abbrev pub Handled : Type 0
Handled = ChainAnalyzer × ℕ

-- After slot 0 the loop would go on at the highest `uint64`: it waits there for ever, unless the
-- context ends.
abbrev pub below_zero : ChainAnalyzer → Option (Step Handled)
below_zero s = or_stop s (wait_block s (sub64 0 1)) λ _. none

unfoldable pub handle_from :
    Services → ChainReorgEvent → ChainAnalyzer → ℕ → ℕ → Option (Step Handled)
unfolding reorg_slot
handle_from v new_reorg s reorged_slots zero = or_stop s (wait_block s 0) λ block.
    reorg_slot v s 0 block >>= λ step. turn step λ t.
      if leb (count_reorged new_reorg 0 block reorged_slots) new_reorg.depth
      then below_zero t
      else some (go_on (t, 0))
handle_from v new_reorg s reorged_slots (suc i) = or_stop s (wait_block s (suc i)) λ block.
    reorg_slot v s (suc i) block >>= λ step. turn step λ t.
      let rest =
        handle_from v new_reorg t (count_reorged new_reorg (suc i) block reorged_slots) i in
      if leb (count_reorged new_reorg (suc i) block reorged_slots) new_reorg.depth
      then rest
      else some (go_on (t, suc i))

-- Without a head block the read of it is a panic.
unfoldable pub handle_reorg : Services → ChainAnalyzer → ChainReorgEvent → Option (Step Handled)
unfolding handle_from
handle_reorg v s new_reorg =
    s.download_cache.head_block >>= λ head. handle_from v new_reorg s 0 head.slot
