-- ===== src/Analyzer/ChainCache.antt =====
-- pkg/analyzer/chain_cache.go: the cache of downloaded states and blocks. `none` is a call that waits,
-- for a block that is not there or on a channel that nobody reads, or that panics.
pub mod Clean
pub mod Head
use goteth.Common.{
  ℕ, suc, ◌≡◌, Bool, true, false, Option, none, some, List, [], ◌∷◌, leb, if◌then◌else◌, mul64,
  range_from, loop, ◌>>=◌,
}
use goteth.Spec.Constants.{slots_per_epoch}
use goteth.Spec.Block.{AgnosticBlock}
use goteth.Spec.State.{AgnosticState}
use goteth.Spec.State.Blocks.{add_blocks, refresh_blocks}
use goteth.Analyzer.AgnosticMap.{
  AgnosticMap, new_agnostic_map, find, put, set_key, delete, get_key_list,
}

pub record ChainCache : Type 0 where
  pub state_history : AgnosticMap AgnosticState
  pub block_history : AgnosticMap AgnosticBlock
  pub head_block : Option AgnosticBlock
  pub latest_finalized : Option AgnosticBlock

unfoldable pub new_queue : ChainCache
new_queue = record {
  state_history = new_agnostic_map;
  block_history = new_agnostic_map;
  head_block = none;
  latest_finalized = none;
}

-- The blocks of the slots, once all of them are there.
unfoldable pub collect : AgnosticMap AgnosticBlock → List ℕ → Option (List AgnosticBlock)
collect history [] = some []
collect history (slot ∷ slots) = do
  block ← find slot history.entries
  blocks ← collect history slots
  some (block ∷ blocks)

-- The slots of an epoch whose slots are `uint64`s.
unfoldable pub slots_of : ℕ → List ℕ
slots_of epoch = range_from (mul64 epoch slots_per_epoch) 32

unfoldable pub add_new_state : ChainCache → AgnosticState → Option ChainCache
add_new_state s new_state = do
  blocks ← collect s.block_history (slots_of new_state.epoch)
  filled ← add_blocks new_state blocks
  history ← set_key s.state_history new_state.epoch filled
  some (record s { state_history = history })

-- Whether a key is not below the slot.
abbrev pub any_from : ℕ → List ℕ → Bool
any_from slot [] = false
any_from slot (key ∷ keys) = if leb slot key then true else any_from slot keys

-- The three steps of `AddNewBlock`, each under a lock of its own: other routines may run between them.
-- The keys are read first, by `get_key_list`.
unfoldable pub set_block : ChainCache → AgnosticBlock → Option ChainCache
set_block s block = set_key s.block_history block.slot block >>= λ history.
    some (record s { block_history = history })

unfoldable pub move_head : List ℕ → AgnosticBlock → ChainCache → ChainCache
move_head keys block s =
    if any_from block.slot keys then s else record s { head_block = some block }

-- The steps of a routine that no other one interrupts.
unfoldable pub add_new_block : ChainCache → AgnosticBlock → Option ChainCache
unfolding set_block move_head
add_new_block s block =
    let keys = get_key_list s.block_history in
    set_block s block >>= λ t. some (move_head keys block t)

-- The state is changed in place.
unfoldable pub refresh_state_blocks : ChainCache → ℕ → Option ChainCache
refresh_state_blocks s epoch = do
  state ← find epoch s.state_history.entries
  blocks ← collect s.block_history (slots_of epoch)
  refreshed ← refresh_blocks state blocks
  some (record s {
    state_history = record (s.state_history) {
      entries = put epoch refreshed s.state_history.entries;
    };
  })

unfoldable pub clean_epoch : ℕ → ChainCache → ℕ → ChainCache
clean_epoch max_slot s epoch = if leb max_slot (mul64 epoch slots_per_epoch) then s else (record s {
  state_history = delete s.state_history epoch;
  block_history = loop delete s.block_history (slots_of epoch);
})

unfoldable pub clean_up_to : ChainCache → ℕ → ChainCache
clean_up_to s max_slot = loop (clean_epoch max_slot) s (get_key_list s.state_history)
