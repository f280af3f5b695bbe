-- ===== src/Scenarios/CacheRuns.antt =====
-- The theorems on the map, the cache and the lists of validators at small values.
use goteth.Common.{true, elem, ◌≡◌, refl, none, some, List, [], ◌∷◌, arith}
use goteth.Spec.Block.{AgnosticBlock}
use goteth.Analyzer.AgnosticMap.{
  AgnosticMap, new_agnostic_map, find, waiting, set_key, wait, cancel, delete, get_key_list,
}
use goteth.Analyzer.AgnosticMap.Waiting.{WaitValid, Reaches, fresh, sets, waits, Reaches-WaitValid}
use goteth.Analyzer.ChainCache.{ChainCache, set_block, move_head, add_new_block, clean_up_to}
use goteth.Analyzer.ChainCache.Head.{move_head-overtaken}
use goteth.Analyzer.ChainCache.Clean.{IsCleaned, clean_up_to-IsCleaned}
use goteth.Utils.ValidatorIndexes.{PoolKeys, divide_validators_batches}
use goteth.Utils.ValidatorIndexes.Batches.{
  concat, NoLongerThan, divide_validators_batches-Partition,
}
use goteth.Scenarios.Fixtures.{state, block}

-- The routine 1 waits for the key 9632 of an empty map.
abbrev waiting_map : AgnosticMap AgnosticBlock
waiting_map = record { entries = []; subs = (9632, 1) ∷ []; gone = []; received = [] }

abbrev served_map : AgnosticMap AgnosticBlock
served_map = record {
  entries = (9632, block) ∷ [];
  subs = [];
  gone = [];
  received = (1, block) ∷ [];
}

served_run : set_key waiting_map 9632 block ≡ some served_map
unfolding set_key waiting goteth.Analyzer.AgnosticMap.put goteth.Analyzer.AgnosticMap.forget
served_run = refl

served-Reaches : Reaches served_map
unfolding wait new_agnostic_map find
served-Reaches =
    sets {m = waiting_map} 9632 block (waits {m = new_agnostic_map} 9632 1 fresh) served_run

Reaches-WaitValid_example : WaitValid served_map
Reaches-WaitValid_example = Reaches-WaitValid served_map served-Reaches

-- A cache with the head 9632.
abbrev cache : ChainCache
cache = record {
  state_history = record {
    entries = (300, state) ∷ (301, state) ∷ [];
    subs = [];
    gone = [];
    received = [];
  };
  block_history = served_map;
  head_block = some block;
  latest_finalized = none;
}

-- The blocks of the slots 9633 and 9634 are added at the same time.
abbrev low_block : AgnosticBlock
low_block = record block { slot = 9633 }

abbrev high_block : AgnosticBlock
high_block = record block { slot = 9634 }

abbrev low_set : ChainCache
low_set = elim (set_block cache low_block) [ none ↦ cache | some t ↦ t ]

low_run : set_block cache low_block ≡ some low_set
unfolding set_block set_key waiting
low_run = refl

abbrev high_added : ChainCache
high_added = elim (add_new_block low_set high_block) [ none ↦ cache | some t ↦ t ]

high_run : add_new_block low_set high_block ≡ some high_added
unfolding add_new_block set_block set_key waiting goteth.Analyzer.AgnosticMap.forget
high_run = refl

move_head-overtaken_example :
    let w = move_head (get_key_list cache.block_history) low_block high_added in
    (high_added.head_block ≡ some high_block)
    × (w.head_block ≡ some low_block)
    × (elem 9634 (get_key_list w.block_history) ≡ true)
unfolding get_key_list goteth.Analyzer.AgnosticMap.keys
move_head-overtaken_example =
    move_head-overtaken cache low_set high_added low_block high_block (omega arith) refl low_run
      high_run

clean_up_to-IsCleaned_example :
    IsCleaned 9632 (get_key_list cache.state_history) cache (clean_up_to cache 9632)
unfolding waiting
clean_up_to-IsCleaned_example =
    clean_up_to-IsCleaned cache 9632 (record { absent = λ key h. absurd (cc) })
      (record { absent = λ key h. absurd (cc) })

divide_validators_batches-Partition_example :
    (bs : List PoolKeys) × (divide_validators_batches 5 (4 ∷ 5 ∷ 6 ∷ 7 ∷ 8 ∷ []) 2 ≡ some bs)
    × (concat bs ≡ 4 ∷ 5 ∷ 6 ∷ 7 ∷ 8 ∷ [])
    × NoLongerThan 2 bs
divide_validators_batches-Partition_example =
    divide_validators_batches-Partition (4 ∷ 5 ∷ 6 ∷ 7 ∷ 8 ∷ []) 2 (omega arith) (omega arith)
