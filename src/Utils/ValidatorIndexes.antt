-- ===== src/Utils/ValidatorIndexes.antt =====
-- pkg/utils/validator_indexes.go: batches of validators, the validators that no pool has, and the pool
-- of the others.
pub mod Batches
pub mod Missing
use Prim.Native.String.{String}
use goteth.Common.{
  ℕ, zero, suc, ◌+◌, ◌-◌, ◌/◌, ◌≡◌, Bool, true, false, Option, none, some, List, [], ◌∷◌, ◌++◌, ltb,
  ◌==◌, if◌then◌else◌, length, take, drop, set, get_elem?, replicate, ◌>>=◌,
}

pub record PoolKeys : Type 0 where
  pub pool_name : String
  pub val_idxs : List ℕ

-- `input[from:to]`.
abbrev pub slice : List ℕ → ℕ → ℕ → List ℕ
slice input from to = take (to - from) (drop from input)

abbrev pub end_of : List ℕ → ℕ → ℕ → ℕ
end_of input step included =
    if ltb (length input) (included + step) then length input else included + step

abbrev pub batch : List ℕ → ℕ → ℕ → PoolKeys
batch input step included = record {
  pool_name = "";
  val_idxs = slice input included (end_of input step included);
}

-- The loop, with fuel: `none` is a loop that has not ended when the fuel has.
unfoldable pub batches_from : ℕ → List ℕ → ℕ → ℕ → Option (List PoolKeys)
batches_from zero input step included = if ltb included (length input) then none else some []
batches_from (suc fuel) input step included =
    let rest = batches_from fuel input step (end_of input step included) in
    if ltb included (length input)
    then rest >>= (λ bs. some (batch input step included ∷ bs))
    else some []

-- The workers are not negative; with none the division panics, `none`.
unfoldable pub divide_validators_batches : ℕ → List ℕ → ℕ → Option (List PoolKeys)
divide_validators_batches fuel input workers =
    if workers == 0 then none else batches_from fuel input (length input / workers) 0

-- `valList[item] = 1`, where an index out of bounds panics.
unfoldable pub mark : List ℕ → List ℕ → Option (List ℕ)
mark val_list [] = some val_list
mark val_list (item ∷ items) = get_elem? val_list item >>= (λ _. mark (set val_list item 1) items)

unfoldable pub mark_pools : List ℕ → List (List ℕ) → Option (List ℕ)
mark_pools val_list [] = some val_list
mark_pools val_list (pool ∷ pools) = mark val_list pool >>= (λ marked. mark_pools marked pools)

-- The second loop, from the index `i` on.
unfoldable pub unmarked : ℕ → List ℕ → List ℕ
unmarked i [] = []
unmarked i (x ∷ xs) = let rest = unmarked (suc i) xs in if x == 0 then i ∷ rest else rest

unfoldable pub obtain_missing : ℕ → List (List ℕ) → Option (List ℕ)
obtain_missing val_len pool_vals =
    mark_pools (replicate val_len 0) pool_vals >>= (λ marked. some (unmarked 0 marked))
