-- ===== src/Utils/ValidatorIndexes/Missing.antt =====
-- The validators that no pool has (pkg/utils/validator_indexes.go).
use goteth.Common.{
  ℕ, zero, suc, ◌+◌, ◌≤◌, ◌≡◌, refl, Bool, false, not, ◌&&◌, ◌||◌, some, List, [], ◌∷◌, ltb, ◌==◌,
  set, get_elem?, replicate, elem, >>=-eq-some, some_inj, arith,
}
use goteth.Utils.ValidatorIndexes.{mark, mark_pools, unmarked, obtain_missing}

abbrev is_zero : List ℕ → ℕ → Bool
is_zero [] j = false
is_zero (x ∷ xs) zero = x == 0
is_zero (x ∷ xs) (suc j) = is_zero xs j

-- Some pool has the index.
abbrev pub in_pools : ℕ → List (List ℕ) → Bool
in_pools j [] = false
in_pools j (pool ∷ pools) = elem j pool || in_pools j pools

is_zero-set : (xs : List ℕ) (i j : ℕ) → is_zero (set xs i 1) j ≡ (is_zero xs j && not (j == i))
is_zero-set [] i j = ground arith
is_zero-set (x ∷ xs) zero zero = ground arith
is_zero-set (x ∷ xs) zero (suc j) = ground arith
is_zero-set (x ∷ xs) (suc i) zero = ground arith
is_zero-set (x ∷ xs) (suc i) (suc j) = ground (arith, is_zero-set xs i j)

is_zero-replicate : (n j : ℕ) → is_zero (replicate n 0) j ≡ ltb j n
is_zero-replicate zero j = ground arith
is_zero-replicate (suc n) zero = ground arith
is_zero-replicate (suc n) (suc j) = ground (arith, is_zero-replicate n j)

is_zero-mark :
    (items l t : List ℕ) (j : ℕ)
    → mark l items ≡ some t
    → is_zero t j ≡ (is_zero l j && not (elem j items))
unfolding mark
is_zero-mark [] l t j h = ground (arith, some_inj h)
is_zero-mark (x ∷ xs) l t j h =
    let (_, _, rest) = >>=-eq-some (get_elem? l x) _ h in
    ground (arith, is_zero-mark xs (set l x 1) t j rest, is_zero-set l x j)

is_zero-mark_pools :
    (pools : List (List ℕ)) (l t : List ℕ) (j : ℕ)
    → mark_pools l pools ≡ some t
    → is_zero t j ≡ (is_zero l j && not (in_pools j pools))
unfolding mark_pools
is_zero-mark_pools [] l t j h = ground (arith, some_inj h)
is_zero-mark_pools (p ∷ ps) l t j h =
    let (m, first, rest) = >>=-eq-some (mark l p) _ h in
    ground (arith, is_zero-mark p l m j first, is_zero-mark_pools ps m t j rest)

elem-unmarked_below : (i j : ℕ) (xs : List ℕ) → suc j ≤ i → elem j (unmarked i xs) ≡ false
unfolding unmarked
elem-unmarked_below i j [] h = refl
elem-unmarked_below i j (x ∷ xs) h =
    ground (arith, h, elem-unmarked_below (suc i) j xs (omega (arith, h)))

elem-unmarked : (i j : ℕ) (xs : List ℕ) → elem (i + j) (unmarked i xs) ≡ is_zero xs j
unfolding unmarked
elem-unmarked i j [] = refl
elem-unmarked i zero (x ∷ xs) = ground (arith, elem-unmarked_below (suc i) i xs (omega arith))
elem-unmarked i (suc j) (x ∷ xs) = ground (arith, elem-unmarked (suc i) j xs)

-- Where no pool has an index out of bounds, the missing validators are exactly the indices of
-- validators that no pool has.
pub obtain_missing-elem :
    (val_len : ℕ) (pool_vals : List (List ℕ)) (missing : List ℕ) (j : ℕ)
    → obtain_missing val_len pool_vals ≡ some missing
    → elem j missing ≡ (ltb j val_len && not (in_pools j pool_vals))
unfolding obtain_missing
obtain_missing-elem val_len pool_vals missing j h =
    let (marked, e, done) = >>=-eq-some (mark_pools (replicate val_len 0) pool_vals) _ h in
    ground (
      arith,
      is_zero-mark_pools pool_vals (replicate val_len 0) marked j e,
      is_zero-replicate val_len j,
      some_inj done,
      elem-unmarked 0 j marked,
    )
