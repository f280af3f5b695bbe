-- ===== src/Utils/ValidatorIndexes/Batches.antt =====
-- The batches of validators (pkg/utils/validator_indexes.go).
use goteth.Common.{
  ℕ, zero, suc, ◌+◌, ◌-◌, ◌/◌, ◌≤◌, ◌<◌, ◌≡◌, refl, sym, ap, ◌∙◌, true, false, Option, none, some,
  List, [], ◌∷◌, ◌++◌, ltb, length, take, drop, ◌>>=◌, arith, take-append-drop, ◌⊎◌, inl, inr,
}
use mathlib.Core.Path.{subst}
use goteth.Utils.ValidatorIndexes.{
  PoolKeys, slice, end_of, batch, batches_from, divide_validators_batches,
}

-- The validators of the batches, in order.
abbrev pub concat : List PoolKeys → List ℕ
concat [] = []
concat (b ∷ bs) = b.val_idxs ++ concat bs

abbrev pub NoLongerThan : ℕ → List PoolKeys → Type 0
NoLongerThan n [] = Unit {0}
NoLongerThan n (b ∷ bs) = (length b.val_idxs ≤ n) × NoLongerThan n bs

drop_nil : (n : ℕ) → drop {A = ℕ} n [] ≡ []
drop_nil zero = refl
drop_nil (suc n) = refl

drop_add : (m n k : ℕ) (xs : List ℕ) → k ≡ n + m → drop m (drop n xs) ≡ drop k xs
drop_add m zero k xs e =
    let same : m ≡ k = omega (arith, e) in subst (λ x. drop m xs ≡ drop x xs) same refl
drop_add m (suc n) k [] e = drop_nil m ∙ sym (drop_nil k)
drop_add m (suc n) zero (x ∷ xs) e = absurd (omega (arith, e))
drop_add m (suc n) (suc k) (x ∷ xs) e = drop_add m n k xs (omega (arith, e))

drop_all : (n : ℕ) (xs : List ℕ) → length xs ≤ n → drop n xs ≡ []
drop_all n [] h = drop_nil n
drop_all zero (x ∷ xs) h = absurd (omega (arith, h))
drop_all (suc n) (x ∷ xs) h = drop_all n xs (omega (arith, h))

length-take : (n : ℕ) (xs : List ℕ) → length (take n xs) ≤ n
length-take zero xs = omega arith
length-take (suc n) [] = omega arith
length-take (suc n) (x ∷ xs) = omega (arith, length-take n xs)

batch-drop :
    (input : List ℕ) (included to : ℕ)
    → included ≤ to
    → slice input included to ++ drop to input ≡ drop included input
batch-drop input included to le =
    ap (λ l. slice input included to ++ l)
      (sym (drop_add (to - included) included to input (omega (arith, le))))
    ∙ take-append-drop (to - included) (drop included input)

abbrev Partition : List ℕ → (step included : ℕ) → Option (List PoolKeys) → Type 0
Partition input step included o =
    (bs : List PoolKeys) × (o ≡ some bs) × (concat bs ≡ drop included input) × NoLongerThan step bs

all_included :
    (input : List ℕ) (step included : ℕ)
    → length input ≤ included
    → Partition input step included (some [])
all_included input step included h = ([], refl, sym (drop_all included input h), tt)

one_more :
    (input : List ℕ) (step included : ℕ) (rest : Option (List PoolKeys))
    → included < length input
    → Partition input step (end_of input step included) rest
    → Partition input step included (rest >>= (λ bs. some (batch input step included ∷ bs)))
one_more input step included rest low (bs, e, whole, short) =
    let to = end_of input step included in
    let le : included ≤ to = ground (arith, low) in
    let width : to - included ≤ step = ground arith in
    (
      batch input step included ∷ bs,
      ap (λ o. o >>= (λ l. some (batch input step included ∷ l))) e,
      ap (λ l. slice input included to ++ l) whole ∙ batch-drop input included to le,
      (omega (arith, width, length-take (to - included) (drop included input)), short),
    )

lt-or-le : (a b : ℕ) → (a < b) ⊎ (b ≤ a)
lt-or-le a b = ground arith

batches_from-Partition :
    (fuel : ℕ) (input : List ℕ) (step included : ℕ)
    → 0 < step
    → length input ≤ included + fuel
    → Partition input step included (batches_from fuel input step included)
unfolding batches_from
batches_from-Partition zero input step included pos enough =
    let over : ltb included (length input) ≡ false = ground (arith, enough) in
    rw over (all_included input step included (omega (arith, enough)))
batches_from-Partition (suc fuel) input step included pos enough =
    elim (lt-or-le included (length input)) [
      | inr over ↦
          let no : ltb included (length input) ≡ false = ground (arith, over) in
          rw no (all_included input step included over)
      | inl low ↦
          let yes' : ltb included (length input) ≡ true = ground (arith, low) in
          rw yes' (
            one_more input step included _ low (
              batches_from-Partition fuel input step (end_of input step included) pos
                (ground (arith, pos, low, enough))))
    ]

stuck : (fuel : ℕ) (input : List ℕ) → 0 < length input → batches_from fuel input 0 0 ≡ none
unfolding batches_from
stuck zero input h = ground (arith, h)
stuck (suc fuel) input h = ground (arith, h, stuck fuel input h)

-- With at least as many validators as workers, and a worker, the loop ends within one round for each
-- validator; the batches hold the validators, in order, each once, and no batch holds more than the
-- validators divided by the workers.
pub divide_validators_batches-Partition :
    (input : List ℕ) (workers : ℕ)
    → 0 < workers
    → 0 < length input / workers
    → (bs : List PoolKeys) × (divide_validators_batches (length input) input workers ≡ some bs)
      × (concat bs ≡ input)
      × NoLongerThan (length input / workers) bs
unfolding divide_validators_batches
divide_validators_batches-Partition input workers some_worker pos =
    let (bs, e, whole, short) =
      batches_from-Partition (length input) input (length input / workers) 0 pos (omega arith) in
    (bs, ground (arith, some_worker, e), whole, short)

-- With more workers than validators, and a validator, the loop ends on no fuel: it never advances.
pub divide_validators_batches-stuck :
    (fuel : ℕ) (input : List ℕ) (workers : ℕ)
    → 0 < length input
    → length input / workers ≡ 0
    → divide_validators_batches fuel input workers ≡ none
unfolding divide_validators_batches
divide_validators_batches-stuck fuel input workers any step0 =
    ground (arith, step0, stuck fuel input any)
