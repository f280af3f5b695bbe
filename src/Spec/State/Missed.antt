-- ===== src/Spec/State/Missed.antt =====
-- pkg/spec/state.go: `TrackMissingBlocks`, which reads missed slots off the repeated block roots.
use goteth.Common.{
  ℕ, zero, suc, ◌+◌, ◌-◌, ◌*◌, ◌%◌, ◌≡◌, ◌≤◌, Bool, false, not, ◌&&◌, ◌||◌, Option, some, List, [],
  ◌∷◌, ◌++◌, arith, ◌==◌, leb, ltb, if◌then◌else◌, get_elem?, add64, sub64, mul64, ◌>>=◌, elem,
  elem-append, >>=-eq-some,
}
use goteth.Spec.Constants.{slots_per_epoch, slots_per_historical_root}
use goteth.Spec.Slots.{EpochFits, epoch_at_slot}
use goteth.Spec.State.{AgnosticState}

unfoldable pub first_slot : ℕ → ℕ
unfolding mul64
first_slot epoch = mul64 epoch slots_per_epoch

unfoldable pub last_slot : ℕ → ℕ
unfolding mul64 add64 sub64
last_slot epoch = sub64 (add64 (mul64 epoch slots_per_epoch) slots_per_epoch) 1

-- The root before index `i`, which wraps around at 0.
unfoldable pub previous_root : List ℕ → ℕ → Option ℕ
previous_root roots i = get_elem? roots (if i == 0 then slots_per_historical_root - 1 else i - 1)

unfoldable pub is_repeated : List ℕ → ℕ → Option Bool
unfolding previous_root
is_repeated roots i = do
  previous_item ← previous_root roots i
  item ← get_elem? roots i
  some (previous_item == item)

-- The loop from index `i` on, with `rounds` rounds left.
unfoldable pub missing_from : List ℕ → ℕ → ℕ → ℕ → ℕ → List ℕ → Option (List ℕ)
missing_from roots epoch first_index zero i missed = some missed
missing_from roots epoch first_index (suc rounds) i missed = is_repeated roots i >>= λ res.
    missing_from roots epoch first_index rounds (suc i)
      (if res then missed ++ add64 (sub64 i first_index) (first_slot epoch) ∷ [] else missed)

unfoldable pub track_missing_blocks : AgnosticState → Option AgnosticState
track_missing_blocks p = do
  let first_index = first_slot p.epoch % slots_per_historical_root
  let last_index = last_slot p.epoch % slots_per_historical_root
  missed ← missing_from p.block_roots p.epoch first_index (last_index - first_index) first_index []
  header_slot ← p.latest_block_header_slot
  some (record p {
    missed_blocks =
        if header_slot == last_slot p.epoch then missed else missed ++ last_slot p.epoch ∷ [];
  })

-- The root that the history holds for a slot, and whether a slot repeats the root before it.
abbrev pub root_at : List ℕ → ℕ → Option ℕ
root_at roots slot = get_elem? roots (slot % slots_per_historical_root)

abbrev same_root : Option ℕ → Option ℕ → Bool
same_root (some a) (some b) = a == b
same_root _ _ = false

abbrev pub repeats : List ℕ → ℕ → Bool
repeats roots slot =
    same_root (root_at roots (slot + (slots_per_historical_root - 1))) (root_at roots slot)

repeats-is_repeated :
    (roots : List ℕ) (i slot : ℕ) (b : Bool)
    → slot % slots_per_historical_root ≡ i
    → is_repeated roots i ≡ some b
    → repeats roots slot ≡ b
unfolding is_repeated previous_root
repeats-is_repeated roots i slot b h e = rw (h, before) (ground arith)
  where
    before : (slot + 8191) % 8192 ≡ (if i == 0 then 8191 else i - 1)
    before = ground arith

abbrev index : ℕ → ℕ
index epoch = (epoch * 32) % 8192

module _ (epoch : ℕ) (fits : EpochFits epoch) where
  recorded_slot :
      (i k : ℕ)
      → i ≡ index epoch + k
      → k ≤ 31
      → add64 (sub64 i (index epoch)) (first_slot epoch) ≡ epoch * 32 + k
  unfolding add64 sub64 first_slot
  recorded_slot i k e h = omega arith

  first_index_lem : first_slot epoch % 8192 ≡ index epoch
  unfolding first_slot
  first_index_lem = omega arith

  rounds_lem : last_slot epoch % 8192 - first_slot epoch % 8192 ≡ 31
  unfolding first_slot last_slot
  rounds_lem = omega arith

  last_slot_lem : last_slot epoch ≡ epoch * 32 + 31
  unfolding last_slot
  last_slot_lem = omega arith

module _ (roots : List ℕ) (epoch : ℕ) (fits : EpochFits epoch) where
  missing_from-elem :
      (slot rounds k i : ℕ) (missed result : List ℕ)
      → i ≡ index epoch + k
      → k + rounds ≤ 31
      → missing_from roots epoch (index epoch) rounds i missed ≡ some result
      → elem slot result ≡ (
          elem slot missed
          || (leb (epoch * 32 + k) slot
              && ltb slot (epoch * 32 + k + rounds)
              && repeats roots slot))
  unfolding missing_from
  missing_from-elem slot zero k i missed result at h e = ground arith
  missing_from-elem slot (suc rounds) k i missed result at h e =
      let (res, found, rest) = >>=-eq-some (is_repeated roots i) _ e in
      let more =
        if res then missed ++ add64 (sub64 i (index epoch)) (first_slot epoch) ∷ [] else missed in
      ground (
        arith,
        recorded_slot epoch fits i k at (omega arith),
        elem-append slot missed ((epoch * 32 + k) ∷ []),
        repeats-is_repeated roots i (epoch * 32 + k) res (omega arith) found,
        missing_from-elem slot rounds (suc k) (suc i) more result (omega arith) (omega arith) rest,
      )

-- Of an epoch that fits, with a root history and a header that do not make it panic, the missed
-- slots are slots of the epoch: its last slot exactly if the latest header is of another slot, and
-- any other slot exactly if the history holds the same root for it and for the slot before it.
pub track_missing_blocks-elem :
    (p q : AgnosticState) (header_slot slot : ℕ)
    → EpochFits p.epoch
    → p.latest_block_header_slot ≡ some header_slot
    → track_missing_blocks p ≡ some q
    → elem slot q.missed_blocks ≡ (
        epoch_at_slot slot == p.epoch
        && (if slot == last_slot p.epoch
            then not (header_slot == slot)
            else repeats p.block_roots slot))
unfolding track_missing_blocks epoch_at_slot
track_missing_blocks-elem p q header_slot slot fits header e =
    let first = first_slot p.epoch % 8192 in
    let (missed, looped, rest) =
      >>=-eq-some
        (missing_from p.block_roots p.epoch first (last_slot p.epoch % 8192 - first) first []) _
        e in
    let started : missing_from p.block_roots p.epoch ((p.epoch * 32) % 8192) 31 first []
        ≡ some missed =
      rw (← first_index_lem p.epoch fits, ← rounds_lem p.epoch fits) looped in
    ground (
      arith,
      header,
      rest,
      last_slot_lem p.epoch fits,
      elem-append slot missed (last_slot p.epoch ∷ []),
      missing_from-elem p.block_roots p.epoch fits slot 31 0 first [] missed
          (omega (arith, first_index_lem p.epoch fits)) (omega arith) started,
    )
