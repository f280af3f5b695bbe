-- ===== src/Metrics/Electra/Deposits/Bounds.antt =====
-- What the replay for the records processes (pkg/spec/metrics/state_electra.go).
use goteth.Common.{
  ℕ, ◌+◌, ◌≤◌, ◌<◌, ◌≡◌, refl, sym, ap, ◌∙◌, Bool, true, ◌&&◌, none, some, List, [], ◌∷◌, ◌++◌,
  ◌==◌, leb, if◌then◌else◌, add64, u64_mod, length, length-append, loop, loop-append, arith,
}
use goteth.Spec.Slots.{compute_start_slot_at_epoch}
use goteth.Spec.State.{AgnosticState, PendingDeposit, Deposit, bump}
use goteth.Metrics.Electra.Deposits.{
  Fate, stop, postpone, apply, record_fate, find_pubkey, is_withdrawn, processed_deposit,
  DepositsPass, process_deposits_from, process_pending_deposits, available_for_processing,
  apply_deposit, start,
}

abbrev pub credit_one : AgnosticState → ℕ → ℕ → Deposit → ℕ
credit_one s j acc d = elim (find_pubkey s d.public_key) [
  | none ↦ acc
  | some (i, _) ↦ if j == i then add64 acc d.amount else acc
]

abbrev pub consume_one : AgnosticState → ℕ → ℕ → Deposit → ℕ
consume_one s next_epoch acc d =
    if is_withdrawn next_epoch (find_pubkey s d.public_key) then acc else acc + d.amount

-- `acc` and the amounts of the deposits whose key the map sends to `j`.
abbrev pub credited : AgnosticState → ℕ → ℕ → List Deposit → ℕ
credited s j = loop (credit_one s j)

-- The amounts of the deposits that consume churn: those whose validator is not withdrawn.
abbrev pub consumed : AgnosticState → ℕ → List Deposit → ℕ
consumed s next_epoch = loop (consume_one s next_epoch) 0

abbrev pub all_until : ℕ → List Deposit → Bool
all_until slot [] = true
all_until slot (d ∷ ds) = leb d.slot slot && all_until slot ds

all_until-append :
    (slot : ℕ) (ds : List Deposit) (d : Deposit)
    → all_until slot ds ≡ true
    → d.slot ≤ slot
    → all_until slot (ds ++ d ∷ []) ≡ true
all_until-append slot [] d h k = ground arith
all_until-append slot (x ∷ ds) d h k =
    let rest : all_until slot ds ≡ true = ground (arith, h) in
    ground (arith, h, all_until-append slot ds d rest k)

-- No sum that the loop tests exceeds a `uint64`.
abbrev pub Fits : ℕ → List PendingDeposit → Type 0
Fits available [] = 0 ≤ available
Fits available (d ∷ ds) = (available + d.amount < u64_mod) × Fits available ds

pub record IsReplay (s : AgnosticState) (next_epoch finalized_slot available : ℕ) (p : DepositsPass)
    : Type 0 where
  few : length p.processed_deposits ≤ p.next_deposit_index
  limited : p.next_deposit_index ≤ 16
  counted :
      p.deposits_num ≡ loop (λ acc (d : Deposit). add64 acc 1) s.deposits_num p.processed_deposits
  total :
      p.total_deposits_amount
      ≡ loop (λ acc (d : Deposit). add64 acc d.amount) s.total_deposits_amount p.processed_deposits
  credits :
      (j : ℕ) → p.deposited_amounts j ≡ credited s j (s.deposited_amounts j) p.processed_deposits
  final : all_until finalized_slot p.processed_deposits ≡ true
  churn : consumed s next_epoch p.processed_deposits ≡ p.processed_amount
  bounded : p.processed_amount ≤ available

module _ (s : AgnosticState) (e f a : ℕ) where
  record Admitted (amount count : ℕ) (d : PendingDeposit) (amount' : ℕ) : Type 0 where
    in_time : d.slot ≤ f
    room : count < 16
    paid : amount' ≡ (if is_withdrawn e (find_pubkey s d.pubkey) then amount else amount + d.amount)
    within : amount' ≤ a

  record_fate-Admitted :
      (d : PendingDeposit) (amount count amount' : ℕ)
      → a + d.amount < u64_mod
      → amount ≤ a
      → record_fate s e f a amount count d ≡ apply amount'
      → Admitted amount count d amount'
  unfolding record_fate add64
  record_fate-Admitted d amount count amount' fit le h = record {
    in_time = ground (arith, h);
    room = ground (arith, h);
    paid = ground (arith, h, fit, le);
    within = ground (arith, h, fit, le);
  }

  postponed-room :
      (d : PendingDeposit) (amount count : ℕ)
      → record_fate s e f a amount count d ≡ postpone
      → count < 16
  unfolding record_fate
  postponed-room d amount count h = ground (arith, h)

  apply-IsReplay :
      (d : PendingDeposit) (p : DepositsPass) (amount : ℕ)
      → Admitted p.processed_amount p.next_deposit_index d amount
      → IsReplay s e f a p
      → IsReplay s e f a (apply_deposit s d amount p)
  unfolding bump add64
  apply-IsReplay d p amount h inv =
      let last = processed_deposit s d p.index in
      record {
        few =
            omega
              (arith, length-append p.processed_deposits (last ∷ []), inv.few, h.room, inv.limited);
        limited = omega (arith, h.room);
        counted = ap (λ n. add64 n 1) inv.counted ∙ sym (loop-append _ _ p.processed_deposits _);
        total = ap (λ n. add64 n d.amount) inv.total ∙ sym (loop-append _ _ p.processed_deposits _);
        credits = λ j. ground (
          arith,
          loop-append (credit_one s j) (s.deposited_amounts j) p.processed_deposits (last ∷ []),
          inv.credits j,
        );
        final = all_until-append f p.processed_deposits last inv.final h.in_time;
        churn =
            loop-append (consume_one s e) 0 p.processed_deposits (last ∷ [])
            ∙ ground (arith, inv.churn, h.paid);
        bounded = h.within;
      }

  postpone-IsReplay :
      (p : DepositsPass)
      → p.next_deposit_index < 16
      → IsReplay s e f a p
      → IsReplay s e f a (record p { next_deposit_index = add64 p.next_deposit_index 1 })
  unfolding add64
  postpone-IsReplay p room inv = record {
    few = omega (arith, inv.few, room);
    limited = omega (arith, room);
    counted = inv.counted;
    total = inv.total;
    credits = inv.credits;
    final = inv.final;
    churn = inv.churn;
    bounded = inv.bounded;
  }

  round-IsReplay :
      (d : PendingDeposit) (ds : List PendingDeposit) (p : DepositsPass) (v : Fate)
      → record_fate s e f a p.processed_amount p.next_deposit_index d ≡ v
      → a + d.amount < u64_mod
      → IsReplay s e f a p
      → ((q : DepositsPass)
          → IsReplay s e f a q
          → IsReplay s e f a (process_deposits_from s e f a ds q))
      → IsReplay s e f a (process_deposits_from s e f a (d ∷ ds) p)
  unfolding process_deposits_from
  round-IsReplay d ds p stop h fit inv ih = rw (h, process_deposits_from) inv
  round-IsReplay d ds p postpone h fit inv ih =
      rw (h, process_deposits_from)
        (ih _
          (postpone-IsReplay p (postponed-room d p.processed_amount p.next_deposit_index h) inv))
  round-IsReplay d ds p (apply amount) h fit inv ih =
      rw (h, process_deposits_from)
        (ih _ (
          apply-IsReplay d p amount
            (record_fate-Admitted d p.processed_amount p.next_deposit_index amount fit inv.bounded
              h)
            inv))

  process_deposits_from-IsReplay :
      (ds : List PendingDeposit) (p : DepositsPass)
      → Fits a ds
      → IsReplay s e f a p
      → IsReplay s e f a (process_deposits_from s e f a ds p)
  unfolding process_deposits_from
  process_deposits_from-IsReplay [] p fits inv = inv
  process_deposits_from-IsReplay (d ∷ ds) p (fit, fits) inv =
      round-IsReplay d ds p (record_fate s e f a p.processed_amount p.next_deposit_index d) refl fit
        inv (λ q. process_deposits_from-IsReplay ds q fits)

-- What `processPendingDeposits` leaves in the state `r`.
pub record IsProcessed (s r : AgnosticState) : Type 0 where
  pub at_most_16 : length r.deposits_processed ≤ 16
  pub counted :
      r.deposits_num ≡ loop (λ acc (d : Deposit). add64 acc 1) s.deposits_num r.deposits_processed
  pub total :
      r.total_deposits_amount
      ≡ loop (λ acc (d : Deposit). add64 acc d.amount) s.total_deposits_amount r.deposits_processed
  pub credits :
      (j : ℕ) → r.deposited_amounts j ≡ credited s j (s.deposited_amounts j) r.deposits_processed
  pub final :
      all_until
        (compute_start_slot_at_epoch s.current_finalized_checkpoint.epoch)
        r.deposits_processed
      ≡ true
  pub churn : consumed s (add64 s.epoch 1) r.deposits_processed ≤ available_for_processing s

-- If no sum of the churn and of a pending amount exceeds a `uint64`, then at most 16 deposits are
-- processed, all of them from slots up to the first one of the finalized epoch; the number and the
-- total of the deposits grow by theirs, every validator is credited with the amounts of the processed
-- deposits of its key, and those that consume churn add up to no more than what is available.
pub process_pending_deposits-IsProcessed :
    (s : AgnosticState)
    → Fits (available_for_processing s) s.pending_deposits
    → IsProcessed s (process_pending_deposits s)
unfolding process_pending_deposits add64 available_for_processing
process_pending_deposits-IsProcessed s fits =
    let first : IsReplay s (add64 s.epoch 1)
        (compute_start_slot_at_epoch s.current_finalized_checkpoint.epoch)
        (available_for_processing s) (start s) =
      record {
        few = omega arith;
        limited = omega arith;
        counted = refl;
        total = refl;
        credits = λ j. refl;
        final = refl;
        churn = refl;
        bounded = omega arith;
      } in
    let inv = process_deposits_from-IsReplay s _ _ _ s.pending_deposits (start s) fits first in
    record {
      at_most_16 = omega (arith, inv.few, inv.limited);
      counted = inv.counted;
      total = inv.total;
      credits = inv.credits;
      final = inv.final;
      churn = omega (arith, inv.churn, inv.bounded);
    }
