-- ===== src/Analyzer/Blocks/Deposits.antt =====
-- The deposits of the consensus layer in a block, with their index (pkg/analyzer/process_block.go).
use goteth.Common.{
  ℕ, zero, suc, ◌+◌, ◌%◌, ◌≡◌, refl, ap, ◌∙◌, some, List, [], ◌∷◌, arith, length, get_elem?,
}
use goteth.Spec.Slots.{epoch_at_slot}
use goteth.Spec.Block.{AgnosticBlock, BlockDeposit}
use goteth.Spec.State.{Deposit}
use goteth.Analyzer.Services.{ChainAnalyzer, write, persist_deposits}
use goteth.Analyzer.Blocks.{deposit_row, deposit_rows, process_deposits}

length-deposit_rows :
    (block : AgnosticBlock) (i : ℕ) (items : List BlockDeposit)
    → length (deposit_rows block i items) ≡ length items
unfolding deposit_rows
length-deposit_rows block i [] = refl
length-deposit_rows block i (item ∷ items) = ap suc (length-deposit_rows block (suc i) items)

get_elem?-deposit_rows :
    (block : AgnosticBlock) (i k : ℕ) (items : List BlockDeposit) (item : BlockDeposit)
    → get_elem? items k ≡ some item
    → get_elem? (deposit_rows block i items) k ≡ some (deposit_row block (i + k) item)
unfolding deposit_rows
get_elem?-deposit_rows block i k [] item h = absurd (cc)
get_elem?-deposit_rows block i zero (x ∷ items) item h = ground (arith, h)
get_elem?-deposit_rows block i (suc k) (x ∷ items) item h =
    get_elem?-deposit_rows block (suc i) k items item h
    ∙ ap (λ n. some (deposit_row block n item)) (omega arith)

process_deposits-write :
    (s : ChainAnalyzer) (block : AgnosticBlock) (item : BlockDeposit) (k : ℕ)
    → get_elem? block.deposits k ≡ some item
    → process_deposits s block ≡ write s (persist_deposits (deposit_rows block 0 block.deposits))
unfolding process_deposits
process_deposits-write s block item k h =
    ground (arith, h, get_elem?-deposit_rows block 0 k block.deposits item h)

-- A block with a `k`-th deposit has one call of the database, with a row for each deposit in their
-- order; the `k`-th row has the fields of the deposit, the slot and the epoch of the block, and the
-- index `k` modulo 256.
pub process_deposits-rows :
    (s : ChainAnalyzer) (block : AgnosticBlock) (item : BlockDeposit) (k : ℕ)
    → get_elem? block.deposits k ≡ some item
    → (rows : List Deposit) × (process_deposits s block ≡ write s (persist_deposits rows))
      × (length rows ≡ length block.deposits)
      × (get_elem? rows k
          ≡ some (record {
            slot = block.slot;
            epoch_processed = epoch_at_slot block.slot;
            public_key = item.public_key;
            withdrawal_credentials = item.withdrawal_credentials;
            amount = item.amount;
            signature = item.signature;
            index = k % 256;
          }))
unfolding deposit_row
process_deposits-rows s block item k h = (
  deposit_rows block 0 block.deposits,
  process_deposits-write s block item k h,
  length-deposit_rows block 0 block.deposits,
  get_elem?-deposit_rows block 0 k block.deposits item h
      ∙ ap (λ n. some (deposit_row block n item)) (omega arith),
)
