-- ===== src/Analyzer/Blocks.antt =====
-- pkg/analyzer/process_block.go: what is written for a block. A block is a shared object, known by its
-- slot and root: a change of it is made in the map of blocks and in the states that hold it.
pub mod Deposits
pub mod Logs
pub mod Process
use goteth.Common.{
  ℕ, suc, ◌≡◌, Bool, true, false, not, ◌&&◌, Option, none, some, List, [], ◌∷◌, ◌++◌, ◌==◌, leb,
  if◌then◌else◌, ◌>>=◌, map, length, ◌%◌,
}
use goteth.Spec.Slots.{epoch_at_slot}
use goteth.Spec.Block.{
  AgnosticBlock, AgnosticTransaction, BlockDeposit, Withdrawal, BlsChangeMessage, LogEntry, Receipt,
  DataVersion, unknown, phase0, altair, bellatrix, capella, deneb, electra, fulu,
}
use goteth.Spec.Block.Transactions.{
  Eth1Deposit, AgnosticBlobSidecar, parse_eth1_deposit_from_log, parse_transactions_from_block,
  get_tx_hash,
}
use goteth.Spec.State.{AgnosticState, Deposit}
use goteth.Analyzer.AgnosticMap.{find, put}
use goteth.Analyzer.Services.{
  ChainAnalyzer, Services, WithdrawalRow, BlsToExecutionChange, slot_page, write, persist_blocks,
  persist_withdrawals, persist_deposits, persist_eth1_deposits, persist_bls_to_execution_changes,
  persist_transactions, persist_blob_sidecars,
}
use goteth.Analyzer.Services.Waits.{Waited, got, ended, wait_block, acquire, release}

-- The order of the forks.
unfoldable pub version_rank : DataVersion → ℕ
version_rank unknown = 0
version_rank phase0 = 1
version_rank altair = 2
version_rank bellatrix = 3
version_rank capella = 4
version_rank deneb = 5
version_rank electra = 6
version_rank fulu = 7

-- The block of a state, where it is the same object.
abbrev pub same_block : AgnosticBlock → AgnosticBlock → AgnosticBlock
same_block new old = if old.slot == new.slot && (old.root == new.root) then new else old

abbrev pub share_in_state : AgnosticBlock → ℕ × AgnosticState → ℕ × AgnosticState
share_in_state block (epoch, state) =
    (epoch, record state { blocks = map (same_block block) state.blocks })

abbrev pub share_in_history : AgnosticBlock → ℕ × AgnosticBlock → ℕ × AgnosticBlock
share_in_history block (slot, old) = (slot, same_block block old)

unfoldable pub share_block : ChainAnalyzer → AgnosticBlock → ChainAnalyzer
share_block s block = record s {
  download_cache = record (s.download_cache) {
    block_history = record (s.download_cache.block_history) {
      entries = map (share_in_history block) s.download_cache.block_history.entries;
    };
    state_history = record (s.download_cache.state_history) {
      entries = map (share_in_state block) s.download_cache.state_history.entries;
    };
  };
}

-- The block and the analyzer after a step, and whether the step gave an error.
pub record BlockPass : Type 0 where
  pub block : AgnosticBlock
  pub analyzer : ChainAnalyzer
  pub failed : Bool

abbrev pub with_transactions : AgnosticBlock → List AgnosticTransaction → AgnosticBlock
with_transactions block txs = record block {
  execution_payload = record (block.execution_payload) { agnostic_transactions = txs };
}

abbrev pub persist_txs :
    Services → ChainAnalyzer → AgnosticBlock → List AgnosticTransaction → BlockPass
persist_txs v s block [] = record { block = block; analyzer = s; failed = false }
persist_txs v s block (tx ∷ txs) = record {
  block = block;
  analyzer = write s (persist_transactions (tx ∷ txs));
  failed = v.fails (persist_transactions (tx ∷ txs));
}

abbrev pub parsed_txs :
    Services → ChainAnalyzer → AgnosticBlock → Option (List AgnosticTransaction) → BlockPass
parsed_txs v s block none = record { block = block; analyzer = s; failed = true }
parsed_txs v s block (some txs) = persist_txs v s (with_transactions block txs) txs

unfoldable pub process_transactions :
    Services → ChainAnalyzer → AgnosticBlock → List Receipt → BlockPass
process_transactions v s block receipts =
    parsed_txs v s block (parse_transactions_from_block v.unmarshal block receipts)

-- The topic of the event is the hash 0x649b….
abbrev pub deposit_event_topic : ℕ
deposit_event_topic = 0x649bbc62d0e31342afea4e5cd82d4049e7e1ee912fc0889aa790803be39038c5

abbrev pub deposit_event_data_length : ℕ
deposit_event_data_length = 576

unfoldable pub has_event : List ℕ → Bool
has_event [] = false
has_event (topic ∷ _) = topic == deposit_event_topic

-- The tests of the loop, up to the one that reads the data.
unfoldable pub is_deposit_log : ℕ → LogEntry → Bool
is_deposit_log contract log =
    if log.address == contract
    then (if has_event log.topics then leb deposit_event_data_length (length log.data') else false)
    else false

unfoldable pub deposits_of_logs :
    ℕ → AgnosticTransaction → List LogEntry → Option (List Eth1Deposit)
deposits_of_logs contract tx [] = some []
deposits_of_logs contract tx (log ∷ logs) =
    let rest = deposits_of_logs contract tx logs in
    if is_deposit_log contract log
    then (parse_eth1_deposit_from_log log tx >>= λ deposit.
        rest >>= λ deposits. some (deposit ∷ deposits))
    else rest

unfoldable pub deposits_of_transactions : ℕ → List AgnosticTransaction → Option (List Eth1Deposit)
deposits_of_transactions contract [] = some []
deposits_of_transactions contract (tx ∷ txs) = do
  first ← deposits_of_logs contract tx tx.receipt.logs
  rest ← deposits_of_transactions contract txs
  some (first ++ rest)

abbrev pub persist_found : Services → ChainAnalyzer → AgnosticBlock → List Eth1Deposit → BlockPass
persist_found v s block [] = record { block = block; analyzer = s; failed = false }
persist_found v s block (deposit ∷ deposits) = record {
  block = block;
  analyzer = write s (persist_eth1_deposits (deposit ∷ deposits));
  failed = v.fails (persist_eth1_deposits (deposit ∷ deposits));
}

-- `none` is the panic on a transaction without recipient.
unfoldable pub process_eth1_deposits : Services → ChainAnalyzer → AgnosticBlock → Option BlockPass
process_eth1_deposits v s block =
    deposits_of_transactions s.beacon_contract_address block.execution_payload.agnostic_transactions
    >>= λ deposits. some (persist_found v s block deposits)

abbrev pub tx_hashes :
    List AgnosticTransaction → List AgnosticBlobSidecar → List AgnosticBlobSidecar
tx_hashes [] blobs = blobs
tx_hashes (tx ∷ txs) blobs = map (λ blob. get_tx_hash blob (tx ∷ txs)) blobs

abbrev pub persist_blobs :
    ChainAnalyzer → List AgnosticTransaction → List AgnosticBlobSidecar → ChainAnalyzer
persist_blobs s txs [] = s
persist_blobs s txs (blob ∷ blobs) = write s (persist_blob_sidecars (tx_hashes txs (blob ∷ blobs)))

unfoldable pub process_blob_sidecars :
    Services → ChainAnalyzer → AgnosticBlock → List AgnosticTransaction → ChainAnalyzer
process_blob_sidecars v s block txs = persist_blobs s txs (
    if leb (version_rank fulu) (version_rank block.hard_fork_version)
    then v.request_fulu_blobs block.slot
    else v.request_blob_sidecars block.slot)

unfoldable pub process_blobs : Services → BlockPass → BlockPass
process_blobs v p =
    if leb (version_rank deneb) (version_rank p.block.hard_fork_version)
      && p.analyzer.metrics.blob_sidecars
    then (record p {
      analyzer =
          process_blob_sidecars v p.analyzer p.block
            p.block.execution_payload.agnostic_transactions;
    })
    else p

-- The part under `s.metrics.Transactions`; an error leaves out what follows.
unfoldable pub process_receipts :
    Services → ChainAnalyzer → AgnosticBlock → Option (List Receipt) → Option BlockPass
process_receipts v s block none = some (record { block = block; analyzer = s; failed = true })
process_receipts v s block (some receipts) =
    let p = process_transactions v s block receipts in
    if p.failed
    then some p
    else (process_eth1_deposits v p.analyzer p.block >>= λ q.
        some (if q.failed then q else process_blobs v q))

unfoldable pub process_eth1_data : Services → ChainAnalyzer → AgnosticBlock → Option BlockPass
process_eth1_data v s block =
    if s.metrics.transactions
    then process_receipts v s block (v.get_block_receipts block)
    else some (process_blobs v (record { block = block; analyzer = s; failed = false }))

-- The index is a `uint8`.
unfoldable pub deposit_row : AgnosticBlock → ℕ → BlockDeposit → Deposit
deposit_row block i item = record {
  slot = block.slot;
  epoch_processed = epoch_at_slot block.slot;
  public_key = item.public_key;
  withdrawal_credentials = item.withdrawal_credentials;
  amount = item.amount;
  signature = item.signature;
  index = i % 256;
}

unfoldable pub deposit_rows : AgnosticBlock → ℕ → List BlockDeposit → List Deposit
deposit_rows block i [] = []
deposit_rows block i (item ∷ items) = deposit_row block i item ∷ deposit_rows block (suc i) items

unfoldable pub process_deposits : ChainAnalyzer → AgnosticBlock → ChainAnalyzer
process_deposits s block = elim (deposit_rows block 0 block.deposits) [
  | [] ↦ s
  | row ∷ rows ↦ write s (persist_deposits (row ∷ rows))
]

abbrev pub bls_change : AgnosticBlock → BlsChangeMessage → BlsToExecutionChange
bls_change block item = record {
  slot = block.slot;
  epoch = epoch_at_slot block.slot;
  validator_index = item.validator_index;
  from_bls_public_key = item.from_bls_pubkey;
  to_execution_address = item.to_execution_address;
}

unfoldable pub process_bls_to_execution_changes : ChainAnalyzer → AgnosticBlock → ChainAnalyzer
process_bls_to_execution_changes s block =
    elim (map (bls_change block) block.bls_to_execution_changes) [
      | [] ↦ s
      | change ∷ changes ↦ write s (persist_bls_to_execution_changes (change ∷ changes))
    ]

abbrev pub withdrawal_row : AgnosticBlock → Withdrawal → WithdrawalRow
withdrawal_row block item = record {
  slot = block.slot;
  index = item.index;
  validator_index = item.validator_index;
  address = item.address;
  amount = item.amount;
}

-- An empty list is written too.
unfoldable pub process_withdrawals : ChainAnalyzer → AgnosticBlock → ChainAnalyzer
process_withdrawals s block =
    write s (persist_withdrawals (map (withdrawal_row block) block.execution_payload.withdrawals))
