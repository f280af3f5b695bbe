-- ===== src/Spec/Block/Transactions.antt =====
-- pkg/spec/transactions.go, eth1_deposit.go and blob.go: the transactions of a block with their
-- receipts, the deposits that their logs announce, and the transaction of a blob.
use goteth.Common.{
  ℕ, suc, ◌+◌, ◌*◌, Option, none, some, List, [], ◌∷◌, ◌==◌, if◌then◌else◌, take, drop, loop, ◌>>=◌,
}
use goteth.Spec.Block.{LogEntry, Receipt, AgnosticTransaction, AgnosticBlock}

-- What the library of Ethereum reads in an encoded transaction; `sender` is `none` where the
-- signature gives no sender.
pub record EthTransaction : Type 0 where
  pub hash : ℕ
  pub to : Option ℕ
  pub sender : Option ℕ
  pub blob_hashes : List ℕ

unfoldable pub parse_transaction_from_receipt :
    EthTransaction → Receipt → ℕ → ℕ → ℕ → ℕ → Option AgnosticTransaction
parse_transaction_from_receipt parsed_tx receipt slot block_number timestamp tx_idx = do
  from ← parsed_tx.sender
  some (record {
    tx_idx = tx_idx;
    gas = receipt.gas_used;
    gas_price = receipt.effective_gas_price;
    to = parsed_tx.to;
    from = from;
    hash = parsed_tx.hash;
    slot = slot;
    block_number = block_number;
    timestamp = timestamp;
    blob_hashes = parsed_tx.blob_hashes;
    receipt = receipt;
  })

-- The first receipt of the transaction, if there is one.
unfoldable pub find_receipt : ℕ → List Receipt → Option Receipt
find_receipt hash [] = none
find_receipt hash (receipt ∷ receipts) =
    if receipt.tx_hash == hash then some receipt else find_receipt hash receipts

-- `none` is the error of the source: a transaction that does not decode, or has no sender.
unfoldable pub parse_transactions :
    (ℕ → Option EthTransaction)
    → AgnosticBlock
    → List Receipt
    → ℕ
    → List ℕ
    → Option (List AgnosticTransaction)
unfolding parse_transaction_from_receipt find_receipt
parse_transactions unmarshal block receipts tx_idx [] = some []
parse_transactions unmarshal block receipts tx_idx (tx ∷ txs) =
    let rest = parse_transactions unmarshal block receipts (suc tx_idx) txs in
    unmarshal tx >>= λ parsed_tx. elim (find_receipt parsed_tx.hash receipts) [
      | none ↦ rest
      | some receipt ↦
          parse_transaction_from_receipt parsed_tx receipt block.slot
            block.execution_payload.block_number block.execution_payload.timestamp tx_idx
          >>= λ agnostic_tx. rest >>= λ agnostic_txs. some (agnostic_tx ∷ agnostic_txs)
    ]

unfoldable pub parse_transactions_from_block :
    (ℕ → Option EthTransaction) → AgnosticBlock → List Receipt → Option (List AgnosticTransaction)
unfolding parse_transactions
parse_transactions_from_block unmarshal block receipts =
    parse_transactions unmarshal block receipts 0 block.execution_payload.transactions

-- `binary.LittleEndian.Uint64` of eight bytes.
unfoldable pub little_endian : List ℕ → ℕ
little_endian [] = 0
little_endian (b ∷ bytes) = b + 256 * little_endian bytes

-- `data[from:to]`, of `size` bytes.
abbrev pub slice : List ℕ → ℕ → ℕ → List ℕ
slice bytes from size = take size (drop from bytes)

-- The byte strings are lists of bytes, which the source prints in hexadecimal.
pub record Eth1Deposit : Type 0 where
  pub block_number : ℕ
  pub block_hash : ℕ
  pub tx_hash : ℕ
  pub log_index : ℕ
  pub sender : ℕ
  pub recipient : ℕ
  pub gas_used : ℕ
  pub gas_price : ℕ
  pub deposit_index : ℕ
  pub validator_pubkey : List ℕ
  pub withdrawal_credentials : List ℕ
  pub signature : List ℕ
  pub amount : ℕ

-- `none`: `To` is nil in a transaction that creates a contract, and its `String` panics.
unfoldable pub parse_eth1_deposit_from_log : LogEntry → AgnosticTransaction → Option Eth1Deposit
unfolding little_endian
parse_eth1_deposit_from_log log tx = tx.to >>= λ recipient. some (record {
  block_number = tx.block_number;
  block_hash = log.block_hash;
  tx_hash = tx.hash;
  log_index = log.index;
  sender = tx.from;
  recipient = recipient;
  gas_used = tx.gas;
  gas_price = tx.gas_price;
  deposit_index = little_endian (slice log.data' 544 8);
  validator_pubkey = slice log.data' 192 48;
  withdrawal_credentials = slice log.data' 288 32;
  signature = slice log.data' 416 96;
  amount = little_endian (slice log.data' 352 8);
})

-- The part of a blob that the analyzer reads.
pub record AgnosticBlobSidecar : Type 0 where
  pub slot : ℕ
  pub tx_hash : ℕ
  pub blob_hash : ℕ
  pub index : ℕ

-- The last transaction that names the blob wins.
unfoldable pub get_tx_hash : AgnosticBlobSidecar → List AgnosticTransaction → AgnosticBlobSidecar
get_tx_hash blob txs =
    loop {S = AgnosticBlobSidecar}
      (λ b tx.
        loop {S = AgnosticBlobSidecar}
          (λ c tx_blob_hash.
            if tx_blob_hash == c.blob_hash then (record c { tx_hash = tx.hash }) else c)
          b tx.blob_hashes)
      blob txs
