-- ===== src/Analyzer/Blocks/Process/Sent.antt =====
-- Transactions (pkg/spec/transactions.go) whose deposits are all read
-- (pkg/analyzer/process_block.go).
use goteth.Common.{
  ℕ, ◌⊎◌, false, suc, ◌≡◌, refl, Option, none, some, List, [], ◌∷◌, ◌++◌, ◌>>=◌, >>=-eq-some,
  some_inj, arith, Bool-cases, inl, inr,
}
use mathlib.Core.Path.{subst}
use mathlib.Core.List.{Memᴰ}
use goteth.Spec.Block.{AgnosticBlock, AgnosticTransaction, Receipt, LogEntry}
use goteth.Spec.Block.Transactions.{
  EthTransaction, Eth1Deposit, parse_transactions, parse_transaction_from_receipt,
  parse_eth1_deposit_from_log, find_receipt,
}
use goteth.Analyzer.Services.{Services}
use goteth.Analyzer.Blocks.{is_deposit_log, deposits_of_logs, deposits_of_transactions}

-- A transaction with a recipient, or none of whose logs is a deposit: one that creates a contract has
-- no recipient.
abbrev pub Readable : ℕ → Option ℕ → List LogEntry → Type 0
Readable contract to logs =
    ((a : ℕ) × (to ≡ some a))
    ⊎ ((log : LogEntry) → Memᴰ log logs → is_deposit_log contract log ≡ false)

pub data AllReadable (contract : ℕ) : List AgnosticTransaction → Type 0 where
  readable_nil : AllReadable contract []
  readable_cons :
      {tx : AgnosticTransaction} {txs : List AgnosticTransaction}
      → Readable contract tx.to tx.receipt.logs
      → AllReadable contract txs
      → AllReadable contract (tx ∷ txs)

sent_logs_total :
    (contract a : ℕ) (tx : AgnosticTransaction) (logs : List LogEntry)
    → tx.to ≡ some a
    → (ds : List Eth1Deposit) × (deposits_of_logs contract tx logs ≡ some ds)
unfolding deposits_of_logs parse_eth1_deposit_from_log
sent_logs_total contract a tx [] h = ([], refl)
sent_logs_total contract a tx (log ∷ logs) h =
    let (ds, e) = sent_logs_total contract a tx logs h in
    elim (Bool-cases (is_deposit_log contract log)) [
      | inl b ↦ rw (b, h, e) (_, refl)
      | inr b ↦ rw b (ds, e)
    ]

other_logs_total :
    (contract : ℕ) (tx : AgnosticTransaction) (logs : List LogEntry)
    → ((log : LogEntry) → Memᴰ log logs → is_deposit_log contract log ≡ false)
    → deposits_of_logs contract tx logs ≡ some []
unfolding deposits_of_logs
other_logs_total contract tx [] h = refl
other_logs_total contract tx (log ∷ logs) h =
    rw (h log (Memᴰ.head refl)) (other_logs_total contract tx logs (λ l m. h l (Memᴰ.tail m)))

deposits_of_logs_total :
    (contract : ℕ) (tx : AgnosticTransaction) (logs : List LogEntry)
    → Readable contract tx.to logs
    → (ds : List Eth1Deposit) × (deposits_of_logs contract tx logs ≡ some ds)
deposits_of_logs_total contract tx logs (inl (a, h)) = sent_logs_total contract a tx logs h
deposits_of_logs_total contract tx logs (inr h) = ([], other_logs_total contract tx logs h)

pub deposits_of_transactions_total :
    (contract : ℕ) (txs : List AgnosticTransaction)
    → AllReadable contract txs
    → (ds : List Eth1Deposit) × (deposits_of_transactions contract txs ≡ some ds)
unfolding deposits_of_transactions
deposits_of_transactions_total contract [] readable_nil = ([], refl)
deposits_of_transactions_total contract (tx ∷ txs) (readable_cons h p) =
    let (xs, e) = deposits_of_logs_total contract tx tx.receipt.logs h in
    let (ys, f) = deposits_of_transactions_total contract txs p in (xs ++ ys, ground (arith, e, f))

-- No transaction that creates a contract has a log of a deposit, in the receipts of the block.
abbrev pub NoneCreates : Services → ℕ → AgnosticBlock → Type 0
NoneCreates v contract block =
    (raw : ℕ) (tx : EthTransaction) (receipts : List Receipt) (receipt : Receipt)
    → v.unmarshal raw ≡ some tx
    → v.get_block_receipts block ≡ some receipts
    → find_receipt tx.hash receipts ≡ some receipt
    → Readable contract tx.to receipt.logs

module _ (v : Services) (contract : ℕ) (block : AgnosticBlock) (receipts : List Receipt)
    (none_creates : NoneCreates v contract block)
    (answered : v.get_block_receipts block ≡ some receipts) where
  parsed-Readable :
      (i : ℕ) (tx : EthTransaction) (receipt : Receipt) (out : AgnosticTransaction)
      → Readable contract tx.to receipt.logs
      → parse_transaction_from_receipt tx receipt block.slot block.execution_payload.block_number
          block.execution_payload.timestamp i
        ≡ some out
      → Readable contract out.to out.receipt.logs
  unfolding parse_transaction_from_receipt
  parsed-Readable i tx receipt out h e =
      let (from, _, k) =
        >>=-eq-some tx.sender
          (λ from. some (record {
            tx_idx = i;
            gas = receipt.gas_used;
            gas_price = receipt.effective_gas_price;
            to = tx.to;
            from = from;
            hash = tx.hash;
            slot = block.slot;
            block_number = block.execution_payload.block_number;
            timestamp = block.execution_payload.timestamp;
            blob_hashes = tx.blob_hashes;
            receipt = receipt;
          }))
          e in
      subst (λ (o : AgnosticTransaction). Readable contract o.to o.receipt.logs) (some_inj k) h

  found-AllReadable :
      (i raw : ℕ) (tx : EthTransaction)
      → v.unmarshal raw ≡ some tx
      → (rest : Option (List AgnosticTransaction))
      → ((txs : List AgnosticTransaction) → rest ≡ some txs → AllReadable contract txs)
      → (found : Option Receipt) (txs : List AgnosticTransaction)
      → ((receipt : Receipt) → found ≡ some receipt → Readable contract tx.to receipt.logs)
      → (elim found [
        | none ↦ rest
        | some receipt ↦
            parse_transaction_from_receipt tx receipt block.slot
              block.execution_payload.block_number block.execution_payload.timestamp i
            >>= λ agnostic_tx. rest >>= λ agnostic_txs. some (agnostic_tx ∷ agnostic_txs)
      ])
        ≡ some txs
      → AllReadable contract txs
  found-AllReadable i raw tx u rest ih none txs h e = ih txs e
  found-AllReadable i raw tx u rest ih (some receipt) txs h e =
      let (out, f, k) =
        >>=-eq-some
          (parse_transaction_from_receipt tx receipt block.slot block.execution_payload.block_number
            block.execution_payload.timestamp i)
          (λ agnostic_tx. rest >>= λ agnostic_txs. some (agnostic_tx ∷ agnostic_txs)) e in
      let (outs, g, l) = >>=-eq-some rest (λ agnostic_txs. some (out ∷ agnostic_txs)) k in
      subst (AllReadable contract) (some_inj l)
        (readable_cons (parsed-Readable i tx receipt out (h receipt refl) f) (ih outs g))

  pub parse_transactions-AllReadable :
      (i : ℕ) (raws : List ℕ) (txs : List AgnosticTransaction)
      → parse_transactions v.unmarshal block receipts i raws ≡ some txs
      → AllReadable contract txs
  unfolding parse_transactions
  parse_transactions-AllReadable i [] txs e = subst (AllReadable contract) (some_inj e) readable_nil
  parse_transactions-AllReadable i (raw ∷ raws) txs e =
      let rest = parse_transactions v.unmarshal block receipts (suc i) raws in
      let (tx, u, k) =
        >>=-eq-some (v.unmarshal raw)
          (λ tx. elim (find_receipt tx.hash receipts) [
            | none ↦ rest
            | some receipt ↦
                parse_transaction_from_receipt tx receipt block.slot
                  block.execution_payload.block_number block.execution_payload.timestamp i
                >>= λ agnostic_tx. rest >>= λ agnostic_txs. some (agnostic_tx ∷ agnostic_txs)
          ])
          e in
      found-AllReadable i raw tx u rest (parse_transactions-AllReadable (suc i) raws)
        (find_receipt tx.hash receipts) txs
        (λ receipt f. none_creates raw tx receipts receipt u answered f) k
