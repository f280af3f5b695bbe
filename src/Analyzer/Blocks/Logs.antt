-- ===== src/Analyzer/Blocks/Logs.antt =====
-- The deposits that the logs of the receipts announce (pkg/analyzer/process_block.go).
use goteth.Common.{
  ℕ, ◌≤◌, ◌≡◌, refl, sym, ap, ◌∙◌, true, Option, some, List, [], ◌∷◌, ◌++◌, inl, inr, Bool-cases,
  ◌>>=◌, >>=-eq-some, some_inj, arith, length, ==_iff,
}
use mathlib.Core.Path.{subst}
use mathlib.Core.List.{Memᴰ}
use goteth.Spec.Block.{AgnosticBlock, AgnosticTransaction, LogEntry}
use goteth.Spec.Block.Transactions.{Eth1Deposit, parse_eth1_deposit_from_log}
use goteth.Analyzer.Services.{ChainAnalyzer, Services}
use goteth.Analyzer.Blocks.{
  is_deposit_log, has_event, deposits_of_logs, deposits_of_transactions, process_eth1_deposits,
  persist_found, BlockPass, deposit_event_topic,
}

-- A deposit that comes from a log of the contract, in a receipt of a transaction of the list: the
-- log has the topic of the event, and enough bytes for every field that is read.
pub record FromLog (contract : ℕ) (txs : List AgnosticTransaction) (deposit : Eth1Deposit)
    : Type 0 where
  pub tx : AgnosticTransaction
  pub log : LogEntry
  pub in_block : Memᴰ tx txs
  pub in_receipt : Memᴰ log tx.receipt.logs
  pub at_contract : log.address ≡ contract
  pub event : List ℕ
  pub first_topic : log.topics ≡ deposit_event_topic ∷ event
  pub long : 576 ≤ length log.data'
  pub parsed : parse_eth1_deposit_from_log log tx ≡ some deposit

not_in_nil : {P : Type 0} {d : Eth1Deposit} → Memᴰ d [] → P
not_in_nil h = elim h [ ]

has_event-shape :
    (topics : List ℕ)
    → has_event topics ≡ true
    → (event : List ℕ) × (topics ≡ deposit_event_topic ∷ event)
unfolding has_event
has_event-shape [] h = absurd (cc)
has_event-shape (topic ∷ event) h =
    (event, ap (λ t. t ∷ event) ((==_iff topic deposit_event_topic).0 h))

module _ (contract : ℕ) where
  FromLog-weaken :
      {txs : List AgnosticTransaction} {d : Eth1Deposit} (tx : AgnosticTransaction)
      → FromLog contract txs d
      → FromLog contract (tx ∷ txs) d
  FromLog-weaken tx f = record {
    tx = f.tx;
    log = f.log;
    in_block = Memᴰ.tail f.in_block;
    in_receipt = f.in_receipt;
    at_contract = f.at_contract;
    event = f.event;
    first_topic = f.first_topic;
    long = f.long;
    parsed = f.parsed;
  }

  is_deposit_log-FromLog :
      (tx : AgnosticTransaction) (txs : List AgnosticTransaction) (log : LogEntry) (d : Eth1Deposit)
      → Memᴰ tx txs
      → Memᴰ log tx.receipt.logs
      → is_deposit_log contract log ≡ true
      → parse_eth1_deposit_from_log log tx ≡ some d
      → FromLog contract txs d
  unfolding is_deposit_log
  is_deposit_log-FromLog tx txs log d m n h p =
      let (event, e) = has_event-shape log.topics (ground (arith, h)) in
      record {
        tx = tx;
        log = log;
        in_block = m;
        in_receipt = n;
        at_contract = ground (arith, h);
        event = event;
        first_topic = e;
        long = ground (arith, h);
        parsed = p;
      }

  AllFrom : List AgnosticTransaction → List Eth1Deposit → Type 0
  AllFrom txs ds = (d : Eth1Deposit) → Memᴰ d ds → FromLog contract txs d

  AllFrom-append :
      (txs : List AgnosticTransaction) (xs ys : List Eth1Deposit)
      → AllFrom txs xs
      → AllFrom txs ys
      → AllFrom txs (xs ++ ys)
  unfolding AllFrom
  AllFrom-append txs [] ys f g d m = g d m
  AllFrom-append txs (x ∷ xs) ys f g d (Memᴰ.head e) = f d (Memᴰ.head e)
  AllFrom-append txs (x ∷ xs) ys f g d (Memᴰ.tail m) =
      AllFrom-append txs xs ys (λ c n. f c (Memᴰ.tail n)) g d m

  found :
      (tx : AgnosticTransaction) (txs : List AgnosticTransaction) (log : LogEntry)
      → Memᴰ tx txs
      → Memᴰ log tx.receipt.logs
      → is_deposit_log contract log ≡ true
      → (rest : Option (List Eth1Deposit))
      → ((ds : List Eth1Deposit) → rest ≡ some ds → AllFrom txs ds)
      → (ds : List Eth1Deposit)
      → (parse_eth1_deposit_from_log log tx >>= λ deposit.
          rest >>= λ deposits. some (deposit ∷ deposits))
        ≡ some ds
      → AllFrom txs ds
  unfolding AllFrom
  found tx txs log m n h rest ih ds e d k =
      let (x, p, e') =
        >>=-eq-some (parse_eth1_deposit_from_log log tx)
          (λ deposit. rest >>= λ deposits. some (deposit ∷ deposits)) e in
      let (xs, q, e'') = >>=-eq-some rest (λ deposits. some (x ∷ deposits)) e' in
      elim (subst (Memᴰ d) (sym (some_inj e'')) k) [
        | Memᴰ.head same ↦ is_deposit_log-FromLog tx txs log d m n h (p ∙ ap some (sym same))
        | Memᴰ.tail t ↦ ih xs q d t
      ]

  deposits_of_logs-AllFrom :
      (tx : AgnosticTransaction) (txs : List AgnosticTransaction) (logs : List LogEntry)
      → Memᴰ tx txs
      → ((log : LogEntry) → Memᴰ log logs → Memᴰ log tx.receipt.logs)
      → (ds : List Eth1Deposit) → deposits_of_logs contract tx logs ≡ some ds
      → AllFrom txs ds
  unfolding deposits_of_logs AllFrom
  deposits_of_logs-AllFrom tx txs [] m sub ds e =
      λ d n. (not_in_nil (subst (Memᴰ d) (sym (some_inj e)) n))
  deposits_of_logs-AllFrom tx txs (log ∷ logs) m sub ds e =
      let ih = deposits_of_logs-AllFrom tx txs logs m (λ l n. sub l (Memᴰ.tail n)) in
      elim (Bool-cases (is_deposit_log contract log)) [
        | inl h ↦
            found tx txs log m (sub log (Memᴰ.head refl)) h (deposits_of_logs contract tx logs) ih
              ds (rw h at e)
        | inr h ↦ ih ds (rw h at e)
      ]

  deposits_of_transactions-AllFrom :
      (txs : List AgnosticTransaction) (ds : List Eth1Deposit)
      → deposits_of_transactions contract txs ≡ some ds
      → AllFrom txs ds
  unfolding deposits_of_transactions AllFrom
  deposits_of_transactions-AllFrom [] ds e d n = (not_in_nil (subst (Memᴰ d) (sym (some_inj e)) n))
  deposits_of_transactions-AllFrom (tx ∷ txs) ds e d n =
      let (first, f, k) =
        >>=-eq-some (deposits_of_logs contract tx tx.receipt.logs)
          (λ first. deposits_of_transactions contract txs >>= λ rest. some (first ++ rest)) e in
      let (rest, g, l) =
        >>=-eq-some (deposits_of_transactions contract txs) (λ rest. some (first ++ rest)) k in
      AllFrom-append (tx ∷ txs) first rest
        (deposits_of_logs-AllFrom tx (tx ∷ txs) tx.receipt.logs (Memᴰ.head refl) (λ log m. m) first
          f)
        (λ c m. FromLog-weaken tx (deposits_of_transactions-AllFrom txs rest g c m)) d
        (subst (Memᴰ d) (sym (some_inj l)) n)

-- Every deposit that `processETH1Deposits` persists comes from a log of the contract, in a receipt of a
-- transaction of the block: its first topic is that of the event, and it has the 576 bytes that the
-- fields are cut from. It persists nothing else, and the block stays.
pub process_eth1_deposits-FromLog :
    (v : Services) (s : ChainAnalyzer) (block : AgnosticBlock) (p : BlockPass)
    → process_eth1_deposits v s block ≡ some p
    → (ds : List Eth1Deposit) × (p ≡ persist_found v s block ds)
      × ((d : Eth1Deposit)
          → Memᴰ d ds
          → FromLog s.beacon_contract_address block.execution_payload.agnostic_transactions d)
unfolding process_eth1_deposits AllFrom
process_eth1_deposits-FromLog v s block p e =
    let (ds, f, k) =
      >>=-eq-some
        (deposits_of_transactions s.beacon_contract_address
          block.execution_payload.agnostic_transactions)
        (λ deposits. some (persist_found v s block deposits)) e in
    (
      ds,
      sym (some_inj k),
      deposits_of_transactions-AllFrom s.beacon_contract_address
          block.execution_payload.agnostic_transactions ds f,
    )
