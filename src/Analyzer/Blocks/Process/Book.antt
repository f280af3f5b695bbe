-- ===== src/Analyzer/Blocks/Process/Book.antt =====
-- The page of `ProcessBlock` in the book of routines (pkg/analyzer/process_block.go, pkg/utils/book.go).
use goteth.Common.{
  ℕ, ◌≤◌, ◌<◌, ◌≡◌, refl, ◌∙◌, true, false, Option, none, some, List, [], ◌∷◌, ◌==◌, ==_refl, elem,
  if◌then◌else◌, ◌>>=◌, >>=-eq-some, some_inj, arith,
}
use mathlib.Core.Path.{subst}
use goteth.Spec.Block.{AgnosticBlock, AgnosticTransaction, Receipt}
use goteth.Spec.Block.Transactions.{parse_transactions_from_block, AgnosticBlobSidecar, Eth1Deposit}
use goteth.Utils.RoutineBook.{RoutineBook, receive, set_page, free_page, remove}
use goteth.Analyzer.Services.{ChainAnalyzer, Services, slot_page, write, persist_blocks}
use goteth.Analyzer.Services.Waits.{Waited, got, ended, acquire, release}
use goteth.Analyzer.Blocks.{
  BlockPass, share_block, with_transactions, process_transactions, process_eth1_data, persist_txs,
  process_eth1_deposits, process_receipts, process_blobs, process_blob_sidecars, process_deposits,
  process_withdrawals, process_bls_to_execution_changes, persist_found, persist_blobs, parsed_txs,
  deposits_of_transactions,
}
use goteth.Analyzer.Blocks.Process.{process_waited}

-- A book with a free place, in which the key is not active.
pub record HasRoom (b : RoutineBook) (key : ℕ) : Type 0 where
  pub room : 0 < b.free
  pub bounded : b.free ≤ b.size
  pub inactive : elem key b.pages ≡ false

-- A step that only writes: the book, the switches and the cache stay.
pub record Same (s t : ChainAnalyzer) : Type 0 where
  pub book : t.processer_book ≡ s.processer_book
  pub switches : t.metrics ≡ s.metrics
  pub cache : t.download_cache ≡ s.download_cache

module _ (v : Services) where
  persist_txs-Same :
      (s : ChainAnalyzer) (block : AgnosticBlock) (txs : List AgnosticTransaction)
      → Same s (persist_txs v s block txs).analyzer
  persist_txs-Same s block [] = record { book = refl; switches = refl; cache = refl }
  persist_txs-Same s block (tx ∷ txs) = record { book = refl; switches = refl; cache = refl }

  persist_found-Same :
      (s : ChainAnalyzer) (block : AgnosticBlock) (deposits : List Eth1Deposit)
      → Same s (persist_found v s block deposits).analyzer
  persist_found-Same s block [] = record { book = refl; switches = refl; cache = refl }
  persist_found-Same s block (d ∷ deposits) = record { book = refl; switches = refl; cache = refl }

  persist_blobs-Same :
      (s : ChainAnalyzer) (txs : List AgnosticTransaction) (blobs : List AgnosticBlobSidecar)
      → Same s (persist_blobs s txs blobs)
  persist_blobs-Same s txs [] = record { book = refl; switches = refl; cache = refl }
  persist_blobs-Same s txs (b ∷ blobs) = record { book = refl; switches = refl; cache = refl }

  parsed_txs-Same :
      (s : ChainAnalyzer) (block : AgnosticBlock) (txs : Option (List AgnosticTransaction))
      → Same s (parsed_txs v s block txs).analyzer
  parsed_txs-Same s block none = record { book = refl; switches = refl; cache = refl }
  parsed_txs-Same s block (some txs) = persist_txs-Same s (with_transactions block txs) txs

  process_transactions-Same :
      (s : ChainAnalyzer) (block : AgnosticBlock) (receipts : List Receipt)
      → Same s (process_transactions v s block receipts).analyzer
  unfolding process_transactions
  process_transactions-Same s block receipts =
      parsed_txs-Same s block (parse_transactions_from_block v.unmarshal block receipts)

  process_blobs-Same : (p : BlockPass) → Same p.analyzer (process_blobs v p).analyzer
  unfolding process_blobs process_blob_sidecars
  process_blobs-Same p = ground (
    arith,
    persist_blobs-Same p.analyzer p.block.execution_payload.agnostic_transactions
        (v.request_fulu_blobs p.block.slot),
    persist_blobs-Same p.analyzer p.block.execution_payload.agnostic_transactions
        (v.request_blob_sidecars p.block.slot),
  )

  process_eth1_deposits-Same :
      (s : ChainAnalyzer) (block : AgnosticBlock) (p : BlockPass)
      → process_eth1_deposits v s block ≡ some p
      → Same s p.analyzer
  unfolding process_eth1_deposits
  process_eth1_deposits-Same s block p e =
      let (deposits, _, h) =
        >>=-eq-some
          (deposits_of_transactions s.beacon_contract_address
            block.execution_payload.agnostic_transactions)
          (λ deposits. some (persist_found v s block deposits)) e in
      subst (λ q. Same s q.analyzer) (some_inj h) (persist_found-Same s block deposits)

  Same-trans : {r s t : ChainAnalyzer} → Same r s → Same s t → Same r t
  Same-trans a b = record {
    book = b.book ∙ a.book;
    switches = b.switches ∙ a.switches;
    cache = b.cache ∙ a.cache;
  }

  after_deposits-Same :
      (s : ChainAnalyzer) (q : BlockPass) (m : Option BlockPass)
      → Same s q.analyzer
      → ((r : BlockPass) → m ≡ some r → Same s r.analyzer)
      → (p : BlockPass)
      → (if q.failed then some q else (m >>= λ r. some (if r.failed then r else process_blobs v r)))
        ≡ some p
      → Same s p.analyzer
  after_deposits-Same s q none k h p e = ground (arith, k, e)
  after_deposits-Same s q (some r) k h p e = ground (arith, k, h r refl, e, process_blobs-Same r)

  process_receipts-Same :
      (s : ChainAnalyzer) (block : AgnosticBlock) (answer : Option (List Receipt)) (p : BlockPass)
      → process_receipts v s block answer ≡ some p
      → Same s p.analyzer
  unfolding process_receipts
  process_receipts-Same s block none p e =
      subst (λ q. Same s q.analyzer) (some_inj e)
        (record { book = refl; switches = refl; cache = refl })
  process_receipts-Same s block (some receipts) p e =
      let q = process_transactions v s block receipts in
      after_deposits-Same s q (process_eth1_deposits v q.analyzer q.block)
        (process_transactions-Same s block receipts)
        (λ r h.
          Same-trans (process_transactions-Same s block receipts)
            (process_eth1_deposits-Same q.analyzer q.block r h))
        p e

  pub process_eth1_data-Same :
      (s : ChainAnalyzer) (block : AgnosticBlock) (p : BlockPass)
      → process_eth1_data v s block ≡ some p
      → Same s p.analyzer
  unfolding process_eth1_data
  process_eth1_data-Same s block p e = ground (
    arith,
    process_receipts-Same s block (v.get_block_receipts block) p,
    process_blobs-Same (record { block = block; analyzer = s; failed = false }),
  )

pub acquire-release :
    (b : RoutineBook) (key : ℕ)
    → HasRoom b key
    → (receive b key >>= λ r. set_page r key >>= λ booked. free_page booked key) ≡ some b
unfolding receive set_page free_page remove
acquire-release b key h = ground (arith, ==_refl key)

-- A routine that finds room acquires its page, and freeing the page gives the book back.
pub acquire_returns :
    (s : ChainAnalyzer) (key : ℕ)
    → HasRoom s.processer_book key
    → (booked : RoutineBook) × (acquire s key ≡ some (record s { processer_book = booked }))
      × (free_page booked key ≡ some s.processer_book)
unfolding acquire
acquire_returns s key h =
    let e = acquire-release s.processer_book key h in
    let (r, f, k) =
      >>=-eq-some (receive s.processer_book key)
        (λ r. set_page r key >>= λ booked. free_page booked key) e in
    let (booked, g, l) = >>=-eq-some (set_page r key) (λ booked. free_page booked key) k in
    (booked, simp (f, g), l)

-- The pages after the two steps of `Acquire`.
pub acquire-pages :
    (s t : ChainAnalyzer) (key other : ℕ)
    → elem key s.processer_book.pages ≡ false
    → acquire s key ≡ some t
    → elem other t.processer_book.pages
      ≡ (if other == key then true else elem other s.processer_book.pages)
unfolding acquire receive set_page
acquire-pages s t key other h e = ground (arith, h, e)

process_deposits-book :
    (s : ChainAnalyzer) (block : AgnosticBlock)
    → (process_deposits s block).processer_book ≡ s.processer_book
unfolding process_deposits
process_deposits-book s block = ground (arith)

process_bls_to_execution_changes-book :
    (s : ChainAnalyzer) (block : AgnosticBlock)
    → (process_bls_to_execution_changes s block).processer_book ≡ s.processer_book
unfolding process_bls_to_execution_changes
process_bls_to_execution_changes-book s block = ground (arith)

unfoldable pub written : ChainAnalyzer → AgnosticBlock → ChainAnalyzer
written s block =
    process_deposits (process_bls_to_execution_changes (share_block s block) block) block

pub written-book :
    (s : ChainAnalyzer) (block : AgnosticBlock)
    → (written s block).processer_book ≡ s.processer_book
unfolding written share_block
written-book s block =
    process_deposits-book (process_bls_to_execution_changes (share_block s block) block) block
    ∙ process_bls_to_execution_changes-book (share_block s block) block

pub process_waited-frees :
    (v : Services) (b : RoutineBook) (s t : ChainAnalyzer) (slot : ℕ) (w : Waited AgnosticBlock)
    → free_page s.processer_book (slot_page slot) ≡ some b
    → process_waited v s slot w ≡ some t
    → t.processer_book ≡ b
unfolding process_waited release written process_withdrawals
process_waited-frees v b s t slot ended f e = ground (arith, f, e)
process_waited-frees v b s t slot (got block) f e =
    let s' = process_withdrawals (write s (persist_blocks (block ∷ []))) block in
    let (p, h, k) =
      >>=-eq-some (process_eth1_data v s' block)
        (λ p. release (written p.analyzer p.block) (slot_page slot)) e in
    ground
      (arith, k, f, written-book p.analyzer p.block, (process_eth1_data-Same v s' block p h).book)
