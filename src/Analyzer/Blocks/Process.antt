-- ===== src/Analyzer/Blocks/Process.antt =====
-- pkg/analyzer/process_block.go: `ProcessBlock`, and the second try for the receipts.
pub mod Book
pub mod Sent
pub mod Returns
use goteth.Common.{
  ℕ, zero, suc, ◌+◌, ◌-◌, ◌≤◌, ◌<◌, ◌≡◌, refl, sym, ap, ◌∙◌, Bool, true, false, Option, none, some,
  List, [], ◌∷◌, ◌==◌, ==_refl, ltb, elem, if◌then◌else◌, ◌>>=◌, >>=-eq-some, some_inj, arith,
}
use mathlib.Core.Path.{subst}
use goteth.Spec.Block.{AgnosticBlock, AgnosticTransaction}
use goteth.Spec.Block.Transactions.{parse_transactions_from_block}
use goteth.Utils.RoutineBook.{RoutineBook, receive, set_page, free_page, remove}
use goteth.Analyzer.AgnosticMap.{find}
use goteth.Analyzer.Services.{ChainAnalyzer, Services, slot_page, write, persist_blocks}
use goteth.Analyzer.Services.Waits.{Waited, got, ended, wait_block, acquire, release}
use goteth.Analyzer.Blocks.{
  BlockPass, share_block, with_transactions, process_transactions, process_eth1_data,
  process_eth1_deposits, process_receipts, process_blobs, process_blob_sidecars, process_deposits,
  process_withdrawals, process_bls_to_execution_changes,
}

-- An error of the database is only logged.
unfoldable pub process_waited :
    Services → ChainAnalyzer → ℕ → Waited AgnosticBlock → Option ChainAnalyzer
process_waited v s slot ended = release s (slot_page slot)
process_waited v s slot (got block) =
    process_eth1_data v (process_withdrawals (write s (persist_blocks (block ∷ []))) block) block
    >>= λ p.
        release
          (process_deposits
            (process_bls_to_execution_changes (share_block p.analyzer p.block) p.block) p.block)
          (slot_page slot)

unfoldable pub process_block : Services → ChainAnalyzer → ℕ → Option ChainAnalyzer
unfolding process_waited
process_block v s slot =
    if s.metrics.block
    then (acquire s (slot_page slot) >>= λ s'.
        wait_block s' slot >>= λ waited. process_waited v s' slot waited)
    else some s

abbrev pub is_nil_txs : List AgnosticTransaction → Bool
is_nil_txs [] = true
is_nil_txs (_ ∷ _) = false

abbrev pub is_nil_raw : List ℕ → Bool
is_nil_raw [] = true
is_nil_raw (_ ∷ _) = false

abbrev recovered : AgnosticBlock → Option (List AgnosticTransaction) → AgnosticBlock
recovered block none = block
recovered block (some txs) = with_transactions block txs

unfoldable pub recover_block_receipts : Services → ChainAnalyzer → AgnosticBlock → AgnosticBlock
recover_block_receipts v s block =
    if is_nil_txs block.execution_payload.agnostic_transactions
    then (if is_nil_raw block.execution_payload.transactions
        then block
        else if s.metrics.transactions
        then recovered block (
            v.get_block_receipts block >>= λ receipts.
            parse_transactions_from_block v.unmarshal block receipts)
        else block)
    else block
