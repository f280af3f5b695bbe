-- ===== src/Scenarios/BlockRuns.antt =====
-- The theorems on the processing of blocks and on the download of states at a small analyzer.
use goteth.Common.{ℕ, ◌==◌, if◌then◌else◌, ◌≡◌, refl, true, none, some, List, [], ◌∷◌, replicate}
use mathlib.Core.List.{Memᴰ}
use goteth.Spec.Block.{AgnosticBlock, AgnosticTransaction, LogEntry, Receipt}
use goteth.Spec.Block.Transactions.{EthTransaction, Eth1Deposit}
use goteth.Analyzer.Services.{Services}
use goteth.Analyzer.Blocks.{
  BlockPass, process_eth1_deposits, persist_found, is_deposit_log, deposit_event_topic,
  with_transactions,
}
use goteth.Analyzer.Blocks.Logs.{FromLog, process_eth1_deposits-FromLog}
use goteth.Scenarios.Fixtures.{block, transaction}
use goteth.Scenarios.AnalyzerFixtures.{services, analyzer, decoded}

-- A log of the contract: with 576 bytes it is a deposit, with fewer it is too short.
abbrev log : ℕ → LogEntry
log size = record {
  address = 99;
  topics = deposit_event_topic ∷ [];
  data' = replicate size 1;
  block_hash = 8;
  index = 4;
}

abbrev other_logs : List LogEntry
other_logs = record (log 576) { address = 98 } ∷ []

abbrev two_receipts : List Receipt
two_receipts =
    record { tx_hash = 501; gas_used = 21000; effective_gas_price = 12; logs = log 576 ∷ [] }
    ∷ record { tx_hash = 502; gas_used = 50000; effective_gas_price = 9; logs = other_logs }
    ∷ []

-- The transaction 502 creates a contract, and its receipt has a log of another contract; the transaction
-- 501 makes a deposit.
abbrev creating : Services
creating = record services {
  unmarshal = λ raw. some (record (decoded raw) { to = if raw == 501 then some 1 else none });
  get_block_receipts = λ _. some two_receipts;
}

abbrev depositing : AgnosticTransaction
depositing = record (transaction 501 21000 12) {
  receipt = record {
    tx_hash = 501;
    gas_used = 21000;
    effective_gas_price = 12;
    logs = log 576 ∷ log 575 ∷ [];
  };
}

abbrev depositing_block : AgnosticBlock
depositing_block = with_transactions block (depositing ∷ [])

abbrev deposits_pass : BlockPass
deposits_pass = elim (process_eth1_deposits services analyzer depositing_block) [
  | none ↦ record { block = block; analyzer = analyzer; failed = true }
  | some p ↦ p
]

deposits_run : process_eth1_deposits services analyzer depositing_block ≡ some deposits_pass
unfolding process_eth1_deposits goteth.Analyzer.Blocks.deposits_of_transactions
    goteth.Analyzer.Blocks.deposits_of_logs goteth.Analyzer.Blocks.is_deposit_log
    goteth.Analyzer.Blocks.has_event goteth.Spec.Block.Transactions.parse_eth1_deposit_from_log
deposits_run = refl

process_eth1_deposits-FromLog_example :
    (ds : List Eth1Deposit) × (deposits_pass ≡ persist_found services analyzer depositing_block ds)
    × ((d : Eth1Deposit) → Memᴰ d ds → FromLog 99 (depositing ∷ []) d)
process_eth1_deposits-FromLog_example =
    process_eth1_deposits-FromLog services analyzer depositing_block deposits_pass deposits_run
