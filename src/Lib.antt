-- ===== src/Lib.antt =====
-- goteth indexes the consensus layer of Ethereum: it downloads the blocks and states of a beacon
-- node, computes per-epoch and per-validator metrics from three consecutive states, and writes rows
-- to a database. This library models the parts that compute, and the analyzer that drives them.
--
-- Which file models which part:
-- - Spec/Constants, Spec/Slots, Spec/Validator, Spec/Block, Spec/Rewards: pkg/spec/constants.go,
--   utils.go, slashing.go, block.go (with `BlockGasFees` in Spec/Block/Fees), validator_rewards.go
--   and validator_rewards_aggregation.go. Spec/Block/Transactions: transactions.go, eth1_deposit.go
--   and blob.go.
-- - Spec/State: `AgnosticState` of pkg/spec/state.go. Its child modules are the statuses (Status:
--   `GetValStatus`, `GetValsPerStatus`, `GetValsStateNums`), the balances (Totals), what the blocks
--   add (Blocks: `AddBlocks`, `RefreshBlocks`), the missed slots (Missed: `TrackMissingBlocks`) and
--   the flags of the validators (Participation: `Setup`, `ProcessAltairAttestations`).
-- - Metrics: `StateMetricsBase` of pkg/spec/metrics/standard.go and utils.go (Lookup, EpochReward);
--   `ProcessSlashings` of state_phase0.go and state_electra.go (Slashings); the order of
--   attestations and the delays of state_phase0.go (Phase0).
-- - Metrics/Electra: pkg/spec/metrics/state_electra.go, with the requests (Consolidation,
--   Withdrawal), the queues (Pending, Deposits) and their order in `PreProcessBundle` (Bundle). The
--   metrics take the requests from the blocks of the next state, and change the current or the next
--   state.
-- - Metrics/Altair: the participation flags and `isFlagPossible` of state_altair.go, state_deneb.go
--   and state_electra.go.
-- - Analyzer/Startup: pkg/analyzer/chain_analyzer.go, `NewChainAnalyzer`, `Run` and `Close`.
--   Analyzer/Services: `ChainAnalyzer` itself, and the nodes, relays and database that it calls.
-- - Analyzer/Routines: routines.go, the loops that hand out the slots (`runHistorical`, `runHead`)
--   and start the routines of a slot (`runDownloadBlocks`).
-- - Analyzer/Download: download.go and epoch_boundary_state_root.go.
-- - Analyzer/Blocks: process_block.go, with `ProcessBlock` in Analyzer/Blocks/Process.
-- - Analyzer/States: process_state.go, with `ProcessStateTransitionMetrics` in
--   Analyzer/States/Transition, the rewards of blocks in BlockRewards and those of validators in
--   Rewards; Analyzer/Aggregation: the window of `processEpochValRewards`.
-- - Analyzer/Reorg: reorg.go (with `ensureDependencyStates`), `AdvanceFinalized` in
--   Analyzer/Reorg/Advance and `HandleReorg` in Analyzer/Reorg/Handle.
-- - Analyzer/AgnosticMap, Analyzer/ChainCache: utils.go and chain_cache.go, the cache of states and
--   blocks. Only the operations of the map are atomic under the mutex; `AddNewBlock` is also modelled
--   by its steps (`set_block`, `move_head`).
-- - Utils/RoutineBook: pkg/utils/book.go, as steps that routines make in any order.
-- - Utils/ValidatorIndexes: pkg/utils/validator_indexes.go.
-- - Relay: pkg/relay, with the circuit breaker (Breaker), the bids (Bids), the monitor (Monitor) and
--   the addresses (Constants).
-- - Window: pkg/validator_window/window.go.
-- - Config: pkg/config, pkg/db/metrics.go and the addresses of pkg/spec.
-- - Db: pkg/db, the columns of the insertions (Blocks, States, Requests) and the deletions (Deletes).
-- - Scenarios: small states at which the theorems are applied.
--
-- How the state corresponds: a struct is a record with the same field names, a handler is a function
-- from the state to the state, and the loop over a slice is a recursion on the list. A map from
-- validator index to Gwei is a function, 0 where there is no key; other maps are lists of pairs, read
-- in the order of the list. A slice that the source tests for nil is an `Option`.
--
-- In the spec and the metrics `none` is a panic of the source, or a `log.Fatal`. The previous,
-- current and next state are different objects there, and so are their blocks, so each is a value.
-- In the analyzer blocks and states are shared objects: a block is known by its slot and root, and a
-- change of it is made wherever it stands (`share_block`); the states that the metrics change replace
-- those of the cache (`share_states`). There `none` is also a call that waits for another routine:
-- each function runs as one routine, with the cache as it finds it. A wait that the end of the
-- context breaks is a value of its own (`ended`, `stop_at`); the channel that it leaves in the map is
-- followed in Analyzer/AgnosticMap only. The answers of the nodes and of the relays are fixed during
-- a run, and the calls of the database are a log in the order of the calls, the last one first.
--
-- Numbers: `uint64` is a natural number with the wrap written out (`add64`, `sub64`, `mul64`);
-- `int64` is its bit pattern, read by `int64_value`. Validator indices are below 2 ^ 63. Keys,
-- roots and addresses are compared for equality only, so each is one number; withdrawal credentials
-- are the first byte and the address. The records of github.com/attestantio/go-eth2-client have the
-- fields that the source reads.
--
-- Every loop is a recursion on a list or on a number of slots that the source fixes, but for
-- `DivideValidatorsBatches`, whose loop takes fuel: one round for each validator is enough where the
-- batches are not empty. The loops that wait for events take the list of what they receive.
--
-- Not modelled: the drivers and batches of the database, the HTTP client, the subscriptions, logging
-- and the prometheus export, which are I/O; the constructors of states and blocks, which copy fields;
-- the processing of attestations and sync aggregates, and the choice of the metrics by the fork,
-- which the analyzer takes as a parameter.
pub mod Common
pub mod Spec
pub mod Metrics
pub mod Analyzer
pub mod Utils
pub mod Relay
pub mod Config
pub mod Window
pub mod Db
pub mod Scenarios
