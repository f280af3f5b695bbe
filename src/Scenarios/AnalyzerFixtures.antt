-- ===== src/Scenarios/AnalyzerFixtures.antt =====
-- A concrete analyzer of pkg/analyzer, and services that answer.
use goteth.Common.{refl, arith, ℕ, true, false, ◌==◌, if◌then◌else◌, none, some, List, [], ◌∷◌}
use goteth.Spec.Block.{AgnosticBlock}
use goteth.Spec.Block.Transactions.{EthTransaction}
use goteth.Spec.State.{AgnosticState}
use goteth.Metrics.{StateMetricsBase}
use goteth.Utils.RoutineBook.{RoutineBook}
use goteth.Analyzer.Services.{StateMetrics, Services, historical, ChainAnalyzer}
use goteth.Analyzer.Blocks.Process.Book.{HasRoom}
use goteth.Scenarios.Fixtures.{state, block, bundle, rewards}

-- A transaction for the encoded form `raw`, to the contract 1.
abbrev pub decoded : ℕ → EthTransaction
decoded raw = record { hash = raw; to = some 1; sender = some 2; blob_hashes = [] }

-- The nodes give the root 2 for the slot 9633 and the root 1 for every other.
abbrev pub services : Services
services = record {
  request_beacon_block = λ slot. some (record block { slot = slot });
  request_beacon_state = λ _. none;
  request_beacon_state_by_root = λ _ _ _. none;
  request_block_root = λ slot. if slot == 9633 then 2 else 1;
  request_state_root = λ _. none;
  request_finalized_beacon_block = none;
  request_current_head = 9632;
  request_fulu_blobs = λ _. [];
  request_blob_sidecars = λ _. [];
  get_block_receipts = λ _. some [];
  unmarshal = λ raw. some (decoded raw);
  get_delivered_bids = λ _ _. none;
  state_metrics_by_fork_version = λ _ _ _. none;
  retrieve_last_slot = some 0;
  fails = λ _. false;
}

abbrev pub book : RoutineBook
book = record { size = 32; free = 32; taken = []; pages = [] }

pub book-HasRoom : (key : ℕ) → HasRoom book key
book-HasRoom key = record { room = omega arith; bounded = omega arith; inactive = refl }

abbrev pub blocks : List (ℕ × AgnosticBlock)
blocks = (9632, block) ∷ (9633, record block { slot = 9633 }) ∷ []

-- The blocks of the slots 9632 and 9633 and the states of the epochs 299 to 301 are in the cache.
abbrev pub analyzer : ChainAnalyzer
analyzer = record {
  beacon_contract_address = 99;
  init_slot = 9536;
  final_slot = 9664;
  download_mode = historical;
  stop = false;
  cancelled = false;
  metrics = record {
    block = true;
    epoch = true;
    validator_rewards = true;
    api_rewards = false;
    transactions = true;
    blob_sidecars = false;
  };
  processer_book = book;
  download_cache = record {
    state_history = record {
      entries =
          (299, record state { epoch = 299 })
          ∷ (300, state)
          ∷ (301, record state { epoch = 301 })
          ∷ [];
      subs = [];
      gone = [];
      received = [];
    };
    block_history = record { entries = blocks; subs = []; gone = []; received = [] };
    head_block = some (record block { slot = 9633 });
    latest_finalized = none;
  };
  aggregator = record {
    rewards_aggregation_epochs = 1;
    start_epoch_aggregation = 300;
    end_epoch_aggregation = 300;
    validators_rewards_aggregations = [];
    aggregated_epochs_in_window = [];
    persisted = [];
  };
  epoch_boundary_state_roots = (9663, 77) ∷ [];
  calls = [];
}

abbrev pub state_metrics : StateMetricsBase → StateMetrics
state_metrics base = record { metrics_base = base; get_max_reward = λ index. some (rewards index) }

-- The services whose metrics give the bundle.
abbrev pub measuring : StateMetricsBase → Services
measuring base = record services {
  state_metrics_by_fork_version = λ _ _ _. some (state_metrics base);
}

abbrev pub rooted : ℕ → AgnosticState
rooted epoch = record state { epoch = epoch; state_root = 5 }

abbrev pub complete : StateMetricsBase
complete = record bundle {
  prev_state = rooted 299;
  current_state = rooted 300;
  next_state = record (rooted 301) { blocks = block ∷ [] };
}
