-- ===== src/Analyzer/Startup.antt =====
-- pkg/analyzer/chain_analyzer.go: the construction of the analyzer, its run and its end. The other
-- constructors give their result or an error, as parameters.
use Prim.Native.String.{String}
use goteth.Common.{
  ℕ, ◌+◌, ◌*◌, ◌/◌, ◌%◌, ◌≤◌, ◌<◌, ◌≡◌, Bool, true, false, ◌⊎◌, Option, none, some, List, [], ◌∷◌,
  leb, if◌then◌else◌, add64, sub64, u64_mod, arith,
}
use goteth.Spec.Constants.{slots_per_epoch}
use goteth.Spec.Slots.{epoch_at_slot}
use goteth.Relay.Breaker.{RelayClient}
use goteth.Utils.RoutineBook.{new_routine_book}
use goteth.Analyzer.Aggregation.{Aggregator, new_aggregator}
use goteth.Analyzer.ChainCache.{new_queue}
use goteth.Analyzer.Services.{ChainAnalyzer, DownloadMode, historical, finalized, other}
use goteth.Analyzer.States.Transition.{shut_down}
use goteth.Config.{same_text}
use goteth.Config.Metrics.{new_metrics}
use goteth.Config.Address.{beacon_contract_addresses, hex_string_address_is_valid}
use goteth.Config.Analyzer.{AnalyzerConfig}

pub data NewError : Type 0 where
  bad_slots bad_metrics no_db_client no_db_connection no_api_client bad_address no_relays : NewError

pub data Result (A : Type 0) : Type 0 where
  ok : A → Result A
  err : NewError → Result A

infixl 5 ◌>>=◌ ◌>>◌
abbrev ◌>>=◌ : {A B : Type 0} → Result A → (A → Result B) → Result B
ok a >>= f = f a
err e >>= f = err e

abbrev ◌>>◌ : {A B : Type 0} → Result A → Result B → Result B
m >> k = m >>= λ _. k

abbrev or_error : {A : Type 0} → Option A → NewError → Result A
or_error none e = err e
or_error (some a) e = ok a

abbrev check : Bool → NewError → Result Bool
check true e = ok true
check false e = err e

-- What the other parts answer: whether a client of the database, its connection and the client of the
-- nodes are there, the number that an address spells, and the clients of the relays.
pub record Parts : Type 0 where
  pub db_client : Bool
  pub db_connection : Bool
  pub api_client : Bool
  pub hex_to_address : String → ℕ
  pub relays : Option (List RelayClient)

abbrev pub mode_of : String → DownloadMode
mode_of mode =
    if same_text mode "historical"
    then historical
    else if same_text mode "finalized"
    then finalized
    else other

-- The slots that are analysed: two epochs before the first one, and an epoch after the last one.
unfoldable pub slot_window : ℕ → ℕ → ℕ × ℕ
slot_window init_slot final_slot = (
  sub64 (init_slot / slots_per_epoch * slots_per_epoch) (slots_per_epoch * 2),
  add64 (final_slot / slots_per_epoch * slots_per_epoch) slots_per_epoch,
)

abbrev pub Slots : Type 0
Slots = (ℕ × ℕ) × Aggregator

-- Outside the historical mode the window of the aggregation is set later.
abbrev pub no_window : ℕ → Aggregator
no_window rewards_aggregation_epochs = record (new_aggregator 0 rewards_aggregation_epochs) {
  start_epoch_aggregation = 0;
  end_epoch_aggregation = 0;
}

unfoldable pub slots_of_mode : DownloadMode → AnalyzerConfig → Result Slots
unfolding slot_window
slots_of_mode historical c =
    if leb c.final_slot c.init_slot
    then err bad_slots
    else (let window = slot_window c.init_slot c.final_slot in
        ok (window, new_aggregator window.0 c.rewards_aggregation_epochs))
slots_of_mode finalized c = ok ((c.init_slot, c.final_slot), no_window c.rewards_aggregation_epochs)
slots_of_mode other c = ok ((c.init_slot, c.final_slot), no_window c.rewards_aggregation_epochs)

-- A name of a network, or an address.
unfoldable pub contract_address : String → Result String
contract_address input = elim (beacon_contract_addresses input) [
  | some address ↦ ok address
  | none ↦ if hex_string_address_is_valid input then ok input else err bad_address
]

unfoldable pub new_chain_analyzer : Parts → AnalyzerConfig → Result ChainAnalyzer
unfolding slots_of_mode contract_address new_metrics
new_chain_analyzer parts c = do
  slots ← slots_of_mode (mode_of c.download_mode) c
  metrics ← or_error (new_metrics c.metrics) bad_metrics
  check parts.db_client no_db_client
  check parts.db_connection no_db_connection
  check parts.api_client no_api_client
  address ← contract_address c.beacon_contract_address
  relay_clients ← or_error parts.relays no_relays
  ok (record {
    beacon_contract_address = parts.hex_to_address address;
    init_slot = slots.0.0;
    final_slot = slots.0.1;
    download_mode = mode_of c.download_mode;
    stop = false;
    cancelled = false;
    metrics = metrics;
    processer_book = new_routine_book 32;
    download_cache = new_queue;
    aggregator = slots.1;
    epoch_boundary_state_roots = [];
    calls = [];
  })

-- The routines that `Run` starts beside the download routine, and waits for.
pub data MainRoutine : Type 0 where
  run_historical : (init end : ℕ) → MainRoutine
  run_head : MainRoutine

unfoldable pub main_routines : ChainAnalyzer → List MainRoutine
main_routines s = elim s.download_mode [
  | historical ↦ run_historical s.init_slot s.final_slot ∷ []
  | finalized ↦ run_head ∷ []
  | other ↦ []
]

-- `Close`, before it waits for the routines.
unfoldable pub close : ChainAnalyzer → ChainAnalyzer
unfolding shut_down
close s = shut_down s

-- The window starts at the first slot of an epoch, two epochs before that of the first slot, and ends
-- at the first slot of the epoch after that of the last one; the rewards are aggregated from the epoch
-- of the first slot on. A first slot in epoch 0 or 1 makes the start wrap around, far above the end.
pub slot_window_bounds :
    (init_slot final_slot rewards_aggregation_epochs : ℕ)
    → init_slot < final_slot
    → final_slot + 128 < u64_mod
    → let (init, end) = slot_window init_slot final_slot in
      let aggregator = new_aggregator init rewards_aggregation_epochs in
      ((64 ≤ init_slot)
        × (init % 32 ≡ 0)
        × (init + 64 ≤ init_slot)
        × (end % 32 ≡ 0)
        × (final_slot < end)
        × (end ≤ final_slot + 32)
        × (aggregator.start_epoch_aggregation ≡ init_slot / 32))
      ⊎ ((init_slot < 64) × (end < init))
unfolding slot_window new_aggregator epoch_at_slot add64 sub64
slot_window_bounds init_slot final_slot n h k = ground arith
