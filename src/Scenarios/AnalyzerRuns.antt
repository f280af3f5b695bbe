-- ===== src/Scenarios/AnalyzerRuns.antt =====
-- The theorems on the aggregation of rewards and on the book of routines at small states.
use goteth.Common.{refl, [], ◌∷◌, arith}
use goteth.Analyzer.Aggregation.{Aggregator, aggregate_epoch}
use goteth.Analyzer.Aggregation.Window.{WindowValid, WindowStep, aggregate_epoch-WindowStep}
use goteth.Utils.RoutineBook.{
  RoutineBook, new_routine_book, receive, set_page, Steps, none_yet, and_then, receives, sets,
}
use goteth.Utils.RoutineBook.Capacity.{WithinSize, Steps-WithinSize}
use goteth.Scenarios.Fixtures.{rewards}

-- Two epochs to a window: from 300 to 301, of which 300 is aggregated.
abbrev aggregator : Aggregator
aggregator = record {
  rewards_aggregation_epochs = 2;
  start_epoch_aggregation = 300;
  end_epoch_aggregation = 301;
  validators_rewards_aggregations = [];
  aggregated_epochs_in_window = 300 ∷ [];
  persisted = [];
}

aggregator-WindowValid : WindowValid aggregator
aggregator-WindowValid = record {
  several = omega arith;
  width = omega arith;
  distinct = (refl, tt);
  within = λ x h. ground (arith, h);
  unfinished = omega arith;
}

aggregate_epoch-WindowStep_example :
    WindowValid (aggregate_epoch aggregator 301 (rewards 4 ∷ []))
    × WindowStep aggregator 301 (aggregate_epoch aggregator 301 (rewards 4 ∷ []))
aggregate_epoch-WindowStep_example =
    aggregate_epoch-WindowStep aggregator 301 (rewards 4 ∷ []) aggregator-WindowValid (omega arith)

-- One routine of a book of size 1, between and after the two steps of `Acquire`.
abbrev acquiring : RoutineBook
acquiring = record { size = 1; free = 0; taken = 9 ∷ []; pages = [] }

abbrev active : RoutineBook
active = record { size = 1; free = 0; taken = []; pages = 9 ∷ [] }

active-Steps : Steps (new_routine_book 1) active
unfolding new_routine_book receive set_page
active-Steps =
    and_then {s = acquiring} (and_then {s = new_routine_book 1} none_yet (receives 9 refl))
      (sets 9 refl)

Steps-WithinSize_example : WithinSize active
Steps-WithinSize_example = Steps-WithinSize 1 active active-Steps
