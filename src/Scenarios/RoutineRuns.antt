-- ===== src/Scenarios/RoutineRuns.antt =====
-- The theorems on the loops of the analyzer, its start and the window of rewards at small values.
use goteth.Common.{
  ℕ, ◌+◌, ◌-◌, ◌*◌, ◌/◌, ◌%◌, ◌≤◌, ◌<◌, ◌≡◌, ◌⊎◌, refl, sym, inl, inr, true, false, none, some,
  List, [], ◌∷◌, elem, range_from, arith,
}
use mathlib.Core.List.{Memᴰ}
use mathlib.Core.Path.{subst}
use goteth.Analyzer.Aggregation.{new_aggregator}
use goteth.Analyzer.Routines.{Round, Historical, run_historical, start_at}
use goteth.Analyzer.Routines.InOrder.{
  sent, slots_down, InOrder, AllFree, IsFree, run_historical-InOrder, run_historical_progress,
}
use goteth.Analyzer.Routines.Head.{
  Event, Head, head, finalized_checkpoint, reorg, run_head, follow_from, run_head-Follows,
}
use goteth.Analyzer.Startup.{slot_window, slot_window_bounds}
use goteth.Window.{ValidatorWindowRunner, checkpoint, tick, run}
use goteth.Window.Keeps.{no_signal, a_tick, an_error, a_head, run-elem}

-- The finalized slot lies below: the cache is cleaned at the first slot of an epoch. A round without
-- free pages passes.
abbrev free_round : Round
free_round = record { stop = false; free_pages = 3; finalized_slot = some 20000; cancelled = false }

abbrev full_round : Round
full_round = record free_round { free_pages = 0 }

abbrev three_rounds : List Round
three_rounds = free_round ∷ full_round ∷ free_round ∷ []

abbrev after_rounds : Historical
after_rounds = elim (run_historical 9700 (start_at 9631) three_rounds) [
  | none ↦ start_at 9631
  | some h ↦ h
]

rounds_run : run_historical 9700 (start_at 9631) three_rounds ≡ some after_rounds
unfolding run_historical goteth.Common.add64
rounds_run = refl

run_historical-InOrder_example : InOrder 9631 9700 after_rounds
run_historical-InOrder_example =
    run_historical-InOrder 9631 9700 three_rounds after_rounds (omega arith) (omega arith)
      rounds_run

free : IsFree free_round
free = record { going = refl; room = omega arith; alive = refl; finalized = 20000; known = refl }

two_free-AllFree : AllFree (free_round ∷ free_round ∷ [])
two_free-AllFree r (Memᴰ.head e) = subst IsFree (sym e) free
two_free-AllFree r (Memᴰ.tail (Memᴰ.head e)) = subst IsFree (sym e) free
two_free-AllFree r (Memᴰ.tail (Memᴰ.tail h)) = elim h [ ]

run_historical_progress_example :
    (h : Historical) × (run_historical 9632 (start_at 9631) (free_round ∷ free_round ∷ []) ≡ some h)
    × (h.next ≡ 9632 + 1)
    × (sent h.acts ≡ slots_down 9631 (9632 + 1 - 9631))
run_historical_progress_example =
    run_historical_progress 9631 9632 (free_round ∷ free_round ∷ []) (omega arith) (omega arith)
      two_free-AllFree refl

-- The head event of slot 9635 is missed, that of slot 9634 comes late, and the loop stops at the second
-- tick.
abbrev events : List Event
events =
    head 9633 5
    ∷ finalized_checkpoint 299
    ∷ Event.tick false
    ∷ head 9636 6
    ∷ head 9634 7
    ∷ reorg 9635
    ∷ Event.tick true
    ∷ head 9637 8
    ∷ []

run_head-Follows_example :
    (h : Head) × (run_head (follow_from 9632) events ≡ some h)
    × (h.tasks ≡ 9632 ∷ 9633 ∷ 9634 ∷ 9635 ∷ 9636 ∷ [])
    × (h.next ≡ 9637)
    × (9632 ≤ 9637)
run_head-Follows_example = run_head-Follows 9632 events refl

slot_window_bounds_example :
    let (init, end) = slot_window 9631 9700 in
    let aggregator = new_aggregator init 225 in
    ((64 ≤ 9631)
      × (init % 32 ≡ 0)
      × (init + 64 ≤ 9631)
      × (end % 32 ≡ 0)
      × (9700 < end)
      × (end ≤ 9700 + 32)
      × (aggregator.start_epoch_aggregation ≡ 9631 / 32))
    ⊎ ((9631 < 64) × (end < init))
slot_window_bounds_example = slot_window_bounds 9631 9700 225 (omega arith) (omega arith)

-- The rewards of the epochs 295 to 300, and a window of three.
abbrev runner : ValidatorWindowRunner
runner = record {
  window_epoch_size = 3;
  stop = false;
  running = true;
  finished = false;
  reward_epochs = range_from 295 6;
}

run-elem_example :
    elem 299
      (run runner (checkpoint (some 300) true ∷ tick ∷ checkpoint none true ∷ [])).reward_epochs
    ≡ elem 299 (range_from 295 6)
run-elem_example =
    run-elem runner 300 299 (checkpoint (some 300) true ∷ tick ∷ checkpoint none true ∷ [])
      (omega arith) (a_head (omega arith) (a_tick (an_error no_signal)))
