-- ===== src/Analyzer/Aggregation/Run.antt =====
-- A run of the aggregation over many epochs (pkg/analyzer/process_state.go).
use goteth.Common.{ℕ, ◌+◌, ◌≤◌, ◌<◌, ◌≡◌, refl, sym, List, [], ◌∷◌, u64_mod, add64, sub64, arith}
use mathlib.Core.Path.{subst}
use goteth.Spec.Slots.{epoch_at_slot}
use goteth.Spec.Rewards.{ValidatorRewards}
use goteth.Analyzer.Aggregation.{Aggregator, new_aggregator, aggregate_epoch, flush, taken}
use goteth.Analyzer.Aggregation.Window.{
  WindowValid, WindowFits, aggregate_epoch-WindowStep, new_aggregator-WindowValid,
}

-- The aggregation of epochs, in the order in which they are processed, with their rewards.
unfoldable pub aggregate_epochs : Aggregator → List (ℕ × List ValidatorRewards) → Aggregator
aggregate_epochs s [] = s
aggregate_epochs s (x ∷ xs) = aggregate_epochs (aggregate_epoch s x.0 x.1) xs

-- One window for each epoch, and one more.
abbrev pub windows : ℕ → List (ℕ × List ValidatorRewards) → ℕ
windows n [] = n
windows n (x ∷ xs) = n + windows n xs

-- An epoch moves the end of the window by one window at most.
record Moves (s t : Aggregator) : Type 0 where
  same : t.rewards_aggregation_epochs ≡ s.rewards_aggregation_epochs
  not_far : t.end_epoch_aggregation ≤ s.end_epoch_aggregation + s.rewards_aggregation_epochs

aggregate_epoch-Moves :
    (s : Aggregator) (epoch : ℕ) (vals : List ValidatorRewards)
    → WindowFits s
    → Moves s (aggregate_epoch s epoch vals)
unfolding aggregate_epoch flush taken add64
aggregate_epoch-Moves s epoch vals fits = record {
  same = ground arith;
  not_far = ground (arith, fits);
}

epochs_from-WindowValid :
    (xs : List (ℕ × List ValidatorRewards)) (s : Aggregator)
    → WindowValid s
    → s.end_epoch_aggregation + windows s.rewards_aggregation_epochs xs < u64_mod
    → WindowValid (aggregate_epochs s xs)
unfolding aggregate_epochs
epochs_from-WindowValid [] s valid fits = valid
epochs_from-WindowValid (x ∷ xs) s valid fits =
    let now : WindowFits s = omega (arith, fits) in
    let moved = aggregate_epoch-Moves s x.0 x.1 now in
    epochs_from-WindowValid xs (aggregate_epoch s x.0 x.1)
      (aggregate_epoch-WindowStep s x.0 x.1 valid now).0
      (subst (λ n. (aggregate_epoch s x.0 x.1).end_epoch_aggregation + windows n xs < u64_mod)
        (sym moved.same) (omega (arith, fits, moved.not_far)))

new-end :
    (init_slot n : ℕ)
    → 1 < n
    → epoch_at_slot init_slot + 2 + n < u64_mod
    → ((new_aggregator init_slot n).rewards_aggregation_epochs ≡ n)
      × ((new_aggregator init_slot n).end_epoch_aggregation ≤ epoch_at_slot init_slot + 2 + n)
unfolding new_aggregator add64 sub64
new-end init_slot n several fits = (refl, omega (arith, several, fits))

-- From the start of the analyzer on, over any epochs, stale, repeated or out of order, the window stays
-- valid, as long as a window for each epoch and two more end below 2 ^ 64.
pub aggregate_epochs-WindowValid :
    (init_slot n : ℕ) (xs : List (ℕ × List ValidatorRewards))
    → 1 < n
    → epoch_at_slot init_slot + 2 + n + windows n xs < u64_mod
    → WindowValid (aggregate_epochs (new_aggregator init_slot n) xs)
aggregate_epochs-WindowValid init_slot n xs several fits =
    let (same, close) = new-end init_slot n several (omega (arith, fits)) in
    epochs_from-WindowValid xs (new_aggregator init_slot n)
      (new_aggregator-WindowValid init_slot n several (omega (arith, fits)))
      (subst (λ k. (new_aggregator init_slot n).end_epoch_aggregation + windows k xs < u64_mod)
        (sym same) (omega (arith, close, fits)))
