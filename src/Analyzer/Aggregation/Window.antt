-- ===== src/Analyzer/Aggregation/Window.antt =====
-- The window of the aggregation of rewards (pkg/analyzer/process_state.go).
use goteth.Common.{
  ℕ, ◌+◌, ◌≤◌, ◌<◌, ◌≡◌, ◌⊎◌, inl, inr, refl, sym, true, false, List, [], ◌∷◌, add64, sub64,
  u64_mod, elem, length, Distinct, Within, elem_full, arith,
}
use mathlib.Core.Path.{subst}
use goteth.Spec.Slots.{epoch_at_slot}
use goteth.Spec.Rewards.{ValidatorRewards}
use goteth.Analyzer.Aggregation.{
  Aggregator, new_aggregator, aggregate_epoch, flush, taken, in_window,
}

-- The window is as wide as configured, the epochs that were aggregated in it are different epochs of
-- it, and at least one is missing.
pub record WindowValid (s : Aggregator) : Type 0 where
  pub several : 1 < s.rewards_aggregation_epochs
  pub width : s.end_epoch_aggregation + 1 ≡ s.start_epoch_aggregation + s.rewards_aggregation_epochs
  pub distinct : Distinct s.aggregated_epochs_in_window
  pub within :
      Within s.start_epoch_aggregation
        (s.start_epoch_aggregation + s.rewards_aggregation_epochs)
        s.aggregated_epochs_in_window
  pub unfinished : length s.aggregated_epochs_in_window < s.rewards_aggregation_epochs

-- The window after this one ends at a `uint64`.
abbrev pub WindowFits : Aggregator → Type 0
WindowFits s = s.end_epoch_aggregation + s.rewards_aggregation_epochs < u64_mod

-- What one epoch does to the window.
pub data WindowStep (s : Aggregator) (epoch : ℕ) : Aggregator → Type 0 where
  rejected :
      {t : Aggregator}
      → t ≡ s
      → (in_window s epoch ≡ false) ⊎ (elem epoch s.aggregated_epochs_in_window ≡ true)
      → WindowStep s epoch t
  recorded :
      {t : Aggregator}
      → t.start_epoch_aggregation ≡ s.start_epoch_aggregation
      → t.aggregated_epochs_in_window ≡ epoch ∷ s.aggregated_epochs_in_window
      → WindowStep s epoch t
  closed :
      {t : Aggregator}
      → t.start_epoch_aggregation ≡ s.end_epoch_aggregation + 1
      → t.aggregated_epochs_in_window ≡ []
      → t.validators_rewards_aggregations ≡ []
      → ((x : ℕ)
          → s.start_epoch_aggregation ≤ x
          → x ≤ s.end_epoch_aggregation
          → elem x (epoch ∷ s.aggregated_epochs_in_window) ≡ true)
      → WindowStep s epoch t

module _ (s : Aggregator) (epoch : ℕ) (vals : List ValidatorRewards) where
  -- The epoch is of the window and not aggregated yet.
  abbrev IsFresh : Type 0
  IsFresh = (in_window s epoch ≡ true) × (elem epoch s.aggregated_epochs_in_window ≡ false)

  abbrev seen : List ℕ
  seen = epoch ∷ s.aggregated_epochs_in_window

  seen-Within :
      WindowValid s
      → IsFresh
      → Within s.start_epoch_aggregation
          (s.start_epoch_aggregation + s.rewards_aggregation_epochs)
          seen
  seen-Within valid fresh x h = ground (arith, fresh.0, valid.width, valid.within x)

  aggregate_epoch-cases :
      1 < s.rewards_aggregation_epochs
      → ((aggregate_epoch s epoch vals ≡ s)
          × ((in_window s epoch ≡ false) ⊎ (elem epoch s.aggregated_epochs_in_window ≡ true)))
        ⊎ ((aggregate_epoch s epoch vals ≡ taken s epoch vals)
            × IsFresh
            × (length seen < s.rewards_aggregation_epochs))
        ⊎ ((aggregate_epoch s epoch vals ≡ flush (taken s epoch vals))
            × IsFresh
            × (s.rewards_aggregation_epochs ≤ length seen))
  unfolding aggregate_epoch
  aggregate_epoch-cases several = ground (arith, several)

  flush-WindowStep :
      WindowValid s
      → WindowFits s
      → IsFresh
      → s.rewards_aggregation_epochs ≤ length seen
      → WindowStep s epoch (flush (taken s epoch vals))
  unfolding flush taken add64
  flush-WindowStep valid fits fresh full =
      closed (omega (arith, fits, valid.several)) refl refl (λ x low high.
        elem_full s.start_epoch_aggregation s.rewards_aggregation_epochs seen
          (fresh.1, valid.distinct) (seen-Within valid fresh) full x low
          (omega (arith, high, valid.width)))

  flush-WindowValid : WindowValid s → WindowFits s → WindowValid (flush (taken s epoch vals))
  unfolding flush taken add64
  flush-WindowValid valid fits = record {
    several = valid.several;
    width = omega (arith, fits, valid.several);
    distinct = tt;
    within = λ x h. absurd (cc);
    unfinished = omega (arith, valid.several);
  }

  taken-WindowValid :
      WindowValid s
      → IsFresh
      → length seen < s.rewards_aggregation_epochs
      → WindowValid (taken s epoch vals)
  unfolding taken
  taken-WindowValid valid fresh room = record {
    several = valid.several;
    width = valid.width;
    distinct = (fresh.1, valid.distinct);
    within = seen-Within valid fresh;
    unfinished = room;
  }

-- On a valid window whose successor fits, an epoch keeps the window valid, and it is either rejected,
-- which leaves the state as it is and happens only outside the window or to an epoch that is already
-- aggregated; or recorded in the window; or it closes the window, which happens only when every
-- epoch of the window is aggregated, and the next window starts right after it, empty.
pub aggregate_epoch-WindowStep :
    (s : Aggregator) (epoch : ℕ) (vals : List ValidatorRewards)
    → WindowValid s
    → WindowFits s
    → WindowValid (aggregate_epoch s epoch vals) × WindowStep s epoch (aggregate_epoch s epoch vals)
unfolding taken
aggregate_epoch-WindowStep s epoch vals valid fits =
    elim (aggregate_epoch-cases s epoch vals valid.several) [
      | inl (same, why) ↦ (subst WindowValid (sym same) valid, rejected same why)
      | inr (inl (same, fresh, room)) ↦ (
        subst WindowValid (sym same) (taken-WindowValid s epoch vals valid fresh room),
        subst (WindowStep s epoch) (sym same) (recorded refl refl),
      )
      | inr (inr (same, fresh, full)) ↦ (
        subst WindowValid (sym same) (flush-WindowValid s epoch vals valid fits),
        subst (WindowStep s epoch) (sym same) (flush-WindowStep s epoch vals valid fits fresh full),
      )
    ]

-- A second aggregation of an epoch right after the first, with whatever rewards, changes nothing.
pub aggregate_epoch_idempotent :
    (s : Aggregator) (epoch : ℕ) (vals again : List ValidatorRewards)
    → WindowValid s
    → WindowFits s
    → aggregate_epoch (aggregate_epoch s epoch vals) epoch again ≡ aggregate_epoch s epoch vals
unfolding aggregate_epoch flush add64
aggregate_epoch_idempotent s epoch vals again valid fits =
    ground (arith, valid.several, valid.width, fits)

-- The analyzer starts with a valid window, if that window ends below 2 ^ 64.
pub new_aggregator-WindowValid :
    (init_slot n : ℕ)
    → 1 < n
    → epoch_at_slot init_slot + 2 + n < u64_mod
    → WindowValid (new_aggregator init_slot n)
unfolding new_aggregator epoch_at_slot add64 sub64
new_aggregator-WindowValid init_slot n several fits = record {
  several = several;
  width = omega (arith, several, fits);
  distinct = tt;
  within = λ x h. absurd (cc);
  unfinished = omega (arith, several);
}
