-- ===== src/Metrics.antt =====
-- pkg/spec/metrics: what is computed from the states of three consecutive epochs. The three states,
-- and the blocks that they hold, are different objects, so each is a value of its own.
pub mod Lookup
pub mod EpochReward
pub mod Slashings
pub mod Electra
pub mod Phase0
pub mod Altair
use goteth.Common.{ℕ, List}
use goteth.Spec.State.{AgnosticState, GweiMap}

pub record StateMetricsBase : Type 0 where
  pub prev_state : AgnosticState
  pub current_state : AgnosticState
  pub next_state : AgnosticState
  pub max_slashing_rewards : GweiMap
  pub max_block_rewards : GweiMap
  pub inclusion_delays : List ℕ
  pub max_attester_rewards : GweiMap
