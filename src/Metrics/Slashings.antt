-- ===== src/Metrics/Slashings.antt =====
-- `ProcessSlashings` of pkg/spec/metrics/state_phase0.go, and of state_electra.go, which is the same
-- over the attester slashings of Electra.
pub mod Credits
pub mod Records
use goteth.Common.{
  ℕ, ◌+◌, ◌*◌, ◌/◌, ◌≡◌, Bool, true, false, Option, none, some, List, [], ◌∷◌, ◌++◌, if◌then◌else◌,
  get_elem?, add64, sub64, mul64, ◌>>=◌, loop?,
}
use goteth.Spec.Constants.{whistle_blower_reward_quotient, proposer_weight, weight_denominator}
use goteth.Spec.Slots.{epoch_at_slot}
use goteth.Spec.Validator.{Validator, is_slashable_validator, slashing_intersection}
use goteth.Spec.Block.{AgnosticBlock, AttesterSlashing}
use goteth.Spec.State.{
  AgnosticState, AgnosticSlashing, GweiMap, bump, SlashingReason, proposer_slashing,
  attester_slashing,
}
use goteth.Metrics.{StateMetricsBase}

-- The next state and the two rewards of the block.
pub record SlashingPass : Type 0 where
  pub state : AgnosticState
  pub whistle_blower_reward : ℕ
  pub proposer_reward : ℕ

unfoldable pub count_slashing : SlashingReason → AgnosticState → AgnosticState
count_slashing attester_slashing state = record state {
  new_attester_slashings = add64 state.new_attester_slashings 1;
}
count_slashing proposer_slashing state = record state {
  new_proposer_slashings = add64 state.new_proposer_slashings 1;
}

-- The `if` on a slashable validator, which also reads the effective balance in the next state.
unfoldable pub reward_slashing : SlashingReason → ℕ → SlashingPass → Option SlashingPass
unfolding count_slashing mul64
reward_slashing reason idx pass = get_elem? pass.state.validators idx >>= λ v.
    let wbr = v.effective_balance / whistle_blower_reward_quotient in
    let pr = mul64 wbr proposer_weight / weight_denominator in
    some (record {
      state = count_slashing reason pass.state;
      whistle_blower_reward = add64 pass.whistle_blower_reward wbr;
      proposer_reward = add64 pass.proposer_reward pr;
    })

abbrev pub slashing_of : AgnosticBlock → SlashingReason → ℕ → Bool → AgnosticSlashing
slashing_of block reason idx valid = record {
  slashed_validator = idx;
  slashed_by = block.proposer_index;
  slashing_reason = reason;
  epoch = epoch_at_slot block.slot;
  slot = block.slot;
  valid = valid;
}

unfoldable pub append_slashing :
    AgnosticBlock → SlashingReason → ℕ → Bool → SlashingPass → SlashingPass
append_slashing block reason idx valid pass = record pass {
  state = record (pass.state) {
    slashings = pass.state.slashings ++ slashing_of block reason idx valid ∷ [];
  };
}

-- One slashed validator. The test reads the validator in the current state.
unfoldable pub slash :
    List Validator → AgnosticBlock → SlashingReason → SlashingPass → ℕ → Option SlashingPass
unfolding reward_slashing append_slashing
slash current block reason pass idx = do
  v ← get_elem? current idx
  let valid = is_slashable_validator v (epoch_at_slot block.slot)
  rewarded ← if valid then reward_slashing reason idx pass else some pass
  some (append_slashing block reason idx valid rewarded)

unfoldable pub slash_attesters :
    List Validator → AgnosticBlock → SlashingPass → AttesterSlashing → Option SlashingPass
slash_attesters current block pass s =
    loop? (slash current block attester_slashing) pass
      (slashing_intersection s.attesting_indices1 s.attesting_indices2)

unfoldable pub slash_block :
    List Validator → AgnosticBlock → List AttesterSlashing → SlashingPass → Option SlashingPass
slash_block current block attester_slashings pass =
    loop? (slash_attesters current block) pass attester_slashings >>= λ q.
    loop? (slash current block proposer_slashing) q block.proposer_slashings

-- The whistle blower of a block is its proposer: it is credited twice.
unfoldable pub credit_proposer : AgnosticBlock → SlashingPass → GweiMap → GweiMap
unfolding bump sub64
credit_proposer block pass m =
    bump (bump m block.proposer_index pass.proposer_reward) block.proposer_index
      (sub64 pass.whistle_blower_reward pass.proposer_reward)

-- The loop over the blocks, which gives the blocks with their rewards in order.
pub record BlocksPass : Type 0 where
  pub state : AgnosticState
  pub rewards : GweiMap
  pub done : List AgnosticBlock

unfoldable pub process_block_slashings :
    List Validator
    → (AgnosticBlock → List AttesterSlashing)
    → BlocksPass
    → AgnosticBlock
    → Option BlocksPass
unfolding slash_block credit_proposer
process_block_slashings current attester_slashings pass block =
    slash_block current block (attester_slashings block)
      (record { state = pass.state; whistle_blower_reward = 0; proposer_reward = 0 })
    >>= λ r. some (record {
      state = r.state;
      rewards = credit_proposer block r pass.rewards;
      done =
          pass.done
          ++ (record block { manual_reward = add64 block.manual_reward r.whistle_blower_reward })
            ∷ [];
    })

unfoldable pub process_slashings_of :
    (AgnosticBlock → List AttesterSlashing) → StateMetricsBase → Option StateMetricsBase
unfolding process_block_slashings
process_slashings_of attester_slashings p =
    loop? (process_block_slashings p.current_state.validators attester_slashings)
      (record { state = p.next_state; rewards = p.max_slashing_rewards; done = [] })
      p.next_state.blocks
    >>= λ r. some (record p {
      next_state = record (r.state) { blocks = r.done };
      max_slashing_rewards = r.rewards;
    })

unfoldable pub process_slashings : StateMetricsBase → Option StateMetricsBase
unfolding process_slashings_of
process_slashings = process_slashings_of λ block. block.attester_slashings

unfoldable pub process_slashings_electra : StateMetricsBase → Option StateMetricsBase
unfolding process_slashings_of
process_slashings_electra = process_slashings_of λ block. block.electra_attester_slashings
