-- ===== src/Scenarios/FlagRuns.antt =====
-- The theorems on the participation flags at small states.
use goteth.Common.{ℕ, ◌≡◌, ◌≤◌, refl, true, false, none, some, List, [], ◌∷◌, replicate, arith}
use goteth.Spec.Block.{AgnosticBlock, AttestationData}
use goteth.Spec.State.{AgnosticState}
use goteth.Metrics.{StateMetricsBase}
use goteth.Metrics.Altair.{
  ParticipationFlags, get_participation_flags, get_participation_flags_deneb,
  get_participation_flags_electra, is_flag_possible, is_flag_possible_deneb,
}
use goteth.Metrics.Altair.Flags.{Refines, get_participation_flags_deneb-altair}
use goteth.Scenarios.Fixtures.{state, block, bundle}

-- Epochs 0, 1 and 2, with the root 9 in every slot.
abbrev young : ℕ → AgnosticState
young epoch = record state {
  epoch = epoch;
  block_roots = replicate 96 9;
  blocks = replicate 32 block;
  current_justified_checkpoint = record { epoch = 0; root = 8 };
}

abbrev young_bundle : StateMetricsBase
young_bundle = record bundle { prev_state = young 0; current_state = young 1; next_state = young 2 }

abbrev vote : AttestationData
vote = record {
  slot = 40;
  index = 0;
  beacon_block_root = 9;
  source_root = 8;
  target_epoch = 1;
  target_root = 9;
}

abbrev including : ℕ → AgnosticBlock
including slot = record block { slot = slot }

-- Included in the last slot of the next epoch: only Deneb gives the target.
abbrev no_flags : ParticipationFlags
no_flags = record { source = false; target = false; head = false }

abbrev target_flag : ParticipationFlags
target_flag = record { source = false; target = true; head = false }

late_altair_run : get_participation_flags young_bundle vote (including 95) ≡ some no_flags
unfolding get_participation_flags goteth.Metrics.Altair.matching
    goteth.Metrics.Altair.get_justified_root_from_slot goteth.Metrics.Lookup.get_state_at_slot
    goteth.Spec.State.Roots.get_block_root goteth.Spec.State.Roots.get_block_root_at_slot
    goteth.Metrics.Altair.altair_flags goteth.Metrics.Altair.get_inclusion_delay goteth.Common.sub64
late_altair_run = refl

late_electra_run :
    get_participation_flags_electra young_bundle vote (including 95) ≡ some target_flag
unfolding get_participation_flags_electra get_participation_flags_deneb
    goteth.Metrics.Altair.matching goteth.Metrics.Altair.get_justified_root_from_slot
    goteth.Metrics.Lookup.get_state_at_slot goteth.Spec.State.Roots.get_block_root
    goteth.Spec.State.Roots.get_block_root_at_slot goteth.Metrics.Altair.deneb_flags
    goteth.Metrics.Altair.get_inclusion_delay goteth.Metrics.Altair.target_inclusion_ok
    goteth.Common.sub64
late_electra_run = refl

get_participation_flags_deneb-altair_example :
    (get_participation_flags_deneb young_bundle vote (including 95) ≡ some target_flag)
    × Refines 40 95 no_flags target_flag
get_participation_flags_deneb-altair_example =
    get_participation_flags_deneb-altair young_bundle vote (including 95) no_flags target_flag
      (omega arith, omega arith, omega arith) late_altair_run late_electra_run
