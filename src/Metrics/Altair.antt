-- ===== src/Metrics/Altair.antt =====
-- pkg/spec/metrics/state_altair.go, state_deneb.go and state_electra.go: the participation flags of
-- an attestation, and whether a validator could have obtained a flag.
pub mod Flags
pub mod Possible
use goteth.Common.{
  ℕ, zero, suc, ◌+◌, ◌-◌, ◌/◌, ◌%◌, ◌≡◌, Bool, true, false, ◌&&◌, ◌||◌, Option, none, some, ◌==◌,
  leb, if◌then◌else◌, get_elem?, add64, sub64, mul64, i64_min_bits, ◌>>=◌,
}
use goteth.Spec.Constants.{slots_per_epoch, min_inclusion_delay}
use goteth.Spec.Block.{AgnosticBlock, Attestation, AttestationData}
use goteth.Spec.State.{AgnosticState}
use goteth.Spec.State.Roots.{get_block_root, get_block_root_at_slot}
use goteth.Metrics.{StateMetricsBase}
use goteth.Metrics.Lookup.{get_state_at_slot}

-- `int(math.Sqrt(spec.SlotsPerEpoch))`.
abbrev pub sqrt_slots_per_epoch : ℕ
sqrt_slots_per_epoch = 5

unfoldable pub get_justified_root_from_slot : StateMetricsBase → ℕ → Option ℕ
get_justified_root_from_slot s slot =
    get_state_at_slot s slot >>= λ state. some state.current_justified_checkpoint.root

-- The conversion to `int` keeps the bits.
unfoldable pub get_inclusion_delay : AttestationData → AgnosticBlock → ℕ
get_inclusion_delay data' included = sub64 included.slot data'.slot

-- `delay <= n` on `int`, for the bits of `delay` and an `n` that is not negative.
abbrev pub int_leb : ℕ → ℕ → Bool
int_leb delay n = leb i64_min_bits delay || leb delay n

pub record ParticipationFlags : Type 0 where
  pub source : Bool
  pub target : Bool
  pub head : Bool

-- `matchingSource`, `matchingTarget` and `matchingHead`; a missing state ends the program.
unfoldable pub matching : StateMetricsBase → AttestationData → Option ParticipationFlags
matching s data' = do
  justified ← get_justified_root_from_slot s data'.slot
  target_root ← get_block_root s.next_state data'.target_epoch
  head_root ← get_block_root_at_slot s.next_state data'.slot
  let source = data'.source_root == justified
  let target = source && target_root == data'.target_root
  some (record {
    source = source;
    target = target;
    head = target && data'.beacon_block_root == head_root;
  })

unfoldable pub altair_flags : ℕ → ParticipationFlags → ParticipationFlags
altair_flags delay m = record {
  source = m.source && int_leb delay sqrt_slots_per_epoch;
  target = m.target && int_leb delay slots_per_epoch;
  head = m.head && int_leb delay min_inclusion_delay;
}

unfoldable pub get_participation_flags :
    StateMetricsBase → AttestationData → AgnosticBlock → Option ParticipationFlags
get_participation_flags s data' included =
    matching s data' >>= λ m. some (altair_flags (get_inclusion_delay data' included) m)

unfoldable pub target_inclusion_ok : AttestationData → AgnosticBlock → Bool
target_inclusion_ok data' included =
    leb (sub64 (included.slot / slots_per_epoch) (data'.slot / slots_per_epoch)) 1

unfoldable pub deneb_flags : Bool → ℕ → ParticipationFlags → ParticipationFlags
deneb_flags target_ok delay m = record {
  source = m.source && int_leb delay sqrt_slots_per_epoch;
  target = m.target && target_ok;
  head = m.head && int_leb delay min_inclusion_delay;
}

unfoldable pub get_participation_flags_deneb :
    StateMetricsBase → AttestationData → AgnosticBlock → Option ParticipationFlags
get_participation_flags_deneb s data' included = matching s data' >>= λ m.
    some (deneb_flags (target_inclusion_ok data' included) (get_inclusion_delay data' included) m)

-- The body for the attestations of Electra is the one of Deneb.
unfoldable pub get_participation_flags_electra :
    StateMetricsBase → AttestationData → AgnosticBlock → Option ParticipationFlags
get_participation_flags_electra s data' included = get_participation_flags_deneb s data' included

-- The largest delays of `isFlagPossible`; an unknown flag index ends the program.
unfoldable pub flag_delay : ℕ → Option ℕ
flag_delay flag_index =
    if flag_index == 0
    then some sqrt_slots_per_epoch
    else if flag_index == 1
    then some slots_per_epoch
    else if flag_index == 2
    then some min_inclusion_delay
    else none

unfoldable pub flag_delay_deneb : ℕ → ℕ → Option ℕ
flag_delay_deneb att_slot flag_index =
    if flag_index == 0
    then some sqrt_slots_per_epoch
    else if flag_index == 1
    then some (slots_per_epoch + (slots_per_epoch - att_slot % slots_per_epoch))
    else if flag_index == 2
    then some 1
    else none

-- The block of the previous state is read in any case, that of the current state from its first
-- slot on.
unfoldable pub window_block : StateMetricsBase → ℕ → Option AgnosticBlock
window_block s slot = get_elem? s.prev_state.blocks (slot % slots_per_epoch) >>= λ block.
    if leb (mul64 s.current_state.epoch slots_per_epoch) slot
    then get_elem? s.current_state.blocks (slot % slots_per_epoch)
    else some block

-- The loop, of which `n` slots are left; the slots are far enough below 2 ^ 64 for its bound.
unfoldable pub proposed_from : StateMetricsBase → ℕ → ℕ → Option Bool
proposed_from s slot zero = some false
proposed_from s slot (suc n) =
    let rest = proposed_from s (add64 slot 1) n in
    window_block s slot >>= (λ block. if block.proposed then some true else rest)

unfoldable pub is_flag_possible : StateMetricsBase → ℕ → ℕ → Option Bool
is_flag_possible s val_idx flag_index =
    let att_slot = s.prev_state.epoch_structs.validator_att_slot val_idx in
    flag_delay flag_index >>= (λ delay. proposed_from s (add64 att_slot 1) delay)

unfoldable pub is_flag_possible_deneb : StateMetricsBase → ℕ → ℕ → Option Bool
is_flag_possible_deneb s val_idx flag_index =
    let att_slot = s.prev_state.epoch_structs.validator_att_slot val_idx in
    flag_delay_deneb att_slot flag_index >>= (λ delay. proposed_from s (add64 att_slot 1) delay)

unfoldable pub max_inclusion_delay : ℕ
max_inclusion_delay = slots_per_epoch

unfoldable pub max_inclusion_delay_deneb : StateMetricsBase → ℕ → ℕ
max_inclusion_delay_deneb s val_idx =
    let slot = s.prev_state.epoch_structs.validator_att_slot val_idx in
    slots_per_epoch + (slots_per_epoch - slot % slots_per_epoch - 1)
