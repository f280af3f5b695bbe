-- ===== src/Metrics/Altair/Possible.antt =====
-- Which flags a validator could have obtained (pkg/spec/metrics/state_altair.go, state_deneb.go).
use goteth.Common.{ℕ, zero, suc, ◌≤◌, ◌≡◌, true, some, add64, arith}
use goteth.Metrics.{StateMetricsBase}
use goteth.Metrics.Altair.{
  proposed_from, flag_delay, flag_delay_deneb, is_flag_possible, is_flag_possible_deneb,
}

proposed_from_more :
    (s : StateMetricsBase) (slot n m : ℕ)
    → proposed_from s slot n ≡ some true
    → n ≤ m
    → proposed_from s slot m ≡ some true
unfolding proposed_from
proposed_from_more s slot zero m h le = absurd (cc)
proposed_from_more s slot (suc n) zero h le = absurd (omega (arith, le))
proposed_from_more s slot (suc n) (suc m) h le =
    let rest : proposed_from s (add64 slot 1) n ≡ some true
        → proposed_from s (add64 slot 1) m ≡ some true =
      λ k. proposed_from_more s (add64 slot 1) n m k (omega (arith, le)) in
    ground (arith, h, rest)

-- In both forks, a validator that could have obtained the head flag could have obtained the source
-- flag, and one that could have obtained the source flag could have obtained the target flag; what
-- was possible in Altair is possible in Deneb.
pub is_flag_possible_chain :
    (s : StateMetricsBase) (v : ℕ)
    → (is_flag_possible s v 2 ≡ some true → is_flag_possible s v 0 ≡ some true)
      × (is_flag_possible s v 0 ≡ some true → is_flag_possible s v 1 ≡ some true)
      × (is_flag_possible_deneb s v 2 ≡ some true → is_flag_possible_deneb s v 0 ≡ some true)
      × (is_flag_possible_deneb s v 0 ≡ some true → is_flag_possible_deneb s v 1 ≡ some true)
      × (is_flag_possible s v 1 ≡ some true → is_flag_possible_deneb s v 1 ≡ some true)
unfolding is_flag_possible is_flag_possible_deneb flag_delay flag_delay_deneb
is_flag_possible_chain s v =
    let at = add64 (s.prev_state.epoch_structs.validator_att_slot v) 1 in
    (
      λ h. proposed_from_more s at 1 5 h (omega arith),
      λ h. proposed_from_more s at 5 32 h (omega arith),
      λ h. proposed_from_more s at 1 5 h (omega arith),
      λ h. proposed_from_more s at 5 _ h (omega arith),
      λ h. proposed_from_more s at 32 _ h (omega arith),
    )
