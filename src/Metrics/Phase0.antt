-- ===== src/Metrics/Phase0.antt =====
-- pkg/spec/metrics/state_phase0.go: the order of the attestations and the delays of inclusion.
pub mod Order
pub mod Delay
use goteth.Common.{
  ℕ, zero, suc, ◌+◌, ◌≤◌, ◌<◌, ◌≡◌, refl, sym, ap, ◌∙◌, Bool, true, false, Option, none, some, List,
  [], ◌∷◌, ◌++◌, ltb, leb, if◌then◌else◌, length, take, drop, add64, arith, ◌>>=◌,
}
use mathlib.Core.Path.{subst}
use mathlib.Core.List.{append_assoc, append-nil}
use goteth.Spec.Block.{AgnosticBlock, PendingAttestation}
use goteth.Metrics.{StateMetricsBase}
use goteth.Metrics.Lookup.{get_block_from_slot}

unfoldable pub inclusion_slot : PendingAttestation → ℕ
unfolding add64
inclusion_slot attestation = add64 attestation.data'.slot attestation.inclusion_delay

-- The inner loop, which compares with `attestations[j]` for each `j` below the number `n` of the
-- attestations ordered so far; there are never fewer attestations than that.
unfoldable pub position : ℕ → List PendingAttestation → ℕ → ℕ
unfolding inclusion_slot
position a attestations zero = zero
position a [] (suc n) = zero
position a (b ∷ bs) (suc n) =
    let rest = position a bs n in if ltb a (inclusion_slot b) then zero else suc rest

-- `append(orderedAttestations[:j], a)` writes into the array of `orderedAttestations`, so where `j`
-- is below its length the element at `j` is `a` already when `orderedAttestations[j:]` is appended.
unfoldable pub insert_at :
    ℕ → PendingAttestation → List PendingAttestation → List PendingAttestation
insert_at j a ordered =
    if ltb j (length ordered)
    then take j ordered ++ a ∷ a ∷ drop (suc j) ordered
    else ordered ++ a ∷ []

unfoldable pub order_from :
    List PendingAttestation
    → List PendingAttestation
    → List PendingAttestation
    → List PendingAttestation
unfolding position insert_at inclusion_slot
order_from attestations [] ordered = ordered
order_from attestations (a ∷ rest) ordered =
    order_from attestations rest
      (insert_at (position (inclusion_slot a) attestations (length ordered)) a ordered)

unfoldable pub order_attestations_by_slot : List PendingAttestation → List PendingAttestation
unfolding order_from
order_attestations_by_slot attestations = order_from attestations attestations []

-- The loop over the slots after the attested one, of which `n` are left; the slots are below
-- 2 ^ 64 - 32, so that the bound of the loop does not wrap.
unfoldable pub min_inclusion_delay_from : StateMetricsBase → (slot n result : ℕ) → Option ℕ
unfolding get_block_from_slot
min_inclusion_delay_from s slot zero result = some result
min_inclusion_delay_from s slot (suc n) result =
    let rest = min_inclusion_delay_from s (add64 slot 1) n (suc result) in
    get_block_from_slot s slot
    >>= (λ block. elim block [ none ↦ none | some b ↦ if b.proposed then some result else rest ])

unfoldable pub get_min_inclusion_delay_possible : StateMetricsBase → ℕ → Option ℕ
unfolding min_inclusion_delay_from
get_min_inclusion_delay_possible s slot = min_inclusion_delay_from s (add64 slot 1) 32 1
