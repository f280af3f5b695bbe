-- ===== src/Metrics/Phase0/Order.antt =====
-- The order that `orderAttestationsBySlot` gives (pkg/spec/metrics/state_phase0.go).
use goteth.Common.{ℕ, ◌≤◌, ◌<◌, ◌≡◌, refl, sym, ap, ◌∙◌, List, [], ◌∷◌, ◌++◌, length, arith}
use mathlib.Core.Path.{subst}
use mathlib.Core.List.{append_assoc, append-nil}
use goteth.Spec.Block.{PendingAttestation}
use goteth.Metrics.Phase0.{
  inclusion_slot, position, insert_at, order_from, order_attestations_by_slot,
}

-- No attestation of `done` is included after the slot `a`.
abbrev pub AtMost : ℕ → List PendingAttestation → Type 0
AtMost a [] = Unit {0}
AtMost a (b ∷ bs) = (inclusion_slot b ≤ a) × AtMost a bs

-- Each attestation is included no earlier than those before it.
abbrev pub InOrder : List PendingAttestation → List PendingAttestation → Type 0
InOrder done [] = Unit {0}
InOrder done (a ∷ rest) = AtMost (inclusion_slot a) done × InOrder (done ++ a ∷ []) rest

position-end :
    (a : ℕ) (done rest : List PendingAttestation)
    → AtMost a done
    → position a (done ++ rest) (length done) ≡ length done
unfolding position
position-end a [] rest h = refl
position-end a (b ∷ bs) rest h = ground (arith, h.0, position-end a bs rest h.1)

order_from-InOrder :
    (done rest : List PendingAttestation)
    → InOrder done rest
    → order_from (done ++ rest) rest done ≡ done ++ rest
unfolding order_from insert_at
order_from-InOrder done [] h = sym (append-nil done)
order_from-InOrder done (a ∷ rest) h =
    ap (order_from (done ++ a ∷ rest) rest)
      (ground (arith, position-end (inclusion_slot a) done (a ∷ rest) h.0))
    ∙ subst (λ l. order_from l rest (done ++ a ∷ []) ≡ l) (append_assoc done (a ∷ []) rest)
        (order_from-InOrder (done ++ a ∷ []) rest h.1)

-- Attestations that already stand in the order of their inclusion slots stay as they are.
pub order_attestations_by_slot-InOrder :
    (attestations : List PendingAttestation)
    → InOrder [] attestations
    → order_attestations_by_slot attestations ≡ attestations
unfolding order_attestations_by_slot
order_attestations_by_slot-InOrder attestations h = order_from-InOrder [] attestations h

-- The second of two attestations, included before the first, overwrites it: the first is lost, and
-- the second stands twice.
pub order_attestations_by_slot-overwrites :
    (a b : PendingAttestation)
    → inclusion_slot b < inclusion_slot a
    → order_attestations_by_slot (a ∷ b ∷ []) ≡ b ∷ b ∷ []
unfolding order_attestations_by_slot order_from position insert_at
order_attestations_by_slot-overwrites a b h = ground (arith, h)
