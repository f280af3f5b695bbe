-- ===== src/Metrics/Phase0/Delay.antt =====
-- The smallest possible delay of inclusion (pkg/spec/metrics/state_phase0.go).
use goteth.Common.{
  ℕ, zero, suc, ◌+◌, ◌-◌, ◌≤◌, ◌<◌, ◌≡◌, refl, Bool, true, false, Option, none, some, add64,
  u64_mod, add64_exact, some_inj, arith, ◌>>=◌, ◌⊎◌, inl, inr,
}
use mathlib.Core.Path.{subst}
use goteth.Metrics.{StateMetricsBase}
use goteth.Metrics.Lookup.{get_block_from_slot}
use goteth.Metrics.Phase0.{min_inclusion_delay_from, get_min_inclusion_delay_possible}

-- Whether the block of a slot is proposed, where there is a block.
unfoldable pub proposed_at : StateMetricsBase → ℕ → Option Bool
proposed_at s slot =
    get_block_from_slot s slot >>= (λ block. elim block [ none ↦ none | some b ↦ some b.proposed ])

-- `result` counts the slot `slot`; `n` slots are left.
abbrev pub IsFirst : StateMetricsBase → (slot n result r : ℕ) → Type 0
IsFirst s slot n result r =
    (result ≤ r)
    × (r ≤ result + n)
    × ((k : ℕ) → result + k < r → proposed_at s (slot + k) ≡ some false)
    × (r < result + n → proposed_at s (slot + (r - result)) ≡ some true)

min_inclusion_delay_from-step :
    (s : StateMetricsBase) (slot n result r : ℕ)
    → slot + 1 < u64_mod
    → min_inclusion_delay_from s slot (suc n) result ≡ some r
    → ((proposed_at s slot ≡ some true) × (r ≡ result))
      ⊎ ((proposed_at s slot ≡ some false)
          × (min_inclusion_delay_from s (slot + 1) n (suc result) ≡ some r))
unfolding min_inclusion_delay_from proposed_at add64
min_inclusion_delay_from-step s slot n result r fits h = ground (arith, h, fits)

proposed_at-suc :
    (s : StateMetricsBase) (slot k : ℕ) (b : Bool)
    → proposed_at s (slot + 1 + k) ≡ some b
    → (m : ℕ) → m ≡ suc k
    → proposed_at s (slot + m) ≡ some b
proposed_at-suc s slot k b h m e =
    let same : slot + 1 + k ≡ slot + m = omega (arith, e) in
    subst (λ x. proposed_at s x ≡ some b) same h

earlier :
    (s : StateMetricsBase) (slot result r : ℕ)
    → proposed_at s slot ≡ some false
    → ((k : ℕ) → suc result + k < r → proposed_at s (slot + 1 + k) ≡ some false)
    → (k : ℕ) → result + k < r
    → proposed_at s (slot + k) ≡ some false
earlier s slot result r here before zero low =
    subst (λ x. proposed_at s x ≡ some false) (omega arith) here
earlier s slot result r here before (suc k) low =
    proposed_at-suc s slot k false (before k (omega (arith, low))) (suc k) refl

min_inclusion_delay_from-IsFirst :
    (s : StateMetricsBase) (slot n result r : ℕ)
    → slot + n < u64_mod
    → min_inclusion_delay_from s slot n result ≡ some r
    → IsFirst s slot n result r
unfolding min_inclusion_delay_from
min_inclusion_delay_from-IsFirst s slot zero result r fits h =
    let done : result ≡ r = some_inj h in
    (
      omega (arith, done),
      omega (arith, done),
      λ k low. absurd (omega (arith, low, done)),
      λ low. absurd (omega (arith, low, done)),
    )
min_inclusion_delay_from-IsFirst s slot (suc n) result r fits h =
    elim (min_inclusion_delay_from-step s slot n result r (omega (arith, fits)) h) [
      | inl (here, done) ↦ (
        omega (arith, done),
        omega (arith, done),
        λ k low. absurd (omega (arith, low, done)),
        λ low. subst (λ x. proposed_at s x ≡ some true) (omega (arith, done)) here,
      )
      | inr (not_here, later) ↦
          let (low, high, before, found) =
            min_inclusion_delay_from-IsFirst s (slot + 1) n (suc result) r (omega (arith, fits))
              later in
          (
            omega (arith, low),
            omega (arith, high),
            earlier s slot result r not_here before,
            λ less.
                proposed_at-suc s slot (r - suc result) true (found (omega (arith, less)))
                  (r - result) (omega (arith, low)),
          )
    ]

-- For a slot below 2 ^ 64 - 33, the smallest possible delay `r`, where there is one, is from 1 to 33;
-- no block of the slots before `slot + r` and after `slot` is proposed, and that of `slot + r` is,
-- unless `r` is 33.
pub get_min_inclusion_delay_possible-IsFirst :
    (s : StateMetricsBase) (slot r : ℕ)
    → slot + 33 < u64_mod
    → get_min_inclusion_delay_possible s slot ≡ some r
    → IsFirst s (slot + 1) 32 1 r
unfolding get_min_inclusion_delay_possible
get_min_inclusion_delay_possible-IsFirst s slot r fits h =
    min_inclusion_delay_from-IsFirst s (slot + 1) 32 1 r (omega (arith, fits)) (
      subst (λ x. min_inclusion_delay_from s x 32 1 ≡ some r)
        (add64_exact slot 1 (omega (arith, fits))) h)
