-- ===== src/Metrics/Slashings/Credits.antt =====
-- What a block with slashings pays to its proposer (pkg/spec/metrics/state_phase0.go).
use goteth.Common.{
  ℕ, ◌≡◌, ◌==◌, arith, if◌then◌else◌, add64, sub64, List, ◌||◌, ◌&&◌, [], ◌∷◌, ◌++◌, elem,
  elem-append, loop,
}
use goteth.Spec.Validator.{slashing_intersection, intersect_one}
use goteth.Spec.Block.{AgnosticBlock}
use goteth.Spec.State.{GweiMap, bump}
use goteth.Metrics.Slashings.{SlashingPass, credit_proposer}

-- The two credits of a block add up: the proposer is paid the whole whistle-blower reward of the
-- block, modulo 2 ^ 64, and nobody else is paid.
pub credit_proposer_whole :
    (block : AgnosticBlock) (pass : SlashingPass) (m : GweiMap) (j : ℕ)
    → credit_proposer block pass m j ≡ bump m block.proposer_index pass.whistle_blower_reward j
unfolding credit_proposer bump add64 sub64
credit_proposer_whole block pass m j = ground arith

intersect_one-elem :
    (j item1 : ℕ) (res set2 : List ℕ)
    → elem j (intersect_one item1 res set2) ≡ (elem j res || (j == item1 && elem item1 set2))
unfolding intersect_one
intersect_one-elem j item1 res [] = ground arith
intersect_one-elem j item1 res (x ∷ xs) = ground (
  arith,
  intersect_one-elem j item1 (if item1 == x then res ++ item1 ∷ [] else res) xs,
  elem-append j res (item1 ∷ []),
)

intersection-elem :
    (j : ℕ) (res set1 set2 : List ℕ)
    → elem j (loop (λ r item1. intersect_one item1 r set2) res set1)
      ≡ (elem j res || (elem j set1 && elem j set2))
intersection-elem j res [] set2 = ground arith
intersection-elem j res (x ∷ xs) set2 =
    ground (
      arith,
      intersection-elem j (intersect_one x res set2) xs set2,
      intersect_one-elem j x res set2,
    )

-- The intersection holds exactly the indices that both attestations name.
pub slashing_intersection-elem :
    (j : ℕ) (set1 set2 : List ℕ)
    → elem j (slashing_intersection set1 set2) ≡ (elem j set1 && elem j set2)
unfolding slashing_intersection
slashing_intersection-elem j set1 set2 = intersection-elem j [] set1 set2
