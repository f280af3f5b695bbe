-- ===== src/Spec/Validator.antt =====
-- The validator record that the beacon node serves, as far as the source reads it, and
-- `IsActive` (pkg/spec/state.go) and `IsSlashableValidator` (pkg/spec/slashing.go).
use goteth.Common.{
  ℕ, Bool, true, false, not, ◌&&◌, ltb, leb, if◌then◌else◌, List, [], ◌∷◌, ◌++◌, ◌==◌, loop,
}

-- Keys, roots and addresses are byte arrays that the source compares for equality only; each is
-- the number that its bytes spell. The 32 bytes of withdrawal credentials are read as the first
-- byte and the 20-byte address.
pub record Validator : Type 0 where
  pub public_key : ℕ
  pub withdrawal_prefix : ℕ
  pub withdrawal_address : ℕ
  pub effective_balance : ℕ
  pub slashed : Bool
  pub activation_epoch : ℕ
  pub exit_epoch : ℕ
  pub withdrawable_epoch : ℕ

unfoldable pub is_active : Validator → ℕ → Bool
is_active validator epoch =
    if leb validator.activation_epoch epoch && ltb epoch validator.exit_epoch then true else false

unfoldable pub is_slashable_validator : Validator → ℕ → Bool
is_slashable_validator validator epoch =
    not validator.slashed
    && leb validator.activation_epoch epoch
    && ltb epoch validator.withdrawable_epoch

-- The inner and the outer loop of `SlashingIntersection`.
unfoldable pub intersect_one : ℕ → List ℕ → List ℕ → List ℕ
intersect_one item1 res set2 =
    loop (λ r item2. if item1 == item2 then r ++ item1 ∷ [] else r) res set2

unfoldable pub slashing_intersection : List ℕ → List ℕ → List ℕ
unfolding intersect_one
slashing_intersection set1 set2 = loop (λ r item1. intersect_one item1 r set2) [] set1
