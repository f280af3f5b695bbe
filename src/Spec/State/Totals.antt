-- ===== src/Spec/State/Totals.antt =====
-- pkg/spec/state.go: the balances of the active validators.
use mathlib.Core.List.{append_assoc}
use goteth.Common.{
  ℕ, suc, ◌≡◌, refl, ap, ◌∙◌, ◌&&◌, Option, none, some, List, [], ◌∷◌, ◌++◌, map, arith, ltb, ◌==◌,
  if◌then◌else◌, length, get_elem?, get_elem?-append, length-append, loop, add64, ◌>>=◌,
}
use goteth.Spec.Constants.{compounding_withdrawal_prefix}
use goteth.Spec.Validator.{Validator, is_active}
use goteth.Spec.State.{AgnosticState}

-- One round of the loop of `ValsEffectiveBalance`.
unfoldable pub add_effective : List Validator → ℕ → ℕ → ℕ → ℕ
add_effective validators val_idx item result_balance =
    if ltb 0 item && ltb val_idx (length validators)
    then (elim (get_elem? validators val_idx) [
      | none ↦ result_balance
      | some v ↦ add64 result_balance v.effective_balance
    ])
    else result_balance

unfoldable pub effective_from : List Validator → ℕ → List ℕ → ℕ → ℕ
effective_from validators val_idx [] result_balance = result_balance
effective_from validators val_idx (item ∷ rest) result_balance =
    effective_from validators (suc val_idx) rest
      (add_effective validators val_idx item result_balance)

unfoldable pub vals_effective_balance : AgnosticState → List ℕ → ℕ
vals_effective_balance p val_list = effective_from p.validators 0 val_list 0

-- `val_array`: 1 at the active validators and 0 elsewhere.
unfoldable pub active_marks : ℕ → List Validator → List ℕ
active_marks epoch = map λ v. if is_active v epoch then 1 else 0

unfoldable pub get_total_active_eff_balance : AgnosticState → ℕ
get_total_active_eff_balance p = vals_effective_balance p (active_marks p.epoch p.validators)

unfoldable pub real_from : AgnosticState → ℕ → List Validator → ℕ → Option ℕ
real_from p idx [] total_balance = some total_balance
real_from p idx (v ∷ rest) total_balance =
    (if is_active v p.epoch
      then get_elem? p.balances idx >>= (λ b. some (add64 total_balance b))
      else some total_balance)
    >>= λ total. real_from p (suc idx) rest total

unfoldable pub get_total_active_real_balance : AgnosticState → Option ℕ
get_total_active_real_balance p = real_from p 0 p.validators 0

unfoldable pub get_compounding_vals_num : AgnosticState → ℕ
get_compounding_vals_num p =
    loop (λ n v. if v.withdrawal_prefix == compounding_withdrawal_prefix then add64 n 1 else n) 0
      p.validators

-- The sum of the effective balances of the active validators, as one pass over the list.
abbrev pub active_sum : ℕ → ℕ → List Validator → ℕ
active_sum epoch = loop λ acc v. if is_active v epoch then add64 acc v.effective_balance else acc

add_effective-here :
    (epoch : ℕ) (before : List Validator) (v : Validator) (rest : List Validator) (acc : ℕ)
    → add_effective (before ++ v ∷ rest) (length before) (if is_active v epoch then 1 else 0) acc
      ≡ (if is_active v epoch then add64 acc v.effective_balance else acc)
unfolding add_effective
add_effective-here epoch before v rest acc =
    ground (arith, get_elem?-append before v rest, length-append before (v ∷ rest))

length-snoc :
    (before : List Validator) (v : Validator) → length (before ++ v ∷ []) ≡ suc (length before)
length-snoc before v = omega (arith, length-append before (v ∷ []))

effective_from-active_sum :
    (epoch : ℕ) (before rest : List Validator) (acc : ℕ)
    → effective_from (before ++ rest) (length before) (active_marks epoch rest) acc
      ≡ active_sum epoch acc rest
unfolding effective_from active_marks
effective_from-active_sum epoch before [] acc = refl
effective_from-active_sum epoch before (v ∷ rest) acc =
    ap (effective_from (before ++ v ∷ rest) (suc (length before)) (active_marks epoch rest))
      (add_effective-here epoch before v rest acc)
    ∙ (rw (append_assoc before (v ∷ []) rest, length-snoc before v) at
        (effective_from-active_sum epoch (before ++ v ∷ []) rest
          (if is_active v epoch then add64 acc v.effective_balance else acc)))

-- The mark array and the guarded second loop of `GetTotalActiveEffBalance` give the sum, modulo
-- 2 ^ 64, of the effective balances of the active validators.
pub get_total_active_eff_balance-active_sum :
    (p : AgnosticState) → get_total_active_eff_balance p ≡ active_sum p.epoch 0 p.validators
unfolding get_total_active_eff_balance vals_effective_balance
get_total_active_eff_balance-active_sum p = effective_from-active_sum p.epoch [] p.validators 0
