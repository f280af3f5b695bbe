-- ===== src/Spec/State/Status.antt =====
-- pkg/spec/state.go: `GetValStatus`, `GetValsPerStatus`, `GetValsStateNums`.
use goteth.Common.{
  ℕ, zero, suc, ◌+◌, ◌≡◌, ◌↔◌, Bool, true, false, ◌||◌, ◌&&◌, none, some, List, [], ◌∷◌, ◌++◌,
  arith, leb, ltb, ◌==◌, if◌then◌else◌, length, get_elem?, loop, range_from, elem, elem-append,
  length-append,
}
use goteth.Spec.Validator.{Validator, is_active}
use goteth.Spec.State.{AgnosticState}

pub data ValidatorStatus : Type 0 where
  queue_status active_status exit_status slashed_status : ValidatorStatus

-- The body of `GetValStatus` behind its bounds test.
unfoldable pub status_at : ℕ → Validator → ValidatorStatus
status_at epoch v =
    if v.slashed
    then slashed_status
    else if leb v.exit_epoch epoch
    then exit_status
    else if leb v.activation_epoch epoch
    then active_status
    else queue_status

unfoldable pub get_val_status : AgnosticState → ℕ → ValidatorStatus
get_val_status p val_idx = elim (get_elem? p.validators val_idx) [
  | none ↦ queue_status
  | some v ↦ status_at p.epoch v
]

-- One list of validator indices for each status.
pub record PerStatus : Type 0 where
  pub queue : List ℕ
  pub active : List ℕ
  pub exit : List ℕ
  pub slashed : List ℕ

unfoldable pub append_status : PerStatus → ℕ → ValidatorStatus → PerStatus
append_status r i queue_status = record r { queue = r.queue ++ i ∷ [] }
append_status r i active_status = record r { active = r.active ++ i ∷ [] }
append_status r i exit_status = record r { exit = r.exit ++ i ∷ [] }
append_status r i slashed_status = record r { slashed = r.slashed ++ i ∷ [] }

abbrev no_status : PerStatus
no_status = record { queue = []; active = []; exit = []; slashed = [] }

unfoldable pub get_vals_per_status : AgnosticState → PerStatus
unfolding append_status
get_vals_per_status p =
    loop (λ r i. append_status r i (get_val_status p i)) no_status
      (range_from 0 (length p.validators))

unfoldable pub get_vals_state_nums : AgnosticState → AgnosticState
get_vals_state_nums p =
    let result = get_vals_per_status p in
    record p {
      num_active_vals = length result.active;
      num_exited_vals = length result.exit;
      num_slashed_vals = length result.slashed;
      num_queued_vals = length result.queue;
    }

abbrev pub select : ValidatorStatus → PerStatus → List ℕ
select queue_status r = r.queue
select active_status r = r.active
select exit_status r = r.exit
select slashed_status r = r.slashed

abbrev pub same_status : ValidatorStatus → ValidatorStatus → Bool
same_status queue_status queue_status = true
same_status active_status active_status = true
same_status exit_status exit_status = true
same_status slashed_status slashed_status = true
same_status _ _ = false

abbrev size : PerStatus → ℕ
size r = length r.queue + length r.active + length r.exit + length r.slashed

elem-append_status :
    (j i : ℕ) (r : PerStatus) (s t : ValidatorStatus)
    → elem j (select t (append_status r i s))
      ≡ (elem j (select t r) || (same_status s t && (j == i)))
unfolding append_status
elem-append_status j i r queue_status queue_status = ground (arith, elem-append j r.queue (i ∷ []))
elem-append_status j i r active_status active_status =
    ground (arith, elem-append j r.active (i ∷ []))
elem-append_status j i r exit_status exit_status = ground (arith, elem-append j r.exit (i ∷ []))
elem-append_status j i r slashed_status slashed_status =
    ground (arith, elem-append j r.slashed (i ∷ []))
elem-append_status j i r _ _ = ground arith

size-append_status :
    (r : PerStatus) (i : ℕ) (s : ValidatorStatus) → size (append_status r i s) ≡ size r + 1
unfolding append_status
size-append_status r i queue_status = omega (arith, length-append r.queue (i ∷ []))
size-append_status r i active_status = omega (arith, length-append r.active (i ∷ []))
size-append_status r i exit_status = omega (arith, length-append r.exit (i ∷ []))
size-append_status r i slashed_status = omega (arith, length-append r.slashed (i ∷ []))

module _ (p : AgnosticState) where
  abbrev filed : PerStatus → List ℕ → PerStatus
  filed = loop (λ r i. append_status r i (get_val_status p i))

  size-filed : (r : PerStatus) (i n : ℕ) → size (filed r (range_from i n)) ≡ size r + n
  size-filed r i zero = omega arith
  size-filed r i (suc n) = omega (
    arith,
    size-filed (append_status r i (get_val_status p i)) (suc i) n,
    size-append_status r i (get_val_status p i),
  )

  elem-filed :
      (j : ℕ) (t : ValidatorStatus) (r : PerStatus) (i n : ℕ)
      → elem j (select t (filed r (range_from i n))) ≡ (
          elem j (select t r) || (same_status (get_val_status p j) t && (leb i j && ltb j (i + n))))
  elem-filed j t r i zero = ground arith
  elem-filed j t r i (suc n) = ground (
    arith,
    elem-filed j t (append_status r i (get_val_status p i)) (suc i) n,
    elem-append_status j i r (get_val_status p i) t,
  )

-- The four counts of a state add up to the number of its validators.
pub get_vals_state_nums_total :
    (p : AgnosticState)
    → let q = get_vals_state_nums p in
      q.num_queued_vals + q.num_active_vals + q.num_exited_vals + q.num_slashed_vals
      ≡ length p.validators
unfolding get_vals_state_nums get_vals_per_status
get_vals_state_nums_total p = omega (arith, size-filed p no_status 0 (length p.validators))

-- An index stands in the list of a status exactly if it is an index of the validator list and
-- `GetValStatus` gives that status for it.
pub get_vals_per_status-elem :
    (p : AgnosticState) (t : ValidatorStatus) (j : ℕ)
    → elem j (select t (get_vals_per_status p))
      ≡ (same_status (get_val_status p j) t && ltb j (length p.validators))
unfolding get_vals_per_status
get_vals_per_status-elem p queue_status j =
    ground (arith, elem-filed p j queue_status no_status 0 (length p.validators))
get_vals_per_status-elem p t j = ground (arith, elem-filed p j t no_status 0 (length p.validators))

-- A validator has the active status at an epoch exactly if `IsActive` holds of it there and it is
-- not slashed.
pub status_at-active_iff :
    (epoch : ℕ) (v : Validator)
    → (status_at epoch v ≡ active_status) ↔ ((is_active v epoch ≡ true) × (v.slashed ≡ false))
unfolding status_at is_active
status_at-active_iff epoch v = ground arith
