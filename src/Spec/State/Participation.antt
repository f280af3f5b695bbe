-- ===== src/Spec/State/Participation.antt =====
-- pkg/spec/state.go: `Setup`, `ProcessAltairAttestations`, `MissingFlags` and `GetMissingFlagCount`.
-- The rows of `prev_epoch_correct_flags` are the source, the target and the head flag.
pub mod Altair
use goteth.Common.{
  ℕ, zero, suc, ◌/◌, ◌%◌, ◌^◌, ◌≡◌, Bool, true, false, not, ◌&&◌, Option, none, some, List, [], ◌∷◌,
  ◌==◌, leb, if◌then◌else◌, get_elem?, set, length, replicate, add64, sub64, ◌>>=◌,
}
use goteth.Spec.Validator.{Validator, is_active}
use goteth.Spec.State.{AgnosticState}
use goteth.Spec.State.Status.{get_vals_state_nums}
use goteth.Spec.State.Totals.{get_total_active_eff_balance, get_total_active_real_balance}
use goteth.Spec.State.Missed.{track_missing_blocks}

-- An empty list of validators stands for a nil one too, on which `Setup` ends with an error; it
-- panics where the root history or the balances are too short.
unfoldable pub setup : AgnosticState → Option AgnosticState
setup p =
    let n = length p.validators in
    let counted = get_vals_state_nums (record p {
      validator_attestation_included = replicate n false;
      attesting_balance = 0 ∷ 0 ∷ 0 ∷ [];
      prev_epoch_correct_flags = replicate n false ∷ replicate n false ∷ replicate n false ∷ [];
    }) in
    get_total_active_real_balance counted >>= λ real.
    track_missing_blocks (record counted {
      total_active_balance = get_total_active_eff_balance counted;
      total_active_real_balance = real;
    })
    >>= (λ q. some (record q {
      slashings = [];
      consolidation_requests = [];
      consolidations_processed = [];
      new_exiting_validators = [];
      consolidated_amounts = λ _. 0;
      consolidated_out_amounts = λ _. 0;
      deposited_amounts = λ _. 0;
    }))

-- `(item & flag) == flag` for the flag `2 ^ f`.
unfoldable pub has_flag : ℕ → ℕ → Bool
has_flag f item = item / 2 ^ f % 2 == 1

-- One write to the flags and one to the balances; an index out of bounds panics.
unfoldable pub mark_flag : ℕ → AgnosticState → ℕ → Option AgnosticState
mark_flag f s val_index = do
  row ← get_elem? s.prev_epoch_correct_flags f
  _ ← get_elem? row val_index
  balance ← get_elem? s.attesting_balance f
  v ← get_elem? s.validators val_index
  some (record s {
    prev_epoch_correct_flags = set s.prev_epoch_correct_flags f (set row val_index true);
    attesting_balance = set s.attesting_balance f (add64 balance v.effective_balance);
  })

unfoldable pub process_item : ℕ → AgnosticState → ℕ → ℕ → Option AgnosticState
process_item f s val_index item = if has_flag f item then mark_flag f s val_index else some s

unfoldable pub process_items : ℕ → ℕ → List ℕ → AgnosticState → Option AgnosticState
process_items f val_index [] s = some s
process_items f val_index (item ∷ items) s =
    process_item f s val_index item >>= λ t. process_items f (suc val_index) items t

unfoldable pub process_altair_attestations : AgnosticState → List ℕ → Option AgnosticState
process_altair_attestations s participation = process_items 0 0 participation s >>= λ t.
    process_items 1 0 participation t >>= λ u. process_items 2 0 participation u

-- The loop over the rows, which sets the flags of the result that the row misses.
unfoldable pub mark_missing : ℕ → List (List Bool) → List Bool → Option (List Bool)
mark_missing val_idx [] result = some result
mark_missing val_idx (row ∷ rows) [] =
    get_elem? row val_idx >>= λ item. if item then mark_missing val_idx rows [] else none
mark_missing val_idx (row ∷ rows) (r ∷ rs) = do
  item ← get_elem? row val_idx
  rest ← mark_missing val_idx rows rs
  some ((if item then r else true) ∷ rest)

unfoldable pub missing_flags : AgnosticState → ℕ → Option (List Bool)
missing_flags p val_idx = get_elem? p.prev_epoch_correct_flags 0 >>= λ sources.
    if leb (length sources) val_idx
    then some (false ∷ false ∷ false ∷ [])
    else get_elem? p.validators val_idx >>= (λ v.
      if is_active v (sub64 p.epoch 1)
      then mark_missing val_idx p.prev_epoch_correct_flags (false ∷ false ∷ false ∷ [])
      else some (false ∷ false ∷ false ∷ []))

unfoldable pub count_missing : AgnosticState → ℕ → List Bool → ℕ → Option ℕ
count_missing p idx [] result = some result
count_missing p idx (item ∷ items) result = get_elem? p.validators idx >>= λ v.
    count_missing p (suc idx) items
      (if is_active v (sub64 p.epoch 1) && not item then add64 result 1 else result)

unfoldable pub get_missing_flag_count : AgnosticState → ℕ → Option ℕ
get_missing_flag_count p flag_index =
    get_elem? p.prev_epoch_correct_flags flag_index >>= λ row. count_missing p 0 row 0
