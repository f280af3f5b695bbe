-- ===== src/Db/States.antt =====
-- pkg/db/proposer_duties.go, validator_last_status.go, slashings.go, consolidations_processed.go and
-- validator_rewards_aggregation.go: the columns of what is written for the states of an epoch.
use goteth.Common.{
  ℕ, zero, suc, ◌+◌, ◌*◌, ◌^◌, ◌≡◌, refl, ap, Option, none, some, List, [], ◌∷◌, length,
}
use goteth.Spec.State.{
  AgnosticSlashing, SlashingReason, proposer_slashing, attester_slashing, ConsolidationProcessed,
}
use goteth.Spec.State.Status.{
  ValidatorStatus, queue_status, active_status, exit_status, slashed_status,
}
use goteth.Analyzer.Services.{ProposerDutyRow, ValidatorLastStatus}
use goteth.Db.{
  Value, uint64, uint8, text, float32, bool, Input, Columns, to_input, entries_of, read_rows,
  read_rows-to_input,
}

abbrev pub proposer_duty_columns : Columns ProposerDutyRow
proposer_duty_columns =
    ("f_val_idx", λ d. uint64 d.val_idx)
    ∷ ("f_proposer_slot", λ d. uint64 d.proposer_slot)
    ∷ ("f_proposed", λ d. bool d.proposed)
    ∷ []

unfoldable pub proposer_duties_input : List ProposerDutyRow → Input
unfolding to_input
proposer_duties_input rows = to_input proposer_duty_columns rows

unfoldable pub status_code : ValidatorStatus → ℕ
status_code queue_status = 0
status_code active_status = 1
status_code exit_status = 2
status_code slashed_status = 3

-- The 32 bytes of the credentials: the prefix and the 20 bytes of the address.
abbrev pub credentials_text : ValidatorLastStatus → ℕ
credentials_text s = s.withdrawal_prefix * 2 ^ 248 + s.withdrawal_address

abbrev pub val_status_columns : Columns ValidatorLastStatus
val_status_columns =
    ("f_val_idx", λ s. uint64 s.val_idx)
    ∷ ("f_epoch", λ s. uint64 s.epoch)
    ∷ ("f_balance_eth", λ s. float32 s.current_balance)
    ∷ ("f_effective_balance", λ s. uint64 s.effective_balance)
    ∷ ("f_status", λ s. uint8 (status_code s.current_status))
    ∷ ("f_slashed", λ s. bool s.slashed)
    ∷ ("f_activation_epoch", λ s. uint64 s.activation_epoch)
    ∷ ("f_withdrawal_epoch", λ s. uint64 s.withdrawal_epoch)
    ∷ ("f_exit_epoch", λ s. uint64 s.exit_epoch)
    ∷ ("f_public_key", λ s. text s.public_key)
    ∷ ("f_withdrawal_prefix", λ s. uint8 s.withdrawal_prefix)
    ∷ ("f_withdrawal_credentials", λ s. text (credentials_text s))
    ∷ []

unfoldable pub val_status_input : List ValidatorLastStatus → Input
unfolding to_input
val_status_input rows = to_input val_status_columns rows

-- The reason is stored by its name.
abbrev pub reason_name : SlashingReason → ℕ
reason_name proposer_slashing = 0
reason_name attester_slashing = 1

abbrev pub slashing_columns : Columns AgnosticSlashing
slashing_columns =
    ("f_slashed_validator_index", λ s. uint64 s.slashed_validator)
    ∷ ("f_slashed_by_validator_index", λ s. uint64 s.slashed_by)
    ∷ ("f_slashing_reason", λ s. text (reason_name s.slashing_reason))
    ∷ ("f_slot", λ s. uint64 s.slot)
    ∷ ("f_epoch", λ s. uint64 s.epoch)
    ∷ ("f_valid", λ s. bool s.valid)
    ∷ []

unfoldable pub slashings_input : List AgnosticSlashing → Input
unfolding to_input
slashings_input rows = to_input slashing_columns rows

abbrev pub consolidation_processed_columns : Columns ConsolidationProcessed
consolidation_processed_columns =
    ("f_epoch", λ c. uint64 c.epoch)
    ∷ ("f_index", λ c. uint64 c.index)
    ∷ ("f_source_index", λ c. uint64 c.source_index)
    ∷ ("f_target_index", λ c. uint64 c.target_index)
    ∷ ("f_consolidated_amount", λ c. uint64 c.consolidated_amount)
    ∷ ("f_valid", λ c. bool c.valid)
    ∷ []

unfoldable pub consolidations_processed_input : List ConsolidationProcessed → Input
unfolding to_input
consolidations_processed_input rows = to_input consolidation_processed_columns rows

abbrev pub reason_of : ℕ → SlashingReason
reason_of zero = proposer_slashing
reason_of (suc _) = attester_slashing

reason_of-reason_name : (reason : SlashingReason) → reason_of (reason_name reason) ≡ reason
reason_of-reason_name proposer_slashing = refl
reason_of-reason_name attester_slashing = refl

abbrev pub read_slashing : List Value → Option AgnosticSlashing
read_slashing
      (uint64 slashed ∷ uint64 by ∷ text reason ∷ uint64 slot ∷ uint64 epoch ∷ bool valid ∷ []) =
    some (record {
      slashed_validator = slashed;
      slashed_by = by;
      slashing_reason = reason_of reason;
      epoch = epoch;
      slot = slot;
      valid = valid;
    })
read_slashing _ = none

abbrev pub read_duty : List Value → Option ProposerDutyRow
read_duty (uint64 val_idx ∷ uint64 slot ∷ bool proposed ∷ []) =
    some (record { val_idx = val_idx; proposer_slot = slot; proposed = proposed })
read_duty _ = none

abbrev pub read_processed : List Value → Option ConsolidationProcessed
read_processed
      (uint64 epoch
        ∷ uint64 index
        ∷ uint64 source
        ∷ uint64 target
        ∷ uint64 amount
        ∷ bool valid
        ∷ []) =
    some (record {
      epoch = epoch;
      index = index;
      source_index = source;
      target_index = target;
      consolidated_amount = amount;
      valid = valid;
    })
read_processed _ = none

-- The columns of the duties, of the slashings and of the consolidations hold the rows: the database
-- reads back the rows that were written.
pub state_tables_roundtrip :
    (duties : List ProposerDutyRow) (slashings : List AgnosticSlashing)
    (consolidations : List ConsolidationProcessed)
    → (read_rows read_duty (length duties) (proposer_duties_input duties) ≡ some duties)
      × (read_rows read_slashing (length slashings) (slashings_input slashings) ≡ some slashings)
      × (read_rows read_processed
            (length consolidations)
            (consolidations_processed_input consolidations)
          ≡ some consolidations)
unfolding proposer_duties_input slashings_input consolidations_processed_input entries_of
state_tables_roundtrip duties slashings consolidations = (
  read_rows-to_input proposer_duty_columns read_duty (λ row. refl) duties,
  read_rows-to_input slashing_columns read_slashing
      (λ row.
        ap (λ reason. some (record row { slashing_reason = reason }))
          (reason_of-reason_name row.slashing_reason))
      slashings,
  read_rows-to_input consolidation_processed_columns read_processed (λ row. refl) consolidations,
)
