-- ===== src/Db/Deletes.antt =====
-- pkg/db/block_metrics.go and epoch_metrics.go: the deletions before metrics are written again, and
-- the last slot and epoch of the database.
use goteth.Common.{
  ℕ, ◌+◌, ◌<◌, ◌≡◌, refl, Bool, true, false, ◌&&◌, List, [], ◌∷◌, ◌==◌, if◌then◌else◌, add64, sub64,
  u64_mod, arith, leb,
}

pub data Table : Type 0 where
  blocks transactions withdrawals blobs epochs proposer_duties val_rewards : Table

-- A deletion of the rows of a table by their slot or epoch; the duties are found by the epoch of the
-- slot of the proposer.
pub record Deletion : Type 0 where
  pub table : Table
  pub key : ℕ

-- The deletions of a list that are made: the first one that fails is the last.
unfoldable pub delete_all : (Deletion → Bool) → List Deletion → List Deletion × Bool
delete_all fails [] = ([], false)
delete_all fails (d ∷ ds) =
    let rest = delete_all fails ds in if fails d then (d ∷ [], true) else (d ∷ rest.0, rest.1)

abbrev pub of_slot : ℕ → List Deletion
of_slot slot =
    record { table = blocks; key = slot }
    ∷ record { table = transactions; key = slot }
    ∷ record { table = withdrawals; key = slot }
    ∷ record { table = blobs; key = slot }
    ∷ []

unfoldable pub delete_block_metrics : (Deletion → Bool) → ℕ → List Deletion × Bool
unfolding delete_all
delete_block_metrics fails slot = delete_all fails (of_slot slot)

-- Epochs are `uint64`: below epoch 1 the epoch before wraps around.
abbrev pub of_epoch : ℕ → List Deletion
of_epoch epoch =
    record { table = epochs; key = sub64 epoch 1 }
    ∷ record { table = epochs; key = epoch }
    ∷ record { table = proposer_duties; key = epoch }
    ∷ record { table = val_rewards; key = add64 epoch 2 }
    ∷ record { table = val_rewards; key = add64 epoch 1 }
    ∷ record { table = val_rewards; key = epoch }
    ∷ []

unfoldable pub delete_state_metrics : (Deletion → Bool) → ℕ → List Deletion × Bool
unfolding delete_all
delete_state_metrics fails epoch = delete_all fails (of_epoch epoch)

-- The rows of a selection, with whether it failed: the first row, or 0.
unfoldable pub retrieve_last : List ℕ → Bool → ℕ × Bool
retrieve_last [] failed = (0, failed)
retrieve_last (f ∷ _) failed = (f, failed)

-- Whether a row of a table with a key is gone after some deletions.
abbrev pub is_deleted : (Table → Table → Bool) → List Deletion → Table → ℕ → Bool
is_deleted same [] table key = false
is_deleted same (d ∷ ds) table key =
    if same d.table table && (d.key == key) then true else is_deleted same ds table key

abbrev pub same_table : Table → Table → Bool
same_table blocks blocks = true
same_table transactions transactions = true
same_table withdrawals withdrawals = true
same_table blobs blobs = true
same_table epochs epochs = true
same_table proposer_duties proposer_duties = true
same_table val_rewards val_rewards = true
same_table _ _ = false

-- Without a failure, the deletions of an epoch take out its rows and those of the epoch before from the
-- table of epochs, and its duties, and the rewards of this and the next two epochs: exactly the epochs
-- whose rewards read the state of this one. No rewards of another epoch are taken out.
pub delete_state_metrics-rewards :
    (epoch key : ℕ)
    → epoch + 2 < u64_mod
    → (is_deleted same_table (delete_state_metrics (λ _. false) epoch).0 val_rewards key
        ≡ (leb epoch key && leb key (epoch + 2)))
      × ((delete_state_metrics (λ _. false) epoch).1 ≡ false)
unfolding delete_state_metrics delete_all add64
delete_state_metrics-rewards epoch key h = (ground arith, refl)
