-- ===== src/Db.antt =====
-- pkg/db: how rows become the columns of an insertion, and what is deleted when metrics are written
-- again. A text is the number that its bytes spell, as printed by the source.
pub mod Blocks
pub mod States
pub mod Requests
pub mod Deletes
use Prim.Native.String.{String}
use goteth.Common.{
  ℕ, zero, suc, ◌≡◌, refl, ap, ◌∙◌, Bool, Option, none, some, List, [], ◌∷◌, map, length, ◌>>=◌,
  range_from,
}

-- An entry of a column. A float column holds the Gwei that it is computed from.
pub data Value : Type 0 where
  uint64 uint32 uint16 uint8 int64 text float32 : ℕ → Value
  bool : Bool → Value
  bytes texts : List ℕ → Value

-- `proto.Input`: the columns with their names.
abbrev pub Input : Type 0
Input = List (String × List Value)

-- The columns of a table, each with the entry that a row appends to it.
abbrev pub Columns : Type 0 → Type 0
Columns A = List (String × (A → Value))

module _ {A : Type 0} where
  -- The loop over the rows appends one entry to every column.
  unfoldable pub to_input : Columns A → List A → Input
  to_input [] rows = []
  to_input ((name, entry) ∷ columns) rows = (name, map entry rows) ∷ to_input columns rows

  -- The entries that one row appends.
  unfoldable pub entries_of : Columns A → A → List Value
  entries_of [] row = []
  entries_of ((name, entry) ∷ columns) row = entry row ∷ entries_of columns row

-- Reading the first row off the columns: its entries and the rest, `none` where a column has ended.
unfoldable pub take_row : Input → Option (List Value × Input)
take_row [] = some ([], [])
take_row ((name, []) ∷ columns) = none
take_row ((name, v ∷ vs) ∷ columns) =
    take_row columns >>= λ rest. some (v ∷ rest.0, (name, vs) ∷ rest.1)

-- The database reads as many rows as it is told, and `decode` reads a row.
unfoldable pub read_rows : {A : Type 0} → (List Value → Option A) → ℕ → Input → Option (List A)
unfolding take_row
read_rows decode zero input = some []
read_rows decode (suc n) input = do
  first ← take_row input
  row ← decode first.0
  rows ← read_rows decode n first.1
  some (row ∷ rows)

module _ {A : Type 0} where
  take_row-to_input :
      (columns : Columns A) (row : A) (rows : List A)
      → take_row (to_input columns (row ∷ rows))
        ≡ some (entries_of columns row, to_input columns rows)
  unfolding take_row to_input entries_of
  take_row-to_input [] row rows = refl
  take_row-to_input ((name, entry) ∷ columns) row rows =
      ap (λ o. o >>= λ rest. some (entry row ∷ rest.0, (name, map entry rows) ∷ rest.1))
        (take_row-to_input columns row rows)

  -- A table whose rows can be read off their entries is read back whole.
  pub read_rows-to_input :
      (columns : Columns A) (decode : List Value → Option A)
      → ((row : A) → decode (entries_of columns row) ≡ some row)
      → (rows : List A) → read_rows decode (length rows) (to_input columns rows) ≡ some rows
  unfolding read_rows
  read_rows-to_input columns decode h [] = refl
  read_rows-to_input columns decode h (row ∷ rows) =
      simp (take_row-to_input columns row rows, h row, read_rows-to_input columns decode h rows)
