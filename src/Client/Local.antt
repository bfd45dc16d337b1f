-- ===== src/Client/Local.antt =====
-- The local writes of a client (src/client.rs): `insert`, `set`, `delete` and `restore`.
pub mod Written
use package.text.Mathlib.Text.{◌==◌ as str_eq}
use loomabase.Base.{ℕ, String, Bool, true, false, Option, none, some, List, [], ◌∷◌, if◌then◌else◌}
use loomabase.Base.Int.{ℤ, pos, int_eq}
use loomabase.BTree.{BTreeMap, get, insert}
use loomabase.Order.Pair.{pair_ord}
use loomabase.Order.Text.{text_ord}
use loomabase.Error.{
  Result, ok, err, Check, ◌>>=◌, ◌>>◌, reject_if, invalid_payload, sqlite, liveness_is_reserved,
  row_not_live, row_not_deleted,
}
use loomabase.Value.{CrdtValue}
use loomabase.Schema.{TableDef, ColumnDef, synchronized_columns, liveness_column}
use loomabase.Validate.Cell.{validate_column, validate_identifier}
use loomabase.Client.{SqlValue, Client, tick, capture}
use loomabase.Client.Codec.{crdt_to_sqlite}
use loomabase.Client.Remote.{default_row, update_column}

-- `reject_liveness_column`
unfoldable pub reject_liveness_column : String → Check
reject_liveness_column column = reject_if (str_eq column liveness_column) liveness_is_reserved

-- The loop of `insert` that checks the values.
unfoldable pub check_values : TableDef → BTreeMap String CrdtValue → Check
unfolding reject_liveness_column
check_values table [] = ok tt
check_values table ((column, value) ∷ values) = do
  reject_liveness_column column
  validate_column table column value
  check_values table values

-- The bound columns over the defaults of the others.
unfoldable pub bind_values :
    BTreeMap String CrdtValue → BTreeMap String SqlValue → Result (BTreeMap String SqlValue)
unfolding crdt_to_sqlite
bind_values [] row = ok row
bind_values ((column, value) ∷ values) row = do
  sql ← crdt_to_sqlite value
  bind_values values (insert column sql row)

-- `deleted = 0` and `deleted = 1`: the row is there and its liveness register is so.
abbrev pub is_flag : ℤ → Option SqlValue → Bool
is_flag flag (some (SqlValue.integer i)) = int_eq i flag
is_flag flag _ = false

abbrev pub has_flag : ℤ → Option (BTreeMap String SqlValue) → Bool
has_flag flag none = false
has_flag flag (some row) = is_flag flag (get liveness_column row)

module _ (cast_real print_real : ℕ → String) (parse_real : String → Option ℕ) where
  -- The body of the insert trigger: every synchronized column of the new row is logged.
  unfoldable pub capture_columns :
      String → List ColumnDef → BTreeMap String SqlValue → Client → Client
  unfolding capture
  capture_columns row_id [] row s = s
  capture_columns row_id (column ∷ columns) row s =
      capture_columns row_id columns row (elim (get column.name row) [
        | none ↦ s
        | some value ↦ capture cast_real (row_id, column.name) value s
      ])

  -- `SqliteClient::insert`
  unfoldable pub insert_values :
      TableDef → String → BTreeMap String CrdtValue → Client → Result Client
  unfolding check_values bind_values default_row tick capture_columns
  insert_values table row_id values s = do
    validate_identifier "row_id" row_id
    check_values table values
    row ← bind_values values (default_row (synchronized_columns table))
    elim (get row_id s.rows) [
      | some _ ↦ err (sqlite "UNIQUE constraint failed")
      | none ↦
          if s.applying_remote
          then ok (record s { rows = insert row_id row s.rows })
          else tick (record s { rows = insert row_id row s.rows }) >>= λ ticked.
              ok (capture_columns row_id (synchronized_columns table) row ticked)
    ]

  -- `SqliteClient::set`
  unfoldable pub set_value : TableDef → String → String → CrdtValue → Client → Result Client
  unfolding reject_liveness_column crdt_to_sqlite update_column
  set_value table row_id column value s = do
    validate_identifier "row_id" row_id
    reject_liveness_column column
    validate_column table column value
    sql ← crdt_to_sqlite value
    if has_flag (pos 0) (get row_id s.rows)
        then update_column cast_real print_real parse_real (row_id, column) sql s
        else err (invalid_payload row_not_live)

  -- `SqliteClient::delete`
  unfoldable pub delete_live : String → Client → Result Client
  unfolding update_column
  delete_live row_id s = do
    validate_identifier "row_id" row_id
    if has_flag (pos 0) (get row_id s.rows)
        then update_column cast_real print_real parse_real (row_id, liveness_column)
            (SqlValue.integer (pos 1)) s
        else err (invalid_payload row_not_live)

  -- `SqliteClient::restore`
  unfoldable pub restore_deleted : String → Client → Result Client
  unfolding update_column
  restore_deleted row_id s = do
    validate_identifier "row_id" row_id
    if has_flag (pos 1) (get row_id s.rows)
        then update_column cast_real print_real parse_real (row_id, liveness_column)
            (SqlValue.integer (pos 0)) s
        else err (invalid_payload row_not_deleted)
