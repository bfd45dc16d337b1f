-- ===== src/Client/Remote.antt =====
-- `apply_remote_payload` (src/client.rs): the cells of a response are merged into the rows and the
-- log, with the triggers held off; then the clock and the cursor advance.
pub mod Merged
pub mod Growth
pub mod Absorbed
use loomabase.Base.{ℕ, String, Bool, true, false, Option, none, some, List, [], ◌∷◌, if◌then◌else◌}
use loomabase.Base.Int.{ℤ, pos, int_max}
use loomabase.BTree.{BTreeMap, get, insert}
use loomabase.Order.Pair.{pair_ord}
use loomabase.Order.Text.{text_ord}
use loomabase.Error.{
  Result, ok, err, Check, ◌>>=◌, ◌>>◌, invalid_payload, column_not_synchronizable,
  invalid_value_type,
}
use loomabase.Value
use loomabase.Value.{CrdtValue, CrdtColumn, RowChange, SyncPayload}
use loomabase.Schema
use loomabase.Schema.{TableDef, ColumnType, ColumnDef, column_type, synchronized_columns}
use loomabase.Validate.{Key, validate_server_response, max_observed_clock}
use loomabase.Merge.{should_apply}
use loomabase.Server.{next_clock}
use loomabase.Client.{SqlValue, LogCell, StoredCursor, Client, after_update}
use loomabase.Client.Sync.{acknowledge_local_delta_with_response}
use loomabase.Client.Codec.{
  crdt_to_sqlite, clock_from_i64, clock_to_i64, encode_sqlite_value, read_cell,
}

-- The defaults of the columns: `ColumnType::sqlite_default`.
abbrev default_value : ColumnType → SqlValue
default_value Schema.text = SqlValue.text ""
default_value Schema.integer = SqlValue.integer (pos 0)
default_value Schema.real = SqlValue.real 0
default_value Schema.boolean = SqlValue.integer (pos 0)

unfoldable pub default_row : List ColumnDef → BTreeMap String SqlValue
default_row [] = []
default_row (column ∷ columns) = insert column.name (default_value column.ty) (default_row columns)

-- `INSERT INTO table(id) VALUES (…) ON CONFLICT(id) DO NOTHING`; `applying_remote` is set.
unfoldable pub ensure_row : TableDef → String → Client → Client
unfolding default_row
ensure_row table row_id s = elim (get row_id s.rows) [
  | none ↦ record s { rows = insert row_id (default_row (synchronized_columns table)) s.rows }
  | some _ ↦ s
]

-- The `matches!` of `write_todo_column`.
unfoldable pub check_type : Option ColumnType → CrdtValue → Check
check_type none value = err (invalid_payload column_not_synchronizable)
check_type (some Schema.text) (Value.text t) = ok tt
check_type (some Schema.integer) (Value.integer i) = ok tt
check_type (some Schema.real) (Value.real r) = ok tt
check_type (some Schema.boolean) (Value.boolean b) = ok tt
check_type (some _) value = err (invalid_payload invalid_value_type)

-- `cast_real` is SQLite's text of a real, `print_real` and `parse_real` are those of `f64`.
module _ (cast_real print_real : ℕ → String) (parse_real : String → Option ℕ) where
  abbrev column_value : Option SqlValue → SqlValue → SqlValue
  column_value found value = elim found [ none ↦ value | some old ↦ old ]

  -- `UPDATE … SET column = … WHERE id = …`, with the trigger of the column.
  unfoldable pub update_column : Key → SqlValue → Client → Result Client
  unfolding after_update
  update_column (row_id, column_name) value s = elim (get row_id s.rows) [
    | none ↦ ok s
    | some values ↦
        after_update cast_real (row_id, column_name) (column_value (get column_name values) value)
          value (record s { rows = insert row_id (insert column_name value values) s.rows })
  ]

  -- `write_todo_column`
  unfoldable pub write_todo_column : TableDef → Key → CrdtValue → Client → Result Client
  unfolding check_type crdt_to_sqlite update_column
  write_todo_column table key value s = do
    check_type (column_type table key.1) value
    sql ← crdt_to_sqlite value
    update_column key sql s

  -- `read_local_crdt_column`
  unfoldable pub read_local_crdt_column : TableDef → Key → Client → Result (Option CrdtColumn)
  unfolding read_cell
  read_local_crdt_column table key s = elim (get key s.log) [
    | none ↦ ok none
    | some cell ↦ read_cell parse_real table key.1 cell >>= λ column. ok (some column)
  ]

  -- `upsert_cell`
  unfoldable pub upsert_cell : Key → CrdtColumn → Client → Result Client
  unfolding encode_sqlite_value clock_to_i64
  upsert_cell key incoming s = do
    value ← encode_sqlite_value print_real incoming.value
    clock ← clock_to_i64 incoming.metadata.lamport_clock
    ok (record s {
      log =
          insert key
            (record {
              value = value;
              lamport_clock = clock;
              device_id = incoming.metadata.device_id;
              dirty = false;
            })
            s.log;
    })

  -- One round of the inner loop.
  unfoldable pub apply_remote_cell : TableDef → Key → CrdtColumn → Client → Result Client
  unfolding read_local_crdt_column should_apply write_todo_column upsert_cell
  apply_remote_cell table key incoming s = do
    current ← read_local_crdt_column table key s
    apply ← should_apply current incoming
    elim apply [
      | true ↦ write_todo_column table key incoming.value s >>= λ written.
          upsert_cell key incoming written
      | false ↦ ok s
    ]

  unfoldable pub apply_remote_columns :
      TableDef → String → BTreeMap String CrdtColumn → Client → Result Client
  unfolding apply_remote_cell
  apply_remote_columns table todo_id [] s = ok s
  apply_remote_columns table todo_id ((column_name, column) ∷ columns) s = do
    s' ← apply_remote_cell table (todo_id, column_name) column s
    apply_remote_columns table todo_id columns s'

  unfoldable pub apply_remote_rows : TableDef → List RowChange → Client → Result Client
  unfolding apply_remote_columns ensure_row
  apply_remote_rows table [] s = ok s
  apply_remote_rows table (row ∷ changes) s = do
    s' ← apply_remote_columns table row.todo_id row.columns (ensure_row table row.todo_id s)
    apply_remote_rows table changes s'

  -- The upsert of `loomabase_cursor`: a reset replaces the cursor, a page raises it.
  unfoldable pub store_cursor : SyncPayload → Option StoredCursor → StoredCursor
  store_cursor payload none = record {
    cursor = payload.cursor;
    cursor_token = payload.cursor_token;
    server_epoch = payload.server_epoch;
  }
  store_cursor payload (some old) = record {
    cursor = if payload.cursor_reset then payload.cursor else int_max old.cursor payload.cursor;
    cursor_token = payload.cursor_token;
    server_epoch = payload.server_epoch;
  }

  -- `apply_remote_payload`
  unfoldable pub apply_remote_payload : SyncPayload → TableDef → Client → Result Client
  unfolding apply_remote_rows next_clock clock_from_i64 clock_to_i64 store_cursor
  apply_remote_payload payload table s = do
    validate_server_response payload table
    current_clock ← clock_from_i64 s.lamport_clock
    applied ← apply_remote_rows table payload.changes (record s { applying_remote = true })
    clock ← next_clock current_clock (max_observed_clock payload)
    stored ← clock_to_i64 clock
    ok (record applied {
      lamport_clock = stored;
      applying_remote = false;
      stored_cursor = some (store_cursor payload applied.stored_cursor);
    })

  -- `complete_sync`, in one transaction.
  unfoldable pub complete_sync : SyncPayload → SyncPayload → TableDef → Client → Result Client
  unfolding acknowledge_local_delta_with_response apply_remote_payload
  complete_sync sent response table s =
      acknowledge_local_delta_with_response sent response table s >>= λ acknowledged.
      apply_remote_payload response table acknowledged
