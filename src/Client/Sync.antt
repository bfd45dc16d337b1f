-- ===== src/Client/Sync.antt =====
-- The synchronization of a client (src/client.rs): `get_local_delta`, `acknowledge_local_delta`,
-- `acknowledge_local_delta_with_response` and `apply_remote_payload`.
pub mod Pending
use package.text.Mathlib.Text.{◌==◌ as str_eq}
use loomabase.Base.{
  ℕ, ◌+◌, max, String, Bool, true, false, ◌&&◌, ◌||◌, not, Option, none, some, List, [], ◌∷◌, any,
  ltb, ◌==◌, if◌then◌else◌,
}
use loomabase.Base.Int.{ℤ, pos, int_eq, int_max}
use loomabase.BTree.{BTreeMap, get, insert}
use loomabase.Order.Pair.{pair_ord}
use loomabase.Order.Text.{text_ord}
use loomabase.Error.{
  Result, ok, err, Check, ◌>>=◌, ◌>>◌, invalid_payload, column_not_synchronizable,
  invalid_value_type,
}
use loomabase.Value.{
  CrdtValue, CrdtColumn, ColumnMetadata, RowChange, SyncPayload, SyncRejection, protocol_version,
}
use loomabase.Schema.{
  TableDef, ColumnType, ColumnDef, column_type, fingerprint, synchronized_columns,
}
use loomabase.Schema
use loomabase.Validate.{Key, validate_client_request, validate_server_response, max_observed_clock}
use loomabase.Merge.{should_apply}
use loomabase.Feed.{Rows, add_cell, to_changes}
use loomabase.Server.{next_clock}
use loomabase.Client.{SqlValue, LogCell, StoredCursor, Client, after_update}
use loomabase.Client.Evict.{cleanup_pending_evictions}
use loomabase.Client.Codec.{
  crdt_to_sqlite, clock_from_i64, clock_to_i64, encode_sqlite_value, read_cell,
}

-- `UPDATE … SET dirty = 0 WHERE todo_id = … AND column_name = … AND lamport_clock = … AND device_id = …`
unfoldable pub clear_version : ℤ → String → LogCell → LogCell
clear_version clock device cell =
    if int_eq cell.lamport_clock clock && str_eq cell.device_id device
    then record cell { dirty = false }
    else cell

unfoldable pub clear_dirty : Key → ℤ → String → BTreeMap Key LogCell → BTreeMap Key LogCell
unfolding clear_version
clear_dirty key clock device log = elim (get key log) [
  | none ↦ log
  | some cell ↦ insert key (clear_version clock device cell) log
]

abbrev same_metadata : ColumnMetadata → ColumnMetadata → Bool
same_metadata a b = (a.lamport_clock == b.lamport_clock) && str_eq a.device_id b.device_id

-- `rejected_versions.contains(&key)`
unfoldable pub is_rejected : List SyncRejection → Key → ColumnMetadata → Bool
is_rejected rejections key version =
    any
      (λ (r : SyncRejection).
        (str_eq r.todo_id key.0 && str_eq r.column_name key.1) && same_metadata r.metadata version)
      rejections

-- The inner loop of both acknowledgements, over the columns of one row.
unfoldable pub acknowledge_columns :
    List SyncRejection
    → String
    → BTreeMap String CrdtColumn
    → BTreeMap Key LogCell
    → Result (BTreeMap Key LogCell)
unfolding clear_dirty is_rejected clock_to_i64
acknowledge_columns rejections todo_id [] log = ok log
acknowledge_columns rejections todo_id ((column_name, column) ∷ columns) log =
    elim (is_rejected rejections (todo_id, column_name) column.metadata) [
      | true ↦ acknowledge_columns rejections todo_id columns log
      | false ↦ do
        clock ← clock_to_i64 column.metadata.lamport_clock
        acknowledge_columns rejections todo_id columns
            (clear_dirty (todo_id, column_name) clock column.metadata.device_id log)
    ]

unfoldable pub acknowledge_rows :
    List SyncRejection → List RowChange → BTreeMap Key LogCell → Result (BTreeMap Key LogCell)
unfolding acknowledge_columns
acknowledge_rows rejections [] log = ok log
acknowledge_rows rejections (row ∷ changes) log = do
  log' ← acknowledge_columns rejections row.todo_id row.columns log
  acknowledge_rows rejections changes log'

-- `acknowledge_local_delta`
unfoldable pub acknowledge_local_delta : SyncPayload → TableDef → Client → Result Client
unfolding acknowledge_rows cleanup_pending_evictions
acknowledge_local_delta payload table s = do
  validate_client_request payload s.device_id table
  log ← acknowledge_rows [] payload.changes s.log
  ok (cleanup_pending_evictions (record s { log = log }))

-- `acknowledge_local_delta_with_response`
unfoldable pub acknowledge_local_delta_with_response :
    SyncPayload → SyncPayload → TableDef → Client → Result Client
unfolding acknowledge_rows cleanup_pending_evictions
acknowledge_local_delta_with_response sent response table s = do
  validate_server_response response table
  validate_client_request sent s.device_id table
  log ← acknowledge_rows response.rejections sent.changes s.log
  ok (cleanup_pending_evictions (record s { log = log }))

module _ (parse_real : String → Option ℕ) where
  -- `changes_by_row`: the dirty cells, in key order.
  unfoldable pub dirty_rows : TableDef → BTreeMap Key LogCell → Rows → Result Rows
  unfolding read_cell add_cell
  dirty_rows table [] rows = ok rows
  dirty_rows table ((key, cell) ∷ log) rows = elim cell.dirty [
    | true ↦ do
      column ← read_cell parse_real table key.1 cell
      dirty_rows table log (add_cell key column rows)
    | false ↦ dirty_rows table log rows
  ]

  abbrev cursor_of : Option StoredCursor → StoredCursor
  cursor_of none = record { cursor = pos 0; cursor_token = none; server_epoch = none }
  cursor_of (some stored) = stored

  -- `get_local_delta`
  unfoldable pub get_local_delta : TableDef → Client → Result SyncPayload
  unfolding dirty_rows
  get_local_delta table s = do
    rows ← dirty_rows table s.log []
    source_lamport ← clock_from_i64 s.lamport_clock
    let payload : SyncPayload = record {
      protocol_version = protocol_version;
      schema_fingerprint = fingerprint table;
      source_device_id = s.device_id;
      source_lamport = source_lamport;
      changes = to_changes rows;
      cursor = (cursor_of s.stored_cursor).cursor;
      has_more = false;
      cursor_reset = false;
      cursor_token = (cursor_of s.stored_cursor).cursor_token;
      server_epoch = (cursor_of s.stored_cursor).server_epoch;
      rejections = [];
    }
    validate_client_request payload payload.source_device_id table
    ok payload
