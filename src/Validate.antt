-- ===== src/Validate.antt =====
-- The checks on payloads (src/crdt.rs): identifiers, columns, clocks, and the whole payload as
-- either side receives it.
pub mod Cell
use Prim.Native.String.{len}
use Prim.Native.Char.{code}
use package.text.Mathlib.Text.{◌==◌ as str_eq}
use loomabase.Base.{
  ℕ, suc, ◌+◌, ◌-◌, max, String, Bool, true, false, ◌&&◌, ◌||◌, not, ◌==◌, Option, none, some, List,
  [], ◌∷◌, leb, ltb, any, is_empty, length, if◌then◌else◌,
}
use loomabase.Base.Int.{is_negative}
use loomabase.BTree.{BTreeMap, insert, contains_key}
use loomabase.Order.Pair.{pair_ord}
use loomabase.Order.Text.{text_ord}
use loomabase.Error
use loomabase.Error.{Result, ok, err, Check, reject_if, ◌>>=◌, ◌>>◌, schema_mismatch}
use loomabase.Value.{
  CrdtColumn, RowChange, SyncPayload, SyncRejection, min_supported_protocol_version,
  protocol_version, max_payload_rows, max_payload_cells, server_device_id,
}
use loomabase.Schema.{TableDef, fingerprint}
use Cell.{validate_identifier, validate_column, validate_clock, validate_rejection_reason}

abbrev pub Key : Type 0
Key = String × String

-- What the loops of `validate` accumulate.
pub record Scan : Type 0 where
  pub changed_cells : BTreeMap Key Unit
  pub cell_count : ℕ

-- The inner loop of `validate`, over the columns of one row.
unfoldable pub validate_columns :
    TableDef → String → BTreeMap String CrdtColumn → Scan → Result Scan
validate_columns table todo_id [] scan = ok scan
validate_columns table todo_id ((column_name, column) ∷ columns) scan = do
  reject_if (ltb max_payload_cells (scan.cell_count + 1)) Error.too_many_cells
  validate_column table column_name column.value
  validate_identifier "metadata.device_id" column.metadata.device_id
  validate_clock column.metadata.lamport_clock
  reject_if (contains_key (todo_id, column_name) scan.changed_cells) Error.duplicate_cell
  validate_columns table todo_id columns (record {
    changed_cells = insert (todo_id, column_name) tt scan.changed_cells;
    cell_count = scan.cell_count + 1;
  })

-- The outer loop of `validate`; `rows` is `changed_rows`.
unfoldable pub validate_rows : TableDef → List RowChange → BTreeMap String Unit → Scan → Result Scan
unfolding validate_columns
validate_rows table [] rows scan = ok scan
validate_rows table (row ∷ changes) rows scan = do
  validate_identifier "todo_id" row.todo_id
  reject_if (contains_key row.todo_id rows) Error.duplicate_row
  reject_if (is_empty row.columns) Error.row_without_columns
  scan' ← validate_columns table row.todo_id row.columns scan
  validate_rows table changes (insert row.todo_id tt rows) scan'

unfoldable pub validate_rejections : TableDef → List SyncRejection → Check
validate_rejections table [] = ok tt
validate_rejections table (r ∷ rejections) = do
  validate_identifier "rejection.todo_id" r.todo_id
  validate_column table r.column_name r.value
  validate_identifier "rejection.metadata.device_id" r.metadata.device_id
  validate_clock r.metadata.lamport_clock
  validate_rejection_reason r.reason
  validate_rejections table rejections

-- `if let Some(value) = value { validate_identifier(name, value)?; }`
abbrev pub validate_optional : String → Option String → Check
validate_optional name none = ok tt
validate_optional name (some value) = validate_identifier name value

-- `SyncPayload::validate`
unfoldable pub validate : SyncPayload → TableDef → Check
unfolding validate_rows validate_rejections
validate p table = do
  reject_if
      (not (
        leb min_supported_protocol_version p.protocol_version
        && leb p.protocol_version protocol_version))
      Error.unsupported_protocol_version
  if p.schema_fingerprint == fingerprint table
      then ok tt
      else err (schema_mismatch (fingerprint table) p.schema_fingerprint)
  validate_identifier "source_device_id" p.source_device_id
  validate_clock p.source_lamport
  reject_if (is_negative p.cursor) Error.negative_cursor
  validate_optional "cursor_token" p.cursor_token
  validate_optional "server_epoch" p.server_epoch
  reject_if (ltb max_payload_rows (length p.changes)) Error.too_many_rows
  reject_if (ltb max_payload_cells (length p.rejections)) Error.too_many_rejections
  scan ← validate_rows table p.changes [] (record { changed_cells = []; cell_count = 0 })
  validate_rejections table p.rejections

-- The attribution loop of `validate_client_request`, over one row.
unfoldable pub check_attribution : String → ℕ → BTreeMap String CrdtColumn → Check
check_attribution device source_lamport [] = ok tt
check_attribution device source_lamport ((column_name, column) ∷ columns) = do
  reject_if (not (str_eq column.metadata.device_id device)) Error.foreign_attribution
  reject_if (ltb source_lamport column.metadata.lamport_clock) Error.column_clock_exceeds_source
  check_attribution device source_lamport columns

unfoldable pub check_attributions : String → ℕ → List RowChange → Check
unfolding check_attribution
check_attributions device source_lamport [] = ok tt
check_attributions device source_lamport (row ∷ changes) = do
  check_attribution device source_lamport row.columns
  check_attributions device source_lamport changes

-- `SyncPayload::validate_client_request`
unfoldable pub validate_client_request : SyncPayload → String → TableDef → Check
unfolding validate check_attributions
validate_client_request p device table = do
  validate p table
  validate_identifier "authenticated_device_id" device
  reject_if (str_eq device server_device_id) Error.reserved_server_device
  reject_if (not (str_eq p.source_device_id device)) Error.source_device_mismatch
  reject_if (p.has_more || p.cursor_reset) Error.response_only_flags
  reject_if (not (is_empty p.rejections)) Error.client_sent_rejections
  check_attributions device p.source_lamport p.changes

abbrev clock_exceeds : ℕ → String × CrdtColumn → Bool
clock_exceeds source_lamport (column_name, column) =
    ltb source_lamport column.metadata.lamport_clock

-- `SyncPayload::validate_server_response`
unfoldable pub validate_server_response : SyncPayload → TableDef → Check
unfolding validate
validate_server_response p table = do
  validate p table
  reject_if (not (str_eq p.source_device_id server_device_id)) Error.not_from_server
  reject_if
      (any (λ (row : RowChange). any (clock_exceeds p.source_lamport) row.columns) p.changes
        || any (λ (r : SyncRejection). ltb p.source_lamport r.metadata.lamport_clock) p.rejections)
      Error.response_clock_exceeds_source

-- The fold of `max_observed_clock` over one row, and over the rows.
unfoldable pub max_column_clock : ℕ → BTreeMap String CrdtColumn → ℕ
max_column_clock clock [] = clock
max_column_clock clock ((column_name, column) ∷ columns) =
    max_column_clock (max clock column.metadata.lamport_clock) columns

unfoldable pub max_row_clock : ℕ → List RowChange → ℕ
unfolding max_column_clock
max_row_clock clock [] = clock
max_row_clock clock (row ∷ changes) = max_row_clock (max_column_clock clock row.columns) changes

-- `SyncPayload::max_observed_clock`
unfoldable pub max_observed_clock : SyncPayload → ℕ
unfolding max_row_clock
max_observed_clock p = max_row_clock p.source_lamport p.changes
