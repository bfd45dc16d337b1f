-- ===== src/Postgres.antt =====
-- src/server.rs: the database of the PostgreSQL server for the contract of one table. A SQL
-- statement is the change that it makes; a transaction that fails returns no database. The clock,
-- the rows, the cells and the leases are keyed by tenant. Here are the tables and the statements
-- that the merge of one cell runs.
pub mod Cell
pub mod Page
pub mod Merge
pub mod Leases
pub mod Steps
pub mod Loop
pub mod Represents
pub mod Rounds
pub mod Inversion
pub mod Others
pub mod Isolation
pub mod Refines
pub mod Sequence
pub mod Cursor
pub mod BeforePage
pub mod Audit
pub mod Logged
pub mod Partial
pub mod Bare
pub mod Snapshot
pub mod Scope
pub mod Renewal
pub mod Covers
pub mod Between
pub mod Resume
use loomabase.Base.{
  ℕ, ◌+◌, max, String, Bool, true, false, Option, none, some, List, [], ◌∷◌, ◌++◌, ltb,
  if◌then◌else◌,
}
use loomabase.Base.Int.{ℤ, pos}
use loomabase.BTree.{BTreeMap, get, insert}
use loomabase.Order.Pair.{pair_ord}
use loomabase.Order.Text.{text_ord}
use loomabase.Error.{
  Result, ok, err, ◌>>=◌, postgres, invalid_payload, column_not_synchronizable, invalid_value_type,
}
use loomabase.Value
use loomabase.Value.{CrdtValue, CrdtColumn, max_storable_lamport}
use loomabase.Schema
use loomabase.Schema.{ColumnType, ColumnDef, TableDef, column_type, synchronized_columns}
use loomabase.Validate.{Key}
use loomabase.Policy.{SyncAuditEvent, as_str}
use loomabase.Client.Codec.{clock_from_i64, clock_to_i64}

-- A row of the CRDT table, under its tenant and key.
pub record StoredCell : Type 0 where
  pub value : CrdtValue
  pub lamport_clock : ℤ
  pub device_id : String
  pub seq : ℕ

-- A row of `loomabase_cursor_lease`, under its tenant, its device and its CRDT table.
pub record Lease : Type 0 where
  pub max_issued_cursor : ℤ
  pub cursor_token : String
  pub server_epoch : String
  pub last_seen_at : ℕ

-- A row of `loomabase_audit_log`.
pub record AuditRow : Type 0 where
  pub tenant_id : String
  pub table_name : String
  pub todo_id : String
  pub column_name : String
  pub device_id : String
  pub outcome : String
  pub reason : String
  pub incoming_value : CrdtValue
  pub incoming_lamport : ℤ
  pub incoming_device_id : String
  pub current_value : Option CrdtValue
  pub current_lamport : Option ℤ
  pub current_device_id : Option String

abbrev pub AppRow : Type 0
AppRow = BTreeMap String CrdtValue

pub record Database : Type 0 where
  -- `loomabase_state`
  pub clocks : BTreeMap String ℤ
  -- the application table, by tenant and identifier
  pub rows : BTreeMap (String × String) AppRow
  pub cells : BTreeMap (String × Key) StoredCell
  -- the last value of `loomabase_seq`
  pub last_seq : ℕ
  pub leases : BTreeMap (String × (String × String)) Lease
  -- `loomabase_server_state`
  pub server_epoch : String
  pub audit_log : List AuditRow

-- `nextval('loomabase_seq')`: the sequence ends at `i64::MAX`.
unfoldable pub nextval : ℕ → Result ℕ
nextval last =
    if ltb last max_storable_lamport
    then ok (last + 1)
    else err (postgres "nextval: reached maximum value of sequence")

-- `ColumnType::postgres_default`, as a value.
unfoldable pub column_default : ColumnType → CrdtValue
column_default Schema.text = Value.text ""
column_default Schema.integer = Value.integer (pos 0)
column_default Schema.real = Value.real 0
column_default Schema.boolean = Value.boolean false

unfoldable pub column_defaults : List ColumnDef → AppRow → AppRow
unfolding column_default
column_defaults [] row = row
column_defaults (column ∷ columns) row =
    column_defaults columns (insert column.name (column_default column.ty) row)

-- `INSERT INTO {app_table}(tenant_id, id) … ON CONFLICT DO NOTHING`
unfoldable pub insert_row : TableDef → String → String → Database → Database
unfolding column_defaults
insert_row table tenant_id todo_id db = record db {
  rows = elim (get (tenant_id, todo_id) db.rows) [
    | some row ↦ db.rows
    | none ↦ insert (tenant_id, todo_id) (column_defaults (synchronized_columns table) []) db.rows
  ];
}

-- The `match` of `write_server_todo_column`: the value as PostgreSQL keeps it.
unfoldable pub bound_value : Option ColumnType → CrdtValue → Result CrdtValue
bound_value none value = err (invalid_payload column_not_synchronizable)
bound_value (some Schema.text) (Value.text t) = ok (Value.text t)
bound_value (some Schema.integer) (Value.integer i) = ok (Value.integer i)
bound_value (some Schema.real) (Value.real r) = ok (Value.real r)
bound_value (some Schema.boolean) (Value.boolean b) = ok (Value.boolean b)
bound_value (some _) _ = err (invalid_payload invalid_value_type)

-- `write_server_todo_column`: an `UPDATE`, which changes nothing where the row is missing.
unfoldable pub write_server_todo_column :
    TableDef → String → Key → CrdtValue → Database → Result Database
unfolding bound_value
write_server_todo_column table tenant_id (todo_id, column_name) value db = do
  bound ← bound_value (column_type table column_name) value
  ok (record db {
    rows = elim (get (tenant_id, todo_id) db.rows) [
      | none ↦ db.rows
      | some row ↦ insert (tenant_id, todo_id) (insert column_name bound row) db.rows
    ];
  })

-- The upsert of the CRDT table, with the next sequence number.
unfoldable pub upsert_server_cell : String → Key → CrdtColumn → Database → Result Database
unfolding nextval clock_to_i64
upsert_server_cell tenant_id key incoming db = do
  clock ← clock_to_i64 incoming.metadata.lamport_clock
  seq ← nextval db.last_seq
  ok (record db {
    last_seq = seq;
    cells =
        insert (tenant_id, key)
          (record {
            value = incoming.value;
            lamport_clock = clock;
            device_id = incoming.metadata.device_id;
            seq = seq;
          })
          db.cells;
  })

-- The row that the merge selects, as a column.
unfoldable pub read_stored : Option StoredCell → Result (Option CrdtColumn)
unfolding clock_from_i64
read_stored none = ok none
read_stored (some cell) = do
  clock ← clock_from_i64 cell.lamport_clock
  ok (
      some (record {
        value = cell.value;
        metadata = record { lamport_clock = clock; device_id = cell.device_id };
      }))

abbrev pub stored_clock : Option Value.ColumnMetadata → Result (Option ℤ)
stored_clock none = ok none
stored_clock (some metadata) = do clock ← clock_to_i64 metadata.lamport_clock; ok (some clock)

abbrev device_of : Option Value.ColumnMetadata → Option String
device_of none = none
device_of (some metadata) = some metadata.device_id

-- `write_audit_event`
unfoldable pub write_audit_event : String → SyncAuditEvent → Database → Result Database
unfolding as_str
write_audit_event tenant_id event db = do
  incoming_lamport ← clock_to_i64 event.incoming_metadata.lamport_clock
  current_lamport ← stored_clock event.current_metadata
  ok (record db {
    audit_log =
        db.audit_log
        ++ (record {
          tenant_id = tenant_id;
          table_name = event.table_name;
          todo_id = event.todo_id;
          column_name = event.column_name;
          device_id = event.incoming_metadata.device_id;
          outcome = as_str event.outcome;
          reason = event.reason;
          incoming_value = event.incoming_value;
          incoming_lamport = incoming_lamport;
          incoming_device_id = event.incoming_metadata.device_id;
          current_value = event.current_value;
          current_lamport = current_lamport;
          current_device_id = device_of event.current_metadata;
        })
          ∷ [];
  })
