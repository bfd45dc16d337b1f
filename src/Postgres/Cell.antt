-- ===== src/Postgres/Cell.antt =====
-- The merge loop of `merge_crdt_states_with_security` (src/server.rs): for every cell the hooks,
-- the decision, the writes, and the audit event.
use loomabase.Base.{
  String, Bool, true, false, Option, none, some, List, [], ◌∷◌, ◌++◌, if◌then◌else◌,
}
use loomabase.BTree.{BTreeMap, get}
use loomabase.Order.Pair.{pair_ord}
use loomabase.Order.Text.{text_ord}
use loomabase.Error.{Result, ok, err, ◌>>=◌, invalid_payload, same_version_different_value}
use loomabase.Value.{
  CrdtColumn, RowChange, SyncRejection, SyncRejectionKind, authorization_denied, validation_failed,
  value_eq,
}
use loomabase.Validate.{Key}
use loomabase.Validate.Cell.{new_rejection}
use loomabase.Lww.{decide_lww, accept_incoming, keep_current, equal}
use loomabase.Explain.{explain_lww}
use loomabase.Policy.{
  SyncContext, SyncSecurity, disabled, database, allow, deny, SyncAuditOutcome, SyncAuditEvent,
  accepted, kept_current, idempotent, rejected_authorization, rejected_validation, new_event,
}
use loomabase.Merge.{mutation_of}
use loomabase.Postgres.{
  Database, read_stored, insert_row, write_server_todo_column, upsert_server_cell,
  write_audit_event,
}

-- `rejection_audit_outcome`
unfoldable pub rejection_audit_outcome : SyncRejectionKind → SyncAuditOutcome
rejection_audit_outcome authorization_denied = rejected_authorization
rejection_audit_outcome validation_failed = rejected_validation

-- `record_audit_if_enabled`
unfoldable pub record_audit_if_enabled :
    String → SyncSecurity → SyncAuditEvent → Database → Result Database
unfolding write_audit_event
record_audit_if_enabled tenant_id security event db = elim security.audit_mode [
  | disabled ↦ ok db
  | database ↦ write_audit_event tenant_id event db
]

-- `let (should_apply, audit_outcome) = match current_column { … }`
unfoldable pub audited_decision : Option CrdtColumn → CrdtColumn → Result (Bool × SyncAuditOutcome)
unfolding decide_lww
audited_decision none incoming = ok (true, accepted)
audited_decision (some current) incoming = elim (decide_lww current.metadata incoming.metadata) [
  | accept_incoming ↦ ok (true, accepted)
  | keep_current ↦ ok (false, kept_current)
  | equal ↦
      if value_eq current.value incoming.value
      then ok (false, idempotent)
      else err (invalid_payload same_version_different_value)
]

abbrev pub ServerWorking : Type 0
ServerWorking = Database × List SyncRejection

-- The two writes under `if should_apply`.
unfoldable pub write_server_cell : SyncContext → Key → CrdtColumn → Database → Result Database
unfolding write_server_todo_column upsert_server_cell
write_server_cell context key incoming db = do
  written ← write_server_todo_column context.table context.tenant_id key incoming.value db
  upsert_server_cell context.tenant_id key incoming written

-- The body of a `PolicyDecision::Deny` arm.
unfoldable pub reject_server_cell :
    SyncSecurity
    → SyncContext
    → Key
    → CrdtColumn
    → Option CrdtColumn
    → SyncRejectionKind
    → String
    → ServerWorking
    → Result ServerWorking
unfolding rejection_audit_outcome record_audit_if_enabled
reject_server_cell security context (todo_id, column_name) incoming current kind reason
      (db, rejections) =
    do
      rejection ← new_rejection todo_id column_name kind reason incoming.value incoming.metadata
      event ←
          new_event context (mutation_of (todo_id, column_name) incoming) current
            (rejection_audit_outcome kind) reason
      audited ← record_audit_if_enabled context.tenant_id security event db
      ok (audited, rejections ++ rejection ∷ [])

-- `{:?}` of a string is a parameter of the explanation.
module _ (debug_text : String → String) where
  -- The end of a cell's round, once both hooks allowed it.
  unfoldable pub apply_server_cell :
      SyncSecurity
      → SyncContext
      → Key
      → CrdtColumn
      → Option CrdtColumn
      → ServerWorking
      → Result ServerWorking
  unfolding audited_decision write_server_cell record_audit_if_enabled explain_lww
  apply_server_cell security context key incoming current (db, rejections) = do
    decision ← audited_decision current incoming
    written ← (if decision.0 then write_server_cell context key incoming db else ok db)
    event ←
        new_event context (mutation_of key incoming) current decision.1
          (explain_lww debug_text current incoming).summary
    audited ← record_audit_if_enabled context.tenant_id security event written
    ok (audited, rejections)

  -- What the hooks make of the cell.
  unfoldable pub authorize_server_cell :
      SyncSecurity
      → SyncContext
      → Key
      → CrdtColumn
      → Option CrdtColumn
      → ServerWorking
      → Result ServerWorking
  unfolding apply_server_cell reject_server_cell
  authorize_server_cell security context key incoming current w = do
    authorized ← security.authorizer context (mutation_of key incoming) current
    elim authorized [
      | deny kind reason ↦ reject_server_cell security context key incoming current kind reason w
      | allow ↦ do
        validated ← security.validator context (mutation_of key incoming) current
        elim validated [
          | deny kind reason ↦
              reject_server_cell security context key incoming current kind reason w
          | allow ↦ apply_server_cell security context key incoming current w
        ]
    ]

  -- One round of the inner loop.
  unfoldable pub merge_server_cell :
      SyncSecurity → SyncContext → Key → CrdtColumn → ServerWorking → Result ServerWorking
  unfolding read_stored authorize_server_cell
  merge_server_cell security context key incoming w = do
    current ← read_stored (get (context.tenant_id, key) w.0.cells)
    authorize_server_cell security context key incoming current w

  -- The inner loop, over the columns of one row.
  unfoldable pub merge_server_columns :
      SyncSecurity
      → SyncContext
      → String
      → BTreeMap String CrdtColumn
      → ServerWorking
      → Result ServerWorking
  unfolding merge_server_cell
  merge_server_columns security context todo_id [] w = ok w
  merge_server_columns security context todo_id ((column_name, incoming) ∷ columns) w = do
    w' ← merge_server_cell security context (todo_id, column_name) incoming w
    merge_server_columns security context todo_id columns w'

  -- The outer loop: the row is there before its cells are merged.
  unfoldable pub merge_server_rows :
      SyncSecurity → SyncContext → List RowChange → ServerWorking → Result ServerWorking
  unfolding merge_server_columns insert_row
  merge_server_rows security context [] w = ok w
  merge_server_rows security context (row ∷ changes) (db, rejections) = do
    w' ←
        merge_server_columns security context row.todo_id row.columns
          (insert_row context.table context.tenant_id row.todo_id db, rejections)
    merge_server_rows security context changes w'
