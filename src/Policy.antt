-- ===== src/Policy.antt =====
-- src/policy.rs: the hooks that may deny a cell, the implementations that the crate ships, and the
-- audit events. A hook (`dyn SyncAuthorizer`, `dyn SyncValidator`) is a function.
use Prim.Native.String.{len, ◌++◌}
use loomabase.Base.{
  ℕ, String, Bool, true, ◌||◌, not, Option, none, some, List, [], ◌∷◌, leb, if◌then◌else◌,
}
use loomabase.Base.Decimal.{decimal}
use loomabase.BTree.{BTreeMap, insert, contains_key}
use loomabase.Order.Text.{text_ord}
use loomabase.Error.{Result, ok, ◌>>=◌, ◌>>◌}
use loomabase.Value.{
  CrdtValue, CrdtColumn, ColumnMetadata, SyncRejectionKind, authorization_denied, validation_failed,
}
use loomabase.Schema.{TableDef}
use loomabase.Validate.Cell.{validate_identifier, validate_column_name, validate_rejection_reason}

pub record SyncContext : Type 0 where
  pub tenant_id : String
  pub authenticated_device_id : String
  pub table : TableDef

pub record CellMutation : Type 0 where
  pub todo_id : String
  pub column_name : String
  pub value : CrdtValue
  pub metadata : ColumnMetadata

pub data PolicyDecision : Type 0 where
  allow : PolicyDecision
  deny : SyncRejectionKind → String → PolicyDecision

-- `PolicyDecision::deny`
unfoldable pub deny_because : SyncRejectionKind → String → Result PolicyDecision
deny_because kind reason = do validate_rejection_reason reason; ok (deny kind reason)

-- `SyncAuthorizer::authorize_cell` and `SyncValidator::validate_cell`
abbrev pub Hook : Type 0
Hook = SyncContext → CellMutation → Option CrdtColumn → Result PolicyDecision

-- `AllowAllAuthorizer` and `NoopValidator`
abbrev pub allow_all : Hook
allow_all context mutation current = ok allow

abbrev pub noop : Hook
noop context mutation current = ok allow

-- The loops of `ColumnAllowListAuthorizer::new` and `MaxTextLengthValidator::columns`.
unfoldable pub collect_columns :
    TableDef → List String → BTreeMap String Unit → Result (BTreeMap String Unit)
collect_columns table [] columns = ok columns
collect_columns table (column ∷ rest) columns = do
  validate_column_name table column
  collect_columns table rest (insert column tt columns)

-- `ColumnAllowListAuthorizer::authorize_cell`, over its `writable_columns`
unfoldable pub column_allow_list : BTreeMap String Unit → Hook
unfolding deny_because
column_allow_list writable_columns context mutation current =
    if contains_key mutation.column_name writable_columns
    then ok allow
    else deny_because authorization_denied
        ("writes to column " ++ (mutation.column_name ++ " are not authorized"))

-- `MaxTextLengthValidator`
pub record MaxTextLength : Type 0 where
  pub max_bytes : ℕ
  pub columns : Option (BTreeMap String Unit)

unfoldable pub applies_to : MaxTextLength → String → Bool
applies_to v column_name = elim v.columns [
  | none ↦ true
  | some columns ↦ contains_key column_name columns
]

abbrev check_length : MaxTextLength → String → CrdtValue → Result PolicyDecision
check_length v column_name (CrdtValue.text t) =
    if not (applies_to v column_name) || leb (len t) v.max_bytes
    then ok allow
    else deny_because validation_failed (
        "text value for column "
        ++ (column_name ++ (" exceeds " ++ (decimal v.max_bytes ++ " bytes"))))
check_length v column_name _ = ok allow

-- `MaxTextLengthValidator::validate_cell`
unfoldable pub max_text_length : MaxTextLength → Hook
unfolding applies_to deny_because
max_text_length v context mutation current = check_length v mutation.column_name mutation.value

-- `CompositeValidator::validate_cell`: the first denial is the answer.
unfoldable pub composite : List Hook → Hook
composite [] context mutation current = ok allow
composite (validator ∷ validators) context mutation current = do
  decision ← validator context mutation current
  elim decision [
    | allow ↦ composite validators context mutation current
    | deny kind reason ↦ ok (deny kind reason)
  ]

pub data AuditMode : Type 0 where
  disabled database : AuditMode

pub record SyncSecurity : Type 0 where
  pub authorizer : Hook
  pub validator : Hook
  pub audit_mode : AuditMode

-- `SyncSecurity::default`
abbrev pub default_security : SyncSecurity
default_security = record { authorizer = allow_all; validator = noop; audit_mode = database }

-- `SyncSecurity::without_audit`
abbrev pub without_audit : Hook → Hook → SyncSecurity
without_audit authorizer validator = record {
  authorizer = authorizer;
  validator = validator;
  audit_mode = disabled;
}

pub data SyncAuditOutcome : Type 0 where
  accepted kept_current idempotent rejected_authorization rejected_validation : SyncAuditOutcome

pub record SyncAuditEvent : Type 0 where
  pub table_name : String
  pub todo_id : String
  pub column_name : String
  pub outcome : SyncAuditOutcome
  pub reason : String
  pub incoming_value : CrdtValue
  pub incoming_metadata : ColumnMetadata
  pub current_value : Option CrdtValue
  pub current_metadata : Option ColumnMetadata

-- `SyncAuditEvent::new`
unfoldable pub new_event :
    SyncContext
    → CellMutation
    → Option CrdtColumn
    → SyncAuditOutcome
    → String
    → Result SyncAuditEvent
new_event context mutation current outcome reason = do
  validate_identifier "audit.table_name" context.table.name
  validate_identifier "audit.todo_id" mutation.todo_id
  validate_identifier "audit.column_name" mutation.column_name
  validate_identifier "audit.incoming_device_id" mutation.metadata.device_id
  validate_rejection_reason reason
  ok (record {
    table_name = context.table.name;
    todo_id = mutation.todo_id;
    column_name = mutation.column_name;
    outcome = outcome;
    reason = reason;
    incoming_value = mutation.value;
    incoming_metadata = mutation.metadata;
    current_value = elim current [ none ↦ none | some cell ↦ some cell.value ];
    current_metadata = elim current [ none ↦ none | some cell ↦ some cell.metadata ];
  })

-- `SyncAuditOutcome::as_str`
unfoldable pub as_str : SyncAuditOutcome → String
as_str accepted = "accepted"
as_str kept_current = "kept_current"
as_str idempotent = "idempotent"
as_str rejected_authorization = "rejected_authorization"
as_str rejected_validation = "rejected_validation"
