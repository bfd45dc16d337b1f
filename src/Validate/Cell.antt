-- ===== src/Validate/Cell.antt =====
-- The checks on the parts of a cell (src/crdt.rs): `validate_column`, `validate_identifier`,
-- `validate_rejection_reason`, `validate_clock`, `validate_clock_advance`, `SyncRejection::new`.
use Prim.Native.Char.{code}
use Prim.Native.String.{len}
use package.text.Mathlib.Text.{◌==◌ as str_eq}
use loomabase.Base.{
  ℕ, ◌-◌, String, Bool, false, ◌&&◌, ◌||◌, not, Option, none, some, leb, ltb, if◌then◌else◌,
}
use loomabase.Error.{
  Result, ok, err, Check, reject_if, ◌>>◌, invalid_payload, clock_overflow, invalid_identifier,
  invalid_rejection_reason, clock_advance_too_large, column_not_synchronizable, text_too_long,
  real_not_finite, invalid_value_type,
}
use loomabase.Value.{
  CrdtValue, SyncRejection, SyncRejectionKind, ColumnMetadata, is_finite, max_text_bytes,
  max_rejection_reason_bytes, max_storable_lamport, max_clock_advance_per_sync,
}
use loomabase.Schema.{TableDef, ColumnType, column_type}

-- `char::is_control`: the general category Cc.
unfoldable pub is_control : ℕ → Bool
is_control c = ltb c 0x20 || (leb 0x7F c && leb c 0x9F)

-- `value.chars().any(char::is_control)`
unfoldable pub has_control : String → Bool
unfolding is_control
has_control String.[] = false
has_control (String.◌∷◌ c s) = is_control (code c) || has_control s

unfoldable pub validate_identifier : String → String → Check
validate_identifier field value =
    reject_if (str_eq value "" || ltb 255 (len value) || has_control value)
      (invalid_identifier field)

unfoldable pub validate_rejection_reason : String → Check
validate_rejection_reason reason =
    reject_if
      (str_eq reason "" || ltb max_rejection_reason_bytes (len reason) || has_control reason)
      invalid_rejection_reason

unfoldable pub validate_clock : ℕ → Check
validate_clock clock = if leb clock max_storable_lamport then ok tt else err clock_overflow

-- `saturating_sub` is the subtraction of ℕ.
unfoldable pub validate_clock_advance : ℕ → ℕ → Check
validate_clock_advance current observed =
    reject_if (not (leb (observed - current) max_clock_advance_per_sync)) clock_advance_too_large

-- The `match` of `validate_column` on the type and the value.
unfoldable pub check_value : ColumnType → CrdtValue → Check
check_value ColumnType.text (CrdtValue.text t) =
    reject_if (not (leb (len t) max_text_bytes)) text_too_long
check_value ColumnType.integer (CrdtValue.integer i) = ok tt
check_value ColumnType.boolean (CrdtValue.boolean b) = ok tt
check_value ColumnType.real (CrdtValue.real r) = reject_if (not (is_finite r)) real_not_finite
check_value _ _ = err (invalid_payload invalid_value_type)

abbrev pub check_typed : Option ColumnType → CrdtValue → Check
check_typed none value = err (invalid_payload column_not_synchronizable)
check_typed (some ty) value = check_value ty value

unfoldable pub validate_column : TableDef → String → CrdtValue → Check
unfolding check_value
validate_column table column_name value = check_typed (column_type table column_name) value

abbrev pub check_known : Option ColumnType → Check
check_known none = err (invalid_payload column_not_synchronizable)
check_known (some ty) = ok tt

unfoldable pub validate_column_name : TableDef → String → Check
validate_column_name table column_name = check_known (column_type table column_name)

-- `SyncRejection::new`
unfoldable pub new_rejection :
    String → String → SyncRejectionKind → String → CrdtValue → ColumnMetadata → Result SyncRejection
new_rejection todo_id column_name kind reason value metadata = do
  validate_identifier "rejection.todo_id" todo_id
  validate_identifier "rejection.column_name" column_name
  validate_identifier "rejection.metadata.device_id" metadata.device_id
  validate_clock metadata.lamport_clock
  validate_rejection_reason reason
  ok (record {
    todo_id = todo_id;
    column_name = column_name;
    kind = kind;
    reason = reason;
    value = value;
    metadata = metadata;
  })
