-- ===== src/Value.antt =====
-- The data of the protocol (src/crdt.rs): values, versions, cells, rows, payloads and the limits.
use loomabase.Base.{
  ℕ, String, Bool, true, false, ◌&&◌, ◌||◌, not, ◌==◌, Option, List, [], ◌∷◌, ◌/◌, ◌%◌, ◌^◌,
}
use loomabase.Base.Int.{ℤ, int_eq}
use loomabase.BTree.{BTreeMap}
use package.text.Mathlib.Text.{◌==◌ as str_eq}

abbrev pub title_column : String
title_column = "title"

abbrev pub completed_column : String
completed_column = "completed"

abbrev pub deleted_column : String
deleted_column = "deleted"

abbrev pub server_device_id : String
server_device_id = "loomabase-server"

abbrev pub min_supported_protocol_version : ℕ
min_supported_protocol_version = 3

abbrev pub protocol_version : ℕ
protocol_version = 4

abbrev pub max_payload_rows : ℕ
max_payload_rows = 10_000

abbrev pub max_payload_cells : ℕ
max_payload_cells = 20_000

abbrev pub max_response_cells : ℕ
max_response_cells = 1_000

abbrev pub max_response_bytes : ℕ
max_response_bytes = 4_194_304

abbrev pub max_text_bytes : ℕ
max_text_bytes = 1_048_576

abbrev pub max_rejection_reason_bytes : ℕ
max_rejection_reason_bytes = 2_048

-- `i64::MAX`
abbrev pub max_storable_lamport : ℕ
max_storable_lamport = 9_223_372_036_854_775_807

abbrev pub max_clock_advance_per_sync : ℕ
max_clock_advance_per_sync = 1_000_000

-- `u64::MAX`
abbrev pub u64_max : ℕ
u64_max = 18_446_744_073_709_551_615

-- A `Real` is its 64 bits (IEEE 754 binary64); a `Blob` its bytes.
pub data CrdtValue : Type 0 where
  null : CrdtValue
  integer : ℤ → CrdtValue
  real : ℕ → CrdtValue
  text : String → CrdtValue
  boolean : Bool → CrdtValue
  blob : List ℕ → CrdtValue

-- `f64::is_finite`: the exponent bits are not all ones.
unfoldable pub is_finite : ℕ → Bool
is_finite bits = not ((bits / 2 ^ 52) % 2 ^ 11 == 2047)

unfoldable pub is_nan : ℕ → Bool
unfolding is_finite
is_nan bits = not (is_finite bits) && not (bits % 2 ^ 52 == 0)

-- `==` on `f64`: a NaN equals nothing, and the two zeros are equal.
unfoldable pub real_eq : ℕ → ℕ → Bool
unfolding is_nan
real_eq a b = not (is_nan a) && not (is_nan b) && (a == b || (a % 2 ^ 63 == 0 && b % 2 ^ 63 == 0))

unfoldable pub bytes_eq : List ℕ → List ℕ → Bool
bytes_eq [] [] = true
bytes_eq (x ∷ xs) (y ∷ ys) = x == y && bytes_eq xs ys
bytes_eq _ _ = false

abbrev pub bool_eq : Bool → Bool → Bool
bool_eq true b = b
bool_eq false b = not b

-- The derived `PartialEq` of `CrdtValue`.
unfoldable pub value_eq : CrdtValue → CrdtValue → Bool
unfolding bytes_eq real_eq
value_eq null null = true
value_eq (integer a) (integer b) = int_eq a b
value_eq (real a) (real b) = real_eq a b
value_eq (text a) (text b) = str_eq a b
value_eq (boolean a) (boolean b) = bool_eq a b
value_eq (blob a) (blob b) = bytes_eq a b
value_eq _ _ = false

pub record ColumnMetadata : Type 0 where
  pub lamport_clock : ℕ
  pub device_id : String

pub record CrdtColumn : Type 0 where
  pub value : CrdtValue
  pub metadata : ColumnMetadata

pub record RowChange : Type 0 where
  pub todo_id : String
  pub columns : BTreeMap String CrdtColumn

pub data SyncRejectionKind : Type 0 where
  authorization_denied validation_failed : SyncRejectionKind

pub record SyncRejection : Type 0 where
  pub todo_id : String
  pub column_name : String
  pub kind : SyncRejectionKind
  pub reason : String
  pub value : CrdtValue
  pub metadata : ColumnMetadata

pub record SyncPayload : Type 0 where
  pub protocol_version : ℕ
  pub schema_fingerprint : ℕ
  pub source_device_id : String
  pub source_lamport : ℕ
  pub changes : List RowChange
  pub cursor : ℤ
  pub has_more : Bool
  pub cursor_reset : Bool
  pub cursor_token : Option String
  pub server_epoch : Option String
  pub rejections : List SyncRejection
