-- ===== src/Schema.antt =====
-- src/schema.rs: column types, table definitions, their validation, and the fingerprint.
pub mod Migrate
pub mod Contract
use Prim.Native.Char.{code}
use Prim.Native.Nat.{bit_xor}
use Prim.Native.String.{len, ◌++◌}
use package.text.Mathlib.Text.{◌==◌ as str_eq}
use loomabase.Base.{
  ℕ, ◌+◌, ◌*◌, ◌/◌, ◌%◌, ◌^◌, String, Bool, true, false, ◌&&◌, ◌||◌, not, ◌==◌, Option, none, some,
  List, [], ◌∷◌, map, leb, ltb, all, any, is_empty, if◌then◌else◌,
}
use loomabase.Base as B
use loomabase.Error.{
  Result, ok, Check, reject_if, ◌>>◌, invalid_sql_identifier, reserved_table_name,
  no_application_column, reserved_column_name, duplicate_column,
}
use loomabase.Value.{deleted_column, title_column, completed_column}

abbrev pub liveness_column : String
liveness_column = deleted_column

abbrev pub primary_key_column : String
primary_key_column = "id"

abbrev pub max_identifier_len : ℕ
max_identifier_len = 63

pub data ColumnType : Type 0 where
  text integer real boolean : ColumnType

-- `ColumnType::tag`
unfoldable pub tag : ColumnType → String
tag text = "text"
tag integer = "integer"
tag real = "real"
tag boolean = "boolean"

pub record ColumnDef : Type 0 where
  pub name : String
  pub ty : ColumnType

pub record TableDef : Type 0 where
  pub name : String
  pub columns : List ColumnDef

-- `TableDef::crdt_table`
unfoldable pub crdt_table : TableDef → String
crdt_table table = table.name ++ "_crdt"

-- The application columns, then the liveness register.
unfoldable pub synchronized_columns : TableDef → List ColumnDef
synchronized_columns table =
    B.◌++◌ table.columns (record { name = liveness_column; ty = boolean } ∷ [])

unfoldable pub synchronized_column_names : TableDef → List String
unfolding synchronized_columns
synchronized_column_names table = map (λ (c : ColumnDef). c.name) (synchronized_columns table)

-- `iter().find(|column| column.name == name).map(|column| column.ty)`
unfoldable pub find_type : String → List ColumnDef → Option ColumnType
find_type name [] = none
find_type name (c ∷ cs) = if str_eq c.name name then some c.ty else find_type name cs

-- `TableDef::column_type`
unfoldable pub column_type : TableDef → String → Option ColumnType
unfolding find_type
column_type table name =
    if str_eq name liveness_column then some boolean else find_type name table.columns

-- The UTF-8 bytes of a code point.
unfoldable pub utf8 : ℕ → List ℕ
utf8 c =
    if ltb c 0x80
    then c ∷ []
    else if ltb c 0x800
    then (0xC0 + c / 64) ∷ (0x80 + c % 64) ∷ []
    else if ltb c 0x10000
    then (0xE0 + c / 4096) ∷ (0x80 + c / 64 % 64) ∷ (0x80 + c % 64) ∷ []
    else (0xF0 + c / 262144) ∷ (0x80 + c / 4096 % 64) ∷ (0x80 + c / 64 % 64) ∷ (0x80 + c % 64) ∷ []

-- `as_bytes`
unfoldable pub as_bytes : String → List ℕ
unfolding utf8
as_bytes String.[] = []
as_bytes (String.◌∷◌ c s) = B.◌++◌ (utf8 (code c)) (as_bytes s)

-- The loop of `fnv1a_64`, with the wrap of `wrapping_mul`.
unfoldable pub fnv1a_from : ℕ → List ℕ → ℕ
fnv1a_from hash [] = hash
fnv1a_from hash (byte ∷ bytes) = fnv1a_from (bit_xor hash byte * 0x100000001b3 % 2 ^ 64) bytes

unfoldable pub fnv1a_64 : List ℕ → ℕ
unfolding fnv1a_from
fnv1a_64 bytes = fnv1a_from 0xcbf29ce484222325 bytes

-- The part of the descriptor after the table's name.
unfoldable pub describe_columns : List ColumnDef → String
unfolding tag
describe_columns [] = ""
describe_columns (c ∷ cs) = ";" ++ (c.name ++ (":" ++ (tag c.ty ++ describe_columns cs)))

-- `TableDef::fingerprint`
unfoldable pub fingerprint : TableDef → ℕ
unfolding fnv1a_64 as_bytes describe_columns synchronized_columns
fingerprint table = fnv1a_64 (
    as_bytes
      ("loomabase-contract-v1;" ++ (table.name ++ describe_columns (synchronized_columns table))))

abbrev is_ascii_lowercase : ℕ → Bool
is_ascii_lowercase b = leb b'a' b && leb b b'z'

abbrev is_ascii_digit : ℕ → Bool
is_ascii_digit b = leb b'0' b && leb b b'9'

abbrev starts_identifier : List ℕ → Bool
starts_identifier [] = false
starts_identifier (b ∷ bs) = b == b'_' || is_ascii_lowercase b

unfoldable pub is_sql_identifier : String → Bool
unfolding as_bytes
is_sql_identifier name =
    not (str_eq name "")
    && leb (len name) max_identifier_len
    && starts_identifier (as_bytes name)
    && all (λ b. b == b'_' || is_ascii_lowercase b || is_ascii_digit b) (as_bytes name)

unfoldable pub validate_sql_identifier : String → Check
unfolding is_sql_identifier
validate_sql_identifier name = reject_if (not (is_sql_identifier name)) invalid_sql_identifier

abbrev pub reserved_tables : List String
reserved_tables =
    "client_state" ∷ "loomabase_cursor" ∷ "loomabase_cursor_lease" ∷ "loomabase_server_state"
    ∷ "loomabase_state" ∷ []

abbrev pub contains : List String → String → Bool
contains seen name = any (λ s. str_eq s name) seen

-- The loop of `TableDef::new` over the columns; `seen` holds the names so far.
unfoldable pub check_columns : List String → List ColumnDef → Check
unfolding validate_sql_identifier
check_columns seen [] = ok tt
check_columns seen (c ∷ cs) = do
  validate_sql_identifier c.name
  reject_if (str_eq c.name primary_key_column || str_eq c.name liveness_column) reserved_column_name
  reject_if (contains seen c.name) duplicate_column
  check_columns (c.name ∷ seen) cs

-- `TableDef::new`
unfoldable pub new : String → List ColumnDef → Result TableDef
unfolding check_columns
new name columns = do
  validate_sql_identifier name
  reject_if (contains reserved_tables name) reserved_table_name
  reject_if (is_empty columns) no_application_column
  check_columns [] columns
  ok (record { name = name; columns = columns })

-- `todos_table`
abbrev pub todos_table : TableDef
todos_table = record {
  name = "todos";
  columns =
      record { name = title_column; ty = text }
      ∷ record { name = completed_column; ty = boolean }
      ∷ [];
}
