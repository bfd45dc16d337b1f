-- ===== src/Client/Codec.antt =====
-- The text of a value in the log (src/client.rs): `encode_sqlite_value`, `decode_sqlite_value`, and
-- `crdt_to_sqlite`. Printing and reading an `f64` are left to parameters.
pub mod Digits
pub mod RoundTrip
use Prim.Native.Char.{code}
use package.text.Mathlib.Text.{◌==◌ as str_eq}
use loomabase.Base.{
  ℕ, zero, suc, ◌+◌, ◌-◌, ◌*◌, String, Bool, true, false, ◌&&◌, Option, none, some, leb, ◌==◌,
  if◌then◌else◌,
}
use loomabase.Base.Int.{ℤ, pos, negsuc}
use loomabase.Error.{
  Result, ok, err, ◌>>=◌, invalid_payload, malformed_integer, malformed_real, malformed_boolean,
  value_not_storable, negative_stored_clock, clock_overflow, column_not_synchronizable,
}
use loomabase.Value
use loomabase.Value.{CrdtValue, CrdtColumn, max_storable_lamport}
use loomabase.Schema
use loomabase.Schema.{ColumnType, TableDef, column_type}
use loomabase.Client.{SqlValue, LogCell, print_integer}

abbrev pub is_digit : ℕ → Bool
is_digit c = leb 0x30 c && leb c 0x39

-- The digits of `parse::<i64>`; `none` for anything but digits.
unfoldable pub parse_digits : ℕ → String → Option ℕ
parse_digits n String.[] = some n
parse_digits n (String.◌∷◌ c s) =
    let rest = parse_digits (n * 10 + (code c - 0x30)) s in if is_digit (code c) then rest else none

abbrev pub parse_unsigned : String → Option ℕ
parse_unsigned String.[] = none
parse_unsigned (String.◌∷◌ c s) = parse_digits 0 (String.◌∷◌ c s)

-- Within the range of an `i64`.
abbrev as_positive : Option ℕ → Option ℤ
as_positive none = none
as_positive (some n) = if leb n max_storable_lamport then some (pos n) else none

abbrev as_negative : Option ℕ → Option ℤ
as_negative none = none
as_negative (some zero) = some (pos 0)
as_negative (some (suc n)) = if leb n max_storable_lamport then some (negsuc n) else none

-- `raw_value.parse::<i64>()`
unfoldable pub parse_integer : String → Option ℤ
unfolding parse_digits
parse_integer String.[] = none
parse_integer (String.◌∷◌ c s) =
    if code c == 0x2D
    then as_negative (parse_unsigned s)
    else if code c == 0x2B
    then as_positive (parse_unsigned s)
    else as_positive (parse_digits 0 (String.◌∷◌ c s))

unfoldable pub parse_boolean : String → Result CrdtValue
parse_boolean raw =
    if str_eq raw "0"
    then ok (Value.boolean false)
    else if str_eq raw "1"
    then ok (Value.boolean true)
    else err (invalid_payload malformed_boolean)

-- `crdt_to_sqlite`
unfoldable pub crdt_to_sqlite : CrdtValue → Result SqlValue
crdt_to_sqlite (Value.text t) = ok (SqlValue.text t)
crdt_to_sqlite (Value.integer i) = ok (SqlValue.integer i)
crdt_to_sqlite (Value.real r) = ok (SqlValue.real r)
crdt_to_sqlite (Value.boolean true) = ok (SqlValue.integer (pos 1))
crdt_to_sqlite (Value.boolean false) = ok (SqlValue.integer (pos 0))
crdt_to_sqlite Value.null = err (invalid_payload value_not_storable)
crdt_to_sqlite (Value.blob b) = err (invalid_payload value_not_storable)

-- `clock_from_i64` and `clock_to_i64`
unfoldable pub clock_from_i64 : ℤ → Result ℕ
clock_from_i64 (pos n) = ok n
clock_from_i64 (negsuc n) = err (invalid_payload negative_stored_clock)

unfoldable pub clock_to_i64 : ℕ → Result ℤ
clock_to_i64 clock = if leb clock max_storable_lamport then ok (pos clock) else err clock_overflow

module _ (print_real : ℕ → String) where
  -- `encode_sqlite_value`
  unfoldable pub encode_sqlite_value : CrdtValue → Result String
  unfolding print_integer
  encode_sqlite_value (Value.text t) = ok t
  encode_sqlite_value (Value.integer i) = ok (print_integer i)
  encode_sqlite_value (Value.real r) = ok (print_real r)
  encode_sqlite_value (Value.boolean true) = ok "1"
  encode_sqlite_value (Value.boolean false) = ok "0"
  encode_sqlite_value Value.null = err (invalid_payload value_not_storable)
  encode_sqlite_value (Value.blob b) = err (invalid_payload value_not_storable)

module _ (parse_real : String → Option ℕ) where
  -- The `match` of `decode_sqlite_value`.
  unfoldable pub decode_as : ColumnType → String → Result CrdtValue
  unfolding parse_integer parse_boolean
  decode_as Schema.text raw = ok (Value.text raw)
  decode_as Schema.integer raw = elim (parse_integer raw) [
    | none ↦ err (invalid_payload malformed_integer)
    | some i ↦ ok (Value.integer i)
  ]
  decode_as Schema.real raw = elim (parse_real raw) [
    | none ↦ err (invalid_payload malformed_real)
    | some r ↦ ok (Value.real r)
  ]
  decode_as Schema.boolean raw = parse_boolean raw

  abbrev pub decode_typed : Option ColumnType → String → Result CrdtValue
  decode_typed none raw = err (invalid_payload column_not_synchronizable)
  decode_typed (some ty) raw = decode_as ty raw

  unfoldable pub decode_sqlite_value : TableDef → String → String → Result CrdtValue
  unfolding decode_as
  decode_sqlite_value table column_name raw = decode_typed (column_type table column_name) raw

  -- A cell of the log as a column of a payload.
  unfoldable pub read_cell : TableDef → String → LogCell → Result CrdtColumn
  unfolding decode_sqlite_value clock_from_i64
  read_cell table column_name cell = do
    value ← decode_sqlite_value table column_name cell.value
    clock ← clock_from_i64 cell.lamport_clock
    ok (record {
      value = value;
      metadata = record { lamport_clock = clock; device_id = cell.device_id };
    })
