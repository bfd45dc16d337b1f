-- ===== src/Client/Codec/RoundTrip.antt =====
-- The text of a value in the log is read back as the value.

use Prim.Native.String.{◌++◌}
use Prim.Native.String.append
use loomabase.Base.{
  ℕ, zero, suc, ◌+◌, ◌<◌, ◌≤◌, String, true, false, ◌≡◌, refl, ap, ◌∙◌, Option, none, some, arith,
}
use loomabase.Base.Int.{ℤ, pos, negsuc}
use loomabase.Base.Decimal.{decimal}
use loomabase.Error.{ok, Passes}
use loomabase.Value
use loomabase.Value.{CrdtValue, is_finite}
use loomabase.Schema
use loomabase.Schema.{ColumnType, TableDef, column_type}
use loomabase.Validate.Cell.{validate_column, check_typed, check_value}
use loomabase.Client.{print_integer}
use loomabase.Client.Codec.{
  parse_digits, parse_unsigned, parse_integer, parse_boolean, encode_sqlite_value, decode_as,
  decode_typed, decode_sqlite_value,
}
use loomabase.Client.Codec.Digits.{parse_digits-decimal_from}

-- The range of an `i64`.
abbrev pub InRange : ℤ → Type 0
InRange (pos n) = n ≤ 9_223_372_036_854_775_807
InRange (negsuc n) = n ≤ 9_223_372_036_854_775_807

parse_digits-unsigned :
    (s : String) (m : ℕ) → parse_digits 0 s ≡ some (suc m) → parse_unsigned s ≡ some (suc m)
unfolding parse_digits
parse_digits-unsigned String.[] m h = absurd (ground arith)
parse_digits-unsigned (String.◌∷◌ c s) m h = h

parse_unsigned-decimal :
    (n : ℕ) → n < 100_000_000_000_000_000_000 → parse_unsigned (decimal n) ≡ some n
unfolding decimal parse_digits
parse_unsigned-decimal zero h = refl
parse_unsigned-decimal (suc m) h =
    parse_digits-unsigned (decimal (suc m)) m (parse_digits-decimal_from 20 (suc m) h)

parse_integer-unsigned :
    (s : String) (n : ℕ)
    → parse_unsigned s ≡ some n
    → n ≤ 9_223_372_036_854_775_807
    → parse_integer s ≡ some (pos n)
unfolding parse_integer parse_digits
parse_integer-unsigned String.[] n h le = absurd (ground arith)
parse_integer-unsigned (String.◌∷◌ c s) n h le = ground arith

minus-cons : (s : String) → "-" ++ s ≡ String.◌∷◌ "-" s
minus-cons s = append.cons "-" String.[] s ∙ ap (λ (t : String). String.◌∷◌ "-" t) (append.nil s)

parse_integer-negative :
    (s : String) (n : ℕ)
    → parse_unsigned s ≡ some (suc n)
    → n ≤ 9_223_372_036_854_775_807
    → parse_integer (String.◌∷◌ "-" s) ≡ some (negsuc n)
unfolding parse_integer
parse_integer-negative s n h le = ground arith

pub parse_integer-print_integer : (z : ℤ) → InRange z → parse_integer (print_integer z) ≡ some z
unfolding print_integer
parse_integer-print_integer (pos n) le =
    parse_integer-unsigned (decimal n) n (parse_unsigned-decimal n (omega arith)) le
parse_integer-print_integer (negsuc n) le =
    ap parse_integer (minus-cons (decimal (n + 1)))
    ∙ parse_integer-negative (decimal (n + 1)) n
        (parse_unsigned-decimal (n + 1) (omega arith) ∙ ap (λ (m : ℕ). some m) (omega arith)) le

-- An integer is an `i64`.
abbrev pub IsTyped : CrdtValue → Type 0
IsTyped (Value.integer z) = InRange z
IsTyped _ = Unit

module _ (print_real : ℕ → String) (parse_real : String → Option ℕ)
    (reads_real : (r : ℕ) → is_finite r ≡ true → parse_real (print_real r) ≡ some r) where
  -- The value is written as a text that reads as the value.
  abbrev pub ReadsBack : TableDef → String → CrdtValue → Type 0
  ReadsBack table column value =
      (raw : String) × (encode_sqlite_value print_real value ≡ ok raw)
      × (decode_sqlite_value parse_real table column raw ≡ ok value)

  reals_finite : (r : ℕ) → Passes (check_value Schema.real (Value.real r)) → is_finite r ≡ true
  unfolding check_value
  reals_finite r h = ground arith

  typed :
      (ty : ColumnType) (value : CrdtValue)
      → Passes (check_value ty value)
      → IsTyped value
      → (raw : String) × (encode_sqlite_value print_real value ≡ ok raw)
        × (decode_as parse_real ty raw ≡ ok value)
  unfolding check_value encode_sqlite_value decode_as parse_boolean
  typed Schema.text (Value.text t) h i = (t, refl, refl)
  typed Schema.integer (Value.integer z) h i =
      (print_integer z, refl, ground (arith, parse_integer-print_integer z i))
  typed Schema.real (Value.real r) h i =
      let finite : is_finite r ≡ true = reals_finite r h in
      (print_real r, refl, ground (arith, reads_real r finite))
  typed Schema.boolean (Value.boolean true) h i = ("1", refl, refl)
  typed Schema.boolean (Value.boolean false) h i = ("0", refl, refl)
  typed _ _ h i = absurd (ground arith)

  -- Where the text of a finite real reads as that real: a value that validation accepts for a
  -- column is encoded as a text, which decodes for that column as the value.
  pub decode-encode :
      (table : TableDef) (column : String) (value : CrdtValue)
      → Passes (validate_column table column value)
      → IsTyped value
      → ReadsBack table column value
  unfolding validate_column decode_sqlite_value
  decode-encode table column value h i = go (column_type table column) h
    where
      go :
          (found : Option ColumnType)
          → Passes (check_typed found value)
          → (raw : String) × (encode_sqlite_value print_real value ≡ ok raw)
            × (decode_typed parse_real found raw ≡ ok value)
      go none e = absurd (ground arith)
      go (some ty) e = typed ty value e i
