-- ===== src/Schema/Contract.antt =====
-- `Contract` (src/schema.rs): several tables in one database, and their common fingerprint.
pub mod Fingerprint
use Prim.Native.String.{◌++◌}
use Prim.Native.Nat.Ordering.{lt, eq, gt}
use package.text.Mathlib.Text.{◌==◌ as str_eq}
use loomabase.Base.{
  ℕ, zero, suc, ◌/◌, ◌%◌, String, Bool, true, false, List, [], ◌∷◌, map, any, is_empty, ltb, ◌==◌,
  if◌then◌else◌,
}
use loomabase.Base.Decimal.{decimal}
use loomabase.Order.{Ord, nat_ord, is_lt}
use loomabase.Order.Pair.{pair_ord}
use loomabase.Order.Text.{text_ord}
use loomabase.Error.{Result, ok, Check, reject_if, ◌>>◌, no_table, duplicate_table}
use loomabase.Schema.{TableDef, fingerprint, fnv1a_64, as_bytes, contains}

pub record Contract : Type 0 where
  pub tables : List TableDef

-- The loop of `Contract::new` over the names seen so far.
unfoldable pub check_tables : List String → List TableDef → Check
check_tables seen [] = ok tt
check_tables seen (table ∷ tables) = do
  reject_if (contains seen table.name) duplicate_table
  check_tables (table.name ∷ seen) tables

-- `Contract::new`
unfoldable pub new_contract : List TableDef → Result Contract
unfolding check_tables
new_contract tables = do
  reject_if (is_empty tables) no_table
  check_tables [] tables
  ok (record { tables = tables })

abbrev pub named_ord : Ord (String × ℕ)
named_ord = pair_ord

-- `fingerprints.sort()`
unfoldable pub insert_named : String × ℕ → List (String × ℕ) → List (String × ℕ)
unfolding text_ord pair_ord
insert_named x [] = x ∷ []
insert_named x (y ∷ ys) =
    let rest = insert_named x ys in if is_lt (named_ord.cmp y x) then y ∷ rest else x ∷ y ∷ ys

unfoldable pub sort_named : List (String × ℕ) → List (String × ℕ)
unfolding insert_named
sort_named [] = []
sort_named (x ∷ xs) = insert_named x (sort_named xs)

-- `{:016x}`: sixteen digits hold every `u64`.
abbrev hex_digit : ℕ → String
hex_digit d =
    if ltb d 10
    then decimal d
    else if d == 10
    then "a"
    else if d == 11
    then "b"
    else if d == 12
    then "c"
    else if d == 13
    then "d"
    else if d == 14
    then "e"
    else "f"

unfoldable pub hex_digits : ℕ → ℕ → String
hex_digits zero n = ""
hex_digits (suc count) n = hex_digits count (n / 16) ++ hex_digit (n % 16)

-- The loop that writes the descriptor.
unfoldable pub describe : String → List (String × ℕ) → String
unfolding hex_digits
describe descriptor [] = descriptor
describe descriptor ((name, print) ∷ prints) =
    describe (descriptor ++ (";" ++ (name ++ ("=" ++ hex_digits 16 print)))) prints

abbrev pub table_print : TableDef → String × ℕ
table_print table = (table.name, fingerprint table)

-- `Contract::fingerprint`
unfoldable pub contract_fingerprint : Contract → ℕ
unfolding sort_named describe
contract_fingerprint contract =
    fnv1a_64
      (as_bytes (describe "loomabase-contract-v1" (sort_named (map table_print contract.tables))))
