-- ===== src/Schema/Migrate.antt =====
-- Migrations of an existing table to a contract (src/schema.rs): `sqlite_migration_sql`,
-- `postgres_migration_sql` and `postgres_crdt_migration_sql`, with the column DDL they write.
pub mod Statements
pub mod Sound
use Prim.Native.Char.{code}
use Prim.Native.String.{◌++◌}
use package.text.Mathlib.Text.{◌==◌ as str_eq}
use loomabase.Base.{
  ℕ, ◌+◌, String, Bool, true, false, ◌&&◌, not, ◌==◌, Option, none, some, List, [], ◌∷◌, map, leb,
  any, if◌then◌else◌,
}
use loomabase.Base as B
use loomabase.Order.Text.{text_ord}
use loomabase.BTree.{BTreeMap, get}
use loomabase.Error.{
  Result, ok, err, Check, ◌>>=◌, ◌>>◌, reject_if, invalid_payload, incompatible_type_change,
  removed_column,
}
use loomabase.Schema.{
  ColumnType, text, integer, real, boolean, ColumnDef, TableDef, crdt_table, synchronized_columns,
  synchronized_column_names, primary_key_column, contains,
}

-- `ColumnType::sqlite_type` and the three that follow it
unfoldable pub sqlite_type : ColumnType → String
sqlite_type text = "TEXT"
sqlite_type integer = "INTEGER"
sqlite_type real = "REAL"
sqlite_type boolean = "BOOLEAN"

unfoldable pub postgres_type : ColumnType → String
postgres_type text = "TEXT"
postgres_type integer = "BIGINT"
postgres_type real = "DOUBLE PRECISION"
postgres_type boolean = "BOOLEAN"

unfoldable pub sqlite_default : ColumnType → String
sqlite_default text = "''"
sqlite_default _ = "0"

unfoldable pub postgres_default : ColumnType → String
postgres_default text = "''"
postgres_default boolean = "FALSE"
postgres_default _ = "0"

abbrev is_boolean : ColumnType → Bool
is_boolean boolean = true
is_boolean _ = false

unfoldable pub sqlite_column_ddl : ColumnDef → String
unfolding sqlite_type sqlite_default
sqlite_column_ddl c =
    let ddl =
      c.name ++ (" " ++ (sqlite_type c.ty ++ (" NOT NULL DEFAULT " ++ sqlite_default c.ty))) in
    if is_boolean c.ty then ddl ++ (" CHECK (" ++ (c.name ++ " IN (0, 1))")) else ddl

unfoldable pub postgres_column_ddl : ColumnDef → String
unfolding postgres_type postgres_default
postgres_column_ddl c =
    c.name ++ (" " ++ (postgres_type c.ty ++ (" NOT NULL DEFAULT " ++ postgres_default c.ty)))

-- `eq_ignore_ascii_case`
abbrev ascii_lower : ℕ → ℕ
ascii_lower c = if leb 0x41 c && leb c 0x5A then c + 32 else c

unfoldable pub eq_ignore_ascii_case : String → String → Bool
eq_ignore_ascii_case String.[] String.[] = true
eq_ignore_ascii_case String.[] (String.◌∷◌ d t) = false
eq_ignore_ascii_case (String.◌∷◌ c s) String.[] = false
eq_ignore_ascii_case (String.◌∷◌ c s) (String.◌∷◌ d t) =
    (ascii_lower (code c) == ascii_lower (code d)) && eq_ignore_ascii_case s t

-- The first key that the contract does not have is an error.
unfoldable pub reject_removed_columns : BTreeMap String String → List String → Check
reject_removed_columns [] expected = ok tt
reject_removed_columns ((column, declared) ∷ existing) expected = do
  reject_if (not (contains expected column)) removed_column
  reject_removed_columns existing expected

-- The `match` in the loops: a missing column is a statement, a column of another type an error.
unfoldable pub column_statement :
    (ColumnType → String) → (ColumnDef → String) → Option String → ColumnDef → Result (List String)
column_statement type_name statement none column = ok (statement column ∷ [])
column_statement type_name statement (some declared) column =
    if eq_ignore_ascii_case declared (type_name column.ty)
    then ok []
    else err (invalid_payload incompatible_type_change)

unfoldable pub column_statements :
    (ColumnType → String)
    → (ColumnDef → String)
    → BTreeMap String String
    → List ColumnDef
    → Result (List String)
unfolding column_statement
column_statements type_name statement existing [] = ok []
column_statements type_name statement existing (column ∷ columns) = do
  first ← column_statement type_name statement (get column.name existing) column
  rest ← column_statements type_name statement existing columns
  ok (B.◌++◌ first rest)

abbrev pub sqlite_add : TableDef → ColumnDef → String
sqlite_add table column =
    "ALTER TABLE " ++ (table.name ++ (" ADD COLUMN " ++ sqlite_column_ddl column))

abbrev pub postgres_add : TableDef → ColumnDef → String
postgres_add table column =
    "ALTER TABLE " ++ (table.name ++ (" ADD COLUMN IF NOT EXISTS " ++ postgres_column_ddl column))

-- `added`: some statement was written.
abbrev pub with_trigger_drop : TableDef → List String → List String
with_trigger_drop table [] = []
with_trigger_drop table (s ∷ statements) =
    B.◌++◌ (s ∷ statements)
      (("DROP TRIGGER IF EXISTS " ++ (table.name ++ "_crdt_after_insert")) ∷ [])

-- `TableDef::sqlite_migration_sql`
unfoldable pub sqlite_migration_sql : TableDef → BTreeMap String String → Result (List String)
unfolding reject_removed_columns column_statements
sqlite_migration_sql table existing = do
  reject_removed_columns existing (primary_key_column ∷ synchronized_column_names table)
  statements ←
      column_statements sqlite_type (sqlite_add table) existing (synchronized_columns table)
  ok (with_trigger_drop table statements)

-- `TableDef::postgres_migration_sql`
unfoldable pub postgres_migration_sql : TableDef → BTreeMap String String → Result (List String)
unfolding reject_removed_columns column_statements
postgres_migration_sql table existing = do
  reject_removed_columns existing
      ("tenant_id" ∷ primary_key_column ∷ synchronized_column_names table)
  column_statements postgres_type (postgres_add table) existing (synchronized_columns table)

abbrev check_bigint : Option String → Check
check_bigint none = ok tt
check_bigint (some declared) =
    reject_if (not (eq_ignore_ascii_case declared "bigint")) incompatible_type_change

abbrev crdt_statements : String → List String
crdt_statements crdt =
    ("ALTER TABLE " ++ (crdt ++ " ADD COLUMN IF NOT EXISTS seq BIGINT"))
    ∷ ("UPDATE " ++ (crdt ++ " SET seq = nextval('loomabase_seq') WHERE seq IS NULL"))
    ∷ ("ALTER TABLE " ++ (crdt ++ " ALTER COLUMN seq SET NOT NULL"))
    ∷ ("ALTER TABLE " ++ (crdt ++ " ALTER COLUMN seq SET DEFAULT nextval('loomabase_seq')"))
    ∷ []

-- `TableDef::postgres_crdt_migration_sql`
unfoldable pub postgres_crdt_migration_sql :
    TableDef → BTreeMap String String → Result (List String)
unfolding eq_ignore_ascii_case
postgres_crdt_migration_sql table [] = ok []
postgres_crdt_migration_sql table (column ∷ existing) = do
  check_bigint (get "seq" (column ∷ existing))
  ok (crdt_statements (crdt_table table))
