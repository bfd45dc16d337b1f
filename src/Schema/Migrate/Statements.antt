-- ===== src/Schema/Migrate/Statements.antt =====
-- The text of the statements of a SQLite migration (src/schema.rs), written out type by type.
use Prim.Native.String.{◌++◌}
use package.text.Mathlib.TextLemmas.{append_assoc}
use loomabase.Base as B
use loomabase.Base.{String, ◌≡◌, refl, sym, ap, ◌∙◌, true, false, List, [], ◌∷◌, map}
use loomabase.Schema.{ColumnType, text, integer, real, boolean, ColumnDef, TableDef}
use loomabase.Schema.Migrate.{
  sqlite_type, sqlite_default, sqlite_column_ddl, sqlite_add, with_trigger_drop,
}

-- The type that SQLite is told.
abbrev pub declared_type : ColumnType → String
declared_type text = "TEXT"
declared_type integer = "INTEGER"
declared_type real = "REAL"
declared_type boolean = "BOOLEAN"

pub sqlite_type-declared_type : (ty : ColumnType) → sqlite_type ty ≡ declared_type ty
unfolding sqlite_type
sqlite_type-declared_type text = refl
sqlite_type-declared_type integer = refl
sqlite_type-declared_type real = refl
sqlite_type-declared_type boolean = refl

-- A column as `ALTER TABLE … ADD COLUMN` declares it.
abbrev pub declaration : String → ColumnType → String
declaration name text = name ++ " TEXT NOT NULL DEFAULT ''"
declaration name integer = name ++ " INTEGER NOT NULL DEFAULT 0"
declaration name real = name ++ " REAL NOT NULL DEFAULT 0"
declaration name boolean =
    name ++ (" BOOLEAN NOT NULL DEFAULT 0 CHECK (" ++ (name ++ " IN (0, 1))"))

abbrev pub add_column : TableDef → ColumnDef → String
add_column table column =
    "ALTER TABLE " ++ (table.name ++ (" ADD COLUMN " ++ declaration column.name column.ty))

-- The insert trigger is dropped when there is a column that its body does not know.
abbrev pub drop_trigger : TableDef → List ColumnDef → List String
drop_trigger table [] = []
drop_trigger table (column ∷ columns) =
    ("DROP TRIGGER IF EXISTS " ++ (table.name ++ "_crdt_after_insert")) ∷ []

sqlite_column_ddl-declaration :
    (name : String) (ty : ColumnType)
    → sqlite_column_ddl (record { name = name; ty = ty }) ≡ declaration name ty
unfolding sqlite_column_ddl sqlite_type sqlite_default
sqlite_column_ddl-declaration name text = refl
sqlite_column_ddl-declaration name integer = refl
sqlite_column_ddl-declaration name real = refl
sqlite_column_ddl-declaration name boolean =
    append_assoc name " BOOLEAN NOT NULL DEFAULT 0" (" CHECK (" ++ (name ++ " IN (0, 1))"))
    ∙ ap (λ (t : String). name ++ t)
        (sym (append_assoc " BOOLEAN NOT NULL DEFAULT 0" " CHECK (" (name ++ " IN (0, 1))")))

sqlite_add-add_column :
    (table : TableDef) (column : ColumnDef) → sqlite_add table column ≡ add_column table column
sqlite_add-add_column table column =
    ap (λ (t : String). "ALTER TABLE " ++ (table.name ++ (" ADD COLUMN " ++ t)))
      (sqlite_column_ddl-declaration column.name column.ty)

map-add_column :
    (table : TableDef) (columns : List ColumnDef)
    → map (sqlite_add table) columns ≡ map (add_column table) columns
map-add_column table [] = refl
map-add_column table (column ∷ columns) =
    ap (λ (t : String). t ∷ map (sqlite_add table) columns) (sqlite_add-add_column table column)
    ∙ ap (◌∷◌ (add_column table column)) (map-add_column table columns)

-- The statements for the missing columns.
pub statements_written :
    (table : TableDef) (columns : List ColumnDef)
    → with_trigger_drop table (map (sqlite_add table) columns)
      ≡ B.◌++◌ (map (add_column table) columns) (drop_trigger table columns)
statements_written table [] = refl
statements_written table (column ∷ columns) =
    ap (λ (l : List String). B.◌++◌ l (drop_trigger table (column ∷ columns)))
      (map-add_column table (column ∷ columns))
