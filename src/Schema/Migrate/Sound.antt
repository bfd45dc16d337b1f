-- ===== src/Schema/Migrate/Sound.antt =====
-- When a migration is allowed, and the statements that it then is.
use package.text.Mathlib.Text.{◌==◌ as str_eq}
use package.text.Mathlib.TextEquality.{eq_iff}
use loomabase.Base.{
  Bool-cases, In, subst, String, ◌≡◌, refl, sym, ap, ◌∙◌, ◌↔◌, inl, inr, true, not, Option, none,
  some, Option-cases, List, [], ◌∷◌, ◌++◌, map, All, arith,
}
use loomabase.Order.Text.{text_ord}
use loomabase.BTree.{BTreeMap, get}
use loomabase.Error.{
  ok, Passes, reject_if, reject_if-Passes, bind-eq-ok, then-eq-ok, ok-injective, removed_column,
}
use loomabase.Schema.{
  ColumnType, ColumnDef, TableDef, synchronized_columns, synchronized_column_names,
  primary_key_column, contains,
}
use loomabase.Schema.Migrate.Statements.{
  declared_type, add_column, drop_trigger, sqlite_type-declared_type, statements_written,
}
use loomabase.Schema.Migrate.{
  sqlite_type, sqlite_add, eq_ignore_ascii_case, reject_removed_columns, column_statement,
  column_statements, with_trigger_drop, sqlite_migration_sql,
}

-- The columns that the table does not have yet.
abbrev missing_of : Option String → ColumnDef → List ColumnDef
missing_of none column = column ∷ []
missing_of (some declared) column = []

abbrev pub missing : BTreeMap String String → List ColumnDef → List ColumnDef
missing existing [] = []
missing existing (column ∷ columns) =
    missing_of (get column.name existing) column ++ missing existing columns

-- A declared type is the contract's, up to case.
abbrev pub IsCompatible : (ColumnType → String) → BTreeMap String String → ColumnDef → Type 0
IsCompatible type_name existing column =
    (declared : String)
    → get column.name existing ≡ some declared
    → eq_ignore_ascii_case declared (type_name column.ty) ≡ true

-- Every column of the table is one of the contract's.
abbrev pub IsKept : List String → String × String → Type 0
IsKept expected column = In column.0 expected

contains-In : (names : List String) (name : String) → (contains names name ≡ true) ↔ In name names
contains-In [] name = (λ h. absurd (ground arith), λ i. absurd i)
contains-In (other ∷ names) name = elim (Bool-cases (str_eq other name)) [
  | inl same ↦ (λ h. inl (sym ((eq_iff other name).0 same)), λ i. ground arith)
  | inr differs ↦ (
    λ h. inr ((contains-In names name).0 (ground arith)),
    λ i. elim i [
      | inl e ↦ let equal = (eq_iff other name).1 (sym e) in absurd (ground arith)
      | inr later ↦ let rest = (contains-In names name).1 later in ground arith
    ],
  )
]

removed_columns :
    (existing : BTreeMap String String) (expected : List String)
    → Passes (reject_removed_columns existing expected) ↔ All (IsKept expected) existing
unfolding reject_removed_columns
removed_columns [] expected = (λ _. tt, λ _. refl)
removed_columns ((column, declared) ∷ existing) expected = (
  λ h.
      let (here, later) =
        then-eq-ok (reject_if (not (contains expected column)) removed_column) _ h in
      (
        (contains-In expected column).0
            (ground (arith, reject_if-Passes (not (contains expected column)) removed_column here)),
        (removed_columns existing expected).0 later,
      ),
  λ (kept, later).
      let here = (contains-In expected column).1 kept in
      rw (here, (removed_columns existing expected).1 later) refl,
)

module _ (type_name : ColumnType → String) (statement : ColumnDef → String)
    (existing : BTreeMap String String) where
  map-append :
      (cs ds : List ColumnDef) → map statement (cs ++ ds) ≡ map statement cs ++ map statement ds
  map-append [] ds = refl
  map-append (c ∷ cs) ds = ap (◌∷◌ (statement c)) (map-append cs ds)

  column_statement-allowed :
      (column : ColumnDef) (statements : List String)
      → column_statement type_name statement (get column.name existing) column ≡ ok statements
      → IsCompatible type_name existing column
        × (statements ≡ map statement (missing_of (get column.name existing) column))
  unfolding column_statement
  column_statement-allowed column statements h = elim (Option-cases (get column.name existing)) [
    | inl e ↦ (λ declared f. absurd (ground arith), rw e (ground arith))
    | inr (found, e) ↦ (λ declared f. ground arith, rw e (ground arith))
  ]

  column_statement-total :
      (column : ColumnDef)
      → IsCompatible type_name existing column
      → column_statement type_name statement (get column.name existing) column
        ≡ ok (map statement (missing_of (get column.name existing) column))
  unfolding column_statement
  column_statement-total column c = elim (Option-cases (get column.name existing)) [
    | inl e ↦ rw e refl
    | inr (found, e) ↦ let fits = c found e in rw (e, fits) refl
  ]

  pub column_statements-allowed :
      (columns : List ColumnDef) (statements : List String)
      → (column_statements type_name statement existing columns ≡ ok statements) ↔ (
          All (IsCompatible type_name existing) columns
          × (statements ≡ map statement (missing existing columns)))
  unfolding column_statements
  column_statements-allowed [] statements =
      (λ h. (tt, sym (ok-injective h)), λ (_, e). ap ok (sym e))
  column_statements-allowed (column ∷ columns) statements = (
    λ h.
        let (first, e, h') =
          bind-eq-ok (column_statement type_name statement (get column.name existing) column) _ h in
        let (rest, f, h'') =
          bind-eq-ok (column_statements type_name statement existing columns) _ h' in
        let (fits, is_first) = column_statement-allowed column first e in
        let (all_fit, is_rest) = (column_statements-allowed columns rest).0 f in
        (
          (fits, all_fit),
          sym (ok-injective h'')
              ∙ ap (λ x. x ++ rest) is_first
              ∙ ap (λ x. map statement (missing_of (get column.name existing) column) ++ x) is_rest
              ∙ sym (
                  map-append (missing_of (get column.name existing) column)
                    (missing existing columns)),
        ),
    λ ((fits, all_fit), e).
        let here = column_statement-total column fits in
        let later =
          (column_statements-allowed columns (map statement (missing existing columns))).1
            (all_fit, refl) in
        let joined =
          map-append (missing_of (get column.name existing) column) (missing existing columns) in
        rw (here, later) (ap ok (sym joined ∙ sym e)),
  )

migration_statements :
    (table : TableDef) (existing : BTreeMap String String) (statements : List String)
    → (sqlite_migration_sql table existing ≡ ok statements) ↔ (
        All (IsKept (primary_key_column ∷ synchronized_column_names table)) existing
        × All (IsCompatible sqlite_type existing) (synchronized_columns table)
        × (statements
            ≡ with_trigger_drop table
                (map (sqlite_add table) (missing existing (synchronized_columns table)))))
unfolding sqlite_migration_sql
migration_statements table existing statements = (
  λ h.
      let (kept, h') = then-eq-ok (reject_removed_columns existing expected) _ h in
      let (added, e, h'') =
        bind-eq-ok
          (column_statements sqlite_type (sqlite_add table) existing (synchronized_columns table)) _
          h' in
      let (fits, is_added) = (exact added).0 e in
      (
        (removed_columns existing expected).0 kept,
        fits,
        sym (ok-injective h'') ∙ ap (with_trigger_drop table) is_added,
      ),
  λ (kept, fits, e).
      rw ((removed_columns existing expected).1 kept, (exact all_added).1 (fits, refl))
        (ap ok (sym e)),
)
  where
    expected : List String
    expected = primary_key_column ∷ synchronized_column_names table

    all_added : List String
    all_added = map (sqlite_add table) (missing existing (synchronized_columns table))

    exact :
        (added : List String)
        → (column_statements sqlite_type (sqlite_add table) existing (synchronized_columns table)
            ≡ ok added)
          ↔ (All (IsCompatible sqlite_type existing) (synchronized_columns table)
              × (added ≡ map (sqlite_add table) (missing existing (synchronized_columns table))))
    exact added =
        column_statements-allowed sqlite_type (sqlite_add table) existing
          (synchronized_columns table) added

-- A SQLite migration returns statements exactly if every existing column is the key or a
-- synchronized one and has the type of the contract, up to case; the statements are then an ALTER
-- TABLE ADD COLUMN for each missing column, in the order of the contract, with the type, default
-- and check written out, and last a DROP TRIGGER of the insert trigger if there is a missing
-- column.
pub sqlite_migration_sql-allowed :
    (table : TableDef) (existing : BTreeMap String String) (statements : List String)
    → (sqlite_migration_sql table existing ≡ ok statements) ↔ (
        All (IsKept (primary_key_column ∷ synchronized_column_names table)) existing
        × All (IsCompatible declared_type existing) (synchronized_columns table)
        × (statements
            ≡ map (add_column table) (missing existing (synchronized_columns table))
              ++ drop_trigger table (missing existing (synchronized_columns table))))
sqlite_migration_sql-allowed table existing statements =
    let added = missing existing (synchronized_columns table) in
    let known = migration_statements table existing statements in
    let types : sqlite_type ≡ declared_type = λ i ty. sqlite_type-declared_type ty i in
    let fits : (columns : List ColumnDef)
        → All (IsCompatible sqlite_type existing) columns
          ↔ All (IsCompatible declared_type existing) columns =
      λ columns.
        subst
          (λ (f : ColumnType → String).
            All (IsCompatible sqlite_type existing) columns ↔ All (IsCompatible f existing) columns)
          types (λ a. a, λ a. a) in
    (
      λ h.
          let (kept, compatible, e) = known.0 h in
          (
            kept,
            (fits (synchronized_columns table)).0 compatible,
            e ∙ statements_written table added,
          ),
      λ (kept, compatible, e). known.1 (
        kept,
        (fits (synchronized_columns table)).1 compatible,
        e ∙ sym (statements_written table added),
      ),
    )
