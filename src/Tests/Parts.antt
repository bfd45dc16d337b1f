-- ===== src/Tests/Parts.antt =====
-- The theorems on the decision, the explanations, the simulator, the plans and the contract at
-- concrete inputs.
use Prim.Native.String.{compare as compare_text}
use Prim.Native.Nat.Ordering.{lt}
use mathlib.Core.List.Perm
use loomabase.Base.{String, ◌<◌, ◌≡◌, ◌≢◌, ◌↔◌, ◌⊎◌, refl, some, All, List, [], ◌∷◌, ◌++◌, map}
use loomabase.Base.Decimal.{decimal}
use loomabase.BTree.{BTreeMap, get}
use loomabase.Order.Text.{text_ord}
use loomabase.Error.{ok}
use loomabase.Value
use loomabase.Value.{ColumnMetadata, CrdtColumn, CrdtValue}
use loomabase.Schema
use loomabase.Schema.{
  TableDef, ColumnDef, todos_table, column_type, synchronized_columns, synchronized_column_names,
  primary_key_column,
}
use loomabase.Schema.Migrate.{
  eq_ignore_ascii_case, sqlite_column_ddl, sqlite_type, sqlite_migration_sql,
}
use loomabase.Schema.Migrate.Statements.{declared_type, add_column, drop_trigger}
use loomabase.Schema.Migrate.Sound.{IsKept, IsCompatible, missing, sqlite_migration_sql-allowed}
use loomabase.Schema.Contract.{Contract, contract_fingerprint}
use loomabase.Schema.Contract.Fingerprint.{contract_fingerprint_order}
use loomabase.Lww.{decide_lww, accept_incoming, keep_current, equal}
use loomabase.Lww.Laws.{decide_lww_lem}
use loomabase.Merge.{should_apply}
use loomabase.Server.Replay.{SameCells}
use loomabase.Explain.{
  ConflictExplanation, explain_lww, higher_lamport_clock, lower_lamport_clock, device_id_tie_break,
}
use loomabase.Explain.Agreement.{outcome, should_apply-explain_lww, explain_lww-reason}
use loomabase.Simulator.{new_simulator, deliver, duplicate}
use loomabase.Simulator.Delivery.{duplicate_preserves}
use loomabase.Replica.{ReplicaInterest, column_equals, validate_interest}
use loomabase.Validate.Cell.{validate_column}
use loomabase.Replica.Plan.{QueryPlan, parameter, postgres_plan}
use loomabase.Replica.Plan.Shape.{postgres_plan_shape}
use loomabase.Tests.Fixtures.{forty, title_by}
use loomabase.Tests.Runs.{first_request}

abbrev version_a : ColumnMetadata
version_a = record { lamport_clock = 2; device_id = "a" }

abbrev version_b : ColumnMetadata
version_b = record { lamport_clock = 2; device_id = "b" }

decide_lww_lem_example :
    ((decide_lww version_a version_b ≡ accept_incoming) ↔ (
      (version_a.lamport_clock < version_b.lamport_clock)
      ⊎ ((version_a.lamport_clock ≡ version_b.lamport_clock)
          × (compare_text version_a.device_id version_b.device_id ≡ lt))))
    × ((decide_lww version_a version_b ≡ keep_current)
        ↔ (decide_lww version_b version_a ≡ accept_incoming))
    × ((decide_lww version_a version_b ≡ equal) ↔ (version_a ≡ version_b))
decide_lww_lem_example = decide_lww_lem version_a version_b

-- A `{:?}` that quotes nothing.
abbrev plain : String → String
plain s = s

should_apply-explain_lww_example :
    should_apply (some (title_by "a" 2 "x")) (title_by "b" 2 "y")
    ≡ outcome (explain_lww plain (some (title_by "a" 2 "x")) (title_by "b" 2 "y")).winner
should_apply-explain_lww_example =
    should_apply-explain_lww plain (some (title_by "a" 2 "x")) (title_by "b" 2 "y")

abbrev tie : ConflictExplanation
tie = explain_lww plain (some (title_by "a" 2 "x")) (title_by "b" 2 "y")

explain_lww-reason_example :
    ((tie.reason ≡ higher_lamport_clock) ↔ (version_a.lamport_clock < version_b.lamport_clock))
    × ((tie.reason ≡ lower_lamport_clock) ↔ (version_b.lamport_clock < version_a.lamport_clock))
    × ((tie.reason ≡ device_id_tie_break) ↔ (
        (version_a.lamport_clock ≡ version_b.lamport_clock)
        × (version_a.device_id ≢ version_b.device_id)))
explain_lww-reason_example = explain_lww-reason plain (title_by "a" 2 "x") (title_by "b" 2 "y")

duplicate_preserves_example :
    SameCells
      (deliver forty first_request "a" (new_simulator todos_table)).0.server
      (duplicate forty first_request "a" (new_simulator todos_table)).0.server
duplicate_preserves_example =
    duplicate_preserves forty first_request "a" (new_simulator todos_table)

abbrev titled : String → ReplicaInterest
titled title = record { predicates = column_equals "title" (Value.text title) ∷ []; limit = 10 }

abbrev plan_for : String → String → QueryPlan
plan_for tenant title = record {
  sql =
      "SELECT * FROM todos WHERE tenant_id = $1 AND deleted = FALSE AND title = $2 ORDER BY id LIMIT 10";
  parameters = Value.text tenant ∷ Value.text title ∷ [];
}

planned : postgres_plan (titled "x") todos_table "left" ≡ ok (plan_for "left" "x")
unfolding postgres_plan validate_interest validate_column column_type text_ord parameter decimal
planned = refl

planned_attack :
    postgres_plan (titled "' OR TRUE --") todos_table "right" ≡ ok (plan_for "right" "' OR TRUE --")
unfolding postgres_plan validate_interest validate_column column_type text_ord parameter decimal
planned_attack = refl

postgres_plan_shape_example :
    ((plan_for "left" "x").sql ≡ (plan_for "right" "' OR TRUE --").sql)
    × ((plan_for "left" "x").parameters ≡ Value.text "left" ∷ map parameter (titled "x").predicates)
    × ((plan_for "right" "' OR TRUE --").parameters
        ≡ Value.text "right" ∷ map parameter (titled "' OR TRUE --").predicates)
postgres_plan_shape_example =
    postgres_plan_shape (titled "x") (titled "' OR TRUE --") todos_table "left" "right"
      (plan_for "left" "x") (plan_for "right" "' OR TRUE --") (refl, tt) refl planned planned_attack

-- A table from before the `completed` column.
abbrev old_columns : BTreeMap String String
old_columns = ("deleted", "boolean") ∷ ("id", "TEXT") ∷ ("title", "text") ∷ []

abbrev migration : List String
migration =
    "ALTER TABLE todos ADD COLUMN completed BOOLEAN NOT NULL DEFAULT 0 CHECK (completed IN (0, 1))"
    ∷ "DROP TRIGGER IF EXISTS todos_crdt_after_insert" ∷ []

migrated : sqlite_migration_sql todos_table old_columns ≡ ok migration
unfolding sqlite_migration_sql synchronized_columns synchronized_column_names get text_ord
    eq_ignore_ascii_case sqlite_type sqlite_column_ddl
migrated = refl

sqlite_migration_sql-allowed_example :
    (sqlite_migration_sql todos_table old_columns ≡ ok migration) ↔ (
      All (IsKept (primary_key_column ∷ synchronized_column_names todos_table)) old_columns
      × All (IsCompatible declared_type old_columns) (synchronized_columns todos_table)
      × (migration
          ≡ map (add_column todos_table) (missing old_columns (synchronized_columns todos_table))
            ++ drop_trigger todos_table (missing old_columns (synchronized_columns todos_table))))
sqlite_migration_sql-allowed_example =
    sqlite_migration_sql-allowed todos_table old_columns migration

abbrev notes_table : TableDef
notes_table = record { name = "notes"; columns = record { name = "body"; ty = Schema.text } ∷ [] }

abbrev todos_first : Contract
todos_first = record { tables = todos_table ∷ notes_table ∷ [] }

abbrev notes_first : Contract
notes_first = record { tables = notes_table ∷ todos_table ∷ [] }

contract_fingerprint_order_example :
    contract_fingerprint todos_first ≡ contract_fingerprint notes_first
contract_fingerprint_order_example =
    contract_fingerprint_order todos_first notes_first (Perm.swap notes_table todos_table [])
