-- ===== src/Postgres/Loop.antt =====
-- A relation that every statement of the merge loop keeps is kept by the loop.
use loomabase.Base.{
  String, ◌≡◌, sym, subst, Bool, true, false, if◌then◌else◌, inl, inr, List, [], ◌∷◌, Option,
}
use loomabase.BTree.{BTreeMap, get}
use loomabase.Order.Pair.{pair_ord}
use loomabase.Order.Text.{text_ord}
use loomabase.Error.{ok, bind-eq-ok, ok-injective}
use loomabase.Value.{CrdtColumn, RowChange, SyncRejectionKind}
use loomabase.Validate.{Key}
use loomabase.Policy.{SyncContext, SyncSecurity, SyncAuditEvent}
use loomabase.Postgres.Steps.{
  reject_server_cell-Rejected, apply_server_cell-Applied, authorize_server_cell_cases,
}
use loomabase.Postgres.{Database, read_stored, insert_row}
use loomabase.Postgres.Cell.{
  ServerWorking, record_audit_if_enabled, write_server_cell, reject_server_cell, apply_server_cell,
  authorize_server_cell, merge_server_cell, merge_server_columns, merge_server_rows,
}

-- The relation holds along each statement, and along none.
pub record Closed (security : SyncSecurity) (context : SyncContext)
    (R : Database → Database → Type 0) : Type 0 where
  pub none_run : (db : Database) → R db db
  pub both_run : (a b c : Database) → R a b → R b c → R a c
  pub row_run :
      (todo_id : String) (db : Database)
      → R db (insert_row context.table context.tenant_id todo_id db)
  pub write_run :
      (key : Key) (incoming : CrdtColumn) (db db' : Database)
      → write_server_cell context key incoming db ≡ ok db'
      → R db db'
  pub audit_run :
      (event : SyncAuditEvent) (db db' : Database)
      → record_audit_if_enabled context.tenant_id security event db ≡ ok db'
      → R db db'

module _ (debug_text : String → String) (security : SyncSecurity) (context : SyncContext)
    (R : Database → Database → Type 0) (closed : Closed security context R) where
  reject_server_cell-Closed :
      (key : Key) (incoming : CrdtColumn) (current : Option CrdtColumn) (kind : SyncRejectionKind)
      (reason : String) (w w' : ServerWorking)
      → reject_server_cell security context key incoming current kind reason w ≡ ok w'
      → R w.0 w'.0
  reject_server_cell-Closed key incoming current kind reason w w' h =
      let r =
        reject_server_cell-Rejected security context key incoming current kind reason w w' h in
      subst (λ (v : ServerWorking). R w.0 v.0) (sym r.result)
        (closed.audit_run r.event w.0 r.audited r.records)

  apply_server_cell-Closed :
      (key : Key) (incoming : CrdtColumn) (current : Option CrdtColumn) (w w' : ServerWorking)
      → apply_server_cell debug_text security context key incoming current w ≡ ok w'
      → R w.0 w'.0
  apply_server_cell-Closed key incoming current w w' h =
      let a = apply_server_cell-Applied debug_text security context key incoming current w w' h in
      subst (λ (v : ServerWorking). R w.0 v.0) (sym a.result)
        (closed.both_run w.0 a.written a.audited
          (if_written a.decision.0 key incoming w.0 a.written a.writes)
          (closed.audit_run a.event a.written a.audited a.records))
    where
      if_written :
          (b : Bool) (key : Key) (incoming : CrdtColumn) (db written : Database)
          → (if b then write_server_cell context key incoming db else ok db) ≡ ok written
          → R db written
      if_written true key incoming db written e = closed.write_run key incoming db written e
      if_written false key incoming db written e =
          subst (λ (d : Database). R db d) (ok-injective e) (closed.none_run db)

  authorize_server_cell-Closed :
      (key : Key) (incoming : CrdtColumn) (current : Option CrdtColumn) (w w' : ServerWorking)
      → authorize_server_cell debug_text security context key incoming current w ≡ ok w'
      → R w.0 w'.0
  authorize_server_cell-Closed key incoming current w w' h =
      elim (authorize_server_cell_cases debug_text security context key incoming current w w' h) [
        | inl (kind, reason, rejected) ↦
            reject_server_cell-Closed key incoming current kind reason w w' rejected
        | inr applied ↦ apply_server_cell-Closed key incoming current w w' applied
      ]

  merge_server_cell-Closed :
      (key : Key) (incoming : CrdtColumn) (w w' : ServerWorking)
      → merge_server_cell debug_text security context key incoming w ≡ ok w'
      → R w.0 w'.0
  unfolding merge_server_cell
  merge_server_cell-Closed key incoming w w' h =
      let (current, _, h₁) =
        bind-eq-ok (read_stored (get (context.tenant_id, key) w.0.cells)) _ h in
      authorize_server_cell-Closed key incoming current w w' h₁

  pub merge_server_columns-Closed :
      (todo_id : String) (columns : BTreeMap String CrdtColumn) (w w' : ServerWorking)
      → merge_server_columns debug_text security context todo_id columns w ≡ ok w'
      → R w.0 w'.0
  unfolding merge_server_columns
  merge_server_columns-Closed todo_id [] w w' h =
      subst (λ (v : ServerWorking). R w.0 v.0) (ok-injective h) (closed.none_run w.0)
  merge_server_columns-Closed todo_id ((column_name, incoming) ∷ columns) w w' h =
      let (v, first, rest) =
        bind-eq-ok (merge_server_cell debug_text security context (todo_id, column_name) incoming w)
          _ h in
      closed.both_run w.0 v.0 w'.0
        (merge_server_cell-Closed (todo_id, column_name) incoming w v first)
        (merge_server_columns-Closed todo_id columns v w' rest)

  pub merge_server_rows-Closed :
      (changes : List RowChange) (w w' : ServerWorking)
      → merge_server_rows debug_text security context changes w ≡ ok w'
      → R w.0 w'.0
  unfolding merge_server_rows
  merge_server_rows-Closed [] w w' h =
      subst (λ (v : ServerWorking). R w.0 v.0) (ok-injective h) (closed.none_run w.0)
  merge_server_rows-Closed (row ∷ changes) (db, rejections) w' h =
      let inserted = insert_row context.table context.tenant_id row.todo_id db in
      let (v, first, rest) =
        bind-eq-ok
          (merge_server_columns debug_text security context row.todo_id row.columns
            (inserted, rejections))
          _ h in
      closed.both_run db inserted w'.0 (closed.row_run row.todo_id db) (
        closed.both_run inserted v.0 w'.0
          (merge_server_columns-Closed row.todo_id row.columns (inserted, rejections) v first)
          (merge_server_rows-Closed changes v w' rest))
