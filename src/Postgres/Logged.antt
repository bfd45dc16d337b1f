-- ===== src/Postgres/Logged.antt =====
-- The merge loop writes one audit row for every cell.
use loomabase.Base.{
  ℕ, String, ◌≡◌, refl, sym, ap, subst, ◌∙◌, inl, inr, List, [], ◌∷◌, ◌++◌, Option, Bool, true,
  false, if◌then◌else◌,
}
use loomabase.Base.Int.{ℤ}
use loomabase.BTree.{BTreeMap, get}
use loomabase.Order.Pair.{pair_ord}
use loomabase.Order.Text.{text_ord}
use loomabase.Error.{Result, ok, bind-eq-ok, ok-injective}
use loomabase.Value.{CrdtColumn, CrdtValue, RowChange, SyncPayload, SyncRejectionKind}
use loomabase.Schema.{TableDef}
use loomabase.Validate.{Key}
use loomabase.Explain.{explain_lww}
use loomabase.Policy.{SyncContext, SyncSecurity, AuditMode, disabled, database}
use loomabase.Merge.Advance.{Entries, row_entries, entries}
use loomabase.Postgres.{Database, AuditRow, read_stored, insert_row}
use loomabase.Postgres.Cell.{
  ServerWorking, rejection_audit_outcome, write_server_cell, reject_server_cell, apply_server_cell,
  merge_server_cell, merge_server_columns, merge_server_rows,
}
use loomabase.Postgres.Merge.{
  server_context, open_clock, set_clock, issued_cursor, renew_lease,
  merge_crdt_states_with_security,
}
use loomabase.Postgres.Steps.{
  reject_server_cell-Rejected, apply_server_cell-Applied, authorize_server_cell_cases,
}
use loomabase.Postgres.Audit.{
  Audits, Audits-none, Audits-append, audited_entries, audited_entries-append, new_event-Names,
  record_audit-Audits, write_server_cell-audit_log,
}
use loomabase.Postgres.Inversion.{merge_server-Accepted}

module _ (debug_text : String → String) (security : SyncSecurity) (context : SyncContext) where
  -- The cells are recorded, as far as the mode says so.
  abbrev Logged : Entries → ServerWorking → ServerWorking → Type 0
  Logged es w w' =
      Audits context.tenant_id (audited_entries security.audit_mode es) w.0.audit_log w'.0.audit_log

  Logged-append :
      (es fs : Entries) (u v w : ServerWorking)
      → Logged es u v
      → Logged fs v w
      → Logged (es ++ fs) u w
  Logged-append es fs u v w p q =
      subst (λ (xs : Entries). Audits context.tenant_id xs u.0.audit_log w.0.audit_log)
        (audited_entries-append security.audit_mode es fs)
        (Audits-append context.tenant_id (audited_entries security.audit_mode es)
          (audited_entries security.audit_mode fs) u.0.audit_log v.0.audit_log w.0.audit_log p q)

  rejected-Logged :
      (key : Key) (incoming : CrdtColumn) (current : Option CrdtColumn) (kind : SyncRejectionKind)
      (reason : String) (w w' : ServerWorking)
      → reject_server_cell security context key incoming current kind reason w ≡ ok w'
      → Logged ((key, incoming) ∷ []) w w'
  rejected-Logged key incoming current kind reason w w' h =
      let r =
        reject_server_cell-Rejected security context key incoming current kind reason w w' h in
      subst (λ (v : ServerWorking). Logged ((key, incoming) ∷ []) w v) (sym r.result)
        (record_audit-Audits security context key incoming r.event w.0 r.audited
          (new_event-Names context key incoming current (rejection_audit_outcome kind) reason
            r.event r.reports)
          r.records)

  applied-Logged :
      (key : Key) (incoming : CrdtColumn) (current : Option CrdtColumn) (w w' : ServerWorking)
      → apply_server_cell debug_text security context key incoming current w ≡ ok w'
      → Logged ((key, incoming) ∷ []) w w'
  applied-Logged key incoming current w w' h =
      let a = apply_server_cell-Applied debug_text security context key incoming current w w' h in
      let kept = if_written a.decision.0 key incoming w.0 a.written a.writes in
      subst (λ (v : ServerWorking). Logged ((key, incoming) ∷ []) w v) (sym a.result)
        (subst
          (λ (log : List AuditRow).
            Audits context.tenant_id (audited_entries security.audit_mode ((key, incoming) ∷ []))
              log a.audited.audit_log)
          kept
          (record_audit-Audits security context key incoming a.event a.written a.audited
            (new_event-Names context key incoming current a.decision.1
              (explain_lww debug_text current incoming).summary a.event a.reports)
            a.records))
    where
      if_written :
          (b : Bool) (key : Key) (incoming : CrdtColumn) (db written : Database)
          → (if b then write_server_cell context key incoming db else ok db) ≡ ok written
          → written.audit_log ≡ db.audit_log
      if_written true key incoming db written e =
          write_server_cell-audit_log security context key incoming db written e
      if_written false key incoming db written e =
          ap (λ (d : Database). d.audit_log) (sym (ok-injective e))

  merge_server_cell-Logged :
      (key : Key) (incoming : CrdtColumn) (w w' : ServerWorking)
      → merge_server_cell debug_text security context key incoming w ≡ ok w'
      → Logged ((key, incoming) ∷ []) w w'
  unfolding merge_server_cell
  merge_server_cell-Logged key incoming w w' h =
      let (current, _, h₁) =
        bind-eq-ok (read_stored (get (context.tenant_id, key) w.0.cells)) _ h in
      elim (authorize_server_cell_cases debug_text security context key incoming current w w' h₁) [
        | inl (kind, reason, rejected) ↦
            rejected-Logged key incoming current kind reason w w' rejected
        | inr applied ↦ applied-Logged key incoming current w w' applied
      ]

  nothing-Logged : (w w' : ServerWorking) → ok w ≡ ok w' → Logged [] w w'
  nothing-Logged w w' h =
      subst (λ (xs : Entries). Audits context.tenant_id xs w.0.audit_log w'.0.audit_log)
        (none_audited security.audit_mode)
        (Audits-none context.tenant_id w.0.audit_log w'.0.audit_log
          (ap (λ (v : ServerWorking). v.0.audit_log) (sym (ok-injective h))))
    where
      none_audited : (mode : AuditMode) → [] ≡ audited_entries mode []
      none_audited disabled = refl
      none_audited database = refl

  merge_server_columns-Logged :
      (todo_id : String) (columns : BTreeMap String CrdtColumn) (w w' : ServerWorking)
      → merge_server_columns debug_text security context todo_id columns w ≡ ok w'
      → Logged (row_entries todo_id columns) w w'
  unfolding merge_server_columns
  merge_server_columns-Logged todo_id [] w w' h = nothing-Logged w w' h
  merge_server_columns-Logged todo_id ((column_name, incoming) ∷ columns) w w' h =
      let key : Key = (todo_id, column_name) in
      let (v, first, rest) =
        bind-eq-ok (merge_server_cell debug_text security context key incoming w) _ h in
      Logged-append ((key, incoming) ∷ []) (row_entries todo_id columns) w v w'
        (merge_server_cell-Logged key incoming w v first)
        (merge_server_columns-Logged todo_id columns v w' rest)

  merge_server_rows-Logged :
      (changes : List RowChange) (w w' : ServerWorking)
      → merge_server_rows debug_text security context changes w ≡ ok w'
      → Logged (entries changes) w w'
  unfolding merge_server_rows insert_row
  merge_server_rows-Logged [] w w' h = nothing-Logged w w' h
  merge_server_rows-Logged (row ∷ changes) (db, rejections) w' h =
      let inserted : ServerWorking =
        (insert_row context.table context.tenant_id row.todo_id db, rejections) in
      let (v, first, rest) =
        bind-eq-ok
          (merge_server_columns debug_text security context row.todo_id row.columns inserted) _ h in
      Logged-append (row_entries row.todo_id row.columns) (entries changes) (db, rejections) v w'
        (merge_server_columns-Logged row.todo_id row.columns inserted v first)
        (merge_server_rows-Logged changes v w' rest)

open_clock-audit_log : (t : String) (db : Database) → (open_clock t db).audit_log ≡ db.audit_log
unfolding open_clock set_clock
open_clock-audit_log t db = refl

set_clock-audit_log :
    (t : String) (z : ℤ) (db : Database) → (set_clock t z db).audit_log ≡ db.audit_log
unfolding set_clock
set_clock-audit_log t z db = refl

renew_lease-audit_log :
    (uuid : String) (now : ℕ) (t device : String) (table : TableDef) (cursor : ℤ) (db : Database)
    → (renew_lease uuid now t device table cursor db).audit_log ≡ db.audit_log
unfolding renew_lease
renew_lease-audit_log uuid now t device table cursor db = refl

-- Where the audit mode is the database, an accepted merge appends to the audit log one row for
-- each cell of the payload, applied or not, in the order of the payload, under the tenant, with
-- the key, the value and the version of the cell; where it is disabled, the log stays as it is.
pub merge_server-Audits :
    (debug_text : String → String) (value_len : CrdtValue → Result ℕ) (uuid : String) (now : ℕ)
    (payload : SyncPayload) (device tenant_id : String) (table : TableDef) (security : SyncSecurity)
    (db db' : Database) (response : SyncPayload)
    → merge_crdt_states_with_security debug_text value_len uuid now payload device tenant_id table
        security db
      ≡ ok (db', response)
    → Audits tenant_id
        (audited_entries security.audit_mode (entries payload.changes))
        db.audit_log
        db'.audit_log
merge_server-Audits debug_text value_len uuid now payload device tenant_id table security db db'
      response h =
    let a =
      merge_server-Accepted debug_text value_len uuid now payload device tenant_id table security db
        db' response h in
    let context = server_context tenant_id device table in
    let after : db'.audit_log ≡ a.merged.audit_log =
      ap (λ (d : Database). d.audit_log) a.state
      ∙ renew_lease-audit_log uuid now tenant_id device table
          (issued_cursor tenant_id a.page a.before_page) a.before_page
      ∙ ap (λ (d : Database). d.audit_log) a.is_before_page
      ∙ set_clock-audit_log tenant_id a.stored a.merged in
    subst
      (λ (log : List AuditRow).
        Audits tenant_id (audited_entries security.audit_mode (entries payload.changes))
          db.audit_log log)
      (sym after)
      (subst
        (λ (log : List AuditRow).
          Audits tenant_id (audited_entries security.audit_mode (entries payload.changes)) log
            a.merged.audit_log)
        (open_clock-audit_log tenant_id db)
        (merge_server_rows-Logged debug_text security context payload.changes
          (open_clock tenant_id db, []) (a.merged, a.rejections) a.loop))
