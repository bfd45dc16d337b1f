-- ===== src/Postgres/Isolation.antt =====
-- A merge touches the tables of its own tenant only.
use loomabase.Base.{ℕ, String, ◌≡◌, refl, sym, subst, []}
use loomabase.Base.Int.{ℤ}
use loomabase.BTree.Lookup.{get-insert_other}
use loomabase.Order.Pair.{pair_ord}
use loomabase.Order.Text.{text_ord}
use loomabase.Error.{Result, ok}
use loomabase.Value.{CrdtValue, SyncPayload}
use loomabase.Schema.{TableDef, crdt_table}
use loomabase.Policy.{SyncSecurity}
use loomabase.Postgres.{Database}
use loomabase.Postgres.Merge.{
  server_context, open_clock, set_clock, stored_clock_of, renew_lease,
  merge_crdt_states_with_security,
}
use loomabase.Postgres.Others.{
  AuditAdds-refl, OthersKept, OthersKept-trans, OthersKept-Closed, insert_others,
}
use loomabase.Postgres.Loop.{merge_server_rows-Closed}
use loomabase.Postgres.Inversion.{merge_server-Accepted}

module _ (t : String) where
  set_clock-OthersKept : (clock : ℤ) (db : Database) → OthersKept t db (set_clock t clock db)
  unfolding set_clock
  set_clock-OthersKept clock db = record {
    clocks = λ u o. get-insert_other u t clock db.clocks o;
    rows = λ u id o. refl;
    cells = λ u k o. refl;
    leases = λ u k o. refl;
    audit = AuditAdds-refl t db.audit_log;
    epoch = refl;
  }

  open_clock-OthersKept : (db : Database) → OthersKept t db (open_clock t db)
  unfolding open_clock
  open_clock-OthersKept db = set_clock-OthersKept (stored_clock_of t db.clocks) db

  renew_lease-OthersKept :
      (uuid : String) (now : ℕ) (device : String) (table : TableDef) (cursor : ℤ) (db : Database)
      → OthersKept t db (renew_lease uuid now t device table cursor db)
  unfolding renew_lease
  renew_lease-OthersKept uuid now device table cursor db = record {
    clocks = λ u o. refl;
    rows = λ u id o. refl;
    cells = λ u k o. refl;
    leases = λ u k o. insert_others t u (device, crdt_table table) k _ db.leases o;
    audit = AuditAdds-refl t db.audit_log;
    epoch = refl;
  }

-- An accepted merge of the PostgreSQL server for a tenant leaves every clock, application row,
-- cell and lease of every other tenant as it was, keeps the server epoch, and adds to the audit
-- log only rows of its own tenant.
pub merge_server-OthersKept :
    (debug_text : String → String) (value_len : CrdtValue → Result ℕ) (uuid : String) (now : ℕ)
    (payload : SyncPayload) (device tenant_id : String) (table : TableDef) (security : SyncSecurity)
    (db db' : Database) (response : SyncPayload)
    → merge_crdt_states_with_security debug_text value_len uuid now payload device tenant_id table
        security db
      ≡ ok (db', response)
    → OthersKept tenant_id db db'
merge_server-OthersKept debug_text value_len uuid now payload device tenant_id table security db db'
      response h =
    let a =
      merge_server-Accepted debug_text value_len uuid now payload device tenant_id table security db
        db' response h in
    let context = server_context tenant_id device table in
    subst (OthersKept tenant_id db) (sym a.state) (
      OthersKept-trans tenant_id db a.before_page _
        (subst (OthersKept tenant_id db) (sym a.is_before_page) (
          OthersKept-trans tenant_id db (open_clock tenant_id db) _
            (open_clock-OthersKept tenant_id db)
            (OthersKept-trans tenant_id (open_clock tenant_id db) a.merged _
              (merge_server_rows-Closed debug_text security context (OthersKept tenant_id)
                (OthersKept-Closed context security) payload.changes (open_clock tenant_id db, [])
                (a.merged, a.rejections) a.loop)
              (set_clock-OthersKept tenant_id a.stored a.merged))))
        (renew_lease-OthersKept tenant_id uuid now device table _ a.before_page))
