-- ===== src/Postgres/Others.antt =====
-- What each statement of the merge loop leaves alone: the tables of the other tenants.
use loomabase.Base.{
  String, ◌≡◌, ◌≢◌, refl, ap, subst, ◌∙◌, List, [], ◌++◌, append_nil, append_assoc, All-append,
  Option, some, none, arith, All,
}
use loomabase.BTree.{BTreeMap, get, insert}
use loomabase.BTree.Lookup.{get-insert_other}
use loomabase.Order.{Ord}
use loomabase.Order.Pair.{pair_ord}
use loomabase.Order.Text.{text_ord}
use loomabase.Error.{ok, bind-eq-ok, ok-injective}
use loomabase.Value.{CrdtColumn, CrdtValue}
use loomabase.Schema.{column_type, synchronized_columns}
use loomabase.Validate.{Key}
use loomabase.Policy.{SyncContext, SyncSecurity, SyncAuditEvent, AuditMode, disabled, database}
use loomabase.Client.Codec.{clock_to_i64}
use loomabase.Postgres.{
  Database, AuditRow, AppRow, column_defaults, insert_row, write_server_todo_column,
  upsert_server_cell, nextval, bound_value, write_audit_event, stored_clock,
}
use loomabase.Postgres.Cell.{record_audit_if_enabled, write_server_cell}
use loomabase.Postgres.Loop.{Closed}

-- The rows that the log gained are all of the tenant.
pub record AuditAdds (tenant_id : String) (before after : List AuditRow) : Type 0 where
  pub added : List AuditRow
  pub appended : after ≡ before ++ added
  pub own : All (λ (row : AuditRow). row.tenant_id ≡ tenant_id) added

-- Every row of another tenant is as it was, in every table; so is the epoch.
pub record OthersKept (tenant_id : String) (db db' : Database) : Type 0 where
  pub clocks : (t : String) → t ≢ tenant_id → get t db'.clocks ≡ get t db.clocks
  pub rows : (t id : String) → t ≢ tenant_id → get (t, id) db'.rows ≡ get (t, id) db.rows
  pub cells : (t : String) (k : Key) → t ≢ tenant_id → get (t, k) db'.cells ≡ get (t, k) db.cells
  pub leases :
      (t : String) (k : String × String)
      → t ≢ tenant_id
      → get (t, k) db'.leases ≡ get (t, k) db.leases
  pub audit : AuditAdds tenant_id db.audit_log db'.audit_log
  pub epoch : db'.server_epoch ≡ db.server_epoch

pub AuditAdds-refl : (t : String) (log : List AuditRow) → AuditAdds t log log
AuditAdds-refl t log = record { added = []; appended = append_nil log; own = tt }

AuditAdds-trans :
    (t : String) (a b c : List AuditRow) → AuditAdds t a b → AuditAdds t b c → AuditAdds t a c
AuditAdds-trans t a b c p q = record {
  added = p.added ++ q.added;
  appended =
      q.appended
      ∙ ap (λ (log : List AuditRow). log ++ q.added) p.appended
      ∙ append_assoc a p.added q.added;
  own = All-append _ p.added q.added p.own q.own;
}

module _ (t : String) where
  pub OthersKept-refl : (db : Database) → OthersKept t db db
  OthersKept-refl db = record {
    clocks = λ u o. refl;
    rows = λ u id o. refl;
    cells = λ u k o. refl;
    leases = λ u k o. refl;
    audit = AuditAdds-refl t db.audit_log;
    epoch = refl;
  }

  pub OthersKept-trans : (a b c : Database) → OthersKept t a b → OthersKept t b c → OthersKept t a c
  OthersKept-trans a b c p q = record {
    clocks = λ u o. q.clocks u o ∙ p.clocks u o;
    rows = λ u id o. q.rows u id o ∙ p.rows u id o;
    cells = λ u k o. q.cells u k o ∙ p.cells u k o;
    leases = λ u k o. q.leases u k o ∙ p.leases u k o;
    audit = AuditAdds-trans t a.audit_log b.audit_log c.audit_log p.audit q.audit;
    epoch = q.epoch ∙ p.epoch;
  }

-- An insert at a key of the tenant leaves the keys of the others.
pub insert_others :
    {K V : Type 0} ⦃o : Ord K⦄ (t u : String) (k j : K) (v : V) (m : BTreeMap (String × K) V)
    → u ≢ t
    → get (u, j) (insert (t, k) v m) ≡ get (u, j) m
insert_others t u k j v m other =
    get-insert_other (u, j) (t, k) v m (λ e. other (ap (λ (p : String × _). p.0) e))

module _ (context : SyncContext) where
  insert_row-OthersKept :
      (todo_id : String) (db : Database)
      → OthersKept context.tenant_id db (insert_row context.table context.tenant_id todo_id db)
  unfolding insert_row
  insert_row-OthersKept todo_id db = record {
    clocks = λ u o. refl;
    rows = λ u id o. ground (
      arith,
      insert_others context.tenant_id u todo_id id
          (column_defaults (synchronized_columns context.table) []) db.rows o,
    );
    cells = λ u k o. refl;
    leases = λ u k o. refl;
    audit = AuditAdds-refl context.tenant_id db.audit_log;
    epoch = refl;
  }

  write_server_todo_column-OthersKept :
      (key : Key) (value : CrdtValue) (db db' : Database)
      → write_server_todo_column context.table context.tenant_id key value db ≡ ok db'
      → OthersKept context.tenant_id db db'
  unfolding write_server_todo_column
  write_server_todo_column-OthersKept key value db db' h =
      let (bound, _, h₁) = bind-eq-ok (bound_value (column_type context.table key.1) value) _ h in
      subst (OthersKept context.tenant_id db) (ok-injective h₁) (record {
        clocks = λ u o. refl;
        rows = λ u id o. at_row bound u id o (get (context.tenant_id, key.0) db.rows);
        cells = λ u k o. refl;
        leases = λ u k o. refl;
        audit = AuditAdds-refl context.tenant_id db.audit_log;
        epoch = refl;
      })
    where
      at_row :
          (bound : CrdtValue) (u id : String)
          → u ≢ context.tenant_id
          → (found : Option AppRow)
          → get
              (u, id)
              (elim found [
                | none ↦ db.rows
                | some row ↦ insert (context.tenant_id, key.0) (insert key.1 bound row) db.rows
              ])
            ≡ get (u, id) db.rows
      at_row bound u id o none = refl
      at_row bound u id o (some row) =
          insert_others context.tenant_id u key.0 id (insert key.1 bound row) db.rows o

  upsert_server_cell-OthersKept :
      (key : Key) (incoming : CrdtColumn) (db db' : Database)
      → upsert_server_cell context.tenant_id key incoming db ≡ ok db'
      → OthersKept context.tenant_id db db'
  unfolding upsert_server_cell
  upsert_server_cell-OthersKept key incoming db db' h =
      let (clock, _, h₁) = bind-eq-ok (clock_to_i64 incoming.metadata.lamport_clock) _ h in
      let (seq, _, h₂) = bind-eq-ok (nextval db.last_seq) _ h₁ in
      subst (OthersKept context.tenant_id db) (ok-injective h₂) (record {
        clocks = λ u o. refl;
        rows = λ u id o. refl;
        cells = λ u k o. insert_others context.tenant_id u key k _ db.cells o;
        leases = λ u k o. refl;
        audit = AuditAdds-refl context.tenant_id db.audit_log;
        epoch = refl;
      })

  write_server_cell-OthersKept :
      (key : Key) (incoming : CrdtColumn) (db db' : Database)
      → write_server_cell context key incoming db ≡ ok db'
      → OthersKept context.tenant_id db db'
  unfolding write_server_cell
  write_server_cell-OthersKept key incoming db db' h =
      let (written, first, second) =
        bind-eq-ok (write_server_todo_column context.table context.tenant_id key incoming.value db)
          _ h in
      OthersKept-trans context.tenant_id db written db'
        (write_server_todo_column-OthersKept key incoming.value db written first)
        (upsert_server_cell-OthersKept key incoming written db' second)

  write_audit_event-OthersKept :
      (event : SyncAuditEvent) (db db' : Database)
      → write_audit_event context.tenant_id event db ≡ ok db'
      → OthersKept context.tenant_id db db'
  unfolding write_audit_event
  write_audit_event-OthersKept event db db' h =
      let (incoming, _, h₁) = bind-eq-ok (clock_to_i64 event.incoming_metadata.lamport_clock) _ h in
      let (current, _, h₂) = bind-eq-ok (stored_clock event.current_metadata) _ h₁ in
      subst (OthersKept context.tenant_id db) (ok-injective h₂) (record {
        clocks = λ u o. refl;
        rows = λ u id o. refl;
        cells = λ u k o. refl;
        leases = λ u k o. refl;
        audit = record { added = _; appended = refl; own = (refl, tt) };
        epoch = refl;
      })

  record_audit-OthersKept :
      (security : SyncSecurity) (event : SyncAuditEvent) (db db' : Database)
      → record_audit_if_enabled context.tenant_id security event db ≡ ok db'
      → OthersKept context.tenant_id db db'
  unfolding record_audit_if_enabled
  record_audit-OthersKept security event db db' h = go security.audit_mode h
    where
      go :
          (mode : AuditMode)
          → elim mode [ disabled ↦ ok db | database ↦ write_audit_event context.tenant_id event db ]
            ≡ ok db'
          → OthersKept context.tenant_id db db'
      go disabled e =
          subst (OthersKept context.tenant_id db) (ok-injective e)
            (OthersKept-refl context.tenant_id db)
      go database e = write_audit_event-OthersKept event db db' e

  pub OthersKept-Closed :
      (security : SyncSecurity) → Closed security context (OthersKept context.tenant_id)
  OthersKept-Closed security = record {
    none_run = OthersKept-refl context.tenant_id;
    both_run = OthersKept-trans context.tenant_id;
    row_run = insert_row-OthersKept;
    write_run = write_server_cell-OthersKept;
    audit_run = record_audit-OthersKept security;
  }
