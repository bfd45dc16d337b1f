-- ===== src/Postgres/Bare.antt =====
-- Every row of a payload is in the application table after the merge, whatever the hooks decide.
use loomabase.Base.{
  ℕ, String, ◌≡◌, refl, sym, ap, subst, ◌∙◌, inl, inr, Bool-cases, List, [], ◌∷◌, All, Option, none,
  some, arith, Option-cases,
}
use loomabase.Base.Int.{ℤ}
use loomabase.BTree.{BTreeMap, get, insert}
use loomabase.BTree.Lookup.{get-insert, get-insert_self}
use loomabase.Order.{Ord, is_eq}
use loomabase.Order.Pair.{pair_ord}
use loomabase.Order.Text.{text_ord}
use loomabase.Error.{Result, ok, bind-eq-ok, ok-injective}
use loomabase.Value.{CrdtColumn, CrdtValue, RowChange, SyncPayload}
use loomabase.Schema.{TableDef, column_type, synchronized_columns}
use loomabase.Validate.{Key}
use loomabase.Policy.{SyncContext, SyncSecurity, SyncAuditEvent, AuditMode, disabled, database}
use loomabase.Client.Codec.{clock_to_i64}
use loomabase.Postgres.{
  Database, AppRow, column_defaults, insert_row, bound_value, write_server_todo_column, nextval,
  upsert_server_cell, write_audit_event, stored_clock,
}
use loomabase.Postgres.Cell.{
  ServerWorking, record_audit_if_enabled, write_server_cell, merge_server_columns,
  merge_server_rows,
}
use loomabase.Postgres.Merge.{
  server_context, open_clock, set_clock, issued_cursor, renew_lease,
  merge_crdt_states_with_security,
}
use loomabase.Postgres.Loop.{Closed, merge_server_columns-Closed, merge_server_rows-Closed}
use loomabase.Postgres.Inversion.{merge_server-Accepted}

-- The tenant has the row.
abbrev pub HasRow : String → Database → String → Type 0
HasRow t db id = (row : AppRow) × (get (t, id) db.rows ≡ some row)

abbrev RowsStay : String → Database → Database → Type 0
RowsStay t db db' = (id : String) → HasRow t db id → HasRow t db' id

RowsStay-same : (t : String) (db db' : Database) → db'.rows ≡ db.rows → RowsStay t db db'
RowsStay-same t db db' e id (row, has) =
    (row, ap (λ (m : BTreeMap (String × String) AppRow). get (t, id) m) e ∙ has)

-- An insert keeps every row there.
insert-has :
    (t id : String) (k : String × String) (row : AppRow) (rows : BTreeMap (String × String) AppRow)
    → ((found : AppRow) × (get (t, id) rows ≡ some found))
    → (found : AppRow) × (get (t, id) (insert k row rows) ≡ some found)
insert-has t id k row rows (found, has) = elim (Bool-cases (is_eq (pairs.cmp (t, id) k))) [
  | inl same ↦ (row, ground (arith, get-insert (t, id) k row rows))
  | inr other ↦ (found, ground (arith, get-insert (t, id) k row rows))
]
  where
    pairs : Ord (String × String)
    pairs = pair_ord

module _ (context : SyncContext) where
  insert_row-HasRow :
      (id : String) (db : Database)
      → HasRow context.tenant_id (insert_row context.table context.tenant_id id db) id
  unfolding insert_row
  insert_row-HasRow id db = elim (Option-cases (get (context.tenant_id, id) db.rows)) [
    | inl missing ↦
        let defaults = column_defaults (synchronized_columns context.table) [] in
        (defaults, ground (arith, get-insert_self (context.tenant_id, id) defaults db.rows))
    | inr (row, there) ↦ (row, ground arith)
  ]

  insert_row-RowsStay :
      (todo_id : String) (db : Database)
      → RowsStay context.tenant_id db (insert_row context.table context.tenant_id todo_id db)
  unfolding insert_row
  insert_row-RowsStay todo_id db id has = go (get (context.tenant_id, todo_id) db.rows)
    where
      go :
          (found : Option AppRow)
          → (row : AppRow) × (get
                (context.tenant_id, id)
                (elim found [
                  | some row ↦ db.rows
                  | none ↦
                      insert
                        (context.tenant_id, todo_id)
                        (column_defaults (synchronized_columns context.table) [])
                        db.rows
                ])
              ≡ some row)
      go (some row) = has
      go none =
          insert-has context.tenant_id id (context.tenant_id, todo_id)
            (column_defaults (synchronized_columns context.table) []) db.rows has

  write_todo-RowsStay :
      (key : Key) (value : CrdtValue) (db db' : Database)
      → write_server_todo_column context.table context.tenant_id key value db ≡ ok db'
      → RowsStay context.tenant_id db db'
  unfolding write_server_todo_column
  write_todo-RowsStay key value db db' h id has =
      let (bound, _, h₁) = bind-eq-ok (bound_value (column_type context.table key.1) value) _ h in
      subst (λ (d : Database). HasRow context.tenant_id d id) (ok-injective h₁)
        (go bound (get (context.tenant_id, key.0) db.rows))
    where
      go :
          (bound : CrdtValue) (found : Option AppRow)
          → (row : AppRow) × (get
                (context.tenant_id, id)
                (elim found [
                  | none ↦ db.rows
                  | some row ↦ insert (context.tenant_id, key.0) (insert key.1 bound row) db.rows
                ])
              ≡ some row)
      go bound none = has
      go bound (some row) =
          insert-has context.tenant_id id (context.tenant_id, key.0) (insert key.1 bound row)
            db.rows has

  write_server_cell-RowsStay :
      (key : Key) (incoming : CrdtColumn) (db db' : Database)
      → write_server_cell context key incoming db ≡ ok db'
      → RowsStay context.tenant_id db db'
  unfolding write_server_cell upsert_server_cell
  write_server_cell-RowsStay key incoming db db' h id has =
      let (written, first, second) =
        bind-eq-ok (write_server_todo_column context.table context.tenant_id key incoming.value db)
          _ h in
      let (clock, _, h₁) = bind-eq-ok (clock_to_i64 incoming.metadata.lamport_clock) _ second in
      let (seq, _, h₂) = bind-eq-ok (nextval written.last_seq) _ h₁ in
      RowsStay-same context.tenant_id written db'
        (ap (λ (d : Database). d.rows) (sym (ok-injective h₂))) id
        (write_todo-RowsStay key incoming.value db written first id has)

  record_audit-RowsStay :
      (security : SyncSecurity) (event : SyncAuditEvent) (db db' : Database)
      → record_audit_if_enabled context.tenant_id security event db ≡ ok db'
      → RowsStay context.tenant_id db db'
  unfolding record_audit_if_enabled write_audit_event
  record_audit-RowsStay security event db db' h = go security.audit_mode h
    where
      go :
          (mode : AuditMode)
          → elim mode [ disabled ↦ ok db | database ↦ write_audit_event context.tenant_id event db ]
            ≡ ok db'
          → RowsStay context.tenant_id db db'
      go disabled e =
          RowsStay-same context.tenant_id db db'
            (ap (λ (d : Database). d.rows) (sym (ok-injective e)))
      go database e =
          let (incoming, _, h₁) =
            bind-eq-ok (clock_to_i64 event.incoming_metadata.lamport_clock) _ e in
          let (current, _, h₂) = bind-eq-ok (stored_clock event.current_metadata) _ h₁ in
          RowsStay-same context.tenant_id db db'
            (ap (λ (d : Database). d.rows) (sym (ok-injective h₂)))

  RowsStay-Closed : (security : SyncSecurity) → Closed security context (RowsStay context.tenant_id)
  RowsStay-Closed security = record {
    none_run = λ db id has. has;
    both_run = λ a b c p q id has. q id (p id has);
    row_run = insert_row-RowsStay;
    write_run = write_server_cell-RowsStay;
    audit_run = record_audit-RowsStay security;
  }

  merge_server_rows-HasRow :
      (debug_text : String → String) (security : SyncSecurity) (changes : List RowChange)
      (w w' : ServerWorking)
      → merge_server_rows debug_text security context changes w ≡ ok w'
      → All (λ (row : RowChange). HasRow context.tenant_id w'.0 row.todo_id) changes
  unfolding merge_server_rows
  merge_server_rows-HasRow debug_text security [] w w' h = tt
  merge_server_rows-HasRow debug_text security (row ∷ changes) (db, rejections) w' h =
      let inserted = insert_row context.table context.tenant_id row.todo_id db in
      let stay = RowsStay-Closed security in
      let (v, first, rest) =
        bind-eq-ok
          (merge_server_columns debug_text security context row.todo_id row.columns
            (inserted, rejections))
          _ h in
      (
        merge_server_rows-Closed debug_text security context (RowsStay context.tenant_id) stay
            changes v w' rest row.todo_id
            (merge_server_columns-Closed debug_text security context (RowsStay context.tenant_id)
              stay row.todo_id row.columns (inserted, rejections) v first row.todo_id
              (insert_row-HasRow row.todo_id db)),
        merge_server_rows-HasRow debug_text security changes v w' rest,
      )

outside-rows :
    (uuid : String) (now : ℕ) (t device : String) (table : TableDef) (cursor stored : ℤ)
    (db : Database)
    → (renew_lease uuid now t device table cursor (set_clock t stored db)).rows ≡ db.rows
unfolding renew_lease set_clock
outside-rows uuid now t device table cursor stored db = refl

-- After an accepted merge of the PostgreSQL server every row of the payload is in the application
-- table of the tenant, even where the hooks denied each of its cells.
pub merge_server-HasRow :
    (debug_text : String → String) (value_len : CrdtValue → Result ℕ) (uuid : String) (now : ℕ)
    (payload : SyncPayload) (device tenant_id : String) (table : TableDef) (security : SyncSecurity)
    (db db' : Database) (response : SyncPayload)
    → merge_crdt_states_with_security debug_text value_len uuid now payload device tenant_id table
        security db
      ≡ ok (db', response)
    → All (λ (row : RowChange). HasRow tenant_id db' row.todo_id) payload.changes
merge_server-HasRow debug_text value_len uuid now payload device tenant_id table security db db'
      response h =
    let a =
      merge_server-Accepted debug_text value_len uuid now payload device tenant_id table security db
        db' response h in
    let after : db'.rows ≡ a.merged.rows =
      ap (λ (d : Database). d.rows) a.state
      ∙ ap
          (λ (d : Database).
            (renew_lease uuid now tenant_id device table
              (issued_cursor tenant_id a.page a.before_page) d).rows)
          a.is_before_page
      ∙ outside-rows uuid now tenant_id device table (issued_cursor tenant_id a.page a.before_page)
          a.stored a.merged in
    subst
      (λ (m : BTreeMap (String × String) AppRow).
        All (λ (row : RowChange). (found : AppRow) × (get (tenant_id, row.todo_id) m ≡ some found))
          payload.changes)
      (sym after)
      (merge_server_rows-HasRow (server_context tenant_id device table) debug_text security
        payload.changes (open_clock tenant_id db, []) (a.merged, a.rejections) a.loop)
