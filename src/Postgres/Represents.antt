-- ===== src/Postgres/Represents.antt =====
-- The rows of one tenant stand for a state of the reference server, and each round of a cell keeps
-- them so.
use loomabase.Base.{
  ℕ, String, false, ◌≡◌, ◌≢◌, refl, sym, ap, subst, ◌∙◌, inl, inr, some, Bool-cases, arith,
}
use loomabase.Base.Int.{ℤ}
use loomabase.BTree.{BTreeMap, get, insert}
use loomabase.BTree.Lookup.{get-insert_self, get-insert_other}
use loomabase.Order.{Ord, is_eq, cmp_refl}
use loomabase.Order.Pair.{pair_ord}
use loomabase.Order.Text.{text_ord}
use loomabase.Error.{ok, bind-eq-ok, ok-injective}
use loomabase.Value.{CrdtColumn, CrdtValue}
use loomabase.Schema.{TableDef, column_type}
use loomabase.Validate.{Key}
use loomabase.Policy.{SyncContext, SyncSecurity, SyncAuditEvent, AuditMode, disabled, database}
use loomabase.Merge.{CrdtState, write_cell}
use loomabase.Merge.Join.{get-write_cell}
use loomabase.Client.Codec.{clock_from_i64, clock_to_i64}
use loomabase.Postgres.{
  Database, StoredCell, read_stored, insert_row, bound_value, write_server_todo_column,
  upsert_server_cell, nextval, write_audit_event, stored_clock,
}
use loomabase.Postgres.Cell.{record_audit_if_enabled, write_server_cell}

abbrev keys : Ord Key
keys = pair_ord

-- The tenant's cells, read back, are the cells of the reference state.
abbrev pub CellsStand : String → Database → CrdtState → Type 0
CellsStand tenant_id db s =
    (k : Key) → read_stored (get (tenant_id, k) db.cells) ≡ ok (get k s.cells)

pub CellsStand-cells :
    (t : String) (db db' : Database) (s : CrdtState)
    → db'.cells ≡ db.cells
    → CellsStand t db s
    → CellsStand t db' s
CellsStand-cells t db db' s e stand k =
    subst (λ (m : BTreeMap (String × Key) _). read_stored (get (t, k) m) ≡ ok (get k s.cells))
      (sym e) (stand k)

pub insert_row-cells :
    (table : TableDef) (t id : String) (db : Database) → (insert_row table t id db).cells ≡ db.cells
unfolding insert_row
insert_row-cells table t id db = refl

pub record_audit-cells :
    (t : String) (security : SyncSecurity) (event : SyncAuditEvent) (db db' : Database)
    → record_audit_if_enabled t security event db ≡ ok db'
    → db'.cells ≡ db.cells
unfolding record_audit_if_enabled write_audit_event
record_audit-cells t security event db db' h = go security.audit_mode h
  where
    go :
        (mode : AuditMode)
        → elim mode [ disabled ↦ ok db | database ↦ write_audit_event t event db ] ≡ ok db'
        → db'.cells ≡ db.cells
    go disabled e = ap (λ (d : Database). d.cells) (sym (ok-injective e))
    go database e =
        let (incoming, _, h₁) =
          bind-eq-ok (clock_to_i64 event.incoming_metadata.lamport_clock) _ e in
        let (current, _, h₂) = bind-eq-ok (stored_clock event.current_metadata) _ h₁ in
        ap (λ (d : Database). d.cells) (sym (ok-injective h₂))

-- A stored clock reads back as itself.
pub clock_from-to : (n : ℕ) (z : ℤ) → clock_to_i64 n ≡ ok z → clock_from_i64 z ≡ ok n
unfolding clock_to_i64 clock_from_i64
clock_from-to n z h = ground arith

write_todo-cells :
    (context : SyncContext) (key : Key) (value : CrdtValue) (db db' : Database)
    → write_server_todo_column context.table context.tenant_id key value db ≡ ok db'
    → db'.cells ≡ db.cells
unfolding write_server_todo_column
write_todo-cells context key value db db' h =
    let (bound, _, h₁) = bind-eq-ok (bound_value (column_type context.table key.1) value) _ h in
    ap (λ (d : Database). d.cells) (sym (ok-injective h₁))

-- The upsert stores a cell that reads back as the column.
record UpsertedAt (t : String) (key : Key) (incoming : CrdtColumn) (db db' : Database)
    : Type 0 where
  cell : StoredCell
  inserted : db'.cells ≡ insert (t, key) cell db.cells
  reads_back : read_stored (some cell) ≡ ok (some incoming)

upsert_server_cell-UpsertedAt :
    (t : String) (key : Key) (incoming : CrdtColumn) (db db' : Database)
    → upsert_server_cell t key incoming db ≡ ok db'
    → UpsertedAt t key incoming db db'
unfolding upsert_server_cell read_stored
upsert_server_cell-UpsertedAt t key incoming db db' h =
    let (clock, is_clock, h₁) = bind-eq-ok (clock_to_i64 incoming.metadata.lamport_clock) _ h in
    let (seq, _, h₂) = bind-eq-ok (nextval db.last_seq) _ h₁ in
    record {
      cell = record {
        value = incoming.value;
        lamport_clock = clock;
        device_id = incoming.metadata.device_id;
        seq = seq;
      };
      inserted = ap (λ (d : Database). d.cells) (sym (ok-injective h₂));
      reads_back = rw (clock_from-to incoming.metadata.lamport_clock clock is_clock);
    }

pub write_server_cell-CellsStand :
    (context : SyncContext) (key : Key) (incoming : CrdtColumn) (db db' : Database) (s : CrdtState)
    → write_server_cell context key incoming db ≡ ok db'
    → CellsStand context.tenant_id db s
    → CellsStand context.tenant_id db' (write_cell key incoming s)
unfolding write_server_cell
write_server_cell-CellsStand context key incoming db db' s h stand k =
    let t = context.tenant_id in
    let (written, wrote, h₁) =
      bind-eq-ok (write_server_todo_column context.table t key incoming.value db) _ h in
    let u = upsert_server_cell-UpsertedAt t key incoming written db' h₁ in
    let same = write_todo-cells context key incoming.value db written wrote in
    let here : get (t, k) db'.cells ≡ get (t, k) (insert (t, key) u.cell db.cells) =
      ap (get (t, k)) (u.inserted ∙ ap (insert (t, key) u.cell) same) in
    elim (Bool-cases (is_eq (keys.cmp k key))) [
      | inl at_key ↦
          let e : k ≡ key = keys.identical k key (ground arith) in
          ap read_stored (here ∙ ap (λ (j : Key). get (t, j) (insert (t, key) u.cell db.cells)) e)
          ∙ ap read_stored (get-insert_self (t, key) u.cell db.cells)
          ∙ u.reads_back
          ∙ sym (ground (arith, get-write_cell k key incoming s))
      | inr elsewhere ↦
          ap read_stored (
            here
            ∙ get-insert_other (t, k) (t, key) u.cell db.cells
                (λ same_pair.
                  key_differs k key elsewhere (ap (λ (q : String × Key). q.1) same_pair)))
          ∙ stand k
          ∙ ap ok (sym (ground (arith, get-write_cell k key incoming s)))
    ]
  where
    key_differs : (k key : Key) → is_eq (keys.cmp k key) ≡ false → k ≢ key
    key_differs k key differs e =
        ground
          (arith, cmp_refl k, subst (λ (q : Key). is_eq (keys.cmp k q) ≡ false) (sym e) differs)
