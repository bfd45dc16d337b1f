-- ===== src/Postgres/Audit.antt =====
-- The audit log of the PostgreSQL server: one row for every cell of a payload, in its order.
use loomabase.Base.{
  ℕ, String, ◌≡◌, refl, sym, ap, subst, ◌∙◌, List, [], ◌∷◌, ◌++◌, map, append_nil, append_assoc,
  Option, arith,
}
use loomabase.Base.Int.{ℤ, pos}
use loomabase.Order.Pair.{pair_ord}
use loomabase.Order.Text.{text_ord}
use loomabase.Error.{ok, bind-eq-ok, then-eq-ok, ok-injective}
use loomabase.Value.{ColumnMetadata, CrdtColumn, CrdtValue}
use loomabase.Schema.{column_type}
use loomabase.Validate.{Key}
use loomabase.Validate.Cell.{validate_identifier, validate_rejection_reason}
use loomabase.Policy.{
  SyncContext, SyncSecurity, SyncAuditEvent, SyncAuditOutcome, AuditMode, disabled, database,
  new_event,
}
use loomabase.Merge.{mutation_of}
use loomabase.Merge.Advance.{Entries}
use loomabase.Client.Codec.{clock_to_i64}
use loomabase.Postgres.{
  Database, AuditRow, bound_value, write_server_todo_column, nextval, upsert_server_cell,
  write_audit_event, stored_clock,
}
use loomabase.Postgres.Cell.{record_audit_if_enabled, write_server_cell}

-- What an audit row says of the cell that came in.
pub record Incoming : Type 0 where
  pub tenant_id : String
  pub key : Key
  pub value : CrdtValue
  pub lamport_clock : ℤ
  pub device_id : String

abbrev incoming_of : AuditRow → Incoming
incoming_of row = record {
  tenant_id = row.tenant_id;
  key = (row.todo_id, row.column_name);
  value = row.incoming_value;
  lamport_clock = row.incoming_lamport;
  device_id = row.incoming_device_id;
}

abbrev offered_of : String → Key × CrdtColumn → Incoming
offered_of t (key, cell) = record {
  tenant_id = t;
  key = key;
  value = cell.value;
  lamport_clock = pos cell.metadata.lamport_clock;
  device_id = cell.metadata.device_id;
}

-- The cells that the mode records.
abbrev pub audited_entries : AuditMode → Entries → Entries
audited_entries disabled es = []
audited_entries database es = es

-- The log gained one row for each of these cells, in their order.
pub record Audits (t : String) (es : Entries) (before after : List AuditRow) : Type 0 where
  pub added : List AuditRow
  pub appended : after ≡ before ++ added
  pub describes : map incoming_of added ≡ map (offered_of t) es

map-append : {A B : Type 0} (f : A → B) (xs ys : List A) → map f (xs ++ ys) ≡ map f xs ++ map f ys
map-append f [] ys = refl
map-append {B} f (x ∷ xs) ys = ap (λ (zs : List B). f x ∷ zs) (map-append f xs ys)

module _ (t : String) where
  pub Audits-none : (before after : List AuditRow) → after ≡ before → Audits t [] before after
  Audits-none before after e = record {
    added = [];
    appended = e ∙ append_nil before;
    describes = refl;
  }

  pub Audits-append :
      (es fs : Entries) (a b c : List AuditRow)
      → Audits t es a b
      → Audits t fs b c
      → Audits t (es ++ fs) a c
  Audits-append es fs a b c p q = record {
    added = p.added ++ q.added;
    appended =
        q.appended
        ∙ ap (λ (log : List AuditRow). log ++ q.added) p.appended
        ∙ append_assoc a p.added q.added;
    describes =
        map-append incoming_of p.added q.added
        ∙ ap (λ (xs : List Incoming). xs ++ map incoming_of q.added) p.describes
        ∙ ap (λ (xs : List Incoming). map (offered_of t) es ++ xs) q.describes
        ∙ sym (map-append (offered_of t) es fs);
  }

pub audited_entries-append :
    (mode : AuditMode) (es fs : Entries)
    → audited_entries mode es ++ audited_entries mode fs ≡ audited_entries mode (es ++ fs)
audited_entries-append disabled es fs = refl
audited_entries-append database es fs = refl

-- An event names the cell that it was made from.
pub record Names (key : Key) (incoming : CrdtColumn) (event : SyncAuditEvent) : Type 0 where
  same_key : (event.todo_id, event.column_name) ≡ key
  same_value : event.incoming_value ≡ incoming.value
  same_metadata : event.incoming_metadata ≡ incoming.metadata

pub new_event-Names :
    (context : SyncContext) (key : Key) (incoming : CrdtColumn) (current : Option CrdtColumn)
    (outcome : SyncAuditOutcome) (reason : String) (event : SyncAuditEvent)
    → new_event context (mutation_of key incoming) current outcome reason ≡ ok event
    → Names key incoming event
unfolding new_event
new_event-Names context (todo_id, column_name) incoming current outcome reason event h =
    let mutation = mutation_of (todo_id, column_name) incoming in
    let (_, h₁) = then-eq-ok (validate_identifier "audit.table_name" context.table.name) _ h in
    let (_, h₂) = then-eq-ok (validate_identifier "audit.todo_id" mutation.todo_id) _ h₁ in
    let (_, h₃) = then-eq-ok (validate_identifier "audit.column_name" mutation.column_name) _ h₂ in
    let (_, h₄) =
      then-eq-ok (validate_identifier "audit.incoming_device_id" mutation.metadata.device_id) _
        h₃ in
    let (_, h₅) = then-eq-ok (validate_rejection_reason reason) _ h₄ in
    subst (Names (todo_id, column_name) incoming) (ok-injective h₅)
      (record { same_key = refl; same_value = refl; same_metadata = refl })

clock_to_i64_lem : (n : ℕ) (z : ℤ) → clock_to_i64 n ≡ ok z → z ≡ pos n
unfolding clock_to_i64
clock_to_i64_lem n z h = ground arith

write_audit_event-Audits :
    (t : String) (key : Key) (incoming : CrdtColumn) (event : SyncAuditEvent) (db db' : Database)
    → Names key incoming event
    → write_audit_event t event db ≡ ok db'
    → Audits t ((key, incoming) ∷ []) db.audit_log db'.audit_log
unfolding write_audit_event
write_audit_event-Audits t key incoming event db db' names h =
    let (clock, is_clock, h₁) =
      bind-eq-ok (clock_to_i64 event.incoming_metadata.lamport_clock) _ h in
    let (current, _, h₂) = bind-eq-ok (stored_clock event.current_metadata) _ h₁ in
    let z = clock_to_i64_lem event.incoming_metadata.lamport_clock clock is_clock in
    subst (λ (d : Database). Audits t ((key, incoming) ∷ []) db.audit_log d.audit_log)
      (ok-injective h₂)
      (record {
        added = _;
        appended = refl;
        describes = λ i.
            record {
              tenant_id = t;
              key = names.same_key i;
              value = names.same_value i;
              lamport_clock =
                  (z ∙ ap (λ (m : ColumnMetadata). pos m.lamport_clock) names.same_metadata) i;
              device_id = (names.same_metadata i).device_id;
            }
            ∷ [];
      })

module _ (security : SyncSecurity) (context : SyncContext) where
  pub record_audit-Audits :
      (key : Key) (incoming : CrdtColumn) (event : SyncAuditEvent) (db db' : Database)
      → Names key incoming event
      → record_audit_if_enabled context.tenant_id security event db ≡ ok db'
      → Audits context.tenant_id
          (audited_entries security.audit_mode ((key, incoming) ∷ []))
          db.audit_log
          db'.audit_log
  unfolding record_audit_if_enabled
  record_audit-Audits key incoming event db db' names h = go security.audit_mode h
    where
      go :
          (mode : AuditMode)
          → elim mode [ disabled ↦ ok db | database ↦ write_audit_event context.tenant_id event db ]
            ≡ ok db'
          → Audits context.tenant_id
              (audited_entries mode ((key, incoming) ∷ []))
              db.audit_log
              db'.audit_log
      go disabled e =
          Audits-none context.tenant_id db.audit_log db'.audit_log
            (ap (λ (d : Database). d.audit_log) (sym (ok-injective e)))
      go database e = write_audit_event-Audits context.tenant_id key incoming event db db' names e

  pub write_server_cell-audit_log :
      (key : Key) (incoming : CrdtColumn) (db db' : Database)
      → write_server_cell context key incoming db ≡ ok db'
      → db'.audit_log ≡ db.audit_log
  unfolding write_server_cell write_server_todo_column upsert_server_cell
  write_server_cell-audit_log key incoming db db' h =
      let (written, first, second) =
        bind-eq-ok (write_server_todo_column context.table context.tenant_id key incoming.value db)
          _ h in
      let (bound, _, first₁) =
        bind-eq-ok (bound_value (column_type context.table key.1) incoming.value) _ first in
      let (clock, _, second₁) =
        bind-eq-ok (clock_to_i64 incoming.metadata.lamport_clock) _ second in
      let (seq, _, second₂) = bind-eq-ok (nextval written.last_seq) _ second₁ in
      ap (λ (d : Database). d.audit_log) (sym (ok-injective second₂))
      ∙ ap (λ (d : Database). d.audit_log) (sym (ok-injective first₁))
