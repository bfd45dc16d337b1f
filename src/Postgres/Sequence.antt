-- ===== src/Postgres/Sequence.antt =====
-- The numbers of a tenant's cells only grow, and the merge loop leaves leases and epoch alone.
use package.text.Mathlib.Text.{◌==◌ as str_eq}
use text.Mathlib.TextEquality.{eq_iff}
use loomabase.Base.{
  ℕ, String, true, ◌≡◌, ◌≤◌, ◌+◌, max, refl, ap, subst, ◌∙◌, inl, inr, Ordering-cases, [], ◌∷◌,
  arith, if◌then◌else◌,
}
use loomabase.BTree.{BTreeMap, insert}
use loomabase.Order.{Ord}
use loomabase.Order.Pair.{pair_ord}
use loomabase.Order.Text.{text_ord}
use loomabase.Error.{ok, bind-eq-ok, ok-injective}
use loomabase.Value.{CrdtColumn, CrdtValue}
use loomabase.Schema.{column_type}
use loomabase.Validate.{Key}
use loomabase.Policy.{SyncContext, SyncSecurity, SyncAuditEvent, AuditMode, disabled, database}
use loomabase.Client.Codec.{clock_to_i64}
use loomabase.Postgres.{
  Database, StoredCell, insert_row, bound_value, write_server_todo_column, upsert_server_cell,
  nextval, write_audit_event, stored_clock,
}
use loomabase.Postgres.Cell.{record_audit_if_enabled, write_server_cell}
use loomabase.Postgres.Page.{tenant_cells, max_seq}
use loomabase.Postgres.Loop.{Closed}

-- The last sequence number of the tenant.
abbrev pub last_of : String → Database → ℕ
last_of t db = max_seq (tenant_cells t db.cells)

-- The sequence has handed out every number of the tenant.
abbrev pub HandedOut : String → Database → Type 0
HandedOut t db = last_of t db ≤ db.last_seq

pub record NumbersGrow (t : String) (db db' : Database) : Type 0 where
  pub same_leases : db'.leases ≡ db.leases
  pub same_epoch : db'.server_epoch ≡ db.server_epoch
  pub handed_out : HandedOut t db → HandedOut t db'
  pub grows : HandedOut t db → last_of t db ≤ last_of t db'

abbrev Cells : Type 0
Cells = BTreeMap (String × Key) StoredCell

abbrev last_in : String → Cells → ℕ
last_in t cells = max_seq (tenant_cells t cells)

max_seq_cons :
    (t u : String) (k : Key) (c : StoredCell) (m : Cells)
    → last_in t (((u, k), c) ∷ m) ≡ (if str_eq u t then max c.seq (last_in t m) else last_in t m)
unfolding max_seq tenant_cells
max_seq_cons t u k c m = ground arith

pub str_eq_refl : (t : String) → str_eq t t ≡ true
str_eq_refl t = (eq_iff t t).1 refl

abbrev keys : Ord (String × Key)
keys = pair_ord

-- An insert of a number no lower than the tenant's keeps its last number or raises it, to at most
-- that number.
insert-last_keeps :
    (t u : String) (k : Key) (c : StoredCell) (m : Cells)
    → last_in t m ≤ c.seq
    → last_in t m ≤ last_in t (insert (u, k) c m)
unfolding insert max_seq tenant_cells
insert-last_keeps t u k c [] h = omega arith
insert-last_keeps t u k c (((v, j), d) ∷ m) h = elim (Ordering-cases (keys.cmp (u, k) (v, j))) [
  | inl before ↦ ground (arith, max_seq_cons t u k c (((v, j), d) ∷ m))
  | inr (inl same) ↦
      let tenants : str_eq u t ≡ str_eq v t =
        ap (λ (e : String × Key). str_eq e.0 t) (keys.identical (u, k) (v, j) same) in
      ground (arith, max_seq_cons t u k c m, max_seq_cons t v j d m)
  | inr (inr after) ↦
      let old = max_seq_cons t v j d m in
      let below : last_in t m ≤ c.seq = ground arith in
      ground (arith, max_seq_cons t v j d (insert (u, k) c m), insert-last_keeps t u k c m below)
]

insert-last_le :
    (t u : String) (k : Key) (c : StoredCell) (m : Cells)
    → last_in t (insert (u, k) c m) ≤ max c.seq (last_in t m)
unfolding insert
insert-last_le t u k c [] = ground (arith, max_seq_cons t u k c [])
insert-last_le t u k c (((v, j), d) ∷ m) = elim (Ordering-cases (keys.cmp (u, k) (v, j))) [
  | inl before ↦ ground (arith, max_seq_cons t u k c (((v, j), d) ∷ m))
  | inr (inl same) ↦ ground (arith, max_seq_cons t u k c m, max_seq_cons t v j d m)
  | inr (inr after) ↦ ground (
    arith,
    max_seq_cons t v j d (insert (u, k) c m),
    max_seq_cons t v j d m,
    insert-last_le t u k c m,
  )
]

module _ (t : String) where
  pub NumbersGrow-refl : (db : Database) → NumbersGrow t db db
  NumbersGrow-refl db = record {
    same_leases = refl;
    same_epoch = refl;
    handed_out = λ h. h;
    grows = λ h. omega arith;
  }

  pub NumbersGrow-trans :
      (a b c : Database) → NumbersGrow t a b → NumbersGrow t b c → NumbersGrow t a c
  NumbersGrow-trans a b c p q = record {
    same_leases = q.same_leases ∙ p.same_leases;
    same_epoch = q.same_epoch ∙ p.same_epoch;
    handed_out = λ h. q.handed_out (p.handed_out h);
    grows = λ h. let first = p.grows h in let second = q.grows (p.handed_out h) in omega arith;
  }

  -- A statement that leaves cells, sequence, leases and epoch alone.
  pub NumbersGrow-same :
      (db db' : Database)
      → db'.cells ≡ db.cells
      → db'.last_seq ≡ db.last_seq
      → db'.leases ≡ db.leases
      → db'.server_epoch ≡ db.server_epoch
      → NumbersGrow t db db'
  NumbersGrow-same db db' cells seq leases epoch =
      let last : last_of t db' ≡ last_of t db = ap (last_in t) cells in
      record {
        same_leases = leases;
        same_epoch = epoch;
        handed_out = λ h. omega arith;
        grows = λ h. omega arith;
      }

nextval_lem : (last seq : ℕ) → nextval last ≡ ok seq → seq ≡ last + 1
unfolding nextval
nextval_lem last seq h = ground arith

-- For any tenant, not only that of the request.
module _ (context : SyncContext) (t : String) where
  upsert-NumbersGrow :
      (key : Key) (incoming : CrdtColumn) (db db' : Database)
      → upsert_server_cell context.tenant_id key incoming db ≡ ok db'
      → NumbersGrow t db db'
  unfolding upsert_server_cell
  upsert-NumbersGrow key incoming db db' h =
      let (clock, _, h₁) = bind-eq-ok (clock_to_i64 incoming.metadata.lamport_clock) _ h in
      let (seq, is_seq, h₂) = bind-eq-ok (nextval db.last_seq) _ h₁ in
      let cell : StoredCell = record {
        value = incoming.value;
        lamport_clock = clock;
        device_id = incoming.metadata.device_id;
        seq = seq;
      } in
      let next = nextval_lem db.last_seq seq is_seq in
      let le = insert-last_le t context.tenant_id key cell db.cells in
      subst (NumbersGrow t db) (ok-injective h₂) (record {
        same_leases = refl;
        same_epoch = refl;
        handed_out = λ below. omega arith;
        grows = λ below. insert-last_keeps t context.tenant_id key cell db.cells (omega arith);
      })

  write_todo-NumbersGrow :
      (key : Key) (value : CrdtValue) (db db' : Database)
      → write_server_todo_column context.table context.tenant_id key value db ≡ ok db'
      → NumbersGrow t db db'
  unfolding write_server_todo_column
  write_todo-NumbersGrow key value db db' h =
      let (bound, _, h₁) = bind-eq-ok (bound_value (column_type context.table key.1) value) _ h in
      subst (NumbersGrow t db) (ok-injective h₁) (NumbersGrow-same t db _ refl refl refl refl)

  write_server_cell-NumbersGrow :
      (key : Key) (incoming : CrdtColumn) (db db' : Database)
      → write_server_cell context key incoming db ≡ ok db'
      → NumbersGrow t db db'
  unfolding write_server_cell
  write_server_cell-NumbersGrow key incoming db db' h =
      let (written, first, second) =
        bind-eq-ok (write_server_todo_column context.table context.tenant_id key incoming.value db)
          _ h in
      NumbersGrow-trans t db written db'
        (write_todo-NumbersGrow key incoming.value db written first)
        (upsert-NumbersGrow key incoming written db' second)

  record_audit-NumbersGrow :
      (security : SyncSecurity) (event : SyncAuditEvent) (db db' : Database)
      → record_audit_if_enabled context.tenant_id security event db ≡ ok db'
      → NumbersGrow t db db'
  unfolding record_audit_if_enabled write_audit_event
  record_audit-NumbersGrow security event db db' h = go security.audit_mode h
    where
      go :
          (mode : AuditMode)
          → elim mode [ disabled ↦ ok db | database ↦ write_audit_event context.tenant_id event db ]
            ≡ ok db'
          → NumbersGrow t db db'
      go disabled e = subst (NumbersGrow t db) (ok-injective e) (NumbersGrow-refl t db)
      go database e =
          let (incoming, _, h₁) =
            bind-eq-ok (clock_to_i64 event.incoming_metadata.lamport_clock) _ e in
          let (current, _, h₂) = bind-eq-ok (stored_clock event.current_metadata) _ h₁ in
          subst (NumbersGrow t db) (ok-injective h₂) (NumbersGrow-same t db _ refl refl refl refl)

  insert_row-NumbersGrow :
      (todo_id : String) (db : Database)
      → NumbersGrow t db (insert_row context.table context.tenant_id todo_id db)
  unfolding insert_row
  insert_row-NumbersGrow todo_id db = NumbersGrow-same t db _ refl refl refl refl

  pub NumbersGrow-Closed : (security : SyncSecurity) → Closed security context (NumbersGrow t)
  NumbersGrow-Closed security = record {
    none_run = NumbersGrow-refl t;
    both_run = NumbersGrow-trans t;
    row_run = insert_row-NumbersGrow;
    write_run = write_server_cell-NumbersGrow;
    audit_run = record_audit-NumbersGrow security;
  }
