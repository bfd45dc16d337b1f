-- ===== src/Client/Scope/Kept.antt =====
-- What leaves the revisions of the scopes alone: everything but a request and a removal.
use loomabase.Base.{
  ℕ, String, ◌≡◌, refl, sym, ap, ◌∙◌, Bool, true, false, List, [], ◌∷◌, Option, arith,
}
use loomabase.BTree.{BTreeMap}
use loomabase.Order.Pair.{pair_ord}
use loomabase.Order.Text.{text_ord}
use loomabase.Error.{ok, ◌>>=◌, bind-eq-ok, then-eq-ok, ok-injective}
use loomabase.Value.{CrdtValue, CrdtColumn, RowChange, SyncPayload}
use loomabase.Schema.{TableDef, column_type}
use loomabase.Validate.{Key, validate_client_request, validate_server_response, max_observed_clock}
use loomabase.Merge.{should_apply}
use loomabase.Server.{next_clock}
use loomabase.Client.{SqlValue, Client, tick, capture, after_update}
use loomabase.Client.Codec.{crdt_to_sqlite, clock_from_i64, clock_to_i64, encode_sqlite_value}
use loomabase.Client.Evict.{evict_row, evict_rows, pending_rows, cleanup_pending_evictions}
use loomabase.Client.Sync.{acknowledge_rows, acknowledge_local_delta_with_response}
use loomabase.Client.Remote.{
  ensure_row, check_type, update_column, write_todo_column, read_local_crdt_column, upsert_cell,
  apply_remote_cell, apply_remote_columns, apply_remote_rows, apply_remote_payload, complete_sync,
}
use loomabase.Client.Scope.{drop_members, add_members, add_evictions}

-- The revisions are as they were.
abbrev pub SameScopes : Client → Client → Type 0
SameScopes s s' = s'.scope_states ≡ s.scope_states

evict_row-SameScopes : (row_id : String) (s : Client) → SameScopes s (evict_row row_id s)
unfolding evict_row
evict_row-SameScopes row_id s = ground arith

evict_rows-SameScopes :
    (pending : BTreeMap String Unit) (s : Client) → SameScopes s (evict_rows pending s)
unfolding evict_rows
evict_rows-SameScopes [] s = refl
evict_rows-SameScopes ((row_id, _) ∷ pending) s =
    evict_rows-SameScopes pending (evict_row row_id s) ∙ evict_row-SameScopes row_id s

pub cleanup-SameScopes : (s : Client) → SameScopes s (cleanup_pending_evictions s)
unfolding cleanup_pending_evictions
cleanup-SameScopes s = evict_rows-SameScopes (pending_rows s.scope_evictions) s

pub drop_members-SameScopes :
    (scope_id : String) (s : Client) → SameScopes s (drop_members scope_id s)
unfolding drop_members
drop_members-SameScopes scope_id s = refl

pub add_members-SameScopes :
    (scope_id : String) (ids : List String) (s : Client) → SameScopes s (add_members scope_id ids s)
unfolding add_members
add_members-SameScopes scope_id [] s = refl
add_members-SameScopes scope_id (row_id ∷ ids) s = add_members-SameScopes scope_id ids _

pub add_evictions-SameScopes :
    (scope_id : String) (ids : List String) (s : Client)
    → SameScopes s (add_evictions scope_id ids s)
unfolding add_evictions
add_evictions-SameScopes scope_id [] s = refl
add_evictions-SameScopes scope_id (row_id ∷ ids) s = add_evictions-SameScopes scope_id ids _

pub acknowledge-SameScopes :
    (sent response : SyncPayload) (table : TableDef) (s s' : Client)
    → acknowledge_local_delta_with_response sent response table s ≡ ok s'
    → SameScopes s s'
unfolding acknowledge_local_delta_with_response
acknowledge-SameScopes sent response table s s' h =
    let (_, h₁) = then-eq-ok (validate_server_response response table) _ h in
    let (_, h₂) = then-eq-ok (validate_client_request sent s.device_id table) _ h₁ in
    let (log, _, h₃) = bind-eq-ok (acknowledge_rows response.rejections sent.changes s.log) _ h₂ in
    ap (λ (c : Client). c.scope_states) (sym (ok-injective h₃))
    ∙ cleanup-SameScopes (record s { log = log })

ensure_row-SameScopes :
    (table : TableDef) (id : String) (s : Client) → SameScopes s (ensure_row table id s)
unfolding ensure_row
ensure_row-SameScopes table id s = ground arith

module _ (cast_real print_real : ℕ → String) (parse_real : String → Option ℕ) where
  pub update_column-SameScopes :
      (key : Key) (value : SqlValue) (s s' : Client)
      → update_column cast_real print_real parse_real key value s ≡ ok s'
      → SameScopes s s'
  unfolding update_column after_update tick capture
  update_column-SameScopes key value s s' h = ground arith

  write_todo_column-SameScopes :
      (table : TableDef) (key : Key) (value : CrdtValue) (s s' : Client)
      → write_todo_column cast_real print_real parse_real table key value s ≡ ok s'
      → SameScopes s s'
  unfolding write_todo_column
  write_todo_column-SameScopes table key value s s' h =
      let (_, h₁) = then-eq-ok (check_type (column_type table key.1) value) _ h in
      let (sql, _, h₂) = bind-eq-ok (crdt_to_sqlite value) _ h₁ in
      update_column-SameScopes key sql s s' h₂

  upsert_cell-SameScopes :
      (key : Key) (incoming : CrdtColumn) (s s' : Client)
      → upsert_cell cast_real print_real parse_real key incoming s ≡ ok s'
      → SameScopes s s'
  unfolding upsert_cell
  upsert_cell-SameScopes key incoming s s' h =
      let (value, _, h₁) = bind-eq-ok (encode_sqlite_value print_real incoming.value) _ h in
      let (clock, _, h₂) = bind-eq-ok (clock_to_i64 incoming.metadata.lamport_clock) _ h₁ in
      ap (λ (c : Client). c.scope_states) (sym (ok-injective h₂))

  apply_remote_cell-SameScopes :
      (table : TableDef) (key : Key) (incoming : CrdtColumn) (s s' : Client)
      → apply_remote_cell cast_real print_real parse_real table key incoming s ≡ ok s'
      → SameScopes s s'
  unfolding apply_remote_cell
  apply_remote_cell-SameScopes table key incoming s s' h =
      let (current, _, h₁) =
        bind-eq-ok (read_local_crdt_column cast_real print_real parse_real table key s) _ h in
      let (apply, _, h₂) = bind-eq-ok (should_apply current incoming) _ h₁ in go apply h₂
    where
      go :
          (apply : Bool)
          → elim apply [
            | true ↦
                write_todo_column cast_real print_real parse_real table key incoming.value s
                >>= λ written. upsert_cell cast_real print_real parse_real key incoming written
            | false ↦ ok s
          ]
            ≡ ok s'
          → SameScopes s s'
      go false e = ap (λ (c : Client). c.scope_states) (sym (ok-injective e))
      go true e =
          let (written, first, second) =
            bind-eq-ok
              (write_todo_column cast_real print_real parse_real table key incoming.value s) _ e in
          upsert_cell-SameScopes key incoming written s' second
          ∙ write_todo_column-SameScopes table key incoming.value s written first

  apply_remote_columns-SameScopes :
      (table : TableDef) (todo_id : String) (columns : BTreeMap String CrdtColumn) (s s' : Client)
      → apply_remote_columns cast_real print_real parse_real table todo_id columns s ≡ ok s'
      → SameScopes s s'
  unfolding apply_remote_columns
  apply_remote_columns-SameScopes table todo_id [] s s' h =
      ap (λ (c : Client). c.scope_states) (sym (ok-injective h))
  apply_remote_columns-SameScopes table todo_id ((column_name, column) ∷ columns) s s' h =
      let (t, first, rest) =
        bind-eq-ok
          (apply_remote_cell cast_real print_real parse_real table (todo_id, column_name) column s)
          _ h in
      apply_remote_columns-SameScopes table todo_id columns t s' rest
      ∙ apply_remote_cell-SameScopes table (todo_id, column_name) column s t first

  apply_remote_rows-SameScopes :
      (table : TableDef) (changes : List RowChange) (s s' : Client)
      → apply_remote_rows cast_real print_real parse_real table changes s ≡ ok s'
      → SameScopes s s'
  unfolding apply_remote_rows
  apply_remote_rows-SameScopes table [] s s' h =
      ap (λ (c : Client). c.scope_states) (sym (ok-injective h))
  apply_remote_rows-SameScopes table (row ∷ changes) s s' h =
      let there = ensure_row table row.todo_id s in
      let (t, first, rest) =
        bind-eq-ok
          (apply_remote_columns cast_real print_real parse_real table row.todo_id row.columns there)
          _ h in
      apply_remote_rows-SameScopes table changes t s' rest
      ∙ apply_remote_columns-SameScopes table row.todo_id row.columns there t first
      ∙ ensure_row-SameScopes table row.todo_id s

  pub apply_remote-SameScopes :
      (payload : SyncPayload) (table : TableDef) (s s' : Client)
      → apply_remote_payload cast_real print_real parse_real payload table s ≡ ok s'
      → SameScopes s s'
  unfolding apply_remote_payload
  apply_remote-SameScopes payload table s s' h =
      let (_, h₁) = then-eq-ok (validate_server_response payload table) _ h in
      let (current, _, h₂) = bind-eq-ok (clock_from_i64 s.lamport_clock) _ h₁ in
      let (applied, loop, h₃) =
        bind-eq-ok
          (apply_remote_rows cast_real print_real parse_real table payload.changes
            (record s { applying_remote = true }))
          _ h₂ in
      let (clock, _, h₄) = bind-eq-ok (next_clock current (max_observed_clock payload)) _ h₃ in
      let (stored, _, h₅) = bind-eq-ok (clock_to_i64 clock) _ h₄ in
      ap (λ (c : Client). c.scope_states) (sym (ok-injective h₅))
      ∙ apply_remote_rows-SameScopes table payload.changes (record s { applying_remote = true })
          applied loop

  pub complete_sync-SameScopes :
      (sent response : SyncPayload) (table : TableDef) (s s' : Client)
      → complete_sync cast_real print_real parse_real sent response table s ≡ ok s'
      → SameScopes s s'
  unfolding complete_sync
  complete_sync-SameScopes sent response table s s' h =
      let (t, first, rest) =
        bind-eq-ok (acknowledge_local_delta_with_response sent response table s) _ h in
      apply_remote-SameScopes response table t s' rest
      ∙ acknowledge-SameScopes sent response table s t first
