-- ===== src/Client/Scope/Writes.antt =====
-- The local writes of a client (src/client.rs) leave the revisions of the scopes alone, and so do an
-- acknowledgement and a reset of the cursor.
use loomabase.Base.{
  ℕ, String, ◌≡◌, refl, sym, ap, ◌∙◌, true, false, Bool, List, [], ◌∷◌, Option, none, some,
  if◌then◌else◌, arith,
}
use loomabase.Base.Int.{pos}
use loomabase.BTree.{BTreeMap, get, insert}
use loomabase.Order.Text.{text_ord}
use loomabase.Error.{
  InvalidPayload, ok, err, bind-eq-ok, then-eq-ok, ok-injective, invalid_payload, row_not_live,
  row_not_deleted, ◌>>=◌, sqlite,
}
use loomabase.Value.{CrdtValue, SyncPayload}
use loomabase.Schema.{TableDef, ColumnDef, synchronized_columns, liveness_column}
use loomabase.Validate.{Key, validate_client_request}
use loomabase.Validate.Cell.{validate_column, validate_identifier}
use loomabase.Client.{SqlValue, Client, tick, capture}
use loomabase.Client.Codec.{crdt_to_sqlite}
use loomabase.Client.Sync.{acknowledge_rows, acknowledge_local_delta}
use loomabase.Client.Remote.{default_row, update_column}
use loomabase.Client.Local.{
  reject_liveness_column, check_values, bind_values, has_flag, capture_columns, insert_values,
  set_value, delete_live, restore_deleted,
}
use loomabase.Client.Pages.{reset_cursor}
use loomabase.Client.Scope.Kept.{SameScopes, cleanup-SameScopes, update_column-SameScopes}

pub acknowledge_local-SameScopes :
    (payload : SyncPayload) (table : TableDef) (s s' : Client)
    → acknowledge_local_delta payload table s ≡ ok s'
    → SameScopes s s'
unfolding acknowledge_local_delta
acknowledge_local-SameScopes payload table s s' h =
    let (_, h₁) = then-eq-ok (validate_client_request payload s.device_id table) _ h in
    let (log, _, h₂) = bind-eq-ok (acknowledge_rows [] payload.changes s.log) _ h₁ in
    ap (λ (c : Client). c.scope_states) (sym (ok-injective h₂))
    ∙ cleanup-SameScopes (record s { log = log })

pub reset_cursor-SameScopes : (s : Client) → SameScopes s (reset_cursor s)
unfolding reset_cursor
reset_cursor-SameScopes s = refl

tick-SameScopes : (s s' : Client) → tick s ≡ ok s' → SameScopes s s'
unfolding tick
tick-SameScopes s s' h = ground arith

module _ (cast_real print_real : ℕ → String) (parse_real : String → Option ℕ) where
  capture_columns-SameScopes :
      (row_id : String) (columns : List ColumnDef) (row : BTreeMap String SqlValue) (s : Client)
      → SameScopes s (capture_columns cast_real print_real parse_real row_id columns row s)
  unfolding capture_columns capture
  capture_columns-SameScopes row_id [] row s = refl
  capture_columns-SameScopes row_id (column ∷ columns) row s =
      go (get column.name row) (capture_columns-SameScopes row_id columns row)
    where
      go :
          (found : Option SqlValue)
          → ((t : Client)
              → SameScopes t (capture_columns cast_real print_real parse_real row_id columns row t))
          → SameScopes s (
              capture_columns cast_real print_real parse_real row_id columns row (elim found [
                | none ↦ s
                | some value ↦ capture cast_real (row_id, column.name) value s
              ]))
      go none rest = rest s
      go (some value) rest = rest (capture cast_real (row_id, column.name) value s)

  pub insert_values-SameScopes :
      (table : TableDef) (row_id : String) (values : BTreeMap String CrdtValue) (s s' : Client)
      → insert_values cast_real print_real parse_real table row_id values s ≡ ok s'
      → SameScopes s s'
  unfolding insert_values
  insert_values-SameScopes table row_id values s s' h =
      let (_, h₁) = then-eq-ok (validate_identifier "row_id" row_id) _ h in
      let (_, h₂) = then-eq-ok (check_values table values) _ h₁ in
      let (row, _, h₃) =
        bind-eq-ok (bind_values values (default_row (synchronized_columns table))) _ h₂ in
      go row (get row_id s.rows) s.applying_remote h₃
    where
      stored : BTreeMap String SqlValue → Client
      stored row = record s { rows = insert row_id row s.rows }

      go :
          (row : BTreeMap String SqlValue) (found : Option (BTreeMap String SqlValue))
          (applying : Bool)
          → elim found [
            | some _ ↦ err (sqlite "UNIQUE constraint failed")
            | none ↦
                if applying
                then ok (stored row)
                else tick (stored row) >>= λ ticked. ok (
                    capture_columns cast_real print_real parse_real row_id
                      (synchronized_columns table)
                      row
                      ticked)
          ]
            ≡ ok s'
          → SameScopes s s'
      go row (some _) applying e = ground arith
      go row none true e = ap (λ (c : Client). c.scope_states) (sym (ok-injective e))
      go row none false e =
          let (ticked, ticks, e₁) = bind-eq-ok (tick (stored row)) _ e in
          ap (λ (c : Client). c.scope_states) (sym (ok-injective e₁))
          ∙ capture_columns-SameScopes row_id (synchronized_columns table) row ticked
          ∙ tick-SameScopes (stored row) ticked ticks

  -- An update that is refused unless the row is in the right state.
  guarded-SameScopes :
      (guard : Bool) (key : Key) (value : SqlValue) (message : InvalidPayload) (s s' : Client)
      → (if guard
          then update_column cast_real print_real parse_real key value s
          else err (invalid_payload message))
        ≡ ok s'
      → SameScopes s s'
  guarded-SameScopes true key value message s s' h =
      update_column-SameScopes cast_real print_real parse_real key value s s' h
  guarded-SameScopes false key value message s s' h = ground arith

  pub set_value-SameScopes :
      (table : TableDef) (row_id column : String) (value : CrdtValue) (s s' : Client)
      → set_value cast_real print_real parse_real table row_id column value s ≡ ok s'
      → SameScopes s s'
  unfolding set_value
  set_value-SameScopes table row_id column value s s' h =
      let (_, h₁) = then-eq-ok (validate_identifier "row_id" row_id) _ h in
      let (_, h₂) = then-eq-ok (reject_liveness_column column) _ h₁ in
      let (_, h₃) = then-eq-ok (validate_column table column value) _ h₂ in
      let (sql, _, h₄) = bind-eq-ok (crdt_to_sqlite value) _ h₃ in
      guarded-SameScopes (has_flag (pos 0) (get row_id s.rows)) (row_id, column) sql row_not_live s
        s' h₄

  pub delete_live-SameScopes :
      (row_id : String) (s s' : Client)
      → delete_live cast_real print_real parse_real row_id s ≡ ok s'
      → SameScopes s s'
  unfolding delete_live
  delete_live-SameScopes row_id s s' h =
      let (_, h₁) = then-eq-ok (validate_identifier "row_id" row_id) _ h in
      guarded-SameScopes (has_flag (pos 0) (get row_id s.rows)) (row_id, liveness_column)
        (SqlValue.integer (pos 1)) row_not_live s s' h₁

  pub restore_deleted-SameScopes :
      (row_id : String) (s s' : Client)
      → restore_deleted cast_real print_real parse_real row_id s ≡ ok s'
      → SameScopes s s'
  unfolding restore_deleted
  restore_deleted-SameScopes row_id s s' h =
      let (_, h₁) = then-eq-ok (validate_identifier "row_id" row_id) _ h in
      guarded-SameScopes (has_flag (pos 1) (get row_id s.rows)) (row_id, liveness_column)
        (SqlValue.integer (pos 0)) row_not_deleted s s' h₁
