-- ===== src/Client/Scope/Steps.antt =====
-- What a client (src/client.rs) does between a request of a scope and its answer; no revision of a
-- scope goes down.
use loomabase.Base.{ℕ, String, true, false, ◌≡◌, sym, ap, subst, ◌∙◌, Option}
use loomabase.BTree.{BTreeMap}
use loomabase.Order.Text.{text_ord}
use loomabase.Error.{ok}
use loomabase.Value.{CrdtValue, SyncPayload}
use loomabase.Schema.{TableDef}
use loomabase.Validate.{Key}
use loomabase.Replica.{ReplicaInterest, PartialReplicaRequest, PartialReplicaResponse}
use loomabase.Client.{SqlValue, Client}
use loomabase.Client.Sync.{acknowledge_local_delta}
use loomabase.Client.Remote.{complete_sync, update_column, apply_remote_payload}
use loomabase.Client.Local.{insert_values, set_value, delete_live, restore_deleted}
use loomabase.Client.Pages.{reset_cursor}
use loomabase.Client.Scope.{
  set_scope, get_partial_replica_request, apply_partial_replica_response,
  remove_partial_replica_scope,
}
use loomabase.Client.Scope.Revision.{
  revision, NotBelow, int_leb_refl, int_leb_trans, SameScopes-NotBelow, set_scope-NotBelow,
}
use loomabase.Client.Scope.Taken.{
  Requested, Removed, request-Requested, remove-Removed, apply-Answered,
}
use loomabase.Client.Scope.Kept.{
  update_column-SameScopes, apply_remote-SameScopes, complete_sync-SameScopes,
}
use loomabase.Client.Scope.Writes.{
  acknowledge_local-SameScopes, reset_cursor-SameScopes, insert_values-SameScopes,
  set_value-SameScopes, delete_live-SameScopes, restore_deleted-SameScopes,
}

module _ (cast_real print_real : ℕ → String) (parse_real : String → Option ℕ)
    (table : TableDef) where
  -- What the client may do: request and remove scopes, apply answers, sync, insert, set, delete and
  -- restore, and run an `UPDATE` of a column of its own.
  pub data ClientStep : Client → Client → Type 0 where
    requests :
        {s s' : Client} (scope_id : String) (interest : ReplicaInterest)
        (request : PartialReplicaRequest)
        → get_partial_replica_request cast_real print_real parse_real table scope_id interest s
          ≡ ok (s', request)
        → ClientStep s s'
    removes :
        {s s' : Client} (scope_id : String)
        → remove_partial_replica_scope cast_real print_real parse_real scope_id s ≡ ok s'
        → ClientStep s s'
    answers :
        {s s' : Client} (sent : PartialReplicaRequest) (response : PartialReplicaResponse)
        → apply_partial_replica_response cast_real print_real parse_real sent response table s
          ≡ ok s'
        → ClientStep s s'
    syncs :
        {s s' : Client} (sent response : SyncPayload)
        → complete_sync cast_real print_real parse_real sent response table s ≡ ok s'
        → ClientStep s s'
    acknowledges :
        {s s' : Client} (sent : SyncPayload)
        → acknowledge_local_delta sent table s ≡ ok s'
        → ClientStep s s'
    absorbs :
        {s s' : Client} (payload : SyncPayload)
        → apply_remote_payload cast_real print_real parse_real payload table s ≡ ok s'
        → ClientStep s s'
    resets : {s s' : Client} → reset_cursor s ≡ s' → ClientStep s s'
    inserts :
        {s s' : Client} (row_id : String) (values : BTreeMap String CrdtValue)
        → insert_values cast_real print_real parse_real table row_id values s ≡ ok s'
        → ClientStep s s'
    sets :
        {s s' : Client} (row_id column : String) (value : CrdtValue)
        → set_value cast_real print_real parse_real table row_id column value s ≡ ok s'
        → ClientStep s s'
    deletes :
        {s s' : Client} (row_id : String)
        → delete_live cast_real print_real parse_real row_id s ≡ ok s'
        → ClientStep s s'
    restores :
        {s s' : Client} (row_id : String)
        → restore_deleted cast_real print_real parse_real row_id s ≡ ok s'
        → ClientStep s s'
    updates :
        {s s' : Client} (key : Key) (value : SqlValue)
        → update_column cast_real print_real parse_real key value s ≡ ok s'
        → ClientStep s s'

  pub data ClientSteps (s : Client) : Client → Type 0 where
    here : ClientSteps s s
    next : {t u : Client} → ClientSteps s t → ClientStep t u → ClientSteps s u

  Requested-NotBelow :
      (scope_id : String) (s s' : Client) (request : PartialReplicaRequest)
      → Requested scope_id s s' request
      → NotBelow s s'
  Requested-NotBelow scope_id s s' request r =
      subst (NotBelow s) (sym r.marked) (set_scope-NotBelow scope_id r.version true s r.is_next)

  Removed-NotBelow : (scope_id : String) (s s' : Client) → Removed scope_id s s' → NotBelow s s'
  Removed-NotBelow scope_id s s' r other =
      let marked = set_scope scope_id (record { version = r.version; active = false }) s in
      int_leb_trans (revision other s) (revision other marked) (revision other s')
        (set_scope-NotBelow scope_id r.version false s r.is_next other)
        (SameScopes-NotBelow marked s' r.marked other)

  ClientStep-NotBelow : {s s' : Client} → ClientStep s s' → NotBelow s s'
  ClientStep-NotBelow {s} {s'} (requests scope_id interest request h) =
      Requested-NotBelow scope_id s s' request
        (request-Requested cast_real print_real parse_real table scope_id interest s s' request h)
  ClientStep-NotBelow {s} {s'} (removes scope_id h) =
      Removed-NotBelow scope_id s s'
        (remove-Removed cast_real print_real parse_real table scope_id s s' h)
  ClientStep-NotBelow {s} {s'} (answers sent response h) =
      SameScopes-NotBelow s s'
        (apply-Answered cast_real print_real parse_real table sent response s s' h).kept
  ClientStep-NotBelow {s} {s'} (syncs sent response h) =
      SameScopes-NotBelow s s'
        (complete_sync-SameScopes cast_real print_real parse_real sent response table s s' h)
  ClientStep-NotBelow {s} {s'} (acknowledges sent h) =
      SameScopes-NotBelow s s' (acknowledge_local-SameScopes sent table s s' h)
  ClientStep-NotBelow {s} {s'} (absorbs payload h) =
      SameScopes-NotBelow s s'
        (apply_remote-SameScopes cast_real print_real parse_real payload table s s' h)
  ClientStep-NotBelow {s} {s'} (resets h) =
      SameScopes-NotBelow s s'
        (ap (λ (c : Client). c.scope_states) (sym h) ∙ reset_cursor-SameScopes s)
  ClientStep-NotBelow {s} {s'} (inserts row_id values h) =
      SameScopes-NotBelow s s'
        (insert_values-SameScopes cast_real print_real parse_real table row_id values s s' h)
  ClientStep-NotBelow {s} {s'} (sets row_id column value h) =
      SameScopes-NotBelow s s'
        (set_value-SameScopes cast_real print_real parse_real table row_id column value s s' h)
  ClientStep-NotBelow {s} {s'} (deletes row_id h) =
      SameScopes-NotBelow s s'
        (delete_live-SameScopes cast_real print_real parse_real row_id s s' h)
  ClientStep-NotBelow {s} {s'} (restores row_id h) =
      SameScopes-NotBelow s s'
        (restore_deleted-SameScopes cast_real print_real parse_real row_id s s' h)
  ClientStep-NotBelow {s} {s'} (updates key value h) =
      SameScopes-NotBelow s s'
        (update_column-SameScopes cast_real print_real parse_real key value s s' h)

  pub ClientSteps-NotBelow : {s s' : Client} → ClientSteps s s' → NotBelow s s'
  ClientSteps-NotBelow {s} here scope_id = int_leb_refl (revision scope_id s)
  ClientSteps-NotBelow {s} {s'} (next {t} steps step) scope_id =
      int_leb_trans (revision scope_id s) (revision scope_id t) (revision scope_id s')
        (ClientSteps-NotBelow steps scope_id) (ClientStep-NotBelow step scope_id)
