-- ===== src/Postgres/Partial.antt =====
-- `merge_partial_replica_with_security` and `merge_partial_replica` (src/server.rs): a merge, then
-- the rows of the interest, read from the application table, with the snapshot of their cells.
use Prim.Native.String.{len}
use package.text.Mathlib.Text.{◌==◌ as str_eq, starts_with}
use loomabase.Base.{
  ℕ, ◌+◌, String, Bool, true, false, ◌&&◌, List, [], ◌∷◌, all, length, ltb, if◌then◌else◌,
}
use loomabase.BTree.{BTreeMap, get}
use loomabase.Order.Pair.{pair_ord}
use loomabase.Order.Text.{text_ord}
use loomabase.Error.{
  Result, ok, err, Check, ◌>>=◌, ◌>>◌, reject_if, invalid_payload, invalid_predicate_value,
  scope_exceeds_limit, snapshot_too_large,
}
use loomabase.Value
use loomabase.Value.{CrdtValue, SyncPayload, value_eq, max_payload_cells, max_response_bytes}
use loomabase.Schema.{TableDef, liveness_column}
use loomabase.Policy.{SyncSecurity, default_security}
use loomabase.Feed.{Rows, add_cell, to_changes}
use loomabase.Replica
use loomabase.Replica.{
  ReplicaPredicate, ReplicaInterest, PartialReplicaRequest, PartialReplicaResponse, contains_id,
  is_value, validate_partial_request, validate_partial_response, validate_member_ids,
}
use loomabase.Replica.Partial.{evicted}
use loomabase.Client.Codec.{clock_from_i64}
use loomabase.Postgres.{Database, AppRow}
use loomabase.Postgres.Page.{Stored, tenant_cells, limit}
use loomabase.Postgres.Merge.{merge_crdt_states_with_security}

-- The `match` on the value of a predicate: what a query can bind.
unfoldable pub check_predicate : ReplicaPredicate → Check
check_predicate (Replica.column_equals column Value.null) =
    err (invalid_payload invalid_predicate_value)
check_predicate (Replica.column_equals column (Value.blob b)) =
    err (invalid_payload invalid_predicate_value)
check_predicate _ = ok tt

unfoldable pub check_predicates : List ReplicaPredicate → Check
unfolding check_predicate
check_predicates [] = ok tt
check_predicates (p ∷ ps) = do check_predicate p; check_predicates ps

-- The condition that a predicate adds to the query.
unfoldable pub row_satisfies : String → AppRow → ReplicaPredicate → Bool
row_satisfies id row (Replica.id_equals value) = str_eq id value
row_satisfies id row (Replica.id_prefix prefix) = starts_with id prefix
row_satisfies id row (Replica.column_equals column value) = is_value (get column row) value

-- `deleted = FALSE AND …`
unfoldable pub row_in_scope : ReplicaInterest → String → AppRow → Bool
unfolding row_satisfies
row_in_scope interest id row =
    is_value (get liveness_column row) (Value.boolean false)
    && all (row_satisfies id row) interest.predicates

-- `SELECT id FROM … WHERE tenant_id = …`
unfoldable pub select_ids :
    String → ReplicaInterest → BTreeMap (String × String) AppRow → List String
unfolding row_in_scope
select_ids tenant_id interest [] = []
select_ids tenant_id interest (((tenant, id), row) ∷ rows) =
    let rest = select_ids tenant_id interest rows in
    if str_eq tenant tenant_id && row_in_scope interest id row then id ∷ rest else rest

-- The response, with the snapshot in place of the page.
abbrev pub scope_response :
    PartialReplicaRequest → SyncPayload → List String → Rows → PartialReplicaResponse
scope_response request sync member_ids rows = record {
  scope_id = request.scope_id;
  scope_version = request.scope_version;
  member_ids = member_ids;
  evicted_row_ids = evicted member_ids request.known_member_ids;
  sync = record sync { changes = to_changes rows; has_more = false };
}

-- The membership query. `ORDER BY` compares texts by the collation of the database, which is not
-- part of the repository: the order that it gives is a parameter.
unfoldable pub membership :
    (order_by_id : List String → List String) → String → ReplicaInterest → Database → List String
unfolding select_ids limit
membership order_by_id tenant_id interest db =
    limit (interest.limit + 1) (order_by_id (select_ids tenant_id interest db.rows))

-- The length of the JSON of a value is a parameter too.
module _ (value_len : CrdtValue → Result ℕ) where
  -- The loop over the rows of the snapshot query, with the cells and the bytes so far.
  unfoldable pub read_snapshot :
      List String → Stored → (snapshot_cells snapshot_bytes : ℕ) → Rows → Result Rows
  unfolding add_cell clock_from_i64
  read_snapshot member_ids [] snapshot_cells snapshot_bytes rows = ok rows
  read_snapshot member_ids ((key, cell) ∷ cells) snapshot_cells snapshot_bytes rows =
      elim (contains_id member_ids key.0) [
        | true ↦ do
          reject_if (ltb max_payload_cells (snapshot_cells + 1)) snapshot_too_large
          clock ← clock_from_i64 cell.lamport_clock
          value_bytes ← value_len cell.value
          let bytes = snapshot_bytes + (value_bytes + len key.0 + len key.1 + len cell.device_id)
          reject_if (ltb max_response_bytes bytes) snapshot_too_large
          read_snapshot member_ids cells (snapshot_cells + 1) bytes (
              add_cell key
                (record {
                  value = cell.value;
                  metadata = record { lamport_clock = clock; device_id = cell.device_id };
                })
                rows)
        | false ↦ read_snapshot member_ids cells snapshot_cells snapshot_bytes rows
      ]

-- `order_by_key` is the order of the snapshot query.
module _ (value_len : CrdtValue → Result ℕ) (order_by_id : List String → List String)
    (order_by_key : Stored → Stored) where
  -- The part after the merge.
  unfoldable pub answer_partial :
      PartialReplicaRequest
      → String
      → TableDef
      → SyncPayload
      → Database
      → Result (Database × PartialReplicaResponse)
  unfolding membership read_snapshot evicted check_predicates
  answer_partial request tenant_id table sync db = do
    check_predicates request.interest.predicates
    let member_ids = membership order_by_id tenant_id request.interest db
    reject_if (ltb request.interest.limit (length member_ids)) scope_exceeds_limit
    validate_member_ids member_ids
    rows ←
        read_snapshot value_len member_ids (order_by_key (tenant_cells tenant_id db.cells)) 0 0 []
    let response = scope_response request sync member_ids rows
    validate_partial_response response table
    ok (db, response)

  module _ (debug_text : String → String) (uuid : String) (now : ℕ) where
    -- `merge_partial_replica_with_security`
    unfoldable pub merge_partial_replica_with_security :
        PartialReplicaRequest
        → String
        → String
        → TableDef
        → SyncSecurity
        → Database
        → Result (Database × PartialReplicaResponse)
    unfolding answer_partial merge_crdt_states_with_security
    merge_partial_replica_with_security request device tenant_id table security db = do
      validate_partial_request request table device
      merged ←
          merge_crdt_states_with_security debug_text value_len uuid now request.sync device
            tenant_id table security db
      answer_partial request tenant_id table merged.1 merged.0

    -- `merge_partial_replica`
    unfoldable pub merge_partial_replica :
        PartialReplicaRequest
        → String
        → String
        → TableDef
        → Database
        → Result (Database × PartialReplicaResponse)
    merge_partial_replica request device tenant_id table db =
        merge_partial_replica_with_security request device tenant_id table default_security db
