-- ===== src/Replica/Partial.antt =====
-- `CrdtState::merge_partial` (src/crdt.rs): a merge, then the rows of the interest as a snapshot.
pub mod Values
pub mod Members
pub mod Snapshot
pub mod Answer
use Prim.Native.String.{len}
use loomabase.Base.{
  ℕ, ◌+◌, String, Bool, true, false, ◌&&◌, not, Option, none, some, List, [], ◌∷◌, length, ltb,
  if◌then◌else◌,
}
use loomabase.Order.Pair.{pair_ord}
use loomabase.Order.Text.{text_ord}
use loomabase.BTree.{BTreeMap, get, insert}
use loomabase.Error.{
  Result, ok, err, ◌>>=◌, ◌>>◌, reject_if, scope_exceeds_limit, snapshot_too_large,
}
use loomabase.Value
use loomabase.Value.{
  CrdtValue, CrdtColumn, SyncPayload, value_eq, deleted_column, max_response_bytes,
}
use loomabase.Validate.{Key}
use loomabase.Policy.{without_audit, allow_all, noop}
use loomabase.Merge.{CrdtState}
use loomabase.Feed.{Rows, add_cell, to_changes}
use loomabase.Server.{merge_inner}
use loomabase.Replica.{
  ReplicaInterest, PartialReplicaRequest, PartialReplicaResponse, matches, contains_id,
  validate_partial_request, validate_partial_response,
}

abbrev pub Values : Type 0
Values = BTreeMap String (BTreeMap String CrdtValue)

-- `values_by_row.entry(row_id).or_default().insert(column_name, column.value)`
unfoldable pub add_value : Key → CrdtValue → Values → Values
add_value (row_id, column_name) value rows =
    let values : BTreeMap String CrdtValue = elim (get row_id rows) [
      | none ↦ []
      | some values ↦ values
    ] in
    insert row_id (insert column_name value values) rows

-- The loop that builds `values_by_row`.
unfoldable pub values_by_row : BTreeMap Key CrdtColumn → Values → Values
unfolding add_value
values_by_row [] rows = rows
values_by_row ((key, column) ∷ cells) rows = values_by_row cells (add_value key column.value rows)

-- `values.get(DELETED_COLUMN) != Some(&CrdtValue::Boolean(true))`
unfoldable pub is_live : BTreeMap String CrdtValue → Bool
is_live values = elim (get deleted_column values) [
  | none ↦ true
  | some value ↦ not (value_eq value (Value.boolean true))
]

-- `member_ids`: the filters over `values_by_row`, in key order.
unfoldable pub members : ReplicaInterest → Values → List String
unfolding is_live
members interest [] = []
members interest ((row_id, values) ∷ rows) =
    let rest = members interest rows in
    if is_live values && matches interest row_id values then row_id ∷ rest else rest

-- `evicted_row_ids`
unfoldable pub evicted : List String → List String → List String
evicted member_ids [] = []
evicted member_ids (id ∷ known) =
    let rest = evicted member_ids known in if contains_id member_ids id then rest else id ∷ rest

-- `*self = working` on success; on an error the working copy is dropped.
abbrev pub commit_partial :
    CrdtState
    → Result (CrdtState × PartialReplicaResponse)
    → CrdtState × Result PartialReplicaResponse
commit_partial s (ok (working, response)) = (working, ok response)
commit_partial s (err e) = (s, err e)

module _ (json_len : CrdtColumn → Result ℕ) where
  -- The loop that builds `snapshot_by_row`, with the bytes so far.
  unfoldable pub snapshot : List String → BTreeMap Key CrdtColumn → ℕ → Rows → Result Rows
  unfolding add_cell
  snapshot member_ids [] snapshot_bytes rows = ok rows
  snapshot member_ids ((key, column) ∷ cells) snapshot_bytes rows =
      elim (contains_id member_ids key.0) [
        | true ↦ do
          column_bytes ← json_len column
          let bytes = snapshot_bytes + (column_bytes + len key.0 + len key.1)
          reject_if (ltb max_response_bytes bytes) snapshot_too_large
          snapshot member_ids cells bytes (add_cell key column rows)
        | false ↦ snapshot member_ids cells snapshot_bytes rows
      ]

  -- The response of `merge_partial_inner`.
  abbrev pub partial_response :
      PartialReplicaRequest → SyncPayload → List String → Rows → PartialReplicaResponse
  partial_response request sync member_ids rows = record {
    scope_id = request.scope_id;
    scope_version = request.scope_version;
    member_ids = member_ids;
    evicted_row_ids = evicted member_ids request.known_member_ids;
    sync = record sync { changes = to_changes rows; has_more = false };
  }

  -- `merge_partial_inner`; its merge is `merge` on the working copy.
  unfoldable pub merge_partial_inner :
      PartialReplicaRequest → String → CrdtState → Result (CrdtState × PartialReplicaResponse)
  unfolding merge_inner members values_by_row snapshot evicted
  merge_partial_inner request device s = do
    validate_partial_request request s.table device
    merged ← merge_inner json_len request.sync device (without_audit allow_all noop) s
    let member_ids = members request.interest (values_by_row merged.0.cells [])
    reject_if (ltb request.interest.limit (length member_ids)) scope_exceeds_limit
    rows ← snapshot member_ids merged.0.cells 0 []
    let response = partial_response request merged.1 member_ids rows
    validate_partial_response response merged.0.table
    ok (merged.0, response)

  -- `merge_partial`
  unfoldable pub merge_partial :
      PartialReplicaRequest → String → CrdtState → CrdtState × Result PartialReplicaResponse
  unfolding merge_partial_inner
  merge_partial request device s = commit_partial s (merge_partial_inner request device s)
