-- ===== src/Client/Scope.antt =====
-- The partial replicas of a client (src/client.rs): `get_partial_replica_request`,
-- `apply_partial_replica_response` and `remove_partial_replica_scope`.
pub mod Kept
pub mod Revision
pub mod Taken
pub mod Writes
pub mod Steps
pub mod Stale
use package.text.Mathlib.Text.{◌==◌ as str_eq}
use loomabase.Base.{
  ℕ, String, Bool, true, false, ◌&&◌, not, Option, none, some, List, [], ◌∷◌, ◌++◌, map, any, ◌==◌,
  if◌then◌else◌,
}
use loomabase.Base.Int.{ℤ, pos, int_eq, int_leb, int_succ}
use loomabase.BTree.{BTreeMap, get, insert}
use loomabase.Order.Text.{text_ord}
use loomabase.Error.{
  Result, ok, err, Check, ◌>>=◌, ◌>>◌, reject_if, clock_overflow, scope_revision_differs,
  stale_scope_response, inconsistent_evictions,
}
use loomabase.Value.{SyncPayload, max_storable_lamport}
use loomabase.Schema.{TableDef}
use loomabase.Validate.Cell.{validate_identifier}
use loomabase.Replica.{
  ReplicaInterest, PartialReplicaRequest, PartialReplicaResponse, same_ids, validate_interest,
  validate_partial_request, validate_partial_response,
}
use loomabase.Replica.Partial.{evicted}
use loomabase.Client.{Client, ScopeState}
use loomabase.Client.Codec.{clock_from_i64, clock_to_i64}
use loomabase.Client.Evict.{cleanup_pending_evictions}
use loomabase.Client.Sync.{acknowledge_local_delta_with_response, get_local_delta}
use loomabase.Client.Remote.{apply_remote_payload}

-- A scope and a row: a row of `loomabase_scope_members` or of `loomabase_scope_evictions`.
abbrev pub ScopeRows : Type 0
ScopeRows = List (String × String)

-- `current_version.unwrap_or(0).checked_add(1)`, on an `i64`
unfoldable pub next_version : Option ScopeState → Result ℤ
next_version none = ok (pos 1)
next_version (some state) =
    if int_leb (pos max_storable_lamport) state.version
    then err clock_overflow
    else ok (int_succ state.version)

-- The upsert of `loomabase_scope_state`.
unfoldable pub set_scope : String → ScopeState → Client → Client
set_scope scope_id state s = record s { scope_states = insert scope_id state s.scope_states }

-- `SELECT row_id … WHERE scope_id = …`, as a set in the order of the rows
unfoldable pub rows_of_scope : String → ScopeRows → BTreeMap String Unit
rows_of_scope scope_id [] = []
rows_of_scope scope_id ((scope, row_id) ∷ rows) =
    let rest = rows_of_scope scope_id rows in
    if str_eq scope scope_id then insert row_id tt rest else rest

unfoldable pub member_ids_of : String → ScopeRows → List String
unfolding rows_of_scope
member_ids_of scope_id members = map (λ (e : String × Unit). e.0) (rows_of_scope scope_id members)

-- `DELETE FROM loomabase_scope_members WHERE scope_id = …`
unfoldable pub without_scope : String → ScopeRows → ScopeRows
without_scope scope_id [] = []
without_scope scope_id ((scope, row_id) ∷ rows) =
    let rest = without_scope scope_id rows in
    if str_eq scope scope_id then rest else (scope, row_id) ∷ rest

abbrev pub is_pair : String × String → String × String → Bool
is_pair (scope, row_id) (scope', row_id') = str_eq scope scope' && str_eq row_id row_id'

-- `DELETE FROM loomabase_scope_evictions WHERE scope_id = … AND row_id = …`
unfoldable pub without_pair : String × String → ScopeRows → ScopeRows
without_pair pair [] = []
without_pair pair (other ∷ rows) =
    let rest = without_pair pair rows in if is_pair other pair then rest else other ∷ rest

-- `INSERT INTO loomabase_scope_evictions … ON CONFLICT DO NOTHING`
unfoldable pub add_pair : String × String → ScopeRows → ScopeRows
add_pair pair rows = if any (λ other. is_pair other pair) rows then rows else rows ++ pair ∷ []

-- The loop over the members of a response.
unfoldable pub add_members : String → List String → Client → Client
unfolding without_pair
add_members scope_id [] s = s
add_members scope_id (row_id ∷ ids) s = add_members scope_id ids (record s {
  scope_members = s.scope_members ++ (scope_id, row_id) ∷ [];
  scope_evictions = without_pair (scope_id, row_id) s.scope_evictions;
})

-- The loop that marks rows for eviction.
unfoldable pub add_evictions : String → List String → Client → Client
unfolding add_pair
add_evictions scope_id [] s = s
add_evictions scope_id (row_id ∷ ids) s =
    add_evictions scope_id ids
      (record s { scope_evictions = add_pair (scope_id, row_id) s.scope_evictions })

unfoldable pub drop_members : String → Client → Client
unfolding without_scope
drop_members scope_id s = record s { scope_members = without_scope scope_id s.scope_members }

-- `current_state != Some((version, true))`, negated
unfoldable pub is_current : ℤ → Option ScopeState → Bool
is_current version none = false
is_current version (some state) = int_eq state.version version && state.active

module _ (cast_real print_real : ℕ → String) (parse_real : String → Option ℕ) where
  abbrev pub scope_request :
      String → ℕ → ReplicaInterest → List String → SyncPayload → PartialReplicaRequest
  scope_request scope_id scope_version interest known sync = record {
    scope_id = scope_id;
    scope_version = scope_version;
    interest = interest;
    known_member_ids = known;
    sync = sync;
  }

  -- `get_partial_replica_request`
  unfoldable pub get_partial_replica_request :
      TableDef → String → ReplicaInterest → Client → Result (Client × PartialReplicaRequest)
  unfolding next_version set_scope member_ids_of get_local_delta clock_from_i64
  get_partial_replica_request table scope_id interest s = do
    validate_identifier "scope_id" scope_id
    validate_interest interest table
    version ← next_version (get scope_id s.scope_states)
    let marked = set_scope scope_id (record { version = version; active = true }) s
    scope_version ← clock_from_i64 version
    sync ← get_local_delta parse_real table marked
    let known = member_ids_of scope_id s.scope_members
    let request = scope_request scope_id scope_version interest known sync
    validate_partial_request request table sync.source_device_id
    ok (marked, request)

  -- `apply_partial_replica_response`
  unfoldable pub apply_partial_replica_response :
      PartialReplicaRequest → PartialReplicaResponse → TableDef → Client → Result Client
  unfolding is_current evicted same_ids acknowledge_local_delta_with_response apply_remote_payload
      drop_members add_members add_evictions cleanup_pending_evictions clock_to_i64
  apply_partial_replica_response sent response table s = do
    validate_partial_request sent table s.device_id
    validate_partial_response response table
    reject_if
        (not (
          str_eq sent.scope_id response.scope_id && (sent.scope_version == response.scope_version)))
        scope_revision_differs
    version ← clock_to_i64 sent.scope_version
    reject_if (not (is_current version (get sent.scope_id s.scope_states))) stale_scope_response
    reject_if
        (not
          (same_ids (evicted response.member_ids sent.known_member_ids) response.evicted_row_ids))
        inconsistent_evictions
    acknowledged ← acknowledge_local_delta_with_response sent.sync response.sync table s
    applied ← apply_remote_payload cast_real print_real parse_real response.sync table acknowledged
    ok (
        cleanup_pending_evictions (
          add_evictions sent.scope_id response.evicted_row_ids
            (add_members sent.scope_id response.member_ids (drop_members sent.scope_id applied))))

  -- `remove_partial_replica_scope`
  unfoldable pub remove_partial_replica_scope : String → Client → Result Client
  unfolding next_version set_scope member_ids_of drop_members add_evictions
      cleanup_pending_evictions
  remove_partial_replica_scope scope_id s = do
    validate_identifier "scope_id" scope_id
    version ← next_version (get scope_id s.scope_states)
    let marked = set_scope scope_id (record { version = version; active = false }) s
    ok (
        cleanup_pending_evictions (
          add_evictions scope_id (member_ids_of scope_id s.scope_members)
            (drop_members scope_id marked)))
