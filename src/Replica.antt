-- ===== src/Replica.antt =====
-- src/replica.rs: partial replicas. A client names its interest in a few predicates; the server
-- answers with the rows that match. Here are the interests and the checks of a request and a
-- response; Replica/Partial.antt has `merge_partial`, Replica/Plan.antt the query plan.
pub mod Partial
pub mod Plan
use Prim.Native.String.{len}
use package.text.Mathlib.Text.{◌==◌ as str_eq, starts_with}
use loomabase.Base.{
  ℕ, String, Bool, true, false, ◌||◌, not, Option, none, some, List, [], ◌∷◌, map, any, all, length,
  leb, ltb, ◌==◌, if◌then◌else◌,
}
use loomabase.Order.{is_lt}
use loomabase.Order.Text.{text_ord}
use loomabase.BTree.{BTreeMap, get}
use loomabase.Error.{
  Result, ok, err, Check, reject_if, ◌>>◌, interest_limit_out_of_range, too_many_predicates,
  invalid_id_predicate, too_many_members, members_not_sorted, invalid_scope_version,
  member_also_evicted, snapshot_rows_differ,
}
use loomabase.Value.{
  CrdtValue, SyncPayload, RowChange, value_eq, max_payload_rows, max_storable_lamport,
}
use loomabase.Schema.{TableDef}
use loomabase.Validate.{validate_client_request, validate_server_response}
use loomabase.Validate.Cell.{validate_column, validate_identifier}

abbrev pub max_known_members : ℕ
max_known_members = 100_000

pub data ReplicaPredicate : Type 0 where
  id_equals id_prefix : String → ReplicaPredicate
  column_equals : (column : String) (value : CrdtValue) → ReplicaPredicate

pub record ReplicaInterest : Type 0 where
  pub predicates : List ReplicaPredicate
  pub limit : ℕ

pub record PartialReplicaRequest : Type 0 where
  pub scope_id : String
  pub scope_version : ℕ
  pub interest : ReplicaInterest
  pub known_member_ids : List String
  pub sync : SyncPayload

pub record PartialReplicaResponse : Type 0 where
  pub scope_id : String
  pub scope_version : ℕ
  pub member_ids : List String
  pub evicted_row_ids : List String
  pub sync : SyncPayload

abbrev check_id : String → Check
check_id value = reject_if (str_eq value "" || ltb 255 (len value)) invalid_id_predicate

-- The `match` in the loop of `ReplicaInterest::validate`.
unfoldable pub validate_predicate : TableDef → ReplicaPredicate → Check
validate_predicate table (id_equals value) = check_id value
validate_predicate table (id_prefix value) = check_id value
validate_predicate table (column_equals column value) = validate_column table column value

unfoldable pub validate_predicates : TableDef → List ReplicaPredicate → Check
unfolding validate_predicate
validate_predicates table [] = ok tt
validate_predicates table (p ∷ ps) = do validate_predicate table p; validate_predicates table ps

-- `ReplicaInterest::validate`
unfoldable pub validate_interest : ReplicaInterest → TableDef → Check
unfolding validate_predicates
validate_interest interest table = do
  reject_if (interest.limit == 0 || ltb max_payload_rows interest.limit) interest_limit_out_of_range
  reject_if (ltb 32 (length interest.predicates)) too_many_predicates
  validate_predicates table interest.predicates

abbrev pub is_value : Option CrdtValue → CrdtValue → Bool
is_value none value = false
is_value (some found) value = value_eq found value

-- The closure of `ReplicaInterest::matches`.
unfoldable pub matches_predicate : String → BTreeMap String CrdtValue → ReplicaPredicate → Bool
unfolding value_eq
matches_predicate row_id values (id_equals expected) = str_eq row_id expected
matches_predicate row_id values (id_prefix prefix) = starts_with row_id prefix
matches_predicate row_id values (column_equals column value) = is_value (get column values) value

-- `ReplicaInterest::matches`
unfoldable pub matches : ReplicaInterest → String → BTreeMap String CrdtValue → Bool
unfolding matches_predicate
matches interest row_id values = all (matches_predicate row_id values) interest.predicates

-- `previous.is_some_and(|value| value >= id)`
abbrev pub not_after : Option String → String → Bool
not_after none id = false
not_after (some value) id = not (is_lt (text_ord.cmp value id))

unfoldable pub check_members : Option String → List String → Check
unfolding text_ord
check_members previous [] = ok tt
check_members previous (id ∷ ids) = do
  validate_identifier "partial replica member ID" id
  reject_if (not_after previous id) members_not_sorted
  check_members (some id) ids

unfoldable pub validate_member_ids : List String → Check
unfolding check_members
validate_member_ids ids = do
  reject_if (ltb max_known_members (length ids)) too_many_members
  check_members none ids

unfoldable pub validate_scope_version : ℕ → Check
validate_scope_version version =
    reject_if (version == 0 || ltb max_storable_lamport version) invalid_scope_version

-- `PartialReplicaRequest::validate`
unfoldable pub validate_partial_request : PartialReplicaRequest → TableDef → String → Check
unfolding validate_scope_version validate_interest validate_member_ids
validate_partial_request request table device = do
  validate_identifier "scope_id" request.scope_id
  validate_scope_version request.scope_version
  validate_interest request.interest table
  validate_client_request request.sync device table
  validate_member_ids request.known_member_ids

-- `binary_search(id).is_ok()`: each list that the code searches was checked, or built, sorted.
abbrev pub contains_id : List String → String → Bool
contains_id ids id = any (λ other. str_eq other id) ids

-- `Iterator::ne` of two sequences of names, negated
unfoldable pub same_ids : List String → List String → Bool
same_ids [] [] = true
same_ids (a ∷ ids) (b ∷ others) = if str_eq a b then same_ids ids others else false
same_ids _ _ = false

-- `PartialReplicaResponse::validate`
unfoldable pub validate_partial_response : PartialReplicaResponse → TableDef → Check
unfolding validate_scope_version validate_member_ids same_ids
validate_partial_response response table = do
  validate_identifier "scope_id" response.scope_id
  validate_scope_version response.scope_version
  validate_server_response response.sync table
  validate_member_ids response.member_ids
  validate_member_ids response.evicted_row_ids
  reject_if (any (contains_id response.evicted_row_ids) response.member_ids) member_also_evicted
  reject_if
      (not (
        same_ids (map (λ (row : RowChange). row.todo_id) response.sync.changes)
          response.member_ids))
      snapshot_rows_differ
