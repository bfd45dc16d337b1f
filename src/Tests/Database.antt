-- ===== src/Tests/Database.antt =====
-- Requests to the PostgreSQL server, computed: the database after each and the response.
use loomabase.Base.{ℕ, String, ◌≡◌, refl, true, false, none, some, List, [], ◌∷◌}
use loomabase.Base.Int.{pos}
use loomabase.BTree.{get, insert, contains_key}
use loomabase.Order.Text.{text_ord}
use loomabase.Order.Pair.{pair_ord}
use loomabase.Error.{Result, ok}
use loomabase.Value
use loomabase.Value.{CrdtValue, SyncPayload, authorization_denied, value_eq}
use loomabase.Schema.{todos_table, fingerprint, column_type, crdt_table}
use loomabase.Validate.{validate_client_request, validate_server_response, max_observed_clock}
use loomabase.Validate.Cell.{
  validate_column, validate_identifier, has_control, validate_clock, validate_clock_advance,
  validate_rejection_reason, new_rejection,
}
use loomabase.Policy.{
  SyncSecurity, allow_all, noop, column_allow_list, deny_because, disabled, database, new_event,
}
use loomabase.Feed.{to_changes}
use loomabase.Server.{next_clock}
use loomabase.Explain.{explain_lww}
use loomabase.Replica.{
  PartialReplicaRequest, PartialReplicaResponse, id_prefix, validate_partial_request,
  validate_partial_response,
}
use loomabase.Postgres.{Database, AppRow, AuditRow, insert_row}
use loomabase.Postgres.Cell.{merge_server_rows}
use loomabase.Postgres.Page.{feed_query, read_page}
use loomabase.Postgres.Merge.{
  open_clock, set_clock, server_cursor_valid, renewed, renew_lease, answer, tenant_max_cursor,
  merge_crdt_states_with_security,
}
use loomabase.Postgres.Leases.{rotate_server_epoch}
use loomabase.Postgres.Partial.{answer_partial, merge_partial_replica_with_security}
use loomabase.Tests.Runs.{first_request, first_answer}

-- Text in quotation marks is taken as it is, and every value to serialize to ten bytes.
abbrev pub plain : String → String
plain s = s

abbrev pub ten : CrdtValue → Result ℕ
ten value = ok 10

abbrev pub empty_database : Database
empty_database = record {
  clocks = [];
  rows = [];
  cells = [];
  last_seq = 0;
  leases = [];
  server_epoch = "e1";
  audit_log = [];
}

abbrev pub audited_security : SyncSecurity
audited_security = record { authorizer = allow_all; validator = noop; audit_mode = database }

abbrev row_titled : String → AppRow
row_titled title =
    ("completed", Value.boolean false)
    ∷ ("deleted", Value.boolean false)
    ∷ ("title", Value.text title)
    ∷ []

abbrev first_audit : AuditRow
first_audit = record {
  tenant_id = "acme";
  table_name = "todos";
  todo_id = "t";
  column_name = "title";
  device_id = "a";
  outcome = "accepted";
  reason = "incoming value wins because the cell does not exist";
  incoming_value = Value.text "x";
  incoming_lamport = pos 1;
  incoming_device_id = "a";
  current_value = none;
  current_lamport = none;
  current_device_id = none;
}

abbrev pub stored_first : Database
stored_first = record {
  clocks = ("acme", pos 2) ∷ [];
  rows = (("acme", "t"), row_titled "x") ∷ [];
  cells =
      (
        ("acme", ("t", "title")),
        record { value = Value.text "x"; lamport_clock = pos 1; device_id = "a"; seq = 1 },
      )
      ∷ [];
  last_seq = 1;
  leases =
      (
        ("acme", ("a", "todos_crdt")),
        record {
          max_issued_cursor = pos 1;
          cursor_token = "u1";
          server_epoch = "e1";
          last_seen_at = 100;
        },
      )
      ∷ [];
  server_epoch = "e1";
  audit_log = first_audit ∷ [];
}

abbrev pub server_first_answer : SyncPayload
server_first_answer = record first_answer { cursor_token = some "u1"; server_epoch = some "e1" }

pub server_first_run :
    merge_crdt_states_with_security plain ten "u1" 100 first_request "a" "acme" todos_table
      audited_security empty_database
    ≡ ok (stored_first, server_first_answer)
unfolding merge_crdt_states_with_security validate_client_request validate_column
    validate_identifier has_control validate_clock validate_clock_advance fingerprint column_type
    crdt_table max_observed_clock merge_server_rows open_clock set_clock insert_row next_clock
    answer feed_query read_page to_changes server_cursor_valid tenant_max_cursor renewed renew_lease
    new_event validate_rejection_reason explain_lww get insert contains_key text_ord pair_ord
    value_eq
server_first_run = refl

-- The device comes back with the cursor, the token and the epoch that it got.
abbrev pub next_request : SyncPayload
next_request = record first_request {
  source_lamport = 2;
  changes = [];
  cursor = pos 1;
  cursor_token = some "u1";
  server_epoch = some "e1";
}

abbrev pub stored_next : Database
stored_next = record stored_first {
  clocks = ("acme", pos 3) ∷ [];
  leases =
      (
        ("acme", ("a", "todos_crdt")),
        record {
          max_issued_cursor = pos 1;
          cursor_token = "u1";
          server_epoch = "e1";
          last_seen_at = 200;
        },
      )
      ∷ [];
}

abbrev pub next_answer : SyncPayload
next_answer = record server_first_answer { source_lamport = 3; changes = [] }

pub server_next_run :
    merge_crdt_states_with_security plain ten "u2" 200 next_request "a" "acme" todos_table
      audited_security stored_first
    ≡ ok (stored_next, next_answer)
unfolding merge_crdt_states_with_security validate_client_request validate_column
    validate_identifier has_control validate_clock validate_clock_advance fingerprint column_type
    crdt_table max_observed_clock merge_server_rows open_clock set_clock insert_row next_clock
    answer feed_query read_page to_changes server_cursor_valid tenant_max_cursor renewed renew_lease
    new_event validate_rejection_reason explain_lww get insert contains_key text_ord pair_ord
    value_eq
server_next_run = refl

-- The same request after the epoch was rotated.
abbrev pub stored_rotated : Database
stored_rotated = record stored_next {
  server_epoch = "e2";
  leases =
      (
        ("acme", ("a", "todos_crdt")),
        record {
          max_issued_cursor = pos 1;
          cursor_token = "u2";
          server_epoch = "e2";
          last_seen_at = 200;
        },
      )
      ∷ [];
}

abbrev pub rotated_answer : SyncPayload
rotated_answer = record next_answer {
  changes = first_answer.changes;
  cursor_reset = true;
  cursor_token = some "u2";
  server_epoch = some "e2";
}

pub server_rotated_run :
    merge_crdt_states_with_security plain ten "u2" 200 next_request "a" "acme" todos_table
      audited_security
      (rotate_server_epoch "e2" stored_first).0
    ≡ ok (stored_rotated, rotated_answer)
unfolding rotate_server_epoch merge_crdt_states_with_security validate_client_request
    validate_column validate_identifier has_control validate_clock validate_clock_advance
    fingerprint column_type crdt_table max_observed_clock merge_server_rows open_clock set_clock
    insert_row next_clock answer feed_query read_page to_changes server_cursor_valid
    tenant_max_cursor renewed renew_lease new_event validate_rejection_reason explain_lww get insert
    contains_key text_ord pair_ord value_eq
server_rotated_run = refl

-- A server that lets nobody write a title, without an audit.
abbrev pub titles_denied : SyncSecurity
titles_denied = record {
  authorizer = column_allow_list (("completed", tt) ∷ []);
  validator = noop;
  audit_mode = disabled;
}

abbrev pub stored_denied : Database
stored_denied = record stored_first {
  rows = (("acme", "t"), row_titled "") ∷ [];
  cells = [];
  last_seq = 0;
  leases =
      (
        ("acme", ("a", "todos_crdt")),
        record {
          max_issued_cursor = pos 0;
          cursor_token = "u1";
          server_epoch = "e1";
          last_seen_at = 100;
        },
      )
      ∷ [];
  audit_log = [];
}

abbrev pub denied_answer : SyncPayload
denied_answer = record server_first_answer {
  changes = [];
  cursor = pos 0;
  rejections =
      record {
        todo_id = "t";
        column_name = "title";
        kind = authorization_denied;
        reason = "writes to column title are not authorized";
        value = Value.text "x";
        metadata = record { lamport_clock = 1; device_id = "a" };
      }
      ∷ [];
}

pub server_denied_run :
    merge_crdt_states_with_security plain ten "u1" 100 first_request "a" "acme" todos_table
      titles_denied empty_database
    ≡ ok (stored_denied, denied_answer)
unfolding column_allow_list deny_because new_rejection merge_crdt_states_with_security
    validate_client_request validate_column validate_identifier has_control validate_clock
    validate_clock_advance fingerprint column_type crdt_table max_observed_clock merge_server_rows
    open_clock set_clock insert_row next_clock answer feed_query read_page to_changes
    server_cursor_valid tenant_max_cursor renewed renew_lease new_event validate_rejection_reason
    explain_lww get insert contains_key text_ord pair_ord value_eq
server_denied_run = refl

-- A partial merge of the first request. The lists are in order as they are.
abbrev pub mine : PartialReplicaRequest
mine = record {
  scope_id = "mine";
  scope_version = 1;
  interest = record { predicates = id_prefix "t" ∷ []; limit = 10 };
  known_member_ids = "gone" ∷ [];
  sync = first_request;
}

abbrev pub mine_answer : PartialReplicaResponse
mine_answer = record {
  scope_id = "mine";
  scope_version = 1;
  member_ids = "t" ∷ [];
  evicted_row_ids = "gone" ∷ [];
  sync = server_first_answer;
}

abbrev pub as_is : {A : Type 0} → List A → List A
as_is xs = xs

pub server_mine_run :
    merge_partial_replica_with_security ten as_is as_is plain "u1" 100 mine "a" "acme" todos_table
      audited_security empty_database
    ≡ ok (stored_first, mine_answer)
unfolding merge_partial_replica_with_security answer_partial validate_partial_request
    validate_partial_response validate_server_response merge_crdt_states_with_security
    validate_client_request validate_column validate_identifier has_control validate_clock
    validate_clock_advance fingerprint column_type crdt_table max_observed_clock merge_server_rows
    open_clock set_clock insert_row next_clock answer feed_query read_page to_changes
    server_cursor_valid tenant_max_cursor renewed renew_lease new_event validate_rejection_reason
    explain_lww get insert contains_key text_ord pair_ord value_eq
server_mine_run = refl
