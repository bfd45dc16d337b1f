-- ===== src/Tests/Runs.antt =====
-- One accepted request, computed: the state after it and the response.
use loomabase.Base.{◌≡◌, refl, false, none, [], ◌∷◌}
use loomabase.Base.Int.{pos}
use loomabase.BTree.{get, insert, contains_key}
use loomabase.Order.Text.{text_ord}
use loomabase.Order.Pair.{pair_ord}
use loomabase.Error.{ok}
use loomabase.Value.{SyncPayload, server_device_id, value_eq}
use loomabase.Schema.{fingerprint, column_type, todos_table}
use loomabase.Validate.{validate_client_request, max_observed_clock}
use loomabase.Validate.Cell.{
  validate_column, validate_identifier, has_control, validate_clock, validate_clock_advance,
}
use loomabase.Merge.{CrdtState, new, merge_rows, merge_columns, merge_cell, apply_cell}
use loomabase.Merge.Advance.{open_security}
use loomabase.Feed.{candidates, fill_page, to_changes}
use loomabase.Server.{merge_inner, next_clock, respond, cursor_valid}
use loomabase.Tests.Fixtures.{forty, title_by, retitle}

abbrev pub first_request : SyncPayload
first_request = retitle "a" 1 "t" "x"

abbrev pub after_first : CrdtState
after_first = record {
  global_lamport = 2;
  cells = (("t", "title"), title_by "a" 1 "x") ∷ [];
  table = todos_table;
  seq = 1;
  cell_seq = (("t", "title"), 1) ∷ [];
  issued_cursors = ("a", pos 1) ∷ [];
}

abbrev pub first_answer : SyncPayload
first_answer = record {
  protocol_version = 4;
  schema_fingerprint = fingerprint todos_table;
  source_device_id = server_device_id;
  source_lamport = 2;
  changes = record { todo_id = "t"; columns = ("title", title_by "a" 1 "x") ∷ [] } ∷ [];
  cursor = pos 1;
  has_more = false;
  cursor_reset = false;
  cursor_token = none;
  server_epoch = none;
  rejections = [];
}

pub first_run :
    merge_inner forty first_request "a" open_security (new todos_table)
    ≡ ok (after_first, first_answer)
unfolding new merge_inner validate_client_request validate_column validate_identifier has_control
    validate_clock validate_clock_advance fingerprint column_type max_observed_clock merge_rows
    merge_columns merge_cell apply_cell next_clock respond candidates fill_page to_changes
    cursor_valid get insert contains_key text_ord pair_ord value_eq
first_run = refl
