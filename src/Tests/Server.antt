-- ===== src/Tests/Server.antt =====
-- The theorems on the reference server at concrete requests.
use loomabase.Base.{◌<◌, ◌≤◌, ◌+◌, ◌≡◌, refl, false, All, List, [], ◌∷◌, arith, String}
use loomabase.Base.Int.{pos}
use loomabase.BTree.{BTreeMap, get, insert, contains_key}
use loomabase.Order.Text.{text_ord}
use loomabase.Order.Pair.{pair_ord}
use loomabase.Error.{ok}
use loomabase.Value
use loomabase.Value.{SyncPayload, SyncRejection, server_device_id, value_eq, authorization_denied}
use loomabase.Schema.{fingerprint, column_type, todos_table}
use loomabase.Validate.{validate_client_request, max_observed_clock}
use loomabase.Validate.Cell.{
  validate_column, validate_identifier, has_control, validate_clock, validate_clock_advance,
  new_rejection, validate_rejection_reason,
}
use loomabase.Policy.{column_allow_list, deny_because, noop, without_audit, disabled}
use loomabase.Merge.{
  CrdtState, new, merge_rows, merge_columns, merge_cell, apply_cell, push_rejection,
}
use loomabase.Merge.Advance.{entries, open_security}
use loomabase.Feed.{candidates, fill_page, to_changes}
use loomabase.Server.{merge, merge_with_security, merge_inner, next_clock, respond, cursor_valid}
use loomabase.Server.Convergence.{Delivery, deliver_all}
use loomabase.Server.Clock.{ClocksBelow, merge_clock_advances, merge-ClocksBelow}
use loomabase.Server.Rejections.{Answered, merge_accounts}
use loomabase.Server.Authorization.{merge_column_allow_list}
use loomabase.Server.Replay.{SameCells, merge_replay}
use loomabase.Server.Sequence.{IsSequenced}
use loomabase.Server.Pages.{ListsExactly, start_of, merge-IsSequenced, merge_page_exact}
use loomabase.Server.Cursor.{PageEnds, merge-PageEnds}
use loomabase.Tests.Fixtures.{forty, title_by, retitle}
use loomabase.Tests.Runs.{first_request, after_first, first_answer, first_run}

merge_clock_advances_example :
    ((new todos_table).global_lamport < after_first.global_lamport)
    × (max_observed_clock first_request < after_first.global_lamport)
    × (after_first.global_lamport ≤ (new todos_table).global_lamport + 1_000_001)
    × (first_answer.source_lamport ≡ after_first.global_lamport)
merge_clock_advances_example =
    merge_clock_advances forty first_request "a" open_security (new todos_table) after_first
      first_answer first_run

new-ClocksBelow : ClocksBelow (new todos_table)
unfolding new get
new-ClocksBelow k c e = absurd (ground arith)

merge-ClocksBelow_example : ClocksBelow after_first
merge-ClocksBelow_example =
    merge-ClocksBelow forty first_request "a" open_security (new todos_table) after_first
      first_answer first_run new-ClocksBelow

merge_accounts_example : All (Answered after_first first_answer) (entries first_request.changes)
merge_accounts_example =
    merge_accounts forty first_request "a" open_security (new todos_table) after_first first_answer
      first_run

new-IsSequenced : IsSequenced (new todos_table)
unfolding new get
new-IsSequenced = record {
  sorted = tt;
  numbered = λ k c e. absurd (ground arith);
  bounded = λ k n e. absurd (ground arith);
  distinct = λ k j n e f. absurd (ground arith);
}

new_room : (new todos_table).seq + 1 ≤ 9_223_372_036_854_775_807
unfolding new
new_room = omega arith

merge-IsSequenced_example : IsSequenced after_first
merge-IsSequenced_example =
    merge-IsSequenced forty first_request "a" open_security (new todos_table) after_first
      first_answer new-IsSequenced new_room first_run

merge_page_exact_example :
    ListsExactly (start_of (new todos_table) after_first "a" (pos 0)) after_first first_answer
merge_page_exact_example =
    merge_page_exact forty first_request "a" open_security (new todos_table) after_first
      first_answer new-IsSequenced new_room first_run

merge-PageEnds_example :
    PageEnds (start_of (new todos_table) after_first "a" (pos 0)) after_first "a" first_answer
merge-PageEnds_example =
    merge-PageEnds forty first_request "a" open_security (new todos_table) after_first first_answer
      new-IsSequenced new_room first_run

-- The request of `a` arrives again after one of `b` on the same cell.
abbrev between : List Delivery
between = (retitle "b" 2 "t" "y", "b") ∷ []

abbrev after_again : CrdtState
after_again = record {
  global_lamport = 4;
  cells = (("t", "title"), title_by "b" 2 "y") ∷ [];
  table = todos_table;
  seq = 2;
  cell_seq = (("t", "title"), 2) ∷ [];
  issued_cursors = ("a", pos 2) ∷ ("b", pos 2) ∷ [];
}

abbrev answer_again : SyncPayload
answer_again = record first_answer {
  source_lamport = 4;
  changes = record { todo_id = "t"; columns = ("title", title_by "b" 2 "y") ∷ [] } ∷ [];
  cursor = pos 2;
}

run_again :
    merge_inner forty first_request "a" open_security (deliver_all forty between after_first)
    ≡ ok (after_again, answer_again)
unfolding new merge merge_with_security merge_inner validate_client_request validate_column
    validate_identifier has_control validate_clock validate_clock_advance fingerprint column_type
    max_observed_clock merge_rows merge_columns merge_cell apply_cell next_clock respond candidates
    fill_page to_changes cursor_valid get insert contains_key text_ord pair_ord value_eq deliver_all
run_again = refl

merge_replay_example : SameCells (deliver_all forty between after_first) after_again
merge_replay_example =
    merge_replay forty first_request "a" (new todos_table) after_first first_answer between "a"
      open_security after_again answer_again first_run run_again

-- A server that lets nobody write a title.
abbrev after_denied : CrdtState
after_denied = record {
  global_lamport = 2;
  cells = [];
  table = todos_table;
  seq = 0;
  cell_seq = [];
  issued_cursors = ("a", pos 0) ∷ [];
}

abbrev answer_denied : SyncPayload
answer_denied = record first_answer {
  changes = [];
  cursor = pos 0;
  rejections =
      record {
        todo_id = "t";
        column_name = "title";
        kind = authorization_denied;
        reason = "writes to column title are not authorized";
        value = Value.text "x";
        metadata = record { lamport_clock = 1; device_id = "a" };
      }
      ∷ [];
}

run_denied :
    merge_inner forty first_request "a"
      (without_audit (column_allow_list (("completed", tt) ∷ [])) noop)
      (new todos_table)
    ≡ ok (after_denied, answer_denied)
unfolding new merge merge_with_security merge_inner validate_client_request validate_column
    validate_identifier has_control validate_clock validate_clock_advance fingerprint column_type
    max_observed_clock merge_rows merge_columns merge_cell apply_cell next_clock respond candidates
    fill_page to_changes cursor_valid get insert contains_key text_ord pair_ord value_eq
    column_allow_list deny_because push_rejection new_rejection validate_rejection_reason
run_denied = refl

abbrev completed_only : BTreeMap String Unit
completed_only = ("completed", tt) ∷ []

absent : contains_key "title" completed_only ≡ false
unfolding contains_key get text_ord
absent = refl

merge_column_allow_list_example :
    get ("t", "title") after_denied.cells ≡ get ("t", "title") (new todos_table).cells
merge_column_allow_list_example =
    merge_column_allow_list forty first_request "a" (("completed", tt) ∷ []) noop disabled
      (new todos_table) after_denied answer_denied ("t", "title") run_denied absent
