-- ===== src/Tests/Scopes.antt =====
-- A partial replica request, computed.
use loomabase.Base.{◌≡◌, refl, [], ◌∷◌}
use loomabase.BTree.{get, insert, contains_key}
use loomabase.BTree.Sorted.{IsSorted}
use loomabase.Order.Text.{text_ord}
use loomabase.Order.Pair.{pair_ord}
use loomabase.Error.{ok}
use loomabase.Value.{value_eq}
use loomabase.Schema.{fingerprint, column_type, todos_table}
use loomabase.Validate.{validate_client_request, validate_server_response, max_observed_clock}
use loomabase.Validate.Cell.{
  validate_column, validate_identifier, has_control, validate_clock, validate_clock_advance,
}
use loomabase.Merge.{new, merge_rows, merge_columns, merge_cell, apply_cell}
use loomabase.Feed.{candidates, fill_page, to_changes}
use loomabase.Server.{merge_inner, next_clock, respond, cursor_valid}
use loomabase.Replica.{
  PartialReplicaRequest, PartialReplicaResponse, id_prefix, matches, validate_partial_request,
  validate_partial_response,
}
use loomabase.Replica.Partial.{merge_partial_inner}
use loomabase.Replica.Partial.Answer.{PartialAnswer, merge_partial_answers}
use loomabase.Tests.Fixtures.{forty}
use loomabase.Tests.Runs.{first_request, after_first, first_answer}

abbrev scope_request : PartialReplicaRequest
scope_request = record {
  scope_id = "mine";
  scope_version = 1;
  interest = record { predicates = id_prefix "t" ∷ []; limit = 10 };
  known_member_ids = "gone" ∷ [];
  sync = first_request;
}

abbrev scope_answer : PartialReplicaResponse
scope_answer = record {
  scope_id = "mine";
  scope_version = 1;
  member_ids = "t" ∷ [];
  evicted_row_ids = "gone" ∷ [];
  sync = first_answer;
}

scope_run :
    merge_partial_inner forty scope_request "a" (new todos_table) ≡ ok (after_first, scope_answer)
unfolding new merge_partial_inner merge_inner validate_client_request validate_server_response
    validate_column validate_identifier has_control validate_clock validate_clock_advance
    fingerprint column_type max_observed_clock merge_rows merge_columns merge_cell apply_cell
    next_clock respond candidates fill_page to_changes cursor_valid get insert contains_key text_ord
    pair_ord value_eq matches validate_partial_request validate_partial_response
scope_run = refl

empty-IsSorted : IsSorted (new todos_table).cells
unfolding new
empty-IsSorted = tt

merge_partial_answers_example : PartialAnswer scope_request after_first scope_answer
merge_partial_answers_example =
    merge_partial_answers forty scope_request "a" (new todos_table) after_first scope_answer
      empty-IsSorted scope_run
