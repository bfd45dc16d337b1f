-- ===== src/Tests/Between.antt =====
-- A device comes back to the PostgreSQL server after another device of another tenant was there, and
-- after an expiry of leases.
use loomabase.Base.{ℕ, String, ◌≡◌, refl, sym, ap, arith, false, some, [], ◌∷◌, Option, none}
use loomabase.Base.Int.{pos}
use loomabase.BTree.{get, insert, contains_key}
use loomabase.Order.Text.{text_ord}
use loomabase.Order.Pair.{pair_ord}
use loomabase.Error.{ok}
use loomabase.Value.{SyncPayload, value_eq}
use loomabase.Schema.{todos_table, fingerprint, column_type, crdt_table}
use loomabase.Validate.{validate_client_request, max_observed_clock}
use loomabase.Validate.Cell.{
  validate_column, validate_identifier, has_control, validate_clock, validate_clock_advance,
  validate_rejection_reason,
}
use loomabase.Policy.{new_event}
use loomabase.Feed.{to_changes}
use loomabase.Server.{next_clock}
use loomabase.Explain.{explain_lww}
use loomabase.Postgres.{Database, Lease, insert_row}
use loomabase.Postgres.Cell.{merge_server_rows}
use loomabase.Postgres.Page.{feed_query, read_page}
use loomabase.Postgres.Merge.{
  open_clock, set_clock, server_cursor_valid, renewed, renew_lease, answer, tenant_max_cursor,
  merge_crdt_states_with_security,
}
use loomabase.Postgres.Leases.{Leases, is_inactive, expire_cursor_leases}
use loomabase.Tests.Runs.{first_request}
use loomabase.Postgres.Sequence.{HandedOut}
use loomabase.Postgres.Between.{ServerStep, ServerSteps, here, next, merges, expires}
use loomabase.Postgres.Resume.{merge_server_resumes}
use loomabase.Tests.Database.{
  plain, ten, as_is, empty_database, audited_security, stored_first, server_first_answer,
  server_first_run, next_request,
}

abbrev lease_at : String → ℕ → ℕ → Lease
lease_at token cursor seen = record {
  max_issued_cursor = pos cursor;
  cursor_token = token;
  server_epoch = "e1";
  last_seen_at = seen;
}

abbrev leases_at : ℕ → Leases
leases_at seen =
    (("acme", ("a", "todos_crdt")), lease_at "u1" 1 seen)
    ∷ (("globex", ("b", "todos_crdt")), lease_at "u3" 0 120)
    ∷ []

abbrev other_request : SyncPayload
other_request = record first_request { source_device_id = "b"; source_lamport = 2; changes = [] }

abbrev stored_other : Database
stored_other = record stored_first {
  clocks = ("acme", pos 2) ∷ ("globex", pos 3) ∷ [];
  leases = leases_at 100;
}

abbrev other_answer : SyncPayload
other_answer = record server_first_answer {
  source_lamport = 3;
  changes = [];
  cursor = pos 0;
  cursor_token = some "u3";
}

other_run :
    merge_crdt_states_with_security plain ten "u3" 120 other_request "b" "globex" todos_table
      audited_security stored_first
    ≡ ok (stored_other, other_answer)
unfolding merge_crdt_states_with_security validate_client_request validate_column
    validate_identifier has_control validate_clock validate_clock_advance fingerprint column_type
    crdt_table max_observed_clock merge_server_rows open_clock set_clock insert_row next_clock
    answer feed_query read_page to_changes server_cursor_valid tenant_max_cursor renewed renew_lease
    new_event validate_rejection_reason explain_lww get insert contains_key text_ord pair_ord
    value_eq
other_run = refl

expiry_run : expire_cursor_leases 150 100 stored_other ≡ ok (stored_other, 0)
unfolding expire_cursor_leases
expiry_run = refl

abbrev stored_back : Database
stored_back = record stored_other {
  clocks = ("acme", pos 3) ∷ ("globex", pos 3) ∷ [];
  leases = leases_at 200;
}

abbrev back_answer : SyncPayload
back_answer = record server_first_answer { source_lamport = 3; changes = [] }

back_run :
    merge_crdt_states_with_security plain ten "u2" 200 next_request "a" "acme" todos_table
      audited_security stored_other
    ≡ ok (stored_back, back_answer)
unfolding merge_crdt_states_with_security validate_client_request validate_column
    validate_identifier has_control validate_clock validate_clock_advance fingerprint column_type
    crdt_table max_observed_clock merge_server_rows open_clock set_clock insert_row next_clock
    answer feed_query read_page to_changes server_cursor_valid tenant_max_cursor renewed renew_lease
    new_event validate_rejection_reason explain_lww get insert contains_key text_ord pair_ord
    value_eq
back_run = refl

empty-HandedOut : HandedOut "acme" empty_database
unfolding tenant_max_cursor
empty-HandedOut = omega arith

other_device_came :
    ServerStep plain ten as_is as_is "acme" "a" todos_table stored_first stored_other
other_device_came =
    merges "u3" 120 other_request "b" "globex" todos_table audited_security other_answer other_run

leases_expired : ServerStep plain ten as_is as_is "acme" "a" todos_table stored_other stored_other
unfolding get text_ord pair_ord crdt_table
leases_expired = expires 150 100 0 expiry_run (λ lease h.
    let found : some (lease_at "u1" 1 100) ≡ some lease = h in
    ap (λ (o : Option Lease). elim o [ none ↦ false | some l ↦ is_inactive 150 100 l ]) (sym found))

between : ServerSteps plain ten as_is as_is "acme" "a" todos_table stored_first stored_other
between = next (next here other_device_came) leases_expired

merge_server_resumes_example : back_answer.cursor_reset ≡ false
merge_server_resumes_example =
    merge_server_resumes plain ten as_is as_is "u1" "u2" 100 200 first_request next_request "a"
      "acme" todos_table audited_security audited_security empty_database stored_first stored_other
      stored_back server_first_answer back_answer empty-HandedOut server_first_run between refl refl
      refl back_run
