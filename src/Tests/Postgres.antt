-- ===== src/Tests/Postgres.antt =====
-- The theorems on the PostgreSQL server at concrete requests.
use loomabase.Base.{◌≡◌, refl, not, some, All}
use loomabase.Base.Int.{pos, int_eq}
use loomabase.BTree.{get}
use loomabase.Order.Pair.{pair_ord}
use loomabase.Order.Text.{text_ord}
use loomabase.Error.{ok}
use loomabase.Value.{SyncPayload, RowChange}
use loomabase.Schema.{todos_table}
use loomabase.Merge.{new}
use loomabase.Merge.Advance.{entries}
use loomabase.Postgres.{read_stored}
use loomabase.Postgres.Merge.{merge_crdt_states_with_security}
use loomabase.Postgres.Others.{OthersKept}
use loomabase.Postgres.Isolation.{merge_server-OthersKept}
use loomabase.Postgres.Refines.{Represents, Refines, merge_server-Refines}
use loomabase.Postgres.Resume.{rotate-resets}
use loomabase.Postgres.Audit.{Audits, audited_entries}
use loomabase.Postgres.Logged.{merge_server-Audits}
use loomabase.Postgres.Bare.{HasRow, merge_server-HasRow}
use loomabase.Postgres.Scope.{ScopeAnswer, Reorders, merge_partial_replica-ScopeAnswer}
use loomabase.Tests.Runs.{first_request}
use loomabase.Tests.Database.{
  plain, ten, as_is, empty_database, audited_security, stored_first, server_first_answer,
  server_first_run, next_request, stored_rotated, rotated_answer, server_rotated_run, titles_denied,
  stored_denied, denied_answer, server_denied_run, mine, mine_answer, server_mine_run,
}

merge_server-OthersKept_example : OthersKept "acme" empty_database stored_first
merge_server-OthersKept_example =
    merge_server-OthersKept plain ten "u1" 100 first_request "a" "acme" todos_table audited_security
      empty_database stored_first server_first_answer server_first_run

empty-Represents : Represents "acme" empty_database (new todos_table)
unfolding new get read_stored
empty-Represents = record { cells = λ k. refl; clock = refl }

merge_server-Refines_example :
    Refines "acme" "a" todos_table audited_security first_request
      (new todos_table)
      stored_first
      server_first_answer
merge_server-Refines_example =
    merge_server-Refines plain ten "u1" 100 first_request "a" "acme" todos_table audited_security
      (new todos_table) empty_database stored_first server_first_answer empty-Represents
      server_first_run

rotate-resets_example :
    (rotated_answer.cursor_reset ≡ not (int_eq next_request.cursor (pos 0)))
    × (rotated_answer.server_epoch ≡ some "e2")
rotate-resets_example =
    rotate-resets plain ten "e2" "u2" 200 next_request "a" "acme" todos_table audited_security
      stored_first stored_rotated rotated_answer server_rotated_run

merge_server-Audits_example :
    Audits "acme"
      (audited_entries audited_security.audit_mode (entries first_request.changes))
      empty_database.audit_log
      stored_first.audit_log
merge_server-Audits_example =
    merge_server-Audits plain ten "u1" 100 first_request "a" "acme" todos_table audited_security
      empty_database stored_first server_first_answer server_first_run

merge_server-HasRow_example :
    All (λ (row : RowChange). HasRow "acme" stored_denied row.todo_id) first_request.changes
merge_server-HasRow_example =
    merge_server-HasRow plain ten "u1" 100 first_request "a" "acme" todos_table titles_denied
      empty_database stored_denied denied_answer server_denied_run

as_is-Reorders : {A : Type 0} → Reorders {A = A} as_is
as_is-Reorders x xs = (λ i. i, λ i. i)

merge_partial_replica-ScopeAnswer_example :
    (sync : SyncPayload) × (merge_crdt_states_with_security plain ten "u1" 100 first_request "a"
        "acme" todos_table audited_security empty_database
      ≡ ok (stored_first, sync))
    × ScopeAnswer "acme" mine stored_first todos_table sync mine_answer
merge_partial_replica-ScopeAnswer_example =
    merge_partial_replica-ScopeAnswer ten as_is as_is as_is-Reorders as_is-Reorders plain "u1" 100
      mine "a" "acme" todos_table audited_security empty_database stored_first mine_answer
      server_mine_run
