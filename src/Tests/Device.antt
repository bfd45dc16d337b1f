-- ===== src/Tests/Device.antt =====
-- A client on the fixtures: an acknowledgement and a response, computed.
use loomabase.Base.{
  ℕ, ◌<◌, String, ◌≡◌, refl, true, false, Option, none, some, In, List, [], ◌∷◌, inl, inr,
}
use loomabase.Base.Int.{ℤ, pos}
use loomabase.BTree.{get, insert, contains_key}
use loomabase.Order.Text.{text_ord}
use loomabase.Order.Pair.{pair_ord}
use loomabase.Error.{ok}
use loomabase.Value.{CrdtColumn}
use loomabase.Schema.{fingerprint, column_type, todos_table, synchronized_columns}
use loomabase.Validate.{Key, validate_client_request, validate_server_response, max_observed_clock}
use loomabase.Validate.Cell.{validate_column, validate_identifier, has_control, validate_clock}
use loomabase.Merge.{should_apply}
use loomabase.Merge.Advance.{entries}
use loomabase.Server.{next_clock}
use loomabase.Client.{SqlValue, LogCell, Client}
use loomabase.Client.Codec.{clock_from_i64, clock_to_i64, crdt_to_sqlite, encode_sqlite_value}
use loomabase.Client.Evict.{cleanup_pending_evictions}
use loomabase.Client.Sync.{acknowledge_local_delta_with_response, acknowledge_rows}
use loomabase.Client.Sync.Pending.{IsPending, acknowledge_keeps_pending}
use loomabase.Client.Remote.{
  ensure_row, write_todo_column, read_local_crdt_column, upsert_cell, apply_remote_rows,
  apply_remote_payload,
}
use loomabase.Client.Local.{set_value, delete_live, restore_deleted, reject_liveness_column}
use loomabase.Client.Local.Written.{Written, set_value-Written, delete_restore-Written}
use loomabase.Base.Decimal.{decimal}
use loomabase.Client.{tick, capture, capture_text, print_integer}
use loomabase.Value
use loomabase.Value.{CrdtValue}
use loomabase.Client.Remote.{update_column}
use loomabase.Client.Remote.Merged.{LogHolds, LogGrows}
use loomabase.Client.Remote.Absorbed.{apply_remote-LogGrows}
use loomabase.Tests.Fixtures.{title_by}
use loomabase.Tests.Runs.{first_request, first_answer}

-- A title written after the request was sent.
abbrev newer_title : LogCell
newer_title = record { value = "z"; lamport_clock = pos 2; device_id = "a"; dirty = true }

abbrev busy : Client
busy = record {
  device_id = "a";
  lamport_clock = pos 2;
  applying_remote = false;
  rows =
      (
        "t",
        ("completed", SqlValue.integer (pos 0))
            ∷ ("deleted", SqlValue.integer (pos 0))
            ∷ ("title", SqlValue.text "z")
            ∷ [],
      )
      ∷ [];
  log = (("t", "title"), newer_title) ∷ [];
  stored_cursor = none;
  scope_members = [];
  scope_evictions = [];
  scope_states = [];
}

acknowledged :
    acknowledge_local_delta_with_response first_request first_answer todos_table busy ≡ ok busy
unfolding acknowledge_local_delta_with_response acknowledge_rows cleanup_pending_evictions
    validate_client_request validate_server_response validate_column validate_identifier has_control
    validate_clock fingerprint column_type get insert contains_key text_ord pair_ord clock_to_i64
acknowledged = refl

logged : get ("t", "title") busy.log ≡ some newer_title
unfolding get text_ord pair_ord
logged = refl

newer-IsPending :
    IsPending first_answer.rejections ("t", "title") newer_title (entries first_request.changes)
newer-IsPending c (inl e) = inr (differs c (λ i. (e i).1))
  where
    differs :
        (c : CrdtColumn)
        → c ≡ title_by "a" 1 "x"
        → loomabase.Client.Sync.Pending.has_version newer_title c.metadata ≡ false
    differs c e = rw e refl
newer-IsPending c (inr i) = absurd i

acknowledge_keeps_pending_example : get ("t", "title") busy.log ≡ some newer_title
acknowledge_keeps_pending_example =
    acknowledge_keeps_pending first_request first_answer todos_table busy busy ("t", "title")
      newer_title acknowledged logged refl newer-IsPending

abbrev no_text : ℕ → String
no_text bits = ""

abbrev no_real : String → Option ℕ
no_real raw = none

abbrev fresh : Client
fresh = record {
  device_id = "b";
  lamport_clock = pos 0;
  applying_remote = false;
  rows = [];
  log = [];
  stored_cursor = none;
  scope_members = [];
  scope_evictions = [];
  scope_states = [];
}

abbrev caught_up : Client
caught_up = record {
  device_id = "b";
  lamport_clock = pos 3;
  applying_remote = false;
  rows =
      (
        "t",
        ("completed", SqlValue.integer (pos 0))
            ∷ ("deleted", SqlValue.integer (pos 0))
            ∷ ("title", SqlValue.text "x")
            ∷ [],
      )
      ∷ [];
  log =
      (
        ("t", "title"),
        record { value = "x"; lamport_clock = pos 1; device_id = "a"; dirty = false },
      )
      ∷ [];
  stored_cursor = some (record { cursor = pos 1; cursor_token = none; server_epoch = none });
  scope_members = [];
  scope_evictions = [];
  scope_states = [];
}

applied : apply_remote_payload no_text no_text no_real first_answer todos_table fresh ≡ ok caught_up
unfolding apply_remote_payload apply_remote_rows ensure_row validate_server_response validate_column
    validate_identifier has_control validate_clock fingerprint column_type synchronized_columns
    max_observed_clock next_clock get insert contains_key text_ord pair_ord clock_from_i64
    clock_to_i64 read_local_crdt_column should_apply write_todo_column upsert_cell crdt_to_sqlite
    encode_sqlite_value
applied = refl

apply_remote-LogGrows_example :
    LogGrows fresh.log caught_up.log
    × ((k : Key) (c : CrdtColumn)
        → In (k, c) (entries first_answer.changes)
        → LogHolds caught_up.log k c.metadata)
    × ((clock : ℕ) × (caught_up.lamport_clock ≡ pos clock)
        × (max_observed_clock first_answer < clock))
apply_remote-LogGrows_example =
    apply_remote-LogGrows no_text no_text no_real todos_table first_answer fresh caught_up applied

abbrev retitled : Client
retitled = record busy {
  lamport_clock = pos 3;
  rows =
      (
        "t",
        ("completed", SqlValue.integer (pos 0))
            ∷ ("deleted", SqlValue.integer (pos 0))
            ∷ ("title", SqlValue.text "w")
            ∷ [],
      )
      ∷ [];
  log =
      (("t", "title"), record { value = "w"; lamport_clock = pos 3; device_id = "a"; dirty = true })
      ∷ [];
}

set_run :
    set_value no_text no_text no_real todos_table "t" "title" (Value.text "w") busy ≡ ok retitled
unfolding set_value reject_liveness_column validate_identifier has_control validate_column
    column_type crdt_to_sqlite update_column tick capture capture_text get insert text_ord pair_ord
set_run = refl

set_value-Written_example :
    (sql : SqlValue) × (crdt_to_sqlite (Value.text "w") ≡ ok sql)
    × Written no_text ("t", "title") sql busy retitled
set_value-Written_example =
    set_value-Written no_text no_text no_real todos_table "t" "title" (Value.text "w") busy retitled
      refl set_run

abbrev row_with : ℤ → List (String × SqlValue)
row_with flag =
    ("completed", SqlValue.integer (pos 0))
    ∷ ("deleted", SqlValue.integer flag)
    ∷ ("title", SqlValue.text "z")
    ∷ []

abbrev flag_at : ℤ → String → LogCell
flag_at clock flag = record { value = flag; lamport_clock = clock; device_id = "a"; dirty = true }

abbrev without_row : Client
without_row = record busy {
  lamport_clock = pos 3;
  rows = ("t", row_with (pos 1)) ∷ [];
  log = (("t", "deleted"), flag_at (pos 3) "1") ∷ (("t", "title"), newer_title) ∷ [];
}

abbrev with_row : Client
with_row = record busy {
  lamport_clock = pos 4;
  rows = ("t", row_with (pos 0)) ∷ [];
  log = (("t", "deleted"), flag_at (pos 4) "0") ∷ (("t", "title"), newer_title) ∷ [];
}

delete_run : delete_live no_text no_text no_real "t" busy ≡ ok without_row
unfolding delete_live validate_identifier has_control update_column tick capture capture_text get
    insert text_ord pair_ord print_integer decimal
delete_run = refl

restore_run : restore_deleted no_text no_text no_real "t" without_row ≡ ok with_row
unfolding restore_deleted validate_identifier has_control update_column tick capture capture_text
    get insert text_ord pair_ord print_integer decimal
restore_run = refl

delete_restore-Written_example :
    Written no_text ("t", "deleted") (SqlValue.integer (pos 1)) busy without_row
    × Written no_text ("t", "deleted") (SqlValue.integer (pos 0)) without_row with_row
delete_restore-Written_example =
    delete_restore-Written no_text no_text no_real "t" busy without_row with_row refl refl
      delete_run restore_run
