-- ===== src/Tests/Cycles.antt =====
-- The cycles, the scopes and the codec of a client at concrete inputs.

use loomabase.Base.{
  ℕ, zero, suc, String, ◌≡◌, ◌≢◌, refl, ap, true, false, Option, none, some, [], ◌∷◌, inl,
}
use loomabase.Base.Int.{pos}
use loomabase.BTree.{get, insert, contains_key}
use loomabase.Order.Text.{text_ord}
use loomabase.Order.Pair.{pair_ord}
use loomabase.Error.{Result, ok}
use loomabase.Value
use loomabase.Value.{SyncPayload, is_finite}
use loomabase.Schema.{todos_table, fingerprint, column_type}
use loomabase.Validate.{validate_client_request}
use loomabase.Validate.Cell.{validate_column, validate_identifier, has_control, validate_clock}
use loomabase.Replica.{
  ReplicaInterest, PartialReplicaRequest, PartialReplicaResponse, id_prefix, validate_interest,
  validate_partial_request,
}
use loomabase.Feed.{to_changes}
use loomabase.Client.{Client}
use loomabase.Client.Codec.{clock_from_i64}
use loomabase.Client.Codec.RoundTrip.{ReadsBack, decode-encode}
use loomabase.Client.Sync.{get_local_delta}
use loomabase.Client.Scope.{
  next_version, set_scope, member_ids_of, get_partial_replica_request,
  apply_partial_replica_response,
}
use loomabase.Client.Scope.Steps.{ClientSteps, here, next, resets}
use loomabase.Client.Scope.Stale.{stale_answer_refused}
use loomabase.Client.Pages.{sync_until_caught_up, reset_cursor}
use loomabase.Client.Pages.Budget.{Ended, sync_until_caught_up-Ended}
use loomabase.Tests.Runs.{first_answer}

-- A number as so many strokes.
strokes : ℕ → String
strokes zero = String.[]
strokes (suc n) = String.◌∷◌ "|" (strokes n)

count : String → Option ℕ
count String.[] = some 0
count (String.◌∷◌ c s) = elim (count s) [ none ↦ none | some n ↦ some (suc n) ]

count-strokes : (n : ℕ) → count (strokes n) ≡ some n
unfolding count strokes
count-strokes zero = refl
count-strokes (suc n) =
    ap (λ (o : Option ℕ). elim o as (λ x. Option ℕ) [ none ↦ none | some m ↦ some (suc m) ])
      (count-strokes n)

title_valid : validate_column todos_table "title" (Value.text "x") ≡ ok tt
unfolding validate_column column_type
title_valid = refl

decode-encode_example :
    ReadsBack strokes count (λ r finite. count-strokes r) todos_table "title" (Value.text "x")
decode-encode_example =
    decode-encode strokes count (λ r finite. count-strokes r) todos_table "title" (Value.text "x")
      title_valid tt

abbrev no_text : ℕ → String
no_text bits = ""

abbrev no_real : String → Option ℕ
no_real raw = none

abbrev idle : Client
idle = record {
  device_id = "b";
  lamport_clock = pos 0;
  applying_remote = false;
  rows = [];
  log = [];
  stored_cursor = none;
  scope_members = ("mine", "t") ∷ [];
  scope_evictions = [];
  scope_states = [];
}

abbrev mine : ReplicaInterest
mine = record { predicates = id_prefix "t" ∷ []; limit = 10 }

abbrev empty_delta : SyncPayload
empty_delta = record {
  protocol_version = 4;
  schema_fingerprint = fingerprint todos_table;
  source_device_id = "b";
  source_lamport = 0;
  changes = [];
  cursor = pos 0;
  has_more = false;
  cursor_reset = false;
  cursor_token = none;
  server_epoch = none;
  rejections = [];
}

abbrev request_of : ℕ → PartialReplicaRequest
request_of version = record {
  scope_id = "mine";
  scope_version = version;
  interest = mine;
  known_member_ids = "t" ∷ [];
  sync = empty_delta;
}

abbrev at_version : ℕ → Client
at_version version = record idle {
  scope_states = ("mine", record { version = pos version; active = true }) ∷ [];
}

first_asked :
    get_partial_replica_request no_text no_text no_real todos_table "mine" mine idle
    ≡ ok (at_version 1, request_of 1)
unfolding get_partial_replica_request next_version set_scope member_ids_of get_local_delta
    to_changes clock_from_i64 validate_identifier has_control validate_interest
    validate_partial_request validate_client_request validate_clock fingerprint get insert
    contains_key text_ord pair_ord
first_asked = refl

again_asked :
    get_partial_replica_request no_text no_text no_real todos_table "mine" mine (at_version 1)
    ≡ ok (at_version 2, request_of 2)
unfolding get_partial_replica_request next_version set_scope member_ids_of get_local_delta
    to_changes clock_from_i64 validate_identifier has_control validate_interest
    validate_partial_request validate_client_request validate_clock fingerprint get insert
    contains_key text_ord pair_ord
again_asked = refl

abbrev late_answer : PartialReplicaResponse
late_answer = record {
  scope_id = "mine";
  scope_version = 1;
  member_ids = "t" ∷ [];
  evicted_row_ids = [];
  sync = first_answer;
}

cursor_reset_after :
    ClientSteps no_text no_text no_real todos_table (at_version 2) (reset_cursor (at_version 2))
cursor_reset_after = next here (resets refl)

stale_answer_refused_example :
    apply_partial_replica_response no_text no_text no_real
      (request_of 1)
      late_answer
      todos_table
      (reset_cursor (at_version 2))
    ≢ ok (at_version 2)
stale_answer_refused_example =
    stale_answer_refused no_text no_text no_real todos_table "mine" mine (request_of 1) late_answer
      idle (at_version 1) (at_version 1) (at_version 2) (reset_cursor (at_version 2)) (at_version 2)
      first_asked here (inl (mine, request_of 2, again_asked)) cursor_reset_after

-- A transport that always gives the same answer.
abbrev same_answer : ℕ → SyncPayload → Result SyncPayload
same_answer call sent = ok first_answer

sync_until_caught_up-Ended_example :
    Ended no_text no_text no_real todos_table same_answer 100 0 idle
      (sync_until_caught_up no_text no_text no_real todos_table same_answer idle)
sync_until_caught_up-Ended_example =
    sync_until_caught_up-Ended no_text no_text no_real todos_table same_answer idle
