-- ===== src/Client/Pages.antt =====
-- The synchronization cycles of a client (src/client.rs): `sync_with`, `sync_until_caught_up`,
-- `sync_partial_with` and `reset_cursor`. The transport is a parameter, told which call it is; what
-- it answers may depend on all that happened. Each step is a transaction of its own.
pub mod Budget
use loomabase.Base.{ℕ, zero, suc, String, Bool, true, false, Option, none, some}
use loomabase.Base.Int.{ℤ, pos}
use loomabase.Error.{Result, ok, err, SyncError, sync_page_budget_exhausted}
use loomabase.Value.{SyncPayload}
use loomabase.Schema.{TableDef}
use loomabase.Replica.{ReplicaInterest, PartialReplicaRequest, PartialReplicaResponse}
use loomabase.Client.{Client}
use loomabase.Client.Sync.{get_local_delta}
use loomabase.Client.Remote.{complete_sync}
use loomabase.Client.Scope.{get_partial_replica_request, apply_partial_replica_response}

-- `MAX_SYNC_PAGES_PER_CALL`
abbrev pub max_sync_pages_per_call : ℕ
max_sync_pages_per_call = 100

-- `reset_cursor`
unfoldable pub reset_cursor : Client → Client
reset_cursor s = record s {
  stored_cursor = some (record { cursor = pos 0; cursor_token = none; server_epoch = none });
}

module _ (cast_real print_real : ℕ → String) (parse_real : String → Option ℕ)
    (table : TableDef) where
  -- The end of `sync_with`: a failed transaction leaves the client as it was.
  unfoldable pub finish_sync : SyncPayload → SyncPayload → Client → Client × Result SyncPayload
  unfolding complete_sync
  finish_sync outbound response s =
      elim (complete_sync cast_real print_real parse_real outbound response table s) [
        | err e ↦ (s, err e)
        | ok s' ↦ (s', ok response)
      ]

  -- `sync_with`
  unfoldable pub sync_with :
      (transport : SyncPayload → Result SyncPayload) → Client → Client × Result SyncPayload
  unfolding get_local_delta finish_sync
  sync_with transport s = elim (get_local_delta parse_real table s) [
    | err e ↦ (s, err e)
    | ok outbound ↦ elim (transport outbound) [
      | err e ↦ (s, err e)
      | ok response ↦ finish_sync outbound response s
    ]
  ]

  -- The loop of `sync_until_caught_up`, with the rounds that are left and the number of the call.
  unfoldable pub sync_pages :
      (transport : ℕ → SyncPayload → Result SyncPayload)
      → (rounds call : ℕ) → Client
      → Client × Result SyncPayload
  unfolding sync_with
  sync_pages transport zero call s = (s, err sync_page_budget_exhausted)
  sync_pages transport (suc rounds) call s = elim ((sync_with (transport call) s).1) [
    | err e ↦ ((sync_with (transport call) s).0, err e)
    | ok response ↦ elim response.has_more [
      | false ↦ ((sync_with (transport call) s).0, ok response)
      | true ↦ sync_pages transport rounds (suc call) ((sync_with (transport call) s).0)
    ]
  ]

  -- `sync_until_caught_up`
  unfoldable pub sync_until_caught_up :
      (transport : ℕ → SyncPayload → Result SyncPayload) → Client → Client × Result SyncPayload
  unfolding sync_pages
  sync_until_caught_up transport s = sync_pages transport max_sync_pages_per_call 0 s

  -- The end of `sync_partial_with`, once the request is made.
  unfoldable pub finish_partial :
      (transport : PartialReplicaRequest → Result PartialReplicaResponse)
      → PartialReplicaRequest
      → Client
      → Client × Result PartialReplicaResponse
  unfolding apply_partial_replica_response
  finish_partial transport outbound s = elim (transport outbound) [
    | err e ↦ (s, err e)
    | ok response ↦
        elim (apply_partial_replica_response cast_real print_real parse_real outbound response table
          s) [ err e ↦ (s, err e) | ok s' ↦ (s', ok response) ]
  ]

  -- `sync_partial_with`
  unfoldable pub sync_partial_with :
      String
      → ReplicaInterest
      → (transport : PartialReplicaRequest → Result PartialReplicaResponse) → Client
      → Client × Result PartialReplicaResponse
  unfolding get_partial_replica_request finish_partial
  sync_partial_with scope_id interest transport s =
      elim (get_partial_replica_request cast_real print_real parse_real table scope_id interest s) [
        | err e ↦ (s, err e)
        | ok made ↦ finish_partial transport made.1 made.0
      ]
