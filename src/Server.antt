-- ===== src/Server.antt =====
-- `CrdtState::merge`, `merge_with_security` and `merge_inner` (src/crdt.rs): the checks, the merge,
-- the clock, the cursor, the page, and the atomic commit of the working copy.
pub mod Inversion
pub mod Convergence
pub mod Clock
pub mod Sequence
pub mod Coverage
pub mod Pages
pub mod Cursor
pub mod Authorization
pub mod Rejections
pub mod Replay
use loomabase.Base.{
  ℕ, ◌+◌, max, String, Bool, not, ◌&&◌, ◌||◌, none, some, List, [], ltb, length, if◌then◌else◌,
}
use loomabase.Base.Int.{ℤ, pos, int_eq, int_leb, int_max}
use loomabase.BTree.{BTreeMap, get, insert}
use loomabase.Order.Text.{text_ord}
use loomabase.Error.{Result, ok, err, ◌>>=◌, ◌>>◌, clock_overflow}
use loomabase.Value.{CrdtColumn, SyncPayload, SyncRejection, server_device_id, u64_max}
use loomabase.Schema.{fingerprint}
use loomabase.Validate.{validate_client_request, max_observed_clock}
use loomabase.Validate.Cell.{validate_clock_advance}
use loomabase.Policy.{SyncContext, SyncSecurity, without_audit, allow_all, noop}
use loomabase.Merge.{CrdtState, merge_rows}
use loomabase.Feed.{Candidate, Page, candidates, fill_page, to_changes, to_i64}

abbrev pub context_of : CrdtState → String → SyncContext
context_of s device = record {
  tenant_id = "reference-tenant";
  authenticated_device_id = device;
  table = s.table;
}

-- `self.global_lamport.max(observed_clock).checked_add(1).ok_or(ClockOverflow)?`
unfoldable pub next_clock : ℕ → ℕ → Result ℕ
next_clock current observed =
    if ltb (max current observed) u64_max then ok (max current observed + 1) else err clock_overflow

-- `self.issued_cursors.get(device).copied().unwrap_or(0)`
abbrev pub max_issued : BTreeMap String ℤ → String → ℤ
max_issued issued device = elim (get device issued) [ none ↦ pos 0 | some cursor ↦ cursor ]

-- `cursor_valid`
unfoldable pub cursor_valid : CrdtState → String → ℤ → Bool
cursor_valid s device cursor =
    int_eq cursor (pos 0)
    || (int_leb cursor (to_i64 s.seq) && int_leb cursor (max_issued s.issued_cursors device))

abbrev pub effective_cursor : CrdtState → String → ℤ → ℤ
effective_cursor s device cursor = if cursor_valid s device cursor then cursor else pos 0

-- `self.issued_cursors.entry(device).and_modify(…max…).or_insert(next_cursor)`
unfoldable pub issue_cursor : String → ℤ → CrdtState → CrdtState
issue_cursor device cursor s = record s {
  issued_cursors =
      insert device
        (elim (get device s.issued_cursors) [ none ↦ cursor | some old ↦ int_max old cursor ])
        s.issued_cursors;
}

abbrev pub empty_page : ℤ → Page
empty_page cursor = record {
  response_rows = [];
  response_bytes = 0;
  included = 0;
  next_cursor = cursor;
}

-- `included < candidates.len()`
abbrev pub page_has_more : Page → List Candidate → Bool
page_has_more page cs = ltb page.included (length cs)

abbrev pub final_cursor : CrdtState → Page → List Candidate → ℤ
final_cursor s page cs = if page_has_more page cs then page.next_cursor else to_i64 s.seq

-- The `SyncPayload` that `merge_inner` returns.
unfoldable pub response_of :
    CrdtState → String → SyncPayload → List SyncRejection → Page → List Candidate → SyncPayload
response_of s device request rejections page cs = record {
  protocol_version = request.protocol_version;
  schema_fingerprint = fingerprint s.table;
  source_device_id = server_device_id;
  source_lamport = s.global_lamport;
  changes = to_changes page.response_rows;
  cursor = final_cursor s page cs;
  has_more = page_has_more page cs;
  cursor_reset = not (int_eq request.cursor (pos 0)) && not (cursor_valid s device request.cursor);
  cursor_token = none;
  server_epoch = none;
  rejections = rejections;
}

-- `*self = working` on success; on an error the working copy is dropped.
abbrev pub commit : CrdtState → Result (CrdtState × SyncPayload) → CrdtState × Result SyncPayload
commit s (ok (working, response)) = (working, ok response)
commit s (err e) = (s, err e)

module _ (json_len : CrdtColumn → Result ℕ) where
  -- The part of `merge_inner` after the merge loop and the clock.
  unfoldable pub respond :
      String → SyncPayload → List SyncRejection → CrdtState → Result (CrdtState × SyncPayload)
  unfolding issue_cursor response_of
  respond device request rejections s = do
    let cs = candidates s (effective_cursor s device request.cursor)
    page ← fill_page json_len cs (empty_page (effective_cursor s device request.cursor))
    ok (
      issue_cursor device (final_cursor s page cs) s,
      response_of s device request rejections page cs,
    )

  -- `merge_inner`
  unfoldable pub merge_inner :
      SyncPayload → String → SyncSecurity → CrdtState → Result (CrdtState × SyncPayload)
  merge_inner payload device security s = do
    validate_client_request payload device s.table
    let observed_clock = max_observed_clock payload
    validate_clock_advance s.global_lamport observed_clock
    merged ← merge_rows security (context_of s device) payload.changes (s, [])
    clock ← next_clock merged.0.global_lamport observed_clock
    respond device payload merged.1 (record (merged.0) { global_lamport = clock })

  -- `merge_with_security`
  unfoldable pub merge_with_security :
      SyncPayload → String → SyncSecurity → CrdtState → CrdtState × Result SyncPayload
  merge_with_security payload device security s = commit s (merge_inner payload device security s)

  -- `merge`
  unfoldable pub merge : SyncPayload → String → CrdtState → CrdtState × Result SyncPayload
  merge payload device s = merge_with_security payload device (without_audit allow_all noop) s
