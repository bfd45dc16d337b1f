-- ===== src/Postgres/Merge.antt =====
-- `merge_crdt_states_with_security` and `merge_crdt_states` (src/server.rs): the checks, the clock
-- of the tenant, the merge loop, the cursor lease of the device, and the page. The advisory lock
-- and the session's tenant leave the tables as they are.
use package.text.Mathlib.Text.{◌==◌ as str_eq}
use loomabase.Base.{
  ℕ, String, Bool, false, ◌&&◌, ◌||◌, not, Option, none, some, List, [], ltb, if◌then◌else◌,
}
use loomabase.Base.Int.{ℤ, pos, int_eq, int_leb, int_max}
use loomabase.BTree.{BTreeMap, get, insert}
use loomabase.Order.Pair.{pair_ord}
use loomabase.Order.Text.{text_ord}
use loomabase.Error.{Result, ok, ◌>>=◌, ◌>>◌}
use loomabase.Value.{CrdtValue, SyncPayload, SyncRejection, server_device_id}
use loomabase.Schema.{TableDef, crdt_table, fingerprint}
use loomabase.Validate.{validate_client_request, max_observed_clock}
use loomabase.Validate.Cell.{validate_identifier, validate_clock_advance}
use loomabase.Policy.{SyncContext, SyncSecurity, default_security}
use loomabase.Feed.{to_changes}
use loomabase.Server.{next_clock}
use loomabase.Client.Codec.{clock_from_i64, clock_to_i64}
use loomabase.Postgres.{Database, Lease}
use loomabase.Postgres.Cell.{merge_server_rows}
use loomabase.Postgres.Page.{ServerPage, tenant_cells, max_seq, feed_query, start_page, read_page}

abbrev pub server_context : String → String → TableDef → SyncContext
server_context tenant_id device table = record {
  tenant_id = tenant_id;
  authenticated_device_id = device;
  table = table;
}

-- The clock that the upsert of `loomabase_state` returns.
abbrev pub stored_clock_of : String → BTreeMap String ℤ → ℤ
stored_clock_of tenant_id clocks = elim (get tenant_id clocks) [ none ↦ pos 0 | some clock ↦ clock ]

-- `INSERT INTO loomabase_state … ON CONFLICT …` and `UPDATE loomabase_state …`
unfoldable pub set_clock : String → ℤ → Database → Database
set_clock tenant_id clock db = record db { clocks = insert tenant_id clock db.clocks }

unfoldable pub open_clock : String → Database → Database
unfolding set_clock
open_clock tenant_id db = set_clock tenant_id (stored_clock_of tenant_id db.clocks) db

-- `tenant_max_cursor`
unfoldable pub tenant_max_cursor : String → Database → ℤ
unfolding max_seq tenant_cells
tenant_max_cursor tenant_id db = pos (max_seq (tenant_cells tenant_id db.cells))

abbrev pub lease_key : String → String → TableDef → String × (String × String)
lease_key tenant_id device table = (tenant_id, (device, crdt_table table))

abbrev pub lease_of : String → String → TableDef → Database → Option Lease
lease_of tenant_id device table db = get (lease_key tenant_id device table) db.leases

-- `as_deref() == Some(text)`
abbrev pub is_text : Option String → String → Bool
is_text none expected = false
is_text (some found) expected = str_eq found expected

-- The closure of `lease.is_some_and(…)`.
unfoldable pub lease_allows : SyncPayload → ℤ → String → Option Lease → Bool
lease_allows request max_cursor epoch none = false
lease_allows request max_cursor epoch (some lease) =
    int_leb request.cursor max_cursor
    && (int_leb request.cursor lease.max_issued_cursor
        && (ltb request.protocol_version 4
            || (is_text request.cursor_token lease.cursor_token
                && (is_text request.server_epoch lease.server_epoch
                    && str_eq lease.server_epoch epoch))))

-- `cursor_valid`
unfoldable pub server_cursor_valid : String → String → TableDef → SyncPayload → Database → Bool
unfolding lease_allows tenant_max_cursor
server_cursor_valid tenant_id device table request db =
    int_eq request.cursor (pos 0)
    || lease_allows request (tenant_max_cursor tenant_id db) db.server_epoch
        (lease_of tenant_id device table db)

-- `effective_cursor`
abbrev pub page_start : String → String → TableDef → SyncPayload → Database → ℤ
page_start tenant_id device table request db =
    if server_cursor_valid tenant_id device table request db then request.cursor else pos 0

-- `if !has_more { next_cursor = tenant_max_cursor }`
abbrev pub issued_cursor : String → ServerPage → Database → ℤ
issued_cursor tenant_id page db =
    if page.has_more then page.next_cursor else tenant_max_cursor tenant_id db

-- The row that the upsert of `loomabase_cursor_lease` leaves. `uuid` is what `gen_random_uuid()`
-- draws, `now` is `clock_timestamp()`.
unfoldable pub renewed : (uuid : String) (now : ℕ) → ℤ → String → Option Lease → Lease
renewed uuid now cursor epoch none = record {
  max_issued_cursor = cursor;
  cursor_token = uuid;
  server_epoch = epoch;
  last_seen_at = now;
}
renewed uuid now cursor epoch (some lease) = record {
  max_issued_cursor = int_max lease.max_issued_cursor cursor;
  cursor_token = if str_eq lease.server_epoch epoch then lease.cursor_token else uuid;
  server_epoch = epoch;
  last_seen_at = now;
}

unfoldable pub renew_lease :
    (uuid : String) (now : ℕ) → String → String → TableDef → ℤ → Database → Database
unfolding renewed
renew_lease uuid now tenant_id device table cursor db = record db {
  leases =
      insert (lease_key tenant_id device table)
        (renewed uuid now cursor db.server_epoch (lease_of tenant_id device table db)) db.leases;
}

-- The `SyncPayload` that the merge returns.
abbrev pub server_response :
    String
    → String
    → TableDef
    → SyncPayload
    → ℕ
    → List SyncRejection
    → ServerPage
    → String
    → Database
    → SyncPayload
server_response tenant_id device table request clock rejections page token db = record {
  protocol_version = request.protocol_version;
  schema_fingerprint = fingerprint table;
  source_device_id = server_device_id;
  source_lamport = clock;
  changes = to_changes page.response_by_row;
  cursor = issued_cursor tenant_id page db;
  has_more = page.has_more;
  cursor_reset =
      not (int_eq request.cursor (pos 0))
      && not (server_cursor_valid tenant_id device table request db);
  cursor_token = some token;
  server_epoch = some db.server_epoch;
  rejections = rejections;
}

module _ (debug_text : String → String) (value_len : CrdtValue → Result ℕ) (uuid : String)
    (now : ℕ) where
  -- The part after the clock is stored: the page and the lease.
  unfoldable pub answer :
      String
      → String
      → TableDef
      → SyncPayload
      → ℕ
      → List SyncRejection
      → Database
      → Result (Database × SyncPayload)
  unfolding feed_query read_page renewed renew_lease server_cursor_valid
  answer tenant_id device table request clock rejections db = do
    let start = page_start tenant_id device table request db
    page ← read_page value_len (feed_query tenant_id start db.cells) (start_page start)
    let cursor = issued_cursor tenant_id page db
    let lease = renewed uuid now cursor db.server_epoch (lease_of tenant_id device table db)
    ok (
      renew_lease uuid now tenant_id device table cursor db,
      server_response tenant_id device table request clock rejections page lease.cursor_token db,
    )

  -- `merge_crdt_states_with_security`
  unfoldable pub merge_crdt_states_with_security :
      SyncPayload
      → String
      → String
      → TableDef
      → SyncSecurity
      → Database
      → Result (Database × SyncPayload)
  unfolding open_clock merge_server_rows next_clock set_clock answer clock_from_i64 clock_to_i64
  merge_crdt_states_with_security payload device tenant_id table security db = do
    validate_identifier "tenant_id" tenant_id
    validate_client_request payload device table
    let observed_clock = max_observed_clock payload
    server_clock ← clock_from_i64 (stored_clock_of tenant_id db.clocks)
    validate_clock_advance server_clock observed_clock
    merged ←
        merge_server_rows debug_text security (server_context tenant_id device table)
          payload.changes (open_clock tenant_id db, [])
    clock ← next_clock server_clock observed_clock
    stored ← clock_to_i64 clock
    answer tenant_id device table payload clock merged.1 (set_clock tenant_id stored merged.0)

  -- `merge_crdt_states`
  unfoldable pub merge_crdt_states :
      SyncPayload → String → String → TableDef → Database → Result (Database × SyncPayload)
  merge_crdt_states payload device tenant_id table db =
      merge_crdt_states_with_security payload device tenant_id table default_security db
