-- ===== src/Postgres/Inversion.antt =====
-- A merge of the PostgreSQL server that returned, taken apart into its steps.
use loomabase.Base.{ℕ, String, ◌≡◌, ap, sym, List, []}
use loomabase.Base.Int.{ℤ}
use loomabase.Error.{Result, ok, Passes, bind-eq-ok, then-eq-ok, ok-injective}
use loomabase.Value.{CrdtValue, SyncPayload, SyncRejection}
use loomabase.Schema.{TableDef}
use loomabase.Validate.{validate_client_request, max_observed_clock}
use loomabase.Validate.Cell.{validate_clock_advance, validate_identifier}
use loomabase.Policy.{SyncSecurity}
use loomabase.Server.{next_clock}
use loomabase.Client.Codec.{clock_from_i64, clock_to_i64}
use loomabase.Postgres.{Database}
use loomabase.Postgres.Cell.{merge_server_rows}
use loomabase.Postgres.Page.{ServerPage, feed_query, start_page, read_page}
use loomabase.Postgres.Merge.{
  server_context, stored_clock_of, open_clock, set_clock, lease_of, page_start, issued_cursor,
  renewed, renew_lease, server_response, answer, merge_crdt_states_with_security,
}

module _ (debug_text : String → String) (value_len : CrdtValue → Result ℕ) (uuid : String) (now : ℕ)
    (payload : SyncPayload) (device tenant_id : String) (table : TableDef) (security : SyncSecurity)
    (db db' : Database) (response : SyncPayload) where
  pub record ServerAccepted : Type 0 where
    pub tenant_valid : Passes (validate_identifier "tenant_id" tenant_id)
    pub valid : Passes (validate_client_request payload device table)
    pub server_clock : ℕ
    pub reads_clock : clock_from_i64 (stored_clock_of tenant_id db.clocks) ≡ ok server_clock
    pub advance : Passes (validate_clock_advance server_clock (max_observed_clock payload))
    pub merged : Database
    pub rejections : List SyncRejection
    pub loop :
        merge_server_rows debug_text security
          (server_context tenant_id device table)
          payload.changes
          (open_clock tenant_id db, [])
        ≡ ok (merged, rejections)
    pub clock : ℕ
    pub ticks : next_clock server_clock (max_observed_clock payload) ≡ ok clock
    pub stored : ℤ
    pub stores : clock_to_i64 clock ≡ ok stored
    pub before_page : Database
    pub is_before_page : before_page ≡ set_clock tenant_id stored merged
    pub page : ServerPage
    pub reads :
        read_page value_len
          (feed_query tenant_id
            (page_start tenant_id device table payload before_page)
            before_page.cells)
          (start_page (page_start tenant_id device table payload before_page))
        ≡ ok page
    pub state :
        db'
        ≡ renew_lease uuid now tenant_id device table
            (issued_cursor tenant_id page before_page)
            before_page
    pub is_response :
        response
        ≡ server_response tenant_id device table payload clock rejections page
            (renewed uuid now
              (issued_cursor tenant_id page before_page)
              before_page.server_epoch
              (lease_of tenant_id device table before_page)).cursor_token
            before_page

  pub merge_server-Accepted :
      merge_crdt_states_with_security debug_text value_len uuid now payload device tenant_id table
          security db
        ≡ ok (db', response)
      → ServerAccepted
  unfolding merge_crdt_states_with_security answer
  merge_server-Accepted h =
      let (tenant_valid, h₁) = then-eq-ok (validate_identifier "tenant_id" tenant_id) _ h in
      let (valid, h₂) = then-eq-ok (validate_client_request payload device table) _ h₁ in
      let (server_clock, reads_clock, h₃) =
        bind-eq-ok (clock_from_i64 (stored_clock_of tenant_id db.clocks)) _ h₂ in
      let (advance, h₄) =
        then-eq-ok (validate_clock_advance server_clock (max_observed_clock payload)) _ h₃ in
      let (w, loop, h₅) =
        bind-eq-ok
          (merge_server_rows debug_text security (server_context tenant_id device table)
            payload.changes (open_clock tenant_id db, []))
          _ h₄ in
      let (clock, ticks, h₆) =
        bind-eq-ok (next_clock server_clock (max_observed_clock payload)) _ h₅ in
      let (stored, stores, h₇) = bind-eq-ok (clock_to_i64 clock) _ h₆ in
      let before = set_clock tenant_id stored w.0 in
      let (page, reads, h₈) =
        bind-eq-ok
          (read_page value_len
            (feed_query tenant_id (page_start tenant_id device table payload before) before.cells)
            (start_page (page_start tenant_id device table payload before)))
          _ h₇ in
      record {
        tenant_valid = tenant_valid;
        valid = valid;
        server_clock = server_clock;
        reads_clock = reads_clock;
        advance = advance;
        merged = w.0;
        rejections = w.1;
        loop = loop;
        clock = clock;
        ticks = ticks;
        stored = stored;
        stores = stores;
        before_page = before;
        is_before_page = λ i. before;
        page = page;
        reads = reads;
        state = ap (λ (r : Database × SyncPayload). r.0) (sym (ok-injective h₈));
        is_response = ap (λ (r : Database × SyncPayload). r.1) (sym (ok-injective h₈));
      }
