-- ===== src/Server/Inversion.antt =====
-- A merge that returned, taken apart into its steps.
use loomabase.Base.{ℕ, String, ◌≡◌, ap, sym, List, []}
use loomabase.Error.{Result, ok, Passes, bind-eq-ok, then-eq-ok, ok-injective}
use loomabase.Value.{CrdtColumn, SyncPayload, SyncRejection}
use loomabase.Validate.{validate_client_request, max_observed_clock}
use loomabase.Validate.Cell.{validate_clock_advance}
use loomabase.Policy.{SyncSecurity}
use loomabase.Merge.{CrdtState, merge_rows}
use loomabase.Feed.{Page, candidates, fill_page}
use loomabase.Server.{
  context_of, next_clock, effective_cursor, empty_page, final_cursor, issue_cursor, response_of,
  respond, merge_inner,
}

-- The working copy once the loop is done and the clock has advanced.
abbrev pub ticked : CrdtState → ℕ → CrdtState
ticked s clock = record s { global_lamport = clock }

module _ (json_len : CrdtColumn → Result ℕ) where
  pub record Accepted (payload : SyncPayload) (device : String) (security : SyncSecurity)
      (s s' : CrdtState) (response : SyncPayload) : Type 0 where
    pub valid : Passes (validate_client_request payload device s.table)
    pub advance : Passes (validate_clock_advance s.global_lamport (max_observed_clock payload))
    pub merged : CrdtState
    pub rejections : List SyncRejection
    pub loop :
        merge_rows security (context_of s device) payload.changes (s, []) ≡ ok (merged, rejections)
    pub clock : ℕ
    pub tick : next_clock merged.global_lamport (max_observed_clock payload) ≡ ok clock
    pub page : Page
    pub filled :
        fill_page json_len
          (candidates
            (ticked merged clock)
            (effective_cursor (ticked merged clock) device payload.cursor))
          (empty_page (effective_cursor (ticked merged clock) device payload.cursor))
        ≡ ok page
    pub state :
        s'
        ≡ issue_cursor device
            (final_cursor (ticked merged clock) page (
              candidates
                (ticked merged clock)
                (effective_cursor (ticked merged clock) device payload.cursor)))
            (ticked merged clock)
    pub answer :
        response
        ≡ response_of (ticked merged clock) device payload rejections page (
            candidates
              (ticked merged clock)
              (effective_cursor (ticked merged clock) device payload.cursor))

  pub merge_inner-Accepted :
      (payload : SyncPayload) (device : String) (security : SyncSecurity) (s s' : CrdtState)
      (response : SyncPayload)
      → merge_inner json_len payload device security s ≡ ok (s', response)
      → Accepted payload device security s s' response
  unfolding merge_inner respond
  merge_inner-Accepted payload device security s s' response h =
      let (valid, h₁) = then-eq-ok (validate_client_request payload device s.table) _ h in
      let (advance, h₂) =
        then-eq-ok (validate_clock_advance s.global_lamport (max_observed_clock payload)) _ h₁ in
      let (w, loop, h₃) =
        bind-eq-ok (merge_rows security (context_of s device) payload.changes (s, [])) _ h₂ in
      let (clock, tick, h₄) =
        bind-eq-ok (next_clock w.0.global_lamport (max_observed_clock payload)) _ h₃ in
      let (page, filled, h₅) = bind-eq-ok (fill_page json_len _ _) _ h₄ in
      record {
        valid = valid;
        advance = advance;
        merged = w.0;
        rejections = w.1;
        loop = loop;
        clock = clock;
        tick = tick;
        page = page;
        filled = filled;
        state = ap (λ (r : CrdtState × SyncPayload). r.0) (sym (ok-injective h₅));
        answer = ap (λ (r : CrdtState × SyncPayload). r.1) (sym (ok-injective h₅));
      }
