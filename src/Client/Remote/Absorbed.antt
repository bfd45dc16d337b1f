-- ===== src/Client/Remote/Absorbed.antt =====
-- A whole response: the log absorbs its cells, and the clock moves past all of them.
use loomabase.Base.{
  ℕ, ◌<◌, String, ◌≡◌, refl, sym, ap, subst, ◌∙◌, true, List, [], ◌∷◌, Option, In, arith,
}
use loomabase.Base.Int.{ℤ, pos}
use loomabase.BTree.{BTreeMap}
use loomabase.Order.Pair.{pair_ord}
use loomabase.Order.Text.{text_ord}
use loomabase.Error.{ok, bind-eq-ok, then-eq-ok, ok-injective}
use loomabase.Value.{CrdtColumn, RowChange, SyncPayload}
use loomabase.Schema.{TableDef}
use loomabase.Validate.{validate_server_response, max_observed_clock}
use loomabase.Merge.Advance.{entries, row_entries}
use loomabase.Server.{next_clock}
use loomabase.Client.{Client}
use loomabase.Client.Codec.{clock_from_i64, clock_to_i64}
use loomabase.Client.Remote.{
  ensure_row, apply_remote_cell, apply_remote_columns, apply_remote_rows, apply_remote_payload,
}
use loomabase.Client.Remote.Merged.{LogHolds, LogGrows}
use loomabase.Client.Remote.Growth.{Absorbs, Absorbs-nil, Absorbs-append, apply_remote_cell-Absorbs}

ensure_row-log :
    (table : TableDef) (row_id : String) (s : Client)
    → ((ensure_row table row_id s).log ≡ s.log)
      × ((ensure_row table row_id s).applying_remote ≡ s.applying_remote)
unfolding ensure_row
ensure_row-log table row_id s = ground arith

module _ (cast_real print_real : ℕ → String) (parse_real : String → Option ℕ)
    (table : TableDef) where
  apply_remote_columns-Absorbs :
      (todo_id : String) (columns : BTreeMap String CrdtColumn) (s s' : Client)
      → s.applying_remote ≡ true
      → apply_remote_columns cast_real print_real parse_real table todo_id columns s ≡ ok s'
      → Absorbs (row_entries todo_id columns) s s'
  unfolding apply_remote_columns
  apply_remote_columns-Absorbs todo_id [] s s' held h = Absorbs-nil s s' held (sym (ok-injective h))
  apply_remote_columns-Absorbs todo_id ((name, column) ∷ columns) s s' held h =
      let (t, first, rest) =
        bind-eq-ok
          (apply_remote_cell cast_real print_real parse_real table (todo_id, name) column s) _ h in
      let here =
        apply_remote_cell-Absorbs cast_real print_real parse_real table (todo_id, name) column s t
          held first in
      Absorbs-append (((todo_id, name), column) ∷ []) (row_entries todo_id columns) s t s' here
        (apply_remote_columns-Absorbs todo_id columns t s' here.held rest)

  apply_remote_rows-Absorbs :
      (changes : List RowChange) (s s' : Client)
      → s.applying_remote ≡ true
      → apply_remote_rows cast_real print_real parse_real table changes s ≡ ok s'
      → Absorbs (entries changes) s s'
  unfolding apply_remote_rows
  apply_remote_rows-Absorbs [] s s' held h = Absorbs-nil s s' held (sym (ok-injective h))
  apply_remote_rows-Absorbs (row ∷ changes) s s' held h =
      let start = ensure_row table row.todo_id s in
      let (same_log, same_flag) = ensure_row-log table row.todo_id s in
      let (t, first, rest) =
        bind-eq-ok
          (apply_remote_columns cast_real print_real parse_real table row.todo_id row.columns start)
          _ h in
      let here =
        apply_remote_columns-Absorbs row.todo_id row.columns start t (same_flag ∙ held) first in
      let from_s : Absorbs (row_entries row.todo_id row.columns) s t = record {
        grows = subst (λ l. LogGrows l t.log) same_log here.grows;
        holds = here.holds;
        held = here.held;
      } in
      Absorbs-append (row_entries row.todo_id row.columns) (entries changes) s t s' from_s
        (apply_remote_rows-Absorbs changes t s' here.held rest)

  -- When a client applies a response: the log keeps or passes every version that it had, each of
  -- its cells was there or is clean, it holds a version at least as late as every cell of the
  -- response, and the clock is above every clock that the response shows.
  pub apply_remote-LogGrows :
      (payload : SyncPayload) (s s' : Client)
      → apply_remote_payload cast_real print_real parse_real payload table s ≡ ok s'
      → LogGrows s.log s'.log
        × ((k : loomabase.Validate.Key) (c : CrdtColumn)
            → In (k, c) (entries payload.changes)
            → LogHolds s'.log k c.metadata)
        × ((clock : ℕ) × (s'.lamport_clock ≡ pos clock) × (max_observed_clock payload < clock))
  unfolding apply_remote_payload clock_from_i64 clock_to_i64 next_clock
  apply_remote-LogGrows payload s s' h =
      let (_, h₁) = then-eq-ok (validate_server_response payload table) _ h in
      let (current, _, h₂) = bind-eq-ok (clock_from_i64 s.lamport_clock) _ h₁ in
      let (applied, rows, h₃) =
        bind-eq-ok
          (apply_remote_rows cast_real print_real parse_real table payload.changes
            (record s { applying_remote = true }))
          _ h₂ in
      let (clock, ticked, h₄) = bind-eq-ok (next_clock current (max_observed_clock payload)) _ h₃ in
      let (stored, is_stored, h₅) = bind-eq-ok (clock_to_i64 clock) _ h₄ in
      let absorbed =
        apply_remote_rows-Absorbs payload.changes (record s { applying_remote = true }) applied refl
          rows in
      let same_log : s'.log ≡ applied.log = ap (λ (t : Client). t.log) (sym (ok-injective h₅)) in
      let same_clock : s'.lamport_clock ≡ stored =
        ap (λ (t : Client). t.lamport_clock) (sym (ok-injective h₅)) in
      (
        subst (LogGrows s.log) (sym same_log) absorbed.grows,
        λ k c i. subst (λ l. LogHolds l k c.metadata) (sym same_log) (absorbed.holds k c i),
        (clock, same_clock ∙ stored_as clock stored is_stored, past clock current ticked),
      )
    where
      stored_as : (n : ℕ) (z : ℤ) → clock_to_i64 n ≡ ok z → z ≡ pos n
      stored_as n z e = ground arith

      past :
          (n current : ℕ)
          → next_clock current (max_observed_clock payload) ≡ ok n
          → max_observed_clock payload < n
      past n current e = ground arith
