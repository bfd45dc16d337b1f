-- ===== src/Server/Replay.antt =====
-- A request that arrives again changes no cell.

use loomabase.Base.{ℕ, String, ◌≡◌, ap, ◌∙◌, inl, inr, List, [], ◌∷◌, ◌++◌, arith}
use loomabase.BTree.{BTreeMap}
use loomabase.Order.{gt_of_lt}
use loomabase.Order.Pair.{pair_ord}
use loomabase.Order.Text.{text_ord}
use loomabase.Error.{Result, ok, bind-eq-ok, ok-injective}
use loomabase.Value.{CrdtColumn, RowChange, SyncPayload}
use loomabase.Validate.{Key}
use loomabase.Lww.Laws.{metadata_ord, decide_lww-accept}
use loomabase.Policy.{SyncSecurity, SyncContext}
use loomabase.Merge.{CrdtState, Working, apply_cell, merge_cell, merge_columns, merge_rows}
use loomabase.Merge.Join.{Holds}
use loomabase.Merge.Advance.{
  Entries, entries, row_entries, Offered, Offered-keeps, open_security, merge_cell_cases,
  merge_rows-Offered,
}
use loomabase.Server.{context_of, issue_cursor, merge_inner}
use loomabase.Server.Inversion.{merge_inner-Accepted}
use loomabase.Server.Convergence.{Delivery, deliver_all, accepted_entries, deliver_all-Advances}

-- A version that is held already is not written again.
apply_cell_stale :
    (key : Key) (incoming : CrdtColumn) (w w' : Working)
    → Holds w.0.cells key incoming.metadata
    → apply_cell key incoming w ≡ ok w'
    → w'.0 ≡ w.0
unfolding apply_cell
apply_cell_stale key incoming w w' (c, e, le) h =
    ground
      (arith, decide_lww-accept c.metadata incoming.metadata, gt_of_lt c.metadata incoming.metadata)

Offered-append_cases :
    (xs ys : Entries) (cells : BTreeMap Key CrdtColumn)
    → Offered (xs ++ ys) cells
    → Offered xs cells × Offered ys cells
Offered-append_cases [] ys cells o = (tt, o)
Offered-append_cases (x ∷ xs) ys cells (h, o) =
    let (l, r) = Offered-append_cases xs ys cells o in ((h, l), r)

module _ (security : SyncSecurity) (context : SyncContext) where
  merge_cell_stale :
      (key : Key) (incoming : CrdtColumn) (w w' : Working)
      → Holds w.0.cells key incoming.metadata
      → merge_cell security context key incoming w ≡ ok w'
      → w'.0 ≡ w.0
  merge_cell_stale key incoming w w' held h =
      elim (merge_cell_cases key incoming security context w w' h) [
        | inl applied ↦ apply_cell_stale key incoming w w' held applied
        | inr same ↦ same
      ]

  merge_columns_stale :
      (todo_id : String) (columns : BTreeMap String CrdtColumn) (w w' : Working)
      → Offered (row_entries todo_id columns) w.0.cells
      → merge_columns security context todo_id columns w ≡ ok w'
      → w'.0 ≡ w.0
  unfolding merge_columns
  merge_columns_stale todo_id [] w w' o h = rw (ok-injective h)
  merge_columns_stale todo_id ((column_name, column) ∷ columns) w w' (held, o) h =
      let (v, first, rest) =
        bind-eq-ok (merge_cell security context (todo_id, column_name) column w) _ h in
      let same = merge_cell_stale (todo_id, column_name) column w v held first in
      merge_columns_stale todo_id columns v w' (rw same o) rest ∙ same

  pub merge_rows_stale :
      (changes : List RowChange) (w w' : Working)
      → Offered (entries changes) w.0.cells
      → merge_rows security context changes w ≡ ok w'
      → w'.0 ≡ w.0
  unfolding merge_rows
  merge_rows_stale [] w w' o h = rw (ok-injective h)
  merge_rows_stale (row ∷ changes) w w' o h =
      let (v, first, rest) =
        bind-eq-ok (merge_columns security context row.todo_id row.columns w) _ h in
      let (here, later) =
        Offered-append_cases (row_entries row.todo_id row.columns) (entries changes) w.0.cells o in
      let same = merge_columns_stale row.todo_id row.columns w v here first in
      merge_rows_stale changes v w' (rw same later) rest ∙ same

-- The parts of the state that hold the cells and their place in the change feed.
pub record SameCells (s s' : CrdtState) : Type 0 where
  pub same_cells : s'.cells ≡ s.cells
  pub same_seq : s'.seq ≡ s.seq
  pub same_cell_seq : s'.cell_seq ≡ s.cell_seq

module _ (json_len : CrdtColumn → Result ℕ) where
  -- A payload that an open server accepted, sent again after any deliveries, by any device and
  -- under any security, leaves the cells, the counter and the sequence numbers as they are when it
  -- is accepted again.
  pub merge_replay :
      (payload : SyncPayload) (device : String) (s s₁ : CrdtState) (first : SyncPayload)
      (between : List Delivery) (device' : String) (security : SyncSecurity) (s₂ : CrdtState)
      (again : SyncPayload)
      → merge_inner json_len payload device open_security s ≡ ok (s₁, first)
      → merge_inner json_len payload device' security (deliver_all json_len between s₁)
        ≡ ok (s₂, again)
      → SameCells (deliver_all json_len between s₁) s₂
  unfolding issue_cursor
  merge_replay payload device s s₁ first between device' security s₂ again h h' =
      let a = merge_inner-Accepted json_len payload device open_security s s₁ first h in
      let t = deliver_all json_len between s₁ in
      let b = merge_inner-Accepted json_len payload device' security t s₂ again h' in
      let offered : Offered (entries payload.changes) s₁.cells = rw (a.state) (
        merge_rows-Offered (context_of s device) payload.changes (s, []) (a.merged, a.rejections)
          a.loop) in
      let held : Offered (entries payload.changes) t.cells =
        Offered-keeps (entries payload.changes) (accepted_entries json_len between s₁) s₁.cells
          t.cells (deliver_all-Advances json_len between s₁) offered in
      let stale : b.merged ≡ t =
        merge_rows_stale security (context_of t device') payload.changes (t, [])
          (b.merged, b.rejections) held b.loop in
      record {
        same_cells =
            ap (λ (u : CrdtState). u.cells) b.state ∙ ap (λ (u : CrdtState). u.cells) stale;
        same_seq = ap (λ (u : CrdtState). u.seq) b.state ∙ ap (λ (u : CrdtState). u.seq) stale;
        same_cell_seq =
            ap (λ (u : CrdtState). u.cell_seq) b.state ∙ ap (λ (u : CrdtState). u.cell_seq) stale;
      }
