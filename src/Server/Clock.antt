-- ===== src/Server/Clock.antt =====
-- The Lamport clock of the reference server.
use loomabase.Base.{
  ℕ, ◌+◌, ◌≤◌, ◌<◌, max, String, ◌≡◌, refl, sym, ap, ◌∙◌, inl, inr, List, [], ◌∷◌, some, In,
  In-append_cases, arith,
}
use loomabase.BTree.{BTreeMap, get}
use loomabase.Order.Pair.{pair_ord}
use loomabase.Order.Text.{text_ord}
use loomabase.Error.{Result, ok, bind-eq-ok, ok-injective}
use loomabase.Value.{CrdtColumn, RowChange, SyncPayload}
use loomabase.Validate.{Key, max_column_clock, max_row_clock, max_observed_clock}
use loomabase.Validate.Cell.{validate_clock_advance}
use loomabase.Policy.{SyncSecurity, SyncContext}
use loomabase.Merge.{
  CrdtState, Working, write_cell, apply_cell, merge_cell, merge_columns, merge_rows,
}
use loomabase.Merge.Advance.{entries, row_entries, merge_cell_cases, merge_rows-Advances}
use loomabase.Server.{context_of, next_clock, issue_cursor, response_of, merge_inner}
use loomabase.Server.Inversion.{Accepted, merge_inner-Accepted}

-- What the merge loop leaves alone.
pub record Frame (s s' : CrdtState) : Type 0 where
  pub same_clock : s'.global_lamport ≡ s.global_lamport
  pub same_table : s'.table ≡ s.table
  pub same_issued : s'.issued_cursors ≡ s.issued_cursors

Frame-refl : (s s' : CrdtState) → s' ≡ s → Frame s s'
Frame-refl s s' e = rw e (record { same_clock = refl; same_table = refl; same_issued = refl })

Frame-trans : (s t u : CrdtState) → Frame s t → Frame t u → Frame s u
Frame-trans s t u p q = record {
  same_clock = q.same_clock ∙ p.same_clock;
  same_table = q.same_table ∙ p.same_table;
  same_issued = q.same_issued ∙ p.same_issued;
}

apply_cell-Frame :
    (key : Key) (incoming : CrdtColumn) (w w' : Working)
    → apply_cell key incoming w ≡ ok w'
    → Frame w.0 w'.0
unfolding apply_cell write_cell
apply_cell-Frame key incoming w w' h = ground arith

module _ (security : SyncSecurity) (context : SyncContext) where
  merge_cell-Frame :
      (key : Key) (incoming : CrdtColumn) (w w' : Working)
      → merge_cell security context key incoming w ≡ ok w'
      → Frame w.0 w'.0
  merge_cell-Frame key incoming w w' h =
      elim (merge_cell_cases key incoming security context w w' h) [
        | inl applied ↦ apply_cell-Frame key incoming w w' applied
        | inr same ↦ Frame-refl w.0 w'.0 same
      ]

  merge_columns-Frame :
      (todo_id : String) (columns : BTreeMap String CrdtColumn) (w w' : Working)
      → merge_columns security context todo_id columns w ≡ ok w'
      → Frame w.0 w'.0
  unfolding merge_columns
  merge_columns-Frame todo_id [] w w' h = rw (ok-injective h) (Frame-refl w'.0 w'.0 refl)
  merge_columns-Frame todo_id ((column_name, column) ∷ columns) w w' h =
      let (v, first, rest) =
        bind-eq-ok (merge_cell security context (todo_id, column_name) column w) _ h in
      Frame-trans w.0 v.0 w'.0 (merge_cell-Frame (todo_id, column_name) column w v first)
        (merge_columns-Frame todo_id columns v w' rest)

  pub merge_rows-Frame :
      (changes : List RowChange) (w w' : Working)
      → merge_rows security context changes w ≡ ok w'
      → Frame w.0 w'.0
  unfolding merge_rows
  merge_rows-Frame [] w w' h = rw (ok-injective h) (Frame-refl w'.0 w'.0 refl)
  merge_rows-Frame (row ∷ changes) w w' h =
      let (v, first, rest) =
        bind-eq-ok (merge_columns security context row.todo_id row.columns w) _ h in
      Frame-trans w.0 v.0 w'.0 (merge_columns-Frame row.todo_id row.columns w v first)
        (merge_rows-Frame changes v w' rest)

max_column_clock-ge :
    (clock : ℕ) (columns : BTreeMap String CrdtColumn) → clock ≤ max_column_clock clock columns
unfolding max_column_clock
max_column_clock-ge clock [] = omega arith
max_column_clock-ge clock ((name, c) ∷ columns) =
    omega (arith, max_column_clock-ge (max clock c.metadata.lamport_clock) columns)

max_row_clock-ge : (clock : ℕ) (changes : List RowChange) → clock ≤ max_row_clock clock changes
unfolding max_row_clock
max_row_clock-ge clock [] = omega arith
max_row_clock-ge clock (row ∷ changes) = omega (
  arith,
  max_column_clock-ge clock row.columns,
  max_row_clock-ge (max_column_clock clock row.columns) changes,
)

In-max_column_clock :
    (clock : ℕ) (todo_id : String) (columns : BTreeMap String CrdtColumn) (k : Key) (c : CrdtColumn)
    → In (k, c) (row_entries todo_id columns)
    → c.metadata.lamport_clock ≤ max_column_clock clock columns
unfolding max_column_clock
In-max_column_clock clock todo_id [] k c i = absurd i
In-max_column_clock clock todo_id ((name, d) ∷ columns) k c (inl e) =
    let same : c.metadata.lamport_clock ≡ d.metadata.lamport_clock =
      ap (λ (x : Key × CrdtColumn). x.1.metadata.lamport_clock) e in
    omega (arith, max_column_clock-ge (max clock d.metadata.lamport_clock) columns)
In-max_column_clock clock todo_id ((name, d) ∷ columns) k c (inr i) =
    In-max_column_clock (max clock d.metadata.lamport_clock) todo_id columns k c i

In-max_row_clock :
    (clock : ℕ) (changes : List RowChange) (k : Key) (c : CrdtColumn)
    → In (k, c) (entries changes)
    → c.metadata.lamport_clock ≤ max_row_clock clock changes
unfolding max_row_clock
In-max_row_clock clock [] k c i = absurd i
In-max_row_clock clock (row ∷ changes) k c i =
    elim (In-append_cases (k, c) (row_entries row.todo_id row.columns) (entries changes) i) [
      | inl here ↦ omega (
        arith,
        In-max_column_clock clock row.todo_id row.columns k c here,
        max_row_clock-ge (max_column_clock clock row.columns) changes,
      )
      | inr later ↦ In-max_row_clock (max_column_clock clock row.columns) changes k c later
    ]

-- No cell is ahead of the server's clock.
abbrev pub ClocksBelow : CrdtState → Type 0
ClocksBelow s =
    (k : Key) (c : CrdtColumn)
    → get k s.cells ≡ some c
    → c.metadata.lamport_clock ≤ s.global_lamport

module _ (json_len : CrdtColumn → Result ℕ) (payload : SyncPayload) (device : String)
    (security : SyncSecurity) (s s' : CrdtState) (response : SyncPayload)
    (accepted : merge_inner json_len payload device security s ≡ ok (s', response)) where
  steps : Accepted json_len payload device security s s' response
  steps = merge_inner-Accepted json_len payload device security s s' response accepted

  merged_clock : s'.global_lamport ≡ max s.global_lamport (max_observed_clock payload) + 1
  unfolding next_clock issue_cursor
  merged_clock =
      let frame =
        merge_rows-Frame security (context_of s device) payload.changes (s, [])
          (steps.merged, steps.rejections) steps.loop in
      let clock : s'.global_lamport ≡ steps.clock =
        ap (λ (t : CrdtState). t.global_lamport) steps.state in
      ground (arith, frame.same_clock, clock, steps.tick)

  -- An accepted merge moves the clock above its old value and above every clock that the payload
  -- shows, by at most 1000001, and the response carries the new clock.
  pub merge_clock_advances :
      (s.global_lamport < s'.global_lamport)
      × (max_observed_clock payload < s'.global_lamport)
      × (s'.global_lamport ≤ s.global_lamport + 1_000_001)
      × (response.source_lamport ≡ s'.global_lamport)
  unfolding validate_clock_advance response_of issue_cursor
  merge_clock_advances =
      let clock : s'.global_lamport ≡ steps.clock =
        ap (λ (t : CrdtState). t.global_lamport) steps.state in
      let told : response.source_lamport ≡ steps.clock =
        ap (λ (p : SyncPayload). p.source_lamport) steps.answer in
      ground (arith, merged_clock, steps.advance, clock, told)

  -- An accepted merge keeps the clock of every cell at or below the clock of the server.
  pub merge-ClocksBelow : ClocksBelow s → ClocksBelow s'
  unfolding max_observed_clock issue_cursor
  merge-ClocksBelow below k c e =
      let moved : get k steps.merged.cells ≡ some c =
        ap (λ (t : CrdtState). get k t.cells) (sym steps.state) ∙ e in
      let loop =
        merge_rows-Advances security (context_of s device) payload.changes (s, [])
          (steps.merged, steps.rejections) steps.loop in
      elim (loop.source k c moved) [
        | inl old ↦ omega (arith, merged_clock, below k c old)
        | inr new ↦
            omega
              (arith, merged_clock, In-max_row_clock payload.source_lamport payload.changes k c new)
      ]
