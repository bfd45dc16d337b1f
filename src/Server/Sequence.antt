-- ===== src/Server/Sequence.antt =====
-- The sequence numbers of the cells: every cell has one, and no two cells share one.
use loomabase.Base.{
  ℕ, ◌+◌, ◌%◌, ◌^◌, ◌≤◌, ◌<◌, String, ◌≡◌, inl, inr, Bool-cases, List, [], ◌∷◌, some, length,
  length-append, arith, if◌then◌else◌,
}
use loomabase.BTree.{BTreeMap, get}
use loomabase.BTree.Lookup.{get-insert}
use loomabase.BTree.Sorted.{IsSorted, insert-IsSorted}
use loomabase.Order.{Ord, is_eq}
use loomabase.Order.Pair.{pair_ord}
use loomabase.Order.Text.{text_ord}
use loomabase.Error.{ok, bind-eq-ok, ok-injective}
use loomabase.Value.{CrdtColumn, RowChange, max_storable_lamport}
use loomabase.Validate.{Key}
use loomabase.Policy.{SyncSecurity, SyncContext}
use loomabase.Merge.{
  CrdtState, Working, write_cell, apply_cell, merge_cell, merge_columns, merge_rows,
}
use loomabase.Merge.Advance.{entries, row_entries, merge_cell_cases}

abbrev keys : Ord Key
keys = pair_ord

pub record IsSequenced (s : CrdtState) : Type 0 where
  pub sorted : IsSorted s.cells
  pub numbered :
      (k : Key) (c : CrdtColumn) → get k s.cells ≡ some c → (n : ℕ) × (get k s.cell_seq ≡ some n)
  pub bounded : (k : Key) (n : ℕ) → get k s.cell_seq ≡ some n → (0 < n) × (n ≤ s.seq)
  pub distinct : (k j : Key) (n : ℕ) → get k s.cell_seq ≡ some n → get j s.cell_seq ≡ some n → k ≡ j

module _ (key : Key) (incoming : CrdtColumn) (s : CrdtState)
    (room : s.seq + 1 ≤ max_storable_lamport) where
  next_seq : (s.seq + 1) % 2 ^ 64 ≡ s.seq + 1
  next_seq = omega arith

  get-cell_seq :
      (k : Key)
      → get k (write_cell key incoming s).cell_seq
        ≡ (if is_eq (keys.cmp k key) then some (s.seq + 1) else get k s.cell_seq)
  unfolding write_cell
  get-cell_seq k = rw next_seq (get-insert k key (s.seq + 1) s.cell_seq)

  get-cells :
      (k : Key)
      → get k (write_cell key incoming s).cells
        ≡ (if is_eq (keys.cmp k key) then some incoming else get k s.cells)
  unfolding write_cell
  get-cells k = get-insert k key incoming s.cells

  seq-write_cell : (write_cell key incoming s).seq ≡ s.seq + 1
  unfolding write_cell
  seq-write_cell = next_seq

  numbered-write_cell :
      IsSequenced s
      → (k : Key) (c : CrdtColumn) → get k (write_cell key incoming s).cells ≡ some c
      → (n : ℕ) × (get k (write_cell key incoming s).cell_seq ≡ some n)
  numbered-write_cell inv k c e = elim (Bool-cases (is_eq (keys.cmp k key))) [
    | inl same ↦ (s.seq + 1, ground (arith, get-cell_seq k))
    | inr other ↦
        let (n, f) = inv.numbered k c (ground (arith, get-cells k)) in
        (n, ground (arith, get-cell_seq k))
  ]

  bounded-write_cell :
      IsSequenced s
      → (k : Key) (n : ℕ) → get k (write_cell key incoming s).cell_seq ≡ some n
      → (0 < n) × (n ≤ (write_cell key incoming s).seq)
  bounded-write_cell inv k n e = ground (arith, get-cell_seq k, seq-write_cell, inv.bounded k n)

  distinct-write_cell :
      IsSequenced s
      → (k j : Key) (n : ℕ) → get k (write_cell key incoming s).cell_seq ≡ some n
      → get j (write_cell key incoming s).cell_seq ≡ some n
      → k ≡ j
  distinct-write_cell inv k j n e f = ground (
    arith,
    get-cell_seq k,
    get-cell_seq j,
    inv.bounded k n,
    inv.bounded j n,
    inv.distinct k j n,
    keys.identical k key,
    keys.identical j key,
  )

  IsSorted-write_cell : IsSequenced s → IsSorted (write_cell key incoming s).cells
  unfolding write_cell
  IsSorted-write_cell inv = insert-IsSorted key incoming s.cells inv.sorted

  write_cell-IsSequenced : IsSequenced s → IsSequenced (write_cell key incoming s)
  write_cell-IsSequenced inv = record {
    sorted = IsSorted-write_cell inv;
    numbered = numbered-write_cell inv;
    bounded = bounded-write_cell inv;
    distinct = distinct-write_cell inv;
  }

-- Sequenced, with at most so many numbers used more than before.
abbrev pub Sequenced : ℕ → CrdtState → CrdtState → Type 0
Sequenced count s s' = IsSequenced s' × (s'.seq ≤ s.seq + count)

apply_cell-Sequenced :
    (key : Key) (incoming : CrdtColumn) (w w' : Working)
    → w.0.seq + 1 ≤ max_storable_lamport
    → IsSequenced w.0
    → apply_cell key incoming w ≡ ok w'
    → Sequenced 1 w.0 w'.0
unfolding apply_cell
apply_cell-Sequenced key incoming w w' room inv h =
    ground (
      arith,
      write_cell-IsSequenced key incoming w.0 room inv,
      seq-write_cell key incoming w.0 room,
    )

module _ (security : SyncSecurity) (context : SyncContext) where
  merge_cell-Sequenced :
      (key : Key) (incoming : CrdtColumn) (w w' : Working)
      → w.0.seq + 1 ≤ max_storable_lamport
      → IsSequenced w.0
      → merge_cell security context key incoming w ≡ ok w'
      → Sequenced 1 w.0 w'.0
  merge_cell-Sequenced key incoming w w' room inv h =
      elim (merge_cell_cases key incoming security context w w' h) [
        | inl applied ↦ apply_cell-Sequenced key incoming w w' room inv applied
        | inr same ↦ rw same (inv, omega arith)
      ]

  merge_columns-Sequenced :
      (todo_id : String) (columns : BTreeMap String CrdtColumn) (w w' : Working)
      → w.0.seq + length (row_entries todo_id columns) ≤ max_storable_lamport
      → IsSequenced w.0
      → merge_columns security context todo_id columns w ≡ ok w'
      → Sequenced (length (row_entries todo_id columns)) w.0 w'.0
  unfolding merge_columns
  merge_columns-Sequenced todo_id [] w w' room inv h = rw (← ok-injective h) (inv, omega arith)
  merge_columns-Sequenced todo_id ((column_name, column) ∷ columns) w w' room inv h =
      let (v, first, rest) =
        bind-eq-ok (merge_cell security context (todo_id, column_name) column w) _ h in
      let (inv', le) =
        merge_cell-Sequenced (todo_id, column_name) column w v (omega arith) inv first in
      let (inv'', le') = merge_columns-Sequenced todo_id columns v w' (omega arith) inv' rest in
      (inv'', omega arith)

  pub merge_rows-Sequenced :
      (changes : List RowChange) (w w' : Working)
      → w.0.seq + length (entries changes) ≤ max_storable_lamport
      → IsSequenced w.0
      → merge_rows security context changes w ≡ ok w'
      → Sequenced (length (entries changes)) w.0 w'.0
  unfolding merge_rows
  merge_rows-Sequenced [] w w' room inv h = rw (← ok-injective h) (inv, omega arith)
  merge_rows-Sequenced (row ∷ changes) w w' room inv h =
      let size = length-append (row_entries row.todo_id row.columns) (entries changes) in
      let (v, first, rest) =
        bind-eq-ok (merge_columns security context row.todo_id row.columns w) _ h in
      let (inv', le) =
        merge_columns-Sequenced row.todo_id row.columns w v (omega (arith, size)) inv first in
      let (inv'', le') = merge_rows-Sequenced changes v w' (omega (arith, size)) inv' rest in
      (inv'', omega (arith, size))
