-- ===== src/Feed.antt =====
-- The change feed of `merge_inner` (src/crdt.rs): the cells above the cursor, in the order of their
-- sequence numbers, cut to one bounded page.
pub mod Sort
pub mod Rows
pub mod Take
pub mod Collect
pub mod Last
use Prim.Native.String.{len}
use loomabase.Base.{
  ℕ, ◌+◌, min, String, Bool, true, false, ◌&&◌, ◌||◌, none, some, List, [], ◌∷◌, leb, ltb,
  if◌then◌else◌,
}
use loomabase.Base.Int.{ℤ, pos, int_leb}
use loomabase.BTree.{BTreeMap, get, insert}
use loomabase.Order.Pair.{pair_ord}
use loomabase.Order.Text.{text_ord}
use loomabase.Error.{Result, ok, ◌>>=◌}
use loomabase.Value.{
  CrdtColumn, RowChange, max_response_cells, max_response_bytes, max_storable_lamport,
}
use loomabase.Validate.{Key}
use loomabase.Merge.{CrdtState}

pub record Candidate : Type 0 where
  pub seq : ℕ
  pub key : Key
  pub column : CrdtColumn

-- `i64::try_from(seq).unwrap_or(i64::MAX)`
abbrev pub to_i64 : ℕ → ℤ
to_i64 seq = pos (min seq max_storable_lamport)

-- `self.cell_seq.get(key).copied().unwrap_or(0)`
abbrev pub seq_of : BTreeMap Key ℕ → Key → ℕ
seq_of cell_seq key = elim (get key cell_seq) [ none ↦ 0 | some n ↦ n ]

-- The `filter_map` over the cells.
unfoldable pub above_cursor : BTreeMap Key ℕ → ℤ → BTreeMap Key CrdtColumn → List Candidate
above_cursor cell_seq cursor [] = []
above_cursor cell_seq cursor ((key, column) ∷ cells) =
    let rest = above_cursor cell_seq cursor cells in
    if int_leb (to_i64 (seq_of cell_seq key)) cursor
    then rest
    else record { seq = seq_of cell_seq key; key = key; column = column } ∷ rest

-- `sort_by_key(|(seq, _, _)| *seq)`, a stable sort.
unfoldable pub insert_by_seq : Candidate → List Candidate → List Candidate
insert_by_seq c [] = c ∷ []
insert_by_seq c (d ∷ ds) = if leb c.seq d.seq then c ∷ d ∷ ds else d ∷ insert_by_seq c ds

unfoldable pub sort_by_seq : List Candidate → List Candidate
unfolding insert_by_seq
sort_by_seq [] = []
sort_by_seq (c ∷ cs) = insert_by_seq c (sort_by_seq cs)

unfoldable pub candidates : CrdtState → ℤ → List Candidate
unfolding above_cursor sort_by_seq
candidates s cursor = sort_by_seq (above_cursor s.cell_seq cursor s.cells)

abbrev pub Rows : Type 0
Rows = BTreeMap String (BTreeMap String CrdtColumn)

-- `rows.entry(todo_id).or_default().insert(column_name, column)`
unfoldable pub add_cell : Key → CrdtColumn → Rows → Rows
add_cell (todo_id, column_name) column rows =
    let columns : BTreeMap String CrdtColumn = elim (get todo_id rows) [
      | none ↦ []
      | some columns ↦ columns
    ] in
    insert todo_id (insert column_name column columns) rows

-- `into_iter().map(|(todo_id, columns)| RowChange { todo_id, columns }).collect()`
unfoldable pub to_changes : Rows → List RowChange
to_changes [] = []
to_changes ((todo_id, columns) ∷ rows) =
    record { todo_id = todo_id; columns = columns } ∷ to_changes rows

pub record Page : Type 0 where
  pub response_rows : Rows
  pub response_bytes : ℕ
  pub included : ℕ
  pub next_cursor : ℤ

-- `serde_json::to_vec(column)?.len()` is a parameter: the serializer is not part of the repository.
module _ (json_len : CrdtColumn → Result ℕ) where
  -- The page is full before a cell of so many bytes.
  unfoldable pub page_is_full : Page → ℕ → Bool
  page_is_full page cell_bytes =
      leb max_response_cells page.included
      || (ltb 0 page.included && ltb max_response_bytes (page.response_bytes + cell_bytes))

  unfoldable pub add_to_page : Page → Candidate → ℕ → Page
  unfolding add_cell
  add_to_page page c cell_bytes = record {
    response_rows = add_cell c.key c.column page.response_rows;
    response_bytes = page.response_bytes + cell_bytes;
    included = page.included + 1;
    next_cursor = to_i64 c.seq;
  }

  -- The loop over the candidates, with its `break`.
  unfoldable pub fill_page : List Candidate → Page → Result Page
  unfolding page_is_full add_to_page
  fill_page [] page = ok page
  fill_page (c ∷ cs) page = do
    column_bytes ← json_len c.column
    let cell_bytes = column_bytes + len c.key.0 + len c.key.1
    elim (page_is_full page cell_bytes) [
      | true ↦ ok page
      | false ↦ fill_page cs (add_to_page page c cell_bytes)
    ]
