-- ===== src/Merge.antt =====
-- The reference server's state (src/crdt.rs, `CrdtState`) and the loop of `merge_inner` that
-- merges the cells of a payload. A step returns the working copy of the state and the rejections.
pub mod Join
pub mod Advance
use loomabase.Base.{
  ℕ, ◌+◌, ◌%◌, ◌^◌, String, Bool, true, false, Option, none, some, List, [], ◌∷◌, ◌++◌,
  if◌then◌else◌,
}
use loomabase.Base.Int.{ℤ}
use loomabase.BTree.{BTreeMap, get, insert}
use loomabase.Order.Pair.{pair_ord}
use loomabase.Order.Text.{text_ord}
use loomabase.Error.{Result, ok, err, ◌>>=◌, invalid_payload, same_version_different_value}
use loomabase.Value.{CrdtColumn, RowChange, SyncRejection, SyncRejectionKind, value_eq}
use loomabase.Schema.{TableDef}
use loomabase.Validate.{Key}
use loomabase.Validate.Cell.{new_rejection}
use loomabase.Lww.{decide_lww, accept_incoming, keep_current, equal}
use loomabase.Policy.{SyncContext, CellMutation, allow, deny, SyncSecurity}

pub record CrdtState : Type 0 where
  pub global_lamport : ℕ
  pub cells : BTreeMap Key CrdtColumn
  pub table : TableDef
  pub seq : ℕ
  pub cell_seq : BTreeMap Key ℕ
  pub issued_cursors : BTreeMap String ℤ

-- `CrdtState::new`
unfoldable pub new : TableDef → CrdtState
new table = record {
  global_lamport = 0;
  cells = [];
  table = table;
  seq = 0;
  cell_seq = [];
  issued_cursors = [];
}

-- `let apply = match current { … }`
unfoldable pub should_apply : Option CrdtColumn → CrdtColumn → Result Bool
unfolding decide_lww
should_apply none incoming = ok true
should_apply (some current) incoming = elim (decide_lww current.metadata incoming.metadata) [
  | accept_incoming ↦ ok true
  | keep_current ↦ ok false
  | equal ↦
      if value_eq current.value incoming.value
      then ok false
      else err (invalid_payload same_version_different_value)
]

-- The three writes under `if apply`; `seq` is a `u64`.
unfoldable pub write_cell : Key → CrdtColumn → CrdtState → CrdtState
write_cell key incoming s = record s {
  seq = (s.seq + 1) % 2 ^ 64;
  cell_seq = insert key ((s.seq + 1) % 2 ^ 64) s.cell_seq;
  cells = insert key incoming s.cells;
}

abbrev pub Working : Type 0
Working = CrdtState × List SyncRejection

-- The end of a cell's round, once both hooks allowed it.
unfoldable pub apply_cell : Key → CrdtColumn → Working → Result Working
unfolding should_apply write_cell
apply_cell key incoming (s, rejections) = do
  apply ← should_apply (get key s.cells) incoming
  ok (if apply then write_cell key incoming s else s, rejections)

abbrev pub mutation_of : Key → CrdtColumn → CellMutation
mutation_of (todo_id, column_name) incoming = record {
  todo_id = todo_id;
  column_name = column_name;
  value = incoming.value;
  metadata = incoming.metadata;
}

-- `rejections.push(SyncRejection::new(…)?)`
unfoldable pub push_rejection :
    Key → CrdtColumn → SyncRejectionKind → String → Working → Result Working
push_rejection (todo_id, column_name) incoming kind reason (s, rejections) = do
  rejection ← new_rejection todo_id column_name kind reason incoming.value incoming.metadata
  ok (s, rejections ++ rejection ∷ [])

-- One round of the inner loop: authorize, validate, then merge.
unfoldable pub merge_cell : SyncSecurity → SyncContext → Key → CrdtColumn → Working → Result Working
merge_cell security context key incoming w = do
  let current = get key w.0.cells
  authorized ← security.authorizer context (mutation_of key incoming) current
  elim authorized [
    | deny kind reason ↦ push_rejection key incoming kind reason w
    | allow ↦ do
      validated ← security.validator context (mutation_of key incoming) current
      elim validated [
        | deny kind reason ↦ push_rejection key incoming kind reason w
        | allow ↦ apply_cell key incoming w
      ]
  ]

-- The inner loop, over the columns of one row.
unfoldable pub merge_columns :
    SyncSecurity → SyncContext → String → BTreeMap String CrdtColumn → Working → Result Working
merge_columns security context todo_id [] w = ok w
merge_columns security context todo_id ((column_name, incoming) ∷ columns) w = do
  w' ← merge_cell security context (todo_id, column_name) incoming w
  merge_columns security context todo_id columns w'

-- The outer loop, over the changed rows.
unfoldable pub merge_rows : SyncSecurity → SyncContext → List RowChange → Working → Result Working
merge_rows security context [] w = ok w
merge_rows security context (row ∷ changes) w = do
  w' ← merge_columns security context row.todo_id row.columns w
  merge_rows security context changes w'
