-- ===== src/Merge/Advance.antt =====
-- The merge loop as a whole: cells only advance to greater versions, come from the payload, and
-- stay sorted; where the hooks allow everything, every offered version is taken or beaten.
use loomabase.Base.{
  String, ◌≡◌, refl, sym, ◌∙◌, ◌⊎◌, inl, inr, List, [], ◌∷◌, ◌++◌, some, In, In-append_left,
  In-append_right, All, arith,
}
use loomabase.BTree.{BTreeMap, get}
use loomabase.BTree.Sorted.{IsSorted}
use loomabase.Order.Pair.{pair_ord}
use loomabase.Order.Text.{text_ord}
use loomabase.Error.{ok, bind-eq-ok, ok-injective}
use loomabase.Value.{CrdtColumn, ColumnMetadata, RowChange}
use loomabase.Validate.{Key}
use loomabase.Policy.{SyncSecurity, SyncContext, without_audit, allow_all, noop}
use loomabase.Merge.{Working, apply_cell, push_rejection, merge_cell, merge_columns, merge_rows}
use loomabase.Merge.Join.{
  Holds, apply_cell-Holds_self, apply_cell-Holds, apply_cell_source, apply_cell-IsSorted,
}

abbrev pub Entries : Type 0
Entries = List (Key × CrdtColumn)

abbrev pub row_entries : String → BTreeMap String CrdtColumn → Entries
row_entries todo_id [] = []
row_entries todo_id ((column_name, column) ∷ columns) =
    ((todo_id, column_name), column) ∷ row_entries todo_id columns

-- The cells of a payload, in the order of the loop.
abbrev pub entries : List RowChange → Entries
entries [] = []
entries (row ∷ changes) = row_entries row.todo_id row.columns ++ entries changes

-- Cells may change from `before` to `after` by offering them `offered`.
pub record Advances (offered : Entries) (before after : BTreeMap Key CrdtColumn) : Type 0 where
  pub keeps : (k : Key) (m : ColumnMetadata) → Holds before k m → Holds after k m
  pub source :
      (k : Key) (c : CrdtColumn)
      → get k after ≡ some c
      → (get k before ≡ some c) ⊎ In (k, c) offered
  pub sorted : IsSorted before → IsSorted after

pub Advances-refl :
    (offered : Entries) (cells : BTreeMap Key CrdtColumn) → Advances offered cells cells
Advances-refl offered cells = record {
  keeps = λ k m h. h;
  source = λ k c e. inl e;
  sorted = λ s. s;
}

pub Advances-trans :
    (xs ys : Entries) (a b c : BTreeMap Key CrdtColumn)
    → Advances xs a b
    → Advances ys b c
    → Advances (xs ++ ys) a c
Advances-trans xs ys a b c p q = record {
  keeps = λ k m h. q.keeps k m (p.keeps k m h);
  source = λ k d e. elim (q.source k d e) [
    | inr i ↦ inr (In-append_right (k, d) xs ys i)
    | inl f ↦ elim (p.source k d f) [ inr i ↦ inr (In-append_left (k, d) xs ys i) | inl g ↦ inl g ]
  ];
  sorted = λ s. q.sorted (p.sorted s);
}

module _ (key : Key) (incoming : CrdtColumn) where
  apply_cell-Advances :
      (w w' : Working)
      → apply_cell key incoming w ≡ ok w'
      → Advances ((key, incoming) ∷ []) w.0.cells w'.0.cells
  apply_cell-Advances w w' h = record {
    keeps = apply_cell-Holds key incoming w w' h;
    source = λ k c e. elim (apply_cell_source key incoming w w' h k c e) [
      | inl old ↦ inl old
      | inr (same_key, same_cell) ↦ inr (inl (λ i. (same_key i, same_cell i)))
    ];
    sorted = apply_cell-IsSorted key incoming w w' h;
  }

  -- A cell's round is a merge, or a rejection that leaves the state alone.
  pub merge_cell_cases :
      (security : SyncSecurity) (context : SyncContext) (w w' : Working)
      → merge_cell security context key incoming w ≡ ok w'
      → (apply_cell key incoming w ≡ ok w') ⊎ (w'.0 ≡ w.0)
  unfolding merge_cell push_rejection
  merge_cell_cases security context w w' h = ground arith

module _ (security : SyncSecurity) (context : SyncContext) where
  pub merge_cell-Advances :
      (key : Key) (incoming : CrdtColumn) (w w' : Working)
      → merge_cell security context key incoming w ≡ ok w'
      → Advances ((key, incoming) ∷ []) w.0.cells w'.0.cells
  merge_cell-Advances key incoming w w' h =
      elim (merge_cell_cases key incoming security context w w' h) [
        | inl applied ↦ apply_cell-Advances key incoming w w' applied
        | inr same ↦ rw same (Advances-refl _ _)
      ]

  pub merge_columns-Advances :
      (todo_id : String) (columns : BTreeMap String CrdtColumn) (w w' : Working)
      → merge_columns security context todo_id columns w ≡ ok w'
      → Advances (row_entries todo_id columns) w.0.cells w'.0.cells
  unfolding merge_columns
  merge_columns-Advances todo_id [] w w' h = rw (ok-injective h) (Advances-refl [] w'.0.cells)
  merge_columns-Advances todo_id ((column_name, column) ∷ columns) w w' h =
      let (v, first, rest) =
        bind-eq-ok (merge_cell security context (todo_id, column_name) column w) _ h in
      Advances-trans (((todo_id, column_name), column) ∷ []) (row_entries todo_id columns) w.0.cells
        v.0.cells w'.0.cells (merge_cell-Advances (todo_id, column_name) column w v first)
        (merge_columns-Advances todo_id columns v w' rest)

  pub merge_rows-Advances :
      (changes : List RowChange) (w w' : Working)
      → merge_rows security context changes w ≡ ok w'
      → Advances (entries changes) w.0.cells w'.0.cells
  unfolding merge_rows
  merge_rows-Advances [] w w' h = rw (ok-injective h) (Advances-refl [] w'.0.cells)
  merge_rows-Advances (row ∷ changes) w w' h =
      let (v, first, rest) =
        bind-eq-ok (merge_columns security context row.todo_id row.columns w) _ h in
      Advances-trans (row_entries row.todo_id row.columns) (entries changes) w.0.cells v.0.cells
        w'.0.cells (merge_columns-Advances row.todo_id row.columns w v first)
        (merge_rows-Advances changes v w' rest)

-- Every offered cell is held, in its version or a greater one.
abbrev pub Offered : Entries → BTreeMap Key CrdtColumn → Type 0
Offered es cells = All (λ e. Holds cells e.0 e.1.metadata) es

pub Offered-keeps :
    (es xs : Entries) (a b : BTreeMap Key CrdtColumn)
    → Advances xs a b
    → Offered es a
    → Offered es b
Offered-keeps [] xs a b p o = tt
Offered-keeps ((k, c) ∷ es) xs a b p (h, o) = (p.keeps k c.metadata h, Offered-keeps es xs a b p o)

pub Offered-append :
    (xs ys : Entries) (cells : BTreeMap Key CrdtColumn)
    → Offered xs cells
    → Offered ys cells
    → Offered (xs ++ ys) cells
Offered-append [] ys cells p q = q
Offered-append (x ∷ xs) ys cells (h, p) q = (h, Offered-append xs ys cells p q)

-- The security of `CrdtState::merge`.
abbrev pub open_security : SyncSecurity
open_security = without_audit allow_all noop

module _ (context : SyncContext) where
  merge_cell_open :
      (key : Key) (incoming : CrdtColumn) (w : Working)
      → merge_cell open_security context key incoming w ≡ apply_cell key incoming w
  unfolding merge_cell
  merge_cell_open key incoming w = refl

  merge_columns-Offered :
      (todo_id : String) (columns : BTreeMap String CrdtColumn) (w w' : Working)
      → merge_columns open_security context todo_id columns w ≡ ok w'
      → Offered (row_entries todo_id columns) w'.0.cells
  unfolding merge_columns
  merge_columns-Offered todo_id [] w w' h = tt
  merge_columns-Offered todo_id ((column_name, column) ∷ columns) w w' h =
      let (v, first, rest) =
        bind-eq-ok (merge_cell open_security context (todo_id, column_name) column w) _ h in
      (
        (merge_columns-Advances open_security context todo_id columns v w' rest).keeps
            (todo_id, column_name) column.metadata
            (apply_cell-Holds_self (todo_id, column_name) column w v
              (sym (merge_cell_open (todo_id, column_name) column w) ∙ first)),
        merge_columns-Offered todo_id columns v w' rest,
      )

  pub merge_rows-Offered :
      (changes : List RowChange) (w w' : Working)
      → merge_rows open_security context changes w ≡ ok w'
      → Offered (entries changes) w'.0.cells
  unfolding merge_rows
  merge_rows-Offered [] w w' h = tt
  merge_rows-Offered (row ∷ changes) w w' h =
      let (v, first, rest) =
        bind-eq-ok (merge_columns open_security context row.todo_id row.columns w) _ h in
      Offered-append (row_entries row.todo_id row.columns) (entries changes) w'.0.cells
        (Offered-keeps _ (entries changes) _ _
          (merge_rows-Advances open_security context changes v w' rest)
          (merge_columns-Offered row.todo_id row.columns w v first))
        (merge_rows-Offered changes v w' rest)
