-- ===== src/Feed/Rows.antt =====
-- The response rows as a map from cells: what `add_cell` does to it, and what the changes list.

use loomabase.Base.{
  String, ◌≡◌, sym, ap, subst, ◌∙◌, inl, inr, [], ◌∷◌, Option, none, some, Option-cases, Bool-cases,
  In, In-append_left, In-append_right, In-append_cases, arith, if◌then◌else◌,
}
use loomabase.BTree.{BTreeMap, get, insert}
use loomabase.BTree.Lookup.{get-insert, get-In}
use loomabase.BTree.Sorted.{IsSorted, insert-IsSorted, get_of_In}
use loomabase.Order.{Ord, is_eq}
use loomabase.Order.Pair.{pair_ord}
use loomabase.Order.Text.{text_ord}
use loomabase.Value.{CrdtColumn}
use loomabase.Validate.{Key}
use loomabase.Merge.Advance.{entries, row_entries}
use loomabase.Feed.{Rows, add_cell, to_changes}

abbrev keys : Ord Key
keys = pair_ord

abbrev columns_at : String → Rows → BTreeMap String CrdtColumn
columns_at todo_id rows = elim (get todo_id rows) [ none ↦ [] | some columns ↦ columns ]

-- The cell of the response at a key.
abbrev pub cell_at : Key → Rows → Option CrdtColumn
cell_at k rows = get k.1 (columns_at k.0 rows)

columns_at-add_cell :
    (t : String) (key : Key) (column : CrdtColumn) (rows : Rows)
    → columns_at t (add_cell key column rows) ≡ (
        if is_eq (text_ord.cmp t key.0)
        then insert key.1 column (columns_at key.0 rows)
        else columns_at t rows)
unfolding add_cell
columns_at-add_cell t key column rows =
    ground (arith, get-insert t key.0 (insert key.1 column (columns_at key.0 rows)) rows)

pub cell_at-add_cell :
    (q key : Key) (column : CrdtColumn) (rows : Rows)
    → cell_at q (add_cell key column rows)
      ≡ (if is_eq (keys.cmp q key) then some column else cell_at q rows)
unfolding pair_ord
cell_at-add_cell q key column rows = ground (
  arith,
  columns_at-add_cell q.0 key column rows,
  get-insert q.1 key.1 column (columns_at key.0 rows),
  text_ord.identical q.0 key.0,
)

-- Sorted, outside and inside.
pub record AreSorted (rows : Rows) : Type 0 where
  pub outside : IsSorted rows
  pub inside :
      (t : String) (columns : BTreeMap String CrdtColumn)
      → get t rows ≡ some columns
      → IsSorted columns

columns_at-some :
    (t : String) (rows : Rows) (columns : BTreeMap String CrdtColumn)
    → get t rows ≡ some columns
    → columns_at t rows ≡ columns
columns_at-some t rows columns e = ground arith

columns_at-none : (t : String) (rows : Rows) → get t rows ≡ none → columns_at t rows ≡ []
columns_at-none t rows e = ground arith

columns_at-IsSorted : (t : String) (rows : Rows) → AreSorted rows → IsSorted (columns_at t rows)
columns_at-IsSorted t rows s = elim (Option-cases (get t rows)) [
  | inl e ↦ subst IsSorted (sym (columns_at-none t rows e)) tt
  | inr (columns, e) ↦
      subst IsSorted (sym (columns_at-some t rows columns e)) (s.inside t columns e)
]

pub add_cell-AreSorted :
    (key : Key) (column : CrdtColumn) (rows : Rows)
    → AreSorted rows
    → AreSorted (add_cell key column rows)
unfolding add_cell
add_cell-AreSorted key column rows s =
    let columns = insert key.1 column (columns_at key.0 rows) in
    record {
      outside = insert-IsSorted key.0 columns rows s.outside;
      inside = λ t found e. elim (Bool-cases (is_eq (text_ord.cmp t key.0))) [
        | inl same ↦
            let is_new : columns ≡ found = ground (arith, get-insert t key.0 columns rows) in
            subst IsSorted is_new (
              insert-IsSorted key.1 column (columns_at key.0 rows)
                (columns_at-IsSorted key.0 rows s))
        | inr other ↦ s.inside t found (ground (arith, get-insert t key.0 columns rows))
      ];
    }

In-row_entries :
    (k : Key) (c : CrdtColumn) (todo_id : String) (columns : BTreeMap String CrdtColumn)
    → In (k, c) (row_entries todo_id columns)
    → (k.0 ≡ todo_id) × In (k.1, c) columns
In-row_entries k c todo_id [] i = absurd i
In-row_entries k c todo_id ((n, d) ∷ columns) (inl e) =
    (ap (λ (x : Key × CrdtColumn). x.0.0) e, inl (λ i. ((e i).0.1, (e i).1)))
In-row_entries k c todo_id ((n, d) ∷ columns) (inr i) =
    let (same, j) = In-row_entries k c todo_id columns i in (same, inr j)

row_entries-In :
    (k : Key) (c : CrdtColumn) (todo_id : String) (columns : BTreeMap String CrdtColumn)
    → k.0 ≡ todo_id
    → In (k.1, c) columns
    → In (k, c) (row_entries todo_id columns)
row_entries-In k c todo_id [] e i = absurd i
row_entries-In k c todo_id ((n, d) ∷ columns) e (inl f) = inl (λ i. ((e i, (f i).0), (f i).1))
row_entries-In k c todo_id ((n, d) ∷ columns) e (inr i) =
    inr (row_entries-In k c todo_id columns e i)

In-entries :
    (k : Key) (c : CrdtColumn) (rows : Rows)
    → In (k, c) (entries (to_changes rows))
    → (columns : BTreeMap String CrdtColumn) × In (k.0, columns) rows × In (k.1, c) columns
unfolding to_changes
In-entries k c [] i = absurd i
In-entries k c ((t, columns) ∷ rows) i =
    elim (In-append_cases (k, c) (row_entries t columns) (entries (to_changes rows)) i) [
      | inl here ↦
          let (same, j) = In-row_entries k c t columns here in
          (columns, inl (λ x. (same x, columns)), j)
      | inr later ↦ let (found, j, m) = In-entries k c rows later in (found, inr j, m)
    ]

entries-In :
    (k : Key) (c : CrdtColumn) (rows : Rows) (columns : BTreeMap String CrdtColumn)
    → In (k.0, columns) rows
    → In (k.1, c) columns
    → In (k, c) (entries (to_changes rows))
unfolding to_changes
entries-In k c [] columns i j = absurd i
entries-In k c ((t, found) ∷ rows) columns (inl e) j =
    In-append_left (k, c) (row_entries t found) (entries (to_changes rows))
      (row_entries-In k c t found (ap (λ (x : String × BTreeMap String CrdtColumn). x.0) e)
        (subst (λ (x : String × BTreeMap String CrdtColumn). In (k.1, c) x.1) e j))
entries-In k c ((t, found) ∷ rows) columns (inr i) j =
    In-append_right (k, c) (row_entries t found) (entries (to_changes rows))
      (entries-In k c rows columns i j)

module _ (k : Key) (c : CrdtColumn) (rows : Rows) where
  -- The changes list exactly the cells of the rows.
  pub cell_at_of_In :
      AreSorted rows → In (k, c) (entries (to_changes rows)) → cell_at k rows ≡ some c
  cell_at_of_In s i =
      let (columns, j, m) = In-entries k c rows i in
      let found = get_of_In k.0 columns rows s.outside j in
      ap (get k.1) (columns_at-some k.0 rows columns found)
      ∙ get_of_In k.1 c columns (s.inside k.0 columns found) m

  pub In-of_cell_at : cell_at k rows ≡ some c → In (k, c) (entries (to_changes rows))
  In-of_cell_at h = elim (Option-cases (get k.0 rows)) [
    | inl e ↦ absurd (get-In k.1 c [] (ap (get k.1) (sym (columns_at-none k.0 rows e)) ∙ h))
    | inr (columns, e) ↦
        entries-In k c rows columns (get-In k.0 columns rows e)
          (get-In k.1 c columns (ap (get k.1) (sym (columns_at-some k.0 rows columns e)) ∙ h))
  ]
