-- ===== src/Replica/Partial/Values.antt =====
-- `values_by_row`: the values of each row, read off the cells.

use loomabase.Base.{
  String, ◌≡◌, refl, sym, ap, subst, ◌⊎◌, inl, inr, Bool-cases, [], ◌∷◌, Option, none, some, In,
  arith, if◌then◌else◌,
}
use loomabase.BTree.{BTreeMap, get, insert}
use loomabase.BTree.Lookup.{get-insert}
use loomabase.BTree.Sorted.{IsSorted, insert-IsSorted, get-Above}
use loomabase.Order.{Ord, is_eq, cmp_refl}
use loomabase.Order.Pair.{pair_ord}
use loomabase.Order.Text.{text_ord}
use loomabase.Value.{CrdtValue, CrdtColumn}
use loomabase.Validate.{Key}
use loomabase.Replica.Partial.{Values, add_value, values_by_row}

abbrev keys : Ord Key
keys = pair_ord

abbrev pub value_of : Option CrdtColumn → Option CrdtValue
value_of none = none
value_of (some column) = some column.value

abbrev pub values_at : String → Values → BTreeMap String CrdtValue
values_at row_id rows = elim (get row_id rows) [ none ↦ [] | some values ↦ values ]

abbrev pub value_at : Key → Values → Option CrdtValue
value_at k rows = get k.1 (values_at k.0 rows)

get-add_value :
    (t : String) (key : Key) (value : CrdtValue) (rows : Values)
    → get t (add_value key value rows) ≡ (
        if is_eq (text_ord.cmp t key.0)
        then some (insert key.1 value (values_at key.0 rows))
        else get t rows)
unfolding add_value
get-add_value t key value rows = get-insert t key.0 (insert key.1 value (values_at key.0 rows)) rows

values_at-add_value :
    (t : String) (key : Key) (value : CrdtValue) (rows : Values)
    → values_at t (add_value key value rows) ≡ (
        if is_eq (text_ord.cmp t key.0)
        then insert key.1 value (values_at key.0 rows)
        else values_at t rows)
unfolding add_value
values_at-add_value t key value rows =
    ground (arith, get-insert t key.0 (insert key.1 value (values_at key.0 rows)) rows)

value_at-add_value :
    (q key : Key) (value : CrdtValue) (rows : Values)
    → value_at q (add_value key value rows)
      ≡ (if is_eq (keys.cmp q key) then some value else value_at q rows)
unfolding pair_ord
value_at-add_value q key value rows = ground (
  arith,
  values_at-add_value q.0 key value rows,
  get-insert q.1 key.1 value (values_at key.0 rows),
  text_ord.identical q.0 key.0,
)

-- Every row of `values_by_row` holds the values of its cells.
pub value_at-values_by_row :
    (cells : BTreeMap Key CrdtColumn) (rows : Values) (k : Key)
    → IsSorted cells
    → value_at k (values_by_row cells rows)
      ≡ elim (get k cells) [ none ↦ value_at k rows | some column ↦ some column.value ]
unfolding values_by_row get
value_at-values_by_row [] rows k s = refl
value_at-values_by_row ((key, column) ∷ cells) rows k (above, s) = ground (
  arith,
  value_at-values_by_row cells (add_value key column.value rows) k s,
  value_at-add_value k key column.value rows,
  get-Above key cells above,
  keys.identical k key,
)

-- A row is listed once one of its cells was, and only then.
pub record HasRow (cells : BTreeMap Key CrdtColumn) (row_id : String) : Type 0 where
  pub column_name : String
  pub column : CrdtColumn
  pub is_cell : In ((row_id, column_name), column) cells

pub row-values_by_row :
    (cells : BTreeMap Key CrdtColumn) (rows : Values) (t : String)
    (values : BTreeMap String CrdtValue)
    → get t (values_by_row cells rows) ≡ some values
    → HasRow cells t ⊎ ((before : BTreeMap String CrdtValue) × (get t rows ≡ some before))
unfolding values_by_row
row-values_by_row [] rows t values e = inr (values, e)
row-values_by_row ((key, column) ∷ cells) rows t values e =
    elim (row-values_by_row cells (add_value key column.value rows) t values e) [
      | inl h ↦
          inl (record { column_name = h.column_name; column = h.column; is_cell = inr h.is_cell })
      | inr (before, f) ↦ elim (Bool-cases (is_eq (text_ord.cmp t key.0))) [
        | inl same ↦ inl (record {
          column_name = key.1;
          column = column;
          is_cell = inl (λ i. ((text_ord.identical t key.0 (ground arith) i, key.1), column));
        })
        | inr other ↦ inr (before, ground (arith, get-add_value t key column.value rows))
      ]
    ]

pub values_by_row-row :
    (cells : BTreeMap Key CrdtColumn) (rows : Values) (t : String)
    → HasRow cells t ⊎ ((before : BTreeMap String CrdtValue) × (get t rows ≡ some before))
    → (values : BTreeMap String CrdtValue) × (get t (values_by_row cells rows) ≡ some values)
unfolding values_by_row
values_by_row-row [] rows t (inl h) = absurd h.is_cell
values_by_row-row [] rows t (inr before) = before
values_by_row-row ((key, column) ∷ cells) rows t h =
    values_by_row-row cells (add_value key column.value rows) t (elim h [
      | inl row ↦ elim (row.is_cell) [
        | inl e ↦ inr (
          insert key.1 column.value (values_at key.0 rows),
          added (ap (λ (x : Key × CrdtColumn). x.0.0) e),
        )
        | inr i ↦ inl (record { column_name = row.column_name; column = row.column; is_cell = i })
      ]
      | inr (before, e) ↦ elim (Bool-cases (is_eq (text_ord.cmp t key.0))) [
        | inl same ↦ inr (
          insert key.1 column.value (values_at key.0 rows),
          ground (arith, get-add_value t key column.value rows),
        )
        | inr other ↦ inr (before, ground (arith, get-add_value t key column.value rows))
      ]
    ])
  where
    added :
        t ≡ key.0
        → get t (add_value key column.value rows)
          ≡ some (insert key.1 column.value (values_at key.0 rows))
    added e =
        subst
          (λ (u : String).
            get u (add_value key column.value rows)
            ≡ some (insert key.1 column.value (values_at key.0 rows)))
          (sym e) (ground (arith, get-add_value key.0 key column.value rows, cmp_refl key.0))

add_value-IsSorted :
    (key : Key) (value : CrdtValue) (rows : Values)
    → IsSorted rows
    → IsSorted (add_value key value rows)
unfolding add_value
add_value-IsSorted key value rows s =
    insert-IsSorted key.0 (insert key.1 value (values_at key.0 rows)) rows s

pub values_by_row-IsSorted :
    (cells : BTreeMap Key CrdtColumn) (rows : Values)
    → IsSorted rows
    → IsSorted (values_by_row cells rows)
unfolding values_by_row
values_by_row-IsSorted [] rows s = s
values_by_row-IsSorted ((key, column) ∷ cells) rows s =
    values_by_row-IsSorted cells (add_value key column.value rows)
      (add_value-IsSorted key column.value rows s)
