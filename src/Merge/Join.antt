-- ===== src/Merge/Join.antt =====
-- What one round of the merge loop does to the cells: a key holds the greater of two versions.

use loomabase.Base.{◌≡◌, refl, ◌⊎◌, inl, inr, Option, none, some, Bool-cases, arith, if◌then◌else◌}
use loomabase.BTree.{BTreeMap, get}
use loomabase.BTree.Lookup.{get-insert}
use loomabase.BTree.Sorted.{IsSorted, insert-IsSorted}
use loomabase.Order.{is_eq, Ord, cmp_refl}
use loomabase.Order.Pair.{pair_ord}
use loomabase.Order.Text.{text_ord}
use loomabase.Error.{ok}
use loomabase.Value.{CrdtColumn, ColumnMetadata}
use loomabase.Validate.{Key}
use loomabase.Lww.{decide_lww, accept_incoming, keep_current, equal}
use loomabase.Lww.Laws.{
  ◌⊑◌, ⊑_refl, ⊑_of_lt, ⊑_trans, decide_lww-accept, decide_lww-keep, decide_lww-equal,
}
use loomabase.Merge.{CrdtState, Working, write_cell, apply_cell}

-- The cell at a key after `incoming` was offered to it.
abbrev pub join : Option CrdtColumn → CrdtColumn → CrdtColumn
join none incoming = incoming
join (some current) incoming = elim (decide_lww current.metadata incoming.metadata) [
  | accept_incoming ↦ incoming
  | keep_current ↦ current
  | equal ↦ current
]

abbrev keys : Ord Key
keys = pair_ord

pub get-write_cell :
    (k key : Key) (incoming : CrdtColumn) (s : CrdtState)
    → get k (write_cell key incoming s).cells
      ≡ (if is_eq (keys.cmp k key) then some incoming else get k s.cells)
unfolding write_cell
get-write_cell k key incoming s = get-insert k key incoming s.cells

-- A round that returns leaves the join at its key and every other key as it was.
pub get-apply_cell :
    (k key : Key) (incoming : CrdtColumn) (w w' : Working)
    → apply_cell key incoming w ≡ ok w'
    → get k w'.0.cells ≡ (
        if is_eq (keys.cmp k key)
        then some (join (get key w.0.cells) incoming)
        else get k w.0.cells)
unfolding apply_cell
get-apply_cell k key incoming w w' h =
    ground (arith, get-write_cell k key incoming w.0, keys.identical k key)

join-ge-current : (c i : CrdtColumn) → c.metadata ⊑ (join (some c) i).metadata
join-ge-current c i = ground (
  arith,
  ⊑_refl c.metadata,
  ⊑_of_lt c.metadata i.metadata,
  decide_lww-accept c.metadata i.metadata,
)

join-ge-incoming : (o : Option CrdtColumn) (i : CrdtColumn) → i.metadata ⊑ (join o i).metadata
join-ge-incoming none i = ⊑_refl i.metadata
join-ge-incoming (some c) i = ground (
  arith,
  ⊑_refl i.metadata,
  ⊑_of_lt i.metadata c.metadata,
  decide_lww-keep c.metadata i.metadata,
  decide_lww-equal c.metadata i.metadata,
)

join_cases : (o : Option CrdtColumn) (i : CrdtColumn) → (join o i ≡ i) ⊎ (o ≡ some (join o i))
join_cases none i = inl refl
join_cases (some c) i = ground arith

-- A version that is at least `m` is held at the key.
abbrev pub Holds : BTreeMap Key CrdtColumn → Key → ColumnMetadata → Type 0
Holds cells k m = (c : CrdtColumn) × (get k cells ≡ some c) × (m ⊑ c.metadata)

module _ (key : Key) (incoming : CrdtColumn) (w w' : Working)
    (h : apply_cell key incoming w ≡ ok w') where
  -- The offered version, or a greater one, is held afterwards.
  pub apply_cell-Holds_self : Holds w'.0.cells key incoming.metadata
  apply_cell-Holds_self = (
    join (get key w.0.cells) incoming,
    ground (arith, get-apply_cell key key incoming w w' h, cmp_refl key),
    join-ge-incoming (get key w.0.cells) incoming,
  )

  -- What was held stays held.
  pub apply_cell-Holds : (k : Key) (m : ColumnMetadata) → Holds w.0.cells k m → Holds w'.0.cells k m
  apply_cell-Holds k m (c, e, le) = elim (Bool-cases (is_eq (keys.cmp k key))) [
    | inl same ↦
        let here : get key w.0.cells ≡ some c = ground (arith, keys.identical k key) in
        (
          join (get key w.0.cells) incoming,
          ground (arith, get-apply_cell k key incoming w w' h),
          rw here (⊑_trans m c.metadata _ le (join-ge-current c incoming)),
        )
    | inr other ↦ (c, ground (arith, get-apply_cell k key incoming w w' h), le)
  ]

  -- A cell that is there afterwards was there before, or is the offered one.
  pub apply_cell_source :
      (k : Key) (c : CrdtColumn)
      → get k w'.0.cells ≡ some c
      → (get k w.0.cells ≡ some c) ⊎ ((k ≡ key) × (c ≡ incoming))
  apply_cell_source k c e = ground (
    arith,
    get-apply_cell k key incoming w w' h,
    keys.identical k key,
    join_cases (get key w.0.cells) incoming,
  )

  pub apply_cell-IsSorted : IsSorted w.0.cells → IsSorted w'.0.cells
  unfolding apply_cell write_cell
  apply_cell-IsSorted s = ground (arith, insert-IsSorted key incoming w.0.cells s)
