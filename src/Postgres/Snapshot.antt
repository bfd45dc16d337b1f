-- ===== src/Postgres/Snapshot.antt =====
-- The parts of a partial answer: the rows that the query selects, the limit, and where the rows of
-- the snapshot come from.

use Prim.Native.Nat.Ordering.{lt, eq, gt}
use text.Mathlib.TextEquality.{eq_iff}
use package.text.Mathlib.Text.{◌==◌ as str_eq}
use loomabase.Base.{
  ℕ, zero, suc, ◌+◌, ◌≤◌, String, ◌≡◌, refl, sym, ap, subst, ◌∙◌, inl, inr, ◌⊎◌, Bool-cases, Bool,
  true, false, List, [], ◌∷◌, All, In, map, length, ltb, arith, ◌&&◌, Ordering,
}
use loomabase.BTree.{BTreeMap, insert}
use loomabase.Order.{Ord}
use loomabase.Order.Pair.{pair_ord}
use loomabase.Order.Text.{text_ord}
use loomabase.Error.{
  Result, ok, snapshot_too_large, reject_if, bind-eq-ok, then-eq-ok, ok-injective,
}
use loomabase.Value.{CrdtColumn, CrdtValue, RowChange, max_payload_cells}
use loomabase.Validate.{Key}
use loomabase.Feed.{Rows, add_cell, to_changes}
use loomabase.Replica.{ReplicaInterest, contains_id, same_ids}
use loomabase.Client.Codec.{clock_from_i64}
use loomabase.Postgres.{AppRow, StoredCell}
use loomabase.Postgres.Page.{Stored, limit}
use loomabase.Postgres.Partial.{row_in_scope, select_ids, read_snapshot}

-- A row of the tenant that the query selects.
abbrev pub Selected : String → ReplicaInterest → BTreeMap (String × String) AppRow → String → Type 0
Selected t interest rows id =
    (row : AppRow) × In ((t, id), row) rows × (row_in_scope interest id row ≡ true)

module _ (t : String) (interest : ReplicaInterest) where
  abbrev picks : String → String → AppRow → Bool
  picks tenant id row = str_eq tenant t && row_in_scope interest id row

  pub In-select_ids :
      (rows : BTreeMap (String × String) AppRow) (id : String)
      → In id (select_ids t interest rows)
      → Selected t interest rows id
  unfolding select_ids
  In-select_ids [] id i = absurd i
  In-select_ids (((tenant, other), row) ∷ rows) id i = elim (Bool-cases (picks tenant other row)) [
    | inr skipped ↦
        let (found, j, scoped) = In-select_ids rows id (rw skipped at i) in (found, inr j, scoped)
    | inl picked ↦
        let j : (id ≡ other) ⊎ In id (select_ids t interest rows) = rw picked at i in
        elim j [
          | inr later ↦
              let (found, k, scoped) = In-select_ids rows id later in (found, inr k, scoped)
          | inl e ↦
              let own : str_eq tenant t ≡ true = ground arith in
              let scoped : row_in_scope interest other row ≡ true = ground arith in
              let same : t ≡ tenant = sym ((eq_iff tenant t).0 own) in
              (
                row,
                inl (λ k. ((same k, e k), row)),
                subst (λ (x : String). row_in_scope interest x row ≡ true) (sym e) scoped,
              )
        ]
  ]

  pub select_ids-In :
      (rows : BTreeMap (String × String) AppRow) (id : String)
      → Selected t interest rows id
      → In id (select_ids t interest rows)
  unfolding select_ids
  select_ids-In [] id (row, i, scoped) = absurd i
  select_ids-In (((tenant, other), row) ∷ rows) id (found, i, scoped) =
      elim (Bool-cases (picks tenant other row)) [
        | inl picked ↦ rw picked (elim i [
          | inl e ↦ inl (ap (λ (x : (String × String) × AppRow). x.0.1) e)
          | inr j ↦ inr (select_ids-In rows id (found, j, scoped))
        ])
        | inr skipped ↦ rw skipped (elim i [
          | inl e ↦ absurd (clash e skipped)
          | inr j ↦ select_ids-In rows id (found, j, scoped)
        ])
      ]
    where
      clash :
          ◌≡◌ {A = (String × String) × AppRow} ((t, id), found) ((tenant, other), row)
          → picks tenant other row ≡ false
          → ⊥
      clash e skipped =
          let own : str_eq tenant t ≡ true =
            (eq_iff tenant t).1 (sym (ap (λ (x : (String × String) × AppRow). x.0.0) e)) in
          let here : row_in_scope interest other row ≡ true =
            subst (λ (x : (String × String) × AppRow). row_in_scope interest x.0.1 x.1 ≡ true) e
              scoped in
          ground arith

limit_suc :
    {A : Type 0} (n : ℕ) (xs : List A) → length (limit (suc n) xs) ≤ n → limit (suc n) xs ≡ xs
unfolding limit
limit_suc n [] le = refl
limit_suc zero (x ∷ xs) le = absurd (omega arith)
limit_suc {A} (suc n) (x ∷ xs) le = ap (λ (ys : List A). x ∷ ys) (limit_suc n xs (omega arith))

-- A limit that is not reached cuts nothing off.
pub limit_unreached :
    {A : Type 0} (n : ℕ) (xs : List A) → length (limit (n + 1) xs) ≤ n → limit (n + 1) xs ≡ xs
limit_unreached {A} n xs =
    subst (λ (m : ℕ). length (limit m xs) ≤ n → limit m xs ≡ xs) (suc_is n) (limit_suc n xs)
  where
    suc_is : (n : ℕ) → suc n ≡ n + 1
    suc_is n = omega arith

insert-All :
    {K V : Type 0} ⦃o : Ord K⦄ (P : K → Type 0) (k : K) (v : V) (m : BTreeMap K V)
    → P k
    → All (λ (e : K × V). P e.0) m
    → All (λ (e : K × V). P e.0) (insert k v m)
unfolding insert
insert-All P k v [] p a = (p, tt)
insert-All {K} {V} ⦃o⦄ P k v ((j, w) ∷ m) p (q, a) = go (insert-All P k v m p a) (o.cmp k j)
  where
    go :
        All (λ (e : K × V). P e.0) (insert k v m)
        → (c : Ordering)
        → All
            (λ (e : K × V). P e.0)
            (elim c [ lt ↦ (k, v) ∷ (j, w) ∷ m | eq ↦ (k, v) ∷ m | gt ↦ (j, w) ∷ insert k v m ])
    go later lt = (p, (q, a))
    go later eq = (p, a)
    go later gt = (q, later)

module _ (P : String → Type 0) where
  abbrev RowsAll : Rows → Type 0
  RowsAll rows = All (λ (r : String × BTreeMap String CrdtColumn). P r.0) rows

  add_cell-RowsAll :
      (key : Key) (column : CrdtColumn) (rows : Rows)
      → P key.0
      → RowsAll rows
      → RowsAll (add_cell key column rows)
  unfolding add_cell
  add_cell-RowsAll key column rows p a = insert-All P key.0 _ rows p a

  -- Every row of the snapshot is the row of a cell that was read.
  pub read_snapshot-RowsAll :
      (value_len : CrdtValue → Result ℕ) (member_ids : List String) (cells : Stored)
      (counted bytes : ℕ) (rows rows' : Rows)
      → All (λ (c : Key × StoredCell). P c.0.0) cells
      → RowsAll rows
      → read_snapshot value_len member_ids cells counted bytes rows ≡ ok rows'
      → RowsAll rows'
  unfolding read_snapshot
  read_snapshot-RowsAll value_len member_ids [] counted bytes rows rows' p a h =
      subst RowsAll (ok-injective h) a
  read_snapshot-RowsAll value_len member_ids ((key, cell) ∷ cells) counted bytes rows rows' (p, ps)
        a h =
      elim (Bool-cases (contains_id member_ids key.0)) [
        | inr out ↦
            read_snapshot-RowsAll value_len member_ids cells counted bytes rows rows' ps a
              (rw (read_snapshot, out) at h)
        | inl member ↦
            let h₀ = rw (read_snapshot, member) at h in
            let (_, h₁) =
              then-eq-ok (reject_if (ltb max_payload_cells (counted + 1)) snapshot_too_large) _
                h₀ in
            let (clock, _, h₂) = bind-eq-ok (clock_from_i64 cell.lamport_clock) _ h₁ in
            let (value_bytes, _, h₃) = bind-eq-ok (value_len cell.value) _ h₂ in
            let (_, h₄) = then-eq-ok (reject_if _ _) _ h₃ in
            read_snapshot-RowsAll value_len member_ids cells (counted + 1) _ _ rows' ps
              (add_cell-RowsAll key _ rows p a) h₄
      ]

  pub to_changes-RowsAll :
      (rows : Rows) (id : String)
      → RowsAll rows
      → In id (map (λ (row : RowChange). row.todo_id) (to_changes rows))
      → P id
  unfolding to_changes
  to_changes-RowsAll [] id a i = absurd i
  to_changes-RowsAll ((todo_id, columns) ∷ rows) id (p, a) (inl e) = subst P (sym e) p
  to_changes-RowsAll ((todo_id, columns) ∷ rows) id (p, a) (inr i) = to_changes-RowsAll rows id a i

-- Sequences that are the same have the same members.
pub same_ids-In : (xs ys : List String) (id : String) → same_ids xs ys ≡ true → In id ys → In id xs
unfolding same_ids
same_ids-In [] [] id h i = absurd i
same_ids-In [] (y ∷ ys) id h i = absurd (ground arith)
same_ids-In (x ∷ xs) [] id h i = absurd i
same_ids-In (x ∷ xs) (y ∷ ys) id h i = elim (Bool-cases (str_eq x y)) [
  | inr differs ↦ absurd (ground arith)
  | inl same ↦ elim i [
    | inl e ↦ inl (e ∙ sym ((eq_iff x y).0 same))
    | inr j ↦ inr (same_ids-In xs ys id (ground arith) j)
  ]
]
