-- ===== src/Server/Rejections.antt =====
-- Every offered cell is merged or reported.
use loomabase.Base.{
  ℕ, String, ◌≡◌, refl, sym, ap, ◌⊎◌, inl, inr, List, [], ◌∷◌, ◌++◌, In, In-append_left,
  In-append_right, All, arith,
}
use loomabase.BTree.{BTreeMap, get}
use loomabase.Order.Pair.{pair_ord}
use loomabase.Order.Text.{text_ord}
use loomabase.Error.{Result, SyncError, ok, err, bind-eq-ok, ok-injective}
use loomabase.Value.{CrdtColumn, RowChange, SyncPayload, SyncRejection, SyncRejectionKind}
use loomabase.Validate.{Key}
use loomabase.Validate.Cell.{new_rejection}
use loomabase.Policy.{SyncSecurity, SyncContext, allow, deny}
use loomabase.Merge.{
  CrdtState, Working, mutation_of, apply_cell, push_rejection, merge_cell, merge_columns,
  merge_rows,
}
use loomabase.Merge.Join.{Holds, apply_cell-Holds_self}
use loomabase.Merge.Advance.{
  Entries, entries, row_entries, Advances, merge_columns-Advances, merge_rows-Advances,
}
use loomabase.Server.{context_of, issue_cursor, response_of, merge_inner}
use loomabase.Server.Inversion.{merge_inner-Accepted}

-- The rejection tells of this cell.
pub record Reports (key : Key) (cell : CrdtColumn) (r : SyncRejection) : Type 0 where
  pub same_key : (r.todo_id, r.column_name) ≡ key
  pub same_value : r.value ≡ cell.value
  pub same_version : r.metadata ≡ cell.metadata

abbrev pub Reported : List SyncRejection → Key × CrdtColumn → Type 0
Reported rejections (key, cell) = (r : SyncRejection) × In r rejections × Reports key cell r

-- A result, with its equation.
Answer-cases {ℓ} :
    {A : Type ℓ} (r : Result A) → ((a : A) × (r ≡ ok a)) ⊎ ((e : SyncError) × (r ≡ err e))
Answer-cases (ok a) = inl (a, refl)
Answer-cases (err e) = inr (e, refl)

-- The cell is held, in its version or a greater one, or a rejection tells of it.
abbrev pub Accounted : Working → Key × CrdtColumn → Type 0
Accounted (s, rejections) (key, cell) =
    Holds s.cells key cell.metadata ⊎ Reported rejections (key, cell)

-- The rejections only grow.
abbrev Grows : List SyncRejection → List SyncRejection → Type 0
Grows xs ys = (r : SyncRejection) → In r xs → In r ys

new_rejection-Reports :
    (key : Key) (cell : CrdtColumn) (kind : SyncRejectionKind) (reason : String) (r : SyncRejection)
    → new_rejection key.0 key.1 kind reason cell.value cell.metadata ≡ ok r
    → Reports key cell r
unfolding new_rejection
new_rejection-Reports key cell kind reason r h = record {
  same_key = ground arith;
  same_value = ground arith;
  same_version = ground arith;
}

push_rejection_reports :
    (key : Key) (cell : CrdtColumn) (kind : SyncRejectionKind) (reason : String) (w w' : Working)
    → push_rejection key cell kind reason w ≡ ok w'
    → Reported w'.1 (key, cell) × Grows w.1 w'.1
unfolding push_rejection
push_rejection_reports key cell kind reason w w' h =
    let (r, made, rest) =
      bind-eq-ok (new_rejection key.0 key.1 kind reason cell.value cell.metadata) _ h in
    let pushed : w'.1 ≡ w.1 ++ r ∷ [] = ap (λ (v : Working). v.1) (sym (ok-injective rest)) in
    rw pushed (
      (
        r,
        In-append_right r w.1 (r ∷ []) (inl refl),
        new_rejection-Reports key cell kind reason r made,
      ),
      λ q i. In-append_left q w.1 (r ∷ []) i,
    )

apply_cell-rejections :
    (key : Key) (cell : CrdtColumn) (w w' : Working) → apply_cell key cell w ≡ ok w' → w'.1 ≡ w.1
unfolding apply_cell
apply_cell-rejections key cell w w' h = ground arith

module _ (security : SyncSecurity) (context : SyncContext) where
  -- A round applies the cell or pushes a rejection.
  merge_cell_split :
      (key : Key) (cell : CrdtColumn) (w w' : Working)
      → merge_cell security context key cell w ≡ ok w'
      → (apply_cell key cell w ≡ ok w')
        ⊎ ((kind : SyncRejectionKind) × (reason : String) × (push_rejection key cell kind reason w
              ≡ ok w'))
  unfolding merge_cell
  merge_cell_split key cell w w' h =
      elim (Answer-cases (security.authorizer context (mutation_of key cell) (get key w.0.cells))) [
        | inr (e, f) ↦ ground arith
        | inl (allow, f) ↦
            elim (Answer-cases
              (security.validator context (mutation_of key cell) (get key w.0.cells))) [
                | inr (e, g) ↦ ground arith
                | inl (allow, g) ↦ inl (ground arith)
                | inl (deny kind reason, g) ↦ inr (kind, reason, ground arith)
              ]
        | inl (deny kind reason, f) ↦ inr (kind, reason, ground arith)
      ]

  merge_cell-Accounted :
      (key : Key) (cell : CrdtColumn) (w w' : Working)
      → merge_cell security context key cell w ≡ ok w'
      → Accounted w' (key, cell) × Grows w.1 w'.1
  merge_cell-Accounted key cell w w' h = elim (merge_cell_split key cell w w' h) [
    | inl applied ↦ (
      inl (apply_cell-Holds_self key cell w w' applied),
      rw (apply_cell-rejections key cell w w' applied) (λ r i. i),
    )
    | inr (kind, reason, pushed) ↦
        let (reported, grows) = push_rejection_reports key cell kind reason w w' pushed in
        (inr reported, grows)
  ]

  -- Later rounds keep what is accounted for.
  Accounted-later :
      (es xs : Entries) (v w : Working)
      → Advances xs v.0.cells w.0.cells
      → Grows v.1 w.1
      → All (Accounted v) es
      → All (Accounted w) es
  Accounted-later [] xs v w p g a = tt
  Accounted-later ((k, c) ∷ es) xs v w p g (inl held, a) =
      (inl (p.keeps k c.metadata held), Accounted-later es xs v w p g a)
  Accounted-later ((k, c) ∷ es) xs v w p g (inr (r, i, told), a) =
      (inr (r, g r i, told), Accounted-later es xs v w p g a)

  All-append {ℓ} :
      {A : Type 0} (P : A → Type ℓ) (xs ys : List A) → All P xs → All P ys → All P (xs ++ ys)
  All-append P [] ys p q = q
  All-append P (x ∷ xs) ys (h, p) q = (h, All-append P xs ys p q)

  merge_columns-Accounted :
      (todo_id : String) (columns : BTreeMap String CrdtColumn) (w w' : Working)
      → merge_columns security context todo_id columns w ≡ ok w'
      → All (Accounted w') (row_entries todo_id columns) × Grows w.1 w'.1
  unfolding merge_columns
  merge_columns-Accounted todo_id [] w w' h = (tt, rw (ok-injective h) (λ r i. i))
  merge_columns-Accounted todo_id ((column_name, column) ∷ columns) w w' h =
      let (v, first, rest) =
        bind-eq-ok (merge_cell security context (todo_id, column_name) column w) _ h in
      let (here, grows) = merge_cell-Accounted (todo_id, column_name) column w v first in
      let (later, grows') = merge_columns-Accounted todo_id columns v w' rest in
      let kept =
        Accounted-later (((todo_id, column_name), column) ∷ []) (row_entries todo_id columns) v w'
          (merge_columns-Advances security context todo_id columns v w' rest) grows' (here, tt) in
      ((kept.0, later), λ r i. grows' r (grows r i))

  merge_rows-Accounted :
      (changes : List RowChange) (w w' : Working)
      → merge_rows security context changes w ≡ ok w'
      → All (Accounted w') (entries changes) × Grows w.1 w'.1
  unfolding merge_rows
  merge_rows-Accounted [] w w' h = (tt, rw (ok-injective h) (λ r i. i))
  merge_rows-Accounted (row ∷ changes) w w' h =
      let (v, first, rest) =
        bind-eq-ok (merge_columns security context row.todo_id row.columns w) _ h in
      let (here, grows) = merge_columns-Accounted row.todo_id row.columns w v first in
      let (later, grows') = merge_rows-Accounted changes v w' rest in
      let kept =
        Accounted-later (row_entries row.todo_id row.columns) (entries changes) v w'
          (merge_rows-Advances security context changes v w' rest) grows' here in
      (
        All-append (Accounted w') (row_entries row.todo_id row.columns) (entries changes) kept
            later,
        λ r i. grows' r (grows r i),
      )

-- The answer accounts for the cell.
abbrev pub Answered : CrdtState → SyncPayload → Key × CrdtColumn → Type 0
Answered s response = Accounted (s, response.rejections)

module _ (json_len : CrdtColumn → Result ℕ) where
  -- After an accepted merge every cell of the payload is accounted for: the state holds a version
  -- of its key at least as late, or the response has a rejection with its key, value and version.
  pub merge_accounts :
      (payload : SyncPayload) (device : String) (security : SyncSecurity) (s s' : CrdtState)
      (response : SyncPayload)
      → merge_inner json_len payload device security s ≡ ok (s', response)
      → All (Answered s' response) (entries payload.changes)
  unfolding issue_cursor response_of
  merge_accounts payload device security s s' response h =
      let a = merge_inner-Accepted json_len payload device security s s' response h in
      let told : response.rejections ≡ a.rejections =
        ap (λ (p : SyncPayload). p.rejections) a.answer in
      rw (a.state, told)
        ((merge_rows-Accounted security (context_of s device) payload.changes (s, [])
          (a.merged, a.rejections) a.loop).0)
