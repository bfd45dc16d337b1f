-- ===== src/Server/Authorization.antt =====
-- A cell that the authorizer never allows is never written.
use loomabase.Base.{
  ℕ, String, ◌≡◌, ◌≢◌, sym, ap, subst, ◌∙◌, ◌⊎◌, inl, inr, false, Bool-cases, List, [], ◌∷◌, Option,
  arith,
}
use loomabase.BTree.{BTreeMap, get, contains_key}
use loomabase.Order.{Ord, is_eq}
use loomabase.Order.Pair.{pair_ord}
use loomabase.Order.Text.{text_ord}
use loomabase.Error.{Result, ok, bind-eq-ok, ok-injective}
use loomabase.Value.{CrdtColumn, RowChange, SyncPayload}
use loomabase.Validate.{Key}
use loomabase.Policy.{
  SyncSecurity, SyncContext, Hook, allow, deny_because, column_allow_list, AuditMode,
}
use loomabase.Merge.{
  CrdtState, Working, mutation_of, push_rejection, merge_cell, merge_columns, merge_rows,
}
use loomabase.Merge.Join.{get-apply_cell}
use loomabase.Merge.Advance.{merge_cell_cases}
use loomabase.Server.{context_of, issue_cursor, merge_inner}
use loomabase.Server.Inversion.{merge_inner-Accepted}

-- The hook never allows a write at the key.
abbrev pub Forbids : Hook → SyncContext → Key → Type 0
Forbids hook context key =
    (cell : CrdtColumn) (current : Option CrdtColumn)
    → hook context (mutation_of key cell) current ≢ ok allow

abbrev keys : Ord Key
keys = pair_ord

-- A round writes only what the authorizer allowed.
merge_cell_allowed :
    (security : SyncSecurity) (context : SyncContext) (key : Key) (cell : CrdtColumn)
    (w w' : Working)
    → merge_cell security context key cell w ≡ ok w'
    → (security.authorizer context (mutation_of key cell) (get key w.0.cells) ≡ ok allow)
      ⊎ (w'.0 ≡ w.0)
unfolding merge_cell push_rejection
merge_cell_allowed security context key cell w w' h = ground arith

abbrev SameAt : Key → CrdtState → CrdtState → Type 0
SameAt k s s' = get k s'.cells ≡ get k s.cells

SameAt-eq : (k : Key) (s s' : CrdtState) → s' ≡ s → SameAt k s s'
SameAt-eq k s s' e = rw e

module _ (security : SyncSecurity) (context : SyncContext) (k : Key)
    (forbidden : Forbids security.authorizer context k) where
  merge_cell_forbidden :
      (key : Key) (cell : CrdtColumn) (w w' : Working)
      → merge_cell security context key cell w ≡ ok w'
      → SameAt k w.0 w'.0
  merge_cell_forbidden key cell w w' h = elim (Bool-cases (is_eq (keys.cmp k key))) [
    | inl same ↦
        let e : key ≡ k = sym (keys.identical k key (ground arith)) in
        elim (merge_cell_allowed security context key cell w w' h) [
          | inl allowed ↦ absurd (
              forbidden cell (get key w.0.cells) (
                subst
                  (λ j.
                    security.authorizer context (mutation_of j cell) (get key w.0.cells) ≡ ok allow)
                  e allowed))
          | inr kept ↦ SameAt-eq k w.0 w'.0 kept
        ]
    | inr other ↦ elim (merge_cell_cases key cell security context w w' h) [
      | inl applied ↦ ground (arith, get-apply_cell k key cell w w' applied)
      | inr kept ↦ SameAt-eq k w.0 w'.0 kept
    ]
  ]

  merge_columns_forbidden :
      (todo_id : String) (columns : BTreeMap String CrdtColumn) (w w' : Working)
      → merge_columns security context todo_id columns w ≡ ok w'
      → SameAt k w.0 w'.0
  unfolding merge_columns
  merge_columns_forbidden todo_id [] w w' h = rw (ok-injective h)
  merge_columns_forbidden todo_id ((column_name, column) ∷ columns) w w' h =
      let (v, first, rest) =
        bind-eq-ok (merge_cell security context (todo_id, column_name) column w) _ h in
      merge_columns_forbidden todo_id columns v w' rest
      ∙ merge_cell_forbidden (todo_id, column_name) column w v first

  merge_rows_forbidden :
      (changes : List RowChange) (w w' : Working)
      → merge_rows security context changes w ≡ ok w'
      → SameAt k w.0 w'.0
  unfolding merge_rows
  merge_rows_forbidden [] w w' h = rw (ok-injective h)
  merge_rows_forbidden (row ∷ changes) w w' h =
      let (v, first, rest) =
        bind-eq-ok (merge_columns security context row.todo_id row.columns w) _ h in
      merge_rows_forbidden changes v w' rest
      ∙ merge_columns_forbidden row.todo_id row.columns w v first

column_allow_list-Forbids :
    (columns : BTreeMap String Unit) (context : SyncContext) (k : Key)
    → contains_key k.1 columns ≡ false
    → Forbids (column_allow_list columns) context k
unfolding column_allow_list deny_because
column_allow_list-Forbids columns context k absent cell current h = ground arith

module _ (json_len : CrdtColumn → Result ℕ) where
  -- An accepted merge under a column allow list leaves every cell of a column outside the list as
  -- it was, whatever the validator and the audit mode.
  pub merge_column_allow_list :
      (payload : SyncPayload) (device : String) (columns : BTreeMap String Unit) (validator : Hook)
      (mode : AuditMode) (s s' : CrdtState) (response : SyncPayload) (k : Key)
      → merge_inner json_len payload device
          (record {
            authorizer = column_allow_list columns;
            validator = validator;
            audit_mode = mode;
          })
          s
        ≡ ok (s', response)
      → contains_key k.1 columns ≡ false
      → get k s'.cells ≡ get k s.cells
  unfolding issue_cursor
  merge_column_allow_list payload device columns validator mode s s' response k h absent =
      let a = merge_inner-Accepted json_len payload device _ s s' response h in
      ap (λ (t : CrdtState). get k t.cells) a.state
      ∙ merge_rows_forbidden
          (record {
            authorizer = column_allow_list columns;
            validator = validator;
            audit_mode = mode;
          })
          (context_of s device) k (column_allow_list-Forbids columns (context_of s device) k absent)
          payload.changes (s, []) (a.merged, a.rejections) a.loop
