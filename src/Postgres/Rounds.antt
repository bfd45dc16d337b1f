-- ===== src/Postgres/Rounds.antt =====
-- Each round of the PostgreSQL merge loop does to the rows of a tenant what the round of the
-- reference server does to its state.
use loomabase.Base.{
  String, Bool, true, false, ◌≡◌, refl, sym, ap, subst, ◌∙◌, ◌⊎◌, inl, inr, List, [], ◌∷◌, ◌++◌,
  Option, arith, if◌then◌else◌,
}
use loomabase.BTree.{BTreeMap, get}
use loomabase.Order.Pair.{pair_ord}
use loomabase.Order.Text.{text_ord}
use loomabase.Error.{Result, ok, err, ◌>>=◌, bind-eq-ok, ok-injective}
use loomabase.Value.{CrdtColumn, RowChange, SyncRejection, SyncRejectionKind}
use loomabase.Validate.{Key}
use loomabase.Policy.{SyncContext, SyncSecurity, SyncAuditOutcome, PolicyDecision, allow, deny}
use loomabase.Merge.{
  CrdtState, Working, mutation_of, should_apply, write_cell, apply_cell, push_rejection, merge_cell,
  merge_columns, merge_rows,
}
use loomabase.Postgres.{Database, insert_row}
use loomabase.Postgres.Cell.{
  ServerWorking, audited_decision, write_server_cell, reject_server_cell, apply_server_cell,
  authorize_server_cell, merge_server_cell, merge_server_columns, merge_server_rows,
}
use loomabase.Postgres.Steps.{reject_server_cell-Rejected, apply_server_cell-Applied}
use loomabase.Postgres.Represents.{
  CellsStand, CellsStand-cells, record_audit-cells, write_server_cell-CellsStand, insert_row-cells,
}

-- The reference takes a step to a state that the database stands for, with the same rejections.
pub record Follows (t : String) (w' : ServerWorking) (step : Result Working) : Type 0 where
  pub state : CrdtState
  pub steps : step ≡ ok (state, w'.1)
  pub stands : CellsStand t w'.0 state

should_apply-decision :
    (current : Option CrdtColumn) (incoming : CrdtColumn) (d : Bool × SyncAuditOutcome)
    → audited_decision current incoming ≡ ok d
    → should_apply current incoming ≡ ok d.0
unfolding audited_decision should_apply
should_apply-decision current incoming d h = ground arith

module _ (debug_text : String → String) (security : SyncSecurity) (context : SyncContext)
    (key : Key) (incoming : CrdtColumn) (w w' : ServerWorking) (s : CrdtState)
    (stand : CellsStand context.tenant_id w.0 s) where
  -- Both servers take the same arm.
  same_arm :
      authorize_server_cell debug_text security context key incoming (get key s.cells) w ≡ ok w'
      → ((kind : SyncRejectionKind) × (reason : String) × (reject_server_cell security context key
              incoming
              (get key s.cells)
              kind
              reason
              w
            ≡ ok w')
          × (merge_cell security context key incoming (s, w.1)
              ≡ push_rejection key incoming kind reason (s, w.1)))
        ⊎ ((apply_server_cell debug_text security context key incoming (get key s.cells) w ≡ ok w')
            × (merge_cell security context key incoming (s, w.1)
                ≡ apply_cell key incoming (s, w.1)))
  unfolding authorize_server_cell merge_cell
  same_arm h =
      go (security.authorizer context (mutation_of key incoming) (get key s.cells))
        (security.validator context (mutation_of key incoming) (get key s.cells)) h
    where
      go :
          (authorized validated : Result PolicyDecision)
          → (authorized >>= λ a. elim a [
            | deny kind reason ↦
                reject_server_cell security context key incoming (get key s.cells) kind reason w
            | allow ↦ validated >>= λ v. elim v [
              | deny kind reason ↦
                  reject_server_cell security context key incoming (get key s.cells) kind reason w
              | allow ↦
                  apply_server_cell debug_text security context key incoming (get key s.cells) w
            ]
          ])
            ≡ ok w'
          → ((kind : SyncRejectionKind) × (reason : String) × (reject_server_cell security context
                  key incoming
                  (get key s.cells)
                  kind
                  reason
                  w
                ≡ ok w')
              × ((authorized >>= λ a. elim a [
                | deny kind reason ↦ push_rejection key incoming kind reason (s, w.1)
                | allow ↦ validated >>= λ v. elim v [
                  | deny kind reason ↦ push_rejection key incoming kind reason (s, w.1)
                  | allow ↦ apply_cell key incoming (s, w.1)
                ]
              ])
                  ≡ push_rejection key incoming kind reason (s, w.1)))
            ⊎ ((apply_server_cell debug_text security context key incoming (get key s.cells) w
                  ≡ ok w')
                × ((authorized >>= λ a. elim a [
                  | deny kind reason ↦ push_rejection key incoming kind reason (s, w.1)
                  | allow ↦ validated >>= λ v. elim v [
                    | deny kind reason ↦ push_rejection key incoming kind reason (s, w.1)
                    | allow ↦ apply_cell key incoming (s, w.1)
                  ]
                ])
                    ≡ apply_cell key incoming (s, w.1)))
      go (err e) validated f = ground arith
      go (ok (deny kind reason)) validated f = inl (kind, reason, f, refl)
      go (ok allow) (err e) f = ground arith
      go (ok allow) (ok (deny kind reason)) f = inl (kind, reason, f, refl)
      go (ok allow) (ok allow) f = inr (f, refl)

  rejected-Follows :
      (current : Option CrdtColumn) (kind : SyncRejectionKind) (reason : String)
      → reject_server_cell security context key incoming current kind reason w ≡ ok w'
      → Follows context.tenant_id w' (push_rejection key incoming kind reason (s, w.1))
  unfolding push_rejection
  rejected-Follows current kind reason h =
      let r =
        reject_server_cell-Rejected security context key incoming current kind reason w w' h in
      record {
        state = s;
        steps =
            ap (λ x. x >>= λ (rejection : SyncRejection). ok (s, w.1 ++ rejection ∷ [])) r.rejects
            ∙ ap (λ (v : ServerWorking). ok (s, v.1)) (sym r.result);
        stands =
            CellsStand-cells context.tenant_id w.0 w'.0 s
              (ap (λ (v : ServerWorking). v.0.cells) r.result
                ∙ record_audit-cells context.tenant_id security r.event w.0 r.audited r.records)
              stand;
      }

  applied-Follows :
      apply_server_cell debug_text security context key incoming (get key s.cells) w ≡ ok w'
      → Follows context.tenant_id w' (apply_cell key incoming (s, w.1))
  unfolding apply_cell
  applied-Follows h =
      let a =
        apply_server_cell-Applied debug_text security context key incoming (get key s.cells) w w'
          h in
      record {
        state = if a.decision.0 then write_cell key incoming s else s;
        steps =
            ap
              (λ x.
                x >>= λ (apply : Bool). ok (if apply then write_cell key incoming s else s, w.1))
              (should_apply-decision (get key s.cells) incoming a.decision a.decides)
            ∙ ap
                (λ (v : ServerWorking).
                  ok (if a.decision.0 then write_cell key incoming s else s, v.1))
                (sym a.result);
        stands =
            CellsStand-cells context.tenant_id a.written w'.0
              (if a.decision.0 then write_cell key incoming s else s)
              (ap (λ (v : ServerWorking). v.0.cells) a.result
                ∙ record_audit-cells context.tenant_id security a.event a.written a.audited
                    a.records)
              (if_written a.decision.0 a.written a.writes);
      }
    where
      if_written :
          (b : Bool) (written : Database)
          → (if b then write_server_cell context key incoming w.0 else ok w.0) ≡ ok written
          → CellsStand context.tenant_id written (if b then write_cell key incoming s else s)
      if_written true written e =
          write_server_cell-CellsStand context key incoming w.0 written s e stand
      if_written false written e =
          subst (λ (d : Database). CellsStand context.tenant_id d s) (ok-injective e) stand

  merge_server_cell-Follows :
      merge_server_cell debug_text security context key incoming w ≡ ok w'
      → Follows context.tenant_id w' (merge_cell security context key incoming (s, w.1))
  unfolding merge_server_cell
  merge_server_cell-Follows h =
      let read = sym (
        ap
          (λ x. x >>= λ (current : Option CrdtColumn).
            authorize_server_cell debug_text security context key incoming current w)
          (stand key)) in
      elim (same_arm (read ∙ h)) [
        | inl (kind, reason, rejected, same) ↦
            subst (Follows context.tenant_id w') (sym same)
              (rejected-Follows (get key s.cells) kind reason rejected)
        | inr (applied, same) ↦
            subst (Follows context.tenant_id w') (sym same) (applied-Follows applied)
      ]

module _ (debug_text : String → String) (security : SyncSecurity) (context : SyncContext) where
  merge_server_columns-Follows :
      (todo_id : String) (columns : BTreeMap String CrdtColumn) (w w' : ServerWorking)
      (s : CrdtState)
      → CellsStand context.tenant_id w.0 s
      → merge_server_columns debug_text security context todo_id columns w ≡ ok w'
      → Follows context.tenant_id w' (merge_columns security context todo_id columns (s, w.1))
  unfolding merge_server_columns merge_columns
  merge_server_columns-Follows todo_id [] w w' s stand h = record {
    state = s;
    steps = ap (λ (v : ServerWorking). ok (s, v.1)) (ok-injective h);
    stands =
        subst (λ (v : ServerWorking). CellsStand context.tenant_id v.0 s) (ok-injective h) stand;
  }
  merge_server_columns-Follows todo_id ((column_name, incoming) ∷ columns) w w' s stand h =
      let key : Key = (todo_id, column_name) in
      let (v, first, rest) =
        bind-eq-ok (merge_server_cell debug_text security context key incoming w) _ h in
      let one =
        merge_server_cell-Follows debug_text security context key incoming w v s stand first in
      let others = merge_server_columns-Follows todo_id columns v w' one.state one.stands rest in
      record {
        state = others.state;
        steps =
            ap (λ x. x >>= merge_columns security context todo_id columns) one.steps ∙ others.steps;
        stands = others.stands;
      }

  pub merge_server_rows-Follows :
      (changes : List RowChange) (w w' : ServerWorking) (s : CrdtState)
      → CellsStand context.tenant_id w.0 s
      → merge_server_rows debug_text security context changes w ≡ ok w'
      → Follows context.tenant_id w' (merge_rows security context changes (s, w.1))
  unfolding merge_server_rows merge_rows
  merge_server_rows-Follows [] w w' s stand h = record {
    state = s;
    steps = ap (λ (v : ServerWorking). ok (s, v.1)) (ok-injective h);
    stands =
        subst (λ (v : ServerWorking). CellsStand context.tenant_id v.0 s) (ok-injective h) stand;
  }
  merge_server_rows-Follows (row ∷ changes) (db, rejections) w' s stand h =
      let inserted = insert_row context.table context.tenant_id row.todo_id db in
      let (v, first, rest) =
        bind-eq-ok
          (merge_server_columns debug_text security context row.todo_id row.columns
            (inserted, rejections))
          _ h in
      let one =
        merge_server_columns-Follows row.todo_id row.columns (inserted, rejections) v s
          (CellsStand-cells context.tenant_id db inserted s
            (insert_row-cells context.table context.tenant_id row.todo_id db) stand)
          first in
      let others = merge_server_rows-Follows changes v w' one.state one.stands rest in
      record {
        state = others.state;
        steps = ap (λ x. x >>= merge_rows security context changes) one.steps ∙ others.steps;
        stands = others.stands;
      }
