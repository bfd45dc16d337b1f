-- ===== src/Postgres/Steps.antt =====
-- The round of a cell that returned, taken apart into its steps.
use loomabase.Base.{
  String, ◌≡◌, sym, ◌⊎◌, inl, inr, Bool, [], ◌∷◌, Option, arith, ◌++◌, if◌then◌else◌,
}
use loomabase.Error.{Result, ok, err, ◌>>=◌, bind-eq-ok, ok-injective}
use loomabase.Value.{CrdtColumn, SyncRejection, SyncRejectionKind}
use loomabase.Validate.{Key}
use loomabase.Validate.Cell.{new_rejection}
use loomabase.Explain.{explain_lww}
use loomabase.Policy.{
  SyncContext, SyncSecurity, SyncAuditEvent, SyncAuditOutcome, PolicyDecision, allow, deny,
  new_event,
}
use loomabase.Merge.{mutation_of}
use loomabase.Postgres.{Database}
use loomabase.Postgres.Cell.{
  ServerWorking, record_audit_if_enabled, rejection_audit_outcome, audited_decision,
  write_server_cell, reject_server_cell, apply_server_cell, authorize_server_cell,
}

pub record Rejected (security : SyncSecurity) (context : SyncContext) (key : Key)
    (incoming : CrdtColumn) (current : Option CrdtColumn) (kind : SyncRejectionKind)
    (reason : String) (w w' : ServerWorking) : Type 0 where
  pub rejection : SyncRejection
  pub rejects :
      new_rejection key.0 key.1 kind reason incoming.value incoming.metadata ≡ ok rejection
  pub event : SyncAuditEvent
  pub reports :
      new_event context (mutation_of key incoming) current (rejection_audit_outcome kind) reason
      ≡ ok event
  pub audited : Database
  pub records : record_audit_if_enabled context.tenant_id security event w.0 ≡ ok audited
  pub result : w' ≡ (audited, w.1 ++ rejection ∷ [])

pub reject_server_cell-Rejected :
    (security : SyncSecurity) (context : SyncContext) (key : Key) (incoming : CrdtColumn)
    (current : Option CrdtColumn) (kind : SyncRejectionKind) (reason : String)
    (w w' : ServerWorking)
    → reject_server_cell security context key incoming current kind reason w ≡ ok w'
    → Rejected security context key incoming current kind reason w w'
unfolding reject_server_cell
reject_server_cell-Rejected security context key incoming current kind reason w w' h =
    let (rejection, rejects, h₁) =
      bind-eq-ok (new_rejection key.0 key.1 kind reason incoming.value incoming.metadata) _ h in
    let (event, reports, h₂) =
      bind-eq-ok
        (new_event context (mutation_of key incoming) current (rejection_audit_outcome kind) reason)
        _ h₁ in
    let (audited, records, h₃) =
      bind-eq-ok (record_audit_if_enabled context.tenant_id security event w.0) _ h₂ in
    record {
      rejection = rejection;
      rejects = rejects;
      event = event;
      reports = reports;
      audited = audited;
      records = records;
      result = sym (ok-injective h₃);
    }

module _ (debug_text : String → String) where
  pub record Applied (security : SyncSecurity) (context : SyncContext) (key : Key)
      (incoming : CrdtColumn) (current : Option CrdtColumn) (w w' : ServerWorking) : Type 0 where
    pub decision : Bool × SyncAuditOutcome
    pub decides : audited_decision current incoming ≡ ok decision
    pub written : Database
    pub writes :
        (if decision.0 then write_server_cell context key incoming w.0 else ok w.0) ≡ ok written
    pub event : SyncAuditEvent
    pub reports :
        new_event context
          (mutation_of key incoming)
          current
          decision.1
          (explain_lww debug_text current incoming).summary
        ≡ ok event
    pub audited : Database
    pub records : record_audit_if_enabled context.tenant_id security event written ≡ ok audited
    pub result : w' ≡ (audited, w.1)

  pub apply_server_cell-Applied :
      (security : SyncSecurity) (context : SyncContext) (key : Key) (incoming : CrdtColumn)
      (current : Option CrdtColumn) (w w' : ServerWorking)
      → apply_server_cell debug_text security context key incoming current w ≡ ok w'
      → Applied security context key incoming current w w'
  unfolding apply_server_cell
  apply_server_cell-Applied security context key incoming current w w' h =
      let (decision, decides, h₁) = bind-eq-ok (audited_decision current incoming) _ h in
      let (written, writes, h₂) =
        bind-eq-ok (if decision.0 then write_server_cell context key incoming w.0 else ok w.0) _
          h₁ in
      let (event, reports, h₃) =
        bind-eq-ok
          (new_event context (mutation_of key incoming) current decision.1
            (explain_lww debug_text current incoming).summary)
          _ h₂ in
      let (audited, records, h₄) =
        bind-eq-ok (record_audit_if_enabled context.tenant_id security event written) _ h₃ in
      record {
        decision = decision;
        decides = decides;
        written = written;
        writes = writes;
        event = event;
        reports = reports;
        audited = audited;
        records = records;
        result = sym (ok-injective h₄);
      }

-- A hook denied the cell, or it was merged.
pub authorize_server_cell_cases :
    (debug_text : String → String) (security : SyncSecurity) (context : SyncContext) (key : Key)
    (incoming : CrdtColumn) (current : Option CrdtColumn) (w w' : ServerWorking)
    → authorize_server_cell debug_text security context key incoming current w ≡ ok w'
    → ((kind : SyncRejectionKind) × (reason : String) × (reject_server_cell security context key
            incoming current kind reason w
          ≡ ok w'))
      ⊎ (apply_server_cell debug_text security context key incoming current w ≡ ok w')
unfolding authorize_server_cell
authorize_server_cell_cases debug_text security context key incoming current w w' h =
    go (security.authorizer context (mutation_of key incoming) current)
      (security.validator context (mutation_of key incoming) current) h
  where
    go :
        (authorized validated : Result PolicyDecision)
        → (authorized >>= λ a. elim a [
          | deny kind reason ↦
              reject_server_cell security context key incoming current kind reason w
          | allow ↦ validated >>= λ v. elim v [
            | deny kind reason ↦
                reject_server_cell security context key incoming current kind reason w
            | allow ↦ apply_server_cell debug_text security context key incoming current w
          ]
        ])
          ≡ ok w'
        → ((kind : SyncRejectionKind) × (reason : String) × (reject_server_cell security context key
                incoming current kind reason w
              ≡ ok w'))
          ⊎ (apply_server_cell debug_text security context key incoming current w ≡ ok w')
    go (err e) validated f = ground arith
    go (ok (deny kind reason)) validated f = inl (kind, reason, f)
    go (ok allow) (err e) f = ground arith
    go (ok allow) (ok (deny kind reason)) f = inl (kind, reason, f)
    go (ok allow) (ok allow) f = inr f
