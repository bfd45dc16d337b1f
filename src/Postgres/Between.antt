-- ===== src/Postgres/Between.antt =====
-- What the PostgreSQL server (src/server.rs) does between two requests of a device.
use loomabase.Base.{ℕ, String, false, ◌≡◌, ap, ◌∙◌, some, List, [], length, ltb}
use loomabase.Error.{
  Result, ok, then-eq-ok, bind-eq-ok, ok-injective, reject_if, scope_exceeds_limit,
}
use loomabase.Value.{CrdtValue, SyncPayload}
use loomabase.Schema.{TableDef}
use loomabase.Policy.{SyncSecurity}
use loomabase.Replica.{
  PartialReplicaRequest, PartialReplicaResponse, validate_partial_request,
  validate_partial_response, validate_member_ids,
}
use loomabase.Postgres.{Database, Lease}
use loomabase.Postgres.Page.{Stored, tenant_cells}
use loomabase.Postgres.Merge.{lease_of, merge_crdt_states_with_security}
use loomabase.Postgres.Partial.{
  check_predicates, membership, read_snapshot, scope_response, answer_partial,
  merge_partial_replica_with_security,
}
use loomabase.Postgres.Leases.{is_inactive, expire_cursor_leases}
use loomabase.Postgres.Covers.{Covers, merge-Covers, expire-Covers}

module _ (debug_text : String → String) (value_len : CrdtValue → Result ℕ)
    (order_by_id : List String → List String) (order_by_key : Stored → Stored) where
  answer_partial-same :
      (request : PartialReplicaRequest) (t : String) (table : TableDef) (sync : SyncPayload)
      (db db' : Database) (response : PartialReplicaResponse)
      → answer_partial value_len order_by_id order_by_key request t table sync db
        ≡ ok (db', response)
      → db ≡ db'
  unfolding answer_partial
  answer_partial-same request t table sync db db' response h =
      let ids = membership order_by_id t request.interest db in
      let (_, h₁) = then-eq-ok (check_predicates request.interest.predicates) _ h in
      let (_, h₂) =
        then-eq-ok (reject_if (ltb request.interest.limit (length ids)) scope_exceeds_limit) _ h₁ in
      let (_, h₃) = then-eq-ok (validate_member_ids ids) _ h₂ in
      let (rows, _, h₄) =
        bind-eq-ok (read_snapshot value_len ids (order_by_key (tenant_cells t db.cells)) 0 0 []) _
          h₃ in
      let (_, h₅) =
        then-eq-ok (validate_partial_response (scope_response request sync ids rows) table) _ h₄ in
      ap (λ (r : Database × PartialReplicaResponse). r.0) (ok-injective h₅)

  -- A partial merge that succeeds leaves what a merge of its payload leaves.
  partial-merges :
      (uuid : String) (now : ℕ) (request : PartialReplicaRequest) (device t : String)
      (table : TableDef) (security : SyncSecurity) (db db' : Database)
      (response : PartialReplicaResponse)
      → merge_partial_replica_with_security value_len order_by_id order_by_key debug_text uuid now
          request device t table security db
        ≡ ok (db', response)
      → (sync : SyncPayload) × (merge_crdt_states_with_security debug_text value_len uuid now
            request.sync device t table security db
          ≡ ok (db', sync))
  unfolding merge_partial_replica_with_security
  partial-merges uuid now request device t table security db db' response h =
      let (_, h₁) = then-eq-ok (validate_partial_request request table device) _ h in
      let ((merged, sync), merges, h₂) =
        bind-eq-ok
          (merge_crdt_states_with_security debug_text value_len uuid now request.sync device t table
            security db)
          _ h₁ in
      (
        sync,
        merges
            ∙ ap (λ (d : Database). ok (d, sync))
                (answer_partial-same request t table sync merged db' response h₂),
      )

  -- An accepted request of any device of any tenant, or an expiry of leases that does not find the
  -- lease of `device` inactive. There is no step for a rotation of the epoch.
  pub data ServerStep (t device : String) (table : TableDef) : Database → Database → Type 0 where
    merges :
        {db db' : Database} (uuid : String) (now : ℕ) (payload : SyncPayload) (device' t' : String)
        (table' : TableDef) (security : SyncSecurity) (response : SyncPayload)
        → merge_crdt_states_with_security debug_text value_len uuid now payload device' t' table'
            security db
          ≡ ok (db', response)
        → ServerStep t device table db db'
    merges_partially :
        {db db' : Database} (uuid : String) (now : ℕ) (request : PartialReplicaRequest)
        (device' t' : String) (table' : TableDef) (security : SyncSecurity)
        (response : PartialReplicaResponse)
        → merge_partial_replica_with_security value_len order_by_id order_by_key debug_text uuid now
            request device' t' table' security db
          ≡ ok (db', response)
        → ServerStep t device table db db'
    expires :
        {db db' : Database} (now seconds count : ℕ)
        → expire_cursor_leases now seconds db ≡ ok (db', count)
        → ((lease : Lease)
            → lease_of t device table db ≡ some lease
            → is_inactive now seconds lease ≡ false)
        → ServerStep t device table db db'

  pub data ServerSteps (t device : String) (table : TableDef) (db : Database)
      : Database → Type 0 where
    here : ServerSteps t device table db db
    next :
        {db' db'' : Database}
        → ServerSteps t device table db db'
        → ServerStep t device table db' db''
        → ServerSteps t device table db db''

  module _ (t device : String) (table : TableDef) (request : SyncPayload) where
    ServerStep-Covers :
        {db db' : Database}
        → ServerStep t device table db db'
        → Covers t device table request db
        → Covers t device table request db'
    ServerStep-Covers {db} {db'} (merges uuid now payload device' t' table' security response h) c =
        merge-Covers t device table request debug_text value_len uuid now payload device' t' table'
          security db db' response h c
    ServerStep-Covers {db} {db'}
          (merges_partially uuid now sent device' t' table' security response h) c =
        let (sync, h') =
          partial-merges uuid now sent device' t' table' security db db' response h in
        merge-Covers t device table request debug_text value_len uuid now sent.sync device' t'
          table' security db db' sync h' c
    ServerStep-Covers {db} {db'} (expires now seconds count h active) c =
        expire-Covers t device table request now seconds db (db', count) h active c

    pub ServerSteps-Covers :
        {db db' : Database}
        → ServerSteps t device table db db'
        → Covers t device table request db
        → Covers t device table request db'
    ServerSteps-Covers here c = c
    ServerSteps-Covers (next steps step) c = ServerStep-Covers step (ServerSteps-Covers steps c)
