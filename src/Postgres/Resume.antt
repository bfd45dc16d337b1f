-- ===== src/Postgres/Resume.antt =====
-- A cursor that the PostgreSQL server issued is taken back, until the epoch is rotated or the lease
-- of the device expires (src/server.rs).

use loomabase.Base.{ℕ, String, false, not, ◌≡◌, refl, ap, ◌∙◌, some, List}
use loomabase.Base.Int.{pos, int_eq}
use loomabase.BTree.{get}
use loomabase.Order.Pair.{pair_ord}
use loomabase.Order.Text.{text_ord}
use loomabase.Error.{Result, ok}
use loomabase.Value.{CrdtValue, SyncPayload}
use loomabase.Schema.{TableDef}
use loomabase.Policy.{SyncSecurity}
use loomabase.Postgres.{Database}
use loomabase.Postgres.Merge.{merge_crdt_states_with_security}
use loomabase.Postgres.Leases.{rotate_server_epoch}
use loomabase.Postgres.Sequence.{HandedOut}
use loomabase.Postgres.Inversion.{merge_server-Accepted}
use loomabase.Postgres.Page.{Stored}
use loomabase.Postgres.BeforePage.{before_page-NumbersGrow, no_lease-reset}
use loomabase.Postgres.Covers.{answered-Covers, covered-no_reset}
use loomabase.Postgres.Between.{ServerSteps, ServerSteps-Covers}

-- After a rotation of the epoch an accepted merge resets every cursor that is not zero, whatever
-- was issued before, and answers with the new epoch.
pub rotate-resets :
    (debug_text : String → String) (value_len : CrdtValue → Result ℕ) (epoch uuid : String)
    (now : ℕ) (payload : SyncPayload) (device tenant_id : String) (table : TableDef)
    (security : SyncSecurity) (db db' : Database) (response : SyncPayload)
    → merge_crdt_states_with_security debug_text value_len uuid now payload device tenant_id table
        security
        (rotate_server_epoch epoch db).0
      ≡ ok (db', response)
    → (response.cursor_reset ≡ not (int_eq payload.cursor (pos 0)))
      × (response.server_epoch ≡ some epoch)
unfolding rotate_server_epoch get
rotate-resets debug_text value_len epoch uuid now payload device tenant_id table security db db'
      response h =
    let rotated = (rotate_server_epoch epoch db).0 in
    let a =
      merge_server-Accepted debug_text value_len uuid now payload device tenant_id table security
        rotated db' response h in
    let kept =
      before_page-NumbersGrow debug_text value_len uuid now payload device tenant_id table security
        rotated db' response a tenant_id in
    (
      no_lease-reset debug_text value_len uuid now payload device tenant_id table security rotated
          db' response a refl,
      ap (λ (r : SyncPayload). r.server_epoch) a.is_response ∙ ap some kept.same_epoch,
    )

-- When the sequence has handed out every number of the tenant: the cursor, the token and the epoch
-- of the response to an accepted merge are taken back from the device later, so that the response
-- to that request asks for no reset when it is accepted, if nothing else came in between but
-- accepted merges and partial merges, of any devices and tenants, and expiries of leases that did
-- not find the lease of the device inactive.
pub merge_server_resumes :
    (debug_text : String → String) (value_len : CrdtValue → Result ℕ)
    (order_by_id : List String → List String) (order_by_key : Stored → Stored) (uuid uuid' : String)
    (now now' : ℕ) (payload next : SyncPayload) (device tenant_id : String) (table : TableDef)
    (security security' : SyncSecurity) (db db' later db″ : Database)
    (response response' : SyncPayload)
    → HandedOut tenant_id db
    → merge_crdt_states_with_security debug_text value_len uuid now payload device tenant_id table
        security db
      ≡ ok (db', response)
    → ServerSteps debug_text value_len order_by_id order_by_key tenant_id device table db' later
    → next.cursor ≡ response.cursor
    → next.cursor_token ≡ response.cursor_token
    → next.server_epoch ≡ response.server_epoch
    → merge_crdt_states_with_security debug_text value_len uuid' now' next device tenant_id table
        security' later
      ≡ ok (db″, response')
    → response'.cursor_reset ≡ false
merge_server_resumes debug_text value_len order_by_id order_by_key uuid uuid' now now' payload next
      device tenant_id table security security' db db' later db″ response response' handed first
      between cursor token epoch second =
    let answered =
      answered-Covers tenant_id device table next debug_text value_len uuid now payload security db
        db' response handed first cursor token epoch in
    covered-no_reset tenant_id device table next debug_text value_len uuid' now' security' later db″
      response'
      (ServerSteps-Covers debug_text value_len order_by_id order_by_key tenant_id device table next
        between answered)
      second
