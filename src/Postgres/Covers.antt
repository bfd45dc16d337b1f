-- ===== src/Postgres/Covers.antt =====
-- The lease of a device covers a cursor, and goes on covering it through other merges
-- (src/server.rs).
use package.text.Mathlib.Text.{◌==◌ as str_eq}
use loomabase.Base.{
  ℕ, String, Bool, true, false, not, ◌||◌, ◌≡◌, refl, sym, ap, subst, ◌∙◌, Option, some, inl, inr,
  Bool-cases, leb, if◌then◌else◌,
}
use loomabase.Base.Int.{ℤ, pos, int_eq, int_leb}
use loomabase.BTree.{BTreeMap, get}
use loomabase.BTree.Lookup.{get-insert}
use loomabase.Order.{is_eq, is_eq-eq}
use loomabase.Postgres.BeforePage.{reset_of, before_page-NumbersGrow, is_reset}
use loomabase.Order.Pair.{pair_ord}
use loomabase.Order.Text.{text_ord}
use loomabase.Error.{Result, ok, then-eq-ok, ok-injective, reject_if, lease_ttl_too_large}
use loomabase.Value.{CrdtValue, SyncPayload}
use loomabase.Schema.{TableDef}
use loomabase.Policy.{SyncSecurity}
use loomabase.Postgres.{Database, Lease}
use loomabase.Postgres.Merge.{
  lease_key, lease_of, lease_allows, tenant_max_cursor, server_cursor_valid, issued_cursor, renewed,
  renew_lease, merge_crdt_states_with_security,
}
use loomabase.Postgres.Leases.{is_inactive, expire_cursor_leases}
use loomabase.Value.{max_storable_lamport}
use loomabase.Postgres.Sequence.{HandedOut, NumbersGrow, last_of, str_eq_refl}
use loomabase.Postgres.Cursor.{issued_cursor-AtMost}
use loomabase.Postgres.Inversion.{merge_server-Accepted}
use loomabase.Postgres.Renewal.{
  keys, never_reset, int_leb-le, renewed-covers, lease_allows_covered, renew_lease-lease_of,
  int_leb-max_left, delete_inactive-get,
}

-- The server would take the cursor of the request back: the lease of the device covers it.
pub record Covers (t device : String) (table : TableDef) (request : SyncPayload) (db : Database)
    : Type 0 where
  pub lease : Lease
  pub has_lease : lease_of t device table db ≡ some lease
  pub below : int_leb request.cursor (pos (last_of t db)) ≡ true
  pub within : int_leb request.cursor lease.max_issued_cursor ≡ true
  pub token : request.cursor_token ≡ some lease.cursor_token
  pub asked : request.server_epoch ≡ some db.server_epoch
  pub own : lease.server_epoch ≡ db.server_epoch
  pub handed : HandedOut t db

module _ (t device : String) (table : TableDef) (request : SyncPayload) where
  grow-Covers :
      (db db' : Database)
      → NumbersGrow t db db'
      → Covers t device table request db
      → Covers t device table request db'
  grow-Covers db db' grow c =
      let up = grow.grows c.handed in
      record {
        lease = c.lease;
        has_lease =
            ap
              (λ (m : BTreeMap (String × (String × String)) Lease).
                get (lease_key t device table) m)
              grow.same_leases
            ∙ c.has_lease;
        below = int_leb-le request.cursor (last_of t db) (last_of t db') c.below up;
        within = c.within;
        token = c.token;
        asked = c.asked ∙ ap some (sym grow.same_epoch);
        own = c.own ∙ sym grow.same_epoch;
        handed = grow.handed_out c.handed;
      }

  -- The renewal of a lease, of this device or another.
  renew-Covers :
      (uuid : String) (now : ℕ) (t' device' : String) (table' : TableDef) (cursor : ℤ)
      (db : Database)
      → Covers t device table request db
      → Covers t device table request (renew_lease uuid now t' device' table' cursor db)
  unfolding renew_lease renewed
  renew-Covers uuid now t' device' table' cursor db c =
      let key = lease_key t device table in
      let key' = lease_key t' device' table' in
      let fresh = renewed uuid now cursor db.server_epoch (lease_of t' device' table' db) in
      let found = get-insert key key' fresh db.leases in
      elim (Bool-cases (is_eq (keys.cmp key key'))) [
        | inl same ↦
            let is_key : key ≡ key' = keys.identical key key' (is_eq-eq (keys.cmp key key') same) in
            let old : lease_of t' device' table' db ≡ some c.lease =
              ap (λ (k : String × (String × String)). get k db.leases) (sym is_key) ∙ c.has_lease in
            let current : str_eq c.lease.server_epoch db.server_epoch ≡ true =
              ap (λ (e : String). str_eq e db.server_epoch) c.own ∙ str_eq_refl db.server_epoch in
            record {
              lease = renewed uuid now cursor db.server_epoch (some c.lease);
              has_lease =
                  found
                  ∙ ap (λ (b : Bool). if b then some fresh else get key db.leases) same
                  ∙ ap (λ (o : Option Lease). some (renewed uuid now cursor db.server_epoch o)) old;
              below = c.below;
              within = int_leb-max_left request.cursor c.lease.max_issued_cursor cursor c.within;
              token =
                  c.token
                  ∙ ap some
                      (sym (ap (λ (b : Bool). if b then c.lease.cursor_token else uuid) current));
              asked = c.asked;
              own = refl;
              handed = c.handed;
            }
        | inr other ↦ record {
          lease = c.lease;
          has_lease =
              found
              ∙ ap (λ (b : Bool). if b then some fresh else get key db.leases) other
              ∙ c.has_lease;
          below = c.below;
          within = c.within;
          token = c.token;
          asked = c.asked;
          own = c.own;
          handed = c.handed;
        }
      ]

  pub covered-no_reset :
      (debug_text : String → String) (value_len : CrdtValue → Result ℕ) (uuid : String) (now : ℕ)
      (security : SyncSecurity) (db db' : Database) (response : SyncPayload)
      → Covers t device table request db
      → merge_crdt_states_with_security debug_text value_len uuid now request device t table
          security db
        ≡ ok (db', response)
      → response.cursor_reset ≡ false
  unfolding server_cursor_valid tenant_max_cursor
  covered-no_reset debug_text value_len uuid now security db db' response c h =
      let a =
        merge_server-Accepted debug_text value_len uuid now request device t table security db db'
          response h in
      let mid = a.before_page in
      let k =
        grow-Covers db mid
          (before_page-NumbersGrow debug_text value_len uuid now request device t table security db
            db' response a t)
          c in
      let allowed =
        lease_allows_covered request (last_of t mid) mid.server_epoch k.lease k.below k.within
          k.token k.asked k.own in
      is_reset debug_text value_len uuid now request device t table security db db' response a
      ∙ ap
          (λ (o : Option Lease). reset_of request (
            int_eq request.cursor (pos 0)
            || lease_allows request (pos (last_of t mid)) mid.server_epoch o))
          k.has_lease
      ∙ ap (λ (v : Bool). reset_of request (int_eq request.cursor (pos 0) || v)) allowed
      ∙ never_reset (int_eq request.cursor (pos 0))

  -- An accepted merge, of any device of any tenant.
  pub merge-Covers :
      (debug_text : String → String) (value_len : CrdtValue → Result ℕ) (uuid : String) (now : ℕ)
      (payload : SyncPayload) (device' t' : String) (table' : TableDef) (security : SyncSecurity)
      (db db' : Database) (response : SyncPayload)
      → merge_crdt_states_with_security debug_text value_len uuid now payload device' t' table'
          security db
        ≡ ok (db', response)
      → Covers t device table request db
      → Covers t device table request db'
  merge-Covers debug_text value_len uuid now payload device' t' table' security db db' response h
        c =
      let a =
        merge_server-Accepted debug_text value_len uuid now payload device' t' table' security db
          db' response h in
      let grow =
        before_page-NumbersGrow debug_text value_len uuid now payload device' t' table' security db
          db' response a t in
      subst (Covers t device table request) (sym a.state) (
        renew-Covers uuid now t' device' table' (issued_cursor t' a.page a.before_page)
          a.before_page (grow-Covers db a.before_page grow c))

  -- An expiry that does not find the lease of the device inactive.
  pub expire-Covers :
      (now seconds : ℕ) (db : Database) (result : Database × ℕ)
      → expire_cursor_leases now seconds db ≡ ok result
      → ((lease : Lease)
          → lease_of t device table db ≡ some lease
          → is_inactive now seconds lease ≡ false)
      → Covers t device table request db
      → Covers t device table request result.0
  unfolding expire_cursor_leases
  expire-Covers now seconds db result h active c =
      let (_, h₁) =
        then-eq-ok (reject_if (not (leb seconds max_storable_lamport)) lease_ttl_too_large) _ h in
      subst (λ (r : Database × ℕ). Covers t device table request r.0) (ok-injective h₁)
        (record {
          lease = c.lease;
          has_lease =
              delete_inactive-get now seconds (lease_key t device table) c.lease db.leases
                c.has_lease (active c.lease c.has_lease);
          below = c.below;
          within = c.within;
          token = c.token;
          asked = c.asked;
          own = c.own;
          handed = c.handed;
        })

  -- What the response to an accepted merge gives the device, when it sends it back.
  pub answered-Covers :
      (debug_text : String → String) (value_len : CrdtValue → Result ℕ) (uuid : String) (now : ℕ)
      (payload : SyncPayload) (security : SyncSecurity) (db db' : Database) (response : SyncPayload)
      → HandedOut t db
      → merge_crdt_states_with_security debug_text value_len uuid now payload device t table
          security db
        ≡ ok (db', response)
      → request.cursor ≡ response.cursor
      → request.cursor_token ≡ response.cursor_token
      → request.server_epoch ≡ response.server_epoch
      → Covers t device table request db'
  unfolding tenant_max_cursor renew_lease
  answered-Covers debug_text value_len uuid now payload security db db' response handed h cursor
        token epoch =
      let a =
        merge_server-Accepted debug_text value_len uuid now payload device t table security db db'
          response h in
      let grow =
        before_page-NumbersGrow debug_text value_len uuid now payload device t table security db db'
          response a t in
      let mid = a.before_page in
      let issued = issued_cursor t a.page mid in
      let old = lease_of t device table mid in
      let is_cursor : request.cursor ≡ issued =
        cursor ∙ ap (λ (r : SyncPayload). r.cursor) a.is_response in
      let (covers, owns) = renewed-covers uuid now issued mid.server_epoch old in
      subst (Covers t device table request) (sym a.state) (record {
        lease = renewed uuid now issued mid.server_epoch old;
        has_lease = renew_lease-lease_of uuid now t device table issued mid;
        below =
            ap (λ (z : ℤ). int_leb z (pos (last_of t mid))) is_cursor
            ∙ issued_cursor-AtMost value_len t device table payload mid a.page a.reads;
        within =
            ap
              (λ (z : ℤ).
                int_leb z (renewed uuid now issued mid.server_epoch old).max_issued_cursor)
              is_cursor
            ∙ covers;
        token = token ∙ ap (λ (r : SyncPayload). r.cursor_token) a.is_response;
        asked = epoch ∙ ap (λ (r : SyncPayload). r.server_epoch) a.is_response;
        own = owns;
        handed = grow.handed_out handed;
      })
