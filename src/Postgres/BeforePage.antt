-- ===== src/Postgres/BeforePage.antt =====
-- A merge of the PostgreSQL server up to its page, and when its response asks for a reset
-- (`merge_crdt_states_with_security` of src/server.rs).

use loomabase.Base.{
  ℕ, String, Bool, true, false, not, ◌&&◌, ◌||◌, ◌≡◌, refl, sym, ap, subst, ◌∙◌, Option, none, [],
}
use loomabase.Base.Int.{ℤ, pos, int_eq}
use loomabase.BTree.{BTreeMap, get}
use loomabase.Order.Pair.{pair_ord}
use loomabase.Order.Text.{text_ord}
use loomabase.Error.{Result}
use loomabase.Value.{CrdtValue, SyncPayload}
use loomabase.Schema.{TableDef}
use loomabase.Policy.{SyncSecurity}
use loomabase.Postgres.{Database, Lease}
use loomabase.Postgres.Merge.{
  server_context, open_clock, set_clock, stored_clock_of, lease_key, lease_of, lease_allows,
  tenant_max_cursor, server_cursor_valid,
}
use loomabase.Postgres.Loop.{merge_server_rows-Closed}
use loomabase.Postgres.Sequence.{
  NumbersGrow, NumbersGrow-trans, NumbersGrow-same, NumbersGrow-Closed,
}
use loomabase.Postgres.Inversion.{ServerAccepted}

set_clock-NumbersGrow : (r t : String) (z : ℤ) (db : Database) → NumbersGrow r db (set_clock t z db)
unfolding set_clock
set_clock-NumbersGrow r t z db = NumbersGrow-same r db _ refl refl refl refl

open_clock-NumbersGrow : (r t : String) (db : Database) → NumbersGrow r db (open_clock t db)
unfolding open_clock
open_clock-NumbersGrow r t db = set_clock-NumbersGrow r t (stored_clock_of t db.clocks) db

abbrev pub reset_of : SyncPayload → Bool → Bool
reset_of request valid = not (int_eq request.cursor (pos 0)) && not valid

zero_or_reset : (b : Bool) → (not b && not (b || false)) ≡ not b
zero_or_reset true = refl
zero_or_reset false = refl

module _ (debug_text : String → String) (value_len : CrdtValue → Result ℕ) (uuid : String) (now : ℕ)
    (payload : SyncPayload) (device t : String) (table : TableDef) (security : SyncSecurity)
    (db db' : Database) (response : SyncPayload)
    (a : ServerAccepted debug_text value_len uuid now payload device t table security db db'
      response) where
  -- Up to the page, leases and epoch are those of the start, and the numbers of any tenant only grow.
  pub before_page-NumbersGrow : (r : String) → NumbersGrow r db a.before_page
  before_page-NumbersGrow r =
      let context = server_context t device table in
      let opened = open_clock t db in
      subst (NumbersGrow r db) (sym a.is_before_page) (
        NumbersGrow-trans r db opened _ (open_clock-NumbersGrow r t db) (
          NumbersGrow-trans r opened a.merged _
            (merge_server_rows-Closed debug_text security context (NumbersGrow r)
              (NumbersGrow-Closed context r security) payload.changes (opened, [])
              (a.merged, a.rejections) a.loop)
            (set_clock-NumbersGrow r t a.stored a.merged)))

  pub lease_before-page : lease_of t device table a.before_page ≡ lease_of t device table db
  lease_before-page =
      ap (λ (m : BTreeMap (String × (String × String)) Lease). get (lease_key t device table) m)
        (before_page-NumbersGrow t).same_leases

  pub is_reset :
      response.cursor_reset
      ≡ reset_of payload (server_cursor_valid t device table payload a.before_page)
  is_reset = ap (λ (r : SyncPayload). r.cursor_reset) a.is_response

  -- A device without a lease starts over.
  pub no_lease-reset :
      lease_of t device table db ≡ none
      → response.cursor_reset ≡ not (int_eq payload.cursor (pos 0))
  unfolding server_cursor_valid lease_allows
  no_lease-reset gone =
      is_reset
      ∙ ap
          (λ (lease : Option Lease). reset_of payload (
            int_eq payload.cursor (pos 0)
            || lease_allows payload (tenant_max_cursor t a.before_page) a.before_page.server_epoch
                lease))
          (lease_before-page ∙ gone)
      ∙ zero_or_reset (int_eq payload.cursor (pos 0))
