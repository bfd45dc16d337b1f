-- ===== src/Postgres/Refines.antt =====
-- The merge of the PostgreSQL server refines the merge loop and the clock of the reference server.
use loomabase.Base.{ℕ, String, ◌≡◌, refl, sym, ap, ◌∙◌, [], arith}
use loomabase.Base.Int.{ℤ}
use loomabase.BTree.{BTreeMap}
use loomabase.BTree.Lookup.{get-insert_self}
use loomabase.Order.Pair.{pair_ord}
use loomabase.Order.Text.{text_ord}
use loomabase.Error.{Result, ok, ok-injective}
use loomabase.Value.{CrdtValue, SyncPayload}
use loomabase.Schema.{TableDef}
use loomabase.Validate.{max_observed_clock}
use loomabase.Policy.{SyncSecurity}
use loomabase.Merge.{CrdtState, merge_rows}
use loomabase.Server.{next_clock}
use loomabase.Client.Codec.{clock_from_i64}
use loomabase.Postgres.{Database}
use loomabase.Postgres.Merge.{
  server_context, stored_clock_of, open_clock, set_clock, renew_lease, issued_cursor,
  merge_crdt_states_with_security,
}
use loomabase.Postgres.Represents.{CellsStand, CellsStand-cells, clock_from-to}
use loomabase.Postgres.Rounds.{merge_server_rows-Follows}
use loomabase.Postgres.Inversion.{merge_server-Accepted}

-- The tenant's cells and clock are those of the reference state.
pub record Represents (tenant_id : String) (db : Database) (s : CrdtState) : Type 0 where
  pub cells : CellsStand tenant_id db s
  pub clock : clock_from_i64 (stored_clock_of tenant_id db.clocks) ≡ ok s.global_lamport

-- What the reference server does, and that the database afterwards stands for it.
pub record Refines (tenant_id device : String) (table : TableDef) (security : SyncSecurity)
    (payload : SyncPayload) (s : CrdtState) (db' : Database) (response : SyncPayload) : Type 0 where
  pub state : CrdtState
  pub merges :
      merge_rows security (server_context tenant_id device table) payload.changes (s, [])
      ≡ ok (state, response.rejections)
  pub ticks : next_clock s.global_lamport (max_observed_clock payload) ≡ ok response.source_lamport
  pub represents :
      Represents tenant_id db' (record state { global_lamport = response.source_lamport })

open_clock-cells : (t : String) (db : Database) → (open_clock t db).cells ≡ db.cells
unfolding open_clock set_clock
open_clock-cells t db = refl

set_clock-cells : (t : String) (z : ℤ) (db : Database) → (set_clock t z db).cells ≡ db.cells
unfolding set_clock
set_clock-cells t z db = refl

set_clock-clock :
    (t : String) (z : ℤ) (db : Database) → stored_clock_of t (set_clock t z db).clocks ≡ z
unfolding set_clock
set_clock-clock t z db = ground (arith, get-insert_self t z db.clocks)

module _ (uuid : String) (now : ℕ) (t device : String) (table : TableDef) (cursor : ℤ)
    (db : Database) where
  renew_lease-cells : (renew_lease uuid now t device table cursor db).cells ≡ db.cells
  unfolding renew_lease
  renew_lease-cells = refl

  renew_lease-clocks : (renew_lease uuid now t device table cursor db).clocks ≡ db.clocks
  unfolding renew_lease
  renew_lease-clocks = refl

-- When the rows of a tenant stand for a state of the reference server, an accepted merge of the
-- PostgreSQL server answers with the rejections and the clock of the reference loop on that state,
-- and the rows of the tenant afterwards stand for the state after it.
pub merge_server-Refines :
    (debug_text : String → String) (value_len : CrdtValue → Result ℕ) (uuid : String) (now : ℕ)
    (payload : SyncPayload) (device tenant_id : String) (table : TableDef) (security : SyncSecurity)
    (s : CrdtState) (db db' : Database) (response : SyncPayload)
    → Represents tenant_id db s
    → merge_crdt_states_with_security debug_text value_len uuid now payload device tenant_id table
        security db
      ≡ ok (db', response)
    → Refines tenant_id device table security payload s db' response
merge_server-Refines debug_text value_len uuid now payload device tenant_id table security s db db'
      response rep h =
    let a =
      merge_server-Accepted debug_text value_len uuid now payload device tenant_id table security db
        db' response h in
    let context = server_context tenant_id device table in
    let opened = open_clock tenant_id db in
    let cursor = issued_cursor tenant_id a.page a.before_page in
    let f =
      merge_server_rows-Follows debug_text security context payload.changes (opened, [])
        (a.merged, a.rejections) s
        (CellsStand-cells tenant_id db opened s (open_clock-cells tenant_id db) rep.cells) a.loop in
    let is_clock : response.source_lamport ≡ a.clock =
      ap (λ (r : SyncPayload). r.source_lamport) a.is_response in
    let same_clock : a.server_clock ≡ s.global_lamport =
      ok-injective (sym a.reads_clock ∙ rep.clock) in
    let cells_after : db'.cells ≡ a.merged.cells =
      ap (λ (d : Database). d.cells) a.state
      ∙ renew_lease-cells uuid now tenant_id device table cursor a.before_page
      ∙ ap (λ (d : Database). d.cells) a.is_before_page
      ∙ set_clock-cells tenant_id a.stored a.merged in
    let clocks_after : db'.clocks ≡ (set_clock tenant_id a.stored a.merged).clocks =
      ap (λ (d : Database). d.clocks) a.state
      ∙ renew_lease-clocks uuid now tenant_id device table cursor a.before_page
      ∙ ap (λ (d : Database). d.clocks) a.is_before_page in
    record {
      state = f.state;
      merges = f.steps ∙ ap (λ (r : SyncPayload). ok (f.state, r.rejections)) (sym a.is_response);
      ticks =
          ap (λ (c : ℕ). next_clock c (max_observed_clock payload)) (sym same_clock)
          ∙ a.ticks
          ∙ ap ok (sym is_clock);
      represents = record {
        cells =
            CellsStand-cells tenant_id a.merged db'
              (record (f.state) { global_lamport = response.source_lamport }) cells_after f.stands;
        clock =
            ap (λ (m : BTreeMap String ℤ). clock_from_i64 (stored_clock_of tenant_id m))
              clocks_after
            ∙ ap clock_from_i64 (set_clock-clock tenant_id a.stored a.merged)
            ∙ clock_from-to a.clock a.stored a.stores
            ∙ ap ok (sym is_clock);
      };
    }
