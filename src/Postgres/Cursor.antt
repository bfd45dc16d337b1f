-- ===== src/Postgres/Cursor.antt =====
-- The cursor of a page never passes the last number of the tenant.
use Prim.Native.String.{len}
use loomabase.Base.{
  ℕ, zero, suc, String, Bool, true, false, ◌≡◌, ◌≤◌, ◌+◌, sym, ap, ◌∙◌, subst, Bool-cases, inl, inr,
  Option, none, some, [], ◌∷◌, All, leb, arith,
}
use loomabase.Base.Int.{ℤ, pos, negsuc, int_eq, int_leb}
use loomabase.BTree.{BTreeMap}
use loomabase.Error.{Result, ok, bind-eq-ok, ok-injective}
use loomabase.Value.{CrdtValue, SyncPayload}
use loomabase.Schema.{TableDef}
use loomabase.Validate.{Key}
use loomabase.Client.Codec.{clock_from_i64}
use loomabase.Postgres.{Database, StoredCell, Lease}
use loomabase.Postgres.Page.{
  Stored, tenant_cells, max_seq, stored_above, insert_stored, order_stored, limit, feed_query,
  ServerPage, server_page_is_full, start_page, add_stored, query_limit, read_page,
}
use loomabase.Postgres.Merge.{
  server_cursor_valid, lease_allows, lease_of, tenant_max_cursor, page_start, issued_cursor,
}

-- Every number is at most `n`.
abbrev AtMost : ℕ → Stored → Type 0
AtMost n cells = All (λ (c : Key × StoredCell). c.1.seq ≤ n) cells

max_seq-AtMost : (cells : Stored) (n : ℕ) → max_seq cells ≤ n → AtMost n cells
unfolding max_seq
max_seq-AtMost [] n le = tt
max_seq-AtMost ((key, cell) ∷ cells) n le = (omega arith, max_seq-AtMost cells n (omega arith))

stored_above-AtMost :
    (cursor : ℤ) (cells : Stored) (n : ℕ) → AtMost n cells → AtMost n (stored_above cursor cells)
unfolding stored_above
stored_above-AtMost cursor [] n a = tt
stored_above-AtMost cursor ((key, cell) ∷ cells) n (le, a) =
    elim (Bool-cases (int_leb (pos cell.seq) cursor)) [
      | inl below ↦ rw below (stored_above-AtMost cursor cells n a)
      | inr above ↦ rw above (le, stored_above-AtMost cursor cells n a)
    ]

insert_stored-AtMost :
    (c : Key × StoredCell) (cells : Stored) (n : ℕ)
    → c.1.seq ≤ n
    → AtMost n cells
    → AtMost n (insert_stored c cells)
unfolding insert_stored
insert_stored-AtMost c [] n le a = (le, tt)
insert_stored-AtMost c (d ∷ ds) n le (first, rest) = elim (Bool-cases (leb c.1.seq d.1.seq)) [
  | inl before ↦ rw before (le, (first, rest))
  | inr after ↦ rw after (first, insert_stored-AtMost c ds n le rest)
]

order_stored-AtMost : (cells : Stored) (n : ℕ) → AtMost n cells → AtMost n (order_stored cells)
unfolding order_stored
order_stored-AtMost [] n a = tt
order_stored-AtMost (c ∷ cs) n (le, a) =
    insert_stored-AtMost c (order_stored cs) n le (order_stored-AtMost cs n a)

limit-AtMost : (rows : ℕ) (cells : Stored) (n : ℕ) → AtMost n cells → AtMost n (limit rows cells)
unfolding limit
limit-AtMost zero cells n a = tt
limit-AtMost (suc rows) [] n a = tt
limit-AtMost (suc rows) (c ∷ cs) n (le, a) = (le, limit-AtMost rows cs n a)

feed_query-AtMost :
    (t : String) (cursor : ℤ) (cells : BTreeMap (String × Key) StoredCell)
    → AtMost (max_seq (tenant_cells t cells)) (feed_query t cursor cells)
unfolding feed_query
feed_query-AtMost t cursor cells =
    let n = max_seq (tenant_cells t cells) in
    limit-AtMost query_limit (order_stored (stored_above cursor (tenant_cells t cells))) n (
      order_stored-AtMost (stored_above cursor (tenant_cells t cells)) n (
        stored_above-AtMost cursor (tenant_cells t cells) n
          (max_seq-AtMost (tenant_cells t cells) n (omega arith))))

module _ (value_len : CrdtValue → Result ℕ) where
  read_page-AtMost :
      (cells : Stored) (page page' : ServerPage) (n : ℕ)
      → AtMost n cells
      → int_leb page.next_cursor (pos n) ≡ true
      → read_page value_len cells page ≡ ok page'
      → int_leb page'.next_cursor (pos n) ≡ true
  unfolding read_page add_stored
  read_page-AtMost [] page page' n a le h = rw (← ok-injective h) le
  read_page-AtMost ((key, cell) ∷ cells) page page' n (below, a) le h =
      let (clock, _, h₁) = bind-eq-ok (clock_from_i64 cell.lamport_clock) _ h in
      let (value_bytes, _, h₂) = bind-eq-ok (value_len cell.value) _ h₁ in
      let bytes = value_bytes + len key.0 + len key.1 + len cell.device_id in
      elim (Bool-cases (server_page_is_full page bytes)) [
        | inl full ↦
            subst (λ (p : ServerPage). int_leb p.next_cursor (pos n) ≡ true)
              (ok-injective (stops page page' key cell clock bytes cells full h₂)) le
        | inr room ↦
            read_page-AtMost cells (add_stored key cell clock bytes page) page' n a
              (next_le page key cell clock bytes n below)
              (goes_on page page' key cell clock bytes cells room h₂)
      ]
    where
      step : ServerPage → Key → StoredCell → ℕ → ℕ → Stored → Bool → Result ServerPage
      step page key cell clock bytes cells full = elim full [
        | true ↦ ok (record page { has_more = true })
        | false ↦ read_page value_len cells (add_stored key cell clock bytes page)
      ]

      stopped : ServerPage → Result ServerPage
      stopped page = ok (record page { has_more = true })

      stops :
          (page page' : ServerPage) (key : Key) (cell : StoredCell) (clock bytes : ℕ)
          (cells : Stored)
          → server_page_is_full page bytes ≡ true
          → step page key cell clock bytes cells (server_page_is_full page bytes) ≡ ok page'
          → stopped page ≡ ok page'
      stops page page' key cell clock bytes cells full e =
          ap (step page key cell clock bytes cells) (sym full) ∙ e

      goes_on :
          (page page' : ServerPage) (key : Key) (cell : StoredCell) (clock bytes : ℕ)
          (cells : Stored)
          → server_page_is_full page bytes ≡ false
          → step page key cell clock bytes cells (server_page_is_full page bytes) ≡ ok page'
          → read_page value_len cells (add_stored key cell clock bytes page) ≡ ok page'
      goes_on page page' key cell clock bytes cells room e =
          ap (step page key cell clock bytes cells) (sym room) ∙ e

      next_le :
          (page : ServerPage) (key : Key) (cell : StoredCell) (clock bytes n : ℕ)
          → cell.seq ≤ n
          → int_leb (add_stored key cell clock bytes page).next_cursor (pos n) ≡ true
      next_le page key cell clock bytes n below = ground arith

  lease_allows-AtMost :
      (request : SyncPayload) (n : ℤ) (epoch : String) (lease : Option Lease)
      → lease_allows request n epoch lease ≡ true
      → int_leb request.cursor n ≡ true
  unfolding lease_allows
  lease_allows-AtMost request n epoch none h = ground arith
  lease_allows-AtMost request n epoch (some lease) h =
      elim (Bool-cases (int_leb request.cursor n)) [
        | inl below ↦ below
        | inr above ↦ absurd (ground arith)
      ]

  zero-AtMost : (z : ℤ) (n : ℕ) → int_eq z (pos 0) ≡ true → int_leb z (pos n) ≡ true
  zero-AtMost (pos a) n h = ground arith
  zero-AtMost (negsuc a) n h = ground arith

  page_start-AtMost :
      (t device : String) (table : TableDef) (request : SyncPayload) (db : Database)
      → int_leb (page_start t device table request db) (tenant_max_cursor t db) ≡ true
  unfolding server_cursor_valid tenant_max_cursor
  page_start-AtMost t device table request db =
      elim (Bool-cases (server_cursor_valid t device table request db)) [
        | inr invalid ↦ rw invalid (ground arith)
        | inl valid ↦ rw valid (elim (Bool-cases (int_eq request.cursor (pos 0))) [
          | inl none_yet ↦ zero-AtMost request.cursor (max_seq (tenant_cells t db.cells)) none_yet
          | inr given ↦
              lease_allows-AtMost request (tenant_max_cursor t db) db.server_epoch
                (lease_of t device table db) (ground arith)
        ])
      ]

  -- The cursor that an answer issues.
  pub issued_cursor-AtMost :
      (t device : String) (table : TableDef) (request : SyncPayload) (db : Database)
      (page : ServerPage)
      → read_page value_len
          (feed_query t (page_start t device table request db) db.cells)
          (start_page (page_start t device table request db))
        ≡ ok page
      → int_leb (issued_cursor t page db) (tenant_max_cursor t db) ≡ true
  unfolding tenant_max_cursor
  issued_cursor-AtMost t device table request db page h = elim (Bool-cases page.has_more) [
    | inl more ↦ rw more (
        read_page-AtMost (feed_query t (page_start t device table request db) db.cells)
          (start_page (page_start t device table request db)) page
          (max_seq (tenant_cells t db.cells))
          (feed_query-AtMost t (page_start t device table request db) db.cells)
          (page_start-AtMost t device table request db) h)
    | inr last ↦ rw last (ground arith)
  ]
