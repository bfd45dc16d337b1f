-- ===== src/Postgres/Page.antt =====
-- The change feed of `merge_crdt_states_with_security` (src/server.rs): the tenant's rows of the
-- CRDT table above the cursor, in the order of their sequence numbers, cut to one bounded page.
use Prim.Native.String.{len}
use package.text.Mathlib.Text.{◌==◌ as str_eq}
use loomabase.Base.{
  ℕ, suc, zero, ◌+◌, max, String, Bool, true, false, ◌&&◌, ◌||◌, List, [], ◌∷◌, leb, ltb,
  if◌then◌else◌,
}
use loomabase.Base.Int.{ℤ, pos, int_leb}
use loomabase.BTree.{BTreeMap}
use loomabase.Error.{Result, ok, ◌>>=◌}
use loomabase.Value.{CrdtValue, max_response_cells, max_response_bytes}
use loomabase.Validate.{Key}
use loomabase.Feed.{Rows, add_cell}
use loomabase.Client.Codec.{clock_from_i64}
use loomabase.Postgres.{StoredCell}

abbrev pub Stored : Type 0
Stored = List (Key × StoredCell)

-- `WHERE tenant_id = $1`
unfoldable pub tenant_cells : String → BTreeMap (String × Key) StoredCell → Stored
tenant_cells tenant_id [] = []
tenant_cells tenant_id (((tenant, key), cell) ∷ cells) =
    let rest = tenant_cells tenant_id cells in
    if str_eq tenant tenant_id then (key, cell) ∷ rest else rest

-- `COALESCE(MAX(seq), 0)`
unfoldable pub max_seq : Stored → ℕ
max_seq [] = 0
max_seq ((key, cell) ∷ cells) = max cell.seq (max_seq cells)

-- `seq > $2`
unfoldable pub stored_above : ℤ → Stored → Stored
stored_above cursor [] = []
stored_above cursor ((key, cell) ∷ cells) =
    let rest = stored_above cursor cells in
    if int_leb (pos cell.seq) cursor then rest else (key, cell) ∷ rest

-- `ORDER BY seq`
unfoldable pub insert_stored : Key × StoredCell → Stored → Stored
insert_stored c [] = c ∷ []
insert_stored c (d ∷ ds) = if leb c.1.seq d.1.seq then c ∷ d ∷ ds else d ∷ insert_stored c ds

unfoldable pub order_stored : Stored → Stored
unfolding insert_stored
order_stored [] = []
order_stored (c ∷ cs) = insert_stored c (order_stored cs)

-- `LIMIT $3`
unfoldable pub limit {ℓ} : {A : Type ℓ} → ℕ → List A → List A
limit zero rows = []
limit (suc n) [] = []
limit (suc n) (row ∷ rows) = row ∷ limit n rows

-- `query_limit`
abbrev pub query_limit : ℕ
query_limit = max_response_cells + 1

unfoldable pub feed_query : String → ℤ → BTreeMap (String × Key) StoredCell → Stored
unfolding tenant_cells stored_above order_stored limit
feed_query tenant_id cursor cells =
    limit query_limit (order_stored (stored_above cursor (tenant_cells tenant_id cells)))

-- The variables of the loop.
pub record ServerPage : Type 0 where
  pub response_by_row : Rows
  pub response_bytes : ℕ
  pub included : ℕ
  pub next_cursor : ℤ
  pub has_more : Bool

abbrev pub start_page : ℤ → ServerPage
start_page cursor = record {
  response_by_row = [];
  response_bytes = 0;
  included = 0;
  next_cursor = cursor;
  has_more = false;
}

-- The condition of the `break`.
unfoldable pub server_page_is_full : ServerPage → ℕ → Bool
server_page_is_full page cell_bytes =
    leb max_response_cells page.included
    || (ltb 0 page.included && ltb max_response_bytes (page.response_bytes + cell_bytes))

-- The round of a row that fits.
unfoldable pub add_stored : Key → StoredCell → (clock cell_bytes : ℕ) → ServerPage → ServerPage
unfolding add_cell
add_stored key cell clock cell_bytes page = record {
  response_by_row =
      add_cell key
        (record {
          value = cell.value;
          metadata = record { lamport_clock = clock; device_id = cell.device_id };
        })
        page.response_by_row;
  response_bytes = page.response_bytes + cell_bytes;
  included = page.included + 1;
  next_cursor = pos cell.seq;
  has_more = page.has_more;
}

-- `serde_json::to_vec(&value)?.len()` is a parameter: the serializer is not part of the repository.
module _ (value_len : CrdtValue → Result ℕ) where
  -- The loop over the rows of the query, with its `break`.
  unfoldable pub read_page : Stored → ServerPage → Result ServerPage
  unfolding server_page_is_full add_stored clock_from_i64
  read_page [] page = ok page
  read_page ((key, cell) ∷ cells) page = do
    clock ← clock_from_i64 cell.lamport_clock
    value_bytes ← value_len cell.value
    let cell_bytes = value_bytes + len key.0 + len key.1 + len cell.device_id
    elim (server_page_is_full page cell_bytes) [
      | true ↦ ok (record page { has_more = true })
      | false ↦ read_page cells (add_stored key cell clock cell_bytes page)
    ]
