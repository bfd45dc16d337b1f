-- ===== src/Client/Sync/Pending.antt =====
-- A local write that was not sent, or was rejected, stays in the log, dirty.
use text.Mathlib.TextEquality.{eq_iff}
use package.text.Mathlib.Text.{◌==◌ as str_eq}
use loomabase.Base.{
  ℕ, String, ◌≡◌, refl, sym, ap, subst, ◌∙◌, ◌⊎◌, inl, inr, Bool, true, false, ◌&&◌, Bool-cases,
  List, [], ◌∷◌, some, Option-cases, In, In-append_left, In-append_right, arith,
}
use loomabase.Base.Int.{ℤ, pos, int_eq}
use loomabase.BTree.{BTreeMap, get}
use loomabase.BTree.Lookup.{get-insert, get-In}
use loomabase.Order.{Ord, is_eq}
use loomabase.Order.Pair.{pair_ord}
use loomabase.Order.Text.{text_ord}
use loomabase.Error.{ok, bind-eq-ok, then-eq-ok, ok-injective}
use loomabase.Value.{CrdtColumn, ColumnMetadata, RowChange, SyncPayload, SyncRejection}
use loomabase.Schema.{TableDef}
use loomabase.Validate.{Key, validate_client_request, validate_server_response}
use loomabase.Merge.Advance.{entries, row_entries}
use loomabase.Client.{LogCell, Client}
use loomabase.Client.Codec.{clock_to_i64}
use loomabase.Client.Evict.{
  delete_cells, has_dirty, evict_row, evict_rows, cleanup_pending_evictions, is_member,
  pending_rows,
}
use loomabase.Client.Sync.{
  clear_version, clear_dirty, is_rejected, acknowledge_columns, acknowledge_rows,
  acknowledge_local_delta_with_response,
}

abbrev keys : Ord Key
keys = pair_ord

-- The logged cell has the version.
abbrev pub has_version : LogCell → ColumnMetadata → Bool
has_version cell version =
    int_eq cell.lamport_clock (pos version.lamport_clock) && str_eq cell.device_id version.device_id

-- No entry for the key acknowledges the cell: each is rejected, or has another version.
abbrev pub IsPending : List SyncRejection → Key → LogCell → List (Key × CrdtColumn) → Type 0
IsPending rejections k cell sent =
    (c : CrdtColumn)
    → In (k, c) sent
    → (is_rejected rejections k c.metadata ≡ true) ⊎ (has_version cell c.metadata ≡ false)

get-delete_cells :
    (row_id : String) (log : BTreeMap Key LogCell) (k : Key)
    → str_eq k.0 row_id ≡ false
    → get k (delete_cells row_id log) ≡ get k log
unfolding delete_cells get
get-delete_cells row_id [] k h = refl
get-delete_cells row_id ((j, cell) ∷ log) k h = elim (Bool-cases (str_eq j.0 row_id)) [
  | inl same ↦
      let differs : is_eq (keys.cmp k j) ≡ true → ⊥ =
        λ e. absurd (clash (ap (λ (x : Key). x.0) (keys.identical k j (ground arith))) same) in
      ground (arith, get-delete_cells row_id log k h, differs)
  | inr other ↦ ground (arith, get-delete_cells row_id log k h)
]
  where
    clash : k.0 ≡ j.0 → str_eq j.0 row_id ≡ true → ⊥
    clash e f =
        let g : str_eq k.0 row_id ≡ true =
          subst (λ (x : String). str_eq x row_id ≡ true) (sym e) f in
        ground arith

In-has_dirty :
    (log : BTreeMap Key LogCell) (k : Key) (cell : LogCell)
    → In (k, cell) log
    → cell.dirty ≡ true
    → has_dirty log k.0 ≡ true
unfolding has_dirty
In-has_dirty [] k cell i d = absurd i
In-has_dirty ((j, other) ∷ log) k cell (inl e) d =
    let same : str_eq j.0 k.0 ≡ true =
      (eq_iff j.0 k.0).1 (sym (ap (λ (x : Key × LogCell). x.0.0) e)) in
    let dirty : other.dirty ≡ true = subst (λ (x : Key × LogCell). x.1.dirty ≡ true) e d in
    ground arith
In-has_dirty ((j, other) ∷ log) k cell (inr i) d =
    let later = In-has_dirty log k cell i d in ground arith

module _ (k : Key) (cell : LogCell) (dirty : cell.dirty ≡ true) where
  evict_row-keeps :
      (row_id : String) (s : Client)
      → get k s.log ≡ some cell
      → get k (evict_row row_id s).log ≡ some cell
  unfolding evict_row
  evict_row-keeps row_id s e = elim (Bool-cases (is_member s.scope_members row_id)) [
    | inl member ↦ rw (evict_row, member) e
    | inr left ↦ elim (Bool-cases (str_eq k.0 row_id)) [
      | inl same ↦
          let held = In-has_dirty s.log k cell (get-In k cell s.log e) dirty in
          let held' : has_dirty s.log row_id ≡ true =
            subst (λ (r : String). has_dirty s.log r ≡ true) ((eq_iff k.0 row_id).0 same) held in
          rw (evict_row, left, held') e
      | inr other ↦ let kept = get-delete_cells row_id s.log k other ∙ e in ground arith
    ]
  ]

  evict_rows-keeps :
      (pending : BTreeMap String Unit) (s : Client)
      → get k s.log ≡ some cell
      → get k (evict_rows pending s).log ≡ some cell
  unfolding evict_rows
  evict_rows-keeps [] s e = e
  evict_rows-keeps ((row_id, _) ∷ pending) s e =
      evict_rows-keeps pending (evict_row row_id s) (evict_row-keeps row_id s e)

module _ (rejections : List SyncRejection) (k : Key) (cell : LogCell) where
  clear_dirty-keeps :
      (j : Key) (version : ColumnMetadata) (log : BTreeMap Key LogCell)
      → (k ≡ j → has_version cell version ≡ false)
      → get k log ≡ some cell
      → get k (clear_dirty j (pos version.lamport_clock) version.device_id log) ≡ some cell
  unfolding clear_dirty clear_version
  clear_dirty-keeps j version log differs e = elim (Option-cases (get j log)) [
    | inl n ↦ rw (clear_dirty, n) e
    | inr (found, f) ↦ elim (Bool-cases (is_eq (keys.cmp k j))) [
      | inl same ↦
          let is_key : k ≡ j = keys.identical k j (ground arith) in
          let other = differs is_key in
          let is_cell : some found ≡ some cell =
            sym f ∙ ap (λ (q : Key). get q log) (sym is_key) ∙ e in
          let is_found : found ≡ cell = ground arith in
          let kept : clear_version (pos version.lamport_clock) version.device_id found ≡ found =
            subst
              (λ (c : LogCell). clear_version (pos version.lamport_clock) version.device_id c ≡ c)
              (sym is_found) (unchanged other) in
          rw (clear_dirty, f, kept) (ground (arith, get-insert k j found log))
      | inr differ ↦
          rw (clear_dirty, f)
            (ground (
              arith,
              get-insert k j (clear_version (pos version.lamport_clock) version.device_id found)
                  log,
            ))
    ]
  ]
    where
      unchanged :
          has_version cell version ≡ false
          → clear_version (pos version.lamport_clock) version.device_id cell ≡ cell
      unchanged h = ground arith

  acknowledge_columns-keeps :
      (todo_id : String) (columns : BTreeMap String CrdtColumn) (log log' : BTreeMap Key LogCell)
      → IsPending rejections k cell (row_entries todo_id columns)
      → get k log ≡ some cell
      → acknowledge_columns rejections todo_id columns log ≡ ok log'
      → get k log' ≡ some cell
  unfolding acknowledge_columns
  acknowledge_columns-keeps todo_id [] log log' pending e h =
      subst (λ l. get k l ≡ some cell) (ok-injective h) e
  acknowledge_columns-keeps todo_id ((name, column) ∷ columns) log log' pending e h =
      elim (Bool-cases (is_rejected rejections (todo_id, name) column.metadata)) [
        | inl refused ↦
            acknowledge_columns-keeps todo_id columns log log' (λ c i. pending c (inr i)) e
              (rw (acknowledge_columns, refused) at h)
        | inr sent ↦
            let h₁ = rw (acknowledge_columns, sent) at h in
            let (clock, stored, h₂) =
              bind-eq-ok (clock_to_i64 column.metadata.lamport_clock) _ h₁ in
            let is_clock = stored_clock column.metadata.lamport_clock clock stored in
            acknowledge_columns-keeps todo_id columns
              (clear_dirty (todo_id, name) clock column.metadata.device_id log) log'
              (λ c i. pending c (inr i))
              (subst
                (λ (z : ℤ).
                  get k (clear_dirty (todo_id, name) z column.metadata.device_id log) ≡ some cell)
                (sym is_clock)
                (clear_dirty-keeps (todo_id, name) column.metadata log (other sent) e))
              h₂
      ]
    where
      stored_clock : (n : ℕ) (z : ℤ) → clock_to_i64 n ≡ ok z → z ≡ pos n
      stored_clock n z f = ground arith

      other :
          is_rejected rejections (todo_id, name) column.metadata ≡ false
          → k ≡ (todo_id, name)
          → has_version cell column.metadata ≡ false
      other sent is_key = elim (pending column (inl (λ t. (is_key t, column)))) [
        | inl refused ↦
            let refused' : is_rejected rejections (todo_id, name) column.metadata ≡ true =
              subst (λ (q : Key). is_rejected rejections q column.metadata ≡ true) is_key refused in
            absurd (ground arith)
        | inr differs ↦ differs
      ]

  acknowledge_rows-keeps :
      (changes : List RowChange) (log log' : BTreeMap Key LogCell)
      → IsPending rejections k cell (entries changes)
      → get k log ≡ some cell
      → acknowledge_rows rejections changes log ≡ ok log'
      → get k log' ≡ some cell
  unfolding acknowledge_rows
  acknowledge_rows-keeps [] log log' pending e h =
      subst (λ l. get k l ≡ some cell) (ok-injective h) e
  acknowledge_rows-keeps (row ∷ changes) log log' pending e h =
      let (middle, first, rest) =
        bind-eq-ok (acknowledge_columns rejections row.todo_id row.columns log) _ h in
      acknowledge_rows-keeps changes middle log'
        (λ c i.
          pending c
            (In-append_right (k, c) (row_entries row.todo_id row.columns) (entries changes) i))
        (acknowledge_columns-keeps row.todo_id row.columns log middle
          (λ c i.
            pending c
              (In-append_left (k, c) (row_entries row.todo_id row.columns) (entries changes) i))
          e first)
        rest

-- When an acknowledgement with a response succeeds, a dirty cell of the log stays as it is, dirty,
-- unless the sent payload has its key and version and the response does not reject them.
pub acknowledge_keeps_pending :
    (sent response : SyncPayload) (table : TableDef) (s s' : Client) (k : Key) (cell : LogCell)
    → acknowledge_local_delta_with_response sent response table s ≡ ok s'
    → get k s.log ≡ some cell
    → cell.dirty ≡ true
    → IsPending response.rejections k cell (entries sent.changes)
    → get k s'.log ≡ some cell
unfolding acknowledge_local_delta_with_response cleanup_pending_evictions
acknowledge_keeps_pending sent response table s s' k cell h e dirty pending =
    let (_, h₁) = then-eq-ok (validate_server_response response table) _ h in
    let (_, h₂) = then-eq-ok (validate_client_request sent s.device_id table) _ h₁ in
    let (log, acknowledged, h₃) =
      bind-eq-ok (acknowledge_rows response.rejections sent.changes s.log) _ h₂ in
    let kept =
      acknowledge_rows-keeps response.rejections k cell sent.changes s.log log pending e
        acknowledged in
    subst (λ (t : Client). get k t.log ≡ some cell) (ok-injective h₃)
      (evict_rows-keeps k cell dirty (pending_rows s.scope_evictions) (record s { log = log }) kept)
