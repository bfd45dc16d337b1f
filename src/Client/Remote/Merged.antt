-- ===== src/Client/Remote/Merged.antt =====
-- What a response does to the log: versions only grow, and nothing becomes dirty.
use loomabase.Base.{
  ℕ, String, ◌≡◌, refl, sym, ap, subst, ◌∙◌, ◌⊎◌, inl, inr, true, false, Bool-cases, Option, some,
  arith, if◌then◌else◌,
}
use loomabase.Base.Int.{ℤ, pos, negsuc}
use loomabase.BTree.{BTreeMap, get, insert}
use loomabase.BTree.Lookup.{get-insert}
use loomabase.Order.{Ord, is_eq, cmp_refl}
use loomabase.Order.Pair.{pair_ord}
use loomabase.Order.Text.{text_ord}
use loomabase.Error.{ok, bind-eq-ok, then-eq-ok, ok-injective}
use loomabase.Value.{CrdtColumn, CrdtValue, ColumnMetadata}
use loomabase.Schema.{TableDef, column_type}
use loomabase.Validate.{Key}
use loomabase.Lww.{MergeDecision, decide_lww, accept_incoming, keep_current, equal}
use loomabase.Lww.Laws.{◌⊑◌, ⊑_refl, ⊑_of_lt, decide_lww-accept, decide_lww-keep, decide_lww-equal}
use loomabase.Merge.{should_apply}
use loomabase.Client.{SqlValue, LogCell, Client, after_update}
use loomabase.Client.Codec.{
  crdt_to_sqlite, clock_from_i64, clock_to_i64, encode_sqlite_value, decode_sqlite_value, read_cell,
}
use loomabase.Client.Remote.{check_type, update_column, write_todo_column, upsert_cell}

abbrev keys : Ord Key
keys = pair_ord

-- The version of a logged cell, when its clock is no negative number.
abbrev pub version : LogCell → ℕ → ColumnMetadata
version cell n = record { lamport_clock = n; device_id = cell.device_id }

-- The log has a version that is at least `m` at the key.
pub record LogHolds (log : BTreeMap Key LogCell) (k : Key) (m : ColumnMetadata) : Type 0 where
  pub cell : LogCell
  pub clock : ℕ
  pub logged : get k log ≡ some cell
  pub is_clock : cell.lamport_clock ≡ pos clock
  pub later : m ⊑ version cell clock

-- The log grew: versions are kept or passed, and each cell was there or is clean.
pub record LogGrows (log log' : BTreeMap Key LogCell) : Type 0 where
  pub keeps : (k : Key) (m : ColumnMetadata) → LogHolds log k m → LogHolds log' k m
  pub clean :
      (k : Key) (cell : LogCell)
      → get k log' ≡ some cell
      → (get k log ≡ some cell) ⊎ (cell.dirty ≡ false)

pub LogGrows-refl : (log log' : BTreeMap Key LogCell) → log' ≡ log → LogGrows log log'
LogGrows-refl log log' e = rw e (record { keeps = λ k m h. h; clean = λ k cell f. inl f })

pub LogGrows-trans : (a b c : BTreeMap Key LogCell) → LogGrows a b → LogGrows b c → LogGrows a c
LogGrows-trans a b c p q = record {
  keeps = λ k m h. q.keeps k m (p.keeps k m h);
  clean = λ k cell e. elim (q.clean k cell e) [ inl f ↦ p.clean k cell f | inr d ↦ inr d ];
}

module _ (cast_real print_real : ℕ → String) (parse_real : String → Option ℕ) where
  -- With the triggers held off, a write to a row leaves the log alone.
  update_column-log :
      (key : Key) (value : SqlValue) (s s' : Client)
      → s.applying_remote ≡ true
      → update_column cast_real print_real parse_real key value s ≡ ok s'
      → (s'.log ≡ s.log) × (s'.applying_remote ≡ true)
  unfolding update_column after_update
  update_column-log key value s s' held h = ground arith

  pub write_todo_column-log :
      (table : TableDef) (key : Key) (value : CrdtValue) (s s' : Client)
      → s.applying_remote ≡ true
      → write_todo_column cast_real print_real parse_real table key value s ≡ ok s'
      → (s'.log ≡ s.log) × (s'.applying_remote ≡ true)
  unfolding write_todo_column
  write_todo_column-log table key value s s' held h =
      let (_, h₁) = then-eq-ok (check_type (column_type table key.1) value) _ h in
      let (sql, _, h₂) = bind-eq-ok (crdt_to_sqlite value) _ h₁ in
      update_column-log key sql s s' held h₂

  -- What reading a cell of the log says about it.
  pub read_cell-version :
      (table : TableDef) (name : String) (cell : LogCell) (column : CrdtColumn)
      → read_cell parse_real table name cell ≡ ok column
      → (cell.lamport_clock ≡ pos column.metadata.lamport_clock)
        × (cell.device_id ≡ column.metadata.device_id)
  unfolding read_cell clock_from_i64
  read_cell-version table name cell column h =
      let (value, _, h₁) = bind-eq-ok (decode_sqlite_value parse_real table name cell.value) _ h in
      let (clock, is_clock, h₂) = bind-eq-ok (clock_from_i64 cell.lamport_clock) _ h₁ in
      let same = ok-injective h₂ in
      (
        nonnegative cell.lamport_clock clock is_clock
            ∙ ap (λ (c : CrdtColumn). pos c.metadata.lamport_clock) same,
        ap (λ (c : CrdtColumn). c.metadata.device_id) same,
      )
    where
      nonnegative : (z : ℤ) (n : ℕ) → clock_from_i64 z ≡ ok n → z ≡ pos n
      nonnegative (pos a) n e = ap pos (ok-injective e)
      nonnegative (negsuc a) n e = ground arith

  -- The upsert puts the version in the log, clean.
  pub record Upserted (key : Key) (incoming : CrdtColumn) (s s' : Client) : Type 0 where
    pub cell : LogCell
    pub written : s'.log ≡ insert key cell s.log
    pub is_clock : cell.lamport_clock ≡ pos incoming.metadata.lamport_clock
    pub is_device : cell.device_id ≡ incoming.metadata.device_id
    pub is_clean : cell.dirty ≡ false
    pub held : s'.applying_remote ≡ s.applying_remote

  pub upsert_cell-Upserted :
      (key : Key) (incoming : CrdtColumn) (s s' : Client)
      → upsert_cell cast_real print_real parse_real key incoming s ≡ ok s'
      → Upserted key incoming s s'
  unfolding upsert_cell clock_to_i64
  upsert_cell-Upserted key incoming s s' h =
      let (value, _, h₁) = bind-eq-ok (encode_sqlite_value print_real incoming.value) _ h in
      let (clock, is_clock, h₂) = bind-eq-ok (clock_to_i64 incoming.metadata.lamport_clock) _ h₁ in
      let same = sym (ok-injective h₂) in
      record {
        cell = record {
          value = value;
          lamport_clock = clock;
          device_id = incoming.metadata.device_id;
          dirty = false;
        };
        written = ap (λ (t : Client). t.log) same;
        is_clock = ground arith;
        is_device = refl;
        is_clean = refl;
        held = ap (λ (t : Client). t.applying_remote) same;
      }

pub should_apply-older :
    (current incoming : CrdtColumn)
    → should_apply (some current) incoming ≡ ok true
    → current.metadata ⊑ incoming.metadata
unfolding should_apply
should_apply-older current incoming h = ground (
  arith,
  ⊑_of_lt current.metadata incoming.metadata,
  decide_lww-accept current.metadata incoming.metadata,
)

pub should_apply-newer :
    (current incoming : CrdtColumn)
    → should_apply (some current) incoming ≡ ok false
    → incoming.metadata ⊑ current.metadata
unfolding should_apply
should_apply-newer current incoming h =
    elim (decision (decide_lww current.metadata incoming.metadata)) [
      | inl accept ↦ absurd (ground arith)
      | inr (inl keep) ↦
          ⊑_of_lt incoming.metadata current.metadata
            (decide_lww-keep current.metadata incoming.metadata keep)
      | inr (inr same) ↦
          subst (λ (m : ColumnMetadata). incoming.metadata ⊑ m)
            (sym (decide_lww-equal current.metadata incoming.metadata same))
            (⊑_refl incoming.metadata)
    ]
  where
    decision : (d : MergeDecision) → (d ≡ accept_incoming) ⊎ (d ≡ keep_current) ⊎ (d ≡ equal)
    decision accept_incoming = inl refl
    decision keep_current = inr (inl refl)
    decision equal = inr (inr refl)

module _ (key : Key) (incoming : CrdtColumn) (log log' : BTreeMap Key LogCell) (cell : LogCell)
    (written : log' ≡ insert key cell log)
    (is_clock : cell.lamport_clock ≡ pos incoming.metadata.lamport_clock)
    (is_device : cell.device_id ≡ incoming.metadata.device_id) (is_clean : cell.dirty ≡ false) where
  get-written : (k : Key) → get k log' ≡ (if is_eq (keys.cmp k key) then some cell else get k log)
  get-written k = rw written (get-insert k key cell log)

  pub is_version : version cell incoming.metadata.lamport_clock ≡ incoming.metadata
  is_version =
      λ i. record { lamport_clock = incoming.metadata.lamport_clock; device_id = is_device i }

  pub written-LogHolds : (m : ColumnMetadata) → m ⊑ incoming.metadata → LogHolds log' key m
  written-LogHolds m le = record {
    cell = cell;
    clock = incoming.metadata.lamport_clock;
    logged = ground (arith, get-written key, cmp_refl key);
    is_clock = is_clock;
    later = subst (λ (v : ColumnMetadata). m ⊑ v) (sym is_version) le;
  }

  pub written-LogGrows :
      ((m : ColumnMetadata) → LogHolds log key m → m ⊑ incoming.metadata) → LogGrows log log'
  written-LogGrows older = record {
    keeps = λ k m h. elim (Bool-cases (is_eq (keys.cmp k key))) [
      | inl same ↦
          let is_key : k ≡ key = keys.identical k key (ground arith) in
          subst (λ (q : Key). LogHolds log' q m) (sym is_key)
            (written-LogHolds m (older m (subst (λ (q : Key). LogHolds log q m) is_key h)))
      | inr other ↦ record {
        cell = h.cell;
        clock = h.clock;
        logged = let there = h.logged in ground (arith, get-written k);
        is_clock = h.is_clock;
        later = h.later;
      }
    ];
    clean = λ k found e. elim (Bool-cases (is_eq (keys.cmp k key))) [
      | inl same ↦
          let is_found : cell ≡ found = ground (arith, get-written k) in
          inr (subst (λ (c : LogCell). c.dirty ≡ false) is_found is_clean)
      | inr other ↦ inl (ground (arith, get-written k))
    ];
  }
