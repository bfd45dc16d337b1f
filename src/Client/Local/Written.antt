-- ===== src/Client/Local/Written.antt =====
-- A local write is logged with a version later than all that the client knew.
use loomabase.Base.{
  ℕ, zero, suc, String, ◌≡◌, refl, sym, ap, subst, ◌∙◌, ◌⊎◌, inl, inr, true, false, Bool-cases,
  Option, none, some, arith, if◌then◌else◌,
}
use loomabase.Base.Int.{ℤ, pos, negsuc, int_leb, int_succ}
use loomabase.BTree.{BTreeMap, get, insert}
use loomabase.BTree.Lookup.{get-insert}
use loomabase.Order.{Ord, is_eq, cmp_refl}
use loomabase.Order.Pair.{pair_ord}
use loomabase.Order.Text.{text_ord}
use loomabase.Error.{
  InvalidPayload, ok, err, invalid_payload, row_not_live, row_not_deleted, bind-eq-ok, then-eq-ok,
  ok-injective, ◌>>=◌,
}
use loomabase.Value.{CrdtValue}
use loomabase.Schema.{TableDef, liveness_column}
use loomabase.Validate.{Key}
use loomabase.Validate.Cell.{validate_identifier, validate_column}
use loomabase.Client.{SqlValue, LogCell, Client, tick, capture, capture_text, after_update, sql_is}
use loomabase.Client.Codec.{crdt_to_sqlite}
use loomabase.Client.Remote.{update_column}
use loomabase.Client.Local.{
  reject_liveness_column, has_flag, set_value, delete_live, restore_deleted,
}

abbrev keys : Ord Key
keys = pair_ord

-- Every logged clock is at most the clock of the device.
abbrev pub LogBelow : Client → Type 0
LogBelow s =
    (k : Key) (cell : LogCell)
    → get k s.log ≡ some cell
    → int_leb cell.lamport_clock s.lamport_clock ≡ true

-- The row has the value already, or no value for the column.
abbrev pub HasValue : Key → SqlValue → Client → Type 0
HasValue key value s =
    (row : BTreeMap String SqlValue) × (get key.0 s.rows ≡ some row)
    × (sql_is (elim (get key.1 row) [ none ↦ value | some old ↦ old ]) value ≡ true)

-- The write of a value: the log has it, dirty, at the next clock, unless the row had that value.
pub record Written (cast_real : ℕ → String) (key : Key) (value : SqlValue) (s s' : Client)
    : Type 0 where
  pub others : (k : Key) → is_eq (keys.cmp k key) ≡ false → get k s'.log ≡ get k s.log
  pub logged :
      ((s'.log ≡ s.log) × (s'.lamport_clock ≡ s.lamport_clock) × HasValue key value s)
      ⊎ ((get key s'.log
            ≡ some (record {
              value = capture_text cast_real value;
              lamport_clock = int_succ s.lamport_clock;
              device_id = s.device_id;
              dirty = true;
            }))
          × (s'.lamport_clock ≡ int_succ s.lamport_clock))
  pub below : LogBelow s → LogBelow s'

int_leb-succ : (a b : ℤ) → int_leb a b ≡ true → int_leb a (int_succ b) ≡ true
int_leb-succ (pos a) (pos b) h = ground arith
int_leb-succ (pos a) (negsuc b) h = absurd (ground arith)
int_leb-succ (negsuc a) (pos b) h = refl
int_leb-succ (negsuc a) (negsuc zero) h = refl
int_leb-succ (negsuc a) (negsuc (suc b)) h = ground arith

int_leb_self : (a : ℤ) → int_leb a a ≡ true
int_leb_self (pos a) = ground arith
int_leb_self (negsuc a) = ground arith

tick_clock :
    (s t : Client) → tick s ≡ ok t → t ≡ record s { lamport_clock = int_succ s.lamport_clock }
unfolding tick
tick_clock s t h = ground arith

after_update-off :
    (cast_real : ℕ → String) (key : Key) (old new : SqlValue) (t : Client)
    → t.applying_remote ≡ false
    → after_update cast_real key old new t ≡ (
        if sql_is old new then ok t else tick t >>= λ ticked. ok (capture cast_real key new ticked))
unfolding after_update
after_update-off cast_real key old new t off = ground arith

module _ (cast_real print_real : ℕ → String) (parse_real : String → Option ℕ) (key : Key)
    (value : SqlValue) (s : Client) (row : BTreeMap String SqlValue)
    (there : get key.0 s.rows ≡ some row) where
  abbrev wrote : Client
  wrote = record s {
    rows = insert key.0 (insert key.1 value row) s.rows;
    lamport_clock = int_succ s.lamport_clock;
  }

  captured-Written : Written cast_real key value s (capture cast_real key value wrote)
  unfolding capture
  captured-Written = record {
    others = λ k other. ground (arith, get-insert k key logged_cell s.log);
    logged = inr (ground (arith, get-insert key key logged_cell s.log, cmp_refl key), refl);
    below = λ below k cell e. elim (Bool-cases (is_eq (keys.cmp k key))) [
      | inl same ↦
          let is_cell : logged_cell ≡ cell = ground (arith, get-insert k key logged_cell s.log) in
          subst (λ (c : LogCell). int_leb c.lamport_clock (int_succ s.lamport_clock) ≡ true) is_cell
            (int_leb_self (int_succ s.lamport_clock))
      | inr other ↦
          int_leb-succ cell.lamport_clock s.lamport_clock
            (below k cell (ground (arith, get-insert k key logged_cell s.log)))
    ];
  }
    where
      logged_cell : LogCell
      logged_cell = record {
        value = capture_text cast_real value;
        lamport_clock = int_succ s.lamport_clock;
        device_id = s.device_id;
        dirty = true;
      }

  update_column-Written :
      (s' : Client)
      → s.applying_remote ≡ false
      → update_column cast_real print_real parse_real key value s ≡ ok s'
      → Written cast_real key value s s'
  unfolding update_column
  update_column-Written s' off h =
      elim (Bool-cases (sql_is (elim (get key.1 row) [ none ↦ value | some old ↦ old ]) value)) [
        | inl same ↦
            let is_new : ok stored ≡ ok s' = rw same at h₁ in
            rw (← ok-injective is_new) (record {
              others = λ k other. refl;
              logged = inl (refl, refl, (row, there, same));
              below = λ below. below;
            })
        | inr differs ↦
            let h₂ = rw differs at h₁ in
            let (t, ticked, h₃) = bind-eq-ok (tick stored) _ h₂ in
            let is_t : t ≡ wrote = tick_clock stored t ticked in
            subst (Written cast_real key value s)
              (ap (capture cast_real key value) (sym is_t) ∙ ok-injective h₃) captured-Written
      ]
    where
      stored : Client
      stored = record s { rows = insert key.0 (insert key.1 value row) s.rows }

      old : SqlValue
      old = elim (get key.1 row) [ none ↦ value | some found ↦ found ]

      is_update :
          update_column cast_real print_real parse_real key value s
          ≡ after_update cast_real key old value stored
      is_update = rw (update_column, there) refl

      h₁ :
          (if sql_is old value
            then ok stored
            else tick stored >>= λ ticked. ok (capture cast_real key value ticked))
          ≡ ok s'
      h₁ = sym (after_update-off cast_real key old value stored off) ∙ sym is_update ∙ h

has_flag_row :
    (flag : ℤ) (found : Option (BTreeMap String SqlValue))
    → has_flag flag found ≡ true
    → (row : BTreeMap String SqlValue) × (found ≡ some row)
has_flag_row flag none e = absurd (ground arith)
has_flag_row flag (some row) e = (row, refl)

module _ (cast_real print_real : ℕ → String) (parse_real : String → Option ℕ) where
  -- A write to a row with the flag, as the operations guard it.
  guarded-Written :
      (key : Key) (value : SqlValue) (flag : ℤ) (message : InvalidPayload) (s s' : Client)
      → s.applying_remote ≡ false
      → (if has_flag flag (get key.0 s.rows)
          then update_column cast_real print_real parse_real key value s
          else err (invalid_payload message))
        ≡ ok s'
      → Written cast_real key value s s'
  guarded-Written key value flag message s s' off h =
      elim (Bool-cases (has_flag flag (get key.0 s.rows))) [
        | inl flagged ↦
            let (row, there) = has_flag_row flag (get key.0 s.rows) flagged in
            update_column-Written cast_real print_real parse_real key value s row there s' off
              (rw flagged at h)
        | inr other ↦ absurd (refused (rw other at h))
      ]
    where
      refused : err (invalid_payload message) ≡ ok s' → ⊥
      refused e = ground arith

  -- When a client sets a column with no remote application under way: no other logged cell
  -- changes; the cell is logged with the text of the value, dirty, by the device, one above its
  -- clock, which the clock then is, or log and clock stay where the row has that value or no value
  -- there; and logged clocks that were at most the clock of the device still are.
  pub set_value-Written :
      (table : TableDef) (row_id column : String) (value : CrdtValue) (s s' : Client)
      → s.applying_remote ≡ false
      → set_value cast_real print_real parse_real table row_id column value s ≡ ok s'
      → (sql : SqlValue) × (crdt_to_sqlite value ≡ ok sql)
        × Written cast_real (row_id, column) sql s s'
  unfolding set_value
  set_value-Written table row_id column value s s' off h =
      let (_, h₁) = then-eq-ok (validate_identifier "row_id" row_id) _ h in
      let (_, h₂) = then-eq-ok (reject_liveness_column column) _ h₁ in
      let (_, h₃) = then-eq-ok (validate_column table column value) _ h₂ in
      let (sql, is_sql, h₄) = bind-eq-ok (crdt_to_sqlite value) _ h₃ in
      (sql, is_sql, guarded-Written (row_id, column) sql (pos 0) row_not_live s s' off h₄)

  -- A delete and then a restore of a row, with no remote application under way, write the liveness
  -- register as a set writes its column, with 1 and then with 0.
  pub delete_restore-Written :
      (row_id : String) (s t u : Client)
      → s.applying_remote ≡ false
      → t.applying_remote ≡ false
      → delete_live cast_real print_real parse_real row_id s ≡ ok t
      → restore_deleted cast_real print_real parse_real row_id t ≡ ok u
      → Written cast_real (row_id, liveness_column) (SqlValue.integer (pos 1)) s t
        × Written cast_real (row_id, liveness_column) (SqlValue.integer (pos 0)) t u
  unfolding delete_live restore_deleted
  delete_restore-Written row_id s t u off off' h h' =
      let (_, h₁) = then-eq-ok (validate_identifier "row_id" row_id) _ h in
      let (_, h₂) = then-eq-ok (validate_identifier "row_id" row_id) _ h' in
      (
        guarded-Written (row_id, liveness_column) (SqlValue.integer (pos 1)) (pos 0) row_not_live s
            t off h₁,
        guarded-Written (row_id, liveness_column) (SqlValue.integer (pos 0)) (pos 1) row_not_deleted
            t u off' h₂,
      )
