-- ===== src/Client/Remote/Growth.antt =====
-- A response merged into the log, cell by cell and as a whole.
use loomabase.Base.{
  ℕ, String, ◌≡◌, refl, sym, ap, subst, ◌∙◌, ◌⊎◌, inl, inr, true, false, Bool-cases, [], ◌∷◌, ◌++◌,
  Option, none, some, Option-cases, In, In-append_cases, arith,
}
use loomabase.Base.Int.{pos}
use loomabase.BTree.{get, insert}
use loomabase.Order.Pair.{pair_ord}
use loomabase.Order.Text.{text_ord}
use loomabase.Error.{ok, bind-eq-ok, ok-injective}
use loomabase.Value.{CrdtColumn, ColumnMetadata}
use loomabase.Schema.{TableDef}
use loomabase.Validate.{Key}
use loomabase.Lww.Laws.{◌⊑◌, ⊑_refl, ⊑_trans}
use loomabase.Merge.{should_apply}
use loomabase.Merge.Advance.{Entries}
use loomabase.Client.{LogCell, Client}
use loomabase.Client.Codec.{read_cell}
use loomabase.Client.Remote.{
  write_todo_column, read_local_crdt_column, upsert_cell, apply_remote_cell,
}
use loomabase.Client.Remote.Merged.{
  version, LogHolds, LogGrows, LogGrows-refl, LogGrows-trans, write_todo_column-log,
  read_cell-version, upsert_cell-Upserted, should_apply-older, should_apply-newer, written-LogHolds,
  written-LogGrows,
}

-- The log grew, holds the offered cells, and the triggers are still held off.
pub record Absorbs (offered : Entries) (s s' : Client) : Type 0 where
  pub grows : LogGrows s.log s'.log
  pub holds : (k : Key) (c : CrdtColumn) → In (k, c) offered → LogHolds s'.log k c.metadata
  pub held : s'.applying_remote ≡ true

pub Absorbs-nil : (s s' : Client) → s.applying_remote ≡ true → s' ≡ s → Absorbs [] s s'
Absorbs-nil s s' held e = record {
  grows = LogGrows-refl s.log s'.log (ap (λ (t : Client). t.log) e);
  holds = λ k c i. absurd i;
  held = ap (λ (t : Client). t.applying_remote) e ∙ held;
}

pub Absorbs-append :
    (es fs : Entries) (s t u : Client) → Absorbs es s t → Absorbs fs t u → Absorbs (es ++ fs) s u
Absorbs-append es fs s t u p q = record {
  grows = LogGrows-trans s.log t.log u.log p.grows q.grows;
  holds = λ k c i. elim (In-append_cases (k, c) es fs i) [
    | inl j ↦ q.grows.keeps k c.metadata (p.holds k c j)
    | inr j ↦ q.holds k c j
  ];
  held = q.held;
}

module _ (cast_real print_real : ℕ → String) (parse_real : String → Option ℕ)
    (table : TableDef) where
  module _ (key : Key) (incoming : CrdtColumn) (s s' : Client) where
    local_read :
        (current : Option CrdtColumn)
        → read_local_crdt_column cast_real print_real parse_real table key s ≡ ok current
        → ((get key s.log ≡ none) × (current ≡ none))
          ⊎ ((cell : LogCell) × (column : CrdtColumn) × (get key s.log ≡ some cell)
              × (read_cell parse_real table key.1 cell ≡ ok column)
              × (current ≡ some column))
    unfolding read_local_crdt_column
    local_read current h = elim (Option-cases (get key s.log)) [
      | inl e ↦ inl (e, ground arith)
      | inr (cell, e) ↦
          let (column, read, same) =
            bind-eq-ok (read_cell parse_real table key.1 cell) _
              (rw (read_local_crdt_column, e) at h) in
          inr (cell, column, e, read, sym (ok-injective same))
    ]

    as_version :
        (cell : LogCell) (column : CrdtColumn)
        → cell.device_id ≡ column.metadata.device_id
        → version cell column.metadata.lamport_clock ≡ column.metadata
    as_version cell column e =
        λ i. record { lamport_clock = column.metadata.lamport_clock; device_id = e i }

    kept :
        (current : Option CrdtColumn)
        → s.applying_remote ≡ true
        → read_local_crdt_column cast_real print_real parse_real table key s ≡ ok current
        → should_apply current incoming ≡ ok false
        → s' ≡ s
        → Absorbs ((key, incoming) ∷ []) s s'
    unfolding should_apply
    kept current held read decided e = elim (local_read current read) [
      | inl (_, n) ↦ absurd (ground arith)
      | inr (cell, column, there, is_read, is_column) ↦
          let (is_clock, is_device) =
            read_cell-version cast_real print_real parse_real table key.1 cell column is_read in
          let newer =
            should_apply-newer column incoming
              (ap (λ o. should_apply o incoming) (sym is_column) ∙ decided) in
          rw e (record {
            grows = LogGrows-refl s.log s.log refl;
            holds = λ k c i. elim i [
              | inl f ↦
                  subst (λ (x : Key × CrdtColumn). LogHolds s.log x.0 x.1.metadata) (sym f)
                    (record {
                      cell = cell;
                      clock = column.metadata.lamport_clock;
                      logged = there;
                      is_clock = is_clock;
                      later =
                          subst (λ (m : ColumnMetadata). incoming.metadata ⊑ m)
                            (sym (as_version cell column is_device)) newer;
                    })
              | inr j ↦ absurd j
            ];
            held = held;
          })
    ]

    older :
        (current : Option CrdtColumn)
        → read_local_crdt_column cast_real print_real parse_real table key s ≡ ok current
        → should_apply current incoming ≡ ok true
        → (m : ColumnMetadata) → LogHolds s.log key m
        → m ⊑ incoming.metadata
    older current read decided m h = elim (local_read current read) [
      | inl (absent, _) ↦ let there = h.logged in absurd (ground arith)
      | inr (cell, column, there, is_read, is_column) ↦
          let (is_clock, is_device) =
            read_cell-version cast_real print_real parse_real table key.1 cell column is_read in
          let le =
            should_apply-older column incoming
              (ap (λ o. should_apply o incoming) (sym is_column) ∙ decided) in
          let logged = h.logged in
          let h_clock = h.is_clock in
          let is_cell : h.cell ≡ cell = ground arith in
          let same_clock : pos h.clock ≡ pos column.metadata.lamport_clock =
            sym h_clock ∙ ap (λ (c : LogCell). c.lamport_clock) is_cell ∙ is_clock in
          let number : h.clock ≡ column.metadata.lamport_clock = ground arith in
          let is_version : version h.cell h.clock ≡ column.metadata =
            (λ i. version (is_cell i) (number i)) ∙ as_version cell column is_device in
          ⊑_trans m column.metadata incoming.metadata
            (subst (λ (v : ColumnMetadata). m ⊑ v) is_version h.later) le
    ]

    written :
        (current : Option CrdtColumn) (t : Client)
        → s.applying_remote ≡ true
        → read_local_crdt_column cast_real print_real parse_real table key s ≡ ok current
        → should_apply current incoming ≡ ok true
        → write_todo_column cast_real print_real parse_real table key incoming.value s ≡ ok t
        → upsert_cell cast_real print_real parse_real key incoming t ≡ ok s'
        → Absorbs ((key, incoming) ∷ []) s s'
    written current t held read decided wrote upserted =
        let (same_log, still) =
          write_todo_column-log cast_real print_real parse_real table key incoming.value s t held
            wrote in
        let u = upsert_cell-Upserted cast_real print_real parse_real key incoming t s' upserted in
        let into : s'.log ≡ insert key u.cell s.log =
          u.written ∙ ap (λ l. insert key u.cell l) same_log in
        record {
          grows =
              written-LogGrows key incoming s.log s'.log u.cell into u.is_clock u.is_device
                u.is_clean (older current read decided);
          holds = λ k c i. elim i [
            | inl f ↦
                subst (λ (x : Key × CrdtColumn). LogHolds s'.log x.0 x.1.metadata) (sym f)
                  (written-LogHolds key incoming s.log s'.log u.cell into u.is_clock u.is_device
                    u.is_clean incoming.metadata (⊑_refl incoming.metadata))
            | inr j ↦ absurd j
          ];
          held = u.held ∙ still;
        }

    pub apply_remote_cell-Absorbs :
        s.applying_remote ≡ true
        → apply_remote_cell cast_real print_real parse_real table key incoming s ≡ ok s'
        → Absorbs ((key, incoming) ∷ []) s s'
    unfolding apply_remote_cell
    apply_remote_cell-Absorbs held h =
        let (current, read, h₁) =
          bind-eq-ok (read_local_crdt_column cast_real print_real parse_real table key s) _ h in
        let (apply, decided, h₂) = bind-eq-ok (should_apply current incoming) _ h₁ in
        elim (Bool-cases apply) [
          | inl newer ↦
              let (t, wrote, upserted) =
                bind-eq-ok
                  (write_todo_column cast_real print_real parse_real table key incoming.value s) _
                  (rw newer at h₂) in
              written current t held read (decided ∙ ap ok newer) wrote upserted
          | inr older_one ↦
              kept current held read (decided ∙ ap ok older_one)
                (sym (ok-injective (rw older_one at h₂)))
        ]
