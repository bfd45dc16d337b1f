-- ===== src/Postgres/Scope.antt =====
-- The answer of the PostgreSQL server to a partial merge, and where it refuses one.
use loomabase.Base.{
  ℕ, ◌≤◌, String, ◌≡◌, refl, sym, ap, subst, ◌∙◌, inl, inr, ◌↔◌, true, false, any, Bool-cases, List,
  All, In, map, length, ltb, arith,
}
use loomabase.Error.{
  Result, ok, Passes, reject_if, reject_if-Passes, scope_exceeds_limit, bind-eq-ok, then-eq-ok,
  ok-injective, member_also_evicted, snapshot_rows_differ,
}
use loomabase.Value.{CrdtValue, SyncPayload, RowChange}
use loomabase.Schema.{TableDef}
use loomabase.Validate.{Key, validate_server_response}
use loomabase.Validate.Cell.{validate_identifier}
use loomabase.Policy.{SyncSecurity}
use loomabase.Replica.{
  PartialReplicaRequest, PartialReplicaResponse, contains_id, same_ids, validate_partial_request,
  validate_partial_response, validate_member_ids, validate_scope_version,
}
use loomabase.Replica.Partial.Snapshot.{contains_id-In, In-contains_id, In-evicted, evicted-In}
use loomabase.Postgres.{Database, StoredCell}
use loomabase.Postgres.Page.{Stored, tenant_cells}
use loomabase.Postgres.Merge.{merge_crdt_states_with_security}
use loomabase.Postgres.Partial.{
  check_predicates, select_ids, membership, read_snapshot, scope_response, answer_partial,
  merge_partial_replica_with_security,
}
use loomabase.Postgres.Snapshot.{
  Selected, In-select_ids, select_ids-In, limit_unreached, read_snapshot-RowsAll,
  to_changes-RowsAll, same_ids-In,
}

-- The tenant has a cell of the row.
abbrev pub HasCell : String → Database → String → Type 0
HasCell t db id =
    (column : String) × (cell : StoredCell) × In ((id, column), cell) (tenant_cells t db.cells)

pub record ScopeAnswer (t : String) (request : PartialReplicaRequest) (db : Database)
    (table : TableDef) (sync : SyncPayload) (response : PartialReplicaResponse) : Type 0 where
  pub scope : (id : String) → In id response.member_ids ↔ Selected t request.interest db.rows id
  pub populated : (id : String) → In id response.member_ids → HasCell t db id
  pub evictions :
      (id : String)
      → In id response.evicted_row_ids
        ↔ (In id request.known_member_ids × (In id response.member_ids → ⊥))
  pub within : length response.member_ids ≤ request.interest.limit
  pub reported : response.sync.rejections ≡ sync.rejections
  pub valid : Passes (validate_partial_response response table)

-- A valid response has a row for every member.
valid-same_ids :
    (response : PartialReplicaResponse) (table : TableDef)
    → Passes (validate_partial_response response table)
    → same_ids (map (λ (row : RowChange). row.todo_id) response.sync.changes) response.member_ids
      ≡ true
unfolding validate_partial_response
valid-same_ids response table h =
    let (_, h₁) = then-eq-ok (validate_identifier "scope_id" response.scope_id) _ h in
    let (_, h₂) = then-eq-ok (validate_scope_version response.scope_version) _ h₁ in
    let (_, h₃) = then-eq-ok (validate_server_response response.sync table) _ h₂ in
    let (_, h₄) = then-eq-ok (validate_member_ids response.member_ids) _ h₃ in
    let (_, h₅) = then-eq-ok (validate_member_ids response.evicted_row_ids) _ h₄ in
    let (_, h₆) =
      then-eq-ok
        (reject_if (any (contains_id response.evicted_row_ids) response.member_ids)
          member_also_evicted)
        _ h₅ in
    let same = reject_if-Passes _ snapshot_rows_differ h₆ in ground arith

-- An order gives back the members of the list.
abbrev pub Reorders : {A : Type 0} → (List A → List A) → Type 0
Reorders {A} order = (x : A) (xs : List A) → In x (order xs) ↔ In x xs

All-of-In : {A : Type 0} (P : A → Type 0) (xs : List A) → ((x : A) → In x xs → P x) → All P xs
All-of-In P List.[] f = tt
All-of-In P (List.◌∷◌ x xs) f = (f x (inl refl), All-of-In P xs (λ y i. f y (inr i)))

module _ (value_len : CrdtValue → Result ℕ) (order_by_id : List String → List String)
    (order_by_key : Stored → Stored) (ids_reordered : Reorders order_by_id)
    (cells_reordered : Reorders order_by_key) where
  answer_partial-ScopeAnswer :
      (request : PartialReplicaRequest) (t : String) (table : TableDef) (sync : SyncPayload)
      (db db' : Database) (response : PartialReplicaResponse)
      → answer_partial value_len order_by_id order_by_key request t table sync db
        ≡ ok (db', response)
      → (db' ≡ db) × ScopeAnswer t request db table sync response
  unfolding answer_partial membership
  answer_partial-ScopeAnswer request t table sync db db' response h =
      let ids = membership order_by_id t request.interest db in
      let stored = order_by_key (tenant_cells t db.cells) in
      let (_, h₁) = then-eq-ok (check_predicates request.interest.predicates) _ h in
      let (fits, h₂) =
        then-eq-ok (reject_if (ltb request.interest.limit (length ids)) scope_exceeds_limit) _ h₁ in
      let (_, h₃) = then-eq-ok (validate_member_ids ids) _ h₂ in
      let (rows, snap, h₄) = bind-eq-ok (read_snapshot value_len ids stored 0 0 List.[]) _ h₃ in
      let (passes, h₅) =
        then-eq-ok (validate_partial_response (scope_response request sync ids rows) table) _ h₄ in
      let same = ok-injective h₅ in
      let within : length ids ≤ request.interest.limit =
        let small =
          reject_if-Passes (ltb request.interest.limit (length ids)) scope_exceeds_limit fits in
        ground arith in
      let uncut : ids ≡ order_by_id (select_ids t request.interest db.rows) =
        limit_unreached request.interest.limit (order_by_id (select_ids t request.interest db.rows))
          within in
      (
        sym (ap (λ (r : Database × PartialReplicaResponse). r.0) same),
        subst (λ (r : Database × PartialReplicaResponse). ScopeAnswer t request db table sync r.1)
            same
            (record {
              scope = λ id. (
                λ i. In-select_ids t request.interest db.rows id (
                    (ids_reordered id (select_ids t request.interest db.rows)).0
                      (subst (In id) uncut i)),
                λ s. subst (In id) (sym uncut) (
                    (ids_reordered id (select_ids t request.interest db.rows)).1
                      (select_ids-In t request.interest db.rows id s)),
              );
              populated = λ id i.
                  to_changes-RowsAll (HasCell t db) rows id
                    (read_snapshot-RowsAll (HasCell t db) value_len ids stored 0 0 List.[] rows
                      (All-of-In (λ (c : Key × StoredCell). HasCell t db c.0.0) stored
                        (λ c j. (c.0.1, c.1, (cells_reordered c (tenant_cells t db.cells)).0 j)))
                      tt snap)
                    (same_ids-In _ ids id
                      (valid-same_ids (scope_response request sync ids rows) table passes) i);
              evictions = λ id. (
                λ i.
                    let (known, out) = In-evicted ids request.known_member_ids id i in
                    (known, λ j. let member = In-contains_id ids id j in absurd (ground arith)),
                λ (known, out).
                    evicted-In ids request.known_member_ids id known (not_contained ids id out),
              );
              within = within;
              reported = refl;
              valid = passes;
            }),
      )
    where
      not_contained :
          (ids : List String) (id : String) → (In id ids → ⊥) → contains_id ids id ≡ false
      not_contained ids id out = elim (Bool-cases (contains_id ids id)) [
        | inl e ↦ absurd (out (contains_id-In ids id e))
        | inr e ↦ e
      ]

  module _ (debug_text : String → String) (uuid : String) (now : ℕ) where
    -- When a partial merge of the PostgreSQL server succeeds and the orders of the database keep
    -- the elements of a list: it leaves the database that a merge of its payload leaves; the
    -- members are exactly the rows of the tenant that the query selects, and each has a stored
    -- cell; the evicted rows are exactly the known ones that are no members; the rejections are
    -- those of the merge; the members are within the limit; and the response passes its own
    -- validation.
    pub merge_partial_replica-ScopeAnswer :
        (request : PartialReplicaRequest) (device t : String) (table : TableDef)
        (security : SyncSecurity) (db db' : Database) (response : PartialReplicaResponse)
        → merge_partial_replica_with_security value_len order_by_id order_by_key debug_text uuid now
            request device t table security db
          ≡ ok (db', response)
        → (sync : SyncPayload) × (merge_crdt_states_with_security debug_text value_len uuid now
              request.sync device t table security db
            ≡ ok (db', sync))
          × ScopeAnswer t request db' table sync response
    unfolding merge_partial_replica_with_security
    merge_partial_replica-ScopeAnswer request device t table security db db' response h =
        let (_, h₁) = then-eq-ok (validate_partial_request request table device) _ h in
        let ((merged, sync), merges, h₂) =
          bind-eq-ok
            (merge_crdt_states_with_security debug_text value_len uuid now request.sync device t
              table security db)
            _ h₁ in
        let (same, answer) =
          answer_partial-ScopeAnswer request t table sync merged db' response h₂ in
        (
          sync,
          merges ∙ ap (λ (d : Database). ok (d, sync)) (sym same),
          subst (λ (d : Database). ScopeAnswer t request d table sync response) (sym same) answer,
        )
