-- ===== src/Replica/Partial/Answer.antt =====
-- The response of `merge_partial` as a view of the cells that the merge left.
use loomabase.Base.{
  ℕ, String, ◌≡◌, ◌≤◌, sym, subst, inl, inr, ◌↔◌, false, Bool-cases, List, [], none, some, In,
  length, ltb, arith, if◌then◌else◌,
}
use loomabase.BTree.{BTreeMap, get}
use loomabase.BTree.Sorted.{IsSorted}
use loomabase.Order.Pair.{pair_ord}
use loomabase.Order.Text.{text_ord}
use loomabase.Error.{
  Result, ok, Passes, reject_if, reject_if-Passes, bind-eq-ok, then-eq-ok, ok-injective,
}
use loomabase.Value.{CrdtColumn, SyncPayload}
use loomabase.Validate.{Key}
use loomabase.Merge.{CrdtState}
use loomabase.Merge.Advance.{entries, open_security, merge_rows-Advances}
use loomabase.Feed.{Rows, to_changes}
use loomabase.Feed.Rows.{AreSorted, cell_at, cell_at_of_In, In-of_cell_at}
use loomabase.Server.{context_of, issue_cursor, merge_inner}
use loomabase.Server.Inversion.{merge_inner-Accepted}
use loomabase.Replica.{
  PartialReplicaRequest, PartialReplicaResponse, contains_id, validate_partial_request,
  validate_partial_response,
}
use loomabase.Replica.Partial.{
  values_by_row, members, snapshot, partial_response, merge_partial_inner,
}
use loomabase.Replica.Partial.Members.{InScope, members-InScope, InScope-members}
use loomabase.Replica.Partial.Snapshot.{
  contains_id-In, In-contains_id, In-evicted, evicted-In, cell_at-snapshot, snapshot-AreSorted,
}

pub record PartialAnswer (request : PartialReplicaRequest) (s : CrdtState)
    (response : PartialReplicaResponse) : Type 0 where
  pub scope : (id : String) → In id response.member_ids ↔ InScope request.interest s.cells id
  pub cells :
      (k : Key) (c : CrdtColumn)
      → In (k, c) (entries response.sync.changes)
        ↔ ((get k s.cells ≡ some c) × In k.0 response.member_ids)
  pub evictions :
      (id : String)
      → In id response.evicted_row_ids
        ↔ (In id request.known_member_ids × (In id response.member_ids → ⊥))
  pub within : length response.member_ids ≤ request.interest.limit
  pub valid : Passes (validate_partial_response response s.table)

abbrev ids_of : PartialReplicaRequest → CrdtState → List String
ids_of request s = members request.interest (values_by_row s.cells [])

not_contained : (ids : List String) (id : String) → (In id ids → ⊥) → contains_id ids id ≡ false
not_contained ids id out = elim (Bool-cases (contains_id ids id)) [
  | inl e ↦ absurd (out (contains_id-In ids id e))
  | inr e ↦ e
]

module _ (json_len : CrdtColumn → Result ℕ) where
  snapshot_lists :
      (ids : List String) (cells : BTreeMap Key CrdtColumn) (rows : Rows) (k : Key) (c : CrdtColumn)
      → IsSorted cells
      → snapshot json_len ids cells 0 [] ≡ ok rows
      → In (k, c) (entries (to_changes rows)) ↔ ((get k cells ≡ some c) × In k.0 ids)
  unfolding get
  snapshot_lists ids cells rows k c sorted h = (
    λ i.
        let e : cell_at k rows ≡ some c = cell_at_of_In k c rows are_sorted i in
        elim (Bool-cases (contains_id ids k.0)) [
          | inl member ↦ (ground (arith, read), contains_id-In ids k.0 member)
          | inr out ↦ absurd (ground (arith, read))
        ],
    λ (e, i).
        let member = In-contains_id ids k.0 i in In-of_cell_at k c rows (ground (arith, read)),
  )
    where
      read : cell_at k rows ≡ (
          if contains_id ids k.0
          then elim (get k cells) [ none ↦ none | some column ↦ some column ]
          else none)
      read = cell_at-snapshot json_len ids cells 0 [] rows k sorted h

      are_sorted : AreSorted rows
      are_sorted =
          snapshot-AreSorted json_len ids cells 0 [] rows
            (record { outside = tt; inside = λ t columns e. absurd (ground arith) }) h

  merge_inner-IsSorted :
      (payload : SyncPayload) (device : String) (s s' : CrdtState) (response : SyncPayload)
      → IsSorted s.cells
      → merge_inner json_len payload device open_security s ≡ ok (s', response)
      → IsSorted s'.cells
  unfolding issue_cursor
  merge_inner-IsSorted payload device s s' response sorted h =
      let a = merge_inner-Accepted json_len payload device open_security s s' response h in
      let kept =
        (merge_rows-Advances open_security (context_of s device) payload.changes (s, [])
            (a.merged, a.rejections) a.loop).sorted
          sorted in
      subst (λ (t : CrdtState). IsSorted t.cells) (sym a.state) kept

  view :
      (request : PartialReplicaRequest) (s : CrdtState) (sync : SyncPayload) (rows : Rows)
      → IsSorted s.cells
      → ltb request.interest.limit (length (ids_of request s)) ≡ false
      → snapshot json_len (ids_of request s) s.cells 0 [] ≡ ok rows
      → Passes (
          validate_partial_response
            (partial_response json_len request sync (ids_of request s) rows)
            s.table)
      → PartialAnswer request s (partial_response json_len request sync (ids_of request s) rows)
  view request s sync rows sorted fits snap passes =
      let ids = ids_of request s in
      record {
        scope = λ id. (
          members-InScope request.interest s.cells sorted id,
          InScope-members request.interest s.cells sorted id,
        );
        cells = λ k c. snapshot_lists ids s.cells rows k c sorted snap;
        evictions = λ id. (
          λ i.
              let (known, out) = In-evicted ids request.known_member_ids id i in
              (known, λ j. let member = In-contains_id ids id j in absurd (ground arith)),
          λ (known, out).
              evicted-In ids request.known_member_ids id known (not_contained ids id out),
        );
        within = ground arith;
        valid = passes;
      }

  -- When a partial merge from a state with its cells in key order succeeds: the members are
  -- exactly the live rows of the new state that match the interest, the changes are exactly the
  -- cells of the members, the evicted rows are exactly the known ones that are no members, the
  -- members are within the limit, and the response passes its own validation.
  pub merge_partial_answers :
      (request : PartialReplicaRequest) (device : String) (s s' : CrdtState)
      (response : PartialReplicaResponse)
      → IsSorted s.cells
      → merge_partial_inner json_len request device s ≡ ok (s', response)
      → PartialAnswer request s' response
  unfolding merge_partial_inner
  merge_partial_answers request device s s' response sorted h =
      let (_, h₁) = then-eq-ok (validate_partial_request request s.table device) _ h in
      let ((t, sync), merged, h₂) =
        bind-eq-ok (merge_inner json_len request.sync device open_security s) _ h₁ in
      let (fits, h₃) = then-eq-ok (reject_if _ _) _ h₂ in
      let (rows, snap, h₄) = bind-eq-ok (snapshot json_len (ids_of request t) t.cells 0 []) _ h₃ in
      let (passes, h₅) =
        then-eq-ok
          (validate_partial_response
            (partial_response json_len request sync (ids_of request t) rows) t.table)
          _ h₄ in
      let same = ok-injective h₅ in
      let answer =
        view request t sync rows (merge_inner-IsSorted request.sync device s t sync sorted merged)
          (reject_if-Passes _ _ fits) snap passes in
      subst (λ (r : CrdtState × PartialReplicaResponse). PartialAnswer request r.0 r.1) same answer
