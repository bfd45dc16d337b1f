-- ===== src/Client/Scope/Stale.antt =====
-- A response to a partial replica request is refused once the scope was requested again or removed,
-- whatever the client did in between.

use loomabase.Base.{
  ℕ, String, Bool, true, false, ◌≡◌, ◌≢◌, sym, ap, subst, ◌∙◌, inl, inr, ◌⊎◌, Option, none, some,
  arith,
}
use loomabase.Base.Int.{ℤ, pos, int_leb, int_succ}
use loomabase.BTree.{BTreeMap, get}
use loomabase.Order.Text.{text_ord}
use loomabase.Error.{ok}
use loomabase.Schema.{TableDef}
use loomabase.Replica.{ReplicaInterest, PartialReplicaRequest, PartialReplicaResponse}
use loomabase.Client.{Client, ScopeState}
use loomabase.Client.Scope.{
  next_version, set_scope, get_partial_replica_request, apply_partial_replica_response,
  remove_partial_replica_scope,
}
use loomabase.Client.Scope.Revision.{
  revision, int_leb_trans, int_succ_le, not_int_leb-succ, next_version-succ, set_scope-revision,
}
use loomabase.Client.Scope.Taken.{
  Requested, clock_to-from, clock_to_i64-pos, is_current-revision, request-Requested,
  remove-Removed, apply-Answered,
}
use loomabase.Client.Scope.Steps.{ClientSteps, ClientSteps-NotBelow}

module _ (cast_real print_real : ℕ → String) (parse_real : String → Option ℕ)
    (table : TableDef) where
  -- Above the revision `version` of the scope.
  abbrev Passed : String → ℤ → Client → Type 0
  Passed scope_id version s = int_leb (int_succ version) (revision scope_id s) ≡ true

  revision_reached :
      (scope_id : String) (s s' : Client) (request : PartialReplicaRequest)
      → Requested scope_id s s' request
      → revision scope_id s' ≡ pos request.scope_version
  revision_reached scope_id s s' request r =
      ap (revision scope_id) r.marked
      ∙ set_scope-revision scope_id (record { version = r.version; active = true }) s
      ∙ clock_to-from r.version request.scope_version r.is_version

  -- A newer request or a removal passes every revision that was there.
  supersedes :
      (scope_id : String) (version : ℤ) (found s s' : Client) (active : Bool)
      → next_version (get scope_id s.scope_states) ≡ ok version
      → revision scope_id s'
        ≡ revision scope_id (set_scope scope_id (record { version = version; active = active }) s)
      → int_leb (revision scope_id found) (revision scope_id s) ≡ true
      → Passed scope_id (revision scope_id found) s'
  supersedes scope_id version found s s' active is_next after below =
      let up : revision scope_id s' ≡ int_succ (revision scope_id s) =
        after
        ∙ set_scope-revision scope_id (record { version = version; active = active }) s
        ∙ next_version-succ (get scope_id s.scope_states) version is_next in
      subst (λ (z : ℤ). int_leb (int_succ (revision scope_id found)) z ≡ true) (sym up)
        (int_succ_le (revision scope_id found) (revision scope_id s) below)

  -- The answer to a request is refused once the scope's revision has passed it.
  late_refused :
      (request : PartialReplicaRequest) (response : PartialReplicaResponse) (s s' : Client)
      → Passed request.scope_id (pos request.scope_version) s
      → apply_partial_replica_response cast_real print_real parse_real request response table s
        ≢ ok s'
  late_refused request response s s' passed h =
      let a = apply-Answered cast_real print_real parse_real table request response s s' h in
      let at : revision request.scope_id s ≡ pos request.scope_version =
        is_current-revision request.scope_id a.version s a.current
        ∙ clock_to_i64-pos request.scope_version a.version a.is_version in
      let over : int_leb (int_succ (pos request.scope_version)) (pos request.scope_version) ≡ true =
        subst (λ (z : ℤ). int_leb (int_succ (pos request.scope_version)) z ≡ true) at passed in
      absurd (ground (arith, not_int_leb-succ (pos request.scope_version)))

  -- The scope is requested again, or removed.
  abbrev pub Supersedes : String → Client → Client → Type 0
  Supersedes scope_id s s' =
      ((interest : ReplicaInterest) × (request : PartialReplicaRequest)
        × (get_partial_replica_request cast_real print_real parse_real table scope_id interest s
            ≡ ok (s', request)))
      ⊎ (remove_partial_replica_scope cast_real print_real parse_real scope_id s ≡ ok s')

  Supersedes-Passed :
      (scope_id : String) (found s s' : Client)
      → Supersedes scope_id s s'
      → int_leb (revision scope_id found) (revision scope_id s) ≡ true
      → Passed scope_id (revision scope_id found) s'
  Supersedes-Passed scope_id found s s' (inl (interest, request, h)) below =
      let r =
        request-Requested cast_real print_real parse_real table scope_id interest s s' request h in
      supersedes scope_id r.version found s s' true r.is_next (ap (revision scope_id) r.marked)
        below
  Supersedes-Passed scope_id found s s' (inr h) below =
      let r = remove-Removed cast_real print_real parse_real table scope_id s s' h in
      supersedes scope_id r.version found s s' false r.is_next
        (ap
          (λ (m : BTreeMap String ScopeState). elim (get scope_id m) [
            | none ↦ pos 0
            | some state ↦ state.version
          ])
          r.marked)
        below

  -- A response to a partial replica request is refused once the scope was requested again or
  -- removed, whatever came before and after that of: requests, removals and answers of scopes,
  -- syncs, acknowledgements, applied responses, resets of the cursor, inserts, sets, deletes,
  -- restores, and updates of a column.
  pub stale_answer_refused :
      (scope_id : String) (interest : ReplicaInterest) (request : PartialReplicaRequest)
      (response : PartialReplicaResponse) (s₀ s₁ s₂ s₃ s₄ s₅ : Client)
      → get_partial_replica_request cast_real print_real parse_real table scope_id interest s₀
        ≡ ok (s₁, request)
      → ClientSteps cast_real print_real parse_real table s₁ s₂
      → Supersedes scope_id s₂ s₃
      → ClientSteps cast_real print_real parse_real table s₃ s₄
      → apply_partial_replica_response cast_real print_real parse_real request response table s₄
        ≢ ok s₅
  stale_answer_refused scope_id interest request response s₀ s₁ s₂ s₃ s₄ s₅ made before over after =
      let r =
        request-Requested cast_real print_real parse_real table scope_id interest s₀ s₁ request
          made in
      let passed : Passed scope_id (revision scope_id s₁) s₄ =
        int_leb_trans (int_succ (revision scope_id s₁)) (revision scope_id s₃)
          (revision scope_id s₄)
          (Supersedes-Passed scope_id s₁ s₂ s₃ over
            (ClientSteps-NotBelow cast_real print_real parse_real table before scope_id))
          (ClientSteps-NotBelow cast_real print_real parse_real table after scope_id) in
      late_refused request response s₄ s₅ (
        subst (λ (x : String). Passed x (pos request.scope_version) s₄) (sym r.is_scope)
          (subst (λ (z : ℤ). Passed scope_id z s₄) (revision_reached scope_id s₀ s₁ request r)
            passed))
