-- ===== src/Client/Scope/Taken.antt =====
-- The operations on scopes that returned, taken apart into what they do to the revisions.
use package.text.Mathlib.Text.{◌==◌ as str_eq}
use loomabase.Base.{
  ℕ, String, Bool, true, false, not, ◌&&◌, ◌≡◌, refl, sym, ap, ◌∙◌, Option, none, some, ◌==◌, arith,
}
use loomabase.Base.Int.{ℤ, pos, negsuc}
use loomabase.BTree.{get}
use loomabase.Order.Text.{text_ord}
use loomabase.Error.{
  ok, reject_if, reject_if-Passes, bind-eq-ok, then-eq-ok, ok-injective, scope_revision_differs,
  stale_scope_response, inconsistent_evictions,
}
use loomabase.Schema.{TableDef}
use loomabase.Validate.Cell.{validate_identifier}
use loomabase.Replica.{
  ReplicaInterest, PartialReplicaRequest, PartialReplicaResponse, same_ids, validate_interest,
  validate_partial_request, validate_partial_response,
}
use loomabase.Replica.Partial.{evicted}
use loomabase.Client.{Client, ScopeState}
use loomabase.Client.Codec.{clock_from_i64, clock_to_i64}
use loomabase.Client.Sync.{acknowledge_local_delta_with_response, get_local_delta}
use loomabase.Client.Remote.{apply_remote_payload}
use loomabase.Client.Scope.{
  next_version, set_scope, member_ids_of, drop_members, add_members, add_evictions, is_current,
  scope_request, get_partial_replica_request, apply_partial_replica_response,
  remove_partial_replica_scope,
}
use loomabase.Client.Scope.Revision.{revision, int_eq-same}
use loomabase.Client.Scope.Kept.{
  SameScopes, cleanup-SameScopes, drop_members-SameScopes, add_members-SameScopes,
  add_evictions-SameScopes, acknowledge-SameScopes, apply_remote-SameScopes,
}

-- A request that was made, taken apart.
pub record Requested (scope_id : String) (s s' : Client) (request : PartialReplicaRequest)
    : Type 0 where
  pub version : ℤ
  pub is_next : next_version (get scope_id s.scope_states) ≡ ok version
  pub marked : s' ≡ set_scope scope_id (record { version = version; active = true }) s
  pub is_scope : request.scope_id ≡ scope_id
  pub is_version : clock_from_i64 version ≡ ok request.scope_version

pub record Removed (scope_id : String) (s s' : Client) : Type 0 where
  pub version : ℤ
  pub is_next : next_version (get scope_id s.scope_states) ≡ ok version
  pub marked : SameScopes (set_scope scope_id (record { version = version; active = false }) s) s'

pub record Answered (sent : PartialReplicaRequest) (s s' : Client) : Type 0 where
  pub version : ℤ
  pub is_version : clock_to_i64 sent.scope_version ≡ ok version
  pub current : is_current version (get sent.scope_id s.scope_states) ≡ true
  pub kept : SameScopes s s'

pub clock_to-from : (z : ℤ) (n : ℕ) → clock_from_i64 z ≡ ok n → z ≡ pos n
unfolding clock_from_i64
clock_to-from (pos a) n h = ground arith
clock_to-from (negsuc a) n h = absurd (ground arith)

pub clock_to_i64-pos : (n : ℕ) (z : ℤ) → clock_to_i64 n ≡ ok z → z ≡ pos n
unfolding clock_to_i64
clock_to_i64-pos n z h = ground arith

pub is_current-revision :
    (scope_id : String) (version : ℤ) (s : Client)
    → is_current version (get scope_id s.scope_states) ≡ true
    → revision scope_id s ≡ version
unfolding is_current
is_current-revision scope_id version s h = go (get scope_id s.scope_states) h
  where
    go :
        (found : Option ScopeState)
        → is_current version found ≡ true
        → elim found [ none ↦ pos 0 | some state ↦ state.version ] ≡ version
    go none e = absurd (ground arith)
    go (some state) e = int_eq-same state.version version (ground arith)

module _ (cast_real print_real : ℕ → String) (parse_real : String → Option ℕ)
    (table : TableDef) where
  pub request-Requested :
      (scope_id : String) (interest : ReplicaInterest) (s s' : Client)
      (request : PartialReplicaRequest)
      → get_partial_replica_request cast_real print_real parse_real table scope_id interest s
        ≡ ok (s', request)
      → Requested scope_id s s' request
  unfolding get_partial_replica_request
  request-Requested scope_id interest s s' request h =
      let (_, h₁) = then-eq-ok (validate_identifier "scope_id" scope_id) _ h in
      let (_, h₂) = then-eq-ok (validate_interest interest table) _ h₁ in
      let (version, is_next, h₃) = bind-eq-ok (next_version (get scope_id s.scope_states)) _ h₂ in
      let (scope_version, is_version, h₄) = bind-eq-ok (clock_from_i64 version) _ h₃ in
      let marked = set_scope scope_id (record { version = version; active = true }) s in
      let (sync, _, h₅) = bind-eq-ok (get_local_delta parse_real table marked) _ h₄ in
      let made =
        scope_request cast_real print_real parse_real scope_id scope_version interest
          (member_ids_of scope_id s.scope_members) sync in
      let (_, h₆) = then-eq-ok (validate_partial_request made table sync.source_device_id) _ h₅ in
      let same = ok-injective h₆ in
      record {
        version = version;
        is_next = is_next;
        marked = ap (λ (r : Client × PartialReplicaRequest). r.0) (sym same);
        is_scope = ap (λ (r : Client × PartialReplicaRequest). r.1.scope_id) (sym same);
        is_version =
            is_version ∙ ap (λ (r : Client × PartialReplicaRequest). ok r.1.scope_version) same;
      }

  pub remove-Removed :
      (scope_id : String) (s s' : Client)
      → remove_partial_replica_scope cast_real print_real parse_real scope_id s ≡ ok s'
      → Removed scope_id s s'
  unfolding remove_partial_replica_scope
  remove-Removed scope_id s s' h =
      let (_, h₁) = then-eq-ok (validate_identifier "scope_id" scope_id) _ h in
      let (version, is_next, h₂) = bind-eq-ok (next_version (get scope_id s.scope_states)) _ h₁ in
      let marked = set_scope scope_id (record { version = version; active = false }) s in
      let ids = member_ids_of scope_id s.scope_members in
      let dropped = drop_members scope_id marked in
      record {
        version = version;
        is_next = is_next;
        marked =
            ap (λ (c : Client). c.scope_states) (sym (ok-injective h₂))
            ∙ cleanup-SameScopes (add_evictions scope_id ids dropped)
            ∙ add_evictions-SameScopes scope_id ids dropped
            ∙ drop_members-SameScopes scope_id marked;
      }

  pub apply-Answered :
      (sent : PartialReplicaRequest) (response : PartialReplicaResponse) (s s' : Client)
      → apply_partial_replica_response cast_real print_real parse_real sent response table s ≡ ok s'
      → Answered sent s s'
  unfolding apply_partial_replica_response
  apply-Answered sent response s s' h =
      let (_, h₁) = then-eq-ok (validate_partial_request sent table s.device_id) _ h in
      let (_, h₂) = then-eq-ok (validate_partial_response response table) _ h₁ in
      let (_, h₃) =
        then-eq-ok
          (reject_if
            (not (
              str_eq sent.scope_id response.scope_id
              && (sent.scope_version == response.scope_version)))
            scope_revision_differs)
          _ h₂ in
      let (version, is_version, h₄) = bind-eq-ok (clock_to_i64 sent.scope_version) _ h₃ in
      let (fresh, h₅) =
        then-eq-ok
          (reject_if (not (is_current version (get sent.scope_id s.scope_states)))
            stale_scope_response)
          _ h₄ in
      let (_, h₆) =
        then-eq-ok
          (reject_if
            (not (
              same_ids (evicted response.member_ids sent.known_member_ids)
                response.evicted_row_ids))
            inconsistent_evictions)
          _ h₅ in
      let (acknowledged, first, h₇) =
        bind-eq-ok (acknowledge_local_delta_with_response sent.sync response.sync table s) _ h₆ in
      let (applied, second, h₈) =
        bind-eq-ok
          (apply_remote_payload cast_real print_real parse_real response.sync table acknowledged) _
          h₇ in
      let dropped = drop_members sent.scope_id applied in
      let joined = add_members sent.scope_id response.member_ids dropped in
      let marked = add_evictions sent.scope_id response.evicted_row_ids joined in
      record {
        version = version;
        is_version = is_version;
        current =
            not_not (is_current version (get sent.scope_id s.scope_states))
              (reject_if-Passes _ stale_scope_response fresh);
        kept =
            ap (λ (c : Client). c.scope_states) (sym (ok-injective h₈))
            ∙ cleanup-SameScopes marked
            ∙ add_evictions-SameScopes sent.scope_id response.evicted_row_ids joined
            ∙ add_members-SameScopes sent.scope_id response.member_ids dropped
            ∙ drop_members-SameScopes sent.scope_id applied
            ∙ apply_remote-SameScopes cast_real print_real parse_real response.sync table
                acknowledged applied second
            ∙ acknowledge-SameScopes sent.sync response.sync table s acknowledged first;
      }
    where
      not_not : (b : Bool) → not b ≡ false → b ≡ true
      not_not true e = refl
      not_not false e = absurd (ground arith)
