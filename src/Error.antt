-- ===== src/Error.antt =====
-- src/error.rs: `SyncError` and `Result`. The text of an invalid-payload message is a constructor
-- of `InvalidPayload`, one for each message of the sources; errors of other crates keep their text.
use loomabase.Base.{ℕ, String, Bool, true, false, ◌≡◌, refl, arith}

pub data InvalidPayload : Type 0 where
  unsupported_protocol_version negative_cursor too_many_rows too_many_rejections : InvalidPayload
  duplicate_row row_without_columns too_many_cells duplicate_cell : InvalidPayload
  reserved_server_device source_device_mismatch response_only_flags : InvalidPayload
  client_sent_rejections foreign_attribution column_clock_exceeds_source : InvalidPayload
  not_from_server response_clock_exceeds_source same_version_different_value : InvalidPayload
  column_not_synchronizable text_too_long real_not_finite invalid_value_type : InvalidPayload
  invalid_rejection_reason clock_advance_too_large : InvalidPayload
  -- the field that `validate_identifier` names
  invalid_identifier : String → InvalidPayload
  -- schema.rs
  invalid_sql_identifier reserved_table_name no_application_column : InvalidPayload
  reserved_column_name duplicate_column no_table duplicate_table : InvalidPayload
  incompatible_type_change removed_column : InvalidPayload
  -- client.rs
  malformed_integer malformed_real malformed_boolean value_not_storable : InvalidPayload
  negative_stored_clock liveness_is_reserved row_not_live row_not_deleted : InvalidPayload
  -- replica.rs and the partial merge
  interest_limit_out_of_range too_many_predicates invalid_id_predicate : InvalidPayload
  too_many_members members_not_sorted invalid_scope_version : InvalidPayload
  member_also_evicted snapshot_rows_differ scope_exceeds_limit snapshot_too_large : InvalidPayload
  -- server.rs
  lease_ttl_too_large invalid_predicate_value : InvalidPayload
  -- client.rs, partial replicas
  scope_revision_differs stale_scope_response inconsistent_evictions : InvalidPayload

pub data SyncError : Type 0 where
  sqlite postgres serialization blocking_task : String → SyncError
  invalid_payload : InvalidPayload → SyncError
  schema_mismatch : (expected actual : ℕ) → SyncError
  clock_overflow sqlite_lock_poisoned sync_page_budget_exhausted : SyncError

pub data Result {ℓ} (A : Type ℓ) : Type ℓ where
  ok : A → Result A
  err : SyncError → Result A

module _ {ℓ κ} {A : Type ℓ} {B : Type κ} where
  -- `?`: an error ends the chain.
  infixl 5 ◌>>=◌
  abbrev pub ◌>>=◌ : Result A → (A → Result B) → Result B
  err e >>= next = err e
  ok value >>= next = next value

infixl 5 ◌>>◌
abbrev pub ◌>>◌ {ℓ} : {B : Type ℓ} → Result (Unit {0}) → Result B → Result B
check >> next = check >>= λ _. next

-- `if test { return Err(InvalidPayload(…)) }`
abbrev pub reject_if : Bool → InvalidPayload → Result (Unit {0})
reject_if true message = err (invalid_payload message)
reject_if false message = ok tt

-- A check: it returns nothing, or an error.
abbrev pub Check : Type 0
Check = Result (Unit {0})

-- The check passes.
abbrev pub Passes : Check → Type 0
Passes c = c ≡ ok tt

module _ {ℓ κ} {A : Type ℓ} {B : Type κ} where
  -- A chain returned: so did its first step, and the rest did with what that gave.
  pub bind-eq-ok :
      (first : Result A) (next : A → Result B) {result : B}
      → (first >>= next) ≡ ok result
      → (value : A) × (first ≡ ok value) × (next value ≡ ok result)
  bind-eq-ok (err e) next h = ground arith
  bind-eq-ok (ok value) next h = (value, refl, h)

module _ {ℓ} {B : Type ℓ} where
  -- The same where the first step is a check.
  pub then-eq-ok : (c : Check) (k : Result B) {b : B} → (c >> k) ≡ ok b → Passes c × (k ≡ ok b)
  then-eq-ok (ok tt) k h = (refl, h)
  then-eq-ok (err e) k h = ground arith

pub reject_if-Passes :
    (b : Bool) (message : InvalidPayload) → Passes (reject_if b message) → b ≡ false
reject_if-Passes true message h = ground arith
reject_if-Passes false message h = refl

pub ok-injective {ℓ} : {A : Type ℓ} {a b : A} → ok a ≡ ok b → a ≡ b
ok-injective h = cc
