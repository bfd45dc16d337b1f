-- ===== src/Auth/Admits.antt =====
-- Claims that `check_claims` of src/auth.rs grants.

use package.text.Mathlib.Text.{◌==◌ as str_eq}
use package.text.Mathlib.TextEquality.{eq_iff}
use loomabase.Base.{
  ℕ, ◌<◌, ◌≤◌, String, false, ◌≡◌, ap, ◌∙◌, Option, none, some, leb, inl, inr, Bool-cases, arith,
}
use loomabase.Error.{Passes}
use loomabase.Validate.Cell.{validate_identifier}
use loomabase.Auth.{
  AuthenticatedDevice, Claims, ClaimPolicy, granted, starts_later, claim_differs, identity_of,
  check_claims,
}
use loomabase.Auth.Granted.{refuse_if-granted, or_message-granted}

-- The claims satisfy the policy at a time, and the identity is theirs.
pub record Admits (policy : ClaimPolicy) (now : ℕ) (claims : Claims)
    (identity : AuthenticatedDevice) : Type 0 where
  unexpired : now < claims.exp
  started : (nbf : ℕ) → claims.nbf ≡ some nbf → nbf ≤ now
  audience : (expected : String) → policy.audience ≡ some expected → claims.aud ≡ some expected
  issuer : (expected : String) → policy.issuer ≡ some expected → claims.iss ≡ some expected
  tenant : Passes (validate_identifier "token tenant_id" claims.tenant_id)
  device : Passes (validate_identifier "token device_id" claims.device_id)
  claimed : identity ≡ identity_of claims

started_by :
    (found : Option ℕ) (now nbf : ℕ) → starts_later found now ≡ false → found ≡ some nbf → nbf ≤ now
started_by none now nbf h e = ground arith
started_by (some at) now nbf h e =
    let same : at ≡ nbf = cc in let late : at ≤ now = ground arith in omega arith

same_claim :
    (wanted found : Option String) (expected : String)
    → claim_differs wanted found ≡ false
    → wanted ≡ some expected
    → found ≡ some expected
same_claim none found expected h e = ground arith
same_claim (some e') none expected h e = ground arith
same_claim (some e') (some f) expected h e = elim (Bool-cases (str_eq f e')) [
  | inl same ↦
      let found : f ≡ e' = (eq_iff f e').0 same in
      let wanted : e' ≡ expected = cc in ap some (found ∙ wanted)
  | inr other ↦ absurd (ground arith)
]

pub check_claims-Admits :
    (policy : ClaimPolicy) (now : ℕ) (claims : Claims) (identity : AuthenticatedDevice)
    → check_claims policy now claims ≡ granted identity
    → Admits policy now claims identity
unfolding check_claims
check_claims-Admits policy now claims identity h =
    let a = refuse_if-granted (leb claims.exp now) "token expired" _ h in
    let b = refuse_if-granted (starts_later claims.nbf now) "token is not yet valid" _ a.1 in
    let c =
      refuse_if-granted (claim_differs policy.audience claims.aud) "token audience mismatch" _
        b.1 in
    let d =
      refuse_if-granted (claim_differs policy.issuer claims.iss) "token issuer mismatch" _ c.1 in
    let e =
      or_message-granted (validate_identifier "token tenant_id" claims.tenant_id)
        "token contains an invalid tenant" _ d.1 in
    let f =
      or_message-granted (validate_identifier "token device_id" claims.device_id)
        "token contains an invalid device" _ e.1 in
    let past : leb claims.exp now ≡ false = a.0 in
    let own : granted (identity_of claims) ≡ granted identity = f.1 in
    record {
      unexpired = ground arith;
      started = λ nbf. started_by claims.nbf now nbf b.0;
      audience = λ expected. same_claim policy.audience claims.aud expected c.0;
      issuer = λ expected. same_claim policy.issuer claims.iss expected d.0;
      tenant = e.0;
      device = f.0;
      claimed = cc;
    }
