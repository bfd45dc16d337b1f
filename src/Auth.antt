-- ===== src/Auth.antt =====
-- Authentication by a signed token (src/auth.rs) and by headers (src/http.rs). The header map is the
-- function that reads a header as visible text; base64, the JSON of a token, the signatures and the
-- clock are parameters.
pub mod Text
pub mod Split
pub mod Granted
pub mod Admits
pub mod Vouched
use Prim.Native.String.{len, ◌++◌}
use package.text.Mathlib.Text.{◌==◌ as str_eq}
use loomabase.Base.{
  ℕ, String, Bool, true, false, Option, none, some, List, [], ◌∷◌, leb, ltb, if◌then◌else◌,
}
use loomabase.BTree.{BTreeMap, contains_key}
use loomabase.Order.Text.{text_ord}
use loomabase.Error.{Result, Check, ok, err}
use loomabase.Schema.{as_bytes}
use loomabase.Validate.Cell.{validate_identifier}
use loomabase.Auth.Text.{strip_prefix, split_dots, rsplit_once}

-- `AuthenticatedDevice`
pub record AuthenticatedDevice : Type 0 where
  pub tenant_id : String
  pub device_id : String
  pub allowed_tables : Option (BTreeMap String Unit)

-- `can_sync_table`
unfoldable pub can_sync_table : AuthenticatedDevice → String → Bool
can_sync_table identity table = elim identity.allowed_tables [
  | none ↦ true
  | some allowed ↦ contains_key table allowed
]

-- `Result<T, String>`, with the message of a refusal
pub data Outcome {ℓ} (A : Type ℓ) : Type ℓ where
  granted : A → Outcome A
  refused : String → Outcome A

module _ {ℓ κ} {A : Type ℓ} {B : Type κ} where
  infixl 5 ◌>>=◌
  abbrev pub ◌>>=◌ : Outcome A → (A → Outcome B) → Outcome B
  refused message >>= next = refused message
  granted value >>= next = next value

infixl 5 ◌>>◌
abbrev pub ◌>>◌ {ℓ} : {B : Type ℓ} → Outcome (Unit {0}) → Outcome B → Outcome B
check >> next = check >>= λ _. next

-- `.ok_or_else(|| message)`
abbrev pub or_refuse {ℓ} : {A : Type ℓ} → Option A → String → Outcome A
or_refuse none message = refused message
or_refuse (some value) message = granted value

-- `if test { return Err(message) }`
abbrev pub refuse_if : Bool → String → Outcome (Unit {0})
refuse_if true message = refused message
refuse_if false message = granted tt

-- `.map_err(|_| message)` on a check
abbrev pub or_message : Check → String → Outcome (Unit {0})
or_message (ok u) message = granted u
or_message (err e) message = refused message

-- `HeaderMap`, by `headers.get(name).and_then(|value| value.to_str().ok())`
abbrev pub HeaderMap : Type 0
HeaderMap = String → Option String

-- `Claims`
pub record Claims : Type 0 where
  pub tenant_id : String
  pub device_id : String
  pub exp : ℕ
  pub nbf : Option ℕ
  pub aud : Option String
  pub iss : Option String
  pub allowed_tables : Option (BTreeMap String Unit)

-- `ClaimPolicy`
pub record ClaimPolicy : Type 0 where
  pub audience : Option String
  pub issuer : Option String

-- `required_header` of http.rs
unfoldable pub required_header : HeaderMap → String → Outcome String
required_header headers name =
    let missing = "missing or invalid " ++ (name ++ " header") in
    elim (headers name) [
      | none ↦ refused missing
      | some value ↦ if str_eq value "" then refused missing else granted value
    ]

-- `HeaderDeviceAuthenticator`
unfoldable pub authenticate_headers : HeaderMap → Outcome AuthenticatedDevice
unfolding required_header
authenticate_headers headers = do
  tenant_id ← required_header headers "x-tenant-id"
  device_id ← required_header headers "x-device-id"
  granted (record { tenant_id = tenant_id; device_id = device_id; allowed_tables = none })

abbrev pub max_bearer_token_bytes : ℕ
max_bearer_token_bytes = 16384

unfoldable pub bearer_token : HeaderMap → Outcome String
unfolding strip_prefix
bearer_token headers = do
  value ← or_refuse (headers "authorization") "missing authorization header"
  token ← or_refuse (strip_prefix "Bearer " value) "authorization header must be a Bearer token"
  refuse_if (ltb max_bearer_token_bytes (len token)) "bearer token is too large"
  granted token

-- `claims.nbf.is_some_and(|nbf| nbf > now)`
abbrev pub starts_later : Option ℕ → ℕ → Bool
starts_later none now = false
starts_later (some nbf) now = ltb now nbf

-- An expected claim is missing or another one.
abbrev pub claim_differs : Option String → Option String → Bool
claim_differs none found = false
claim_differs (some expected) none = true
claim_differs (some expected) (some found) = if str_eq found expected then false else true

abbrev pub identity_of : Claims → AuthenticatedDevice
identity_of claims = record {
  tenant_id = claims.tenant_id;
  device_id = claims.device_id;
  allowed_tables = claims.allowed_tables;
}

-- The checks of `validated_identity`, once the claims are read.
unfoldable pub check_claims : ClaimPolicy → ℕ → Claims → Outcome AuthenticatedDevice
check_claims policy now claims = do
  refuse_if (leb claims.exp now) "token expired"
  refuse_if (starts_later claims.nbf now) "token is not yet valid"
  refuse_if (claim_differs policy.audience claims.aud) "token audience mismatch"
  refuse_if (claim_differs policy.issuer claims.iss) "token issuer mismatch"
  or_message (validate_identifier "token tenant_id" claims.tenant_id)
      "token contains an invalid tenant"
  or_message (validate_identifier "token device_id" claims.device_id)
      "token contains an invalid device"
  granted (identity_of claims)

module _ (decode64 : String → Option (List ℕ)) (read_alg : List ℕ → Option String)
    (read_claims : List ℕ → Option Claims) where
  -- The header, the payload and the bytes of the signature.
  abbrev pub parts_of : List String → Outcome (String × (String × List ℕ))
  parts_of (header ∷ payload ∷ signature ∷ []) = do
    bytes ← or_refuse (decode64 signature) "invalid token signature encoding"
    granted (header, (payload, bytes))
  parts_of _ = refused "malformed token"

  unfoldable pub split_token : String → Outcome (String × (String × List ℕ))
  unfolding split_dots
  split_token token = parts_of (split_dots token)

  -- `decode_segment`
  unfoldable pub decode_segment {ℓ} : {A : Type ℓ} → (List ℕ → Option A) → String → Outcome A
  decode_segment read segment = do
    bytes ← or_refuse (decode64 segment) "invalid token encoding"
    or_refuse (read bytes) "invalid token claims"

  unfoldable pub expect_alg : String → String → Outcome (Unit {0})
  unfolding decode_segment
  expect_alg header expected = do
    alg ← decode_segment read_alg header
    refuse_if (if str_eq alg expected then false else true) "unsupported token algorithm"

  unfoldable pub validated_identity : ClaimPolicy → ℕ → String → Outcome AuthenticatedDevice
  unfolding decode_segment check_claims
  validated_identity policy now payload = do
    claims ← decode_segment read_claims payload
    check_claims policy now claims

  -- `JwtDeviceAuthenticator::authenticate`. `verify_mac` is `HmacSha256`: `none` where no key can be
  -- made of the secret.
  unfoldable pub authenticate_hs256 :
      (verify_mac : (secret message signature : List ℕ) → Option Bool)
      → (secret : List ℕ) → ClaimPolicy
      → ℕ
      → HeaderMap
      → Outcome AuthenticatedDevice
  unfolding bearer_token split_token expect_alg validated_identity
  authenticate_hs256 verify_mac secret policy now headers = do
    token ← bearer_token headers
    parts ← split_token token
    expect_alg parts.0 "HS256"
    valid ←
        or_refuse (verify_mac secret (as_bytes (parts.0 ++ ("." ++ parts.1.0))) parts.1.1)
          "invalid signing key"
    refuse_if (if valid then false else true) "invalid token signature"
    validated_identity policy now parts.1.0

  -- `RsaJwtDeviceAuthenticator::authenticate`. `verify` is `crypto::verify` with the key, on the
  -- signature as base64.
  unfoldable pub authenticate_rs256 :
      (verify : (signature : String) → (message : List ℕ) → Option Bool)
      → ClaimPolicy
      → ℕ
      → HeaderMap
      → Outcome AuthenticatedDevice
  unfolding bearer_token split_token expect_alg rsplit_once validated_identity
  authenticate_rs256 verify policy now headers = do
    token ← bearer_token headers
    parts ← split_token token
    expect_alg parts.0 "RS256"
    cut ← or_refuse (rsplit_once token) "malformed token"
    valid ← or_refuse (verify cut.1 (as_bytes cut.0)) "invalid token signature"
    refuse_if (if valid then false else true) "invalid token signature"
    validated_identity policy now parts.1.0
