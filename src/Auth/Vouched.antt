-- ===== src/Auth/Vouched.antt =====
-- What a granted bearer token vouches for.

use Prim.Native.String.{len, ◌++◌}
use package.text.Mathlib.Text.{◌==◌ as str_eq}
use loomabase.Base.{
  ℕ, ◌≤◌, String, Bool, true, false, ◌≡◌, sym, ap, ◌∙◌, Option, some, List, [], ◌∷◌, ltb,
  if◌then◌else◌, subst, arith,
}
use loomabase.Schema.{as_bytes}
use loomabase.Auth.{
  AuthenticatedDevice, Claims, ClaimPolicy, HeaderMap, granted, bearer_token, check_claims,
  split_token, decode_segment, expect_alg, validated_identity, authenticate_hs256,
  authenticate_rs256, max_bearer_token_bytes, parts_of,
}
use loomabase.Auth.Text.{strip_prefix, split_dots, rsplit_once}
use loomabase.Auth.Split.{three_parts}
use loomabase.Auth.Granted.{
  bind-granted, refuse_if-granted, or_refuse-granted, granted-injective, not_above,
  refuse_if-passed, holds, some-injective, same_text, strip_prefix-some,
}
use loomabase.Auth.Admits.{Admits, check_claims-Admits}

-- A token that came in the authorization header: its parts, what signs them, and its claims.
pub record Vouched (decode64 : String → Option (List ℕ)) (read_alg : List ℕ → Option String)
    (read_claims : List ℕ → Option Claims) (alg : String)
    (IsSigned : (message : List ℕ) → (signature : String) → Type 0) (policy : ClaimPolicy) (now : ℕ)
    (headers : HeaderMap) (identity : AuthenticatedDevice) : Type 0 where
  token : String
  header : String
  payload : String
  signature : String
  claims : Claims
  sent : headers "authorization" ≡ some ("Bearer " ++ token)
  within : len token ≤ max_bearer_token_bytes
  parts : token ≡ header ++ ("." ++ (payload ++ ("." ++ signature)))
  algorithm : decode_segment decode64 read_alg read_claims read_alg header ≡ granted alg
  signed : IsSigned (as_bytes (header ++ ("." ++ payload))) signature
  read : decode_segment decode64 read_alg read_claims read_claims payload ≡ granted claims
  admits : Admits policy now claims identity

bearer_token-granted :
    (headers : HeaderMap) (token : String)
    → bearer_token headers ≡ granted token
    → (headers "authorization" ≡ some ("Bearer " ++ token)) × (len token ≤ max_bearer_token_bytes)
unfolding bearer_token
bearer_token-granted headers token h =
    let a = or_refuse-granted (headers "authorization") "missing authorization header" _ h in
    let b =
      or_refuse-granted (strip_prefix "Bearer " a.0) "authorization header must be a Bearer token" _
        a.2 in
    let c =
      refuse_if-granted (ltb max_bearer_token_bytes (len b.0)) "bearer token is too large" _ b.2 in
    let same : b.0 ≡ token = granted-injective c.1 in
    let short : len b.0 ≤ max_bearer_token_bytes = not_above (len b.0) max_bearer_token_bytes c.0 in
    (
      a.1
          ∙ ap some
              (strip_prefix-some "Bearer " a.0 b.0 b.1 ∙ ap (λ (t : String). "Bearer " ++ t) same),
      subst (λ (t : String). len t ≤ max_bearer_token_bytes) same short,
    )

module _ (decode64 : String → Option (List ℕ)) (read_alg : List ℕ → Option String)
    (read_claims : List ℕ → Option Claims) where
  parts_of-granted :
      (l : List String) (header payload : String) (bytes : List ℕ)
      → parts_of decode64 read_alg read_claims l ≡ granted (header, (payload, bytes))
      → (signature : String) × (l ≡ header ∷ payload ∷ signature ∷ [])
        × (decode64 signature ≡ some bytes)
  parts_of-granted (h ∷ p ∷ s ∷ []) header payload bytes e =
      let a = or_refuse-granted (decode64 s) "invalid token signature encoding" _ e in
      let same : (h, (p, a.0)) ≡ (header, (payload, bytes)) = granted-injective a.2 in
      (
        s,
        ap (λ (x : String × (String × List ℕ)). x.0 ∷ x.1.0 ∷ s ∷ []) same,
        a.1 ∙ ap (λ (x : String × (String × List ℕ)). some x.1.1) same,
      )
  parts_of-granted _ header payload bytes e = absurd (ground arith)

  expect_alg-granted :
      (header alg : String)
      → expect_alg decode64 read_alg read_claims header alg ≡ granted tt
      → decode_segment decode64 read_alg read_claims read_alg header ≡ granted alg
  unfolding expect_alg
  expect_alg-granted header alg h =
      let a = bind-granted (decode_segment decode64 read_alg read_claims read_alg header) _ h in
      let test =
        refuse_if-passed (if str_eq a.0 alg then false else true) "unsupported token algorithm"
          a.2 in
      a.1 ∙ ap granted (same_text a.0 alg test)

  validated_identity-Admits :
      (policy : ClaimPolicy) (now : ℕ) (payload : String) (identity : AuthenticatedDevice)
      → validated_identity decode64 read_alg read_claims policy now payload ≡ granted identity
      → (claims : Claims) × (decode_segment decode64 read_alg read_claims read_claims payload
          ≡ granted claims)
        × Admits policy now claims identity
  unfolding validated_identity
  validated_identity-Admits policy now payload identity h =
      let a =
        bind-granted (decode_segment decode64 read_alg read_claims read_claims payload)
          (check_claims policy now) h in
      (a.0, a.1, check_claims-Admits policy now a.0 identity a.2)

  -- A request that the HS256 authenticator lets in carries a bearer token of at most 16384 bytes
  -- and of three parts joined by dots; the header names HS256; the MAC under the secret of the
  -- header and the payload, joined by a dot, is the third part; the claims are unexpired, have
  -- started, and carry the audience and the issuer that are asked for; and the identity is the
  -- claimed one, of a valid tenant and device.
  pub authenticate_hs256-Vouched :
      (verify_mac : (secret message signature : List ℕ) → Option Bool) (secret : List ℕ)
      (policy : ClaimPolicy) (now : ℕ) (headers : HeaderMap) (identity : AuthenticatedDevice)
      → authenticate_hs256 decode64 read_alg read_claims verify_mac secret policy now headers
        ≡ granted identity
      → Vouched decode64 read_alg read_claims "HS256"
          (λ message signature.
            (bytes : List ℕ) × (decode64 signature ≡ some bytes)
            × (verify_mac secret message bytes ≡ some true))
          policy
          now
          headers
          identity
  unfolding authenticate_hs256 split_token
  authenticate_hs256-Vouched verify_mac secret policy now headers identity h =
      let a = bind-granted (bearer_token headers) _ h in
      let sent = bearer_token-granted headers a.0 a.1 in
      let b = bind-granted (split_token decode64 read_alg read_claims a.0) _ a.2 in
      let split = parts_of-granted (split_dots a.0) b.0.0 b.0.1.0 b.0.1.1 b.1 in
      let c = bind-granted (expect_alg decode64 read_alg read_claims b.0.0 "HS256") _ b.2 in
      let d =
        or_refuse-granted (verify_mac secret (as_bytes (b.0.0 ++ ("." ++ b.0.1.0))) b.0.1.1)
          "invalid signing key" _ c.2 in
      let e = refuse_if-granted (if d.0 then false else true) "invalid token signature" _ d.2 in
      let f = validated_identity-Admits policy now b.0.1.0 identity e.1 in
      record {
        token = a.0;
        header = b.0.0;
        payload = b.0.1.0;
        signature = split.0;
        claims = f.0;
        sent = sent.0;
        within = sent.1;
        parts = (three_parts a.0 b.0.0 b.0.1.0 split.0 split.1).0;
        algorithm = expect_alg-granted b.0.0 "HS256" c.1;
        signed = (b.0.1.1, split.2, d.1 ∙ ap some (holds d.0 e.0));
        read = f.1;
        admits = f.2;
      }

  -- A request that the RS256 authenticator lets in carries a bearer token of at most 16384 bytes
  -- and of three parts joined by dots; the header names RS256; the public key verifies the third
  -- part as a signature of the header and the payload, joined by a dot; the claims are unexpired,
  -- have started, and carry the audience and the issuer that are asked for; and the identity is
  -- the claimed one, of a valid tenant and device.
  pub authenticate_rs256-Vouched :
      (verify : (signature : String) (message : List ℕ) → Option Bool) (policy : ClaimPolicy)
      (now : ℕ) (headers : HeaderMap) (identity : AuthenticatedDevice)
      → authenticate_rs256 decode64 read_alg read_claims verify policy now headers
        ≡ granted identity
      → Vouched decode64 read_alg read_claims "RS256"
          (λ message signature. verify signature message ≡ some true)
          policy
          now
          headers
          identity
  unfolding authenticate_rs256 split_token
  authenticate_rs256-Vouched verify policy now headers identity h =
      let a = bind-granted (bearer_token headers) _ h in
      let sent = bearer_token-granted headers a.0 a.1 in
      let b = bind-granted (split_token decode64 read_alg read_claims a.0) _ a.2 in
      let split = parts_of-granted (split_dots a.0) b.0.0 b.0.1.0 b.0.1.1 b.1 in
      let three = three_parts a.0 b.0.0 b.0.1.0 split.0 split.1 in
      let c = bind-granted (expect_alg decode64 read_alg read_claims b.0.0 "RS256") _ b.2 in
      let r = or_refuse-granted (rsplit_once a.0) "malformed token" _ c.2 in
      let cut : r.0 ≡ (b.0.0 ++ ("." ++ b.0.1.0), split.0) = some-injective (sym r.1 ∙ three.1) in
      let d = or_refuse-granted (verify r.0.1 (as_bytes r.0.0)) "invalid token signature" _ r.2 in
      let e = refuse_if-granted (if d.0 then false else true) "invalid token signature" _ d.2 in
      let f = validated_identity-Admits policy now b.0.1.0 identity e.1 in
      record {
        token = a.0;
        header = b.0.0;
        payload = b.0.1.0;
        signature = split.0;
        claims = f.0;
        sent = sent.0;
        within = sent.1;
        parts = three.0;
        algorithm = expect_alg-granted b.0.0 "RS256" c.1;
        signed =
            subst (λ (x : String × String). verify x.1 (as_bytes x.0) ≡ some true) cut
              (d.1 ∙ ap some (holds d.0 e.0));
        read = f.1;
        admits = f.2;
      }
