-- ===== src/Tests/Token.antt =====
-- The theorems on authentication at concrete tokens.
use loomabase.Base.{
  ℕ, String, Bool, true, ◌≡◌, refl, Option, none, some, List, [], ◌∷◌, length, ◌==◌,
}
use loomabase.Schema.{as_bytes}
use loomabase.Validate.Cell.{validate_identifier, has_control}
use loomabase.Auth.{
  Claims, ClaimPolicy, HeaderMap, granted, authenticate_hs256, authenticate_rs256, identity_of,
}
use loomabase.Auth.Vouched.{Vouched, authenticate_hs256-Vouched, authenticate_rs256-Vouched}

abbrev ada : Claims
ada = record {
  tenant_id = "acme";
  device_id = "ada";
  exp = 100;
  nbf = some 5;
  aud = some "sync";
  iss = none;
  allowed_tables = none;
}

abbrev sync_only : ClaimPolicy
sync_only = record { audience = some "sync"; issuer = none }

abbrev bearer : HeaderMap
bearer name = some "Bearer h.p.sig"

abbrev plain_bytes : String → Option (List ℕ)
plain_bytes segment = some (as_bytes segment)

abbrev reads_hs : List ℕ → Option String
reads_hs bytes = some "HS256"

abbrev reads_rs : List ℕ → Option String
reads_rs bytes = some "RS256"

abbrev reads_ada : List ℕ → Option Claims
reads_ada bytes = some ada

-- A mac as long as its key.
abbrev same_length : (secret message signature : List ℕ) → Option Bool
same_length secret message signature = some (length signature == length secret)

-- A signature as long as its message.
abbrev as_long : (signature : String) → (message : List ℕ) → Option Bool
as_long signature message = some (length (as_bytes signature) == length message)

hs256_run :
    authenticate_hs256 plain_bytes reads_hs reads_ada same_length
      (1 ∷ 2 ∷ 3 ∷ [])
      sync_only
      10
      bearer
    ≡ granted (identity_of ada)
unfolding authenticate_hs256 as_bytes validate_identifier has_control
hs256_run = refl

rs256_run :
    authenticate_rs256 plain_bytes reads_rs reads_ada as_long sync_only 10 bearer
    ≡ granted (identity_of ada)
unfolding authenticate_rs256 as_bytes validate_identifier has_control
rs256_run = refl

authenticate_hs256-Vouched_example :
    Vouched plain_bytes reads_hs reads_ada "HS256"
      (λ message signature.
        (bytes : List ℕ) × (plain_bytes signature ≡ some bytes)
        × (same_length (1 ∷ 2 ∷ 3 ∷ []) message bytes ≡ some true))
      sync_only
      10
      bearer
      (identity_of ada)
authenticate_hs256-Vouched_example =
    authenticate_hs256-Vouched plain_bytes reads_hs reads_ada same_length (1 ∷ 2 ∷ 3 ∷ []) sync_only
      10 bearer (identity_of ada) hs256_run

authenticate_rs256-Vouched_example :
    Vouched plain_bytes reads_rs reads_ada "RS256"
      (λ message signature. as_long signature message ≡ some true)
      sync_only
      10
      bearer
      (identity_of ada)
authenticate_rs256-Vouched_example =
    authenticate_rs256-Vouched plain_bytes reads_rs reads_ada as_long sync_only 10 bearer
      (identity_of ada) rs256_run
