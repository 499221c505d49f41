-- ===== src/Auth/Examples.antt =====
-- Runs of the theorems on a token, and on the cache of keys.
use integration_console.Prelude.{
  ℕ, ◌≤◌, refl, Bool, true, Option, none, some, List, [], ◌∷◌, pos, Text, codes, length, is_space,
  arith,
}
use integration_console.Auth.{
  Identity, jwt, TokenAuth, JwtHeader, JwtClaims, single, enabled, bearer_token, verify,
  check_claims, authorize_identity, has_role, split_dots, trim_slashes, is_expired, is_early,
  audience_contains, client_roles, identity_of,
}
use integration_console.Auth.Grants.{IsGranted, authorize_identity-IsGranted}
use integration_console.Auth.Keys.{
  Jwk, RsaKey, Verifier, new_verifier, read_key, read_absent, refresh, rsa_key, keys_of, key, Op,
  refreshes, records, run,
}
use integration_console.Auth.Freshness.{IsFresh, key-IsFresh}
use integration_console.Auth.Memory.{missing_keys_bounded}

abbrev same : Text → Text
same t = t

abbrev read_header : Text → Option JwtHeader
read_header t = some (record { algorithm = codes "RS256"; key_id = codes "k" })

abbrev some_claims : JwtClaims
some_claims = record {
  issuer = codes "https://id/";
  audience = single (codes "search");
  expires_at = some (pos 100);
  not_before = none;
  subject = codes "u-1";
  preferred_username = codes "ann";
  resource_access = (codes "console", codes "viewer" ∷ []) ∷ [];
}

abbrev read_claims : Text → Option JwtClaims
read_claims t = some some_claims

abbrev rsa : RsaKey
rsa = record { modulus = 7 ∷ []; exponent = 65537 }

abbrev signs : RsaKey → Text → Text → Text → Bool
signs key head payload signature = true

abbrev server : TokenAuth
server = record {
  expected_digest = [];
  verifier = some (record {
    issuer = codes "https://id";
    jwks_uri = codes "https://id/keys";
    audience = codes "search";
    client_id = codes "console";
  });
}

abbrev known_key : Text → Option RsaKey
known_key id = some rsa

abbrev ann : Identity
ann = record { kind = jwt; subject = codes "u-1"; display = codes "ann" }

authorize_identity-IsGranted_example :
    IsGranted same read_header read_claims signs server 50 50 known_key
      (codes "Bearer a.b.c")
      (codes "operator" ∷ codes "viewer" ∷ [])
      ann
unfolding authorize_identity enabled bearer_token verify check_claims has_role split_dots
    trim_slashes is_expired is_early audience_contains client_roles identity_of is_space
authorize_identity-IsGranted_example =
    authorize_identity-IsGranted same read_header read_claims signs server 50 50 known_key
      (codes "Bearer a.b.c") (codes "operator" ∷ codes "viewer" ∷ []) ann refl

abbrev decode : Text → Option Text
decode t = some t

abbrev signing_key : Jwk
signing_key = record {
  key_type = codes "RSA";
  use_for = codes "sig";
  key_id = codes "k";
  modulus = 7 ∷ [];
  exponent = 1 ∷ 0 ∷ 1 ∷ [];
}

abbrev minute : ℕ
minute = 60000000000

abbrev filled : Verifier
filled = record {
  keys = (codes "k", rsa) ∷ [];
  missing_keys = [];
  expiry = 360000000000;
  last_refresh = minute;
}

key-IsFresh_example : IsFresh decode (codes "k") minute filled rsa
unfolding key read_key read_absent refresh rsa_key keys_of run
key-IsFresh_example =
    key-IsFresh decode [] (codes "k") minute minute minute minute (some (signing_key ∷ [])) filled
      rsa tt (omega arith) (omega arith, omega arith, omega arith) refl

abbrev sections : List (Op decode)
sections =
    refreshes minute minute minute (some (signing_key ∷ []))
    ∷ records (codes "x") minute
    ∷ refreshes 61000000000 61000000000 61000000000 (some (signing_key ∷ []))
    ∷ []

missing_keys_bounded_example : length (run decode new_verifier sections).missing_keys ≤ 1024
missing_keys_bounded_example = missing_keys_bounded decode sections
