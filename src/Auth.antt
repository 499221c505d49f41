-- ===== src/Auth.antt =====
-- Callers of atheros-search/internal/auth/auth.go: bearer tokens, identities, decisions, and the checks on a
-- JSON web token. The hash, the decoding of a token's parts and the check of its signature are
-- parameters, and so is the key that the cache of keys answers.
pub mod Keys
pub mod Grants
pub mod Memory
pub mod Freshness
pub mod Spacing
mod Examples
use integration_console.Prelude.{
  ℕ, zero, suc, ◌+◌, ◌-◌, ◌*◌, Bool, true, false, not, ◌&&◌, ◌||◌, Option, none, some, List, [],
  ◌∷◌, ℤ, pos, negsuc, ltb, leb, ◌==◌, if◌then◌else◌, Result, ok, err, ◌>>=◌, fail_if, Text, codes,
  same_text, is_empty, trim_space, to_lower, contains, decode_hex, length, take, drop,
}

-- IdentityKind
pub data IdentityKind : Type 0 where
  jwt : IdentityKind
  static : IdentityKind
  disabled : IdentityKind

-- Identity
pub record Identity : Type 0 where
  pub kind : IdentityKind
  pub subject : Text
  pub display : Text

-- Decision
pub data Decision : Type 0 where
  unauthorized : Decision
  forbidden : Decision
  authorized : Decision

abbrev pub nobody : Identity
nobody = record { kind = disabled; subject = []; display = [] }

-- JWTConfig, after NewJWTTokenAuth.
pub record JwtConfig : Type 0 where
  pub issuer : Text
  pub jwks_uri : Text
  pub audience : Text
  pub client_id : Text

-- TokenAuth, without the state of the verifier.
pub record TokenAuth : Type 0 where
  pub expected_digest : Text
  pub verifier : Option JwtConfig

abbrev pub digest_auth : Option Text → Option TokenAuth
digest_auth none = none
digest_auth (some digest) =
    if length digest == 32
    then some (record { expected_digest = digest; verifier = none })
    else none

-- NewTokenAuth
unfoldable pub new_token_auth : Text → Option TokenAuth
unfolding decode_hex trim_space to_lower
new_token_auth hex_digest =
    let digest = trim_space (to_lower hex_digest) in
    if is_empty digest
    then some (record { expected_digest = []; verifier = none })
    else digest_auth (decode_hex digest)

abbrev pub before_slashes : ℕ → Text → Text
before_slashes c [] = if c == 47 then [] else c ∷ []
before_slashes c (d ∷ s) = c ∷ d ∷ s

-- strings.TrimRight with the cutset "/"
unfoldable pub trim_slashes : Text → Text
trim_slashes [] = []
trim_slashes (c ∷ s) = before_slashes c (trim_slashes s)

-- NewJWTTokenAuth
unfoldable pub new_jwt_token_auth : JwtConfig → Option TokenAuth
unfolding trim_space trim_slashes
new_jwt_token_auth config =
    let issuer = trim_slashes (trim_space config.issuer) in
    let jwks_uri = trim_space config.jwks_uri in
    let audience = trim_space config.audience in
    let client_id = trim_space config.client_id in
    if is_empty issuer || is_empty jwks_uri || is_empty audience || is_empty client_id
    then none
    else some (record {
      expected_digest = [];
      verifier = some (record {
        issuer = issuer;
        jwks_uri = jwks_uri;
        audience = audience;
        client_id = client_id;
      });
    })

abbrev pub is_some {ℓ} : {A : Type ℓ} → Option A → Bool
is_some none = false
is_some (some a) = true

-- Enabled, on an authenticator that is there.
unfoldable pub enabled : TokenAuth → Bool
enabled a = not (is_empty a.expected_digest) || is_some a.verifier

-- bearerToken
unfoldable pub bearer_token : Text → Option Text
unfolding trim_space to_lower
bearer_token raw =
    let header = trim_space raw in
    let token = trim_space (drop 7 header) in
    if ltb (length header) 7 || not (same_text (to_lower (take 7 header)) (codes "bearer "))
    then none
    else if is_empty token
    then none
    else some token

-- jwtHeader
pub record JwtHeader : Type 0 where
  pub algorithm : Text
  pub key_id : Text

-- The `aud` claim: a string, an array of strings, or something else.
pub data Audience : Type 0 where
  single : Text → Audience
  multiple : List Text → Audience
  unreadable : Audience

-- jwtClaims. A time is `none` where it is no int64; `not_before` is `none` where it is absent.
pub record JwtClaims : Type 0 where
  pub issuer : Text
  pub audience : Audience
  pub expires_at : Option ℤ
  pub not_before : Option (Option ℤ)
  pub subject : Text
  pub preferred_username : Text
  pub resource_access : List (Text × List Text)

-- audienceContains
unfoldable pub audience_contains : Audience → Text → Bool
audience_contains (single audience) expected = same_text audience expected
audience_contains (multiple audiences) expected = contains expected audiences
audience_contains unreadable expected = false

-- `now.Before(time.Unix(seconds, 0))`, in nanoseconds.
abbrev pub is_before : ℕ → ℤ → Bool
is_before now (pos seconds) = ltb now (seconds * 1000000000)
is_before now (negsuc seconds) = false

unfoldable pub is_expired : ℕ → Option ℤ → Bool
is_expired now none = true
is_expired now (some seconds) = not (is_before now seconds)

unfoldable pub is_early : ℕ → Option (Option ℤ) → Bool
is_early now none = false
is_early now (some none) = true
is_early now (some (some seconds)) = is_before now seconds

unfoldable pub client_roles : Text → List (Text × List Text) → List Text
client_roles client [] = []
client_roles client ((name, roles) ∷ rest) =
    if same_text name client then roles else client_roles client rest

unfoldable pub identity_of : JwtClaims → Identity
unfolding trim_space
identity_of claims =
    let subject = trim_space claims.subject in
    let name = trim_space claims.preferred_username in
    record { kind = jwt; subject = subject; display = if is_empty name then subject else name }

-- Why a token is refused.
pub data Refusal : Type 0 where
  not_three_segments : Refusal
  invalid_header : Refusal
  unknown_key : Refusal
  invalid_signature : Refusal
  invalid_claims : Refusal
  wrong_issuer : Refusal
  expired : Refusal
  not_active : Refusal
  wrong_audience : Refusal

abbrev pub or_refuse {ℓ} : {A : Type ℓ} → Refusal → Option A → Result Refusal A
or_refuse refusal none = err refusal
or_refuse refusal (some a) = ok a

-- strings.Split(raw, "."), `segment` being the characters of the segment so far, last first.
abbrev pub reversed_onto : Text → Text → Text
reversed_onto [] s = s
reversed_onto (c ∷ cs) s = reversed_onto cs (c ∷ s)

unfoldable pub split_dots : Text → Text → List Text
split_dots segment [] = reversed_onto segment [] ∷ []
split_dots segment (c ∷ s) =
    let rest = split_dots (if c == 46 then [] else c ∷ segment) s in
    if c == 46 then reversed_onto segment [] ∷ rest else rest

abbrev pub three_segments : List Text → Option (Text × Text × Text)
three_segments (h ∷ p ∷ s ∷ []) = some (h, p, s)
three_segments [] = none
three_segments (h ∷ []) = none
three_segments (h ∷ p ∷ []) = none
three_segments (h ∷ p ∷ s ∷ x ∷ rest) = none

-- Whether a role that is allowed is among the caller's.
unfoldable pub has_role : List Text → List Text → Bool
has_role [] roles = false
has_role (allowed ∷ rest) roles = contains allowed roles || has_role rest roles

abbrev pub is_none_allowed : List Text → Bool
is_none_allowed [] = true
is_none_allowed (allowed ∷ rest) = false

abbrev pub decide : List Text → Result Refusal (List Text × Identity) → Decision × Identity
decide allowed (err refusal) = (unauthorized, nobody)
decide allowed (ok (roles, identity)) =
    if is_none_allowed allowed || has_role allowed roles
    then (authorized, identity)
    else (forbidden, nobody)

module _ {Key : Type 0} (sha256 : Text → Text) (decode_header : Text → Option JwtHeader)
    (decode_claims : Text → Option JwtClaims) (is_signed : Key → Text → Text → Text → Bool) where
  -- The checks on the claims, which read the clock twice.
  unfoldable pub check_claims :
      JwtConfig → ℕ → ℕ → JwtClaims → Result Refusal (List Text × Identity)
  unfolding trim_slashes is_expired is_early audience_contains client_roles identity_of
  check_claims config now later claims =
      fail_if (not (same_text (trim_slashes claims.issuer) config.issuer)) wrong_issuer claims
      >>= λ claims. fail_if (is_expired now claims.expires_at) expired claims >>= λ claims.
          fail_if (is_early later claims.not_before) not_active claims >>= λ claims.
          fail_if (not (audience_contains claims.audience config.audience)) wrong_audience
            (client_roles config.client_id claims.resource_access, identity_of claims)

  -- verify, where `key` answers for the key of an identifier.
  unfoldable pub verify :
      JwtConfig → ℕ → ℕ → (Text → Option Key) → Text → Result Refusal (List Text × Identity)
  unfolding split_dots check_claims
  verify config now later key raw =
      or_refuse not_three_segments (three_segments (split_dots [] raw))
      >>= λ (head, payload, signature). or_refuse invalid_header (decode_header head) >>= λ header.
          fail_if (not (same_text header.algorithm (codes "RS256")) || is_empty header.key_id)
            invalid_header header
          >>= λ header. or_refuse unknown_key (key header.key_id) >>= λ key.
              fail_if (not (is_signed key head payload signature)) invalid_signature payload
              >>= λ payload. or_refuse invalid_claims (decode_claims payload) >>= λ claims.
                  check_claims config now later claims

  abbrev pub check_digest : Text → Text → Decision × Identity
  check_digest expected token =
      if same_text (sha256 token) expected
      then (authorized, record { kind = static; subject = []; display = codes "static-token" })
      else (unauthorized, nobody)

  abbrev pub check_jwt :
      Option JwtConfig → ℕ → ℕ → (Text → Option Key) → List Text → Text → Decision × Identity
  check_jwt none now later key allowed token = (unauthorized, nobody)
  check_jwt (some config) now later key allowed token =
      decide allowed (verify config now later key token)

  abbrev pub check_token :
      TokenAuth → ℕ → ℕ → (Text → Option Key) → List Text → Option Text → Decision × Identity
  check_token a now later key allowed none = (unauthorized, nobody)
  check_token a now later key allowed (some token) =
      if not (is_empty a.expected_digest)
      then check_digest a.expected_digest token
      else check_jwt a.verifier now later key allowed token

  -- AuthorizeIdentity
  unfoldable pub authorize_identity :
      TokenAuth → ℕ → ℕ → (Text → Option Key) → Text → List Text → Decision × Identity
  unfolding enabled bearer_token verify has_role
  authorize_identity a now later key header allowed =
      if not (enabled a)
      then (authorized, nobody)
      else check_token a now later key allowed (bearer_token header)
