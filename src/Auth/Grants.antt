-- ===== src/Auth/Grants.antt =====
-- Whom AuthorizeIdentity of auth.go lets in.
use integration_console.Prelude.{
  passed, ℕ, ◌≡◌, refl, ap, sym, inl, inr, Bool, true, false, not, ◌||◌, Option, none, some, List,
  [], ◌∷◌, Result, ok, err, ◌>>=◌, >>=-fail_if, fail_if-ok, Option-cases, Bool-cases, Text, codes,
  same_text, same_text→≡, is_empty,
}
use integration_console.Auth.{
  Identity, Decision, static, authorized, unauthorized, forbidden, nobody, JwtConfig, TokenAuth,
  JwtHeader, JwtClaims, Refusal, enabled, bearer_token, verify, check_claims, check_digest,
  check_token, decide, has_role, is_none_allowed, authorize_identity, trim_slashes, is_expired,
  is_early, audience_contains, client_roles, identity_of, three_segments, split_dots, or_refuse,
}

module _ {Key : Type 0} (sha256 : Text → Text) (decode_header : Text → Option JwtHeader)
    (decode_claims : Text → Option JwtClaims) (is_signed : Key → Text → Text → Text → Bool) where
  -- The token is signed with the key of its header, and its claims are for this service and this time.
  pub record IsVerified (config : JwtConfig) (now later : ℕ) (key : Text → Option Key) (raw : Text)
      (roles : List Text) (identity : Identity) : Type 0 where
    pub head : Text
    pub payload : Text
    pub signature : Text
    pub header : JwtHeader
    pub signing_key : Key
    pub claims : JwtClaims
    pub segments : split_dots [] raw ≡ head ∷ payload ∷ signature ∷ []
    pub header_is : decode_header head ≡ some header
    pub algorithm : header.algorithm ≡ codes "RS256"
    pub key_is : key header.key_id ≡ some signing_key
    pub signed : is_signed signing_key head payload signature ≡ true
    pub claims_are : decode_claims payload ≡ some claims
    pub issuer : trim_slashes claims.issuer ≡ config.issuer
    pub live : is_expired now claims.expires_at ≡ false
    pub active : is_early later claims.not_before ≡ false
    pub audience : audience_contains claims.audience config.audience ≡ true
    pub roles_are : roles ≡ client_roles config.client_id claims.resource_access
    pub identity_is : identity ≡ identity_of claims

  >>=-or_refuse :
      {A B : Type 0} (refusal : Refusal) (o : Option A) (next : A → Result Refusal B) {w : B}
      → (or_refuse refusal o >>= next) ≡ ok w
      → (a : A) × (o ≡ some a) × (next a ≡ ok w)
  >>=-or_refuse refusal none next h = cc
  >>=-or_refuse refusal (some a) next h = (a, refl, h)

  first_false : (a b : Bool) → (not a || b) ≡ false → a ≡ true
  first_false true b h = refl
  first_false false b h = cc

  three_segments-some :
      (segments : List Text) (h p s : Text)
      → three_segments segments ≡ some (h, p, s)
      → segments ≡ h ∷ p ∷ s ∷ []
  three_segments-some [] h p s e = cc
  three_segments-some (a ∷ []) h p s e = cc
  three_segments-some (a ∷ b ∷ []) h p s e = cc
  three_segments-some (a ∷ b ∷ c ∷ []) h p s e = cc
  three_segments-some (a ∷ b ∷ c ∷ d ∷ rest) h p s e = cc

  pub verify-IsVerified :
      (config : JwtConfig) (now later : ℕ) (key : Text → Option Key) (raw : Text)
      (roles : List Text) (identity : Identity)
      → verify sha256 decode_header decode_claims is_signed config now later key raw
        ≡ ok (roles, identity)
      → IsVerified config now later key raw roles identity
  unfolding verify check_claims
  verify-IsVerified config now later key raw roles identity h =
      let ((head, payload, signature), split, h₁) =
        >>=-or_refuse _ (three_segments (split_dots [] raw)) _ h in
      let (header, decoded, h₂) = >>=-or_refuse _ (decode_header head) _ h₁ in
      let (good, h₃) =
        >>=-fail_if (not (same_text header.algorithm (codes "RS256")) || is_empty header.key_id) _
          header _ h₂ in
      let (signing_key, known, h₄) = >>=-or_refuse _ (key header.key_id) _ h₃ in
      let (signed, h₅) =
        >>=-fail_if (not (is_signed signing_key head payload signature)) _ payload _ h₄ in
      let (claims, readable, h₆) = >>=-or_refuse _ (decode_claims payload) _ h₅ in
      let (issuer, h₇) =
        >>=-fail_if (not (same_text (trim_slashes claims.issuer) config.issuer)) _ claims _ h₆ in
      let (live, h₈) = >>=-fail_if (is_expired now claims.expires_at) _ claims _ h₇ in
      let (active, h₉) = >>=-fail_if (is_early later claims.not_before) _ claims _ h₈ in
      let (audience, it) =
        fail_if-ok (not (audience_contains claims.audience config.audience)) _ _ (roles, identity)
          h₉ in
      record {
        head = head;
        payload = payload;
        signature = signature;
        header = header;
        signing_key = signing_key;
        claims = claims;
        segments = three_segments-some (split_dots [] raw) head payload signature split;
        header_is = decoded;
        algorithm = same_text→≡ header.algorithm (codes "RS256") (first_false _ _ good);
        key_is = known;
        signed = passed _ signed;
        claims_are = readable;
        issuer = same_text→≡ (trim_slashes claims.issuer) config.issuer (passed _ issuer);
        live = live;
        active = active;
        audience = passed _ audience;
        roles_are = sym (ap (λ r. r.0) it);
        identity_is = sym (ap (λ r. r.1) it);
      }

  -- How a caller may have been let in.
  pub data IsGranted (a : TokenAuth) (now later : ℕ) (key : Text → Option Key) (header : Text)
      (allowed : List Text) (identity : Identity) : Type 0 where
    unguarded :
        enabled a ≡ false → identity ≡ nobody → IsGranted a now later key header allowed identity
    by_digest :
        (token : Text)
        → bearer_token header ≡ some token
        → is_empty a.expected_digest ≡ false
        → sha256 token ≡ a.expected_digest
        → identity.kind ≡ static
        → IsGranted a now later key header allowed identity
    by_token :
        (token : Text) (config : JwtConfig) (roles : List Text)
        → bearer_token header ≡ some token
        → a.verifier ≡ some config
        → IsVerified config now later key token roles identity
        → (is_none_allowed allowed || has_role allowed roles) ≡ true
        → IsGranted a now later key header allowed identity

  both :
      {d : Decision} {i j : Identity}
      → ◌≡◌ {A = Decision × Identity} (d, i) (authorized, j)
      → (d ≡ authorized) × (i ≡ j)
  both h = (ap (λ p. p.0) h, ap (λ p. p.1) h)

  nobody_in :
      {j : Identity} → ◌≡◌ {A = Decision × Identity} (unauthorized, nobody) (authorized, j) → ⊥
  nobody_in h = let refused = (both h).0 in cc

  decide-authorized :
      (allowed : List Text) (answer : Result Refusal (List Text × Identity)) (identity : Identity)
      → decide allowed answer ≡ (authorized, identity)
      → (roles : List Text) × (answer ≡ ok (roles, identity))
        × ((is_none_allowed allowed || has_role allowed roles) ≡ true)
  decide-authorized allowed (err refusal) identity h = absurd (nobody_in h)
  decide-authorized allowed (ok (roles, who)) identity h =
      elim (Bool-cases (is_none_allowed allowed || has_role allowed roles)) [
        | inl fits ↦
            (let same : who ≡ identity = (both (rw fits at h)).1 in
              (roles, ap (λ w. ok (roles, w)) same, fits))
        | inr refused ↦ (let never : forbidden ≡ authorized = (both (rw refused at h)).0 in cc)
      ]

  check_digest-authorized :
      (expected token : Text) (identity : Identity)
      → check_digest sha256 decode_header decode_claims is_signed expected token
        ≡ (authorized, identity)
      → (sha256 token ≡ expected) × (identity.kind ≡ static)
  check_digest-authorized expected token identity h =
      elim (Bool-cases (same_text (sha256 token) expected)) [
        | inl same ↦ (
          same_text→≡ (sha256 token) expected same,
          sym (ap (λ i. i.kind) (both (rw same at h)).1),
        )
        | inr differs ↦ absurd (nobody_in (rw differs at h))
      ]

  check_token-IsGranted :
      (a : TokenAuth) (now later : ℕ) (key : Text → Option Key) (header : Text)
      (allowed : List Text) (identity : Identity) (bearer : Option Text)
      → bearer_token header ≡ bearer
      → check_token sha256 decode_header decode_claims is_signed a now later key allowed bearer
        ≡ (authorized, identity)
      → IsGranted a now later key header allowed identity
  check_token-IsGranted a now later key header allowed identity none bears h = absurd (nobody_in h)
  check_token-IsGranted a now later key header allowed identity (some token) bears h =
      elim (Bool-cases (is_empty a.expected_digest)) [
        | inr digest ↦
            (let (same, kind) =
                check_digest-authorized a.expected_digest token identity (rw digest at h) in
              by_digest token bears digest same kind)
        | inl no_digest ↦ elim (Option-cases a.verifier) [
          | inl missing ↦ absurd (nobody_in (rw (no_digest, missing) at h))
          | inr (config, verifier) ↦
              (let (roles, verified, fits) =
                  decide-authorized allowed
                    (verify sha256 decode_header decode_claims is_signed config now later key token)
                    identity (rw (no_digest, verifier) at h) in
                by_token token config roles bears verifier
                  (verify-IsVerified config now later key token roles identity verified) fits)
        ]
      ]

  -- A caller is authorised only where authentication is off, where the hash of the bearer token is the
  -- digest that is configured, or where the bearer token is a JSON web token with algorithm RS256 that
  -- is signed with the key of its key identifier, that has the issuer and the audience of the
  -- configuration, has not expired and is active, and that gives the client of the configuration one of
  -- the roles allowed, where any are listed. The identity is that of the token.
  pub authorize_identity-IsGranted :
      (a : TokenAuth) (now later : ℕ) (key : Text → Option Key) (header : Text)
      (allowed : List Text) (identity : Identity)
      → authorize_identity sha256 decode_header decode_claims is_signed a now later key header
          allowed
        ≡ (authorized, identity)
      → IsGranted a now later key header allowed identity
  unfolding authorize_identity
  authorize_identity-IsGranted a now later key header allowed identity h =
      elim (Bool-cases (enabled a)) [
        | inr off ↦ unguarded off (sym (both (rw off at h)).1)
        | inl on ↦
            check_token-IsGranted a now later key header allowed identity (bearer_token header) refl
              (rw on at h)
      ]
