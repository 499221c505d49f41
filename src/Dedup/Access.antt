-- ===== src/Dedup/Access.antt =====
-- The links to artifacts that Access of workspace.go hands out.
use integration_console.Prelude.{
  passed, ◌≡◌, ◌≢◌, refl, subst, ◌⊎◌, inl, inr, Bool, true, false, not, ◌&&◌, ◌||◌, Option, none,
  some, List, [], ◌∷◌, ok, >>=-eq-ok, >>=-fail_if, fail_if-ok, Text, codes, same_text, same_text→≡,
  is_empty,
}
use integration_console.Dedup.{validation, unavailable, Options, valid_id, Exchange, exchange}
use integration_console.Dedup.Workspace.{
  Manifest, Artifact, ArtifactAccess, WorkspaceRun, Field, Url, valid_artifact, scoped_body,
  mutation_fields, artifact, access, access_url, is_reachable,
}
use integration_console.Dedup.Scope.{>>=-or_error, both_true}

-- A URL with a host, neither user nor fragment, over HTTPS, or over HTTP to the local host.
pub record IsLink (url : Url) : Type 0 where
  pub host : url.host ≢ []
  pub user : url.has_user ≡ false
  pub fragment : url.fragment ≡ []
  pub scheme :
      (url.scheme ≡ codes "https")
      ⊎ ((url.scheme ≡ codes "http")
          × ((url.hostname ≡ codes "localhost") ⊎ (url.hostname ≡ codes "127.0.0.1")))

empty→≡ : (s : Text) → is_empty s ≡ true → s ≡ []
empty→≡ [] h = refl
empty→≡ (c ∷ s) h = cc

filled : (s : Text) → is_empty s ≡ false → s ≢ []
filled [] h e = cc
filled (c ∷ s) h e = cc

four :
    (a b c d : Bool) → (a && b && c && d) ≡ true → (a ≡ true) × (b ≡ true) × (c ≡ true) × (d ≡ true)
four true true true true h = (refl, refl, refl, refl)
four false b c d h = cc
four true false c d h = cc
four true true false d h = cc
four true true true false h = cc

either : (a b : Bool) → (a || b) ≡ true → (a ≡ true) ⊎ (b ≡ true)
either true b h = inl refl
either false b h = inr h

both : (a b : Bool) → (a && b) ≡ true → (a ≡ true) × (b ≡ true)
both true b h = (refl, h)
both false b h = cc

undo : (b : Bool) → not b ≡ true → b ≡ false
undo true h = cc
undo false h = refl

reachable-IsLink : (o : Option Url) → is_reachable o ≡ true → (u : Url) × (o ≡ some u) × IsLink u
reachable-IsLink none h = cc
reachable-IsLink (some u) h =
    let (host, user, fragment, scheme) =
      four (not (is_empty u.host)) (not u.has_user) (is_empty u.fragment) _ h in
    (
      u,
      refl,
      record {
        host = filled u.host (undo (is_empty u.host) host);
        user = undo u.has_user user;
        fragment = empty→≡ u.fragment fragment;
        scheme = elim (either _ _ scheme) [
          | inl https ↦ inl (same_text→≡ u.scheme (codes "https") https)
          | inr http ↦
              (let (plain, near) = both _ _ http in
                inr (
                  same_text→≡ u.scheme (codes "http") plain,
                  elim (either _ _ near) [
                    | inl name ↦ inl (same_text→≡ u.hostname (codes "localhost") name)
                    | inr address ↦ inr (same_text→≡ u.hostname (codes "127.0.0.1") address)
                  ],
                ))
        ];
      },
    )

module _ (is_json : Text → Bool) (parse_url : Text → Option Url)
    (decode_manifest : Text → Option Manifest) (decode_run : Text → Option WorkspaceRun)
    (decode_artifact : Text → Option Artifact) (decode_access : Text → Option ArtifactAccess)
    (encode : List (Text × Field) → Text) where
  -- Links to an artifact are handed out only for an artifact of the deployment's scope that has the
  -- identifier asked for; and the download link, or where that is empty the other link, parses to a URL with a
  -- host and neither user nor fragment, over HTTPS, or over HTTP to localhost or 127.0.0.1.
  pub access-IsLink :
      (options : Options) (id : Text) (first second : Exchange) (links : ArtifactAccess)
      → access is_json parse_url decode_manifest decode_run decode_artifact decode_access encode
          options id first second
        ≡ ok links
      → ((u : Url) × (parse_url (access_url links) ≡ some u) × IsLink u)
        × ((ref : Artifact) × (artifact is_json parse_url decode_manifest decode_run decode_artifact
                decode_access encode options id first
              ≡ ok ref)
            × (valid_artifact options ref ≡ true)
            × (ref.artifact_id ≡ id))
  unfolding access artifact
  access-IsLink options id first second links h =
      let (ref, seen, h₁) =
        >>=-eq-ok
          (artifact is_json parse_url decode_manifest decode_run decode_artifact decode_access
            encode options id first)
          _ h in
      let (bytes, _, h₂) =
        >>=-eq-ok
          (exchange is_json options (encode (scoped_body options (mutation_fields []))) second) _
          h₁ in
      let (given, _, h₃) = >>=-or_error unavailable (decode_access bytes) _ h₂ in
      let (reachable, it) =
        fail_if-ok (not (is_reachable (parse_url (access_url given)))) unavailable given links h₃ in
      let (_, k₁) = >>=-fail_if (not (valid_id id)) validation id _ seen in
      let (content, _, k₂) = >>=-eq-ok (exchange is_json options [] first) _ k₁ in
      let (found, _, k₃) = >>=-or_error unavailable (decode_artifact content) _ k₂ in
      let (checked, same) =
        fail_if-ok (not (valid_artifact options found) || not (same_text found.artifact_id id))
          unavailable found ref k₃ in
      let (valid, named) = both_true _ _ checked in
      (
        reachable-IsLink (parse_url (access_url links)) (
            subst (λ links. is_reachable (parse_url (access_url links)) ≡ true) it
              (passed _ reachable)),
        (
          ref,
          seen,
          subst (λ ref. valid_artifact options ref ≡ true) same valid,
          subst (λ ref. ref.artifact_id ≡ id) same (same_text→≡ found.artifact_id id named),
        ),
      )
