-- ===== src/Dedup/Workspace.antt =====
-- The workspace of atheros-search/internal/dedup/workspace.go: processors, runs and artifacts of the DQ
-- manager, each answer checked against the deployment's scope. A body is the list of its fields.
use integration_console.Prelude.{
  Bool, true, false, not, ◌&&◌, ◌||◌, Option, none, some, List, [], ◌∷◌, ◌++◌, ℤ, pos, negsuc, ◌==◌,
  if◌then◌else◌, Result, ◌>>=◌, fail_if, Text, codes, same_text, is_empty, length, decode_hex,
  get_entry, set_entry,
}
use integration_console.Dedup.{
  AppError, validation, unavailable, Options, valid_id, Exchange, exchange, same_scope, or_error,
}

-- Remote
pub record Remote : Type 0 where
  pub immutable_url : Text
  pub bundle_digest : Text

-- Manifest, with what the checks read. The schema is `false` where it is no JSON object.
pub record Manifest : Type 0 where
  pub installation_id : Text
  pub namespace : Text
  pub processor_id : Text
  pub version : Text
  pub has_schema : Bool
  pub ui_remote : Option Remote

-- Artifact
pub record Artifact : Type 0 where
  pub artifact_id : Text
  pub installation_id : Text
  pub namespace : Text
  pub version_id : Text
  pub sha256 : Text
  pub size_bytes : ℤ
  pub producer_run_id : Text

-- WorkspaceRun
pub record WorkspaceRun : Type 0 where
  pub run_id : Text
  pub installation_id : Text
  pub namespace : Text
  pub processor_id : Text
  pub processor_version : Text
  pub operation : Text
  pub input_refs : List Artifact
  pub output_refs : List Artifact

-- A parameter of an admission: a string, or another value.
pub data Value : Type 0 where
  string : Text → Value
  other : Value

-- A field of a body.
pub data Field : Type 0 where
  plain : Text → Field
  nested : List (Text × Value) → Field

-- Admission. The parameters are `none` where they are absent.
pub record Admission : Type 0 where
  pub processor_id : Text
  pub processor_version : Text
  pub operation : Text
  pub parameters : Option (List (Text × Value))
  pub idempotency_key : Text

-- What url.Parse finds in a URL.
pub record Url : Type 0 where
  pub scheme : Text
  pub host : Text
  pub hostname : Text
  pub has_user : Bool
  pub path : Text
  pub raw_path : Text
  pub raw_query : Text
  pub fragment : Text

abbrev pub is_digest : Option Text → Bool
is_digest none = false
is_digest (some bytes) = length bytes == 32

-- validSHA256
unfoldable pub valid_sha256 : Text → Bool
unfolding decode_hex
valid_sha256 value = is_digest (decode_hex value)

abbrev pub is_negative : ℤ → Bool
is_negative (pos n) = false
is_negative (negsuc n) = true

-- validArtifact
unfoldable pub valid_artifact : Options → Artifact → Bool
unfolding valid_id valid_sha256
valid_artifact options ref =
    same_scope options ref.installation_id ref.namespace
    && valid_id ref.artifact_id
    && valid_id ref.producer_run_id
    && not (is_empty ref.version_id)
    && not (same_text ref.version_id (codes "null"))
    && not (is_negative ref.size_bytes)
    && valid_sha256 ref.sha256

unfoldable pub all_valid : Options → List Artifact → Bool
unfolding valid_artifact
all_valid options [] = true
all_valid options (ref ∷ refs) = valid_artifact options ref && all_valid options refs

-- scopedBody: the deployment's scope replaces any other.
unfoldable pub scoped_body : Options → List (Text × Field) → List (Text × Field)
unfolding set_entry
scoped_body options fields =
    set_entry (codes "namespace") (plain options.namespace)
      (set_entry (codes "installation_id") (plain options.installation_id) fields)

-- The fields of an Admission and of a Mutation.
abbrev pub admission_fields : Admission → List (Text × Value) → List (Text × Field)
admission_fields request parameters =
    (codes "processor_id", plain request.processor_id)
    ∷ (codes "processor_version", plain request.processor_version)
    ∷ (codes "operation", plain request.operation)
    ∷ (codes "parameters", nested parameters)
    ∷ (codes "idempotency_key", plain request.idempotency_key)
    ∷ []

abbrev pub mutation_fields : Text → List (Text × Field)
mutation_fields key = if is_empty key then [] else (codes "idempotency_key", plain key) ∷ []

abbrev pub is_given : Option Value → Bool
is_given none = false
is_given (some v) = true

-- The loop over the keys of the scope.
abbrev pub overrides_scope : List (Text × Value) → Bool
overrides_scope parameters =
    is_given (get_entry (codes "installation_id") parameters)
    || is_given (get_entry (codes "namespace") parameters)
    || is_given (get_entry (codes "execution_mode") parameters)

abbrev pub is_scope : Option Value → Bool
is_scope none = false
is_scope (some other) = false
is_scope (some (string scope)) = same_text scope (codes "*") || valid_id scope

abbrev pub is_dedup_other : Text → Text → Bool
is_dedup_other processor operation =
    same_text processor (codes "atheros.dedup")
    && not (same_text operation (codes "prepare_candidates"))

abbrev pub is_same_work : Text → Text → Text → WorkspaceRun → Bool
is_same_work processor version operation run =
    same_text run.processor_id processor
    && same_text run.processor_version version
    && same_text run.operation operation

abbrev pub is_reachable : Option Url → Bool
is_reachable none = false
is_reachable (some url) =
    not (is_empty url.host)
    && not url.has_user
    && is_empty url.fragment
    && (same_text url.scheme (codes "https")
        || (same_text url.scheme (codes "http")
            && (same_text url.hostname (codes "localhost")
                || same_text url.hostname (codes "127.0.0.1"))))

-- ArtifactAccess
pub record ArtifactAccess : Type 0 where
  pub download_url : Text
  pub url : Text
  pub expires_at : Text

-- The one of the two links that is checked.
abbrev pub access_url : ArtifactAccess → Text
access_url links = if is_empty links.download_url then links.url else links.download_url

module _ (is_json : Text → Bool) (parse_url : Text → Option Url)
    (decode_manifest : Text → Option Manifest) (decode_run : Text → Option WorkspaceRun)
    (decode_artifact : Text → Option Artifact) (decode_access : Text → Option ArtifactAccess)
    (encode : List (Text × Field) → Text) where
  abbrev pub is_remote : Options → Manifest → Remote → Option Url → Bool
  is_remote options m remote none = false
  is_remote options m remote (some url) =
      not url.has_user
      && same_text (url.scheme ++ codes "://" ++ url.host) options.remote_origin
      && is_empty url.raw_query
      && is_empty url.fragment
      && is_empty url.raw_path
      && valid_sha256 remote.bundle_digest
      && same_text url.path (
          codes "/"
          ++ m.processor_id
          ++ codes "/"
          ++ m.version
          ++ codes "/"
          ++ remote.bundle_digest
          ++ codes "/index.html")

  abbrev pub is_remote_valid : Options → Manifest → Option Remote → Bool
  is_remote_valid options m none = true
  is_remote_valid options m (some remote) =
      is_remote options m remote (parse_url remote.immutable_url)

  -- validManifest
  unfoldable pub valid_manifest : Options → Manifest → Bool
  unfolding valid_id valid_sha256
  valid_manifest options m =
      same_scope options m.installation_id m.namespace
      && valid_id m.processor_id
      && valid_id m.version
      && m.has_schema
      && is_remote_valid options m m.ui_remote

  -- Version
  unfoldable pub version_of : Options → Text → Text → Exchange → Result AppError Manifest
  unfolding valid_id exchange valid_manifest
  version_of options id version answer =
      fail_if (not (valid_id id) || not (valid_id version)) validation id >>= λ id.
      exchange is_json options [] answer >>= λ bytes.
      or_error unavailable (decode_manifest bytes) >>= λ m.
      fail_if
        (not (valid_manifest options m)
          || not (same_text m.processor_id id)
          || not (same_text m.version version))
        unavailable m

  -- workspaceRun
  unfoldable pub workspace_run : Options → Text → Text → Exchange → Result AppError WorkspaceRun
  unfolding exchange valid_id all_valid
  workspace_run options body expected answer = exchange is_json options body answer >>= λ bytes.
      or_error unavailable (decode_run bytes) >>= λ run.
      fail_if
        (not (same_scope options run.installation_id run.namespace)
          || not (valid_id run.run_id)
          || not (valid_id run.processor_id)
          || not (valid_id run.processor_version)
          || (not (is_empty expected) && not (same_text run.run_id expected)))
        unavailable run
      >>= λ run.
          fail_if (not (all_valid options (run.input_refs ++ run.output_refs))) unavailable run

  -- AdmitProcessor
  unfoldable pub admit_processor : Options → Admission → Exchange → Result AppError WorkspaceRun
  unfolding valid_id get_entry scoped_body workspace_run
  admit_processor options request answer =
      fail_if
        (not (valid_id request.processor_id)
          || not (valid_id request.processor_version)
          || not (valid_id request.operation)
          || not (valid_id request.idempotency_key))
        validation request
      >>= λ request. or_error validation request.parameters >>= λ parameters.
          fail_if (is_dedup_other request.processor_id request.operation) validation parameters
          >>= λ parameters.
              fail_if (overrides_scope parameters) validation parameters >>= λ parameters.
              fail_if (not (is_scope (get_entry (codes "authorized_scope") parameters))) validation
                parameters
              >>= λ parameters.
                  workspace_run options
                    (encode (scoped_body options (admission_fields request parameters))) [] answer
                  >>= λ run.
                      fail_if
                        (not (
                          is_same_work request.processor_id request.processor_version
                            request.operation run))
                        unavailable run

  -- Inspect
  unfoldable pub inspect : Options → Text → Exchange → Result AppError WorkspaceRun
  unfolding valid_id workspace_run
  inspect options id answer =
      fail_if (not (valid_id id)) validation id >>= λ id. workspace_run options [] id answer

  -- Cancel
  unfoldable pub cancel : Options → Text → Exchange → Result AppError WorkspaceRun
  unfolding valid_id scoped_body workspace_run
  cancel options id answer = fail_if (not (valid_id id)) validation id >>= λ id.
      workspace_run options (encode (scoped_body options (mutation_fields []))) id answer

  -- Replay, with the answers to its two exchanges.
  unfoldable pub replay : Options → Text → Text → Exchange → Exchange → Result AppError WorkspaceRun
  unfolding valid_id inspect scoped_body workspace_run
  replay options id key first second =
      fail_if (not (valid_id id) || not (valid_id key)) validation id >>= λ id.
      inspect options id first >>= λ source.
      fail_if (is_dedup_other source.processor_id source.operation) validation source >>= λ source.
      workspace_run options (encode (scoped_body options (mutation_fields key))) [] second
      >>= λ run.
          fail_if
            (same_text run.run_id id
              || not
                  (is_same_work source.processor_id source.processor_version source.operation run))
            unavailable run

  -- Artifact
  unfoldable pub artifact : Options → Text → Exchange → Result AppError Artifact
  unfolding valid_id exchange valid_artifact
  artifact options id answer = fail_if (not (valid_id id)) validation id >>= λ id.
      exchange is_json options [] answer >>= λ bytes.
      or_error unavailable (decode_artifact bytes) >>= λ ref.
      fail_if (not (valid_artifact options ref) || not (same_text ref.artifact_id id)) unavailable
        ref

  -- Access, with the answers to its two exchanges. Both links are passed on.
  unfoldable pub access : Options → Text → Exchange → Exchange → Result AppError ArtifactAccess
  unfolding artifact scoped_body exchange
  access options id first second = artifact options id first >>= λ ref.
      exchange is_json options (encode (scoped_body options (mutation_fields []))) second
      >>= λ bytes. or_error unavailable (decode_access bytes) >>= λ links.
          fail_if (not (is_reachable (parse_url (access_url links)))) unavailable links
