-- ===== src/Dedup/Scope.antt =====
-- The deployment's scope in workspace.go: no caller leaves it, and no answer from outside it is passed on.
use integration_console.Prelude.{
  passed, ◌≡◌, ◌≢◌, refl, ap, ◌∙◌, subst, inl, inr, Bool, true, false, not, ◌&&◌, ◌||◌, Option,
  none, some, List, [], ◌∷◌, ◌++◌, Result, ok, ◌>>=◌, >>=-eq-ok, >>=-fail_if, fail_if-ok, Text,
  codes, same_text, same_text→≡, same_text_refl, is_empty, get_entry, set_entry, if◌then◌else◌,
  arith, Bool-cases,
}
use integration_console.Dedup.{
  AppError, validation, unavailable, Options, valid_id, Exchange, exchange, same_scope, or_error,
}
use integration_console.Dedup.Workspace.{
  Manifest, Artifact, ArtifactAccess, WorkspaceRun, Value, Field, plain, Admission, Url, all_valid,
  scoped_body, admission_fields, mutation_fields, overrides_scope, is_scope, is_dedup_other,
  workspace_run, is_same_work, admit_processor, inspect, replay,
}
use integration_console.Dedup.Parameters.{IsScoped, parameters-IsScoped}

-- What a run that is passed on has.
pub record IsTrusted (options : Options) (run : WorkspaceRun) : Type 0 where
  pub installation : run.installation_id ≡ options.installation_id
  pub namespace : run.namespace ≡ options.namespace
  pub run_id : valid_id run.run_id ≡ true
  pub processor : valid_id run.processor_id ≡ true
  pub version : valid_id run.processor_version ≡ true
  pub artifacts : all_valid options (run.input_refs ++ run.output_refs) ≡ true

pub >>=-or_error :
    {A B : Type 0} (e : AppError) (o : Option A) (next : A → Result AppError B) {w : B}
    → (or_error e o >>= next) ≡ ok w
    → (a : A) × (o ≡ some a) × (next a ≡ ok w)
>>=-or_error e none next h = cc
>>=-or_error e (some a) next h = (a, refl, h)

same_scope→≡ :
    (options : Options) (installation namespace : Text)
    → same_scope options installation namespace ≡ true
    → (installation ≡ options.installation_id) × (namespace ≡ options.namespace)
same_scope→≡ options installation namespace h =
    let both : (same_text installation options.installation_id ≡ true)
        × (same_text namespace options.namespace ≡ true) =
      ground (arith, h) in
    (
      same_text→≡ installation options.installation_id both.0,
      same_text→≡ namespace options.namespace both.1,
    )

set_entry_same :
    {V : Type 0} (k : Text) (v : V) (es : List (Text × V)) → get_entry k (set_entry k v es) ≡ some v
unfolding get_entry set_entry
set_entry_same k v [] = rw (same_text_refl k) refl
set_entry_same k v ((l, w) ∷ es) = elim (Bool-cases (same_text l k)) [
  | inl same ↦ rw (same, same_text_refl k) refl
  | inr distinct ↦ rw (distinct, distinct) (set_entry_same k v es)
]

set_entry_other :
    {V : Type 0} (k l : Text) (v : V) (es : List (Text × V))
    → same_text l k ≡ false
    → get_entry k (set_entry l v es) ≡ get_entry k es
unfolding get_entry set_entry
set_entry_other k l v [] h = rw h refl
set_entry_other k l v ((m, w) ∷ es) h = elim (Bool-cases (same_text m l)) [
  | inl same ↦
      (let m_is = same_text→≡ m l same in
        let apart : same_text m k ≡ false = ap (λ t. same_text t k) m_is ∙ h in
        rw (same, h, apart) refl)
  | inr distinct ↦
      rw distinct (ap (λ z. if same_text m k then some w else z) (set_entry_other k l v es h))
]

-- Whatever fields a caller sends, the body has the installation and the namespace of the deployment.
scoped_body-scope :
    (options : Options) (fields : List (Text × Field))
    → (get_entry (codes "installation_id") (scoped_body options fields)
        ≡ some (plain options.installation_id))
      × (get_entry (codes "namespace") (scoped_body options fields)
          ≡ some (plain options.namespace))
unfolding scoped_body
scoped_body-scope options fields = (
  set_entry_other (codes "installation_id") (codes "namespace") (plain options.namespace)
        (set_entry (codes "installation_id") (plain options.installation_id) fields) refl
      ∙ set_entry_same (codes "installation_id") (plain options.installation_id) fields,
  set_entry_same (codes "namespace") (plain options.namespace)
      (set_entry (codes "installation_id") (plain options.installation_id) fields),
)

differs : (s t : Text) → same_text s t ≡ false → s ≢ t
differs s t h e =
    let same : same_text s t ≡ true = ap (λ s. same_text s t) e ∙ same_text_refl t in cc

new_and_same : (a b : Bool) → (a || not b) ≡ false → (a ≡ false) × (b ≡ true)
new_and_same true b h = cc
new_and_same false true h = (refl, refl)
new_and_same false false h = cc

pub both_true : (a b : Bool) → (not a || not b) ≡ false → (a ≡ true) × (b ≡ true)
both_true true true h = (refl, refl)
both_true true false h = cc
both_true false b h = cc

-- The five parts of the check of a run.
five :
    (a b c d : Bool) (e : Bool)
    → (not a || not b || not c || not d || e) ≡ false
    → (a ≡ true) × (b ≡ true) × (c ≡ true) × (d ≡ true)
five true true true true e h = (refl, refl, refl, refl)
five false b c d e h = cc
five true false c d e h = cc
five true true false d e h = cc
five true true true false e h = cc

abbrev pub IsSameWork : Text → Text → Text → WorkspaceRun → Type 0
IsSameWork processor version operation run =
    (run.processor_id ≡ processor) × (run.processor_version ≡ version) × (run.operation ≡ operation)

is_same_work→≡ :
    (processor version operation : Text) (run : WorkspaceRun)
    → is_same_work processor version operation run ≡ true
    → IsSameWork processor version operation run
is_same_work→≡ processor version operation run h =
    let (p, v, o) : (same_text run.processor_id processor ≡ true)
        × (same_text run.processor_version version ≡ true)
        × (same_text run.operation operation ≡ true) =
      ground (arith, h) in
    (
      same_text→≡ run.processor_id processor p,
      same_text→≡ run.processor_version version v,
      same_text→≡ run.operation operation o,
    )

module _ (is_json : Text → Bool) (parse_url : Text → Option Url)
    (decode_manifest : Text → Option Manifest) (decode_run : Text → Option WorkspaceRun)
    (decode_artifact : Text → Option Artifact) (decode_access : Text → Option ArtifactAccess)
    (encode : List (Text × Field) → Text) where
  workspace_run-IsTrusted :
      (options : Options) (body expected : Text) (answer : Exchange) (run : WorkspaceRun)
      → workspace_run is_json parse_url decode_manifest decode_run decode_artifact decode_access
          encode options body expected answer
        ≡ ok run
      → IsTrusted options run
  unfolding workspace_run
  workspace_run-IsTrusted options body expected answer run h =
      let (bytes, _, h₁) = >>=-eq-ok (exchange is_json options body answer) _ h in
      let (found, _, h₂) = >>=-or_error unavailable (decode_run bytes) _ h₁ in
      let (checked, h₃) =
        >>=-fail_if
          (not (same_scope options found.installation_id found.namespace)
            || not (valid_id found.run_id)
            || not (valid_id found.processor_id)
            || not (valid_id found.processor_version)
            || (not (is_empty expected) && not (same_text found.run_id expected)))
          unavailable found _ h₂ in
      let (refs, it) =
        fail_if-ok (not (all_valid options (found.input_refs ++ found.output_refs))) unavailable
          found run h₃ in
      let (scope, run_id, processor, version) =
        five (same_scope options found.installation_id found.namespace) (valid_id found.run_id)
          (valid_id found.processor_id) (valid_id found.processor_version) _ checked in
      let (installation, namespace) =
        same_scope→≡ options found.installation_id found.namespace scope in
      subst (IsTrusted options) it (record {
        installation = installation;
        namespace = namespace;
        run_id = run_id;
        processor = processor;
        version = version;
        artifacts = passed _ refs;
      })

  -- A run that an admission returns is in the deployment's scope with valid identifiers and artifacts, is of
  -- the processor, the version and the operation that were asked for, and the parameters of the
  -- admission name "*" or a valid identifier as the authorised scope, and neither an installation, nor a
  -- namespace, nor an execution mode.
  pub admit_processor-IsTrusted :
      (options : Options) (request : Admission) (answer : Exchange) (run : WorkspaceRun)
      → admit_processor is_json parse_url decode_manifest decode_run decode_artifact decode_access
          encode options request answer
        ≡ ok run
      → IsTrusted options run
        × IsSameWork request.processor_id request.processor_version request.operation run
        × ((parameters : List (Text × Value)) × (request.parameters ≡ some parameters)
            × IsScoped parameters)
  unfolding admit_processor
  admit_processor-IsTrusted options request answer run h =
      let (_, h₁) =
        >>=-fail_if
          (not (valid_id request.processor_id)
            || not (valid_id request.processor_version)
            || not (valid_id request.operation)
            || not (valid_id request.idempotency_key))
          validation request _ h in
      let (parameters, given, h₂) = >>=-or_error validation request.parameters _ h₁ in
      let (_, h₃) =
        >>=-fail_if (is_dedup_other request.processor_id request.operation) validation parameters _
          h₂ in
      let (scoped, h₄) = >>=-fail_if (overrides_scope parameters) validation parameters _ h₃ in
      let (authorised, h₅) =
        >>=-fail_if (not (is_scope (get_entry (codes "authorized_scope") parameters))) validation
          parameters _ h₄ in
      let (found, ran, h₆) =
        >>=-eq-ok
          (workspace_run is_json parse_url decode_manifest decode_run decode_artifact decode_access
            encode options (encode (scoped_body options (admission_fields request parameters))) []
            answer)
          _ h₅ in
      let (same, it) =
        fail_if-ok
          (not
            (is_same_work request.processor_id request.processor_version request.operation found))
          unavailable found run h₆ in
      (
        subst (IsTrusted options) it (
            workspace_run-IsTrusted options
              (encode (scoped_body options (admission_fields request parameters))) [] answer found
              ran),
        subst (IsSameWork request.processor_id request.processor_version request.operation) it (
            is_same_work→≡ request.processor_id request.processor_version request.operation found
              (passed _ same)),
        (parameters, given, parameters-IsScoped parameters scoped (passed _ authorised)),
      )

  inspect-IsTrusted :
      (options : Options) (id : Text) (answer : Exchange) (run : WorkspaceRun)
      → inspect is_json parse_url decode_manifest decode_run decode_artifact decode_access encode
          options id answer
        ≡ ok run
      → IsTrusted options run
  unfolding inspect
  inspect-IsTrusted options id answer run h =
      let (_, h₁) = >>=-fail_if (not (valid_id id)) validation id _ h in
      workspace_run-IsTrusted options [] id answer run h₁

  -- A run that a replay returns is in the deployment's scope, is another run than the one replayed, and is
  -- of the processor, the version and the operation of that run, which is in the scope too.
  pub replay-IsTrusted :
      (options : Options) (id key : Text) (first second : Exchange) (run : WorkspaceRun)
      → replay is_json parse_url decode_manifest decode_run decode_artifact decode_access encode
          options id key first second
        ≡ ok run
      → IsTrusted options run
        × (run.run_id ≢ id)
        × ((source : WorkspaceRun) × (inspect is_json parse_url decode_manifest decode_run
                decode_artifact decode_access encode options id first
              ≡ ok source)
            × IsTrusted options source
            × IsSameWork source.processor_id source.processor_version source.operation run)
  unfolding replay
  replay-IsTrusted options id key first second run h =
      let (_, h₁) = >>=-fail_if (not (valid_id id) || not (valid_id key)) validation id _ h in
      let (source, seen, h₂) =
        >>=-eq-ok
          (inspect is_json parse_url decode_manifest decode_run decode_artifact decode_access encode
            options id first)
          _ h₁ in
      let (_, h₃) =
        >>=-fail_if (is_dedup_other source.processor_id source.operation) validation source _ h₂ in
      let (found, ran, h₄) =
        >>=-eq-ok
          (workspace_run is_json parse_url decode_manifest decode_run decode_artifact decode_access
            encode options (encode (scoped_body options (mutation_fields key))) [] second)
          _ h₃ in
      let (checked, it) =
        fail_if-ok
          (same_text found.run_id id
            || not
                (is_same_work source.processor_id source.processor_version source.operation found))
          unavailable found run h₄ in
      let (apart, same) = new_and_same _ _ checked in
      (
        subst (IsTrusted options) it (
            workspace_run-IsTrusted options (encode (scoped_body options (mutation_fields key))) []
              second found ran),
        subst (λ run. run.run_id ≢ id) it (λ e. differs found.run_id id apart e),
        (
          source,
          seen,
          inspect-IsTrusted options id first source seen,
          subst (IsSameWork source.processor_id source.processor_version source.operation) it (
              is_same_work→≡ source.processor_id source.processor_version source.operation found
                same),
        ),
      )
