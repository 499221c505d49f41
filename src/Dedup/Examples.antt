-- ===== src/Dedup/Examples.antt =====
-- Runs of the theorems on a manager with one run and one artifact.
use integration_console.Prelude.{
  ◌≡◌, ◌≢◌, refl, Bool, true, false, Option, none, some, List, [], ◌∷◌, pos, ok, Text, codes,
  get_entry,
}
use integration_console.Dedup.{Options, valid_id, Exchange, answered, exchange}
use integration_console.Dedup.Workspace.{
  Manifest, Artifact, WorkspaceRun, Value, Field, string, Admission, Url, valid_artifact,
  valid_sha256, all_valid, workspace_run, admit_processor, inspect, replay, artifact, access,
  access_url, ArtifactAccess,
}
use integration_console.Dedup.Parameters.{IsScoped}
use integration_console.Dedup.Scope.{
  IsTrusted, IsSameWork, admit_processor-IsTrusted, replay-IsTrusted,
}
use integration_console.Dedup.Access.{IsLink, access-IsLink}

abbrev site : Options
site = record {
  enabled = true;
  installation_id = codes "home";
  namespace = codes "lab";
  remote_origin = [];
}

abbrev is_json : Text → Bool
is_json t = true

abbrev parse_url : Text → Option Url
parse_url t = some (record {
  scheme = codes "https";
  host = codes "store";
  hostname = codes "store";
  has_user = false;
  path = [];
  raw_path = [];
  raw_query = [];
  fragment = [];
})

abbrev no_manifest : Text → Option Manifest
no_manifest t = none

-- The manager's answers name a run by what stands in the body.
abbrev read_run : Text → Option WorkspaceRun
read_run t = some (record {
  run_id = t;
  installation_id = codes "home";
  namespace = codes "lab";
  processor_id = codes "p";
  processor_version = codes "v1";
  operation = codes "scan";
  input_refs = [];
  output_refs = [];
})

abbrev run_named : Text → WorkspaceRun
run_named id = record {
  run_id = id;
  installation_id = codes "home";
  namespace = codes "lab";
  processor_id = codes "p";
  processor_version = codes "v1";
  operation = codes "scan";
  input_refs = [];
  output_refs = [];
}

abbrev stored : Artifact
stored = record {
  artifact_id = codes "a1";
  installation_id = codes "home";
  namespace = codes "lab";
  version_id = codes "1";
  sha256 = codes "000102030405060708090a0b0c0d0e0f101112131415161718191A1B1C1D1E1F";
  size_bytes = pos 4;
  producer_run_id = codes "r1";
}

abbrev read_artifact : Text → Option Artifact
read_artifact t = some stored

abbrev some_links : ArtifactAccess
some_links = record { download_url = []; url = codes "https://store/a1"; expires_at = [] }

abbrev read_access : Text → Option ArtifactAccess
read_access t = some some_links

abbrev encode : List (Text × Field) → Text
encode fields = []

abbrev scan : Admission
scan = record {
  processor_id = codes "p";
  processor_version = codes "v1";
  operation = codes "scan";
  parameters = some ((codes "authorized_scope", string (codes "*")) ∷ []);
  idempotency_key = codes "once";
}

abbrev says : Text → Exchange
says t = answered 200 (some t)

admit_processor-IsTrusted_example :
    IsTrusted site (run_named (codes "r1"))
    × IsSameWork (codes "p") (codes "v1") (codes "scan") (run_named (codes "r1"))
    × ((parameters : List (Text × Value)) × (scan.parameters ≡ some parameters)
        × IsScoped parameters)
unfolding admit_processor workspace_run exchange valid_id all_valid get_entry
admit_processor-IsTrusted_example =
    admit_processor-IsTrusted is_json parse_url no_manifest read_run read_artifact read_access
      encode site scan (says (codes "r1")) (run_named (codes "r1")) refl

replay-IsTrusted_example :
    IsTrusted site (run_named (codes "r2"))
    × ((run_named (codes "r2")).run_id ≢ codes "r1")
    × ((source : WorkspaceRun) × (inspect is_json parse_url no_manifest read_run read_artifact
            read_access encode site
            (codes "r1")
            (says (codes "r1"))
          ≡ ok source)
        × IsTrusted site source
        × IsSameWork source.processor_id source.processor_version source.operation
            (run_named (codes "r2")))
unfolding replay inspect workspace_run exchange valid_id all_valid
replay-IsTrusted_example =
    replay-IsTrusted is_json parse_url no_manifest read_run read_artifact read_access encode site
      (codes "r1") (codes "again") (says (codes "r1")) (says (codes "r2")) (run_named (codes "r2"))
      refl

access-IsLink_example :
    ((u : Url) × (parse_url (access_url some_links) ≡ some u) × IsLink u)
    × ((ref : Artifact) × (artifact is_json parse_url no_manifest read_run read_artifact read_access
            encode site
            (codes "a1")
            (says [])
          ≡ ok ref)
        × (valid_artifact site ref ≡ true)
        × (ref.artifact_id ≡ codes "a1"))
unfolding access artifact exchange valid_id valid_artifact valid_sha256
access-IsLink_example =
    access-IsLink is_json parse_url no_manifest read_run read_artifact read_access encode site
      (codes "a1") (says []) (says []) some_links refl
