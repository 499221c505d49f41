-- ===== src/Worker/Store.antt =====
-- What one transaction of atheros-search/internal/worker reads and writes: guardCompletion of
-- scope.go, insertVector of lease.go, storeCompletion and storeCompletions of worker.go. A vector is
-- of any type, with the test that embed.ValidateVector makes of it at 768 dimensions.
pub mod Completion
use integration_console.Prelude.{
  ℕ, Bool, true, false, ◌&&◌, not, Option, none, some, String, str_eq, List, [], ◌∷◌, ltb, ◌==◌,
  if◌then◌else◌, Result, ok, err, ◌>>=◌, length,
}
use integration_console.Worker.Jobs.{
  Row, Job, Times, Failure, lease_lost, input_changed, document_unavailable, unknown_kind,
  invalid_vector, count_mismatch, is_leased, owns, complete_job, affected,
}
use integration_console.Worker.Claim.{
  Document, Outside, find_document, contains, embedding_kind_for_source,
}

-- A row of atheros_search.embeddings, and one of the four tables search_vectors_…
pub record Embedding (V : Type 0) : Type 0 where
  pub document_id : String
  pub embedding_kind : String
  pub embedding_model : String
  pub input_revision : String
  pub content_sha256 : String
  pub vector : V

pub record Store (V : Type 0) : Type 0 where
  pub rows : List Row
  pub documents : List Document
  pub embeddings : List (Embedding V)
  pub vectors : List (Embedding V)

-- normalizeEmbeddingKind.
unfoldable pub normalize_embedding_kind : String → Option String
unfolding contains
normalize_embedding_kind kind =
    if str_eq kind "event"
    then some "event"
    else if str_eq kind "device"
    then some "device"
    else if contains kind ("behaviour" ∷ "behavior" ∷ "behaviour_window" ∷ "behavior_window" ∷ [])
    then some "behaviour"
    else if contains kind ("sequence" ∷ "frame_sequence" ∷ [])
    then some "sequence"
    else none

-- vectorTableForKind.
unfoldable pub vector_table_for_kind : String → Option String
vector_table_for_kind kind =
    if str_eq kind "event"
    then some "search_vectors_event"
    else if str_eq kind "device"
    then some "search_vectors_device"
    else if str_eq kind "behaviour"
    then some "search_vectors_behaviour"
    else if str_eq kind "sequence"
    then some "search_vectors_sequence"
    else none

abbrev pub or_legacy : String → String
or_legacy revision = if str_eq revision "" then "legacy_unknown" else revision

-- The row that guardCompletion locks: the lease, and the input that the job was claimed for.
unfoldable pub holds_input : Job → Times → Row → Bool
unfolding owns
holds_input j t r =
    owns j t.clock r
    && (str_eq r.document_id j.document_id
        && (str_eq r.content_sha256 j.content_sha256
            && (str_eq r.embedding_model j.embedding_model
                && (str_eq r.input_revision (or_legacy j.input_revision)
                    && str_eq r.embedding_kind j.embedding_kind))))

unfoldable pub document_matches : Outside → Document → Job → Bool
unfolding embedding_kind_for_source
document_matches o d j =
    str_eq d.normalized_sha256 j.content_sha256
    && (str_eq (o.text_checksum d.normalized_text) d.normalized_sha256
        && (str_eq (or_legacy j.input_revision) d.input_revision
            && str_eq (embedding_kind_for_source d.source_kind) j.embedding_kind))

abbrev check : Bool → Failure → Result Failure (Unit {0})
check true e = ok tt
check false e = err e

-- The document must be active and unchanged, then the lease must still be held.
unfoldable pub guard_document : Outside → Option Document → Job → Result Failure (Unit {0})
guard_document o none j = err document_unavailable
guard_document o (some d) j =
    if str_eq d.status "active"
    then check (document_matches o d j) input_changed
    else err document_unavailable

unfoldable pub guard_completion :
    {V : Type 0} → Outside → Times → Job → Store V → Result Failure (Unit {0})
guard_completion o t j s = guard_document o (find_document j.document_id s.documents) j >>= λ _.
    check (not (affected (holds_input j t) s.rows == 0)) lease_lost

-- INSERT … ON CONFLICT (key) DO UPDATE: the vector, and the checksum of what it was made from.
unfoldable pub same_key : {V : Type 0} → Embedding V → Embedding V → Bool
same_key a b =
    str_eq a.document_id b.document_id
    && (str_eq a.embedding_kind b.embedding_kind
        && (str_eq a.embedding_model b.embedding_model && str_eq a.input_revision b.input_revision))

unfoldable pub upsert : {V : Type 0} → Embedding V → List (Embedding V) → List (Embedding V)
upsert e [] = e ∷ []
upsert e (x ∷ xs) =
    if same_key x e
    then record x { vector = e.vector; content_sha256 = e.content_sha256 } ∷ xs
    else x ∷ upsert e xs

-- What insertVector stores for a job, under the kind that normalizeEmbeddingKind gave.
abbrev pub embedding_of : {V : Type 0} → Job → String → V → Embedding V
embedding_of j kind v = record {
  document_id = j.document_id;
  embedding_kind = kind;
  embedding_model = j.embedding_model;
  input_revision = or_legacy j.input_revision;
  content_sha256 = j.content_sha256;
  vector = v;
}

module _ {V : Type 0} (valid : V → Bool) where
  -- insertVector: both stores, or an error. The table of a kind is named by the kind.
  unfoldable pub insert_vector : Job → String → V → Store V → Result Failure (Store V)
  insert_vector j kind v s =
      if not (valid v) then err invalid_vector else elim (vector_table_for_kind kind) [
        | none ↦ err unknown_kind
        | some table ↦ ok (record s {
          embeddings = upsert (embedding_of j kind v) s.embeddings;
          vectors = upsert (embedding_of j table v) s.vectors;
        })
      ]

  unfoldable pub finish_row : Times → Job → Store V → Result Failure (Store V)
  finish_row t j s = complete_job t j s.rows >>= λ rows. ok (record s { rows = rows })

  abbrev kind_of : Job → Result Failure String
  kind_of j = elim (normalize_embedding_kind j.embedding_kind) [
    | none ↦ err unknown_kind
    | some kind ↦ ok kind
  ]

  -- storeCompletion, up to the commit.
  unfoldable pub store_completion : Outside → Times → Job → V → Store V → Result Failure (Store V)
  store_completion o t j v s = do
    kind ← kind_of j
    _ ← guard_completion o t j s
    stored ← insert_vector j kind v s
    finish_row t j stored

  -- The body of the loop of storeCompletions, which checks the guard first.
  unfoldable pub store_one : Outside → Times → Job → V → Store V → Result Failure (Store V)
  store_one o t j v s = do
    _ ← guard_completion o t j s
    kind ← kind_of j
    stored ← insert_vector j kind v s
    finish_row t j stored

  unfoldable pub store_each :
      Outside → Times → List Job → List V → Store V → Result Failure (Store V)
  store_each o t (j ∷ js) (v ∷ vs) s = store_one o t j v s >>= λ s'. store_each o t js vs s'
  store_each o t _ _ s = ok s

  -- storeCompletions, up to the commit: an error rolls the whole group back.
  unfoldable pub store_completions :
      Outside → Times → List Job → List V → Store V → Result Failure (Store V)
  unfolding store_each
  store_completions o t js vs s =
      if length js == length vs then store_each o t js vs s else err count_mismatch
