-- ===== src/Worker/Store/Completion.antt =====
-- What a completion of worker.go leaves behind, and that the batched one does no more than the
-- completions of its jobs one by one.
use integration_console.Prelude.{
  ◌≡◌, ◌≢◌, ◌↔◌, refl, sym, subst, ◌∙◌, inl, inr, Bool, true, false, Option, none, some, String,
  str_eq, str_eq_iff, List, [], ◌∷◌, Result, ok, err, ◌>>=◌, >>=-eq-ok, if◌then◌else◌, arith,
  Option-cases,
}
use integration_console.Worker.Jobs.{Job, Times, Failure, affected, complete_job}
use integration_console.Worker.Claim.{Document, Outside, find_document}
use integration_console.Worker.Store.{
  Embedding, Store, normalize_embedding_kind, vector_table_for_kind, holds_input, document_matches,
  guard_document, guard_completion, same_key, upsert, embedding_of, insert_vector, finish_row,
  store_completion, store_one, store_each, store_completions, check, kind_of, or_legacy,
}

pub find_embedding : {V : Type 0} → Embedding V → List (Embedding V) → Option (Embedding V)
find_embedding e [] = none
find_embedding e (x ∷ xs) = if same_key x e then some x else find_embedding e xs

abbrev pub vector_at : {V : Type 0} → Embedding V → List (Embedding V) → Option (V × String)
vector_at e xs = elim (find_embedding e xs) [
  | none ↦ none
  | some x ↦ some (x.vector, x.content_sha256)
]

same_key_refl : {V : Type 0} (e : Embedding V) → same_key e e ≡ true
unfolding same_key
same_key_refl e = ground (
  arith,
  str_eq_iff e.document_id e.document_id,
  str_eq_iff e.embedding_kind e.embedding_kind,
  str_eq_iff e.embedding_model e.embedding_model,
  str_eq_iff e.input_revision e.input_revision,
)

same_key-update :
    {V : Type 0} (x e : Embedding V)
    → same_key (record x { vector = e.vector; content_sha256 = e.content_sha256 }) e ≡ same_key x e
unfolding same_key
same_key-update x e = refl

vector_at-upsert :
    {V : Type 0} (e : Embedding V) (xs : List (Embedding V))
    → vector_at e (upsert e xs) ≡ some (e.vector, e.content_sha256)
unfolding upsert find_embedding
vector_at-upsert e [] = ground (arith, same_key_refl e)
vector_at-upsert e (x ∷ xs) = ground (arith, same_key-update x e, vector_at-upsert e xs)

-- What guardCompletion has seen when it passes.
pub record IsGuarded {V : Type 0} (o : Outside) (t : Times) (j : Job) (s : Store V) : Type 0 where
  pub document : Document
  pub found : find_document j.document_id s.documents ≡ some document
  pub active : document.status ≡ "active"
  pub checksum : o.text_checksum document.normalized_text ≡ j.content_sha256
  pub revision : document.input_revision ≡ or_legacy j.input_revision
  pub leased : affected (holds_input j t) s.rows ≢ 0

guard_document_facts :
    (o : Outside) (d : Document) (j : Job) (u : Unit {0})
    → guard_document o (some d) j ≡ ok u
    → (str_eq d.status "active" ≡ true)
      × (str_eq d.normalized_sha256 j.content_sha256 ≡ true)
      × (str_eq (o.text_checksum d.normalized_text) d.normalized_sha256 ≡ true)
      × (str_eq (or_legacy j.input_revision) d.input_revision ≡ true)
unfolding guard_document document_matches
guard_document_facts o d j u h = ground arith

guard_document-some :
    (o : Outside) (m : Option Document) (j : Job) (u : Unit {0})
    → guard_document o m j ≡ ok u
    → (d : Document) × (m ≡ some d)
unfolding guard_document
guard_document-some o none j u h = cc
guard_document-some o (some d) j u h = (d, refl)

check-eq-ok : (b : Bool) (e : Failure) (u : Unit {0}) → check b e ≡ ok u → b ≡ true
check-eq-ok true e u h = refl
check-eq-ok false e u h = cc

guard_completion-IsGuarded :
    {V : Type 0} (o : Outside) (t : Times) (j : Job) (s : Store V) (u : Unit {0})
    → guard_completion o t j s ≡ ok u
    → IsGuarded o t j s
unfolding guard_completion
guard_completion-IsGuarded o t j s u h =
    let (u', passed, held) =
      >>=-eq-ok (guard_document o (find_document j.document_id s.documents) j) _ h in
    let (d, e) = guard_document-some o (find_document j.document_id s.documents) j u' passed in
    let facts = guard_document_facts o d j u' (rw e at passed) in
    record {
      document = d;
      found = e;
      active = (str_eq_iff d.status "active").0 facts.0;
      checksum =
          (str_eq_iff (o.text_checksum d.normalized_text) d.normalized_sha256).0 facts.2
          ∙ (str_eq_iff d.normalized_sha256 j.content_sha256).0 facts.1;
      revision = sym ((str_eq_iff (or_legacy j.input_revision) d.input_revision).0 facts.3);
      leased = λ z. ground (arith, z, check-eq-ok _ _ u held);
    }

-- What a completion that succeeds has done: the input was current and the lease held; the row is
-- completed as completeJob does it; both stores hold the vector under the job's key, with the
-- checksum of the document's text; and no document has changed.
pub record IsStored {V : Type 0} (o : Outside) (t : Times) (j : Job) (v : V) (s s' : Store V)
    : Type 0 where
  pub guarded : IsGuarded o t j s
  pub kind : String
  pub table : String
  pub kind_known : normalize_embedding_kind j.embedding_kind ≡ some kind
  pub table_known : vector_table_for_kind kind ≡ some table
  pub row_done : complete_job t j s.rows ≡ ok s'.rows
  pub embedding : vector_at (embedding_of j kind v) s'.embeddings ≡ some (v, j.content_sha256)
  pub vector : vector_at (embedding_of j table v) s'.vectors ≡ some (v, j.content_sha256)
  pub documents : s'.documents ≡ s.documents

-- Two steps that do not read one another may be swapped, as far as success goes.
swap_steps :
    {E A B C : Type 0} (k : Result E A) (g : Result E B) (f : A → Result E C) (c : C)
    → ((g >>= λ b. k >>= f) ≡ ok c) ↔ ((k >>= λ a. g >>= λ b. f a) ≡ ok c)
swap_steps (ok a) (ok b) f c = (λ h. h, λ h. h)
swap_steps (ok a) (err e) f c = (λ h. h, λ h. h)
swap_steps (err e) (ok b) f c = (λ h. h, λ h. h)
swap_steps (err e) (err e') f c = (λ h. absurd (cc), λ h. absurd (cc))

module _ {V : Type 0} (valid : V → Bool) (o : Outside) (t : Times) (j : Job) (v : V) where
  insert_vector-eq-ok :
      (kind : String) (s s' : Store V)
      → insert_vector valid j kind v s ≡ ok s'
      → (table : String) × (vector_table_for_kind kind ≡ some table)
        × (valid v ≡ true)
        × (s' ≡ record s {
          embeddings = upsert (embedding_of j kind v) s.embeddings;
          vectors = upsert (embedding_of j table v) s.vectors;
        })
  unfolding insert_vector
  insert_vector-eq-ok kind s s' h = elim (Option-cases (vector_table_for_kind kind)) [
    | inl missing ↦ absurd (ground (arith, missing))
    | inr (table, e) ↦ (table, e, ground (arith, e), ground (arith, e))
  ]

  kind_of-eq-ok :
      (kind : String)
      → kind_of valid j ≡ ok kind
      → normalize_embedding_kind j.embedding_kind ≡ some kind
  kind_of-eq-ok kind h = ground arith

  finish_row-eq-ok :
      (s s' : Store V)
      → finish_row valid t j s ≡ ok s'
      → (complete_job t j s.rows ≡ ok s'.rows) × (s' ≡ record s { rows = s'.rows })
  unfolding finish_row
  finish_row-eq-ok s s' h =
      let (rows, e, same) = >>=-eq-ok (complete_job t j s.rows) _ h in
      (ground (arith, e, same), ground (arith, same))

  stored :
      (kind : String) (u : Unit {0}) (s m s' : Store V)
      → kind_of valid j ≡ ok kind
      → guard_completion o t j s ≡ ok u
      → insert_vector valid j kind v s ≡ ok m
      → finish_row valid t j m ≡ ok s'
      → IsStored o t j v s s'
  stored kind u s m s' k g i f =
      let (table, known, fine, made) = insert_vector-eq-ok kind s m i in
      let (done, kept) = finish_row-eq-ok m s' f in
      record {
        guarded = guard_completion-IsGuarded o t j s u g;
        kind = kind;
        table = table;
        kind_known = kind_of-eq-ok kind k;
        table_known = known;
        row_done = ground (arith, done, made);
        embedding =
            subst (λ xs. vector_at (embedding_of j kind v) xs ≡ some (v, j.content_sha256))
              (ground (arith, kept, made)) (vector_at-upsert (embedding_of j kind v) s.embeddings);
        vector =
            subst (λ xs. vector_at (embedding_of j table v) xs ≡ some (v, j.content_sha256))
              (ground (arith, kept, made)) (vector_at-upsert (embedding_of j table v) s.vectors);
        documents = ground (arith, kept, made);
      }

  -- A completion that succeeds had its lease and an active document with the checksum and revision
  -- of its job, has put that vector into both stores under the job's key, has completed the row as
  -- completeJob does, and has changed no document.
  pub store_completion-IsStored :
      (s s' : Store V) → store_completion valid o t j v s ≡ ok s' → IsStored o t j v s s'
  unfolding store_completion
  store_completion-IsStored s s' h =
      let (kind, k, h1) = >>=-eq-ok (kind_of valid j) _ h in
      let (u, g, h2) = >>=-eq-ok (guard_completion o t j s) _ h1 in
      let (m, i, f) = >>=-eq-ok (insert_vector valid j kind v s) _ h2 in
      stored kind u s m s' k g i f

  -- One job of a batch succeeds exactly where it would alone, with the same result.
  pub store_one_iff :
      (s s' : Store V)
      → (store_one valid o t j v s ≡ ok s') ↔ (store_completion valid o t j v s ≡ ok s')
  unfolding store_one store_completion
  store_one_iff s s' =
      swap_steps (kind_of valid j) (guard_completion o t j s)
        (λ kind. insert_vector valid j kind v s >>= λ m. finish_row valid t j m) s'

-- The fallback of the batch: each job by itself.
pub per_job :
    {V : Type 0}
    → (V → Bool)
    → Outside
    → Times
    → List Job
    → List V
    → Store V
    → Result Failure (Store V)
per_job valid o t (j ∷ js) (v ∷ vs) s =
    store_completion valid o t j v s >>= λ s'. per_job valid o t js vs s'
per_job valid o t _ _ s = ok s

store_each-per_job :
    {V : Type 0} (valid : V → Bool) (o : Outside) (t : Times) (js : List Job) (vs : List V)
    (s s' : Store V)
    → store_each valid o t js vs s ≡ ok s'
    → per_job valid o t js vs s ≡ ok s'
unfolding store_each per_job
store_each-per_job valid o t [] vs s s' h = h
store_each-per_job valid o t (j ∷ js) [] s s' h = h
store_each-per_job valid o t (j ∷ js) (v ∷ vs) s s' h =
    let (m, one, rest) = >>=-eq-ok (store_one valid o t j v s) _ h in
    rw ((store_one_iff valid o t j v s m).0 one) (store_each-per_job valid o t js vs m s' rest)

-- A batch that commits leaves what the completions of its jobs one by one, in order, would leave.
pub store_completions-per_job :
    {V : Type 0} (valid : V → Bool) (o : Outside) (t : Times) (js : List Job) (vs : List V)
    (s s' : Store V)
    → store_completions valid o t js vs s ≡ ok s'
    → per_job valid o t js vs s ≡ ok s'
unfolding store_completions
store_completions-per_job valid o t js vs s s' h =
    store_each-per_job valid o t js vs s s' (ground arith)
