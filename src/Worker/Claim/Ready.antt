-- ===== src/Worker/Claim/Ready.antt =====
-- Which of the claimed jobs claimJobs of lease.go hands to the worker.
use integration_console.Prelude.{
  ◌+◌, ◌≡◌, refl, subst, ◌∙◌, inl, inr, true, Option, none, some, str_eq, str_eq_iff, List, [], ◌∷◌,
  All, length, Result, ok, err, arith, Option-cases,
}
use integration_console.Worker.Jobs.{Row, Job, Times, Failure, cancel_job}
use integration_console.Worker.Claim.{
  Document, Outside, ClaimRequest, Claimed, find_document, is_current, refusal, with_text, map_ok,
  add_ready, add_cancelled, screen, claim_jobs, claim_rows, is_selected, jobs_of,
  embedding_kind_for_source,
}

-- A job's document is there, active, unchanged since the job was made, and the text to embed is its.
pub record IsReady (o : Outside) (ds : List Document) (j : Job) : Type 0 where
  pub document : Document
  pub found : find_document j.document_id ds ≡ some document
  pub active : document.status ≡ "active"
  pub checksum : o.text_checksum j.normalized_text ≡ j.content_sha256
  pub revision : document.input_revision ≡ j.input_revision
  pub kind : embedding_kind_for_source document.source_kind ≡ j.embedding_kind
  pub text : j.normalized_text ≡ document.normalized_text

refusal-none :
    (o : Outside) (d : Document) (j : Job)
    → refusal o (some d) j ≡ none
    → (str_eq d.status "active" ≡ true)
      × (str_eq d.normalized_sha256 j.content_sha256 ≡ true)
      × (str_eq (o.text_checksum d.normalized_text) d.normalized_sha256 ≡ true)
      × (str_eq d.input_revision j.input_revision ≡ true)
      × (str_eq (embedding_kind_for_source d.source_kind) j.embedding_kind ≡ true)
unfolding refusal is_current
refusal-none o d j h = ground (arith)

refused : (o : Outside) (j : Job) → refusal o none j ≡ none → ⊥
unfolding refusal
refused o j h = cc

refusal-IsReady :
    (o : Outside) (ds : List Document) (j : Job) (m : Option Document)
    → find_document j.document_id ds ≡ m
    → refusal o m j ≡ none
    → IsReady o ds (with_text m j)
refusal-IsReady o ds j none e h = absurd (refused o j h)
refusal-IsReady o ds j (some d) e h =
    let facts = refusal-none o d j h in
    let same = (str_eq_iff d.normalized_sha256 j.content_sha256).0 facts.1 in
    record {
      document = d;
      found = e;
      active = (str_eq_iff d.status "active").0 facts.0;
      checksum =
          (str_eq_iff (o.text_checksum d.normalized_text) d.normalized_sha256).0 facts.2 ∙ same;
      revision = (str_eq_iff d.input_revision j.input_revision).0 facts.3;
      kind = (str_eq_iff (embedding_kind_for_source d.source_kind) j.embedding_kind).0 facts.4;
      text = refl;
    }

-- What the loop over the claimed jobs makes of them: each is ready or cancelled, and the ready ones
-- are fit to embed.
pub record IsScreened (o : Outside) (ds : List Document) (js : List Job) (c : Claimed)
    : Type 0 where
  pub ready : All (IsReady o ds) c.ready
  pub total : length c.ready + c.cancelled ≡ length js

-- The same for a loop that may have failed.
abbrev Screened : Outside → List Document → List Job → Result Failure Claimed → Type 0
Screened o ds js (ok c) = IsScreened o ds js c
Screened o ds js (err e) = Unit

Screened-add_ready :
    (o : Outside) (ds : List Document) (j : Job) (js : List Job) (m : Result Failure Claimed)
    → refusal o (find_document j.document_id ds) j ≡ none
    → Screened o ds js m
    → Screened o ds (j ∷ js) (map_ok (add_ready (with_text (find_document j.document_id ds) j)) m)
unfolding add_ready
Screened-add_ready o ds j js (ok c) h v = record {
  ready = (refusal-IsReady o ds j (find_document j.document_id ds) refl h, v.ready);
  total = omega (arith, v.total);
}
Screened-add_ready o ds j js (err e) h v = tt

Screened-add_cancelled :
    (o : Outside) (ds : List Document) (j : Job) (js : List Job) (m : Result Failure Claimed)
    → Screened o ds js m
    → Screened o ds (j ∷ js) (map_ok add_cancelled m)
unfolding add_cancelled
Screened-add_cancelled o ds j js (ok c) v = record {
  ready = v.ready;
  total = omega (arith, v.total);
}
Screened-add_cancelled o ds j js (err e) v = tt

screen-Screened :
    (o : Outside) (ds : List Document) (t : Times) (js : List Job) (rs : List Row)
    → Screened o ds js (screen o ds t js rs)
unfolding screen
screen-Screened o ds t [] rs = record { ready = tt; total = refl }
screen-Screened o ds t (j ∷ js) rs =
    elim (Option-cases (refusal o (find_document j.document_id ds) j)) [
      | inl fine ↦
          rw (fine, screen)
            (Screened-add_ready o ds j js (screen o ds t js rs) fine (screen-Screened o ds t js rs))
      | inr (message, bad) ↦
          rw (bad, screen) (after_cancel (cancel_job message t j rs) (screen-Screened o ds t js))
    ]
  where
    after_cancel :
        (m : Result Failure (List Row))
        → ((rs' : List Row) → Screened o ds js (screen o ds t js rs'))
        → Screened o ds
            (j ∷ js)
            (elim m [ err e ↦ err e | ok rs' ↦ map_ok add_cancelled (screen o ds t js rs') ])
    after_cancel (ok rs') ih = Screened-add_cancelled o ds j js (screen o ds t js rs') (ih rs')
    after_cancel (err e) ih = tt

-- A successful claim hands the worker only jobs whose document is present, active and unchanged,
-- with that document's text; these and the jobs that it counts as cancelled are together as many
-- as it claimed.
pub claim_jobs-IsScreened :
    (o : Outside) (q : ClaimRequest) (t : Times) (rs : List Row) (c : Claimed)
    → claim_jobs o q t rs ≡ ok c
    → IsScreened o q.documents (jobs_of o (is_selected o q t rs) rs) c
unfolding claim_jobs
claim_jobs-IsScreened o q t rs c h =
    let jobs = jobs_of o (is_selected o q t rs) rs in
    subst (Screened o q.documents jobs) h
      (screen-Screened o q.documents t jobs (claim_rows o q t rs))
