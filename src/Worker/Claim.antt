-- ===== src/Worker/Claim.antt =====
-- claimJobs and recoverExpiredLeases of atheros-search/internal/worker/lease.go, with scopeArgs and
-- embeddingKindForSource of scope.go. The statements choose rows by ORDER BY and LIMIT among those
-- that no other transaction has locked; the order in which claimed rows come back is the table's.
pub mod Ready
use Prim.Native.String.{◌++◌ as text_append}
use integration_console.Prelude.{
  ℕ, suc, ◌+◌, Bool, true, false, ◌&&◌, ◌||◌, not, Option, none, some, String, str_eq, List, [],
  ◌∷◌, ltb, leb, ◌==◌, if◌then◌else◌, Result, ok, err, ◌>>=◌, keep, take, length,
}
use integration_console.Worker.Jobs.{
  Row, Job, Times, Status, Failure, leased, is_pending, is_leased, expired_by, update_where,
  cancel_job, recovered_row,
}

-- A row of atheros_search.search_documents, whose key is document_id.
pub record Document : Type 0 where
  pub document_id : String
  pub normalized_text : String
  pub status : String
  pub normalized_sha256 : String
  pub input_revision : String
  pub source_kind : String

pub record JobScope : Type 0 where
  pub source_kinds : List String
  pub model : String
  pub input_revision : String

-- What the code takes from elsewhere: SHA-256 as a hexadecimal text, the database's order of ids,
-- its gen_random_uuid() for each row that is claimed, and which rows other transactions hold.
pub record Outside : Type 0 where
  pub text_checksum : String → String
  pub collates : String → String → Bool
  pub new_token : Row → String
  pub is_locked : Row → Bool

-- scopeArgs.
unfoldable pub scope_args : List JobScope → JobScope
scope_args [] = record { source_kinds = []; model = ""; input_revision = "legacy_unknown" }
scope_args (s ∷ rest) =
    if str_eq s.input_revision "" then record s { input_revision = "legacy_unknown" } else s

unfoldable pub contains : String → List String → Bool
contains s [] = false
contains s (x ∷ xs) = str_eq x s || contains s xs

-- EXISTS over the documents of one of the kinds.
unfoldable pub has_document_of : List String → String → List Document → Bool
unfolding contains
has_document_of kinds id [] = false
has_document_of kinds id (d ∷ ds) =
    (str_eq d.document_id id && contains d.source_kind kinds) || has_document_of kinds id ds

abbrev is_empty {ℓ} : {A : Type ℓ} → List A → Bool
is_empty [] = true
is_empty (x ∷ xs) = false

-- The part of the WHERE clause that the claim and the recovery share.
unfoldable pub in_scope : JobScope → List Document → Row → Bool
unfolding has_document_of
in_scope s ds r =
    (str_eq s.model "" || str_eq r.embedding_model s.model)
    && (str_eq r.input_revision s.input_revision
        && (is_empty s.source_kinds || has_document_of s.source_kinds r.document_id ds))

unfoldable pub claimable : JobScope → List Document → Times → Row → Bool
unfolding in_scope
claimable s ds t r =
    is_pending r.status
    && (leb r.next_attempt_at t.current && (ltb r.attempt_count r.max_attempts && in_scope s ds r))

-- ORDER BY priority ASC, next_attempt_at ASC, job_id ASC
unfoldable pub claims_before : Outside → Row → Row → Bool
claims_before o a b =
    if ltb a.priority b.priority
    then true
    else if ltb b.priority a.priority
    then false
    else if ltb a.next_attempt_at b.next_attempt_at
    then true
    else if ltb b.next_attempt_at a.next_attempt_at
    then false
    else o.collates a.job_id b.job_id

abbrev expiry : Row → ℕ
expiry r = elim r.lease_expires_at [ none ↦ 0 | some at ↦ at ]

-- ORDER BY lease_expires_at, job_id
unfoldable pub expires_before : Outside → Row → Row → Bool
expires_before o a b =
    if ltb (expiry a) (expiry b)
    then true
    else if ltb (expiry b) (expiry a)
    then false
    else o.collates a.job_id b.job_id

unfoldable pub insert_by : (Row → Row → Bool) → Row → List Row → List Row
insert_by before x [] = x ∷ []
insert_by before x (y ∷ ys) = if before x y then x ∷ y ∷ ys else y ∷ insert_by before x ys

unfoldable pub sort_by : (Row → Row → Bool) → List Row → List Row
unfolding insert_by
sort_by before [] = []
sort_by before (x ∷ xs) = insert_by before x (sort_by before xs)

abbrev pub ids : List Row → List String
ids [] = []
ids (r ∷ rs) = r.job_id ∷ ids rs

-- The ids that a common table expression with ORDER BY, FOR UPDATE SKIP LOCKED and LIMIT selects.
unfoldable pub select_ids : Outside → (Row → Bool) → (Row → Row → Bool) → ℕ → List Row → List String
unfolding sort_by
select_ids o p before limit rs =
    ids (take limit (sort_by before (keep (λ r. p r && not (o.is_locked r)) rs)))

unfoldable pub claimed_row : Outside → String → ℕ → Times → Row → Row
claimed_row o owner expires_at t r = record r {
  status = leased;
  owner_id = some owner;
  lease_token = some (o.new_token r);
  lease_fence = r.lease_fence + 1;
  lease_expires_at = some expires_at;
  attempt_count = r.attempt_count + 1;
  updated_at = t.current;
}

-- RETURNING, for each row that was claimed.
abbrev pub job_of : Outside → Row → Job
job_of o r = record {
  input_revision = r.input_revision;
  job_id = r.job_id;
  document_id = r.document_id;
  embedding_kind = r.embedding_kind;
  embedding_model = r.embedding_model;
  content_sha256 = r.content_sha256;
  normalized_text = "";
  priority = r.priority;
  lease_token = o.new_token r;
  lease_fence = r.lease_fence + 1;
}

abbrev pub jobs_of : Outside → (Row → Bool) → List Row → List Job
jobs_of o p [] = []
jobs_of o p (r ∷ rs) = let rest = jobs_of o p rs in if p r then job_of o r ∷ rest else rest

-- The arguments of one claim.
pub record ClaimRequest : Type 0 where
  pub owner : String
  pub limit : ℕ
  pub expires_at : ℕ
  pub scope : JobScope
  pub documents : List Document

unfoldable pub is_selected : Outside → ClaimRequest → Times → List Row → Row → Bool
unfolding select_ids claimable claims_before contains
is_selected o q t rs r =
    contains r.job_id (select_ids o (claimable q.scope q.documents t) (claims_before o) q.limit rs)

-- The first statement of claimJobs: pending rows become leased.
unfoldable pub claim_rows : Outside → ClaimRequest → Times → List Row → List Row
unfolding is_selected claimed_row update_where
claim_rows o q t rs = update_where (is_selected o q t rs) (claimed_row o q.owner q.expires_at t) rs

unfoldable pub find_document : String → List Document → Option Document
find_document id [] = none
find_document id (d ∷ ds) = if str_eq d.document_id id then some d else find_document id ds

-- embeddingKindForSource.
unfoldable pub embedding_kind_for_source : String → String
unfolding contains
embedding_kind_for_source kind =
    if contains kind ("event" ∷ "proxy_event" ∷ "proxy_blocked_host_window" ∷ "proxy_flow" ∷ [])
    then "event"
    else if contains kind ("device" ∷ "device_profile" ∷ "ap_profile" ∷ "identity_summary" ∷ [])
    then "device"
    else if contains kind ("behaviour_window" ∷ "observation_window" ∷ [])
    then "behaviour"
    else if str_eq kind "frame_sequence"
    then "sequence"
    else "invalid"

-- The document still is what the job was made for.
unfoldable pub is_current : Outside → Document → Job → Bool
unfolding embedding_kind_for_source
is_current o d j =
    str_eq d.normalized_sha256 j.content_sha256
    && (str_eq (o.text_checksum d.normalized_text) d.normalized_sha256
        && (str_eq d.input_revision j.input_revision
            && str_eq (embedding_kind_for_source d.source_kind) j.embedding_kind))

-- Why a claimed job is cancelled at once, if it is.
unfoldable pub refusal : Outside → Option Document → Job → Option String
unfolding is_current
refusal o none j = some "document missing; embedding job cancelled"
refusal o (some d) j =
    if not (str_eq d.status "active")
    then some (text_append "document status " (text_append d.status "; embedding job cancelled"))
    else if not (is_current o d j)
    then some "document input checksum or revision changed"
    else none

abbrev pub with_text : Option Document → Job → Job
with_text none j = j
with_text (some d) j = record j { normalized_text = d.normalized_text }

-- What claimJobs returns, beside the table: the jobs to embed and how many it cancelled.
pub record Claimed : Type 0 where
  pub rows : List Row
  pub ready : List Job
  pub cancelled : ℕ

unfoldable pub add_ready : Job → Claimed → Claimed
add_ready j c = record c { ready = j ∷ c.ready }

unfoldable pub add_cancelled : Claimed → Claimed
add_cancelled c = record c { cancelled = c.cancelled + 1 }

abbrev pub map_ok {ℓ} : {A : Type ℓ} → (A → A) → Result Failure A → Result Failure A
map_ok f (ok a) = ok (f a)
map_ok f (err e) = err e

-- The loop over the claimed jobs.
unfoldable pub screen :
    Outside → List Document → Times → List Job → List Row → Result Failure Claimed
screen o ds t [] rs = ok (record { rows = rs; ready = []; cancelled = 0 })
screen o ds t (j ∷ js) rs =
    let doc = find_document j.document_id ds in
    elim (refusal o doc j) [
      | some message ↦ elim (cancel_job message t j rs) [
        | err e ↦ err e
        | ok rs' ↦ map_ok add_cancelled (screen o ds t js rs')
      ]
      | none ↦ map_ok (add_ready (with_text doc j)) (screen o ds t js rs)
    ]

unfoldable pub claim_jobs : Outside → ClaimRequest → Times → List Row → Result Failure Claimed
unfolding claim_rows is_selected screen
claim_jobs o q t rs =
    screen o q.documents t (jobs_of o (is_selected o q t rs) rs) (claim_rows o q t rs)

unfoldable pub recoverable : JobScope → List Document → Times → Row → Bool
unfolding in_scope
recoverable s ds t r =
    is_leased r.status && (expired_by r.lease_expires_at t.current && in_scope s ds r)

unfoldable pub is_recovered : Outside → JobScope → List Document → ℕ → Times → List Row → Row → Bool
unfolding select_ids recoverable expires_before contains
is_recovered o s ds limit t rs r =
    contains r.job_id (select_ids o (recoverable s ds t) (expires_before o) limit rs)

-- recoverExpiredLeases.
unfoldable pub recover_expired_leases :
    Outside → JobScope → List Document → ℕ → Times → List Row → List Row
unfolding is_recovered update_where recovered_row
recover_expired_leases o s ds limit t rs =
    update_where (is_recovered o s ds limit t rs) (recovered_row t) rs
