-- ===== src/Health.antt =====
-- The pipeline's health of atheros-search/internal/etlhealth/health.go: the gauges that one refresh reads from
-- the database, and what is derived from them. What each query answers is an argument.
pub mod Monitor
pub mod SingleFlight
pub mod Gauges
mod Examples
use integration_console.Prelude.{
  ℕ, ◌+◌, ◌-◌, ◌*◌, Bool, true, false, not, ◌&&◌, Option, none, some, List, [], ◌∷◌, map, ltb, leb,
  ◌==◌, if◌then◌else◌, Result, ok, err, ◌>>=◌, String, str_eq, length,
}

-- WorkerHeartbeat
pub record WorkerHeartbeat : Type 0 where
  pub worker_id : String
  pub worker_type : String
  pub last_seen_at : ℕ
  pub metadata : Option String

-- SourceCoverage
pub record SourceCoverage : Type 0 where
  pub id : String
  pub documents : ℕ
  pub lexical_documents : ℕ
  pub documents_24h : ℕ
  pub last_observed_at : Option ℕ
  pub vectors : ℕ

-- ETLHealth, with the live views of the lanes left to `merge_live`.
pub record EtlHealth : Type 0 where
  pub measured_at : ℕ
  pub wireless_events_24h : ℕ
  pub wireless_last_observed_at : Option ℕ
  pub ingest_pending : ℕ
  pub ingest_processing : ℕ
  pub ingest_failed : ℕ
  pub batch_pending : ℕ
  pub batch_processing : ℕ
  pub batch_completed : ℕ
  pub batch_failed : ℕ
  pub job_stored_pending : ℕ
  pub job_stored_running : ℕ
  pub job_stored_completed : ℕ
  pub job_stored_failed : ℕ
  pub job_effective_pending : ℕ
  pub job_effective_running : ℕ
  pub job_effective_completed : ℕ
  pub job_effective_failed : ℕ
  pub job_orphaned : ℕ
  pub backlog_pending : ℕ
  pub backlog_failed : ℕ
  pub embedding_pending : ℕ
  pub embedding_leased : ℕ
  pub embedding_completed : ℕ
  pub embedding_failed : ℕ
  pub embedding_retry_count : ℕ
  pub oldest_embedding_job_at : Option ℕ
  pub embedding_dependency : String
  pub workers : List WorkerHeartbeat
  pub source_coverage : List SourceCoverage

-- How a query or a scan fails.
pub data DbError : Type 0 where
  no_rows : DbError
  failed : DbError

abbrev pub second : ℕ
second = 1000000000

abbrev pub snapshot_cache_ttl : ℕ
snapshot_cache_ttl = 30 * second

abbrev pub embedding_backlog_age : ℕ
embedding_backlog_age = 3600 * second

abbrev pub wireless_fresh : ℕ
wireless_fresh = 1800 * second

abbrev pub wireless_stale : ℕ
wireless_stale = 7200 * second

-- wirelessProjection
unfoldable pub wireless_projection : ℕ → Option ℕ → String
wireless_projection now none = "unknown"
wireless_projection now (some observed) =
    if leb (now - observed) wireless_fresh
    then "fresh"
    else if leb (now - observed) wireless_stale
    then "stale"
    else "critical"

-- `OldestEmbeddingJobAt != nil && time.Since(*OldestEmbeddingJobAt) > embeddingBacklogAge`
abbrev pub is_aged : ℕ → Option ℕ → Bool
is_aged now none = false
is_aged now (some created) = ltb embedding_backlog_age (now - created)

-- embeddingDependency
unfoldable pub embedding_dependency_of : ℕ → EtlHealth → String
embedding_dependency_of now health =
    if ltb 0 health.embedding_failed
    then "blocked"
    else if ltb 0 health.embedding_pending && (length health.workers == 0)
    then "waiting_for_worker"
    else if ltb 0 health.embedding_pending && is_aged now health.oldest_embedding_job_at
    then "backlog"
    else if (health.embedding_pending == 0) && (health.embedding_completed == 0)
    then "waiting_for_source"
    else "healthy"

-- What the queries of one refresh answer, each in the order of its columns. A row of a list may fail to scan.
pub record Answers : Type 0 where
  pub wireless : Result DbError (ℕ × Option ℕ)
  pub ingest : Result DbError (ℕ × ℕ × ℕ)
  pub batches : Result DbError (ℕ × ℕ × ℕ × ℕ)
  pub open_jobs : Result DbError (ℕ × ℕ × ℕ)
  pub ended_jobs : Result DbError (ℕ × ℕ)
  pub backlog : Result DbError (ℕ × ℕ)
  pub embeddings : Result DbError (ℕ × ℕ × ℕ × ℕ × ℕ × Option ℕ)
  pub heartbeats : Result DbError (List (Result DbError WorkerHeartbeat))
  pub coverage : Result DbError (List (Result DbError SourceCoverage))

-- An ErrNoRows leaves the gauges as they are.
abbrev pub or_zeros :
    Result DbError (ℕ × ℕ × ℕ × ℕ × ℕ × Option ℕ) → Result DbError (ℕ × ℕ × ℕ × ℕ × ℕ × Option ℕ)
or_zeros (err no_rows) = ok (0, 0, 0, 0, 0, none)
or_zeros (err failed) = err failed
or_zeros (ok gauges) = ok gauges

-- A row that does not scan is skipped.
unfoldable pub scan_workers : List (Result DbError WorkerHeartbeat) → List WorkerHeartbeat
scan_workers [] = []
scan_workers (err e ∷ rows) = scan_workers rows
scan_workers (ok worker ∷ rows) = worker ∷ scan_workers rows

abbrev pub workers_of :
    Result DbError (List (Result DbError WorkerHeartbeat)) → List WorkerHeartbeat
workers_of (err e) = []
workers_of (ok rows) = scan_workers rows

abbrev pub no_coverage : String → SourceCoverage
no_coverage id = record {
  id = id;
  documents = 0;
  lexical_documents = 0;
  documents_24h = 0;
  last_observed_at = none;
  vectors = 0;
}

abbrev pub place_source : SourceCoverage → SourceCoverage → SourceCoverage
place_source source old = if str_eq old.id source.id then source else old

-- The loop of sourceCoverage, over the sources that it reports.
unfoldable pub place_sources :
    List SourceCoverage
    → List (Result DbError SourceCoverage)
    → Result DbError (List SourceCoverage)
place_sources result [] = ok result
place_sources result (err e ∷ rows) = err e
place_sources result (ok source ∷ rows) = place_sources (map (place_source source) result) rows

abbrev pub place_rows :
    Result DbError (List (Result DbError SourceCoverage)) → Result DbError (List SourceCoverage)
place_rows (err e) = err e
place_rows (ok rows) = place_sources (no_coverage "proxy" ∷ no_coverage "wireless" ∷ []) rows

abbrev pub sources_or_none : Result DbError (List SourceCoverage) → List SourceCoverage
sources_or_none (err e) = []
sources_or_none (ok sources) = sources

-- sourceCoverage, where it is configured, its errors dropped.
unfoldable pub source_coverage_of :
    String → Result DbError (List (Result DbError SourceCoverage)) → List SourceCoverage
unfolding place_sources
source_coverage_of model answer =
    if str_eq model "" then [] else sources_or_none (place_rows answer)

-- snapshotFromDB
unfoldable pub snapshot_from_db : ℕ → ℕ → String → Answers → Result DbError EtlHealth
unfolding scan_workers source_coverage_of embedding_dependency_of
snapshot_from_db now later model answers = answers.wireless >>= λ (events, observed).
    answers.ingest >>= λ (ingest_waiting, ingest_running, ingest_bad).
    answers.batches >>= λ (batch_waiting, batch_running, batch_done, batch_bad).
    answers.open_jobs >>= λ (job_waiting, job_running, orphaned).
    answers.ended_jobs >>= λ (job_done, job_bad).
    answers.backlog >>= λ (backlog_waiting, backlog_bad).
    or_zeros answers.embeddings >>= λ (waiting, leased, done, bad, retries, oldest).
    (let health : EtlHealth = record {
      measured_at = now;
      wireless_events_24h = events;
      wireless_last_observed_at = observed;
      ingest_pending = ingest_waiting;
      ingest_processing = ingest_running;
      ingest_failed = ingest_bad;
      batch_pending = batch_waiting;
      batch_processing = batch_running;
      batch_completed = batch_done;
      batch_failed = batch_bad;
      job_stored_pending = job_waiting;
      job_stored_running = job_running;
      job_stored_completed = job_done;
      job_stored_failed = job_bad;
      job_effective_pending = job_waiting;
      job_effective_running = job_running;
      job_effective_completed = job_done;
      job_effective_failed = job_bad;
      job_orphaned = orphaned;
      backlog_pending = backlog_waiting;
      backlog_failed = backlog_bad;
      embedding_pending = waiting;
      embedding_leased = leased;
      embedding_completed = done;
      embedding_failed = bad;
      embedding_retry_count = retries;
      oldest_embedding_job_at = oldest;
      embedding_dependency = "";
      workers = workers_of answers.heartbeats;
      source_coverage = [];
    } in
      ok (record health {
        embedding_dependency = embedding_dependency_of later health;
        source_coverage = source_coverage_of model answers.coverage;
      }))
