-- ===== src/Health/Gauges.antt =====
-- What a snapshot of health.go depends on, and how it ranks what is wrong.
use integration_console.Prelude.{
  ℕ, ◌+◌, ◌<◌, ◌≡◌, refl, ap, sym, ◌∙◌, ◌≤◌, Option, none, some, List, [], ◌∷◌, inl, inr, true,
  false, ◌&&◌, ltb, ◌==◌, Result, ok, err, ◌>>=◌, >>=-eq-ok, subst, String, str_eq, length, arith,
  Bool-cases,
}
use integration_console.Health.{
  Answers, EtlHealth, DbError, or_zeros, snapshot_from_db, embedding_dependency_of, is_aged,
  WorkerHeartbeat, scan_workers, workers_of,
}

abbrev pub IsOk : {A : Type 0} → Result DbError A → Type 0
IsOk (ok a) = Unit
IsOk (err e) = ⊥

-- The queries whose failure is an outage.
pub record IsAnswered (answers : Answers) : Type 0 where
  pub wireless : IsOk answers.wireless
  pub ingest : IsOk answers.ingest
  pub batches : IsOk answers.batches
  pub open_jobs : IsOk answers.open_jobs
  pub ended_jobs : IsOk answers.ended_jobs
  pub backlog : IsOk answers.backlog
  pub embeddings : IsOk (or_zeros answers.embeddings)

IsOk-bind :
    {A B : Type 0} (r : Result DbError A) (next : A → Result DbError B)
    → IsOk r
    → ((a : A) → IsOk (next a))
    → IsOk (r >>= next)
IsOk-bind (err e) next h k = h
IsOk-bind (ok a) next h k = k a

-- A snapshot is taken wherever the seven queries on the pipeline's tables answer; whatever becomes of the
-- heartbeats and of the optional coverage does not fail it.
pub snapshot_from_db-IsOk :
    (now later : ℕ) (model : String) (answers : Answers)
    → IsAnswered answers
    → IsOk (snapshot_from_db now later model answers)
unfolding snapshot_from_db
snapshot_from_db-IsOk now later model answers h = IsOk-bind answers.wireless _ h.wireless (λ _.
    IsOk-bind answers.ingest _ h.ingest (λ _. IsOk-bind answers.batches _ h.batches (λ _.
      IsOk-bind answers.open_jobs _ h.open_jobs (λ _.
        IsOk-bind answers.ended_jobs _ h.ended_jobs (λ _.
          IsOk-bind answers.backlog _ h.backlog
            (λ _. IsOk-bind (or_zeros answers.embeddings) _ h.embeddings (λ _. tt)))))))

-- The conditions under which the ranking ends with "healthy".
record IsHealthy (now : ℕ) (h : EtlHealth) : Type 0 where
  unfailed : h.embedding_failed ≡ 0
  worked : 0 < h.embedding_pending → 0 < length h.workers
  young : 0 < h.embedding_pending → is_aged now h.oldest_embedding_job_at ≡ false
  fed : 0 < h.embedding_pending + h.embedding_completed

not_true : (s : String) → str_eq s "healthy" ≡ false → s ≡ "healthy" → ⊥
not_true s h e = let t : str_eq s "healthy" ≡ true = ap (λ s. str_eq s "healthy") e in cc

dependency-IsHealthy :
    (now : ℕ) (h : EtlHealth) → embedding_dependency_of now h ≡ "healthy" → IsHealthy now h
unfolding embedding_dependency_of
dependency-IsHealthy now h e = elim (Bool-cases (ltb 0 h.embedding_failed)) [
  | inl bad ↦ absurd (not_true "blocked" refl (rw bad at e))
  | inr fine ↦ elim (Bool-cases (ltb 0 h.embedding_pending && (length h.workers == 0))) [
    | inl idle ↦ absurd (not_true "waiting_for_worker" refl (rw (fine, idle) at e))
    | inr worked ↦
        elim (Bool-cases (ltb 0 h.embedding_pending && is_aged now h.oldest_embedding_job_at)) [
          | inl aged ↦ absurd (not_true "backlog" refl (rw (fine, worked, aged) at e))
          | inr young ↦
              elim (Bool-cases ((h.embedding_pending == 0) && (h.embedding_completed == 0))) [
                | inl empty ↦
                    absurd
                      (not_true "waiting_for_source" refl (rw (fine, worked, young, empty) at e))
                | inr fed ↦ record {
                  unfailed = ground (arith, fine);
                  worked = λ some_open. ground (arith, worked);
                  young = λ some_open. ground (arith, young);
                  fed = ground (arith, fed);
                }
              ]
        ]
  ]
]

ok-inj : {a b : EtlHealth} → ◌≡◌ {A = Result DbError EtlHealth} (ok a) (ok b) → a ≡ b
ok-inj h = cc

-- The gauges of the embeddings in the order of their columns.
abbrev Columns : Type 0
Columns = ℕ × ℕ × ℕ × ℕ × ℕ × Option ℕ

-- The snapshot's gauges of embeddings are the columns that were read.
record IsRead (answers : Answers) (columns : Columns) (later : ℕ) (h : EtlHealth) : Type 0 where
  answered : or_zeros answers.embeddings ≡ ok columns
  pending : h.embedding_pending ≡ columns.0
  completed : h.embedding_completed ≡ columns.2
  failed : h.embedding_failed ≡ columns.3
  oldest : h.oldest_embedding_job_at ≡ columns.5
  heard : h.workers ≡ workers_of answers.heartbeats
  ranked : embedding_dependency_of later h ≡ h.embedding_dependency

snapshot-IsRead :
    (now later : ℕ) (model : String) (answers : Answers) (h : EtlHealth)
    → snapshot_from_db now later model answers ≡ ok h
    → (columns : Columns) × IsRead answers columns later h
unfolding snapshot_from_db embedding_dependency_of
snapshot-IsRead now later model answers h e =
    let (a, _, e₁) = >>=-eq-ok answers.wireless _ e in
    let (b, _, e₂) = >>=-eq-ok answers.ingest _ e₁ in
    let (c, _, e₃) = >>=-eq-ok answers.batches _ e₂ in
    let (d, _, e₄) = >>=-eq-ok answers.open_jobs _ e₃ in
    let (f, _, e₅) = >>=-eq-ok answers.ended_jobs _ e₄ in
    let (g, _, e₆) = >>=-eq-ok answers.backlog _ e₅ in
    let (columns, read, e₇) = >>=-eq-ok (or_zeros answers.embeddings) _ e₆ in
    (
      columns,
      subst (IsRead answers columns later) (ok-inj e₇) (record {
        answered = read;
        pending = refl;
        completed = refl;
        failed = refl;
        oldest = refl;
        heard = refl;
        ranked = refl;
      }),
    )

-- A heartbeat among the rows has been scanned.
abbrev pub HasWorker : List (Result DbError WorkerHeartbeat) → Type 0
HasWorker [] = ⊥
HasWorker (err e ∷ rows) = HasWorker rows
HasWorker (ok worker ∷ rows) = Unit

scanned :
    (rows : List (Result DbError WorkerHeartbeat)) → 0 < length (scan_workers rows) → HasWorker rows
unfolding scan_workers
scanned [] h = omega (arith, h)
scanned (err e ∷ rows) h = scanned rows h
scanned (ok worker ∷ rows) h = tt

worked :
    (answer : Result DbError (List (Result DbError WorkerHeartbeat)))
    → 0 < length (workers_of answer)
    → (rows : List (Result DbError WorkerHeartbeat)) × (answer ≡ ok rows) × HasWorker rows
worked (err e) h = absurd (omega (arith, h))
worked (ok rows) h = (rows, refl, scanned rows h)

unaged :
    (now : ℕ) (oldest : Option ℕ) (created : ℕ)
    → is_aged now oldest ≡ false
    → oldest ≡ some created
    → now ≤ created + 3600000000000
unaged now none created h e = cc
unaged now (some at) created h e = (let same : at ≡ created = cc in ground (arith, h, same))

-- What the database has answered where a snapshot reports "healthy".
pub record IsHealthyAnswer (later : ℕ) (answers : Answers) : Type 0 where
  pub columns : ℕ × ℕ × ℕ × ℕ × ℕ × Option ℕ
  pub answered : or_zeros answers.embeddings ≡ ok columns
  pub unfailed : columns.3 ≡ 0
  pub fed : 0 < columns.0 + columns.2
  pub worked :
      0 < columns.0
      → (rows : List (Result DbError WorkerHeartbeat)) × (answers.heartbeats ≡ ok rows)
        × HasWorker rows
  pub young :
      0 < columns.0 → (created : ℕ) → columns.5 ≡ some created → later ≤ created + 3600000000000

-- Where a snapshot reports "healthy", the database answered that no embedding job has failed and that there
-- are pending or completed ones (no row counts as zeros); and where some are pending, a heartbeat was
-- read, and the oldest open job is at most an hour, in nanoseconds, older than the clock's last reading.
pub snapshot_from_db-IsHealthyAnswer :
    (now later : ℕ) (model : String) (answers : Answers) (h : EtlHealth)
    → snapshot_from_db now later model answers ≡ ok h
    → h.embedding_dependency ≡ "healthy"
    → IsHealthyAnswer later answers
snapshot_from_db-IsHealthyAnswer now later model answers h e healthy =
    let (columns, r) = snapshot-IsRead now later model answers h e in
    let v = dependency-IsHealthy later h (r.ranked ∙ healthy) in
    let pending = r.pending in
    record {
      columns = columns;
      answered = r.answered;
      unfailed = sym r.failed ∙ v.unfailed;
      fed = (let done = r.completed in omega (arith, v.fed, pending, done));
      worked = λ some_open.
          worked answers.heartbeats
            (subst (λ ws. 0 < length ws) r.heard (v.worked (omega (arith, some_open, pending))));
      young = λ some_open created oldest.
          unaged later h.oldest_embedding_job_at created
            (v.young (omega (arith, some_open, pending))) (r.oldest ∙ oldest);
    }
