-- ===== src/Worker/Batch.antt =====
-- One round of a worker, atheros-search/internal/worker/worker.go: processBatch, embedGroup,
-- orderedJobGroups and the transactions that they run. What other workers commit in between, the
-- clock, the backend and the connection's failures are functions of how many transactions or
-- calls have been made. The goroutine that renews the leases is one of those others.
pub mod Transactions
pub mod Safety
pub mod Rounds
pub mod Deferral
use integration_console.Prelude.{
  ℕ, zero, suc, ◌+◌, Bool, true, false, not, Option, none, some, String, str_eq, List, [], ◌∷◌,
  ◌++◌, map, ltb, ◌==◌, if◌then◌else◌, Result, ok, err, ◌>>=◌, length, ℤ, pos, negsuc, get_elem?,
}
use integration_console.Embed.Errors.{Error, retry_time, oversized_index}
use integration_console.Worker.Jobs.{
  Row, Job, Times, Failure, begin_failed, commit_failed, count_mismatch, fail_job,
  fail_job_permanently, defer_job,
}
use integration_console.Worker.Claim.{
  Outside, ClaimRequest, JobScope, Document, Claimed, claim_jobs, scope_args,
}
use integration_console.Worker.Protocol.{Op, run}
use integration_console.Worker.Groups.{JobGroup, ordered_job_groups, remaining_jobs}
use integration_console.Worker.Store.{Store, store_completion, store_completions}

-- How a transaction fares beside its statements.
pub data Fate : Type 0 where
  commits begin_fails commit_fails : Fate

-- The worker's surroundings. A nil gate is one that is ready.
pub record Env (V : Type 0) : Type 0 where
  pub outside : Outside
  pub times : ℕ → Times
  pub fate : ℕ → Fate
  pub others : ℕ → List Op
  pub embed : ℕ → String → List String → Result Error (List V)
  pub valid : V → Bool
  pub error_text : Error → String
  pub failure_text : Failure → String
  pub gate_ready : Bool
  pub worker_id : String
  pub batch_size : ℕ
  pub lease_deadline : ℕ
  pub scope : JobScope
  pub poll_retry : ℕ

-- The database, the transactions and the backend calls so far.
pub record World (V : Type 0) : Type 0 where
  pub store : Store V
  pub transactions : ℕ
  pub asked : ℕ

module _ {V : Type 0} (env : Env V) where
  -- The state of the database when the next transaction begins.
  unfoldable pub seen : World V → Store V
  seen w = record (w.store) { rows = run env.outside w.store.rows (env.others w.transactions) }

  unfoldable pub settle :
      {A : Type 0} → Fate → Store V → Result Failure (Store V × A) → Store V × Result Failure A
  settle begin_fails s answer = (s, err begin_failed)
  settle fate s (err e) = (s, err e)
  settle commits s (ok (s', a)) = (s', ok a)
  settle commit_fails s (ok (s', a)) = (s, err commit_failed)

  -- BeginTx, the statements, then Commit, or Rollback after an error.
  unfoldable pub transact :
      {A : Type 0}
      → (Times → Store V → Result Failure (Store V × A))
      → World V
      → World V × Result Failure A
  unfolding seen settle
  transact body w =
      let t = env.times w.transactions in
      let (s, answer) = settle (env.fate w.transactions) (seen w) (body t (seen w)) in
      (record w { store = s; transactions = w.transactions + 1 }, answer)

  abbrev pub with_rows : Store V → Result Failure (List Row) → Result Failure (Store V × Unit {0})
  with_rows s (ok rows) = ok (record s { rows = rows }, tt)
  with_rows s (err e) = err e

  -- failOversizedJob, failClaimedJob and the body of deferClaimedJobs: errors are only logged.
  unfoldable pub fail_oversized_job : Job → Error → World V → World V
  unfolding transact
  fail_oversized_job j e w =
      (transact (λ t s. with_rows s (fail_job_permanently (env.error_text e) t j s.rows)) w).0

  unfoldable pub fail_claimed_job : Job → String → World V → World V
  unfolding transact
  fail_claimed_job j message w = (transact (λ t s. with_rows s (fail_job message t j s.rows)) w).0

  unfoldable pub defer_claimed_job : ℕ → Job → World V → World V
  unfolding transact
  defer_claimed_job retry_at j w =
      (transact (λ t s. with_rows s (defer_job retry_at t j s.rows)) w).0

  unfoldable pub fail_claimed_jobs : List Job → String → World V → World V
  unfolding fail_claimed_job
  fail_claimed_jobs [] message w = w
  fail_claimed_jobs (j ∷ js) message w = fail_claimed_jobs js message (fail_claimed_job j message w)

  unfoldable pub defer_claimed_jobs : ℕ → List Job → World V → World V
  unfolding defer_claimed_job
  defer_claimed_jobs retry_at [] w = w
  defer_claimed_jobs retry_at (j ∷ js) w =
      defer_claimed_jobs retry_at js (defer_claimed_job retry_at j w)

-- What embedGroup returns: the jobs left and their vectors, or the jobs left and an error.
pub data GroupAnswer (V : Type 0) : Type 0 where
  embedded : List Job → List V → GroupAnswer V
  refused : List Job → Error → GroupAnswer V
  out_of_fuel : GroupAnswer V

-- A state and an answer, and how the code goes on from either kind of answer.
unfoldable pub go_on :
    {A V : Type 0}
    → World V × Result Failure A
    → (A → World V → World V)
    → (Failure → World V → World V)
    → World V
go_on (w, ok a) f g = f a w
go_on (w, err e) f g = g e w

abbrev pub texts : List Job → List String
texts [] = []
texts (j ∷ js) = j.normalized_text ∷ texts js

-- append(xs[:i], xs[i+1:]...)
abbrev pub remove_at {ℓ} : {A : Type ℓ} → ℕ → List A → List A
remove_at i [] = []
remove_at zero (x ∷ xs) = xs
remove_at (suc i) (x ∷ xs) = x ∷ remove_at i xs

-- The job that an OversizedInputError names, where its index is in range.
unfoldable pub oversized_job : Option ℤ → List Job → Option (ℕ × Job)
oversized_job none js = none
oversized_job (some (negsuc i)) js = none
oversized_job (some (pos i)) js = elim (get_elem? js i) [ none ↦ none | some j ↦ some (i, j) ]

abbrev pub is_nil : List Job → Bool
is_nil [] = true
is_nil (j ∷ js) = false

module _ {V : Type 0} (env : Env V) where
  -- A source above the chunk budget fails its own job, and the others are tried again.
  unfoldable pub drop_oversized :
      (List Job → List String → World V → World V × GroupAnswer V)
      → List Job
      → List String
      → Error
      → World V
      → Option (ℕ × Job)
      → World V × GroupAnswer V
  drop_oversized again js ts e w none = (w, refused js e)
  drop_oversized again js ts e w (some (i, j)) =
      let w' = fail_oversized_job env j e w in
      if is_nil (remove_at i js)
      then (w', embedded [] [])
      else again (remove_at i js) (remove_at i ts) w'

  unfoldable pub read_answer :
      (List Job → List String → World V → World V × GroupAnswer V)
      → List Job
      → List String
      → World V
      → Result Error (List V)
      → World V × GroupAnswer V
  unfolding drop_oversized oversized_job
  read_answer again js ts w (ok vs) = (w, embedded js vs)
  read_answer again js ts w (err e) =
      drop_oversized again js ts e w (oversized_job (oversized_index e) js)

  -- The loop of embedGroup over the jobs left and, beside them, their texts. Fuel bounds its rounds.
  unfoldable pub embed_rounds :
      ℕ → String → List Job → List String → World V → World V × GroupAnswer V
  unfolding read_answer
  embed_rounds zero kind js ts w = (w, out_of_fuel)
  embed_rounds (suc fuel) kind js ts w =
      read_answer (embed_rounds fuel kind) js ts (record w { asked = w.asked + 1 })
        (env.embed w.asked kind ts)

  -- embedGroup
  unfoldable pub embed_group : ℕ → String → List Job → World V → World V × GroupAnswer V
  unfolding embed_rounds
  embed_group fuel kind js w = embed_rounds fuel kind js (texts js) w

  -- The fallback after a batched completion failed: each job alone, failed where it fails.
  unfoldable pub store_or_fail : Job → V → World V → World V
  store_or_fail j v w =
      go_on
        (transact env (λ t s. store_completion env.valid env.outside t j v s >>= λ s'. ok (s', tt))
          w)
        (λ u w'. w') (λ e w'. fail_claimed_job env j (env.failure_text e) w')

  unfoldable pub store_singly : List Job → List V → World V → World V
  store_singly (j ∷ js) (v ∷ vs) w = store_singly js vs (store_or_fail j v w)
  store_singly _ _ w = w

  unfoldable pub store_group : List Job → List V → World V → World V
  store_group js vs w =
      go_on
        (transact env
          (λ t s. store_completions env.valid env.outside t js vs s >>= λ s'. ok (s', tt)) w)
        (λ u w'. w') (λ e w'. store_singly js vs w')

  -- What happens to one group whose backend call gave vectors.
  unfoldable pub keep_vectors : List Job → List V → World V → World V
  keep_vectors js vs w =
      if is_nil js
      then w
      else if not (length vs == length js)
      then fail_claimed_jobs env js (env.failure_text count_mismatch) w
      else store_group js vs w

  abbrev pub retry_or_poll : ℕ → ℕ
  retry_or_poll at = if at == 0 then env.poll_retry else at

  -- What follows the answer for one group: an unavailable backend defers this group and the
  -- remaining ones and ends the round; any other error fails the group's jobs.
  unfoldable pub handle : (World V → World V) → List JobGroup → World V × GroupAnswer V → World V
  handle others gs (w, out_of_fuel) = w
  handle others gs (w, embedded js vs) = others (keep_vectors js vs w)
  handle others gs (w, refused js e) = elim (retry_time e) [
    | some at ↦ defer_claimed_jobs env (retry_or_poll at) (remaining_jobs gs ++ js) w
    | none ↦ others (fail_claimed_jobs env js (env.error_text e) w)
  ]

  -- The loop over the groups.
  unfoldable pub process_groups : List JobGroup → World V → World V
  unfolding handle
  process_groups [] w = w
  process_groups (g ∷ gs) w =
      handle (process_groups gs) gs (embed_group (suc (length g.jobs)) g.kind g.jobs w)

  abbrev pub claim_request : List Document → ClaimRequest
  claim_request ds = record {
    owner = env.worker_id;
    limit = env.batch_size;
    expires_at = env.lease_deadline;
    scope = scope_args (env.scope ∷ []);
    documents = ds;
  }

  abbrev pub claimed_store : Store V → Result Failure Claimed → Result Failure (Store V × List Job)
  claimed_store s (ok c) = ok (record s { rows = c.rows }, c.ready)
  claimed_store s (err e) = err e

  unfoldable pub claim_and_process : World V → World V
  claim_and_process w =
      go_on
        (transact env
          (λ t s. claimed_store s (claim_jobs env.outside (claim_request s.documents) t s.rows)) w)
        (λ js w'. process_groups (ordered_job_groups js) w') (λ e w'. w')

  -- processBatch: nothing is claimed before the gate is ready, and nothing is embedded before the
  -- claims are committed.
  unfoldable pub process_batch : World V → World V
  process_batch w = if not env.gate_ready then w else claim_and_process w
