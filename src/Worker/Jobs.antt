-- ===== src/Worker/Jobs.antt =====
-- The table atheros_search.embedding_jobs and the statements of
-- atheros-search/internal/worker/lease.go that end, renew or recover one lease. An UPDATE changes
-- each row that its WHERE clause selects; NULL is `none`, and a comparison with it selects nothing.
-- Times are microseconds, counters of the database are unbounded.
use integration_console.Prelude.{
  ℕ, ◌+◌, ◌-◌, ◌*◌, ◌^◌, min, Bool, true, false, ◌&&◌, Option, none, some, String, str_eq, List, [],
  ◌∷◌, ltb, leb, ◌==◌, if◌then◌else◌, Result, ok, err, sum_of,
}

pub data Status : Type 0 where
  pending leased completed failed : Status
  cancelled : Status

-- A row of the table, as far as the worker reads or writes it.
pub record Row : Type 0 where
  pub job_id : String
  pub document_id : String
  pub embedding_kind : String
  pub embedding_model : String
  pub content_sha256 : String
  pub input_revision : String
  pub priority : ℕ
  pub status : Status
  pub next_attempt_at : ℕ
  pub attempt_count : ℕ
  pub max_attempts : ℕ
  pub owner_id : Option String
  pub lease_token : Option String
  pub lease_fence : ℕ
  pub lease_expires_at : Option ℕ
  pub last_error : Option String
  pub completed_at : Option ℕ
  pub updated_at : ℕ

-- Job: what a worker holds of a row that it has claimed.
pub record Job : Type 0 where
  pub input_revision : String
  pub job_id : String
  pub document_id : String
  pub embedding_kind : String
  pub embedding_model : String
  pub content_sha256 : String
  pub normalized_text : String
  pub priority : ℕ
  pub lease_token : String
  pub lease_fence : ℕ

-- CURRENT_TIMESTAMP, the start of the transaction, and clock_timestamp().
pub record Times : Type 0 where
  pub current : ℕ
  pub clock : ℕ

-- What the functions return as errors, with no text. `lease_lost` is "lease lost for job".
pub data Failure : Type 0 where
  lease_lost input_changed document_unavailable unknown_kind invalid_vector count_mismatch : Failure
  begin_failed commit_failed : Failure

abbrev pub is_pending : Status → Bool
is_pending pending = true
is_pending _ = false

abbrev pub is_leased : Status → Bool
is_leased leased = true
is_leased _ = false

abbrev pub token_is : Option String → String → Bool
token_is none t = false
token_is (some s) t = str_eq s t

abbrev pub expires_after : Option ℕ → ℕ → Bool
expires_after none now = false
expires_after (some at) now = ltb now at

abbrev pub expired_by : Option ℕ → ℕ → Bool
expired_by none now = false
expired_by (some at) now = leb at now

-- The WHERE clause that the statements on one lease share.
unfoldable pub owns : Job → ℕ → Row → Bool
owns j clock r =
    str_eq r.job_id j.job_id
    && (is_leased r.status
        && (token_is r.lease_token j.lease_token
            && (r.lease_fence == j.lease_fence && expires_after r.lease_expires_at clock)))

-- UPDATE … SET f WHERE p, and RowsAffected.
unfoldable pub update_where : (Row → Bool) → (Row → Row) → List Row → List Row
update_where p f [] = []
update_where p f (r ∷ rs) = (if p r then f r else r) ∷ update_where p f rs

unfoldable pub affected : (Row → Bool) → List Row → ℕ
affected p rs = sum_of (λ r. if p r then 1 else 0) rs

-- An update by the holder of a lease: no row affected is an error, and the caller rolls back.
unfoldable pub update_owned : Job → Times → (Row → Row) → List Row → Result Failure (List Row)
unfolding update_where affected owns
update_owned j t f rs =
    if affected (owns j t.clock) rs == 0
    then err lease_lost
    else ok (update_where (owns j t.clock) f rs)

-- SET owner_id = NULL, lease_token = NULL, lease_expires_at = NULL, updated_at = CURRENT_TIMESTAMP.
abbrev pub unlease : Times → Row → Row
unlease t r = record r {
  owner_id = none;
  lease_token = none;
  lease_expires_at = none;
  updated_at = t.current;
}

abbrev pub second : ℕ
second = 1000000

-- LEAST(POWER(2, attempts), 300) * INTERVAL '1 second'
unfoldable pub backoff_after : ℕ → ℕ
backoff_after attempts = min (2 ^ attempts) 300 * second

abbrev pub retry_status : Row → Status
retry_status r = if leb r.max_attempts r.attempt_count then failed else pending

unfoldable pub cancelled_row : String → Times → Row → Row
cancelled_row message t r = record (unlease t r) {
  status = cancelled;
  last_error = some message;
  next_attempt_at = t.current;
}

unfoldable pub completed_row : Times → Row → Row
completed_row t r = record (unlease t r) { status = completed; completed_at = some t.current }

unfoldable pub failed_row : String → Times → Row → Row
unfolding backoff_after
failed_row message t r = record (unlease t r) {
  status = retry_status r;
  last_error = some message;
  next_attempt_at = t.current + backoff_after r.attempt_count;
}

unfoldable pub dead_row : String → Times → Row → Row
dead_row message t r = record (unlease t r) {
  status = failed;
  last_error = some message;
  next_attempt_at = t.current;
}

-- GREATEST(attempt_count - 1, 0) is subtraction that stops at 0.
unfoldable pub deferred_row : ℕ → Times → Row → Row
deferred_row retry_at t r = record (unlease t r) {
  status = pending;
  attempt_count = r.attempt_count - 1;
  next_attempt_at = retry_at;
}

unfoldable pub renewed_row : ℕ → Times → Row → Row
renewed_row expires_at t r = record r { lease_expires_at = some expires_at; updated_at = t.current }

unfoldable pub cancel_job : String → Times → Job → List Row → Result Failure (List Row)
unfolding update_owned cancelled_row
cancel_job message t j rs = update_owned j t (cancelled_row message t) rs

unfoldable pub complete_job : Times → Job → List Row → Result Failure (List Row)
unfolding update_owned completed_row
complete_job t j rs = update_owned j t (completed_row t) rs

unfoldable pub fail_job : String → Times → Job → List Row → Result Failure (List Row)
unfolding update_owned failed_row
fail_job message t j rs = update_owned j t (failed_row message t) rs

unfoldable pub fail_job_permanently : String → Times → Job → List Row → Result Failure (List Row)
unfolding update_owned dead_row
fail_job_permanently message t j rs = update_owned j t (dead_row message t) rs

unfoldable pub defer_job : ℕ → Times → Job → List Row → Result Failure (List Row)
unfolding update_owned deferred_row
defer_job retry_at t j rs = update_owned j t (deferred_row retry_at t) rs

-- renewJobLease runs outside a transaction, and reports whether one row was renewed.
unfoldable pub renew_job_lease : ℕ → Times → Job → List Row → List Row × Bool
unfolding update_where affected owns renewed_row
renew_job_lease expires_at t j rs =
    (update_where (owns j t.clock) (renewed_row expires_at t) rs, affected (owns j t.clock) rs == 1)

unfoldable pub recovered_row : Times → Row → Row
unfolding backoff_after
recovered_row t r = record (unlease t r) {
  status = retry_status r;
  last_error =
      if leb r.max_attempts r.attempt_count
      then some "embedding lease expired; retries exhausted"
      else some "embedding lease expired; returned to pending";
  next_attempt_at = t.current + backoff_after r.attempt_count;
}
