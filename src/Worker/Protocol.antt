-- ===== src/Worker/Protocol.antt =====
-- The lease protocol: any sequence of the statements of lease.go, by any workers, in any order.
pub mod Rows
pub mod Keys
pub mod Steps
pub mod Fencing
use integration_console.Prelude.{ℕ, Bool, true, false, String, List, [], ◌∷◌, Result, ok, err}
use integration_console.Worker.Jobs.{
  Row, Job, Times, Failure, cancel_job, complete_job, fail_job, fail_job_permanently, defer_job,
  renew_job_lease,
}
use integration_console.Worker.Claim.{
  Document, JobScope, Outside, ClaimRequest, Claimed, claim_jobs, recover_expired_leases,
}

-- One committed or rolled back transaction on the table.
pub data Op : Type 0 where
  claims : ClaimRequest → Times → Op
  cancels : String → Times → Job → Op
  completes : Times → Job → Op
  fails : String → Times → Job → Op
  fails_permanently : String → Times → Job → Op
  defers : ℕ → Times → Job → Op
  renews : ℕ → Times → Job → Op
  recovers : JobScope → List Document → ℕ → Times → Op

-- An error rolls the transaction back.
abbrev pub or_keep : List Row → Result Failure (List Row) → List Row
or_keep rs (ok rs') = rs'
or_keep rs (err e) = rs

abbrev pub claimed_or_keep : List Row → Result Failure Claimed → List Row
claimed_or_keep rs (ok c) = c.rows
claimed_or_keep rs (err e) = rs

unfoldable pub step : Outside → List Row → Op → List Row
step o rs (claims q t) = claimed_or_keep rs (claim_jobs o q t rs)
step o rs (cancels message t j) = or_keep rs (cancel_job message t j rs)
step o rs (completes t j) = or_keep rs (complete_job t j rs)
step o rs (fails message t j) = or_keep rs (fail_job message t j rs)
step o rs (fails_permanently message t j) = or_keep rs (fail_job_permanently message t j rs)
step o rs (defers retry_at t j) = or_keep rs (defer_job retry_at t j rs)
step o rs (renews expires_at t j) = (renew_job_lease expires_at t j rs).0
step o rs (recovers s ds limit t) = recover_expired_leases o s ds limit t rs

unfoldable pub run : Outside → List Row → List Op → List Row
run o rs [] = rs
run o rs (p ∷ ps) = run o (step o rs p) ps
