-- ===== src/Worker.antt =====
-- The embedding worker of atheros-search/internal/worker: leases, claims, completions, batches.
pub mod Jobs
pub mod Claim
pub mod Protocol
pub mod Store
pub mod Groups
pub mod Batch
mod Examples
