-- ===== src/Embed.antt =====
-- atheros-search/internal/embed: the breaker of a lane, the lanes, the admission point, and what the
-- client does with texts and vectors.
pub mod Errors
pub mod Circuit
pub mod Lanes
pub mod Scheduler
pub mod Chunks
pub mod Requests
pub mod Preflight
pub mod Cache
mod Examples
