-- ===== src/Reporting.antt =====
-- Reports of atheros-search/internal/reporting.
pub mod Filters
pub mod Tree
pub mod Focus
mod Examples
