-- ===== src/Search.antt =====
-- atheros-search/internal/search, as far as it reads the errors of the embedding client.
pub mod Fallback
mod Examples
