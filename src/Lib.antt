-- ===== src/Lib.antt =====
-- The Go service atheros-search keeps its search index fresh with embeddings. Workers claim jobs
-- from a table under leases, embed the documents' texts through a client that is split into lanes,
-- each with a circuit breaker, over a backend with few slots that a scheduler hands out, and store
-- the vectors with the completed jobs. This library models those parts.
--
-- Prelude: numbers, tests, lists, Go's int64, results.
--
-- Embed, for atheros-search/internal/embed:
--   Embed/Errors       budget.go, unavailable.go, IsCircuitFailure of circuit.go: errors as values,
--                      with errors.Is and errors.As over their causes.
--   Embed/Circuit      circuit.go: Circuit with its locked methods (admit, record as
--                      `record_outcome`, releaseProbe, State as `state_of`, Snapshot). Children:
--                      Soundness (the invariant), Run (sequences of methods), Probe.
--   Embed/Lanes        circuit.go and lanes.go: LaneClient.call as its two locked parts
--                      (`begin_call`, `finish_call`), LanedClient.
--   Embed/Scheduler    scheduler.go: Acquire and its release function, one step for each channel
--                      operation or locked section, interleaved freely between calls (`step`, `run`).
--                      Children: Invariant, Safety.
--   Embed/Chunks       tokens.go: chunkOne, ChunkTexts. Children: Cover, Budget.
--   Embed/Requests     client.go: embedInputs (`pack`, `embed_inputs`) and embedOnce (`place`,
--                      `embed_once`). Children: Packing, Placement.
--   Embed/Preflight    preflight.go: runOnce, nextSleep, Ready. Child: Pacing.
--   Embed/Cache        cache.go: QueryCache, CachedClient.Embed. Children: Keys (what a
--                      key tells apart), Recency, Invalidation.
--
-- Search, for atheros-search/internal/search: Search/Fallback is fallback.go.
--
-- Worker, for atheros-search/internal/worker:
--   Worker/Jobs        lease.go: the table, and the statements that end or renew a lease.
--   Worker/Claim       lease.go and scope.go: claimJobs and recoverExpiredLeases.
--   Worker/Protocol    any sequence of these statements by any workers. Children: Rows, Keys and
--                      Steps (what a row may become), Fencing (what the holder of a lease may do).
--   Worker/Store       scope.go, lease.go, worker.go: guardCompletion, insertVector,
--                      storeCompletion, storeCompletions.
--   Worker/Groups      worker.go: orderedJobGroups, remainingJobs.
--   Worker/Batch       worker.go: processBatch and embedGroup, with the other workers' transactions
--                      in between. Children: Transactions, Safety, Rounds, Deferral.
--
-- Reporting, for atheros-search/internal/reporting: Reporting/Filters is graph_normalize.go, with the list
-- of queryscope/scope.go. Child: Normal (the form of what it returns).
--   Reporting/Tree     graph_hierarchy.go: buildPresentationTree, its loops as functions. Children: Lookup
--                      (reading after writing), Forest, Touch, Growth (the queue), Visits, Whole.
--   Reporting/Focus    graph_assembly.go: focusGraphAroundMAC. Children: Hop, Reach.
--
-- SavedViews, for atheros-search/internal/savedviews: the checks and normal forms of savedviews.go.
--   SavedViews/Store   the table and the operations, as sequences (`step`, `run`). Plans, Counts,
--                      Invariant, Refinement, Isolation, Revisions and Streams hold what is proved.
--
-- Auth, for atheros-search/internal/auth: AuthorizeIdentity and verify of auth.go. Children: Keys (the cache of
-- signing keys), Grants, Freshness, Spacing, Memory.
--
-- Health, for atheros-search/internal/etlhealth: the gauges of health.go. Children: Monitor (Snapshot and
-- refresh as interleaved steps), SingleFlight, Gauges.
--
-- Dedup, for atheros-search/internal/dedup: service.go. Children: Workspace (workspace.go),
-- Parameters, Scope, Access.
--
-- The embedding client calls the breaker, the breaker reads the errors, the worker and the search
-- read retry times and oversized inputs from the same errors, and the worker's transactions are steps of
-- the lease protocol. Saved views normalise their filters with those of the reports.
--
-- Bounds. Times are natural numbers with 0 for the zero time; a duration is an int64 that wraps, and
-- the breaker's bound is taken below 2 ^ 62 nanoseconds, some 146 years, so that doubling a backoff
-- does not wrap. Counters that only count calls or attempts are not bounded. `embed_group` takes fuel,
-- one more than the group has jobs: each round that does not return removes a job. `visit` takes one more
-- than there are nodes: each node is queued once. A schedule is a list
-- of events; an event that cannot happen is skipped. Texts whose characters are read are lists of code
-- points, with the case of ASCII letters; the revision of a saved view is not bounded.
--
-- Parameters: the backend's answers, the clock, SHA-256, the order of ids, generated tokens, the rows
-- that other transactions have locked, the transactions of other workers, and whether a transaction
-- begins and commits; for a token its decoding and its signature, for the DQ manager its answers, JSON
-- and URLs, for the saved views what the database's index answers, strings.EqualFold
-- and the database's lower(). The hash of a cache key is a parameter too.
--
-- Not modelled: the HTTP transport, the texts of errors and logs, metrics, the heartbeat table, timers
-- and the goroutines' start and stop, and the other parts of the service.
pub mod Prelude
pub mod Embed
pub mod Worker
pub mod Search
pub mod Reporting
pub mod SavedViews
pub mod Auth
pub mod Health
pub mod Dedup
