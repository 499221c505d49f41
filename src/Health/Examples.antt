-- ===== src/Health/Examples.antt =====
-- Runs of the theorems on a monitor with two callers, and on one snapshot.
use integration_console.Prelude.{
  ℕ, ◌+◌, ◌≡◌, ◌⊎◌, refl, true, false, none, some, List, [], ◌∷◌, ok, err,
}
use integration_console.Health.{
  Answers, EtlHealth, failed, snapshot_from_db, embedding_dependency_of,
}
use integration_console.Health.Monitor.{
  Event, arrives, enters, stores, ends, new_monitor, run, step, is_closed, start_refresh,
}
use integration_console.Health.SingleFlight.{IsSingle, run-IsSingle, waiter_is_woken}
use integration_console.Health.Gauges.{IsHealthyAnswer, snapshot_from_db-IsHealthyAnswer}

abbrev measured : ℕ → ℕ
measured s = s

abbrev two_callers : List (Event ℕ)
two_callers = arrives ∷ arrives ∷ enters 0 5 ∷ enters 1 6 ∷ stores none ∷ ends ∷ []

run-IsSingle_example : IsSingle (run measured new_monitor two_callers)
run-IsSingle_example = run-IsSingle measured two_callers

waiter_is_woken_example :
    (is_closed 1 (run measured new_monitor two_callers).closed ≡ true)
    ⊎ ((1 ≡ (run measured new_monitor two_callers).refresh_done)
        × ((run measured new_monitor two_callers).refreshing ≡ true)
        × ((run measured new_monitor two_callers).storing
              + (run measured new_monitor two_callers).ending
            ≡ 1))
unfolding run step start_refresh
waiter_is_woken_example = waiter_is_woken measured two_callers 1 1 false refl

abbrev answers : Answers
answers = record {
  wireless = ok (3, some 9);
  ingest = ok (0, 0, 0);
  batches = ok (1, 0, 2, 0);
  open_jobs = ok (1, 1, 0);
  ended_jobs = ok (4, 0);
  backlog = ok (0, 0);
  embeddings = ok (0, 0, 6, 0, 1, none);
  heartbeats = err failed;
  coverage = err failed;
}

abbrev snapshot : EtlHealth
snapshot = record {
  measured_at = 10;
  wireless_events_24h = 3;
  wireless_last_observed_at = some 9;
  ingest_pending = 0;
  ingest_processing = 0;
  ingest_failed = 0;
  batch_pending = 1;
  batch_processing = 0;
  batch_completed = 2;
  batch_failed = 0;
  job_stored_pending = 1;
  job_stored_running = 1;
  job_stored_completed = 4;
  job_stored_failed = 0;
  job_effective_pending = 1;
  job_effective_running = 1;
  job_effective_completed = 4;
  job_effective_failed = 0;
  job_orphaned = 0;
  backlog_pending = 0;
  backlog_failed = 0;
  embedding_pending = 0;
  embedding_leased = 0;
  embedding_completed = 6;
  embedding_failed = 0;
  embedding_retry_count = 1;
  oldest_embedding_job_at = none;
  embedding_dependency = "healthy";
  workers = [];
  source_coverage = [];
}

snapshot_from_db-IsHealthyAnswer_example : IsHealthyAnswer 11 answers
unfolding snapshot_from_db embedding_dependency_of
snapshot_from_db-IsHealthyAnswer_example =
    snapshot_from_db-IsHealthyAnswer 10 11 "m" answers snapshot refl refl
