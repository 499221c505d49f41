-- ===== src/Embed/Examples.antt =====
-- Runs of the theorems on internal/embed at concrete inputs.
mod Client
use integration_console.Prelude.{
  ℕ, ◌+◌, ◌*◌, ◌≤◌, ◌≡◌, refl, true, false, ◌&&◌, none, some, List, [], ◌∷◌, pos, length, ok, err,
  arith, min, sum_of, if◌then◌else◌, ltb,
}
use integration_console.Embed.Errors.{
  Error, sentinel, plain, wrapped, canceled, retry_time, is_error, is_circuit_failure,
}
use integration_console.Embed.Circuit.{
  advance, Circuit, Settings, closed, half_open, opened, is_half_open, fresh, max_backoff_of,
  failure_max_of, next_backoff, admit, accepted, rejected, record_outcome, release_probe,
  mark_check, record_failure, trip, base_backoff_of,
}
use integration_console.Embed.Circuit.Soundness.{IsSound, next_backoff_lem}
use integration_console.Embed.Circuit.Run.{
  Op, reads, admits, records, releases, run, run-fresh-IsSound, failures_at, run-failures_at, step,
}
use integration_console.Embed.Circuit.Probe.{admit-opened, run-probing, probe_outcomes}
use integration_console.Embed.Lanes.{
  begin_call, Readings, interactive, worker, call, finish_call, new_laned_client, new_lane_client,
  laned_embed, laned_health,
}
use integration_console.Embed.Lanes.Calls.{
  call_rejected, call-releases, stale_call_frees_probe, laned_embed-isolated,
}
use integration_console.Prelude.{
  String, str_eq, str_eq_iff, zero, suc, ◌++◌, ◌==◌, Result, Bool, All, if◌then◌else◌,
}
use integration_console.Embed.Errors.{oversized_index}
use integration_console.Embed.Chunks.{
  Chunk, chunk_count, chunk_one, chunk_tokens, chunk_texts, pieces, pieces_from, piece, rebuild,
}
use integration_console.Embed.Chunks.Cover.{flatten, IsPiece, pieces-IsPiece}
use integration_console.Embed.Chunks.Budget.{chunk_texts-over_budget}
use integration_console.Embed.Requests.{
  Response, pack, pack_from, starts_indexed, all_some, embed_once, vectors_of, place, put_vector,
  validate, embed_inputs, embed_batches,
}
use integration_console.Embed.Requests.Packing.{IsBatch, pack-IsBatch}
use integration_console.Embed.Requests.Placement.{
  IsPlaced, embed_once-IsPlaced, length-embed_inputs,
}
use integration_console.Embed.Preflight.{
  new_preflight, ready, run_once, run_checks, next_sleep, retry_interval, max_retry_interval,
  base_interval_of, max_interval_of, success_interval_of,
}
use integration_console.Embed.Preflight.Pacing.{ready-run_checks, next_sleep-run_checks}
use integration_console.Embed.Cache as Cache
use integration_console.Embed.Cache.{
  QueryCache, Op as CacheOp, gets, puts, invalidates, new_query_cache, get, put,
}
use integration_console.Embed.Cache.Recency.{get-put, length-run}
use integration_console.Embed.Scheduler as Sched
use integration_console.Embed.Scheduler.{
  Event, arrives, moves, proceeds, gives_up, wants_slot, granted, over, start, in_use, waiting,
  advance_call,
}
use integration_console.Embed.Scheduler.Invariant.{
  Counts, of_any, of_worker, has_slot, run-start-Counts,
}
use integration_console.Embed.Scheduler.Safety.{
  slots_bounded, interactive_never_waits, nothing_leaks,
}

-- Two failures, 10 and up to 40 nanoseconds.
abbrev small_settings : Settings
small_settings = record { failure_max = pos 2; base_backoff = pos 10; max_backoff = pos 40 }

abbrev broken : Error
broken = plain "connection refused"

abbrev stopped : Error
stopped = sentinel canceled

abbrev open_circuit : Circuit
open_circuit = record (fresh small_settings) {
  state = opened;
  failures = 2;
  backoff = pos 10;
  opened_until = 110;
  last_failure = 100;
}

abbrev probing_circuit : Circuit
probing_circuit = record open_circuit { state = half_open; probing = true }

abbrev free_circuit : Circuit
free_circuit = record open_circuit { state = half_open }

abbrev readings : Readings
readings = record { at_admit = 200; at_check = 201; at_outcome = 205 }

abbrev outage : List Op
outage =
    records 100 false (some broken)
    ∷ records 101 false (some broken)
    ∷ admits 120
    ∷ records 130 false (some broken)
    ∷ reads 500
    ∷ releases
    ∷ []

run-fresh-IsSound_example : IsSound (run (fresh small_settings) outage)
run-fresh-IsSound_example =
    run-fresh-IsSound small_settings outage (unfold max_backoff_of in ground arith)

abbrev two_failures : List (ℕ × Error)
two_failures = (100, broken) ∷ (101, wrapped "embed" broken) ∷ []

abbrev at_time : ℕ → Readings
at_time now = record { at_admit = now; at_check = now; at_outcome = now }

-- Two other calls fail while the first one runs, and the window passes.
abbrev trips : List Op
trips = records 100 false (some broken) ∷ records 101 false (some broken) ∷ []

stale_call_frees_probe_example :
    let held =
      (begin_call (at_time 120) (run (begin_call (at_time 1) (fresh small_settings)).0 trips)).0 in
    ((begin_call (at_time 122) held).1.admitted ≡ false)
    × ((begin_call (at_time 122) (finish_call {A = ℕ} 121 false (err stopped) held)).1
        ≡ accepted true)
unfolding begin_call admit advance mark_check run step record_outcome record_failure trip
    failure_max_of next_backoff base_backoff_of max_backoff_of is_circuit_failure is_error
stale_call_frees_probe_example =
    stale_call_frees_probe ℕ (fresh small_settings) (at_time 1) (at_time 120) (at_time 122) trips
      121 false stopped refl refl refl

-- Two slots, one of them reserved: a worker call gets a slot, a second one waits for a permit and is
-- cancelled, and an interactive call comes to wait for a slot.
abbrev busy : List Event
busy =
    arrives worker
    ∷ moves 0 proceeds
    ∷ moves 0 proceeds
    ∷ moves 0 proceeds
    ∷ moves 0 proceeds
    ∷ arrives worker
    ∷ moves 1 proceeds
    ∷ moves 1 proceeds
    ∷ moves 1 gives_up
    ∷ arrives interactive
    ∷ moves 2 proceeds
    ∷ []

abbrev alone : List Event
alone =
    arrives worker
    ∷ moves 0 proceeds
    ∷ moves 0 proceeds
    ∷ moves 0 proceeds
    ∷ moves 0 proceeds
    ∷ moves 0 proceeds
    ∷ moves 0 proceeds
    ∷ moves 0 proceeds
    ∷ []

slots_bounded_example :
    let sys = Sched.run (start (pos 2) (pos 1)) busy in
    (sum_of (of_any has_slot) sys.calls ≤ sys.scheduler.total)
    × (sum_of (of_worker has_slot) sys.calls + sys.scheduler.reserved ≤ sys.scheduler.total)
slots_bounded_example = slots_bounded (pos 2) (pos 1) busy

interactive_never_waits_example :
    let s = (Sched.run (start (pos 2) (pos 1)) busy).scheduler in
    advance_call proceeds wants_slot interactive s
    ≡ some (record s { slots = s.slots + 1 }, granted)
unfolding Sched.run Sched.step Sched.new_scheduler advance_call
interactive_never_waits_example = interactive_never_waits (pos 2) (pos 1) busy (ground arith)

nothing_leaks_example :
    let sys = Sched.run (start (pos 2) (pos 1)) alone in
    (sys.scheduler.slots ≡ 0)
    × (sys.scheduler.worker_slots ≡ 0)
    × (in_use sys.scheduler worker ≡ 0)
    × (in_use sys.scheduler interactive ≡ 0)
    × (waiting sys.scheduler worker ≡ 0)
    × (waiting sys.scheduler interactive ≡ 0)
unfolding Sched.run Sched.step Sched.new_scheduler advance_call
nothing_leaks_example = nothing_leaks (pos 2) (pos 1) alone (refl, tt)
