-- ===== src/Search/Examples.antt =====
-- A run of the theorem on fallback.go at a concrete input.
use integration_console.Prelude.{◌≡◌, refl, false, ℕ, ok, err, pos}
use integration_console.Embed.Errors.{Error}
use integration_console.Embed.Circuit.{Circuit, opened, fresh, admit, advance}
use integration_console.Embed.Lanes.{Readings, call}
use integration_console.Search.Fallback.{search_leg_failure, degrades, search_leg_failure-call}

abbrev open_circuit : Circuit
open_circuit =
    record (fresh (record { failure_max = pos 2; base_backoff = pos 10; max_backoff = pos 40 })) {
      state = opened;
      failures = 2;
      backoff = pos 10;
      opened_until = 110;
      last_failure = 100;
    }

abbrev readings : Readings
readings = record { at_admit = 105; at_check = 105; at_outcome = 106 }

search_leg_failure-call_example :
    (e : Error) × ((call {A = ℕ} readings false (ok 7) open_circuit).1 ≡ err e)
    × (search_leg_failure false e
        ≡ degrades (record {
          code = "embedding_backend_unavailable";
          message = "semantic backend unavailable";
          retry_at = 110;
        }))
unfolding admit advance
search_leg_failure-call_example = search_leg_failure-call readings (ok 7) open_circuit refl
