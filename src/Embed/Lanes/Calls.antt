-- ===== src/Embed/Lanes/Calls.antt =====
-- What a call through a lane does to the breakers.
use integration_console.Prelude.{
  ℕ, ◌≡◌, Bool, true, false, ◌&&◌, none, some, Result, ok, err, arith, List,
}
use integration_console.Embed.Errors.{
  Error, sentinel, unavailable, circuit_open, is_circuit_failure, retry_time,
}
use integration_console.Embed.Circuit.{
  Circuit, is_half_open, admit, advance, mark_check, record_outcome, record_success, record_failure,
  trip, release_probe, accepted,
}
use integration_console.Embed.Circuit.Run.{Op, run}
use integration_console.Embed.Lanes.{
  Lane, worker, Readings, LaneClient, LanedClient, begin_call, finish_call, call, laned_embed,
  laned_health,
}

-- A call that the breaker rejects leaves the backend's answer unread, carries the end of the window
-- as its retry time, and is neutral for any breaker that sees it.
pub call_rejected {ℓ} :
    {A : Type ℓ} (t : Readings) (ctx_done : Bool) (answer : Result Error A) (c : Circuit)
    → (admit t.at_admit c).1.admitted ≡ false
    → (e : Error) × ((call t ctx_done answer c).1 ≡ err e)
      × (retry_time e ≡ some c.opened_until)
      × (is_circuit_failure ctx_done (some e) ≡ false)
unfolding call admit advance retry_time is_circuit_failure
call_rejected t ctx_done answer c h =
    (unavailable c.opened_until (sentinel circuit_open), ground arith, ground arith, ground arith)

-- No call that runs alone leaks the probe's slot: after an admitted call, whatever its outcome, the
-- breaker is not half-open with the slot taken, and the caller has the backend's answer.
pub call-releases {ℓ} :
    {A : Type ℓ} (t : Readings) (ctx_done : Bool) (answer : Result Error A) (c : Circuit)
    → (admit t.at_admit c).1.admitted ≡ true
    → let (c', result) = call t ctx_done answer c in
      ((is_half_open c'.state && c'.probing) ≡ false) × (result ≡ answer)
unfolding call admit advance mark_check finish_call record_outcome record_success record_failure
    trip release_probe
call-releases t ctx_done (ok a) c h = ground arith
call-releases t ctx_done (err e) c h = ground arith

-- After a call is admitted as the probe, the next one is rejected, unless a call ends with a neutral error
-- in between: it frees the slot.
neutral_frees_probe {ℓ} :
    (A : Type ℓ) (c : Circuit) (t next : Readings) (later : ℕ) (ctx_done : Bool) (e : Error)
    → (begin_call t c).1 ≡ accepted true
    → is_circuit_failure ctx_done (some e) ≡ false
    → ((begin_call next (begin_call t c).0).1.admitted ≡ false)
      × ((begin_call next (finish_call {A = A} later ctx_done (err e) (begin_call t c).0)).1
          ≡ accepted true)
unfolding begin_call admit advance mark_check finish_call record_outcome release_probe
neutral_frees_probe A c t next later ctx_done e h k = ground (arith, h, k)

-- The slot of the probe is not tied to the call that holds it. A call is admitted, not as the probe; after
-- any methods of the breaker, another call is admitted as the probe. Then a third call is rejected; but when
-- the first call ends with a neutral error, while the probe is still out, the third is admitted as a
-- second probe.
pub stale_call_frees_probe {ℓ} :
    (A : Type ℓ) (c : Circuit) (first probe next : Readings) (os : List Op) (later : ℕ)
    (ctx_done : Bool) (e : Error)
    → (begin_call first c).1 ≡ accepted false
    → (begin_call probe (run (begin_call first c).0 os)).1 ≡ accepted true
    → is_circuit_failure ctx_done (some e) ≡ false
    → let held = (begin_call probe (run (begin_call first c).0 os)).0 in
      ((begin_call next held).1.admitted ≡ false)
      × ((begin_call next (finish_call {A = A} later ctx_done (err e) held)).1 ≡ accepted true)
stale_call_frees_probe A c first probe next os later ctx_done e in_first in_probe k =
    neutral_frees_probe A (run (begin_call first c).0 os) probe next later ctx_done e in_probe k

-- Where the worker lane has its client, a call with the worker's lane on its context leaves the
-- interactive client and its breaker alone, and a call with no lane on its context, or a health
-- check, the worker's.
pub laned_embed-isolated {ℓ} :
    {A : Type ℓ} (t : Readings) (ctx_done : Bool) (backend : Lane → Result Error A)
    (c : LanedClient) (w : LaneClient)
    → c.worker_client ≡ some w
    → ((laned_embed (some worker) t ctx_done backend c).0.interactive_client ≡ c.interactive_client)
      × ((laned_embed none t ctx_done backend c).0.worker_client ≡ c.worker_client)
      × ((laned_health t ctx_done backend c).0.worker_client ≡ c.worker_client)
unfolding laned_embed laned_health
laned_embed-isolated t ctx_done backend c w e = ground arith
