-- ===== src/Embed/Circuit/Probe.antt =====
-- The open window and the half-open probe of internal/embed/circuit.go.
use integration_console.Prelude.{
  ℕ, ◌+◌, ◌≤◌, ◌<◌, ◌≡◌, Bool, true, false, none, some, List, [], ◌∷◌, pos, arith,
}
use integration_console.Embed.Errors.{Error, is_circuit_failure}
use integration_console.Embed.Circuit.{
  Circuit, closed, half_open, opened, advance, admit, record_outcome, record_success,
  record_failure, trip, mark_check, release_probe, accepted, rejected,
}
use integration_console.Embed.Circuit.Run.{Op, run, step, reads, admits, marks}

-- An open breaker rejects every call before the end of its window with that end, and is left as it
-- was. From the end of the window on it admits one call, the probe, and rejects every later one while
-- that probe has no outcome.
pub admit-opened :
    (c : Circuit) (early now later : ℕ)
    → c.state ≡ opened
    → early < c.opened_until
    → c.opened_until ≤ now
    → (admit early c ≡ (c, rejected c.opened_until))
      × ((admit now c).1 ≡ accepted true)
      × ((admit now c).0.state ≡ half_open)
      × ((admit later (admit now c).0).1 ≡ rejected c.opened_until)
unfolding admit advance
admit-opened c early now later s before after = ground arith

-- The methods that other calls run before they have an outcome.
abbrev pub Waits : Op → Type 0
Waits (reads now) = Unit {0}
Waits (admits now) = Unit {0}
Waits (marks now) = Unit {0}
Waits _ = ⊥

abbrev pub AllWait : List Op → Type 0
AllWait [] = Unit {0}
AllWait (o ∷ os) = Waits o × AllWait os

-- While a probe is out, any number of admissions, readings of the state and marks of a check by others
-- hands out no second probe: the next call is rejected.
pub run-probing :
    (c : Circuit) (os : List Op) (now : ℕ)
    → c.state ≡ half_open
    → c.probing ≡ true
    → AllWait os
    → (admit now (run c os)).1.admitted ≡ false
unfolding run step admit advance mark_check
run-probing c [] now s p w = ground arith
run-probing c (o ∷ os) now s p w = ground (arith, run-probing (step c o) os now)

-- What the outcome of a probe does to a half-open breaker with a positive backoff: a success
-- closes it and clears the count, a failure that counts opens it again for the backoff due, and
-- after a neutral error and the release of the slot the next call is the probe.
pub probe_outcomes :
    (c : Circuit) (now later b : ℕ) (ctx_done : Bool) (counted neutral : Error)
    → c.state ≡ half_open
    → c.backoff ≡ pos b
    → 0 < b
    → is_circuit_failure ctx_done (some counted) ≡ true
    → is_circuit_failure ctx_done (some neutral) ≡ false
    → let won = (record_outcome now ctx_done none c).0 in
      let lost = (record_outcome now ctx_done (some counted) c).0 in
      let (same, is_neutral) = record_outcome now ctx_done (some neutral) c in
      ((won.state ≡ closed) × (won.failures ≡ 0) × ((admit later won).1 ≡ accepted false))
      × ((lost.state ≡ opened) × (lost.opened_until ≡ now + b))
      × ((is_neutral ≡ true) × ((admit later (release_probe same)).1 ≡ accepted true))
unfolding record_outcome record_success record_failure trip admit advance release_probe
probe_outcomes c now later b ctx_done counted neutral s eb hb counts spared = ground arith
