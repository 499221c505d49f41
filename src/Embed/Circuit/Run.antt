-- ===== src/Embed/Circuit/Run.antt =====
-- Sequences of the breaker's methods, in any interleaving of the calls of a lane.
use integration_console.Prelude.{
  ℕ, ◌+◌, ◌^◌, ◌≤◌, ◌<◌, ◌≡◌, ◌≢◌, Bool, true, false, Option, none, some, List, [], ◌∷◌, length,
  ltb, if◌then◌else◌, arith,
}
use integration_console.Embed.Errors.{Error, is_circuit_failure}
use integration_console.Embed.Circuit.{
  Circuit, Settings, closed, half_open, opened, failure_max_of, max_backoff_of, advance, admit,
  mark_check, record_failure, record_outcome, release_probe, fresh,
}
use integration_console.Embed.Circuit.Soundness.{
  IsSound, fresh-IsSound, advance-IsSound, admit-IsSound, mark_check-IsSound, release_probe-IsSound,
  record_success-IsSound, record_failure-IsSound,
}

-- One locked method, with the clock's reading. `reads` is State or Snapshot.
pub data Op : Type 0 where
  reads : ℕ → Op
  admits : ℕ → Op
  marks : ℕ → Op
  records : ℕ → Bool → Option Error → Op
  releases : Op

unfoldable pub step : Circuit → Op → Circuit
step c (reads now) = advance now c
step c (admits now) = (admit now c).0
step c (marks now) = mark_check now c
step c (records now ctx_done result) = (record_outcome now ctx_done result c).0
step c releases = release_probe c

unfoldable pub run : Circuit → List Op → Circuit
run c [] = c
run c (o ∷ os) = run (step c o) os

pub record_outcome-IsSound :
    (now : ℕ) (ctx_done : Bool) (result : Option Error) (c : Circuit)
    → IsSound c
    → IsSound (record_outcome now ctx_done result c).0
unfolding record_outcome
record_outcome-IsSound now ctx_done none c v = record_success-IsSound now c v
record_outcome-IsSound now ctx_done (some e) c v = ground (arith, record_failure-IsSound now c v)

-- Each method of the breaker, whatever its inputs, keeps the invariant: the failure count tells
-- the state, the backoff stays between the base and the bound, and the open window with it.
pub step-IsSound : (c : Circuit) (o : Op) → IsSound c → IsSound (step c o)
unfolding step
step-IsSound c (reads now) v = advance-IsSound now c v
step-IsSound c (admits now) v = admit-IsSound now c v
step-IsSound c (marks now) v = mark_check-IsSound now c v
step-IsSound c (records now ctx_done result) v = record_outcome-IsSound now ctx_done result c v
step-IsSound c releases v = release_probe-IsSound c v

run-IsSound : (c : Circuit) (os : List Op) → IsSound c → IsSound (run c os)
unfolding run
run-IsSound c [] v = v
run-IsSound c (o ∷ os) v = run-IsSound (step c o) os (step-IsSound c o v)

-- A new breaker whose largest backoff is below 2 ^ 62 nanoseconds satisfies the invariant after
-- any sequence of method calls, at any clock readings and with any outcomes: the failure count
-- tells whether it has tripped, the backoff is unset or between the base and the bound, an open
-- window ends between one base and one bound after the last failure, and a probe is out only while
-- it is half-open.
pub run-fresh-IsSound :
    (s : Settings) (os : List Op) → max_backoff_of (fresh s) < 2 ^ 62 → IsSound (run (fresh s) os)
run-fresh-IsSound s os h = run-IsSound (fresh s) os (fresh-IsSound s h)

-- The failures of calls that were admitted: each at a time, with an error that counts.
abbrev pub failures_at : List (ℕ × Error) → List Op
failures_at [] = []
failures_at ((now, e) ∷ es) = records now false (some e) ∷ failures_at es

abbrev pub AllCount : List (ℕ × Error) → Type 0
AllCount [] = Unit {0}
AllCount ((now, e) ∷ es) = (is_circuit_failure false (some e) ≡ true) × AllCount es

-- On a breaker that is not half-open, and whose count of failures tells whether it is open,
-- consecutive failures that count only add up, and it is open once they reach the maximum.
pub run-failures_at :
    (c : Circuit) (es : List (ℕ × Error))
    → c.state ≢ half_open
    → (c.state ≡ closed → c.failures < failure_max_of c)
    → (c.state ≡ opened → failure_max_of c ≤ c.failures)
    → AllCount es
    → ((run c (failures_at es)).failures ≡ c.failures + length es)
      × ((run c (failures_at es)).state
          ≡ (if ltb (c.failures + length es) (failure_max_of c) then closed else opened))
unfolding run step record_outcome failure_max_of record_failure
run-failures_at c [] h below above all = ground arith
run-failures_at c ((now, e) ∷ es) h below above all =
    ground (arith, run-failures_at (step c (records now false (some e))) es)
