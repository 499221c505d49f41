-- ===== src/Embed/Circuit/Soundness.antt =====
-- The invariant of the breaker of internal/embed/circuit.go, kept by each of its methods.
use integration_console.Prelude.{
  ℕ, ◌+◌, ◌*◌, ◌^◌, ◌≤◌, ◌<◌, ◌≡◌, ◌≢◌, ◌⊎◌, false, pos, pos_part, arith, min,
}
use integration_console.Embed.Circuit.{
  Circuit, closed, half_open, opened, Settings, failure_max_of, base_backoff_of, max_backoff_of,
  next_backoff, advance, admit, mark_check, record_success, trip, record_failure, release_probe,
  fresh,
}

pub base_backoff_of_pos : (c : Circuit) → 0 < base_backoff_of c
unfolding base_backoff_of
base_backoff_of_pos c = ground arith

pub base-le-max : (c : Circuit) → base_backoff_of c ≤ max_backoff_of c
unfolding base_backoff_of max_backoff_of
base-le-max c = ground arith

-- While the bound is below 2 ^ 62 nanoseconds, some 146 years, doubling a backoff between the base
-- and the bound does not wrap: the next one is twice the last, up to the bound.
pub next_backoff_lem :
    (c : Circuit) (b : ℕ)
    → max_backoff_of c < 2 ^ 62
    → c.backoff ≡ pos b
    → base_backoff_of c ≤ b
    → b ≤ max_backoff_of c
    → next_backoff c ≡ pos (min (b * 2) (max_backoff_of c))
unfolding next_backoff
next_backoff_lem c b small e low high = ground (arith, base-le-max c, base_backoff_of_pos c)

-- What holds between two methods. `small` bounds the configured backoff; the count of failures
-- tells whether the breaker has tripped; the backoff is unset or between the base and the bound;
-- an open window ends between one base and one bound after the failure that opened it.
pub record IsSound (c : Circuit) : Type 0 where
  pub small : max_backoff_of c < 2 ^ 62
  pub below : c.state ≡ closed → c.failures < failure_max_of c
  pub above : c.state ≢ closed → failure_max_of c ≤ c.failures
  pub sign : c.backoff ≡ pos (pos_part c.backoff)
  pub capped : pos_part c.backoff ≤ max_backoff_of c
  pub floor : (pos_part c.backoff ≡ 0) ⊎ (base_backoff_of c ≤ pos_part c.backoff)
  pub not_before : c.state ≡ opened → c.last_failure + base_backoff_of c ≤ c.opened_until
  pub not_after : c.state ≡ opened → c.opened_until ≤ c.last_failure + max_backoff_of c
  pub single : c.state ≢ half_open → c.probing ≡ false

failure_max_of_pos : (c : Circuit) → 0 < failure_max_of c
unfolding failure_max_of
failure_max_of_pos c = ground arith

pub fresh-IsSound : (s : Settings) → max_backoff_of (fresh s) < 2 ^ 62 → IsSound (fresh s)
fresh-IsSound s h = ground (arith, failure_max_of_pos (fresh s))

pub advance-IsSound : (now : ℕ) (c : Circuit) → IsSound c → IsSound (advance now c)
unfolding advance failure_max_of base_backoff_of max_backoff_of
advance-IsSound now c v = ground arith

pub mark_check-IsSound : (now : ℕ) (c : Circuit) → IsSound c → IsSound (mark_check now c)
unfolding mark_check failure_max_of base_backoff_of max_backoff_of
mark_check-IsSound now c v = ground arith

pub release_probe-IsSound : (c : Circuit) → IsSound c → IsSound (release_probe c)
unfolding release_probe failure_max_of base_backoff_of max_backoff_of
release_probe-IsSound c v = ground arith

pub admit-IsSound : (now : ℕ) (c : Circuit) → IsSound c → IsSound (admit now c).0
unfolding admit failure_max_of base_backoff_of max_backoff_of
admit-IsSound now c v = ground (arith, advance-IsSound now c v)

pub record_success-IsSound : (now : ℕ) (c : Circuit) → IsSound c → IsSound (record_success now c)
unfolding record_success failure_max_of base_backoff_of max_backoff_of
record_success-IsSound now c v = ground arith

-- A trip needs only the facts about the backoff, and that enough failures have been counted.
trip-IsSound :
    (now : ℕ) (c : Circuit)
    → max_backoff_of c < 2 ^ 62
    → failure_max_of c ≤ c.failures
    → c.backoff ≡ pos (pos_part c.backoff)
    → pos_part c.backoff ≤ max_backoff_of c
    → (pos_part c.backoff ≡ 0) ⊎ (base_backoff_of c ≤ pos_part c.backoff)
    → c.last_failure ≡ now
    → IsSound (trip now c)
unfolding trip failure_max_of base_backoff_of max_backoff_of next_backoff
trip-IsSound now c small above sign capped floor e = ground arith

pub record_failure-IsSound : (now : ℕ) (c : Circuit) → IsSound c → IsSound (record_failure now c)
unfolding record_failure failure_max_of base_backoff_of max_backoff_of
record_failure-IsSound now c v = ground arith
