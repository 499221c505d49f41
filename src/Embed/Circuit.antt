-- ===== src/Embed/Circuit.antt =====
-- One lane's breaker, atheros-search/internal/embed/circuit.go. A time is a number of nanoseconds
-- since Go's zero time, which is 0; each method takes the reading of the clock as `now`. A
-- duration is an int64. The mutex makes each method one step. The failure count is an `int` that
-- is left unbounded.
pub mod Soundness
pub mod Run
pub mod Probe
use integration_console.Prelude.{
  ℕ, suc, ◌+◌, ◌*◌, ◌-◌, ◌^◌, ◌≤◌, ◌<◌, ◌≡◌, refl, Bool, true, false, ◌&&◌, ◌||◌, not, Option, none,
  some, ℤ, pos, negsuc, positive, positive_or, pos_part, wrap64, ltb, leb, ◌==◌, if◌then◌else◌,
}
use integration_console.Embed.Errors.{Error, is_circuit_failure}

pub data CircuitState : Type 0 where
  closed half_open : CircuitState
  opened : CircuitState

abbrev pub default_failure_max : ℕ
default_failure_max = 3

-- 10 seconds and 2 minutes.
abbrev pub default_base_backoff : ℕ
default_base_backoff = 10000000000

abbrev pub default_max_backoff : ℕ
default_max_backoff = 120000000000

pub record Settings : Type 0 where
  pub failure_max : ℤ
  pub base_backoff : ℤ
  pub max_backoff : ℤ

pub record Circuit : Type 0 where
  pub settings : Settings
  pub open settings use *
  pub state : CircuitState
  pub failures : ℕ
  pub backoff : ℤ
  pub opened_until : ℕ
  pub probing : Bool
  pub last_check_at : ℕ
  pub last_success : ℕ
  pub last_failure : ℕ

pub record Snapshot : Type 0 where
  pub state : CircuitState
  pub failures : ℕ
  pub retry_at : ℕ
  pub last_check_at : ℕ
  pub last_success_at : ℕ
  pub last_failure_at : ℕ

-- A breaker with these settings before its first call: every other field is zero.
abbrev pub fresh : Settings → Circuit
fresh s = record {
  settings = s;
  state = closed;
  failures = 0;
  backoff = pos 0;
  opened_until = 0;
  probing = false;
  last_check_at = 0;
  last_success = 0;
  last_failure = 0;
}

-- NewCircuit.
unfoldable pub new_circuit : Circuit
new_circuit = fresh (record {
  failure_max = pos default_failure_max;
  base_backoff = pos default_base_backoff;
  max_backoff = pos default_max_backoff;
})

abbrev pub is_open : CircuitState → Bool
is_open opened = true
is_open _ = false

abbrev pub is_half_open : CircuitState → Bool
is_half_open half_open = true
is_half_open _ = false

unfoldable pub failure_max_of : Circuit → ℕ
failure_max_of c = positive_or c.failure_max default_failure_max

unfoldable pub base_backoff_of : Circuit → ℕ
base_backoff_of c = positive_or c.base_backoff default_base_backoff

-- The upper bound that nextBackoffLocked computes before it doubles.
unfoldable pub max_backoff_of : Circuit → ℕ
unfolding base_backoff_of
max_backoff_of c =
    let max = positive_or c.max_backoff default_max_backoff in
    if ltb max (base_backoff_of c) then base_backoff_of c else max

-- `x * 2` on int64 durations that are not negative.
abbrev pub twice : ℕ → ℤ
twice n = wrap64 (n * 2)

-- `x <= b` and `x > b`, for `b` that is not negative.
abbrev pub at_most : ℤ → ℕ → Bool
at_most (pos n) b = leb n b
at_most (negsuc n) b = true

-- nextBackoffLocked. It is only reached with a backoff that is positive.
unfoldable pub next_backoff : Circuit → ℤ
unfolding base_backoff_of max_backoff_of
next_backoff c =
    let base = base_backoff_of c in
    let max = max_backoff_of c in
    let doubled = twice (pos_part c.backoff) in
    let next = if at_most doubled base then twice base else doubled in
    if at_most next max then next else pos max

-- advanceLocked.
unfoldable pub advance : ℕ → Circuit → Circuit
advance now c =
    if is_open c.state && (not (c.opened_until == 0) && not (ltb now c.opened_until))
    then record c { state = half_open; probing = false }
    else c

-- What `admit` answers: the retry time, whether the call goes through, whether it is the probe.
pub record Admission : Type 0 where
  pub retry_at : ℕ
  pub admitted : Bool
  pub probe : Bool

abbrev pub rejected : ℕ → Admission
rejected at = record { retry_at = at; admitted = false; probe = false }

abbrev pub accepted : Bool → Admission
accepted probe = record { retry_at = 0; admitted = true; probe = probe }

admit_in : CircuitState → Circuit → Circuit × Admission
admit_in opened c = (c, rejected c.opened_until)
admit_in half_open c =
    if c.probing then (c, rejected c.opened_until) else (record c { probing = true }, accepted true)
admit_in closed c = (c, accepted false)

unfoldable pub admit : ℕ → Circuit → Circuit × Admission
unfolding advance admit_in
admit now c = let c' = advance now c in admit_in c'.state c'

unfoldable pub mark_check : ℕ → Circuit → Circuit
mark_check now c = record c { last_check_at = now }

-- The success branch of `record`.
unfoldable pub record_success : ℕ → Circuit → Circuit
record_success now c = record c {
  last_check_at = now;
  last_success = now;
  failures = 0;
  backoff = pos 0;
  state = closed;
  probing = false;
  opened_until = 0;
}

-- The reopening inside `record`: a backoff that is not positive starts at the base.
unfoldable pub trip : ℕ → Circuit → Circuit
unfolding base_backoff_of next_backoff
trip now c =
    let wait = positive_or c.backoff (base_backoff_of c) in
    record c {
      state = opened;
      probing = false;
      opened_until = now + wait;
      backoff = next_backoff (record c { backoff = pos wait });
    }

-- The branch of `record` for a failure that counts.
unfoldable pub record_failure : ℕ → Circuit → Circuit
unfolding failure_max_of trip
record_failure now c =
    let counted = record c { last_check_at = now; last_failure = now; failures = c.failures + 1 } in
    if is_half_open c.state || leb (failure_max_of c) (c.failures + 1)
    then trip now counted
    else counted

-- `record`: the new breaker, and whether the outcome was neutral.
unfoldable pub record_outcome : ℕ → Bool → Option Error → Circuit → Circuit × Bool
unfolding record_success record_failure is_circuit_failure
record_outcome now ctx_done none c = (record_success now c, false)
record_outcome now ctx_done (some e) c =
    if is_circuit_failure ctx_done (some e) then (record_failure now c, false) else (c, true)

unfoldable pub release_probe : Circuit → Circuit
release_probe c = if is_half_open c.state then record c { probing = false } else c

-- State and Snapshot let an elapsed window advance first.
unfoldable pub state_of : ℕ → Circuit → Circuit × CircuitState
unfolding advance
state_of now c = (advance now c, (advance now c).state)

unfoldable pub retry_at_of : Circuit → ℕ
retry_at_of c = if is_open c.state then c.opened_until else 0

unfoldable pub snapshot : ℕ → Circuit → Circuit × Snapshot
unfolding advance retry_at_of
snapshot now c =
    let c' = advance now c in
    (
      c',
      record {
        state = c'.state;
        failures = c'.failures;
        retry_at = retry_at_of c';
        last_check_at = c'.last_check_at;
        last_success_at = c'.last_success;
        last_failure_at = c'.last_failure;
      },
    )
