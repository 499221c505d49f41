-- ===== src/Embed/Preflight.antt =====
-- The background check of atheros-search/internal/embed/preflight.go. The check itself is a parameter
-- by its result; times and durations are as for the breaker. Each locked section is one step, and the
-- loop of Run is a sequence of checks.
pub mod Pacing
use integration_console.Prelude.{
  ℕ, ◌+◌, ◌*◌, ◌^◌, Bool, true, false, not, Option, none, some, List, [], ◌∷◌, ℤ, pos, negsuc,
  positive_or, wrap64, pos_part, ltb, if◌then◌else◌,
}

pub data PreflightState : Type 0 where
  preflight_pending compatible incompatible disabled : PreflightState

abbrev pub same_state : PreflightState → PreflightState → Bool
same_state preflight_pending preflight_pending = true
same_state compatible compatible = true
same_state incompatible incompatible = true
same_state disabled disabled = true
same_state _ _ = false

-- 5 seconds, and 1 minute twice.
abbrev pub retry_interval : ℕ
retry_interval = 5000000000

abbrev pub max_retry_interval : ℕ
max_retry_interval = 60000000000

abbrev pub success_interval : ℕ
success_interval = 60000000000

pub record Preflight : Type 0 where
  pub has_check : Bool
  pub state : PreflightState
  pub last_check_at : ℕ
  pub last_success_at : ℕ
  pub check_interval : ℤ
  pub success_every : ℤ
  pub max_interval : ℤ
  pub next_delay : ℤ

-- NewPreflight.
unfoldable pub new_preflight : Bool → Preflight
new_preflight has_check = record {
  has_check = has_check;
  state = if has_check then preflight_pending else disabled;
  last_check_at = 0;
  last_success_at = 0;
  check_interval = pos retry_interval;
  success_every = pos success_interval;
  max_interval = pos max_retry_interval;
  next_delay = pos 0;
}

-- Ready.
unfoldable pub ready : Preflight → Bool
ready p = same_state p.state compatible

-- successInterval.
unfoldable pub success_interval_of : Preflight → ℕ
success_interval_of p = positive_or p.success_every success_interval

unfoldable pub base_interval_of : Preflight → ℕ
base_interval_of p = positive_or p.check_interval retry_interval

unfoldable pub max_interval_of : Preflight → ℕ
unfolding base_interval_of
max_interval_of p =
    let max = positive_or p.max_interval max_retry_interval in
    if ltb max (base_interval_of p) then base_interval_of p else max

abbrev above : ℤ → ℕ → Bool
above (pos n) b = ltb b n
above (negsuc n) b = false

abbrev below : ℤ → ℕ → Bool
below (pos n) b = ltb n b
below (negsuc n) b = true

-- nextBackoffLocked. Doubling an int64 wraps.
unfoldable pub retry_delay : Preflight → ℤ
unfolding base_interval_of max_interval_of
retry_delay p =
    if below p.next_delay (base_interval_of p)
    then pos (base_interval_of p)
    else (let next = wrap64 (pos_part p.next_delay * 2) in
        if above next (max_interval_of p) then pos (max_interval_of p) else next)

-- runOnce: what it publishes, and the state that the observer is told, if it changed.
unfoldable pub run_once : ℕ → Bool → Preflight → Preflight × Option PreflightState
unfolding success_interval_of retry_delay
run_once now passed p =
    let p' =
      if passed
      then record p {
        last_check_at = now;
        last_success_at = now;
        state = compatible;
        next_delay = pos (success_interval_of p);
      }
      else record p { last_check_at = now; state = incompatible; next_delay = retry_delay p } in
    (p', if same_state p.state p'.state then none else some p'.state)

-- nextSleep.
unfoldable pub next_sleep : Preflight → ℤ
unfolding success_interval_of
next_sleep p = if same_state p.state compatible then pos (success_interval_of p) else p.next_delay

-- The checks of Run and CheckNow, with the clock and the result of each. Run does nothing without a check.
unfoldable pub run_checks : Preflight → List (ℕ × Bool) → Preflight
unfolding run_once
run_checks p [] = p
run_checks p ((now, passed) ∷ rest) = run_checks (run_once now passed p).0 rest
