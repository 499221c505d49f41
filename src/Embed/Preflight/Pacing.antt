-- ===== src/Embed/Preflight/Pacing.antt =====
-- When the check of preflight.go lets workers claim, and how long it waits.
use integration_console.Prelude.{
  ℕ, ◌≤◌, ◌≡◌, ◌⊎◌, Bool, true, false, List, [], ◌∷◌, ◌++◌, pos, pos_part, arith,
}
use integration_console.Embed.Preflight.{
  Preflight, retry_interval, success_interval, max_retry_interval, new_preflight, ready,
  success_interval_of, base_interval_of, max_interval_of, retry_delay, run_once, next_sleep,
  run_checks,
}

-- Workers may claim exactly while the last check passed: after any checks and one more, the gate is as
-- that one ended, and the time of the check is published.
pub ready-run_checks :
    (p : Preflight) (before : List (ℕ × Bool)) (now : ℕ) (passed : Bool)
    → let p' = run_checks p (before ++ (now, passed) ∷ []) in
      (ready p' ≡ passed) × (p'.last_check_at ≡ now)
unfolding run_checks run_once ready
ready-run_checks p [] now passed = ground arith
ready-run_checks p ((at, b) ∷ before) now passed =
    ready-run_checks (run_once at b p).0 before now passed

-- A gate with the intervals of NewPreflight, whose delay is unset or between 5 seconds and 1 minute.
record IsUsual (p : Preflight) : Type 0 where
  check_interval : p.check_interval ≡ pos retry_interval
  success_every : p.success_every ≡ pos success_interval
  max_interval : p.max_interval ≡ pos max_retry_interval
  sign : p.next_delay ≡ pos (pos_part p.next_delay)
  bounded : (pos_part p.next_delay ≡ 0) ⊎ (retry_interval ≤ pos_part p.next_delay)
  capped : pos_part p.next_delay ≤ max_retry_interval

new_preflight-IsUsual : (b : Bool) → IsUsual (new_preflight b)
unfolding new_preflight
new_preflight-IsUsual b = ground arith

run_once-IsUsual :
    (p : Preflight) (now : ℕ) (passed : Bool) → IsUsual p → IsUsual (run_once now passed p).0
unfolding run_once retry_delay base_interval_of max_interval_of success_interval_of
run_once-IsUsual p now true v = ground arith
run_once-IsUsual p now false v = ground arith

-- The wait that one more check leaves.
next_sleep-run_once :
    (p : Preflight) (now : ℕ) (passed : Bool)
    → IsUsual p
    → (d : ℕ) × (next_sleep (run_once now passed p).0 ≡ pos d)
      × (retry_interval ≤ d)
      × (d ≤ max_retry_interval)
unfolding run_once next_sleep retry_delay base_interval_of max_interval_of success_interval_of
next_sleep-run_once p now true v = (max_retry_interval, ground arith, ground arith, ground arith)
next_sleep-run_once p now false v =
    (pos_part (retry_delay p), ground arith, ground arith, ground arith)

next_sleep-from :
    (p : Preflight) (before : List (ℕ × Bool)) (now : ℕ) (passed : Bool)
    → IsUsual p
    → (d : ℕ) × (next_sleep (run_checks p (before ++ (now, passed) ∷ [])) ≡ pos d)
      × (retry_interval ≤ d)
      × (d ≤ max_retry_interval)
unfolding run_checks
next_sleep-from p [] now passed v = next_sleep-run_once p now passed v
next_sleep-from p ((at, b) ∷ before) now passed v =
    next_sleep-from (run_once at b p).0 before now passed (run_once-IsUsual p at b v)

-- With the intervals of NewPreflight, after any sequence of checks that is not empty, whatever their
-- results and times, the wait before the next one is between 5 seconds and 1 minute.
pub next_sleep-run_checks :
    (before : List (ℕ × Bool)) (now : ℕ) (passed : Bool)
    → (d : ℕ) × (next_sleep (run_checks (new_preflight true) (before ++ (now, passed) ∷ []))
        ≡ pos d)
      × (retry_interval ≤ d)
      × (d ≤ max_retry_interval)
next_sleep-run_checks before now passed =
    next_sleep-from (new_preflight true) before now passed (new_preflight-IsUsual true)
