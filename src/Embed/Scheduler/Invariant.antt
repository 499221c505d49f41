-- ===== src/Embed/Scheduler/Invariant.antt =====
-- The shared counters of the scheduler are exactly the permits that the calls hold.
use integration_console.Prelude.{
  ℕ, ◌+◌, ◌≤◌, ◌<◌, ◌≡◌, refl, inl, inr, true, false, Option, none, some, List, [], ◌∷◌, ◌++◌, ℤ,
  arith, get_elem?, set, sum_of, sum_of-set, sum_of-ge, sum_of-append, Option-cases, subst,
}
use integration_console.Embed.Lanes.{Lane, is_worker, with_lane}
use integration_console.Embed.Scheduler.{
  Scheduler, System, Call, Phase, Choice, Event, started, wants_permit, wants_slot, granted,
  holding, slot_freed, permit_freed, backing_out, cancelled, arrives, moves, advance_call,
  move_call, new_scheduler, step, run, start,
}

-- What one call contributes to a counter: a token of the slot channel, ...
abbrev pub has_slot : Phase → ℕ
has_slot granted = 1
has_slot holding = 1
has_slot _ = 0

-- ... a token of the worker channel, ...
abbrev pub has_permit : Phase → ℕ
has_permit wants_slot = 1
has_permit granted = 1
has_permit holding = 1
has_permit slot_freed = 1
has_permit backing_out = 1
has_permit _ = 0

-- ... a caller that waits, ...
abbrev pub is_waiting : Phase → ℕ
is_waiting wants_permit = 1
is_waiting wants_slot = 1
is_waiting granted = 1
is_waiting backing_out = 1
is_waiting cancelled = 1
is_waiting _ = 0

-- ... a slot that the lane is counted as using.
abbrev pub is_counted : Phase → ℕ
is_counted holding = 1
is_counted slot_freed = 1
is_counted permit_freed = 1
is_counted _ = 0

-- Only a worker's call is ever in these.
abbrev pub is_worker_only : Phase → ℕ
is_worker_only wants_permit = 1
is_worker_only slot_freed = 1
is_worker_only backing_out = 1
is_worker_only _ = 0

abbrev pub of_worker : (Phase → ℕ) → Call → ℕ
of_worker w c = elim (is_worker c.lane) [ true ↦ w c.phase | false ↦ 0 ]

abbrev pub of_other : (Phase → ℕ) → Call → ℕ
of_other w c = elim (is_worker c.lane) [ true ↦ 0 | false ↦ w c.phase ]

abbrev pub of_any : (Phase → ℕ) → Call → ℕ
of_any w c = w c.phase

pub record Counts (s : Scheduler) (cs : List Call) : Type 0 where
  pub slots_held : s.slots ≡ sum_of (of_any has_slot) cs
  pub permits_held : s.worker_slots ≡ sum_of (of_worker has_permit) cs
  pub waits_worker : s.waiters_worker ≡ sum_of (of_worker is_waiting) cs
  pub waits_other : s.waiters_interactive ≡ sum_of (of_other is_waiting) cs
  pub used_worker : s.in_use_worker ≡ sum_of (of_worker is_counted) cs
  pub used_other : s.in_use_interactive ≡ sum_of (of_other is_counted) cs
  pub placed : sum_of (of_other is_worker_only) cs ≡ 0
  pub slots_fit : s.slots ≤ s.total
  pub permits_fit : s.worker_slots ≤ s.worker_max
  pub split : s.worker_max + s.reserved ≡ s.total
  pub unreserved : 0 < s.worker_max

abbrev pub call_at : Lane → Phase → Call
call_at lane p = record { lane = lane; phase = p }

-- One step of the call at `i` moves its weights with the counters.
module _ (cs : List Call) (i : ℕ) (lane : Lane) (p q : Phase)
    (at : get_elem? cs i ≡ some (call_at lane p)) where
  moved :
      (w : Call → ℕ)
      → sum_of w (set cs i (call_at lane q)) + w (call_at lane p) ≡ sum_of w cs + w (call_at lane q)
  moved w = sum_of-set w cs i (call_at lane p) (call_at lane q) at

  held : (w : Call → ℕ) → w (call_at lane p) ≤ sum_of w cs
  held w = sum_of-ge w cs i (call_at lane p) at

  advance_call-Counts :
      (choice : Choice) (s t : Scheduler)
      → advance_call choice p lane s ≡ some (t, q)
      → Counts s cs
      → Counts t (set cs i (call_at lane q))
  unfolding advance_call
  advance_call-Counts choice s t went v = ground (
    arith,
    moved (of_any has_slot),
    moved (of_worker has_permit),
    moved (of_worker is_waiting),
    moved (of_other is_waiting),
    moved (of_worker is_counted),
    moved (of_other is_counted),
    moved (of_other is_worker_only),
    held (of_any has_slot),
    held (of_worker has_permit),
    held (of_worker is_waiting),
    held (of_other is_waiting),
    held (of_worker is_counted),
    held (of_other is_counted),
    held (of_other is_worker_only),
  )

move_call-Counts :
    (sys sys' : System) (i : ℕ) (choice : Choice) (o : Option Call)
    → get_elem? sys.calls i ≡ o
    → move_call sys i choice o ≡ some sys'
    → Counts sys.scheduler sys.calls
    → Counts sys'.scheduler sys'.calls
unfolding move_call
move_call-Counts sys sys' i choice none at went v = cc
move_call-Counts sys sys' i choice (some c) at went v =
    elim (Option-cases (advance_call choice c.phase c.lane sys.scheduler)) [
      | inl stuck ↦ absurd (ground (arith, stuck))
      | inr (r, e) ↦
          subst {A = System} (λ z. Counts z.scheduler z.calls) (ground (arith, e))
            (advance_call-Counts sys.calls i c.lane c.phase r.1 at choice sys.scheduler r.0 e v)
    ]

arrives-Counts :
    (s : Scheduler) (cs : List Call) (lane : Lane)
    → Counts s cs
    → Counts s (cs ++ call_at lane started ∷ [])
arrives-Counts s cs lane v = ground (
  arith,
  sum_of-append (of_any has_slot) cs (call_at lane started ∷ []),
  sum_of-append (of_worker has_permit) cs (call_at lane started ∷ []),
  sum_of-append (of_worker is_waiting) cs (call_at lane started ∷ []),
  sum_of-append (of_other is_waiting) cs (call_at lane started ∷ []),
  sum_of-append (of_worker is_counted) cs (call_at lane started ∷ []),
  sum_of-append (of_other is_counted) cs (call_at lane started ∷ []),
  sum_of-append (of_other is_worker_only) cs (call_at lane started ∷ []),
)

-- Every event that can happen keeps the counters equal to what the calls hold.
pub step-Counts :
    (sys sys' : System) (e : Event)
    → step sys e ≡ some sys'
    → Counts sys.scheduler sys.calls
    → Counts sys'.scheduler sys'.calls
unfolding step
step-Counts sys sys' (arrives lane) went v =
    subst {A = System} (λ z. Counts z.scheduler z.calls) (ground arith)
      (arrives-Counts sys.scheduler sys.calls (with_lane lane) v)
step-Counts sys sys' (moves i choice) went v =
    move_call-Counts sys sys' i choice (get_elem? sys.calls i) refl went v

pub start-Counts : (total reserved : ℤ) → Counts (new_scheduler total reserved) []
unfolding new_scheduler
start-Counts total reserved = ground arith

run-Counts :
    (sys : System) (es : List Event)
    → Counts sys.scheduler sys.calls
    → Counts (run sys es).scheduler (run sys es).calls
unfolding run
run-Counts sys [] v = v
run-Counts sys (e ∷ es) v = elim (Option-cases (step sys e)) [
  | inl stuck ↦ rw (stuck, run) (run-Counts sys es v)
  | inr (t, went) ↦ rw (went, run) (run-Counts t es (step-Counts sys t e went v))
]

-- From a new scheduler, whatever its two arguments, and after any schedule of calls, cancellations
-- and releases: each counter is exactly the number of calls that hold what it counts.
pub run-start-Counts :
    (total reserved : ℤ) (es : List Event)
    → let sys = run (start total reserved) es in Counts sys.scheduler sys.calls
run-start-Counts total reserved es =
    run-Counts (start total reserved) es (start-Counts total reserved)
