-- ===== src/Embed/Scheduler/Safety.antt =====
-- What the counters promise the two lanes.
use integration_console.Prelude.{
  ℕ, ◌+◌, ◌≤◌, ◌<◌, ◌≡◌, refl, some, List, [], ◌∷◌, ℤ, arith, sum_of, All,
}
use integration_console.Embed.Lanes.{interactive, worker}
use integration_console.Embed.Scheduler.{
  Call, Phase, Event, wants_slot, granted, over, proceeds, advance_call, run, start, in_use,
  waiting,
}
use integration_console.Embed.Scheduler.Invariant.{
  has_slot, has_permit, is_waiting, is_counted, of_any, of_worker, of_other, run-start-Counts,
}

slots_split :
    (cs : List Call)
    → sum_of (of_any has_slot) cs ≡ sum_of (of_worker has_slot) cs + sum_of (of_other has_slot) cs
slots_split [] = omega arith
slots_split (c ∷ cs) = ground (arith, slots_split cs)

slot-le-permit :
    (cs : List Call) → sum_of (of_worker has_slot) cs ≤ sum_of (of_worker has_permit) cs
slot-le-permit [] = omega arith
slot-le-permit (c ∷ cs) = ground (arith, slot-le-permit cs)

-- After any schedule, the calls that hold a slot are at most `total`, those of the worker lane at
-- most `total - reserved`.
pub slots_bounded :
    (total reserved : ℤ) (es : List Event)
    → let sys = run (start total reserved) es in
      (sum_of (of_any has_slot) sys.calls ≤ sys.scheduler.total)
      × (sum_of (of_worker has_slot) sys.calls + sys.scheduler.reserved ≤ sys.scheduler.total)
slots_bounded total reserved es = omega (
  arith,
  run-start-Counts total reserved es,
  slot-le-permit (run (start total reserved) es).calls,
)

-- The reservation: after any schedule, while fewer interactive calls than `reserved` hold a slot, an
-- interactive call that waits for one gets it in one step, however busy the worker lane is.
pub interactive_never_waits :
    (total reserved : ℤ) (es : List Event)
    → sum_of (of_other has_slot) (run (start total reserved) es).calls
      < (run (start total reserved) es).scheduler.reserved
    → let s = (run (start total reserved) es).scheduler in
      advance_call proceeds wants_slot interactive s
      ≡ some (record s { slots = s.slots + 1 }, granted)
unfolding advance_call
interactive_never_waits total reserved es h =
    let sys = run (start total reserved) es in
    ground
      (arith, run-start-Counts total reserved es, slot-le-permit sys.calls, slots_split sys.calls)

over_holds :
    (w : Phase → ℕ) (cs : List Call)
    → w over ≡ 0
    → All (λ c. c.phase ≡ over) cs
    → (sum_of (of_any w) cs ≡ 0) × (sum_of (of_worker w) cs ≡ 0) × (sum_of (of_other w) cs ≡ 0)
over_holds w [] e h = ground arith
over_holds w (c ∷ cs) e h = ground (arith, over_holds w cs e h.1)

-- No permit leaks: after any schedule that leaves every call over, cancelled ones included, both
-- channels are empty again, and no lane is counted as using or waiting.
pub nothing_leaks :
    (total reserved : ℤ) (es : List Event)
    → All (λ c. c.phase ≡ over) (run (start total reserved) es).calls
    → let sys = run (start total reserved) es in
      (sys.scheduler.slots ≡ 0)
      × (sys.scheduler.worker_slots ≡ 0)
      × (in_use sys.scheduler worker ≡ 0)
      × (in_use sys.scheduler interactive ≡ 0)
      × (waiting sys.scheduler worker ≡ 0)
      × (waiting sys.scheduler interactive ≡ 0)
unfolding in_use waiting
nothing_leaks total reserved es h =
    let sys = run (start total reserved) es in
    ground (
      arith,
      run-start-Counts total reserved es,
      over_holds has_slot sys.calls refl h,
      over_holds has_permit sys.calls refl h,
      over_holds is_counted sys.calls refl h,
      over_holds is_waiting sys.calls refl h,
    )
