-- ===== src/Embed/Scheduler.antt =====
-- The admission point of atheros-search/internal/embed/scheduler.go. Many goroutines are inside
-- Acquire and its release function at once: the state is the shared fields and, for each call, how
-- far it has come, and a step is one channel operation or one section under the mutex.
pub mod Invariant
pub mod Safety
use integration_console.Prelude.{
  ℕ, suc, ◌+◌, ◌-◌, Bool, true, false, ◌&&◌, Option, none, some, List, [], ◌∷◌, ◌++◌, ltb, leb,
  ◌==◌, if◌then◌else◌, ℤ, pos, negsuc, get_elem?, set,
}
use integration_console.Embed.Lanes.{Lane, interactive, worker, named, is_worker, with_lane}

-- The channels hold as many tokens as permits are out. The two maps have the two lanes as keys.
pub record Scheduler : Type 0 where
  pub total : ℕ
  pub reserved : ℕ
  pub worker_max : ℕ
  pub slots : ℕ
  pub worker_slots : ℕ
  pub in_use_interactive : ℕ
  pub in_use_worker : ℕ
  pub waiters_interactive : ℕ
  pub waiters_worker : ℕ

abbrev clamp_total : ℤ → ℕ
clamp_total (pos n) = if ltb n 1 then 1 else n
clamp_total (negsuc n) = 1

abbrev clamp_reserved : ℤ → ℕ → ℕ
clamp_reserved (pos n) total = if leb total n then total - 1 else n
clamp_reserved (negsuc n) total = 0

-- NewScheduler.
unfoldable pub new_scheduler : ℤ → ℤ → Scheduler
new_scheduler total reserved =
    let t = clamp_total total in
    let r = clamp_reserved reserved t in
    record {
      total = t;
      reserved = r;
      worker_max = t - r;
      slots = 0;
      worker_slots = 0;
      in_use_interactive = 0;
      in_use_worker = 0;
      waiters_interactive = 0;
      waiters_worker = 0;
    }

-- InUse and Waiting.
unfoldable pub in_use : Scheduler → Lane → ℕ
in_use s lane = if is_worker lane then s.in_use_worker else s.in_use_interactive

unfoldable pub waiting : Scheduler → Lane → ℕ
waiting s lane = if is_worker lane then s.waiters_worker else s.waiters_interactive

-- How far a call has come: it has not begun to wait; it waits for a worker permit (worker lane
-- only); it waits for a slot; it has the slot and not yet ended its wait; it has returned and holds
-- the slot; its release has given back the slot, then the worker permit; or it was cancelled, with
-- its worker permit still to give back, or with its wait still to end; or it is over.
pub data Phase : Type 0 where
  started wants_permit wants_slot granted holding : Phase
  slot_freed permit_freed backing_out cancelled over : Phase

pub record Call : Type 0 where
  pub lane : Lane
  pub phase : Phase

pub record System : Type 0 where
  pub scheduler : Scheduler
  pub calls : List Call

-- What a goroutine does next, where it has a choice: go on, or see that its context is done.
pub data Choice : Type 0 where
  proceeds gives_up : Choice

-- beginWait.
unfoldable pub begin_wait : Lane → Scheduler → Scheduler
begin_wait lane s =
    if is_worker lane
    then record s { waiters_worker = s.waiters_worker + 1 }
    else record s { waiters_interactive = s.waiters_interactive + 1 }

abbrev lower : ℕ → ℕ
lower n = if ltb 0 n then n - 1 else n

-- endWait: the observer that it calls afterwards has no part in the state.
unfoldable pub end_wait : Lane → Bool → Scheduler → Scheduler
end_wait lane was_cancelled s =
    if is_worker lane
    then record s {
      waiters_worker = lower s.waiters_worker;
      in_use_worker = if was_cancelled then s.in_use_worker else s.in_use_worker + 1;
    }
    else record s {
      waiters_interactive = lower s.waiters_interactive;
      in_use_interactive = if was_cancelled then s.in_use_interactive else s.in_use_interactive + 1;
    }

-- The last part of the release function, under the mutex.
unfoldable pub lower_in_use : Lane → Scheduler → Scheduler
lower_in_use lane s =
    if is_worker lane
    then record s { in_use_worker = lower s.in_use_worker }
    else record s { in_use_interactive = lower s.in_use_interactive }

-- A send on a channel with `cap` places blocks while `n` are taken.
abbrev send : ℕ → ℕ → Option ℕ
send n cap = if ltb n cap then some (n + 1) else none

-- A receive blocks on an empty channel.
abbrev receive : ℕ → Option ℕ
receive n = if ltb 0 n then some (n - 1) else none

-- The next step of one call of Acquire, or of its release function; `none` where it blocks.
unfoldable pub advance_call : Choice → Phase → Lane → Scheduler → Option (Scheduler × Phase)
unfolding begin_wait end_wait lower_in_use
advance_call choice started lane s =
    some (begin_wait lane s, if is_worker lane then wants_permit else wants_slot)
advance_call proceeds wants_permit lane s = elim (send s.worker_slots s.worker_max) [
  | some n ↦ some (record s { worker_slots = n }, wants_slot)
  | none ↦ none
]
advance_call gives_up wants_permit lane s = some (s, cancelled)
advance_call proceeds wants_slot lane s = elim (send s.slots s.total) [
  | some n ↦ some (record s { slots = n }, granted)
  | none ↦ none
]
advance_call gives_up wants_slot lane s =
    some (s, if is_worker lane then backing_out else cancelled)
advance_call choice granted lane s = some (end_wait lane false s, holding)
advance_call choice holding lane s = elim (receive s.slots) [
  | some n ↦ some (record s { slots = n }, if is_worker lane then slot_freed else permit_freed)
  | none ↦ none
]
advance_call choice slot_freed lane s = elim (receive s.worker_slots) [
  | some n ↦ some (record s { worker_slots = n }, permit_freed)
  | none ↦ none
]
advance_call choice permit_freed lane s = some (lower_in_use lane s, over)
advance_call choice backing_out lane s = elim (receive s.worker_slots) [
  | some n ↦ some (record s { worker_slots = n }, cancelled)
  | none ↦ none
]
advance_call choice cancelled lane s = some (end_wait lane true s, over)
advance_call choice over lane s = none

-- What may happen next: a goroutine calls Acquire, or the call at an index takes a step.
pub data Event : Type 0 where
  arrives : Lane → Event
  moves : ℕ → Choice → Event

move_call : System → ℕ → Choice → Option Call → Option System
unfolding advance_call
move_call sys i choice none = none
move_call sys i choice (some c) = elim (advance_call choice c.phase c.lane sys.scheduler) [
  | some (s, phase) ↦
      some (record { scheduler = s; calls = set sys.calls i (record c { phase = phase }) })
  | none ↦ none
]

-- One event; `none` where it cannot happen. Acquire folds every other lane into the interactive one.
unfoldable pub step : System → Event → Option System
unfolding move_call with_lane
step sys (arrives lane) =
    some
      (record sys { calls = sys.calls ++ record { lane = with_lane lane; phase = started } ∷ [] })
step sys (moves i choice) = move_call sys i choice (get_elem? sys.calls i)

-- A schedule: events that cannot happen are skipped.
unfoldable pub run : System → List Event → System
unfolding step
run sys [] = sys
run sys (e ∷ es) = elim (step sys e) [ some sys' ↦ run sys' es | none ↦ run sys es ]

abbrev pub start : ℤ → ℤ → System
start total reserved = record { scheduler = new_scheduler total reserved; calls = [] }
