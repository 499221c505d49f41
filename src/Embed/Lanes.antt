-- ===== src/Embed/Lanes.antt =====
-- LaneClient of atheros-search/internal/embed/circuit.go, the lane of a context of scheduler.go,
-- and LanedClient of lanes.go. A call is its two locked parts, before and after the backend; what
-- the backend answers is an argument.
pub mod Calls
use integration_console.Prelude.{
  ℕ, Bool, true, false, Option, none, some, String, str_eq, Result, ok, err, if◌then◌else◌,
}
use integration_console.Embed.Errors.{Error, sentinel, plain, unavailable, circuit_open}
use integration_console.Embed.Circuit.{
  Circuit, Admission, new_circuit, admit, mark_check, record_outcome, release_probe, snapshot,
  Snapshot, CircuitState, closed, state_of,
}

pub data Lane : Type 0 where
  interactive worker : Lane
  named : String → Lane

abbrev pub is_worker : Lane → Bool
is_worker worker = true
is_worker _ = false

-- WithLane: anything but the worker lane is interactive.
unfoldable pub with_lane : Lane → Lane
with_lane worker = worker
with_lane _ = interactive

-- LaneFromContext, over what the context holds, if anything. An empty name counts as none.
unfoldable pub lane_from_context : Option Lane → Lane
lane_from_context (some (named text)) = if str_eq text "" then interactive else named text
lane_from_context (some lane) = lane
lane_from_context none = interactive

-- The readings of the clock that a call takes.
pub record Readings : Type 0 where
  pub at_admit : ℕ
  pub at_check : ℕ
  pub at_outcome : ℕ

-- The first part of `call`: admission, and the mark of a check where the call goes through.
unfoldable pub begin_call : Readings → Circuit → Circuit × Admission
begin_call t c =
    let (c', answer) = admit t.at_admit c in
    if answer.admitted then (mark_check t.at_check c', answer) else (c', answer)

abbrev pub error_of {ℓ} : {A : Type ℓ} → Result Error A → Option Error
error_of (ok a) = none
error_of (err e) = some e

-- The second part: the outcome is recorded, and the probe's slot released if it was neutral.
unfoldable pub finish_call {ℓ} : {A : Type ℓ} → ℕ → Bool → Result Error A → Circuit → Circuit
finish_call now ctx_done answer c =
    let (c', neutral) = record_outcome now ctx_done (error_of answer) c in
    if neutral then release_probe c' else c'

-- `call` with no other call in between.
unfoldable pub call {ℓ} :
    {A : Type ℓ} → Readings → Bool → Result Error A → Circuit → Circuit × Result Error A
unfolding begin_call finish_call
call t ctx_done answer c =
    let (c', seen) = begin_call t c in
    if seen.admitted
    then (finish_call t.at_outcome ctx_done answer c', answer)
    else (c', err (unavailable seen.retry_at (sentinel circuit_open)))

-- A nil breaker lets every call through.
pub record LaneClient : Type 0 where
  pub lane : Lane
  pub circuit : Option Circuit

unfoldable pub new_lane_client : Lane → LaneClient
unfolding new_circuit
new_lane_client lane = record { lane = lane; circuit = some new_circuit }

through {ℓ} :
    {A : Type ℓ}
    → Option Circuit
    → Readings
    → Bool
    → Result Error A
    → Option Circuit × Result Error A
unfolding call
through none t ctx_done answer = (none, answer)
through (some c) t ctx_done answer =
    let (c', result) = call t ctx_done answer c in (some c', result)

-- Embed and Health: the backend sees the lane of this client.
unfoldable pub lane_embed {ℓ} :
    {A : Type ℓ}
    → Readings
    → Bool
    → (Lane → Result Error A)
    → LaneClient
    → LaneClient × Result Error A
unfolding through with_lane
lane_embed t ctx_done backend client =
    let (circuit, result) = through client.circuit t ctx_done (backend (with_lane client.lane)) in
    (record client { circuit = circuit }, result)

pub record LanedClient : Type 0 where
  pub interactive_client : Option LaneClient
  pub worker_client : Option LaneClient

-- NewLanedClient.
unfoldable pub new_laned_client : LanedClient
unfolding new_lane_client
new_laned_client = record {
  interactive_client = some (new_lane_client interactive);
  worker_client = some (new_lane_client worker);
}

-- ErrNoLanes.
abbrev pub no_lanes : Error
no_lanes = plain "embedding lanes are not configured"

-- Which of the two fields `Lane` selects: the worker's where the lane is the worker's and the field
-- is set.
abbrev pub picks_worker : Lane → LanedClient → Bool
picks_worker worker c = elim c.worker_client [ none ↦ false | some w ↦ true ]
picks_worker _ c = false

serve {ℓ} :
    {A : Type ℓ}
    → Option LaneClient
    → Readings
    → Bool
    → (Lane → Result Error A)
    → Option LaneClient × Result Error A
unfolding lane_embed
serve none t ctx_done backend = (none, err no_lanes)
serve (some client) t ctx_done backend =
    let (client', result) = lane_embed t ctx_done backend client in (some client', result)

unfoldable pub serve_lane {ℓ} :
    {A : Type ℓ}
    → Lane
    → Readings
    → Bool
    → (Lane → Result Error A)
    → LanedClient
    → LanedClient × Result Error A
unfolding serve
serve_lane lane t ctx_done backend c =
    if picks_worker lane c
    then (let (client, result) = serve c.worker_client t ctx_done backend in
        (record c { worker_client = client }, result))
    else (let (client, result) = serve c.interactive_client t ctx_done backend in
        (record c { interactive_client = client }, result))

-- LanedClient.Embed, and Health, which always probes the interactive lane.
unfoldable pub laned_embed {ℓ} :
    {A : Type ℓ}
    → Option Lane
    → Readings
    → Bool
    → (Lane → Result Error A)
    → LanedClient
    → LanedClient × Result Error A
unfolding serve_lane lane_from_context
laned_embed ctx t ctx_done backend c = serve_lane (lane_from_context ctx) t ctx_done backend c

unfoldable pub laned_health {ℓ} :
    {A : Type ℓ}
    → Readings
    → Bool
    → (Lane → Result Error A)
    → LanedClient
    → LanedClient × Result Error A
unfolding serve_lane
laned_health t ctx_done backend c = serve_lane interactive t ctx_done backend c
