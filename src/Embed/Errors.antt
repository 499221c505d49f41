-- ===== src/Embed/Errors.antt =====
-- The errors of internal/embed (budget.go, unavailable.go, circuit.go) as values, with the
-- standard library's `errors.Is` and `errors.As` over their chains of causes.
use integration_console.Prelude.{
  ℕ, ◌≡◌, refl, Bool, true, false, ◌||◌, Option, none, some, ℤ, String, if◌then◌else◌,
}

-- The package-level error variables that the code compares with. `oversized` is
-- ErrOversizedInput, `chunk_budget` errChunkBudget, `canceled` and `deadline` those of `context`.
pub data Sentinel : Type 0 where
  oversized invalid_request circuit_open backend_unavailable : Sentinel
  capacity_exhausted invalid_response chunk_budget canceled deadline : Sentinel

-- `==` on the error variables.
unfoldable pub same : Sentinel → Sentinel → Bool
same oversized oversized = true
same invalid_request invalid_request = true
same circuit_open circuit_open = true
same backend_unavailable backend_unavailable = true
same capacity_exhausted capacity_exhausted = true
same invalid_response invalid_response = true
same chunk_budget chunk_budget = true
same canceled canceled = true
same deadline deadline = true
same _ _ = false

-- An error value. `plain` is an error that matches no variable; `wrapped` is `fmt.Errorf` with
-- `%w` around another error; `unavailable` is BackendUnavailableError with its retry time (0 for
-- the zero time) and cause, `bare_unavailable` the same with no cause; `oversized_input` is
-- OversizedInputError; `capacity` is capacityCause.
pub data Error : Type 0 where
  sentinel : Sentinel → Error
  plain : String → Error
  wrapped : String → Error → Error
  unavailable : ℕ → Error → Error
  bare_unavailable : ℕ → Error
  oversized_input : ℤ → Error → Error
  capacity : Error → Error

-- `errors.Is`: the error itself, its `Is` method, then what it unwraps to.
unfoldable pub is_error : Error → Sentinel → Bool
unfolding same
is_error (sentinel s) t = same s t
is_error (plain text) t = false
is_error (wrapped text e) t = is_error e t
is_error (unavailable at e) t = same t backend_unavailable || is_error e t
is_error (bare_unavailable at) t = same t backend_unavailable
is_error (oversized_input i e) t = same t oversized || is_error e t
is_error (capacity e) t = same t capacity_exhausted || is_error e t

-- RetryTime: `errors.As` for a BackendUnavailableError; `none` is its `false` result.
unfoldable pub retry_time : Error → Option ℕ
retry_time (sentinel s) = none
retry_time (plain text) = none
retry_time (wrapped text e) = retry_time e
retry_time (unavailable at e) = some at
retry_time (bare_unavailable at) = some at
retry_time (oversized_input i e) = retry_time e
retry_time (capacity e) = retry_time e

-- `errors.As` for an OversizedInputError: its index.
unfoldable pub oversized_index : Error → Option ℤ
oversized_index (sentinel s) = none
oversized_index (plain text) = none
oversized_index (wrapped text e) = oversized_index e
oversized_index (unavailable at e) = oversized_index e
oversized_index (bare_unavailable at) = none
oversized_index (oversized_input i e) = some i
oversized_index (capacity e) = oversized_index e

-- capacityError: a failed slot wait. A nil cause is the exhausted capacity itself.
unfoldable pub capacity_error : Option Error → Error
capacity_error (some cause) = unavailable 0 (capacity cause)
capacity_error none = unavailable 0 (capacity (sentinel capacity_exhausted))

-- The caller's context, as far as the breaker reads it: whether `ctx.Err()` is set. A nil context
-- reads as one that is still live.
unfoldable pub is_circuit_failure : Bool → Option Error → Bool
unfolding is_error
is_circuit_failure ctx_done none = false
is_circuit_failure ctx_done (some e) =
    if is_error e oversized
    then false
    else if is_error e invalid_request
    then false
    else if is_error e circuit_open
    then false
    else if is_error e canceled
    then false
    else if ctx_done
    then false
    else true

-- A failed slot wait defers the job as an outage does, and still reads as exhausted capacity.
pub capacity_error_lem :
    (e : Option Error)
    → (is_error (capacity_error e) backend_unavailable ≡ true)
      × (is_error (capacity_error e) capacity_exhausted ≡ true)
      × (retry_time (capacity_error e) ≡ some 0)
unfolding is_error capacity_error retry_time same
capacity_error_lem none = (refl, refl, refl)
capacity_error_lem (some e) = (refl, refl, refl)

-- A retry time is only ever read from an error that `errors.Is` takes for an outage.
pub retry_time-is_error :
    (e : Error) (at : ℕ) → retry_time e ≡ some at → is_error e backend_unavailable ≡ true
unfolding is_error retry_time same
retry_time-is_error (sentinel s) at h = cc
retry_time-is_error (plain text) at h = cc
retry_time-is_error (wrapped text e) at h = retry_time-is_error e at h
retry_time-is_error (unavailable r e) at h = refl
retry_time-is_error (bare_unavailable r) at h = refl
retry_time-is_error (oversized_input i e) at h = retry_time-is_error e at h
retry_time-is_error (capacity e) at h = retry_time-is_error e at h
