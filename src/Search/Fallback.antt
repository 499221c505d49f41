-- ===== src/Search/Fallback.antt =====
-- atheros-search/internal/search/fallback.go: what a search tells its caller of a failed dense leg.
use integration_console.Prelude.{
  ℕ, ◌≡◌, Bool, false, ◌||◌, none, some, String, Result, err, if◌then◌else◌, arith,
}
use integration_console.Embed.Errors.{
  Error, sentinel, unavailable, circuit_open, capacity_exhausted, invalid_response, invalid_request,
  oversized, same, is_error, retry_time,
}
use integration_console.Embed.Circuit.{Circuit, admit, advance}
use integration_console.Embed.Lanes.{Readings, call}

-- UnavailableError.
pub record Unavailable : Type 0 where
  pub code : String
  pub message : String
  pub retry_at : ℕ

abbrev pub code_and_message : Error → String × String
code_and_message e =
    if is_error e capacity_exhausted
    then ("embedding_capacity_exhausted", "semantic backend capacity exhausted")
    else if is_error e invalid_response
    then ("embedding_invalid_response", "semantic backend returned an unusable response")
    else ("embedding_backend_unavailable", "semantic backend unavailable")

-- semanticRetryAt: 0 where the failure carries no time.
unfoldable pub semantic_retry_at : Error → ℕ
semantic_retry_at e = elim (retry_time e) [ none ↦ 0 | some at ↦ at ]

-- The function Unavailable.
unfoldable pub classify : Error → Unavailable
unfolding semantic_retry_at
classify e =
    let (code, message) = code_and_message e in
    record { code = code; message = message; retry_at = semantic_retry_at e }

-- semanticFallbackCode.
unfoldable pub semantic_fallback_code : Error → String × String
unfolding classify
semantic_fallback_code e = let u = classify e in (u.code, u.message)

-- The error of a dense-only search: the one it was given, or an outage.
pub data LegError : Type 0 where
  passes : Error → LegError
  degrades : Unavailable → LegError

-- searchLegFailure, with whether the caller's context is done.
unfoldable pub search_leg_failure : Bool → Error → LegError
unfolding classify
search_leg_failure ctx_done e =
    if ctx_done
    then passes e
    else if is_error e invalid_request || is_error e oversized
    then passes e
    else degrades (classify e)

-- A dense search of a live caller that the lane's breaker rejects is answered as an unavailable backend
-- with the end of the breaker's window as its retry time, whatever the backend would have answered.
pub search_leg_failure-call :
    {A : Type 0} (t : Readings) (answer : Result Error A) (c : Circuit)
    → (admit t.at_admit c).1.admitted ≡ false
    → (e : Error) × ((call t false answer c).1 ≡ err e)
      × (search_leg_failure false e
          ≡ degrades (record {
            code = "embedding_backend_unavailable";
            message = "semantic backend unavailable";
            retry_at = c.opened_until;
          }))
unfolding search_leg_failure classify semantic_retry_at call admit advance is_error same retry_time
search_leg_failure-call t answer c h =
    (unavailable c.opened_until (sentinel circuit_open), ground arith, ground arith)
