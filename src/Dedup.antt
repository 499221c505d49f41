-- ===== src/Dedup.antt =====
-- The client of the DQ manager in atheros-search/internal/dedup: service.go and workspace.go. What the manager
-- answers to each exchange is an argument, and so are the JSON encoding and the parser of URLs.
pub mod Workspace
pub mod Parameters
pub mod Scope
pub mod Access
mod Examples
use integration_console.Prelude.{
  ℕ, Bool, true, false, not, ◌&&◌, ◌||◌, Option, none, some, List, [], ◌∷◌, ℤ, pos, negsuc, ltb,
  leb, ◌==◌, if◌then◌else◌, Result, ok, err, ◌>>=◌, fail_if, Text, codes, same_text, is_empty,
  length, decode_hex,
}

-- The kinds of apperror, without their texts, and the error of a context.
pub data AppError : Type 0 where
  forbidden : AppError
  validation : AppError
  unavailable : AppError
  not_found : AppError
  conflict : AppError
  capacity : AppError
  context_ended : AppError

-- Options
pub record Options : Type 0 where
  pub enabled : Bool
  pub installation_id : Text
  pub namespace : Text
  pub remote_origin : Text

abbrev pub max_control_bytes : ℕ
max_control_bytes = 65536

abbrev pub is_id_char : ℕ → Bool
is_id_char c =
    (leb 97 c && leb c 122)
    || (leb 65 c && leb c 90)
    || (leb 48 c && leb c 57)
    || (c == 45)
    || (c == 95)
    || (c == 46)

abbrev pub are_id_chars : Text → Bool
are_id_chars [] = true
are_id_chars (c ∷ s) = is_id_char c && are_id_chars s

-- validID
unfoldable pub valid_id : Text → Bool
valid_id value =
    not (is_empty value)
    && leb (length value) 200
    && not (same_text value (codes "."))
    && not (same_text value (codes ".."))
    && are_id_chars value

-- What becomes of one HTTP exchange with the manager: no request is made, it gets no response (because the
-- context has ended, or else), or a status comes with a body, `none` where that cannot be read.
pub data Exchange : Type 0 where
  no_request : Exchange
  no_response : Bool → Exchange
  answered : ℕ → Option Text → Exchange

-- The error of a status that is neither 200 nor 202.
unfoldable pub status_error : ℕ → AppError
status_error status =
    if (status == 400) || (status == 422)
    then validation
    else if (status == 401) || (status == 403)
    then forbidden
    else if status == 404
    then not_found
    else if status == 409
    then conflict
    else if status == 429
    then capacity
    else unavailable

module _ (is_json : Text → Bool) where
  abbrev pub read_body : Option Text → Result AppError Text
  read_body none = err unavailable
  read_body (some bytes) =
      fail_if (ltb max_control_bytes (length bytes) || not (is_json bytes)) unavailable bytes

  abbrev pub read_exchange : Exchange → Result AppError Text
  read_exchange no_request = err unavailable
  read_exchange (no_response ended) = if ended then err context_ended else err unavailable
  read_exchange (answered status body) =
      if (status == 200) || (status == 202) then read_body body else err (status_error status)

  -- do
  unfoldable pub exchange : Options → Text → Exchange → Result AppError Text
  unfolding status_error
  exchange options body answer = fail_if (not options.enabled) forbidden body >>= λ body.
      fail_if (ltb max_control_bytes (length body)) validation body >>= λ _. read_exchange answer

-- Run, with what the checks read.
pub record Run : Type 0 where
  pub run_id : Text
  pub installation_id : Text
  pub namespace : Text
  pub processor_id : Text
  pub processor_version : Text
  pub operation : Text
  pub status : Text

-- Request
pub record Request : Type 0 where
  pub operation : Text
  pub processor_version : Text
  pub authorized_scope : Text
  pub snapshot_revision : Text
  pub policy_version : Text
  pub max_candidates : ℤ
  pub candidate_id : Text
  pub idempotency_key : Text

-- sameScope
abbrev pub same_scope : Options → Text → Text → Bool
same_scope options installation namespace =
    same_text installation options.installation_id && same_text namespace options.namespace

abbrev pub or_error {ℓ} : {A : Type ℓ} → AppError → Option A → Result AppError A
or_error e none = err e
or_error e (some a) = ok a

abbrev pub is_out_of : ℤ → Bool
is_out_of (pos n) = ltb n 1 || ltb 1000 n
is_out_of (negsuc n) = true

module _ (is_json : Text → Bool) (decode_run : Text → Option Run)
    (encode_request : Request → Text) where
  -- request
  unfoldable pub request_run : Options → Text → Exchange → Result AppError Run
  unfolding exchange valid_id
  request_run options body answer = exchange is_json options body answer >>= λ bytes.
      or_error unavailable (decode_run bytes) >>= λ run.
      fail_if
        (not (valid_id run.run_id)
          || not (same_text run.processor_id (codes "atheros.dedup"))
          || not (same_scope options run.installation_id run.namespace))
        unavailable run

  -- Admit
  unfoldable pub admit : Options → Request → Exchange → Result AppError Run
  unfolding valid_id request_run
  admit options request answer = fail_if (not options.enabled) forbidden request >>= λ request.
      fail_if
        (not (same_text request.operation (codes "prepare_candidates"))
          && not (same_text request.operation (codes "reconcile_decision")))
        validation request
      >>= λ request.
          fail_if
            (not (same_text request.authorized_scope (codes "*"))
              && not (valid_id request.authorized_scope))
            validation request
          >>= λ request.
              fail_if
                (not (valid_id request.policy_version)
                  || not (valid_id request.idempotency_key)
                  || is_out_of request.max_candidates)
                validation request
              >>= λ request.
                  fail_if
                    ((not (is_empty request.processor_version)
                        && not (valid_id request.processor_version))
                      || ltb 200 (length request.snapshot_revision)
                      || (not (is_empty request.candidate_id)
                          && not (valid_id request.candidate_id)))
                    validation request
                  >>= λ request.
                      fail_if
                        (same_text request.operation (codes "reconcile_decision")
                          && is_empty request.candidate_id)
                        validation request
                      >>= λ request. request_run options (encode_request request) answer

  -- Service.Run
  unfoldable pub run_of : Options → Text → Exchange → Result AppError Run
  unfolding valid_id request_run
  run_of options run_id answer = fail_if (not options.enabled) forbidden run_id >>= λ run_id.
      fail_if (not (valid_id run_id)) validation run_id >>= λ run_id.
      request_run options [] answer >>= λ run.
      fail_if (not (same_text run.run_id run_id)) unavailable run
