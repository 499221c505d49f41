-- ===== src/Worker/Examples.antt =====
-- Runs of the theorems on internal/worker at concrete inputs.
use integration_console.Prelude.{
  ℕ, ◌+◌, ◌≡◌, refl, Bool, true, false, none, some, List, [], ◌∷◌, Result, ok, err, arith, String,
  sum_of, get_elem?, ltb, if◌then◌else◌,
}
use integration_console.Embed.Errors.{retry_time, oversized_index, Error, plain, unavailable}
use integration_console.Worker.Jobs.{
  Row, Job, Times, pending, leased, completed, lease_lost, owns, complete_job, fail_job,
  fail_job_permanently, defer_job, cancel_job, renew_job_lease, update_where, completed_row,
  update_owned, affected,
}
use integration_console.Worker.Claim.{
  Document, JobScope, Outside, ClaimRequest, Claimed, claim_jobs, is_selected, jobs_of, job_of,
  claimed_row, contains, find_document, embedding_kind_for_source, select_ids, claimable,
  claims_before, in_scope, sort_by, insert_by, claim_rows, screen, refusal, is_current, add_ready,
}
use integration_console.Worker.Claim.Ready.{IsScreened, claim_jobs-IsScreened}
use integration_console.Worker.Protocol.{Op, claims, completes, fails, recovers, run}
use integration_console.Worker.Protocol.Steps.{Keeps, run-Keeps}
use integration_console.Worker.Protocol.Fencing.{run-Ended, complete_job_final}
use integration_console.Worker.Groups.{
  JobGroup, AreGroups, ordered_job_groups, remaining_jobs, ordered_job_groups-AreGroups,
}
use integration_console.Worker.Store.{
  Store, Embedding, store_one, store_completion, store_completions, store_each, guard_completion,
  guard_document, document_matches, holds_input, normalize_embedding_kind, insert_vector,
  vector_table_for_kind, upsert, finish_row,
}
use integration_console.Worker.Store.Completion.{
  IsStored, store_completion-IsStored, per_job, store_completions-per_job,
}
use integration_console.Worker.Batch.{
  Env, World, commits, embed_group, process_groups, retry_or_poll, oversized_job,
}
use integration_console.Worker.Batch.Deferral.{IsDeferred, process_groups-IsDeferred}
use integration_console.Worker.Batch.Rounds.{IsAnswer, embed_group-IsAnswer}

abbrev document : Document
document = record {
  document_id = "d1";
  normalized_text = "sensor seen";
  status = "active";
  normalized_sha256 = "c1";
  input_revision = "r1";
  source_kind = "proxy_event";
}

abbrev outside : Outside
outside = record {
  text_checksum = λ text. "c1";
  collates = λ a b. true;
  new_token = λ r. "token";
  is_locked = λ r. false;
}

abbrev whole_scope : JobScope
whole_scope = record { source_kinds = []; model = ""; input_revision = "r1" }

abbrev free_row : Row
free_row = record {
  job_id = "j1";
  document_id = "d1";
  embedding_kind = "event";
  embedding_model = "m";
  content_sha256 = "c1";
  input_revision = "r1";
  priority = 0;
  status = pending;
  next_attempt_at = 0;
  attempt_count = 0;
  max_attempts = 5;
  owner_id = none;
  lease_token = none;
  lease_fence = 3;
  lease_expires_at = none;
  last_error = none;
  completed_at = none;
  updated_at = 0;
}

abbrev held_row : Row
held_row = record free_row {
  status = leased;
  attempt_count = 1;
  owner_id = some "w1";
  lease_token = some "token";
  lease_fence = 4;
  lease_expires_at = some 900;
}

abbrev done_row : Row
done_row = record free_row { job_id = "j0"; status = completed; completed_at = some 5 }

abbrev holder : Job
holder = record {
  input_revision = "r1";
  job_id = "j1";
  document_id = "d1";
  embedding_kind = "event";
  embedding_model = "m";
  content_sha256 = "c1";
  normalized_text = "sensor seen";
  priority = 0;
  lease_token = "token";
  lease_fence = 4;
}

abbrev stale : Job
stale = record holder { lease_fence = 3 }

abbrev times : Times
times = record { current = 100; clock = 101 }

abbrev request : ClaimRequest
request = record {
  owner = "w2";
  limit = 10;
  expires_at = 1000;
  scope = whole_scope;
  documents = document ∷ [];
}

abbrev traffic : List Op
traffic =
    claims request times
    ∷ fails "timeout" times holder
    ∷ recovers whole_scope (document ∷ []) 10 times
    ∷ completes times stale
    ∷ []

run-Ended_example :
    let now = run outside (free_row ∷ []) traffic in
    (complete_job times stale now ≡ err lease_lost)
    × (fail_job "late" times stale now ≡ err lease_lost)
    × (fail_job_permanently "late" times stale now ≡ err lease_lost)
    × (defer_job 500 times stale now ≡ err lease_lost)
    × (cancel_job "late" times stale now ≡ err lease_lost)
    × ((renew_job_lease 500 times stale now).1 ≡ false)
unfolding contains
run-Ended_example =
    run-Ended outside stale (free_row ∷ []) traffic "late" 500 times (refl, tt) (ground arith)

complete_job_final_example :
    (get_elem? (run outside (completed_row times held_row ∷ []) traffic) 0
      ≡ some (completed_row times held_row))
    × ((completed_row times held_row).status ≡ completed)
    × ((completed_row times held_row).completed_at ≡ some times.current)
    × ((completed_row times held_row).lease_token ≡ none)
    × ((completed_row times held_row).owner_id ≡ none)
    × ((completed_row times held_row).lease_expires_at ≡ none)
    × ((completed_row times held_row).lease_fence ≡ 4)
unfolding contains complete_job owns update_owned affected update_where
complete_job_final_example =
    complete_job_final outside holder (held_row ∷ []) (completed_row times held_row ∷ []) traffic 0
      held_row times (refl, tt) refl refl refl

run-Keeps_example :
    Keeps (held_row ∷ done_row ∷ []) (run outside (held_row ∷ done_row ∷ []) traffic)
unfolding contains
run-Keeps_example = run-Keeps outside (held_row ∷ done_row ∷ []) traffic (refl, (refl, tt))

abbrev claimed_one : Claimed
claimed_one = record {
  rows = claimed_row outside "w2" 1000 times free_row ∷ [];
  ready = record (job_of outside free_row) { normalized_text = "sensor seen" } ∷ [];
  cancelled = 0;
}

claim_jobs-IsScreened_example :
    IsScreened outside
      (document ∷ [])
      (jobs_of outside (is_selected outside request times (free_row ∷ [])) (free_row ∷ []))
      claimed_one
unfolding claim_jobs is_selected select_ids claimable claims_before in_scope sort_by insert_by
    contains claim_rows update_where screen refusal is_current find_document
    embedding_kind_for_source add_ready
claim_jobs-IsScreened_example =
    claim_jobs-IsScreened outside request times (free_row ∷ []) claimed_one refl

ordered_job_groups-AreGroups_example :
    AreGroups (ordered_job_groups (holder ∷ stale ∷ []))
    × (sum_of (λ j. j.priority) (remaining_jobs (ordered_job_groups (holder ∷ stale ∷ [])))
        ≡ sum_of (λ j. j.priority) (holder ∷ stale ∷ []))
ordered_job_groups-AreGroups_example =
    ordered_job_groups-AreGroups (holder ∷ stale ∷ []) (λ j. j.priority)

-- A vector is a number here, and any but 0 is valid.
abbrev is_valid : ℕ → Bool
is_valid v = ltb 0 v

abbrev store : Store ℕ
store = record { rows = held_row ∷ []; documents = document ∷ []; embeddings = []; vectors = [] }

abbrev stored_as : String → Embedding ℕ
stored_as kind = record {
  document_id = "d1";
  embedding_kind = kind;
  embedding_model = "m";
  input_revision = "r1";
  content_sha256 = "c1";
  vector = 7;
}

abbrev stored : Store ℕ
stored = record {
  rows = completed_row times held_row ∷ [];
  documents = document ∷ [];
  embeddings = stored_as "event" ∷ [];
  vectors = stored_as "search_vectors_event" ∷ [];
}

store_completion-IsStored_example : IsStored outside times holder 7 store stored
unfolding store_completion guard_completion guard_document document_matches find_document
    embedding_kind_for_source contains holds_input affected owns normalize_embedding_kind
    insert_vector vector_table_for_kind upsert finish_row complete_job update_owned update_where
store_completion-IsStored_example =
    store_completion-IsStored is_valid outside times holder 7 store stored refl

store_completions-per_job_example :
    per_job is_valid outside times (holder ∷ []) (7 ∷ []) store ≡ ok stored
unfolding store_completions store_each store_one guard_completion guard_document document_matches
    find_document embedding_kind_for_source contains holds_input affected owns
    normalize_embedding_kind insert_vector vector_table_for_kind upsert finish_row complete_job
    update_owned update_where
store_completions-per_job_example =
    store_completions-per_job is_valid outside times (holder ∷ []) (7 ∷ []) store stored refl

abbrev down : Error
down = unavailable 700 (plain "503")

-- A backend whose first two answers are vectors, and which is then down.
abbrev answers : ℕ → String → List String → Result Error (List ℕ)
answers n kind texts = if ltb n 2 then ok ((7 + n) ∷ []) else err down

abbrev env : Env ℕ
env = record {
  outside = outside;
  times = λ n. times;
  fate = λ n. commits;
  others = λ n. traffic;
  embed = answers;
  valid = is_valid;
  error_text = λ e. "error";
  failure_text = λ e. "failure";
  gate_ready = true;
  worker_id = "w2";
  batch_size = 10;
  lease_deadline = 1000;
  scope = whole_scope;
  poll_retry = 2000;
}

abbrev world : World ℕ
world = record { store = record store { rows = free_row ∷ [] }; transactions = 0; asked = 0 }

embed_group-IsAnswer_example :
    IsAnswer env "event" (embed_group env 2 "event" (holder ∷ []) world).1
embed_group-IsAnswer_example = embed_group-IsAnswer env 2 "event" (holder ∷ []) world (ground arith)

abbrev quiet : Env ℕ
quiet = record env { others = λ n. [] }

abbrev other_job : Job
other_job = record holder { job_id = "j9"; embedding_kind = "device" }

abbrev two_groups : List JobGroup
two_groups =
    record { kind = "event"; jobs = holder ∷ [] }
    ∷ record { kind = "device"; jobs = other_job ∷ [] }
    ∷ []

abbrev held_world : World ℕ
held_world = record world { store = record store { rows = held_row ∷ [] }; asked = 2 }

process_groups-IsDeferred_example :
    (after : Row) × (get_elem? (process_groups quiet two_groups held_world).store.rows 0
      ≡ some after)
    × IsDeferred quiet (retry_or_poll quiet 700) held_row after
unfolding owns
process_groups-IsDeferred_example =
    process_groups-IsDeferred quiet (record { kind = "event"; jobs = holder ∷ [] })
      (record { kind = "device"; jobs = other_job ∷ [] } ∷ []) held_world down 700 (other_job ∷ [])
      [] holder 0 held_row (λ n. (refl, refl)) refl (unfold retry_time in refl)
      (unfold oversized_job oversized_index in refl) (unfold remaining_jobs in refl) (refl, tt) tt
      (λ n. refl) refl
