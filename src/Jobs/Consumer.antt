-- ===== src/Jobs/Consumer.antt =====
-- apps/ingestion/src/job-store.ts: what the ingestion worker does to a job row.
use hono_crosmos.Base.{
  ℕ, zero, suc, ◌+◌, String, string_eq, Bool, true, false, not, ◌&&◌, ◌||◌, Option, none, some,
  List, ltb, if◌then◌else◌,
}
use hono_crosmos.Base.Tables.{count_where, update_where}
use hono_crosmos.Jobs.Row.{
  IngestionJobStatus, pending, processing, completed, partial, failed, cancelled, Job,
  UpdateStatusOptions, is_terminal, is_processing, is_pending, has_id, job, set_if,
}

pub data ClaimResult : Type 0 where
  claimed terminal not_found in_flight : ClaimResult

-- A null `started_at` compares as unknown, which is not true.
abbrev pub lapsed : ℕ → ℕ → Option ℕ → Bool
lapsed lease now none = false
lapsed lease now (some s) = ltb (s + lease) now

abbrev pub claimable : ℕ → ℕ → Job → Bool
claimable lease now j =
    is_pending j.status || (is_processing j.status && lapsed lease now j.started_at)

abbrev pub claim_row : ℕ → Job → Job
claim_row now j = record j { status = processing; started_at = some now }

-- The second select, which reads the rows as they were before the update.
abbrev pub classify : Option Job → ClaimResult
classify none = not_found
classify (some j) = if is_terminal j.status then terminal else in_flight

abbrev pub claim_outcome : ℕ → Option Job → ClaimResult
claim_outcome zero j = classify j
claim_outcome (suc n) j = claimed

unfoldable pub claim_job : String → ℕ → ℕ → List Job → ClaimResult × List Job
claim_job id lease now t =
    let hit = λ (j : Job). has_id id j && claimable lease now j in
    (claim_outcome (count_where hit t) (job id t), update_where hit (claim_row now) t)

unfoldable pub get_job_status : String → List Job → Option IngestionJobStatus
get_job_status id t = elim (job id t) [ none ↦ none | some j ↦ some j.status ]

abbrev is_cancelled_status : Option IngestionJobStatus → Bool
is_cancelled_status (some cancelled) = true
is_cancelled_status _ = false

unfoldable pub is_job_cancelled : String → List Job → Bool
unfolding get_job_status
is_job_cancelled id t = is_cancelled_status (get_job_status id t)

abbrev pub retry_row : Job → Job
retry_row j = record j { status = pending; started_at = none; current_stage = none }

unfoldable pub reset_job_for_retry : String → List Job → Bool × List Job
reset_job_for_retry id t =
    let hit = λ (j : Job). has_id id j && is_processing j.status in
    (ltb 0 (count_where hit t), update_where hit retry_row t)

abbrev pub stamps_started : IngestionJobStatus → ℕ → Option ℕ → Option ℕ
stamps_started processing now old = some now
stamps_started _ now old = old

-- `completed`, `failed` and `partial` stamp the end and clear the stage; `cancelled` does not.
abbrev pub is_finished : IngestionJobStatus → Bool
is_finished completed = true
is_finished failed = true
is_finished partial = true
is_finished _ = false

abbrev pub status_row : IngestionJobStatus → UpdateStatusOptions → ℕ → Job → Job
status_row status opts now j = record j {
  status = status;
  started_at = stamps_started status now j.started_at;
  completed_at = if is_finished status then some now else j.completed_at;
  result = set_if opts.result j.result;
  error_message = set_if opts.error j.error_message;
  current_stage = set_if opts.stage (if is_finished status then none else j.current_stage);
}

unfoldable pub update_job_status :
    String → IngestionJobStatus → UpdateStatusOptions → ℕ → List Job → Bool × List Job
update_job_status id status opts now t =
    let hit = λ (j : Job). has_id id j && not (is_terminal j.status) in
    (ltb 0 (count_where hit t), update_where hit (status_row status opts now) t)
