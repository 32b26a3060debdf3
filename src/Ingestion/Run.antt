-- ===== src/Ingestion/Run.antt =====
-- apps/ingestion/src/process-ingestion.ts: what a run does with one source of its job. The run sees
-- the job table through `interfere`, what the other workers do to it before each source, so that a
-- cancellation can come at any source. What `ingestSource` gives for a source, an attempt and a chunk
-- budget, and which best-effort database calls fail, are arguments too; the other calls succeed.
-- Logs, metrics, traces and the pauses between attempts are left out.
use Prim.Native.String.{◌++◌ as concat_strings}
use hono_crosmos.Base.{
  ℕ, zero, suc, ◌+◌, ◌-◌, String, string_eq, Bool, true, false, not, ◌&&◌, Option, none, some, List,
  [], ◌∷◌, ◌++◌, leb, ltb, if◌then◌else◌, length, map,
}
use hono_crosmos.Base.Dict.{Dict, set}
use hono_crosmos.Base.Decimal.{to_string}
use hono_crosmos.Jobs.Row.{IngestionJobStatus, Job, UpdateStatusOptions}
use hono_crosmos.Jobs.Consumer.{is_job_cancelled, update_job_status}
use hono_crosmos.Delivery.Consumer.{IngestionJobMessage}
use hono_crosmos.Ingestion.Sources.{
  pending, processing, completed, failed, Source, TenantScope, ExtractionStatus,
  get_source_extraction_status, mark_sources_status, mark_sources_failed,
  mark_unprocessed_sources_cancelled,
}
use hono_crosmos.Ingestion.Usage.{Usage, record_ingestion_usage, is_empty}

abbrev pub source_retry_attempts : ℕ
source_retry_attempts = 3

abbrev pub max_chunks_per_invocation : ℕ
max_chunks_per_invocation = 8

abbrev pub chunk_heartbeat_interval_ms : ℕ
chunk_heartbeat_interval_ms = 60000

-- Memories and edges by their ids.
pub record IngestResult : Type 0 where
  pub source_id : ℕ
  pub memories : List ℕ
  pub edges : List ℕ
  pub new_entity_ids : List ℕ
  pub resolved_entity_ids : List ℕ
  pub chunk_count : ℕ
  pub processed_chunk_count : ℕ
  pub remaining_chunk_count : ℕ
  pub token_count : ℕ

-- How a call of `ingestSource` ends: it returns, the heartbeat finds the job cancelled, or another
-- error is thrown, which is retryable or not.
pub data Attempt : Type 0 where
  returned : IngestResult → Attempt
  interrupted : Attempt
  raised : (retryable : Bool) (message : String) → Attempt

pub record Environment : Type 0 where
  pub now : ℕ
  pub date : String
  pub interfere : ℕ → List Job → List Job
  pub stop_check_fails : ℕ → Bool
  pub is_space_active : ℕ → Bool
  pub ingest_source : ℕ → ℕ → ℕ → Attempt
  pub memories_of : List ℕ → ℕ
  pub usage_fails : Bool
  pub cancel_mark_fails : Bool

pub record World : Type 0 where
  pub jobs : List Job
  pub sources : List Source
  pub usage : Usage

-- The local variables of a run, with the database.
pub record Run : Type 0 where
  pub world : World
  pub failed_source_ids : List ℕ
  pub newly_failed_source_ids : List ℕ
  pub source_errors : Dict String String
  pub results : List IngestResult
  pub transient_failed_ids : List ℕ
  pub chunks_processed : ℕ
  pub budget_hit : Bool

pub data StopReason : Type 0 where
  job_cancelled space_deleted : StopReason

abbrev pub scope_of : IngestionJobMessage → TenantScope
scope_of msg = record { org_id = msg.org_id; space_id = msg.space_id; user_id = msg.user_id }

abbrev pub stage_only : String → UpdateStatusOptions
stage_only stage = record { result = none; error = none; stage = some stage }

abbrev pub source_stage : ℕ → ℕ → String
source_stage i all =
    concat_strings "source "
      (concat_strings (to_string (i + 1)) (concat_strings "/" (to_string all)))

-- It fails open.
unfoldable pub should_stop : Environment → IngestionJobMessage → ℕ → List Job → Option StopReason
should_stop env msg i jobs =
    if env.stop_check_fails i
    then none
    else if is_job_cancelled msg.job_id jobs
    then some job_cancelled
    else if not (env.is_space_active i)
    then some space_deleted
    else none

abbrev pub completed_ids : List IngestResult → List ℕ
completed_ids results = map (λ (r : IngestResult). r.source_id) results

abbrev pub input_tokens : List IngestResult → ℕ
input_tokens [] = 0
input_tokens (r ∷ results) = r.token_count + input_tokens results

-- `recordIngestionUsageBestEffort` with the arguments that all its three calls have.
unfoldable pub bill : Environment → IngestionJobMessage → Run → World
bill env msg r =
    let after =
      record_ingestion_usage env.memories_of (scope_of msg) env.date
        (record {
          tokens = input_tokens r.results;
          completed_source_ids = completed_ids r.results;
          failed_source_ids = r.newly_failed_source_ids;
        })
        (r.world.usage, r.world.sources) in
    if env.usage_fails then r.world else record r.world { usage = after.0; sources = after.1 }

abbrev pub cancel_reason : String
cancel_reason = "Ingestion job cancelled before this source was processed"

-- The stop path: `remaining` is the source at hand and those after it.
unfoldable pub stop_run : Environment → IngestionJobMessage → List ℕ → Run → World
stop_run env msg remaining r =
    let w = if is_empty r.results then r.world else bill env msg r in
    if env.cancel_mark_fails then w else record w {
      sources =
          mark_unprocessed_sources_cancelled (scope_of msg) remaining cancel_reason env.now
            w.sources;
    }

-- The write of the stage is the heartbeat of the lease as well.
unfoldable pub begin_source : Environment → IngestionJobMessage → ℕ → ℕ → Run → Run
begin_source env msg i id r = record r {
  world = record r.world {
    jobs =
        (update_job_status msg.job_id IngestionJobStatus.processing
          (stage_only (source_stage i (length msg.source_ids))) env.now r.world.jobs).1;
    sources = mark_sources_status (scope_of msg) (id ∷ []) processing env.now r.world.sources;
  };
}

-- The heartbeat inside a source: nothing before the interval is over; a write that the job table
-- refuses is the cancellation, and a write that fails is ignored. The first part of the result says
-- whether it throws, the second is the time of the last beat.
unfoldable pub heartbeat : IngestionJobMessage → ℕ → Bool → ℕ → ℕ → List Job → Bool × (ℕ × List Job)
heartbeat msg i write_fails now last jobs =
    let write =
      update_job_status msg.job_id IngestionJobStatus.processing
        (stage_only (concat_strings (source_stage i (length msg.source_ids)) " (in progress)")) now
        jobs in
    if ltb (now - last) chunk_heartbeat_interval_ms
    then (false, (last, jobs))
    else if write_fails
    then (false, (now, jobs))
    else (not write.0, (now, write.1))

-- The attempts at a source, on fuel for those that are left: the last one is not retried, so the
-- fuel is not used up.
unfoldable pub attempts_from : (ℕ → Attempt) → ℕ → ℕ → Attempt
attempts_from ingest zero attempt = ingest attempt
attempts_from ingest (suc left) attempt =
    let later = attempts_from ingest left (suc attempt) in
    elim (ingest attempt) [
      | returned r ↦ returned r
      | interrupted ↦ interrupted
      | raised retryable message ↦
          if retryable && ltb attempt source_retry_attempts then later else raised retryable message
    ]

unfoldable pub attempt_source : Environment → ℕ → ℕ → Attempt
attempt_source env id budget =
    attempts_from (λ attempt. env.ingest_source id attempt budget) source_retry_attempts 1

-- What follows a source in the loop: a `return`, a `break`, or the next source.
pub data Flow : Type 0 where
  leaves : World → ℕ → Flow
  breaks : Run → Flow
  continues : Run → Flow

-- The result's `sourceId` is the source that was asked for, which `ingestSource` copies.
unfoldable pub finish_source : Environment → IngestionJobMessage → ℕ → IngestResult → Run → Flow
finish_source env msg id result r =
    let counted = record r {
      chunks_processed = r.chunks_processed + result.processed_chunk_count;
    } in
    if ltb 0 result.remaining_chunk_count
    then breaks (record counted { budget_hit = true })
    else continues (record counted {
      results = r.results ++ (record result { source_id = id }) ∷ [];
      world = record r.world {
        sources = mark_sources_status (scope_of msg) (id ∷ []) completed env.now r.world.sources;
      };
    })

-- A retryable error that is left after the attempts leaves the source `processing`.
unfoldable pub fail_source : Environment → IngestionJobMessage → ℕ → Bool → String → Run → Run
fail_source env msg id transient message r =
    if transient
    then record r { transient_failed_ids = r.transient_failed_ids ++ id ∷ [] }
    else record r {
      source_errors = set (to_string id) message r.source_errors;
      world = record r.world {
        sources = mark_sources_failed (scope_of msg) (id ∷ []) message env.now r.world.sources;
      };
      failed_source_ids = r.failed_source_ids ++ id ∷ [];
      newly_failed_source_ids = r.newly_failed_source_ids ++ id ∷ [];
    }

abbrev pub after_attempts : Environment → IngestionJobMessage → ℕ → Run → Attempt → Flow
after_attempts env msg id r (returned result) = finish_source env msg id result r
after_attempts env msg id r interrupted = continues r
after_attempts env msg id r (raised retryable message) =
    continues (fail_source env msg id retryable message r)

unfoldable pub process_source : Environment → IngestionJobMessage → ℕ → ℕ → Run → Flow
process_source env msg i id r =
    after_attempts env msg id (begin_source env msg i id r)
      (attempt_source env id (max_chunks_per_invocation - r.chunks_processed))

-- The second gate: a source that is settled, or that is not there, is skipped.
abbrev pub gated : Environment → IngestionJobMessage → ℕ → ℕ → Run → Option ExtractionStatus → Flow
gated env msg i id r (some pending) = process_source env msg i id r
gated env msg i id r (some processing) = process_source env msg i id r
gated env msg i id r (some failed) =
    continues (record r { failed_source_ids = r.failed_source_ids ++ id ∷ [] })
gated env msg i id r (some completed) = continues r
gated env msg i id r none = continues r

abbrev pub interfered : Environment → ℕ → Run → Run
interfered env i r = record r { world = record r.world { jobs = env.interfere i r.world.jobs } }

abbrev pub unless_stopped :
    Environment → IngestionJobMessage → ℕ → ℕ → List ℕ → Run → Option StopReason → Flow
unless_stopped env msg i id rest r (some reason) =
    leaves (stop_run env msg (id ∷ rest) r) r.chunks_processed
unless_stopped env msg i id rest r none =
    if leb max_chunks_per_invocation r.chunks_processed
    then breaks (record r { budget_hit = true })
    else gated env msg i id r (get_source_extraction_status id r.world.sources)

-- One round of the loop, for the source at index `i`.
unfoldable pub visit_source : Environment → IngestionJobMessage → ℕ → ℕ → List ℕ → Run → Flow
visit_source env msg i id rest r =
    let seen = interfered env i r in
    unless_stopped env msg i id rest seen (should_stop env msg i seen.world.jobs)
