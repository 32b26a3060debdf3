-- ===== src/Dispatch/Send.antt =====
-- apps/api/src/features/sources/dispatch.ts. Whether a call of the queue succeeds is an argument: the
-- first enqueue of a job, the second, and the kick. The jobs of a batch are dispatched side by side;
-- none of the calls depends on another job. Logs are left out.
use hono_crosmos.Base.{
  ℕ, ◌==◌, String, string_eq, ◌===◌, Bool, false, ◌&&◌, ◌||◌, List, [], ◌∷◌, ◌++◌, length, map,
  concat, if◌then◌else◌,
}
use hono_crosmos.Base.Dict.{Dict, set}
use hono_crosmos.Base.Result.{Result, ok, thrown, Done, done}
use hono_crosmos.Base.Tables.{delete_where}
use hono_crosmos.Visibility.Graph.{contains}
use hono_crosmos.Jobs.Row.{Job}
use hono_crosmos.Delivery.Consumer.{IngestionJobMessage}
use hono_crosmos.Ingestion.Sources.{Source}

abbrev pub retry_after_seconds : ℕ
retry_after_seconds = 30

pub data JobDispatchStatus : Type 0 where
  durable fast_only failed : JobDispatchStatus

pub record DispatchableJob : Type 0 where
  pub job_id : String
  pub source_ids : List ℕ
  pub message : IngestionJobMessage

pub record DispatchResult : Type 0 where
  pub statuses : Dict String JobDispatchStatus
  pub failed_jobs : List DispatchableJob
  pub degraded_jobs : List DispatchableJob

-- Whether each call for a message is carried out.
pub record QueueService : Type 0 where
  pub enqueue_first : IngestionJobMessage → Bool
  pub enqueue_again : IngestionJobMessage → Bool
  pub kick : IngestionJobMessage → Bool

unfoldable pub dispatch_one : QueueService → IngestionJobMessage → JobDispatchStatus
dispatch_one queue message =
    let enqueued = queue.enqueue_first message || queue.enqueue_again message in
    let kicked = queue.kick message in
    if enqueued then durable else if kicked then fast_only else failed

abbrev pub classified : DispatchableJob → JobDispatchStatus → DispatchResult → DispatchResult
classified job failed r = record r {
  statuses = set job.job_id failed r.statuses;
  failed_jobs = r.failed_jobs ++ job ∷ [];
}
classified job fast_only r = record r {
  statuses = set job.job_id fast_only r.statuses;
  degraded_jobs = r.degraded_jobs ++ job ∷ [];
}
classified job durable r = record r { statuses = set job.job_id durable r.statuses }

unfoldable pub classify_from : QueueService → List DispatchableJob → DispatchResult → DispatchResult
classify_from queue [] r = r
classify_from queue (job ∷ jobs) r =
    classify_from queue jobs (classified job (dispatch_one queue job.message) r)

unfoldable pub dispatch_ingestion_jobs : QueueService → List DispatchableJob → DispatchResult
dispatch_ingestion_jobs queue jobs =
    classify_from queue jobs (record { statuses = []; failed_jobs = []; degraded_jobs = [] })

pub record Tables : Type 0 where
  pub jobs : List Job
  pub sources : List Source

abbrev pub named : List String → Job → Bool
named [] j = false
named (id ∷ ids) j = id === j.id || named ids j

abbrev pub owned : ℕ → ℕ → List ℕ → Source → Bool
owned org space ids s = (s.org_id == org && s.space_id == space) && contains s.id ids

-- An empty list of ids deletes nothing.
unfoldable pub rollback_jobs_and_sources : ℕ → ℕ → List String → List ℕ → Tables → Tables
rollback_jobs_and_sources org space job_ids source_ids db = record {
  jobs = delete_where (named job_ids) db.jobs;
  sources = delete_where (owned org space source_ids) db.sources;
}

-- The 503 answer, with its `Retry-After`.
pub data DispatchError : Type 0 where
  service_unavailable : (retry_after : ℕ) → DispatchError

abbrev pub job_ids_of : List DispatchableJob → List String
job_ids_of jobs = map (λ (j : DispatchableJob). j.job_id) jobs

abbrev pub source_ids_of_jobs : List DispatchableJob → List ℕ
source_ids_of_jobs jobs = concat (map (λ (j : DispatchableJob). j.source_ids) jobs)

unfoldable pub assert_dispatched_or_rollback :
    ℕ → ℕ → List DispatchableJob → DispatchResult → Tables → Result DispatchError Done × Tables
assert_dispatched_or_rollback org space jobs result db =
    if length result.failed_jobs == length jobs
    then (
      thrown (service_unavailable retry_after_seconds),
      rollback_jobs_and_sources org space (job_ids_of jobs) (source_ids_of_jobs jobs) db,
    )
    else (ok done, db)
