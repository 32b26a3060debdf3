-- ===== src/Dispatch/Tests.antt =====
-- A batch of two jobs.
use hono_crosmos.Base.{ℕ, ◌≡◌, ◌⊎◌, ◌↔◌, refl, String, string_eq, Bool, true, false, none, [], ◌∷◌}
use hono_crosmos.Base.Result.{ok, thrown, done}
use hono_crosmos.Base.Tables.{All}
use hono_crosmos.Visibility.Graph.{contains}
use hono_crosmos.Jobs.Row.{Job, pending}
use hono_crosmos.Delivery.Consumer.{IngestionJobMessage}
use hono_crosmos.Ingestion.Sources.{Source, ExtractionStatus}
use hono_crosmos.Dispatch.Send.{
  DispatchableJob, QueueService, Tables, service_unavailable, fast_only, dispatch_one,
  dispatch_ingestion_jobs, assert_dispatched_or_rollback,
}
use hono_crosmos.Dispatch.Rollback.{IsLost, inserted, assert_dispatched_or_rollback_lem}

abbrev request : String → ℕ → IngestionJobMessage
request id source = record {
  job_id = id;
  correlation_id = "c";
  org_id = 1;
  space_id = 2;
  user_id = 3;
  source_ids = source ∷ [];
  enqueued_at_ms = none;
  continuation_count = none;
}

abbrev dispatchable : String → ℕ → DispatchableJob
dispatchable id source = record {
  job_id = id;
  source_ids = source ∷ [];
  message = request id source;
}

abbrev queued_job : String → ℕ → Job
queued_job id source = record {
  id = id;
  org_id = 1;
  space_id = 2;
  user_id = 3;
  status = pending;
  source_ids = source ∷ [];
  result = none;
  error_message = none;
  current_stage = none;
  created_at = 5;
  started_at = none;
  completed_at = none;
}

abbrev queued_source : ℕ → Source
queued_source id = record {
  id = id;
  org_id = 1;
  space_id = 2;
  extraction_status = ExtractionStatus.pending;
  content_type = "text";
  token_count = 9;
  meta = record {
    error_message = none;
    cancelled = false;
    analytics_completion_recorded = false;
    analytics_failure_recorded = false;
  };
  updated_at = 5;
}

abbrev before : Tables
before = record { jobs = queued_job "x" 7 ∷ []; sources = queued_source 7 ∷ [] }

abbrev its_rows : Tables
its_rows = record {
  jobs = queued_job "a" 8 ∷ queued_job "b" 9 ∷ [];
  sources = queued_source 8 ∷ queued_source 9 ∷ [];
}

-- The queue is down; the kick of a job with id "b" works if `kicks` says so.
abbrev unreachable : Bool → QueueService
unreachable kicks = record {
  enqueue_first = λ m. false;
  enqueue_again = λ m. false;
  kick = λ m. kicks;
}

kicked_status : dispatch_one (unreachable true) (request "b" 9) ≡ fast_only
unfolding dispatch_one
kicked_status = refl

assert_dispatched_or_rollback_lem_example :
    let out =
      assert_dispatched_or_rollback 1 2
        (dispatchable "a" 8 ∷ dispatchable "b" 9 ∷ [])
        (dispatch_ingestion_jobs (unreachable false) (dispatchable "a" 8 ∷ dispatchable "b" 9 ∷ []))
        (inserted before its_rows) in
    ((out.0 ≡ thrown (service_unavailable 30))
      ↔ All (IsLost (unreachable false)) (dispatchable "a" 8 ∷ dispatchable "b" 9 ∷ []))
    × ((out ≡ (thrown (service_unavailable 30), before))
        ⊎ (out ≡ (ok done, inserted before its_rows)))
unfolding contains
assert_dispatched_or_rollback_lem_example =
    assert_dispatched_or_rollback_lem (unreachable false) 1 2
      (dispatchable "a" 8 ∷ dispatchable "b" 9 ∷ []) before its_rows
      (((refl, tt), (refl, (refl, tt))), ((refl, tt), (refl, (refl, tt))))
