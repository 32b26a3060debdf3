-- ===== src/Ingestion/Tests.antt =====
-- Runs of concrete jobs.
use hono_crosmos.Base.{
  ℕ, ◌≡◌, ◌⊎◌, refl, Bool, true, false, none, some, [], ◌∷◌, ◌==◌, if◌then◌else◌, ◌+◌,
}
use hono_crosmos.Jobs.Row.{IngestionJobStatus, Job}
use hono_crosmos.Delivery.Consumer.{IngestionJobMessage, processed}
use hono_crosmos.Visibility.Graph.{contains, set_add}
use hono_crosmos.Jobs.Consumer.{
  claim_job, is_job_cancelled, get_job_status, update_job_status, reset_job_for_retry,
}
use hono_crosmos.Base.Tables.{count_where, first_where, update_where, select_where}
use hono_crosmos.Base.Decimal.{to_string}
use hono_crosmos.Base.Dict.{set}
use hono_crosmos.Ingestion.Sources.{
  ExtractionStatus, pending, processing, completed, Source, source, get_source_extraction_status,
  mark_sources_status, mark_sources_failed, mark_unprocessed_sources_cancelled,
}
use hono_crosmos.Ingestion.Usage.{record_ingestion_usage}
use hono_crosmos.Ingestion.Accounts.{total_tokens, billed_tokens}
use hono_crosmos.Ingestion.Run.{
  Attempt, returned, raised, Environment, World, scope_of, attempt_source, visit_source,
  should_stop, process_source, attempts_from, finish_source, begin_source, fail_source, bill,
  stop_run,
}
use hono_crosmos.Ingestion.Process.{
  process_ingestion_run, walk, conclude, bill_if_any, reset, roll_up, final_status, result_body,
}
use hono_crosmos.Ingestion.Presence.{Has, Finished}
use hono_crosmos.Ingestion.Complete.{IsUnfinished, process_ingestion_run-processed}
use hono_crosmos.Ingestion.History.{
  Delivered, run_all, run_all-settled, run_all-total_tokens, retry_transient-unbilled,
}

abbrev pending_job : Job
pending_job = record {
  id = "a";
  org_id = 1;
  space_id = 2;
  user_id = 3;
  status = IngestionJobStatus.pending;
  source_ids = 5 ∷ 6 ∷ [];
  result = none;
  error_message = none;
  current_stage = none;
  created_at = 1000;
  started_at = none;
  completed_at = none;
}

abbrev source_row : ℕ → ExtractionStatus → Bool → Source
source_row id status recorded = record {
  id = id;
  org_id = 1;
  space_id = 2;
  extraction_status = status;
  content_type = "text";
  token_count = id + 100;
  meta = record {
    error_message = none;
    cancelled = false;
    analytics_completion_recorded = recorded;
    analytics_failure_recorded = false;
  };
  updated_at = 7;
}

abbrev message : IngestionJobMessage
message = record {
  job_id = "a";
  correlation_id = "c";
  org_id = 1;
  space_id = 2;
  user_id = 3;
  source_ids = 5 ∷ 6 ∷ [];
  enqueued_at_ms = none;
  continuation_count = none;
}

abbrev world : World
world = record {
  jobs = pending_job ∷ [];
  sources =
      source_row 5 pending false ∷ source_row 6 processing false ∷ source_row 4 completed true ∷ [];
  usage = record { daily = []; content_types = [] };
}

abbrev result_of : ℕ → Attempt
result_of id = returned (record {
  source_id = id;
  memories = 1 ∷ 2 ∷ [];
  edges = 3 ∷ [];
  new_entity_ids = 4 ∷ 5 ∷ [];
  resolved_entity_ids = 4 ∷ [];
  chunk_count = 1;
  processed_chunk_count = 1;
  remaining_chunk_count = 0;
  token_count = id + 100;
})

abbrev environment : (ℕ → Attempt) → Environment
environment outcome = record {
  now = 7;
  date = "2025-01-01";
  interfere = λ i jobs. jobs;
  stop_check_fails = λ i. false;
  is_space_active = λ i. true;
  ingest_source = λ id attempt budget. outcome id;
  memories_of = λ ids. 4;
  usage_fails = false;
  cancel_mark_fails = false;
}

abbrev healthy : Environment
healthy = environment result_of

-- The dependency of source 6 is down.
abbrev degraded : Environment
degraded = environment (λ id. if id == 6 then raised true "vector store is red" else result_of id)

abbrev delivery : Environment → Delivered
delivery env = record { lease = 100; env = env; msg = message }

healthy_outcome : (process_ingestion_run 100 healthy message world).1 ≡ (processed, 2)
unfolding claim_job is_job_cancelled get_job_status update_job_status reset_job_for_retry
    count_where first_where update_where select_where process_ingestion_run walk conclude
    bill_if_any reset roll_up final_status result_body visit_source should_stop process_source
    attempt_source attempts_from finish_source begin_source fail_source bill stop_run
    get_source_extraction_status mark_sources_status mark_sources_failed
    mark_unprocessed_sources_cancelled record_ingestion_usage contains set_add to_string set
healthy_outcome = refl

-- Source 5 is completed by the degraded run and skipped by the next one: its 105 tokens are missing.
lost_tokens :
    total_tokens (run_all (delivery degraded ∷ delivery healthy ∷ []) world).usage.daily ≡ 106
unfolding claim_job is_job_cancelled get_job_status update_job_status reset_job_for_retry
    count_where first_where update_where select_where process_ingestion_run walk conclude
    bill_if_any reset roll_up final_status result_body visit_source should_stop process_source
    attempt_source attempts_from finish_source begin_source fail_source bill stop_run
    get_source_extraction_status mark_sources_status mark_sources_failed
    mark_unprocessed_sources_cancelled record_ingestion_usage contains set_add to_string set
lost_tokens = refl

process_ingestion_run-processed_example :
    Has (Finished (scope_of message)) 6 (process_ingestion_run 100 healthy message world).0.sources
    ⊎ ((budget : ℕ) × IsUnfinished (attempt_source healthy 6 budget))
unfolding claim_job is_job_cancelled get_job_status update_job_status reset_job_for_retry
    count_where first_where update_where select_where process_ingestion_run walk conclude
    bill_if_any reset roll_up final_status result_body visit_source should_stop process_source
    attempt_source attempts_from finish_source begin_source fail_source bill stop_run
    get_source_extraction_status mark_sources_status mark_sources_failed
    mark_unprocessed_sources_cancelled record_ingestion_usage contains set_add to_string set
process_ingestion_run-processed_example =
    process_ingestion_run-processed 100 healthy message world 6 (source_row 6 processing false) refl
      refl refl refl refl

run_all-settled_example :
    source 4 (run_all (delivery degraded ∷ delivery healthy ∷ []) world).sources
    ≡ some (source_row 4 completed true)
unfolding first_where
run_all-settled_example =
    run_all-settled (delivery degraded ∷ delivery healthy ∷ []) world 4
      (source_row 4 completed true) refl refl

run_all-total_tokens_example :
    total_tokens (run_all (delivery degraded ∷ delivery healthy ∷ []) world).usage.daily
      + billed_tokens world.sources
    ≡ total_tokens world.usage.daily
      + billed_tokens (run_all (delivery degraded ∷ delivery healthy ∷ []) world).sources
unfolding contains
run_all-total_tokens_example =
    run_all-total_tokens (delivery degraded ∷ delivery healthy ∷ []) world
      (refl, (refl, (refl, tt)))

retry_transient-unbilled_example :
    ((process_ingestion_run 100 degraded message world).0.usage ≡ world.usage)
    × (source 5 (run_all (delivery degraded ∷ delivery healthy ∷ []) world).sources
        ≡ some (source_row 5 completed false))
unfolding claim_job is_job_cancelled get_job_status update_job_status reset_job_for_retry
    count_where first_where update_where select_where process_ingestion_run walk conclude
    bill_if_any reset roll_up final_status result_body visit_source should_stop process_source
    attempt_source attempts_from finish_source begin_source fail_source bill stop_run
    get_source_extraction_status mark_sources_status mark_sources_failed
    mark_unprocessed_sources_cancelled record_ingestion_usage contains set_add to_string set
retry_transient-unbilled_example =
    retry_transient-unbilled (delivery degraded) (delivery healthy ∷ []) world 5
      (source_row 5 completed false) (refl, (refl, (refl, tt))) refl refl refl
