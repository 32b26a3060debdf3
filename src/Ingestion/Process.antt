-- ===== src/Ingestion/Process.antt =====
-- apps/ingestion/src/process-ingestion.ts: `processIngestionRun`, from the claim of the job to the
-- outcome that the queue consumer settles. Jobs.Consumer is the job table, Delivery.Consumer what
-- becomes of the outcome.
use Prim.Native.String.{◌++◌ as concat_strings}
use hono_crosmos.Base.{
  ℕ, suc, ◌==◌, String, Bool, false, Option, none, some, List, [], ◌∷◌, if◌then◌else◌, length, ◌+◌,
}
use hono_crosmos.Base.Dict.{Dict}
use hono_crosmos.Base.Decimal.{to_string}
use hono_crosmos.Jobs.Row.{IngestionJobStatus, IngestionJobResult, UpdateStatusOptions}
use hono_crosmos.Jobs.Consumer.{
  ClaimResult, claimed, terminal, not_found, in_flight, claim_job, reset_job_for_retry,
  update_job_status,
}
use hono_crosmos.Delivery.Consumer.{
  IngestionJobMessage, IngestionOutcome, processed, skipped_terminal, skipped_not_found,
  skipped_in_flight, retry_transient, requeue_incomplete,
}
use hono_crosmos.Visibility.Graph.{set_add}
use hono_crosmos.Ingestion.Usage.{is_empty}
use hono_crosmos.Ingestion.Run.{
  IngestResult, Environment, World, Run, input_tokens, bill, leaves, breaks, continues,
  visit_source,
}

pub data Walked : Type 0 where
  left : World → ℕ → Walked
  ended : Run → Walked

-- The loop over `source_ids`, from index `i`.
unfoldable pub walk : Environment → IngestionJobMessage → ℕ → List ℕ → Run → Walked
walk env msg i [] r = ended r
walk env msg i (id ∷ rest) r = elim (visit_source env msg i id rest r) [
  | leaves w chunks ↦ left w chunks
  | breaks r' ↦ ended r'
  | continues r' ↦ walk env msg (suc i) rest r'
]

abbrev pub bills_nothing : Run → Bool
bills_nothing r = if is_empty r.results then is_empty r.newly_failed_source_ids else false

-- `if (results.length > 0 || newlyFailedSourceIds.length > 0)`.
unfoldable pub bill_if_any : Environment → IngestionJobMessage → Run → World
bill_if_any env msg r = if bills_nothing r then r.world else bill env msg r

unfoldable pub reset : IngestionJobMessage → World → World
reset msg w = record w { jobs = (reset_job_for_retry msg.job_id w.jobs).1 }

unfoldable pub final_status : ℕ → ℕ → IngestionJobStatus
final_status failed all =
    if failed == 0
    then IngestionJobStatus.completed
    else if failed == all
    then IngestionJobStatus.failed
    else IngestionJobStatus.partial

abbrev pub rolled_up_error : ℕ → ℕ → Option String
rolled_up_error failed all =
    if failed == 0
    then none
    else if failed == all
    then some "All sources failed during ingestion"
    else some (
        concat_strings (to_string failed)
          (concat_strings "/" (concat_strings (to_string all) " sources failed")))

abbrev pub count_memories : List IngestResult → ℕ
count_memories [] = 0
count_memories (r ∷ results) = length r.memories + count_memories results

abbrev pub count_edges : List IngestResult → ℕ
count_edges [] = 0
count_edges (r ∷ results) = length r.edges + count_edges results

abbrev pub add_all : List ℕ → List ℕ → List ℕ
add_all [] seen = seen
add_all (id ∷ ids) seen = add_all ids (set_add id seen)

abbrev pub entity_set : List IngestResult → List ℕ → List ℕ
entity_set [] seen = seen
entity_set (r ∷ results) seen =
    entity_set results (add_all r.resolved_entity_ids (add_all r.new_entity_ids seen))

abbrev pub unless_empty : Dict String String → Option (Dict String String)
unless_empty [] = none
unless_empty (e ∷ errors) = some (e ∷ errors)

unfoldable pub result_body : IngestionJobMessage → Run → IngestionJobResult
result_body msg r = record {
  source_ids = msg.source_ids;
  failed_source_ids = r.failed_source_ids;
  memory_count = count_memories r.results;
  entity_count = length (entity_set r.results []);
  edge_count = count_edges r.results;
  tokens_used = input_tokens r.results;
  source_errors = unless_empty r.source_errors;
  error_message = rolled_up_error (length r.failed_source_ids) (length msg.source_ids);
}

abbrev pub final_options : IngestionJobMessage → Run → UpdateStatusOptions
final_options msg r = record { result = some (result_body msg r); error = none; stage = none }

unfoldable pub roll_up : Environment → IngestionJobMessage → Run → World
roll_up env msg r =
    let w = bill_if_any env msg r in
    record w {
      jobs =
          (update_job_status msg.job_id
            (final_status (length r.failed_source_ids) (length msg.source_ids))
            (final_options msg r) env.now w.jobs).1;
    }

-- After the loop.
unfoldable pub conclude : Environment → IngestionJobMessage → Run → World × (IngestionOutcome × ℕ)
conclude env msg r =
    if is_empty r.transient_failed_ids
    then (if r.budget_hit
        then (reset msg (bill_if_any env msg r), (requeue_incomplete, r.chunks_processed))
        else (roll_up env msg r, (processed, r.chunks_processed)))
    else (reset msg r.world, (retry_transient, r.chunks_processed))

abbrev pub start : World → Run
start w = record {
  world = w;
  failed_source_ids = [];
  newly_failed_source_ids = [];
  source_errors = [];
  results = [];
  transient_failed_ids = [];
  chunks_processed = 0;
  budget_hit = false;
}

abbrev pub settled_walk :
    Environment → IngestionJobMessage → Walked → World × (IngestionOutcome × ℕ)
settled_walk env msg (left w chunks) = (w, (processed, chunks))
settled_walk env msg (ended r) = conclude env msg r

abbrev pub after_claim :
    Environment → IngestionJobMessage → World → ClaimResult → World × (IngestionOutcome × ℕ)
after_claim env msg w claimed = settled_walk env msg (walk env msg 0 msg.source_ids (start w))
after_claim env msg w terminal = (w, (skipped_terminal, 0))
after_claim env msg w not_found = (w, (skipped_not_found, 0))
after_claim env msg w in_flight = (w, (skipped_in_flight, 0))

unfoldable pub process_ingestion_run :
    ℕ → Environment → IngestionJobMessage → World → World × (IngestionOutcome × ℕ)
process_ingestion_run lease env msg w =
    let claim = claim_job msg.job_id lease env.now w.jobs in
    after_claim env msg (record w { jobs = claim.1 }) claim.0
