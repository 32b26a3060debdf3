-- ===== src/Delivery/Consumer.antt =====
-- apps/ingestion/src/queue-consumer.ts, with the message of packages/types/src/index.ts. What the
-- handler does to the queue is the list of its calls in their order; logs and metrics are left out.
-- What `processIngestion` gives back, or that it throws, is an argument, and so is what becomes of
-- a publication.
use hono_crosmos.Base.{
  ℕ, ◌+◌, String, Bool, true, false, not, ◌||◌, Option, none, some, List, [], ◌∷◌, ltb, leb,
  if◌then◌else◌,
}
use hono_crosmos.Base.Result.{Result, ok, thrown}

pub record IngestionJobMessage : Type 0 where
  pub job_id : String
  pub correlation_id : String
  pub org_id : ℕ
  pub space_id : ℕ
  pub user_id : ℕ
  pub source_ids : List ℕ
  pub enqueued_at_ms : Option ℕ
  pub continuation_count : Option ℕ

abbrev pub max_job_continuations : ℕ
max_job_continuations = 800

abbrev pub backstop_retry_delay_seconds : ℕ
backstop_retry_delay_seconds = 60

pub data IngestionOutcome : Type 0 where
  processed : IngestionOutcome
  skipped_terminal : IngestionOutcome
  skipped_not_found : IngestionOutcome
  skipped_in_flight : IngestionOutcome
  retry_transient : IngestionOutcome
  requeue_incomplete : IngestionOutcome

pub data Call : Type 0 where
  sent : IngestionJobMessage → Call
  send_failed : Call
  ack : Call
  retry : Option ℕ → Call

-- `sendContinuation`: absent, or a call that fails or is carried out.
pub data Producer : Type 0 where
  absent : Producer
  failing : Producer
  working : Producer

abbrev pub count_of : Option ℕ → ℕ
count_of none = 0
count_of (some n) = n

-- The copy of the message with the next count and a new time.
unfoldable pub continuation : IngestionJobMessage → ℕ → ℕ → IngestionJobMessage
continuation body now next = record {
  job_id = body.job_id;
  correlation_id = body.correlation_id;
  org_id = body.org_id;
  space_id = body.space_id;
  user_id = body.user_id;
  source_ids = body.source_ids;
  enqueued_at_ms = some now;
  continuation_count = some next;
}

abbrev pub is_bound : Producer → Bool
is_bound absent = false
is_bound failing = true
is_bound working = true

-- The publication comes first, and only one that is carried out lets the delivery be acked.
abbrev pub publish : Bool → IngestionJobMessage → List Call
publish false message = send_failed ∷ retry (some backstop_retry_delay_seconds) ∷ []
publish true message = sent message ∷ ack ∷ []

abbrev pub succeeds : Producer → Bool
succeeds absent = false
succeeds failing = false
succeeds working = true

unfoldable pub continue_or_retry : Producer → ℕ → IngestionJobMessage → ℕ → ℕ → List Call
continue_or_retry producer now body continuation_count chunks_processed =
    let next = continuation_count + 1 in
    let made_progress = ltb 0 chunks_processed in
    let within_bound = leb next max_job_continuations in
    if not (is_bound producer) || (not made_progress || not within_bound)
    then retry (some backstop_retry_delay_seconds) ∷ []
    else publish (succeeds producer) (continuation body now next)

unfoldable pub settle : Producer → ℕ → IngestionJobMessage → IngestionOutcome × ℕ → List Call
settle producer now body (skipped_in_flight, chunks) =
    retry (some backstop_retry_delay_seconds) ∷ []
settle producer now body (requeue_incomplete, chunks) =
    continue_or_retry producer now body (count_of body.continuation_count) chunks
settle producer now body (retry_transient, chunks) = retry (some backstop_retry_delay_seconds) ∷ []
settle producer now body (processed, chunks) = ack ∷ []
settle producer now body (skipped_terminal, chunks) = ack ∷ []
settle producer now body (skipped_not_found, chunks) = ack ∷ []

-- What the run of one delivery gives: an outcome with the chunks committed, or a throw.
abbrev pub Processing : Type 0
Processing = Result Unit (IngestionOutcome × ℕ)

unfoldable pub handle_ingestion_delivery :
    Producer → ℕ → IngestionJobMessage → Processing → List Call
handle_ingestion_delivery producer now body (ok result) = settle producer now body result
handle_ingestion_delivery producer now body (thrown error) = retry none ∷ []
