-- ===== src/Delivery/Chain.antt =====
-- How often one job is continued, over one copy of it: a copy that comes again since its ack was lost
-- is not followed.
use hono_crosmos.Base.{ℕ, suc, ◌+◌, ◌-◌, ◌≤◌, Option, none, some, List, [], ◌∷◌, arith}
use hono_crosmos.Base.Result.{ok, thrown}
use hono_crosmos.Delivery.Consumer.{
  Call, sent, send_failed, ack, retry, processed, skipped_terminal, skipped_not_found,
  skipped_in_flight, retry_transient, requeue_incomplete, Producer, Processing, IngestionJobMessage,
  continuation, continue_or_retry, settle, handle_ingestion_delivery, count_of,
  max_job_continuations,
}

-- One delivery: whether the publication would be carried out, when, and what the run gives.
pub record Delivered : Type 0 where
  pub producer : Producer
  pub now : ℕ
  pub result : Processing

-- The message that the queue delivers next, from the calls made on one: the continuation that was
-- published, the message itself if it was put back, and none once it was acked.
abbrev pub next_message : IngestionJobMessage → List Call → Option IngestionJobMessage
next_message body [] = some body
next_message body (sent message ∷ calls) = some message
next_message body (send_failed ∷ calls) = next_message body calls
next_message body (ack ∷ calls) = none
next_message body (retry delay ∷ calls) = some body

abbrev pub publications : List Call → ℕ
publications [] = 0
publications (sent message ∷ calls) = suc (publications calls)
publications (send_failed ∷ calls) = publications calls
publications (ack ∷ calls) = publications calls
publications (retry delay ∷ calls) = publications calls

-- The chunks that a run reports.
abbrev pub chunks_of : Processing → ℕ
chunks_of (ok (outcome, chunks)) = chunks
chunks_of (thrown error) = 0

-- Along the deliveries of one job: how many continuations are published, and the chunks committed.
unfoldable pub follow : List Delivered → Option IngestionJobMessage → ℕ × ℕ
follow [] message = (0, 0)
follow (d ∷ ds) none = (0, 0)
follow (d ∷ ds) (some body) =
    let calls = handle_ingestion_delivery d.producer d.now body d.result in
    let (sends, chunks) = follow ds (next_message body calls) in
    (publications calls + sends, chunks_of d.result + chunks)

-- Continuations that may still follow.
abbrev budget : Option IngestionJobMessage → ℕ
budget none = 0
budget (some body) = 800 - count_of body.continuation_count

delivery-budget :
    (producer : Producer) (now : ℕ) (body : IngestionJobMessage) (result : Processing)
    → (publications (handle_ingestion_delivery producer now body result)
          + budget (next_message body (handle_ingestion_delivery producer now body result))
        ≤ budget (some body))
      × (publications (handle_ingestion_delivery producer now body result) ≤ chunks_of result)
unfolding handle_ingestion_delivery settle continue_or_retry continuation
delivery-budget producer now body (ok (requeue_incomplete, chunks)) = ground arith
delivery-budget producer now body (ok (processed, chunks)) = (omega arith, omega arith)
delivery-budget producer now body (ok (skipped_terminal, chunks)) = (omega arith, omega arith)
delivery-budget producer now body (ok (skipped_not_found, chunks)) = (omega arith, omega arith)
delivery-budget producer now body (ok (skipped_in_flight, chunks)) = (omega arith, omega arith)
delivery-budget producer now body (ok (retry_transient, chunks)) = (omega arith, omega arith)
delivery-budget producer now body (thrown error) = (omega arith, omega arith)

follow-budget :
    (ds : List Delivered) (message : Option IngestionJobMessage)
    → ((follow ds message).0 ≤ budget message) × ((follow ds message).0 ≤ (follow ds message).1)
unfolding follow
follow-budget [] message = (omega arith, omega arith)
follow-budget (d ∷ ds) none = (omega arith, omega arith)
follow-budget (d ∷ ds) (some body) =
    let calls = handle_ingestion_delivery d.producer d.now body d.result in
    let (bound, progress) = delivery-budget d.producer d.now body d.result in
    let (bound', progress') = follow-budget ds (next_message body calls) in
    (omega (arith, bound, bound'), omega (arith, progress, progress'))

-- Along all the deliveries of a job, whatever their runs give, at most 800 continuations are
-- published (fewer, if the first message was already continued), and no more than there were chunks
-- committed.
pub follow-le :
    (ds : List Delivered) (body : IngestionJobMessage)
    → ((follow ds (some body)).0 ≤ max_job_continuations - count_of body.continuation_count)
      × ((follow ds (some body)).0 ≤ (follow ds (some body)).1)
follow-le ds body = follow-budget ds (some body)
