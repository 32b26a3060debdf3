-- ===== src/Delivery/Tests.antt =====
-- Deliveries at concrete messages.
use hono_crosmos.Base.{◌-◌, ◌≤◌, false, none, some, List, [], ◌∷◌}
use hono_crosmos.Base.Result.{ok}
use hono_crosmos.Delivery.Consumer.{
  IngestionJobMessage, max_job_continuations, processed, requeue_incomplete, working, failing,
  count_of, Processing, handle_ingestion_delivery,
}
use hono_crosmos.Delivery.Durable.{IsDurable, handle_ingestion_delivery-IsDurable}
use hono_crosmos.Delivery.Chain.{Delivered, follow, follow-le}

abbrev message : IngestionJobMessage
message = record {
  job_id = "job";
  correlation_id = "trace";
  org_id = 1;
  space_id = 2;
  user_id = 3;
  source_ids = 4 ∷ [];
  enqueued_at_ms = none;
  continuation_count = none;
}

abbrev unfinished : Processing
unfinished = ok (requeue_incomplete, 8)

handle_ingestion_delivery-IsDurable_example :
    IsDurable false unfinished (handle_ingestion_delivery failing 9000 message unfinished)
handle_ingestion_delivery-IsDurable_example =
    handle_ingestion_delivery-IsDurable 15 16 failing 9000 message unfinished

abbrev deliveries : List Delivered
deliveries =
    record { producer = working; now = 9000; result = unfinished }
    ∷ record { producer = failing; now = 9100; result = unfinished }
    ∷ record { producer = working; now = 9200; result = ok (processed, 3) }
    ∷ []

follow-le_example :
    ((follow deliveries (some message)).0
      ≤ max_job_continuations - count_of message.continuation_count)
    × ((follow deliveries (some message)).0 ≤ (follow deliveries (some message)).1)
follow-le_example = follow-le deliveries message
