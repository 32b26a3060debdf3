-- ===== src/Ingestion/History.antt =====
-- Sequences of runs: deliveries and redeliveries of any jobs, one after the other.
use hono_crosmos.Base.{ℕ, ◌+◌, ◌≡◌, refl, subst, sym, true, some, List, [], ◌∷◌, arith}
use hono_crosmos.Delivery.Consumer.{IngestionJobMessage, retry_transient}
use hono_crosmos.Ingestion.Sources.{Source, is_settled, source}
use hono_crosmos.Ingestion.Usage.{source_ids_of}
use hono_crosmos.Ingestion.Accounts.{total_tokens, billed_tokens, NoRepeat}
use hono_crosmos.Ingestion.Run.{Environment, World}
use hono_crosmos.Ingestion.Process.{process_ingestion_run}
use hono_crosmos.Ingestion.Settled.{process_ingestion_run-settled}
use hono_crosmos.Ingestion.Billing.{process_ingestion_run-Settlement}

pub record Delivered : Type 0 where
  pub lease : ℕ
  pub env : Environment
  pub msg : IngestionJobMessage

abbrev pub run_all : List Delivered → World → World
run_all [] w = w
run_all (r ∷ runs) w = run_all runs (process_ingestion_run r.lease r.env r.msg w).0

-- A source that is `completed` or `failed` is the same row, its billing marks included, after any
-- sequence of runs of any jobs.
pub run_all-settled :
    (runs : List Delivered) (w : World) (id : ℕ) (row : Source)
    → source id w.sources ≡ some row
    → is_settled row.extraction_status ≡ true
    → source id (run_all runs w).sources ≡ some row
run_all-settled [] w id row h settled = h
run_all-settled (r ∷ runs) w id row h settled =
    run_all-settled runs (process_ingestion_run r.lease r.env r.msg w).0 id row
      (process_ingestion_run-settled r.lease r.env r.msg w id row h settled) settled

-- Over any sequence of runs of any jobs, the tokens in the daily counters grow by exactly the tokens
-- of the sources whose completion is newly recorded, when no source id stands twice.
pub run_all-total_tokens :
    (runs : List Delivered) (w : World)
    → NoRepeat (source_ids_of w.sources)
    → total_tokens (run_all runs w).usage.daily + billed_tokens w.sources
      ≡ total_tokens w.usage.daily + billed_tokens (run_all runs w).sources
run_all-total_tokens [] w d = refl
run_all-total_tokens (r ∷ runs) w d =
    let once = (process_ingestion_run-Settlement r.lease r.env r.msg w d).0 in
    let w' = (process_ingestion_run r.lease r.env r.msg w).0 in
    omega (arith, once.0, run_all-total_tokens runs w' (subst NoRepeat (sym once.1) d))

-- A run whose outcome is `retry_transient` adds nothing to the daily counters, and a source that is
-- settled after it is the same row, with the same billing marks, after any later runs, when no source
-- id stands twice before it.
pub retry_transient-unbilled :
    (first : Delivered) (later : List Delivered) (w : World) (id : ℕ) (row : Source)
    → NoRepeat (source_ids_of w.sources)
    → (process_ingestion_run first.lease first.env first.msg w).1.0 ≡ retry_transient
    → source id (process_ingestion_run first.lease first.env first.msg w).0.sources ≡ some row
    → is_settled row.extraction_status ≡ true
    → ((process_ingestion_run first.lease first.env first.msg w).0.usage ≡ w.usage)
      × (source id (run_all (first ∷ later) w).sources ≡ some row)
retry_transient-unbilled first later w id row d e h settled = (
  (process_ingestion_run-Settlement first.lease first.env first.msg w d).1 e,
  run_all-settled later (process_ingestion_run first.lease first.env first.msg w).0 id row h
      settled,
)
