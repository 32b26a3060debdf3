-- ===== src/Pipeline/Ingest.antt =====
-- apps/ingestion/src/ingestion/pipeline.ts: `ingestSource`, from the source to its checkpoint, under
-- the chunk budget that a run always gives.
use Prim.Native.String.{◌++◌ as concat_strings}
use hono_crosmos.Base.{
  ℕ, ◌-◌, ◌==◌, String, ◌===◌, string_eq, Bool, false, not, ◌||◌, Option, none, some, List, [], ◌∷◌,
  ◌++◌, length, ltb, if◌then◌else◌,
}
use hono_crosmos.Base.Int.{ℤ, pos}
use hono_crosmos.Base.Result.{Result, ok, thrown}
use hono_crosmos.Ingestion.Run.{IngestResult, Attempt, returned, interrupted, raised}
use hono_crosmos.Pipeline.Artifacts.{Artifacts, Failure, purge_source_artifacts}
use hono_crosmos.Pipeline.Batch.{BatchPlan, plan_batch, sequences}
use hono_crosmos.Pipeline.Windows.{
  LoadedSource, Linked, Stages, Checkpointed, max_chunks_per_source, too_large, Windowed, throws,
  through, process_windows,
}

abbrev pub empty_result : ℕ → ℕ → ℕ → ℕ → ℕ → IngestResult
empty_result source tokens chunk_count processed remaining = record {
  source_id = source;
  memories = [];
  edges = [];
  new_entity_ids = [];
  resolved_entity_ids = [];
  chunk_count = chunk_count;
  processed_chunk_count = processed;
  remaining_chunk_count = remaining;
  token_count = tokens;
}

abbrev pub no_links : Linked
no_links = record {
  memory_entities = [];
  edges = [];
  new_entity_ids = [];
  resolved_entity_ids = [];
  failure = none;
}

-- Stage 8 is skipped when the batch has no memories.
abbrev pub link_if_any : Stages → List ℕ → Linked
link_if_any stages [] = no_links
link_if_any stages (m ∷ ingested) = stages.link (m ∷ ingested)

abbrev pub linked : Linked → Artifacts → Artifacts
linked l a = record a {
  memory_entities = a.memory_entities ++ l.memory_entities;
  edges = a.edges ++ l.edges;
}

abbrev pub checkpoint : BatchPlan → Option ℤ
checkpoint plan = if ltb 0 plan.remaining then some (pos plan.end) else none

abbrev pub batch_result : ℕ → LoadedSource → BatchPlan → List ℕ → Linked → IngestResult
batch_result source loaded plan ingested l = record {
  source_id = source;
  memories = ingested;
  edges = l.edges;
  new_entity_ids = l.new_entity_ids;
  resolved_entity_ids = l.resolved_entity_ids;
  chunk_count = loaded.chunk_count;
  processed_chunk_count = plan.end - plan.start;
  remaining_chunk_count = plan.remaining;
  token_count = if ltb 0 plan.remaining then 0 else loaded.token_count;
}

abbrev pub finish_batch :
    ℕ
    → LoadedSource
    → BatchPlan
    → List ℕ
    → Linked
    → Artifacts
    → Option ℤ
    → Option Failure
    → Attempt × Checkpointed
finish_batch source loaded plan ingested l a next (some (retryable, message)) =
    (raised retryable message, record { artifacts = linked l a; next_sequence = next })
finish_batch source loaded plan ingested l a next none = (
  returned (batch_result source loaded plan ingested l),
  record { artifacts = linked l a; next_sequence = checkpoint plan },
)

abbrev pub after_windows :
    Stages → ℕ → LoadedSource → BatchPlan → Option ℤ → Windowed → Attempt × Checkpointed
after_windows stages source loaded plan next (throws none a) =
    (interrupted, record { artifacts = a; next_sequence = next })
after_windows stages source loaded plan next (throws (some (retryable, message)) a) =
    (raised retryable message, record { artifacts = a; next_sequence = next })
after_windows stages source loaded plan next (through ingested a) =
    let l = link_if_any stages ingested in
    finish_batch source loaded plan ingested l a next l.failure

abbrev pub after_purge :
    Stages
    → ℕ
    → LoadedSource
    → BatchPlan
    → Option ℤ
    → Result Failure ℕ × Artifacts
    → Attempt × Checkpointed
after_purge stages source loaded plan next (thrown (retryable, message), a) =
    (raised retryable message, record { artifacts = a; next_sequence = next })
after_purge stages source loaded plan next (ok count, a) =
    let batch = sequences plan.start (plan.end - plan.start) in
    after_windows stages source loaded plan next
      (process_windows stages source (length batch) 0 [] batch a)

abbrev pub next_of : Option ℤ → ℤ
next_of none = pos 0
next_of (some n) = n

unfoldable pub ingest_batch : Stages → ℕ → ℤ → LoadedSource → Checkpointed → Attempt × Checkpointed
ingest_batch stages source budget loaded c =
    let plan = plan_batch loaded.chunk_count (next_of c.next_sequence) budget in
    if plan.end == plan.start
    then (returned (empty_result source loaded.token_count loaded.chunk_count 0 plan.remaining), c)
    else after_purge stages source loaded plan c.next_sequence (
        purge_source_artifacts stages.persists_in_column stages.delete_fails source plan.start
          c.artifacts)

abbrev pub is_supported : String → Bool
is_supported t = t === "text" || (t === "markdown" || t === "conversation")

abbrev pub ingest_loaded :
    Stages → ℕ → ℤ → Checkpointed → Result Failure LoadedSource → Attempt × Checkpointed
ingest_loaded stages source budget c (thrown (retryable, message)) = (raised retryable message, c)
ingest_loaded stages source budget c (ok loaded) =
    if not (is_supported loaded.content_type)
    then (raised false (concat_strings "Unsupported content_type: " loaded.content_type), c)
    else if loaded.chunk_count == 0
    then (returned (empty_result source loaded.token_count 0 0 0), c)
    else if ltb max_chunks_per_source loaded.chunk_count
    then (raised false (too_large source loaded.chunk_count), c)
    else ingest_batch stages source budget loaded c

unfoldable pub ingest_source : Stages → ℕ → ℤ → Checkpointed → Attempt × Checkpointed
ingest_source stages source budget c = ingest_loaded stages source budget c stages.loaded
