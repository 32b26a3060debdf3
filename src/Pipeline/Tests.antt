-- ===== src/Pipeline/Tests.antt =====
-- Attempts at a concrete source.
use hono_crosmos.Base.{
  ℕ, ◌≢◌, ◌≡◌, refl, String, string_eq, true, false, Option, none, some, List, [], ◌∷◌, ◌++◌, ◌==◌,
  if◌then◌else◌, arith,
}
use hono_crosmos.Base.Int.{ℤ, pos}
use hono_crosmos.Base.Result.{ok}
use hono_crosmos.Base.Tables.{All, count_where, select_where, delete_where}
use hono_crosmos.Visibility.Graph.{contains, set_add}
use hono_crosmos.Ingestion.Run.{IngestResult}
use hono_crosmos.Pipeline.Artifacts.{Failure, purge_source_artifacts}
use hono_crosmos.Pipeline.Batch.{plan_batch, sequences}
use hono_crosmos.Pipeline.Windows.{
  Stages, LoadedSource, Checkpointed, process_windows, persist_prepared,
}
use hono_crosmos.Pipeline.Ingest.{ingest_source, ingest_batch, next_of}
use hono_crosmos.Pipeline.Counts.{rows}
use hono_crosmos.Pipeline.Once.{IsCommitted}
use hono_crosmos.Pipeline.History.{
  batches, covered, covered-batches, ingest_all, ingest_source-IsCommitted,
}
use hono_crosmos.Base.Dict.{Dict}
use hono_crosmos.Ingestion.Sources.{TenantScope}
use hono_crosmos.Pipeline.Edges.{Relation, Fact, EdgeRow, create_edges_from_facts}
use hono_crosmos.Pipeline.Graph.{
  IsRowOfFact, EdgesDiffer, AllFactsCovered, create_edges_from_facts_lem,
}
use hono_crosmos.Pipeline.Retry.{purge_source_artifacts-retried}

abbrev conversation : LoadedSource
conversation = record { content_type = "conversation"; token_count = 900; chunk_count = 5 }

abbrev vector_outage : Failure
vector_outage = (true, "vector store is red")

-- Chunk 1 yields no facts.
abbrev stages : (ℕ → Option Failure) → Stages
stages upsert_fails = record {
  loaded = ok conversation;
  persists_in_column = false;
  delete_fails = none;
  is_cancelled_at = λ i. false;
  prepare = λ k. if k == 1 then ok [] else ok (k ∷ []);
  commit_fails = λ i. none;
  upsert_fails = upsert_fails;
  link = λ ids. record {
    memory_entities = [];
    edges = ids;
    new_entity_ids = 8 ∷ [];
    resolved_entity_ids = [];
    failure = none;
  };
}

abbrev fresh : Checkpointed
fresh = record {
  artifacts = record {
    chunks = [];
    chunk_memories = [];
    memories = [];
    memory_entities = [];
    edges = [];
    vectors = [];
    next_chunk_id = 1;
    next_memory_id = 1;
  };
  next_sequence = none;
}

-- The vectors of the second window fail, after its rows are committed.
abbrev first_attempt : Stages × ℤ
first_attempt = (stages (λ i. if i == 1 then some vector_outage else none), pos 8)

abbrev healthy : Stages
healthy = stages (λ i. none)

abbrev after_outage : Checkpointed
after_outage = ingest_all 7 (first_attempt ∷ []) fresh

outage_rows : rows 7 3 after_outage.artifacts ≡ 1
unfolding purge_source_artifacts plan_batch process_windows persist_prepared ingest_source
    ingest_batch count_where select_where delete_where contains set_add
outage_rows = refl

abbrev last_result : IngestResult
last_result = record {
  source_id = 7;
  memories = 5 ∷ 6 ∷ 7 ∷ [];
  edges = 5 ∷ 6 ∷ 7 ∷ [];
  new_entity_ids = 8 ∷ [];
  resolved_entity_ids = [];
  chunk_count = 5;
  processed_chunk_count = 4;
  remaining_chunk_count = 1;
  token_count = 0;
}

ingest_source-IsCommitted_example :
    IsCommitted healthy 7
      (plan_batch 5 (next_of after_outage.next_sequence) (pos 4))
      (ingest_source healthy 7 (pos 4) after_outage).1
unfolding purge_source_artifacts plan_batch process_windows persist_prepared ingest_source
    ingest_batch count_where select_where delete_where contains set_add
ingest_source-IsCommitted_example =
    ingest_source-IsCommitted 7 (first_attempt ∷ []) healthy (pos 4) fresh conversation last_result
      refl refl refl (omega arith)

covered-batches_example : covered (batches 20 20 (pos 8) (pos 0)) ≡ sequences 0 20
covered-batches_example = covered-batches 20 20 7 0 (omega arith) (omega arith)

purge_source_artifacts-retried_example :
    purge_source_artifacts false none 7 0
      (purge_source_artifacts false (some vector_outage) 7 0 after_outage.artifacts).1
    ≡ purge_source_artifacts false none 7 0 after_outage.artifacts
unfolding purge_source_artifacts plan_batch process_windows persist_prepared ingest_source
    ingest_batch count_where select_where delete_where contains set_add
purge_source_artifacts-retried_example =
    purge_source_artifacts-retried (some vector_outage) vector_outage 7 0 after_outage.artifacts
      refl

abbrev relation_of : String → String → String → Relation ℕ
relation_of s r o = record {
  subject = s;
  relation = r;
  object = o;
  valid_from = none;
  confidence = 90;
}

abbrev names : Dict String ℕ
names = ("ada", 1) ∷ ("bob", 2) ∷ []

abbrev facts : List (ℕ × Fact ℕ)
facts =
    (
      5,
      record {
        relations = relation_of "ada" "knows" "bob" ∷ relation_of "ada" "is" "ada" ∷ [];
        event_time = none;
      },
    )
    ∷ (
      6,
      record {
        relations = relation_of "ada" "knows" "bob" ∷ relation_of "bob" "knows" "eve" ∷ [];
        event_time = none;
      },
    )
    ∷ []

abbrev tenant : TenantScope
tenant = record { org_id = 1; space_id = 2; user_id = 3 }

create_edges_from_facts_lem_example :
    (new : List (EdgeRow ℕ)) × ((create_edges_from_facts
        (λ name. name)
        tenant
        names
        7
        40
        facts
        []).1
      ≡ [] ++ new)
    × All (IsRowOfFact (λ name. name) tenant names 7 facts) new
    × All (λ e. e.source_entity_id ≢ e.target_entity_id) new
    × EdgesDiffer new
    × AllFactsCovered (λ name. name) tenant names 7 new facts
create_edges_from_facts_lem_example =
    create_edges_from_facts_lem (λ name. name) tenant names 7 40 facts []
