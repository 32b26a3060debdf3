-- ===== src/Pipeline/Windows.antt =====
-- apps/ingestion/src/ingestion/pipeline.ts: the windows of a batch in `ingestSource`. What
-- the language model, the embedder, the vector store and the entity resolution give, or that they
-- fail, are arguments: a chunk is prepared into the facts that it yields, by number. The heartbeat
-- throws where the run finds its job cancelled. Logs, metrics and the dedup hints are left out.
use Prim.Native.String.{◌++◌ as concat_strings}
use hono_crosmos.Base.{
  ℕ, zero, suc, ◌+◌, String, string_eq, Bool, true, false, Option, none, some, List, [], ◌∷◌, ◌++◌,
  map, length, take, drop, if◌then◌else◌,
}
use hono_crosmos.Base.Int.{ℤ}
use hono_crosmos.Base.Decimal.{to_string}
use hono_crosmos.Base.Result.{Result, ok, thrown}
use hono_crosmos.Pipeline.Artifacts.{ChunkRow, ChunkMemory, MemoryEntity, Artifacts, Failure}

abbrev pub max_chunks_per_source : ℕ
max_chunks_per_source = 500

abbrev pub chunk_concurrency : ℕ
chunk_concurrency = 3

-- A loaded source: its content type in lower case, its tokens, and how many chunks it makes.
pub record LoadedSource : Type 0 where
  pub content_type : String
  pub token_count : ℕ
  pub chunk_count : ℕ

-- What entity resolution and the edges write for the memories of a batch, and whether they fail then.
pub record Linked : Type 0 where
  pub memory_entities : List MemoryEntity
  pub edges : List ℕ
  pub new_entity_ids : List ℕ
  pub resolved_entity_ids : List ℕ
  pub failure : Option Failure

-- The outside calls of one attempt; those of a window by its index.
pub record Stages : Type 0 where
  pub loaded : Result Failure LoadedSource
  pub persists_in_column : Bool
  pub delete_fails : Option Failure
  pub is_cancelled_at : ℕ → Bool
  pub prepare : ℕ → Result Failure (List ℕ)
  pub commit_fails : ℕ → Option Failure
  pub upsert_fails : ℕ → Option Failure
  pub link : List ℕ → Linked

-- The rows derived from the sources, with `ingest_next_sequence` of the source at hand.
pub record Checkpointed : Type 0 where
  pub artifacts : Artifacts
  pub next_sequence : Option ℤ

-- The first failure wins; a chunk without facts is filtered out.
abbrev pub prepended :
    ℕ
    → Result Failure (List ℕ)
    → Result Failure (List (ℕ × List ℕ))
    → Result Failure (List (ℕ × List ℕ))
prepended k (thrown e) rest = thrown e
prepended k (ok facts) (thrown e) = thrown e
prepended k (ok []) (ok prepared) = ok prepared
prepended k (ok (f ∷ facts)) (ok prepared) = ok ((k, f ∷ facts) ∷ prepared)

-- `Promise.all` over a window.
abbrev pub prepare_window :
    (ℕ → Result Failure (List ℕ)) → List ℕ → Result Failure (List (ℕ × List ℕ))
prepare_window prepare [] = ok []
prepare_window prepare (k ∷ window) = prepended k (prepare k) (prepare_window prepare window)

abbrev pub too_large : ℕ → ℕ → String
too_large source chunk_count = concat_strings "Source " (
    concat_strings (to_string source) (
      concat_strings " has " (
        concat_strings (to_string chunk_count) (
          concat_strings " chunks, exceeding the per-source limit of " (
            concat_strings (to_string max_chunks_per_source)
              "; split it across multiple sources")))))

-- The memory rows of the facts get the next ids.
abbrev pub memory_ids : ℕ → List ℕ → List ℕ
memory_ids next [] = []
memory_ids next (f ∷ facts) = next ∷ memory_ids (suc next) facts

abbrev pub chunk_row : ℕ → ℕ → ℕ → ChunkRow
chunk_row id source sequence = record { id = id; source_id = source; sequence = sequence }

abbrev pub citations : ℕ → List ℕ → List ChunkMemory
citations chunk memories = map (λ (m : ℕ). record { chunk_id = chunk; memory_id = m }) memories

-- The rows of one prepared chunk.
abbrev pub persist_chunk : ℕ → ℕ → List ℕ → Artifacts → Artifacts
persist_chunk source sequence facts a = record a {
  chunks = a.chunks ++ chunk_row a.next_chunk_id source sequence ∷ [];
  memories = a.memories ++ memory_ids a.next_memory_id facts;
  chunk_memories =
      a.chunk_memories ++ citations a.next_chunk_id (memory_ids a.next_memory_id facts);
  next_chunk_id = suc a.next_chunk_id;
  next_memory_id = a.next_memory_id + length facts;
}

-- The transaction of a window.
unfoldable pub persist_prepared : ℕ → List (ℕ × List ℕ) → Artifacts → Artifacts
persist_prepared source [] a = a
persist_prepared source ((k, facts) ∷ prepared) a =
    persist_prepared source prepared (persist_chunk source k facts a)

abbrev pub facts_of : List (ℕ × List ℕ) → List ℕ
facts_of [] = []
facts_of ((k, facts) ∷ prepared) = facts ++ facts_of prepared

-- A window, or all of them, throws with the rows as they are by then, a failure or else the
-- interruption of the heartbeat; or it goes through with the memories of the batch so far.
pub data Windowed : Type 0 where
  throws : Option Failure → Artifacts → Windowed
  through : List ℕ → Artifacts → Windowed

abbrev pub raise : Failure → Artifacts → Windowed
raise e a = throws (some e) a

-- The vectors of the new memories are written after the transaction.
abbrev pub upsert_vectors : Bool → Option Failure → List ℕ → List ℕ → Artifacts → Windowed
upsert_vectors true fails ingested ids a = through (ingested ++ ids) a
upsert_vectors false (some e) ingested ids a = raise e a
upsert_vectors false none ingested ids a =
    through (ingested ++ ids) (record a { vectors = a.vectors ++ ids })

abbrev pub commit_window :
    Stages → ℕ → ℕ → List ℕ → List (ℕ × List ℕ) → Artifacts → Option Failure → Windowed
commit_window stages source i ingested prepared a (some e) = raise e a
commit_window stages source i ingested prepared a none =
    upsert_vectors stages.persists_in_column (stages.upsert_fails i) ingested
      (memory_ids a.next_memory_id (facts_of prepared)) (persist_prepared source prepared a)

abbrev pub persist_window :
    Stages → ℕ → ℕ → List ℕ → Result Failure (List (ℕ × List ℕ)) → Artifacts → Windowed
persist_window stages source i ingested (thrown e) a = raise e a
persist_window stages source i ingested (ok []) a = through ingested a
persist_window stages source i ingested (ok (p ∷ prepared)) a =
    commit_window stages source i ingested (p ∷ prepared) a (stages.commit_fails i)

abbrev pub window_at : Stages → ℕ → ℕ → List ℕ → List ℕ → Artifacts → Windowed
window_at stages source i ingested window a =
    if stages.is_cancelled_at i
    then throws none a
    else persist_window stages source i ingested (prepare_window stages.prepare window) a

-- The windows of a batch, on fuel for its length: each window takes at least one chunk.
unfoldable pub process_windows : Stages → ℕ → ℕ → ℕ → List ℕ → List ℕ → Artifacts → Windowed
process_windows stages source zero i ingested batch a = through ingested a
process_windows stages source (suc fuel) i ingested [] a = through ingested a
process_windows stages source (suc fuel) i ingested (k ∷ batch) a =
    elim (window_at stages source i ingested (take chunk_concurrency (k ∷ batch)) a) [
      | throws e a' ↦ throws e a'
      | through ingested' a' ↦
          process_windows stages source fuel (suc i) ingested' (drop chunk_concurrency (k ∷ batch))
            a'
    ]
