-- ===== src/Pipeline/Artifacts.antt =====
-- apps/ingestion/src/ingestion/pipeline.ts: what ingestion derives from a source, and its purge. The
-- rows are their ids and references; an edge is the memory that it refers to. Deleting memories
-- cascades to their citations and entity links, deleting chunks to their citations.
use hono_crosmos.Base.{
  ℕ, ◌==◌, String, Bool, true, false, ◌&&◌, Option, none, some, List, [], ◌∷◌, map, length, leb,
  if◌then◌else◌,
}
use hono_crosmos.Base.Tables.{select_where, delete_where}
use hono_crosmos.Base.Result.{Result, ok, thrown}
use hono_crosmos.Visibility.Graph.{contains, set_add}

pub record ChunkRow : Type 0 where
  pub id : ℕ
  pub source_id : ℕ
  pub sequence : ℕ

pub record ChunkMemory : Type 0 where
  pub chunk_id : ℕ
  pub memory_id : ℕ

pub record MemoryEntity : Type 0 where
  pub memory_id : ℕ
  pub entity_id : ℕ

pub record Artifacts : Type 0 where
  pub chunks : List ChunkRow
  pub chunk_memories : List ChunkMemory
  pub memories : List ℕ
  pub memory_entities : List MemoryEntity
  pub edges : List ℕ
  pub vectors : List ℕ
  pub next_chunk_id : ℕ
  pub next_memory_id : ℕ

abbrev pub from_sequence : ℕ → ℕ → ChunkRow → Bool
from_sequence source min c = c.source_id == source && leb min c.sequence

abbrev pub chunk_ids : List ChunkRow → List ℕ
chunk_ids cs = map (λ (c : ChunkRow). c.id) cs

-- `[...new Set(…)]` of the memories that the chunks cite.
abbrev pub cited : List ℕ → List ChunkMemory → List ℕ → List ℕ
cited ids [] seen = seen
cited ids (l ∷ links) seen =
    cited ids links (if contains l.chunk_id ids then set_add l.memory_id seen else seen)

abbrev pub without : List ℕ → List ℕ → List ℕ
without ids xs = delete_where (λ x. contains x ids) xs

-- The delete of edges, and of vectors unless the store keeps them in a column.
abbrev pub drop_edges : List ℕ → Artifacts → Artifacts
drop_edges ids a = record a { edges = without ids a.edges }

abbrev pub drop_vectors : Bool → List ℕ → Artifacts → Artifacts
drop_vectors in_column ids a = if in_column then a else record a { vectors = without ids a.vectors }

abbrev pub drop_memories : List ℕ → Artifacts → Artifacts
drop_memories ids a = record a {
  memories = without ids a.memories;
  chunk_memories = delete_where (λ (l : ChunkMemory). contains l.memory_id ids) a.chunk_memories;
  memory_entities = delete_where (λ (l : MemoryEntity). contains l.memory_id ids) a.memory_entities;
}

abbrev pub drop_chunks : List ℕ → Artifacts → Artifacts
drop_chunks ids a = record a {
  chunks = delete_where (λ (c : ChunkRow). contains c.id ids) a.chunks;
  chunk_memories = delete_where (λ (l : ChunkMemory). contains l.chunk_id ids) a.chunk_memories;
}

-- Whether an error is to be retried, and its message.
abbrev pub Failure : Type 0
Failure = Bool × String

-- The delete of the memories, and then of the chunks; a failure of the vector store, with the rows as
-- they are by then.
abbrev pub purge_cited :
    Bool → Option Failure → List ℕ → List ℕ → Artifacts → Result Failure ℕ × Artifacts
purge_cited in_column fails ids [] a = (ok 0, drop_chunks ids a)
purge_cited in_column none ids (m ∷ memory_ids) a = (
  ok (length (m ∷ memory_ids)),
  drop_chunks ids (
      drop_memories (m ∷ memory_ids)
        (drop_vectors in_column (m ∷ memory_ids) (drop_edges (m ∷ memory_ids) a))),
)
purge_cited true (some e) ids (m ∷ memory_ids) a = (
  ok (length (m ∷ memory_ids)),
  drop_chunks ids (drop_memories (m ∷ memory_ids) (drop_edges (m ∷ memory_ids) a)),
)
purge_cited false (some e) ids (m ∷ memory_ids) a = (thrown e, drop_edges (m ∷ memory_ids) a)

abbrev pub purge_chunks : Bool → Option Failure → List ℕ → Artifacts → Result Failure ℕ × Artifacts
purge_chunks in_column fails [] a = (ok 0, a)
purge_chunks in_column fails (c ∷ ids) a =
    purge_cited in_column fails (c ∷ ids) (cited (c ∷ ids) a.chunk_memories []) a

-- The failure, if there is one, is that of the delete in the vector store.
unfoldable pub purge_source_artifacts :
    Bool → Option Failure → ℕ → ℕ → Artifacts → Result Failure ℕ × Artifacts
purge_source_artifacts in_column fails source min a =
    purge_chunks in_column fails (chunk_ids (select_where (from_sequence source min) a.chunks)) a
