-- ===== src/Pipeline/Retry.antt =====
-- A purge that the vector store made fail, and its retry.
use hono_crosmos.Base.{
  ℕ, ◌≡◌, refl, ap, false, Option, none, some, List, [], ◌∷◌, length, ◌∙◌, arith, Bool-cases,
}
use hono_crosmos.Base.Tables.{select_where, delete_where}
use hono_crosmos.Base.Result.{ok, thrown}
use hono_crosmos.Pipeline.Artifacts.{
  ChunkRow, Artifacts, Failure, from_sequence, chunk_ids, cited, drop_chunks, drop_memories,
  drop_vectors, drop_edges, without, purge_cited, purge_chunks, purge_source_artifacts,
}
use hono_crosmos.Visibility.Graph.{contains}

without-without : (ids xs : List ℕ) → without ids (without ids xs) ≡ without ids xs
unfolding delete_where
without-without ids [] = refl
without-without ids (x ∷ xs) = ground (arith, without-without ids xs, Bool-cases (contains x ids))

without_none : (xs : List ℕ) → without [] xs ≡ xs
unfolding delete_where contains
without_none [] = refl
without_none (x ∷ xs) = ap (λ (ys : List ℕ). x ∷ ys) (without_none xs)

edges_again :
    (ids ms : List ℕ) (a : Artifacts)
    → purge_cited false none ids ms (drop_edges ms a) ≡ purge_cited false none ids ms a
edges_again ids [] a =
    ap (λ (es : List ℕ). purge_cited false none ids [] (record a { edges = es }))
      (without_none a.edges)
edges_again ids (m ∷ ms) a =
    ap
      (λ (es : List ℕ). (
        ok (length (m ∷ ms)),
        drop_chunks ids
            (drop_memories (m ∷ ms) (drop_vectors false (m ∷ ms) (record a { edges = es }))),
      ))
      (without-without (m ∷ ms) a.edges)

thrown_edges :
    (fails : Option Failure) (e : Failure) (ids ms : List ℕ) (a : Artifacts)
    → (purge_cited false fails ids ms a).0 ≡ thrown e
    → (purge_cited false fails ids ms a).1 ≡ drop_edges ms a
thrown_edges fails e ids [] a h = absurd (ground (arith, h))
thrown_edges none e ids (m ∷ ms) a h = absurd (ground (arith, h))
thrown_edges (some x) e ids (m ∷ ms) a h = refl

purge_chunks-retried :
    (fails : Option Failure) (e : Failure) (ids : List ℕ) (a : Artifacts)
    → (purge_chunks false fails ids a).0 ≡ thrown e
    → ((purge_chunks false fails ids a).1.chunks ≡ a.chunks)
      × (purge_chunks false none ids (purge_chunks false fails ids a).1
          ≡ purge_chunks false none ids a)
purge_chunks-retried fails e [] a h = (refl, refl)
purge_chunks-retried fails e (c ∷ ids) a h =
    let ms = cited (c ∷ ids) a.chunk_memories [] in
    let only = thrown_edges fails e (c ∷ ids) ms a h in
    (
      ap (λ (b : Artifacts). b.chunks) only,
      ap (λ (b : Artifacts). purge_chunks false none (c ∷ ids) b) only ∙ edges_again (c ∷ ids) ms a,
    )

-- When the vector store fails a purge, the purge throws with the chunks and their citations in place,
-- and a purge after it does all that it would have done at once.
pub purge_source_artifacts-retried :
    (fails : Option Failure) (e : Failure) (source min : ℕ) (a : Artifacts)
    → (purge_source_artifacts false fails source min a).0 ≡ thrown e
    → purge_source_artifacts false none source min
        (purge_source_artifacts false fails source min a).1
      ≡ purge_source_artifacts false none source min a
unfolding purge_source_artifacts
purge_source_artifacts-retried fails e source min a h =
    let ids = chunk_ids (select_where (from_sequence source min) a.chunks) in
    let (chunks, again) = purge_chunks-retried fails e ids a h in
    ap
      (λ (cs : List ChunkRow).
        purge_chunks false none (chunk_ids (select_where (from_sequence source min) cs))
          (purge_chunks false fails ids a).1)
      chunks
    ∙ again
