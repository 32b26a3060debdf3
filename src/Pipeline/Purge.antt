-- ===== src/Pipeline/Purge.antt =====
-- What the purge leaves of the chunks of a source.
use hono_crosmos.Base.{
  ℕ, ==_iff, ◌≡◌, ◌≤◌, refl, ap, ◌∙◌, min, Bool, true, false, Option, none, some, List, [], ◌∷◌,
  if◌then◌else◌, arith, Bool-cases,
}
use hono_crosmos.Base.Result.{ok}
use hono_crosmos.Base.Tables.{All, map-All, count_where, select_where, delete_where}
use hono_crosmos.Visibility.Graph.{contains}
use hono_crosmos.Pipeline.Artifacts.{
  ChunkRow, Artifacts, Failure, from_sequence, chunk_ids, cited, drop_chunks, purge_cited,
  purge_chunks, purge_source_artifacts,
}
use hono_crosmos.Pipeline.Counts.{is_chunk, rows}

delete_where-le :
    (p q : ChunkRow → Bool) (t : List ChunkRow) → count_where p (delete_where q t) ≤ count_where p t
unfolding count_where delete_where
delete_where-le p q [] = omega arith
delete_where-le p q (c ∷ t) = ground (arith, delete_where-le p q t, Bool-cases (q c))

delete_where-nothing : (t : List ChunkRow) → t ≡ delete_where (λ c. false) t
unfolding delete_where
delete_where-nothing [] = refl
delete_where-nothing (c ∷ t) = ap (λ (rest : List ChunkRow). c ∷ rest) (delete_where-nothing t)

delete_where-none :
    (p q : ChunkRow → Bool) (t : List ChunkRow)
    → All (λ c. p c ≡ true → q c ≡ true) t
    → count_where p (delete_where q t) ≡ 0
unfolding count_where delete_where
delete_where-none p q [] h = refl
delete_where-none p q (c ∷ t) (here, h) =
    ground (arith, delete_where-none p q t h, Bool-cases (q c), Bool-cases (p c), here)

selected-ids :
    (p : ChunkRow → Bool) (t : List ChunkRow)
    → All (λ c. p c ≡ true → contains c.id (chunk_ids (select_where p t)) ≡ true) t
unfolding select_where contains
selected-ids p [] = tt
selected-ids p (c ∷ t) = (
  λ e. rw e (ground (arith, ==_iff c.id c.id)),
  map-All (λ x. p x ≡ true → contains x.id (chunk_ids (select_where p t)) ≡ true)
      (λ x.
        p x ≡ true
        → contains x.id (chunk_ids (if p c then c ∷ select_where p t else select_where p t)) ≡ true)
      t (λ x h e. ground (arith, h e, Bool-cases (p c))) (selected-ids p t),
)

-- The purge adds no row of any chunk, and one that does not fail leaves none from `min` on.
module _ (source k : ℕ) (a : Artifacts) where
  drop_chunks-le : (ids : List ℕ) → rows source k (drop_chunks ids a) ≤ rows source k a
  drop_chunks-le ids = delete_where-le (is_chunk source k) (λ c. contains c.id ids) a.chunks

  purge_cited-le :
      (in_column : Bool) (fails : Option Failure) (ids memories : List ℕ)
      → rows source k (purge_cited in_column fails ids memories a).1 ≤ rows source k a
  purge_cited-le in_column fails ids [] = drop_chunks-le ids
  purge_cited-le true none ids (m ∷ memories) = drop_chunks-le ids
  purge_cited-le false none ids (m ∷ memories) = drop_chunks-le ids
  purge_cited-le true (some e) ids (m ∷ memories) = drop_chunks-le ids
  purge_cited-le false (some e) ids (m ∷ memories) = omega arith

  purge_cited-chunks :
      (in_column : Bool) (fails : Option Failure) (ids memories : List ℕ) (count : ℕ)
      → (purge_cited in_column fails ids memories a).0 ≡ ok count
      → (purge_cited in_column fails ids memories a).1.chunks ≡ (drop_chunks ids a).chunks
  purge_cited-chunks in_column fails ids [] count e = refl
  purge_cited-chunks true none ids (m ∷ memories) count e = refl
  purge_cited-chunks false none ids (m ∷ memories) count e = refl
  purge_cited-chunks true (some x) ids (m ∷ memories) count e = refl
  purge_cited-chunks false (some x) ids (m ∷ memories) count e = absurd (ground (arith, e))

  purge_chunks-chunks :
      (in_column : Bool) (fails : Option Failure) (ids : List ℕ) (count : ℕ)
      → (purge_chunks in_column fails ids a).0 ≡ ok count
      → (purge_chunks in_column fails ids a).1.chunks
        ≡ delete_where (λ c. contains c.id ids) a.chunks
  unfolding contains
  purge_chunks-chunks in_column fails [] count e = delete_where-nothing a.chunks
  purge_chunks-chunks in_column fails (c ∷ ids) count e =
      purge_cited-chunks in_column fails (c ∷ ids) (cited (c ∷ ids) a.chunk_memories []) count e

  pub purge-le :
      (in_column : Bool) (fails : Option Failure) (min : ℕ)
      → rows source k (purge_source_artifacts in_column fails source min a).1 ≤ rows source k a
  unfolding purge_source_artifacts
  purge-le in_column fails min = go (chunk_ids (select_where (from_sequence source min) a.chunks))
    where
      go : (ids : List ℕ) → rows source k (purge_chunks in_column fails ids a).1 ≤ rows source k a
      go [] = omega arith
      go (c ∷ ids) = purge_cited-le in_column fails (c ∷ ids) (cited (c ∷ ids) a.chunk_memories [])

  pub purge-none :
      (in_column : Bool) (fails : Option Failure) (min count : ℕ)
      → (purge_source_artifacts in_column fails source min a).0 ≡ ok count
      → min ≤ k
      → rows source k (purge_source_artifacts in_column fails source min a).1 ≡ 0
  unfolding purge_source_artifacts
  purge-none in_column fails min count e h =
      let ids = chunk_ids (select_where (from_sequence source min) a.chunks) in
      ap (λ t. count_where (is_chunk source k) t) (purge_chunks-chunks in_column fails ids count e)
      ∙ delete_where-none (is_chunk source k) (λ c. contains c.id ids) a.chunks
          (map-All (λ c. from_sequence source min c ≡ true → contains c.id ids ≡ true)
            (λ c. is_chunk source k c ≡ true → contains c.id ids ≡ true) a.chunks
            (λ c f q. f (ground (arith, q, h))) (selected-ids (from_sequence source min) a.chunks))
