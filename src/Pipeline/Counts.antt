-- ===== src/Pipeline/Counts.antt =====
-- How many rows of each chunk the windows of a batch write.
use hono_crosmos.Base.{
  ℕ, zero, suc, ◌+◌, ◌==◌, ==_iff, ◌≡◌, ◌≤◌, inl, inr, refl, ap, subst, ◌∙◌, Bool, true, false,
  ◌&&◌, Option, none, some, List, [], ◌∷◌, map, ltb, leb, either, if◌then◌else◌, arith, Bool-cases,
}
use hono_crosmos.Base.Result.{Result, ok, thrown}
use hono_crosmos.Base.Tables.{count_where, count_where-append}
use hono_crosmos.Pipeline.Artifacts.{ChunkRow, Artifacts, Failure}
use hono_crosmos.Pipeline.Batch.{sequences}
use hono_crosmos.Pipeline.Windows.{
  Stages, prepended, prepare_window, raise, memory_ids, facts_of, persist_prepared, persist_chunk,
  Windowed, throws, through, upsert_vectors, commit_window, persist_window, window_at,
}

abbrev pub is_chunk : ℕ → ℕ → ChunkRow → Bool
is_chunk source k c = c.source_id == source && c.sequence == k

-- The rows of chunk `k` of a source.
abbrev pub rows : ℕ → ℕ → Artifacts → ℕ
rows source k a = count_where (is_chunk source k) a.chunks

abbrev pub mult : ℕ → List ℕ → ℕ
mult k xs = count_where (λ j. j == k) xs

abbrev keys : List (ℕ × List ℕ) → List ℕ
keys prepared = map (λ (p : ℕ × List ℕ). p.0) prepared

-- The chunk yields facts.
abbrev pub yields : Result Failure (List ℕ) → Bool
yields (thrown e) = false
yields (ok []) = false
yields (ok (f ∷ facts)) = true

pub mult-sequences :
    (k start count : ℕ)
    → mult k (sequences start count) ≡ (if leb start k && ltb k (start + count) then 1 else 0)
unfolding count_where
mult-sequences k start zero = ground arith
mult-sequences k start (suc count) = ground (arith, mult-sequences k (suc start) count)

persist_prepared-rows :
    (source k : ℕ) (prepared : List (ℕ × List ℕ)) (a : Artifacts)
    → rows source k (persist_prepared source prepared a) ≡ rows source k a + mult k (keys prepared)
unfolding persist_prepared count_where
persist_prepared-rows source k [] a = omega arith
persist_prepared-rows source k ((j, facts) ∷ prepared) a = ground (
  arith,
  persist_prepared-rows source k prepared (persist_chunk source j facts a),
  count_where-append (is_chunk source k) a.chunks
      (record { id = a.next_chunk_id; source_id = source; sequence = j } ∷ []),
  ==_iff source source,
)

abbrev or_none : Result Failure (List (ℕ × List ℕ)) → List (ℕ × List ℕ)
or_none (thrown e) = []
or_none (ok prepared) = prepared

prepended-keys :
    (k j : ℕ) (p : Result Failure (List ℕ)) (rest : Result Failure (List (ℕ × List ℕ)))
    (prepared : List (ℕ × List ℕ))
    → prepended j p rest ≡ ok prepared
    → (rest ≡ ok (or_none rest))
      × (mult k (keys prepared)
          ≡ (if yields p && j == k then 1 else 0) + mult k (keys (or_none rest)))
unfolding count_where
prepended-keys k j (thrown x) rest prepared e = absurd (ground (arith, e))
prepended-keys k j (ok facts) (thrown x) prepared e = absurd (ground (arith, e))
prepended-keys k j (ok []) (ok others) prepared e = (refl, rw⁻¹ (ap or_none e) (omega arith))
prepended-keys k j (ok (f ∷ facts)) (ok others) prepared e =
    (refl, rw⁻¹ (ap or_none e) (ground arith))

prepare_window-keys :
    (prepare : ℕ → Result Failure (List ℕ)) (k : ℕ) (window : List ℕ) (prepared : List (ℕ × List ℕ))
    → prepare_window prepare window ≡ ok prepared
    → mult k (keys prepared) ≡ (if yields (prepare k) then mult k window else 0)
unfolding count_where
prepare_window-keys prepare k [] prepared e = rw⁻¹ (ap or_none e) (ground arith)
prepare_window-keys prepare k (j ∷ window) prepared e =
    let (rest, split) = prepended-keys k j (prepare j) (prepare_window prepare window) prepared e in
    let later =
      prepare_window-keys prepare k window (or_none (prepare_window prepare window)) rest in
    elim (Bool-cases (j == k)) [
      | inl same ↦
          let at =
            subst (λ i. yields (prepare j) ≡ yields (prepare i)) ((==_iff j k).0 same) refl in
          ground (arith, split, later, at)
      | inr ne ↦ ground (arith, split, later)
    ]

module _ (stages : Stages) (source k : ℕ) where
  -- What a window, or a batch, does to the rows of chunk `k`, which were `base` before.
  abbrev pub Grown : ℕ → List ℕ → Windowed → Type 0
  Grown base batch (throws e a) = rows source k a ≤ base + mult k batch
  Grown base batch (through ingested a) =
      rows source k a ≡ base + (if yields (stages.prepare k) then mult k batch else 0)

  raise-Grown :
      (base : ℕ) (batch : List ℕ) (e : Failure) (a : Artifacts)
      → rows source k a ≤ base + mult k batch
      → Grown base batch (raise e a)
  raise-Grown base batch (retryable, message) a h = h

  upsert_vectors-Grown :
      (base : ℕ) (batch ingested ids : List ℕ) (in_column : Bool) (fails : Option Failure)
      (a : Artifacts)
      → rows source k a ≡ base + (if yields (stages.prepare k) then mult k batch else 0)
      → Grown base batch (upsert_vectors in_column fails ingested ids a)
  upsert_vectors-Grown base batch ingested ids true fails a h = h
  upsert_vectors-Grown base batch ingested ids false (some e) a h =
      raise-Grown base batch e a (ground (arith, h))
  upsert_vectors-Grown base batch ingested ids false none a h = h

  commit_window-Grown :
      (i : ℕ) (window ingested : List ℕ) (prepared : List (ℕ × List ℕ)) (a : Artifacts)
      (fails : Option Failure)
      → prepare_window stages.prepare window ≡ ok prepared
      → Grown (rows source k a) window (commit_window stages source i ingested prepared a fails)
  commit_window-Grown i window ingested prepared a (some e) h =
      raise-Grown (rows source k a) window e a (omega arith)
  commit_window-Grown i window ingested prepared a none h =
      upsert_vectors-Grown (rows source k a) window ingested
        (memory_ids a.next_memory_id (facts_of prepared)) stages.persists_in_column
        (stages.upsert_fails i) (persist_prepared source prepared a)
        (persist_prepared-rows source k prepared a
          ∙ ap (λ n. rows source k a + n) (prepare_window-keys stages.prepare k window prepared h))

  persist_window-Grown :
      (i : ℕ) (window ingested : List ℕ) (o : Result Failure (List (ℕ × List ℕ))) (a : Artifacts)
      → prepare_window stages.prepare window ≡ o
      → Grown (rows source k a) window (persist_window stages source i ingested o a)
  unfolding count_where
  persist_window-Grown i window ingested (thrown e) a h =
      raise-Grown (rows source k a) window e a (omega arith)
  persist_window-Grown i window ingested (ok []) a h =
      let none_of = prepare_window-keys stages.prepare k window [] h in omega (arith, none_of)
  persist_window-Grown i window ingested (ok (p ∷ prepared)) a h =
      commit_window-Grown i window ingested (p ∷ prepared) a (stages.commit_fails i) h

  pub window_at-Grown :
      (i : ℕ) (ingested window : List ℕ) (a : Artifacts)
      → Grown (rows source k a) window (window_at stages source i ingested window a)
  window_at-Grown i ingested window a =
      either (Grown (rows source k a) window) (stages.is_cancelled_at i) (omega arith)
        (persist_window-Grown i window ingested (prepare_window stages.prepare window) a refl)
