-- ===== src/Pipeline/Once.antt =====
-- However often a source is attempted, each of its chunks is stored at most once.
use hono_crosmos.Base.{
  ℕ, zero, suc, ◌+◌, ◌-◌, ◌==◌, ◌≡◌, ◌≤◌, ◌<◌, ◌⊎◌, inl, inr, refl, sym, ap, ◌∙◌, ◌&&◌, Option,
  none, some, List, [], ◌∷◌, length, length-drop, take-append-drop, ltb, take, drop, either_by,
  if◌then◌else◌, arith,
}
use hono_crosmos.Base.Int.{ℤ, pos_part}
use hono_crosmos.Base.Result.{Result, ok, thrown}
use hono_crosmos.Base.Tables.{count_where, count_where-append}
use hono_crosmos.Ingestion.Run.{Attempt, returned, interrupted, raised}
use hono_crosmos.Pipeline.Artifacts.{Artifacts, Failure, purge_source_artifacts}
use hono_crosmos.Pipeline.Batch.{BatchPlan, plan_batch, sequences}
use hono_crosmos.Pipeline.Windows.{
  Stages, LoadedSource, Checkpointed, Linked, chunk_concurrency, Windowed, throws, through,
  window_at, process_windows,
}
use hono_crosmos.Pipeline.Ingest.{
  ingest_batch, after_purge, after_windows, finish_batch, link_if_any, next_of,
}
use hono_crosmos.Pipeline.Purge.{purge-le, purge-none}
use hono_crosmos.Pipeline.Plan.{plan_batch-le, plan_batch-at}
use hono_crosmos.Pipeline.Counts.{rows, mult, yields, mult-sequences, Grown, window_at-Grown}

mult-split :
    (k n : ℕ) (batch : List ℕ) → mult k batch ≡ mult k (take n batch) + mult k (drop n batch)
mult-split k n batch =
    ap (mult k) (sym (take-append-drop n batch))
    ∙ count_where-append (λ j. j == k) (take n batch) (drop n batch)

module _ (stages : Stages) (source k : ℕ) where
  Grown-then :
      (base : ℕ) (first rest batch : List ℕ) (a : Artifacts) (w : Windowed)
      → rows source k a ≡ base + (if yields (stages.prepare k) then mult k first else 0)
      → mult k batch ≡ mult k first + mult k rest
      → Grown stages source k (rows source k a) rest w
      → Grown stages source k base batch w
  Grown-then base first rest batch a (throws e a') h split later = ground (arith, h, split, later)
  Grown-then base first rest batch a (through ingested a') h split later =
      ground (arith, h, split, later)

  process_windows-Grown :
      (fuel i : ℕ) (ingested batch : List ℕ) (a : Artifacts)
      → length batch ≤ fuel
      → Grown stages source k
          (rows source k a)
          batch
          (process_windows stages source fuel i ingested batch a)
  unfolding process_windows count_where
  process_windows-Grown zero i ingested [] a h = ground arith
  process_windows-Grown zero i ingested (j ∷ batch) a h = absurd (omega arith)
  process_windows-Grown (suc fuel) i ingested [] a h = ground arith
  process_windows-Grown (suc fuel) i ingested (j ∷ batch) a h =
      go (window_at stages source i ingested (take chunk_concurrency (j ∷ batch)) a)
        (window_at-Grown stages source k i ingested (take chunk_concurrency (j ∷ batch)) a)
        (λ ingested' a'.
          process_windows-Grown fuel (suc i) ingested' (drop chunk_concurrency (j ∷ batch)) a'
            (omega (arith, length-drop chunk_concurrency (j ∷ batch))))
    where
      go :
          (w : Windowed)
          → Grown stages source k (rows source k a) (take chunk_concurrency (j ∷ batch)) w
          → ((ingested' : List ℕ) (a' : Artifacts)
              → Grown stages source k (rows source k a') (drop chunk_concurrency (j ∷ batch)) (
                  process_windows stages source fuel
                    (suc i)
                    ingested'
                    (drop chunk_concurrency (j ∷ batch))
                    a'))
          → Grown stages source k (rows source k a) (j ∷ batch) (elim w [
            | throws e a' ↦ throws e a'
            | through ingested' a' ↦
                process_windows stages source fuel
                  (suc i)
                  ingested'
                  (drop chunk_concurrency (j ∷ batch))
                  a'
          ])
      go (throws e a') h later = omega (arith, mult-split k chunk_concurrency (j ∷ batch), h)
      go (through ingested' a') h later =
          Grown-then (rows source k a) (take chunk_concurrency (j ∷ batch))
            (drop chunk_concurrency (j ∷ batch)) (j ∷ batch) a'
            (process_windows stages source fuel (suc i) ingested'
              (drop chunk_concurrency (j ∷ batch)) a')
            h (mult-split k chunk_concurrency (j ∷ batch)) (later ingested' a')

-- Of the chunks before the checkpoint, none is stored twice.
abbrev pub IsOnce : ℕ → Checkpointed → Type 0
IsOnce source c = (k : ℕ) → k < pos_part (next_of c.next_sequence) → rows source k c.artifacts ≤ 1

-- No chunk of the source is stored twice; those of the batch are stored if they yield facts, and
-- those after it are not stored.
abbrev pub IsCommitted : Stages → ℕ → BatchPlan → Checkpointed → Type 0
IsCommitted stages source plan c =
    (k : ℕ)
    → (rows source k c.artifacts ≤ 1)
      × (plan.start ≤ k
          → rows source k c.artifacts
            ≡ (if yields (stages.prepare k) && ltb k plan.end then 1 else 0))

abbrev pub Attempted : Stages → ℕ → BatchPlan → Attempt × Checkpointed → Type 0
Attempted stages source plan (returned r, c) =
    IsOnce source c × (0 < r.processed_chunk_count → IsCommitted stages source plan c)
Attempted stages source plan (interrupted, c) = IsOnce source c
Attempted stages source plan (raised retryable message, c) = IsOnce source c

module _ (stages : Stages) (source : ℕ) (loaded : LoadedSource) (c : Checkpointed)
    (plan : BatchPlan) (once : IsOnce source c) (bounds : plan.start ≤ plan.end)
    (at : plan.start ≡ pos_part (next_of c.next_sequence)) where
  -- The rows after a purge that went through.
  abbrev Purged : Artifacts → Type 0
  Purged a =
      (k : ℕ)
      → (rows source k a ≤ rows source k c.artifacts) × (plan.start ≤ k → rows source k a ≡ 0)

  abbrev batch : List ℕ
  batch = sequences plan.start (plan.end - plan.start)

  -- An attempt that throws leaves the chunks before the checkpoint as they are.
  throws-IsOnce :
      (a a' : Artifacts)
      → Purged a
      → ((k : ℕ) → rows source k a' ≤ rows source k a + mult k batch)
      → IsOnce source (record { artifacts = a'; next_sequence = c.next_sequence })
  throws-IsOnce a a' purged grown = λ k h.
      ground (
        arith,
        once k h,
        purged k,
        grown k,
        mult-sequences k plan.start (plan.end - plan.start),
        at,
      )

  finish_batch-Attempted :
      (a : Artifacts) (ingested : List ℕ) (l : Linked) (fails : Option Failure)
      → Purged a
      → (a' : Artifacts)
      → ((k : ℕ)
          → rows source k a'
            ≡ rows source k a + (if yields (stages.prepare k) then mult k batch else 0))
      → Attempted stages source plan
          (finish_batch source loaded plan ingested l a' c.next_sequence fails)
  finish_batch-Attempted a ingested l (some (retryable, message)) purged a' grown = λ k h.
      ground (
        arith,
        once k h,
        purged k,
        grown k,
        mult-sequences k plan.start (plan.end - plan.start),
        at,
      )
  finish_batch-Attempted a ingested l none purged a' grown =
      (λ k h. all_once k, λ progress k. (all_once k, stored k))
    where
      side : (k : ℕ) → (k < plan.start) ⊎ (plan.start ≤ k)
      side k = omega arith

      all_once : (k : ℕ) → rows source k a' ≤ 1
      all_once k = elim (side k) [
        | inl before ↦ ground (
          arith,
          once k (omega (arith, before, at)),
          purged k,
          grown k,
          mult-sequences k plan.start (plan.end - plan.start),
        )
        | inr after ↦ ground (
          arith,
          (purged k).1 after,
          grown k,
          mult-sequences k plan.start (plan.end - plan.start),
        )
      ]

      stored :
          (k : ℕ)
          → plan.start ≤ k
          → rows source k a' ≡ (if yields (stages.prepare k) && ltb k plan.end then 1 else 0)
      stored k h = ground (
        arith,
        (purged k).1 h,
        grown k,
        mult-sequences k plan.start (plan.end - plan.start),
        bounds,
      )

  after_windows-Attempted :
      (a : Artifacts) (w : Windowed)
      → Purged a
      → ((k : ℕ) → Grown stages source k (rows source k a) batch w)
      → Attempted stages source plan (after_windows stages source loaded plan c.next_sequence w)
  after_windows-Attempted a (through ingested a') purged grown =
      finish_batch-Attempted a ingested (link_if_any stages ingested)
        (link_if_any stages ingested).failure purged a' grown
  after_windows-Attempted a (throws (some (retryable, message)) a') purged grown =
      throws-IsOnce a a' purged grown
  after_windows-Attempted a (throws none a') purged grown = throws-IsOnce a a' purged grown

  after_purge-Attempted :
      (o : Result Failure ℕ × Artifacts)
      → ((k : ℕ) → rows source k o.1 ≤ rows source k c.artifacts)
      → ((count k : ℕ) → o.0 ≡ ok count → plan.start ≤ k → rows source k o.1 ≡ 0)
      → Attempted stages source plan (after_purge stages source loaded plan c.next_sequence o)
  after_purge-Attempted (thrown (retryable, message), a) le empty =
      λ k h. omega (arith, once k h, le k)
  after_purge-Attempted (ok count, a) le empty =
      after_windows-Attempted a (process_windows stages source (length batch) 0 [] batch a)
        (λ k. (le k, λ h. empty count k refl h))
        (λ k. process_windows-Grown stages source k (length batch) 0 [] batch a (omega arith))

module _ (stages : Stages) (source : ℕ) (budget : ℤ) (c : Checkpointed)
    (once : IsOnce source c) where
  abbrev pub Ingested : LoadedSource → Attempt × Checkpointed → Type 0
  Ingested loaded =
      Attempted stages source (plan_batch loaded.chunk_count (next_of c.next_sequence) budget)

  pub ingest_batch-Ingested :
      (loaded : LoadedSource) → Ingested loaded (ingest_batch stages source budget loaded c)
  unfolding ingest_batch
  ingest_batch-Ingested loaded =
      let plan = plan_batch loaded.chunk_count (next_of c.next_sequence) budget in
      either_by (Ingested loaded) (plan.end == plan.start)
        (λ e. (once, λ progress. absurd (omega (arith, progress))))
        (λ e.
          after_purge-Attempted stages source loaded c plan once
            (plan_batch-le loaded.chunk_count (next_of c.next_sequence) budget)
            (plan_batch-at loaded.chunk_count (next_of c.next_sequence) budget e)
            (purge_source_artifacts stages.persists_in_column stages.delete_fails source plan.start
              c.artifacts)
            (λ k.
              purge-le source k c.artifacts stages.persists_in_column stages.delete_fails
                plan.start)
            (λ count k.
              purge-none source k c.artifacts stages.persists_in_column stages.delete_fails
                plan.start count))
