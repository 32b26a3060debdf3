-- ===== src/Pipeline/History.antt =====
-- The attempts at one source over all its runs, and the batches that they work off.
use hono_crosmos.Base.{
  ℕ, zero, suc, ◌+◌, ◌-◌, ◌==◌, ◌≡◌, ◌≤◌, ◌<◌, inl, inr, sym, ap, subst, ◌∙◌, min, false, not, none,
  List, [], ◌∷◌, ◌++◌, append_nil, ltb, either, ltb→lt, if◌then◌else◌, arith, Bool-cases,
}
use hono_crosmos.Base.Int.{ℤ, pos, pos_part}
use hono_crosmos.Base.Result.{Result, ok, thrown}
use hono_crosmos.Ingestion.Run.{IngestResult, Attempt, returned, interrupted, raised}
use hono_crosmos.Pipeline.Artifacts.{Failure}
use hono_crosmos.Pipeline.Batch.{BatchPlan, plan_batch, sequences}
use hono_crosmos.Pipeline.Windows.{Stages, LoadedSource, Checkpointed, max_chunks_per_source}
use hono_crosmos.Pipeline.Ingest.{
  ingest_source, ingest_loaded, ingest_batch, next_of, checkpoint, is_supported,
}
use hono_crosmos.Pipeline.Plan.{plan_batch-remaining}
use hono_crosmos.Pipeline.Once.{IsOnce, IsCommitted, Ingested, ingest_batch-Ingested}

-- The same for whatever the load of the source gives.
abbrev AnyIngested :
    Stages → ℕ → ℤ → Checkpointed → Result Failure LoadedSource → Attempt × Checkpointed → Type 0
AnyIngested stages source budget c (ok loaded) (returned r, c') =
    IsOnce source c'
    × (0 < r.processed_chunk_count
        → IsCommitted stages source (plan_batch loaded.chunk_count (next_of c.next_sequence) budget)
            c')
AnyIngested stages source budget c (ok loaded) (interrupted, c') = IsOnce source c'
AnyIngested stages source budget c (ok loaded) (raised retryable message, c') = IsOnce source c'
AnyIngested stages source budget c (thrown e) (a, c') = IsOnce source c'

module _ (stages : Stages) (source : ℕ) (budget : ℤ) (c : Checkpointed)
    (once : IsOnce source c) where
  any_of :
      (loaded : LoadedSource) (o : Attempt × Checkpointed)
      → Ingested stages source budget c once loaded o
      → AnyIngested stages source budget c (ok loaded) o
  any_of loaded (returned r, c') h = h
  any_of loaded (interrupted, c') h = h
  any_of loaded (raised retryable message, c') h = h

  ingest_loaded-AnyIngested :
      (o : Result Failure LoadedSource)
      → AnyIngested stages source budget c o (ingest_loaded stages source budget c o)
  ingest_loaded-AnyIngested (thrown (retryable, message)) = once
  ingest_loaded-AnyIngested (ok loaded) =
      let P = AnyIngested stages source budget c (ok loaded) in
      either P (not (is_supported loaded.content_type)) once (
        either P (loaded.chunk_count == 0) (once, λ progress. absurd (omega (arith, progress)))
          (either P (ltb max_chunks_per_source loaded.chunk_count) once (
            any_of loaded (ingest_batch stages source budget loaded c)
              (ingest_batch-Ingested stages source budget c once loaded))))

  AnyIngested-IsOnce :
      (o : Result Failure LoadedSource) (a : Attempt × Checkpointed)
      → AnyIngested stages source budget c o a
      → IsOnce source a.1
  AnyIngested-IsOnce (ok loaded) (returned r, c') h = h.0
  AnyIngested-IsOnce (ok loaded) (interrupted, c') h = h
  AnyIngested-IsOnce (ok loaded) (raised retryable message, c') h = h
  AnyIngested-IsOnce (thrown e) (a, c') h = h

  ingest_source-IsOnce : IsOnce source (ingest_source stages source budget c).1
  unfolding ingest_source
  ingest_source-IsOnce =
      AnyIngested-IsOnce stages.loaded (ingest_loaded stages source budget c stages.loaded)
        (ingest_loaded-AnyIngested stages.loaded)

abbrev pub ingest_all : ℕ → List (Stages × ℤ) → Checkpointed → Checkpointed
ingest_all source [] c = c
ingest_all source ((stages, budget) ∷ attempts) c =
    ingest_all source attempts (ingest_source stages source budget c).1

ingest_all-IsOnce :
    (source : ℕ) (attempts : List (Stages × ℤ)) (c : Checkpointed)
    → IsOnce source c
    → IsOnce source (ingest_all source attempts c)
ingest_all-IsOnce source [] c once = once
ingest_all-IsOnce source ((stages, budget) ∷ attempts) c once =
    ingest_all-IsOnce source attempts (ingest_source stages source budget c).1
      (ingest_source-IsOnce stages source budget c once)

abbrev processed_of : Attempt → ℕ
processed_of (returned r) = r.processed_chunk_count
processed_of interrupted = 0
processed_of (raised retryable message) = 0

committed :
    (stages : Stages) (source : ℕ) (budget : ℤ) (c : Checkpointed) (loaded : LoadedSource)
    (r : IngestResult) (o : Attempt × Checkpointed)
    → AnyIngested stages source budget c (ok loaded) o
    → o.0 ≡ returned r
    → 0 < r.processed_chunk_count
    → IsCommitted stages source (plan_batch loaded.chunk_count (next_of c.next_sequence) budget) o.1
committed stages source budget c loaded r (returned r', c') h e progress =
    h.1 (omega (arith, ap processed_of e, progress))
committed stages source budget c loaded r (interrupted, c') h e progress =
    absurd (omega (arith, ap processed_of e, progress))
committed stages source budget c loaded r (raised retryable message, c') h e progress =
    absurd (omega (arith, ap processed_of e, progress))

-- Whatever attempts at a source come before, from rows without a checkpoint, and wherever they throw:
-- when an attempt commits a batch, no chunk of the source is stored twice, each chunk of the batch is
-- stored exactly if it yields facts, and no chunk after the batch is stored.
pub ingest_source-IsCommitted :
    (source : ℕ) (attempts : List (Stages × ℤ)) (stages : Stages) (budget : ℤ) (c : Checkpointed)
    (loaded : LoadedSource) (r : IngestResult)
    → c.next_sequence ≡ none
    → stages.loaded ≡ ok loaded
    → (ingest_source stages source budget (ingest_all source attempts c)).0 ≡ returned r
    → 0 < r.processed_chunk_count
    → IsCommitted stages source
        (plan_batch loaded.chunk_count
          (next_of (ingest_all source attempts c).next_sequence)
          budget)
        (ingest_source stages source budget (ingest_all source attempts c)).1
unfolding ingest_source
ingest_source-IsCommitted source attempts stages budget c loaded r fresh load done progress =
    let before = ingest_all source attempts c in
    let once =
      ingest_all-IsOnce source attempts c
        (λ k h. absurd (omega (arith, subst (λ o. k < pos_part (next_of o)) fresh h))) in
    let any =
      subst
        (λ o. AnyIngested stages source budget before o (ingest_source stages source budget before))
        load (ingest_loaded-AnyIngested stages source budget before once stages.loaded) in
    committed stages source budget before loaded r (ingest_source stages source budget before) any
      done progress

-- The batches that are worked off from a checkpoint, when each is committed, with one budget.
abbrev pub batches : ℕ → ℕ → ℤ → ℤ → List BatchPlan
batches zero chunk_count budget next = []
batches (suc fuel) chunk_count budget next =
    let plan = plan_batch chunk_count next budget in
    let later = batches fuel chunk_count budget (next_of (checkpoint plan)) in
    if ltb 0 plan.remaining then plan ∷ later else plan ∷ []

abbrev pub covered : List BatchPlan → List ℕ
covered [] = []
covered (plan ∷ plans) = sequences plan.start (plan.end - plan.start) ++ covered plans

sequences-split :
    (start m n k l : ℕ)
    → k ≡ m + n
    → l ≡ start + m
    → sequences start k ≡ sequences start m ++ sequences l n
sequences-split start zero n k l e f =
    let all : k ≡ n = omega arith in
    let here : start ≡ l = omega arith in
    ap (λ i. sequences start i) all ∙ ap (λ i. sequences i n) here
sequences-split start (suc m) n zero l e f = absurd (omega arith)
sequences-split start (suc m) n (suc k) l e f =
    ap (λ (xs : List ℕ). start ∷ xs)
      (sequences-split (suc start) m n k l (omega arith) (omega arith))

module _ (n b next : ℕ) (h : next < n) where
  plan_start : (plan_batch n (pos next) (pos (suc b))).start ≡ next
  unfolding plan_batch
  plan_start = omega arith

  plan_end : (plan_batch n (pos next) (pos (suc b))).end ≡ min n (next + suc b)
  unfolding plan_batch
  plan_end = ground arith

-- From a checkpoint before the end, with a budget of at least one chunk, as many batches as there are
-- chunks left are enough: they cover each chunk from the checkpoint to the end once, in order.
pub covered-batches :
    (fuel chunk_count b next : ℕ)
    → next < chunk_count
    → chunk_count - next ≤ fuel
    → covered (batches fuel chunk_count (pos (suc b)) (pos next))
      ≡ sequences next (chunk_count - next)
covered-batches zero chunk_count b next h enough = absurd (omega arith)
covered-batches (suc fuel) chunk_count b next h enough =
    go (plan_batch chunk_count (pos next) (pos (suc b))) (plan_start chunk_count b next h)
      (plan_end chunk_count b next h) (plan_batch-remaining chunk_count (pos next) (pos (suc b)))
      (covered-batches fuel chunk_count b)
  where
    all :
        (plan : BatchPlan)
        → plan.start ≡ next
        → plan.end ≡ min chunk_count (next + suc b)
        → plan.remaining ≡ chunk_count - plan.end
        → ltb 0 plan.remaining ≡ false
        → plan.end - plan.start ≡ chunk_count - next
    all plan s e r last = ground (arith, s, e, r, last)

    go :
        (plan : BatchPlan)
        → plan.start ≡ next
        → plan.end ≡ min chunk_count (next + suc b)
        → plan.remaining ≡ chunk_count - plan.end
        → ((next' : ℕ)
            → next' < chunk_count
            → chunk_count - next' ≤ fuel
            → covered (batches fuel chunk_count (pos (suc b)) (pos next'))
              ≡ sequences next' (chunk_count - next'))
        → covered (
            if ltb 0 plan.remaining
            then plan ∷ batches fuel chunk_count (pos (suc b)) (next_of (checkpoint plan))
            else plan ∷ [])
          ≡ sequences next (chunk_count - next)
    go plan s e r later = elim (Bool-cases (ltb 0 plan.remaining)) [
      | inl more ↦ rw more (
          ap (λ (xs : List ℕ). sequences plan.start (plan.end - plan.start) ++ xs)
            (later plan.end (omega (arith, ltb→lt 0 plan.remaining more, r, e))
              (omega (arith, e, ltb→lt 0 plan.remaining more, r)))
          ∙ sym (
              sequences-split plan.start (plan.end - plan.start) (chunk_count - plan.end)
                (chunk_count - next) plan.end (omega (arith, s, e)) (omega (arith, s, e)))
          ∙ ap (λ i. sequences i (chunk_count - next)) s)
      | inr last ↦ rw last (
          append_nil (sequences plan.start (plan.end - plan.start))
          ∙ ap (λ i. sequences plan.start i) (all plan s e r last)
          ∙ ap (λ i. sequences i (chunk_count - next)) s)
    ]
