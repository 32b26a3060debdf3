-- ===== src/Ingestion/Settled.antt =====
-- The second gate of a run: a source that is settled before a run is left alone by it.
use hono_crosmos.Base.{
  either, ℕ, ◌==◌, ==_iff, ◌≡◌, refl, subst, suc, ◌-◌, inl, inr, Bool, true, false, Option, none,
  some, List, [], ◌∷◌, ◌++◌, arith, Bool-cases, if◌then◌else◌, leb, ltb,
}
use hono_crosmos.Visibility.Graph.{contains, contains-append}
use hono_crosmos.Jobs.Consumer.{ClaimResult, claimed, terminal, not_found, in_flight, claim_job}
use hono_crosmos.Delivery.Consumer.{IngestionJobMessage, IngestionOutcome}
use hono_crosmos.Ingestion.Sources.{
  pending, processing, completed, failed, Source, ExtractionStatus, is_settled, source, status_of,
  get_source_extraction_status,
}
use hono_crosmos.Ingestion.Usage.{is_empty}
use hono_crosmos.Ingestion.Rows.{
  record_ingestion_usage-source, mark_sources_status-source, mark_sources_failed-source,
  mark_unprocessed-source,
}
use hono_crosmos.Ingestion.Run.{
  IngestResult, Attempt, returned, interrupted, raised, Environment, World, Run, StopReason,
  completed_ids, input_tokens, bill, stop_run, begin_source, attempt_source, finish_source,
  fail_source, after_attempts, process_source, gated, interfered, unless_stopped, visit_source,
  should_stop, scope_of, cancel_reason, Flow, leaves, breaks, continues, max_chunks_per_invocation,
}
use hono_crosmos.Ingestion.Process.{
  Walked, left, ended, walk, bills_nothing, bill_if_any, reset, roll_up, conclude, start,
  settled_walk, after_claim, process_ingestion_run,
}

completed_ids-append :
    (xs ys : List IngestResult) → completed_ids (xs ++ ys) ≡ completed_ids xs ++ completed_ids ys
completed_ids-append [] ys = refl
completed_ids-append (x ∷ xs) ys = rw (completed_ids-append xs ys)

contains-snoc :
    (id j : ℕ) (xs : List ℕ)
    → contains id xs ≡ false
    → (j == id) ≡ false
    → contains id (xs ++ j ∷ []) ≡ false
unfolding contains
contains-snoc id j xs h ne = rw (contains-append id xs (j ∷ []), h, ne) refl

module _ (env : Environment) (msg : IngestionJobMessage) (id : ℕ) (row : Source)
    (settled : is_settled row.extraction_status ≡ true) where
  -- The row stands as it was, and this run neither completed nor failed it.
  abbrev pub Kept : Run → Type 0
  Kept r =
      (source id r.world.sources ≡ some row)
      × (contains id (completed_ids r.results) ≡ false)
      × (contains id r.newly_failed_source_ids ≡ false)

  abbrev KeptFlow : Flow → Type 0
  KeptFlow (leaves w chunks) = source id w.sources ≡ some row
  KeptFlow (breaks r) = Kept r
  KeptFlow (continues r) = Kept r

  bill-Kept : (r : Run) → Kept r → source id (bill env msg r).sources ≡ some row
  unfolding bill
  bill-Kept r (h, c, f) =
      let recorded =
        record_ingestion_usage-source env.memories_of (scope_of msg) env.date
          (record {
            tokens = input_tokens r.results;
            completed_source_ids = completed_ids r.results;
            failed_source_ids = r.newly_failed_source_ids;
          })
          r.world.usage r.world.sources id row h c f in
      elim (Bool-cases env.usage_fails) [ inl e ↦ rw e h | inr e ↦ rw e recorded ]

  bill_unless-Kept :
      (b : Bool) (r : Run)
      → Kept r
      → source id (if b then r.world else bill env msg r).sources ≡ some row
  bill_unless-Kept true r k = k.0
  bill_unless-Kept false r k = bill-Kept r k

  stop_run-Kept :
      (remaining : List ℕ) (r : Run)
      → Kept r
      → source id (stop_run env msg remaining r).sources ≡ some row
  unfolding stop_run
  stop_run-Kept remaining r k =
      let billed = bill_unless-Kept (is_empty r.results) r k in
      let marked =
        mark_unprocessed-source (scope_of msg) id row
          (if is_empty r.results then r.world else bill env msg r).sources env.now remaining
          cancel_reason billed settled in
      either (λ (w : World). source id w.sources ≡ some row) env.cancel_mark_fails billed marked

  begin_source-Kept :
      (i j : ℕ) (r : Run) → (j == id) ≡ false → Kept r → Kept (begin_source env msg i j r)
  unfolding begin_source
  begin_source-Kept i j r ne (h, c, f) = (
    mark_sources_status-source (scope_of msg) id row r.world.sources env.now j processing h ne,
    c,
    f,
  )

  after_attempts-Kept :
      (j : ℕ) (r : Run) (a : Attempt)
      → (j == id) ≡ false
      → Kept r
      → KeptFlow (after_attempts env msg j r a)
  unfolding finish_source fail_source
  after_attempts-Kept j r (returned result) ne (h, c, f) =
      elim (Bool-cases (ltb 0 result.remaining_chunk_count)) [
        | inl e ↦ rw e (h, c, f)
        | inr e ↦ rw e (
          mark_sources_status-source (scope_of msg) id row r.world.sources env.now j completed h ne,
          rw (completed_ids-append r.results (record result { source_id = j } ∷ []))
              (contains-snoc id j (completed_ids r.results) c ne),
          f,
        )
      ]
  after_attempts-Kept j r interrupted ne k = k
  after_attempts-Kept j r (raised true message) ne k = k
  after_attempts-Kept j r (raised false message) ne (h, c, f) = (
    mark_sources_failed-source (scope_of msg) id row r.world.sources env.now j message h ne,
    c,
    contains-snoc id j r.newly_failed_source_ids f ne,
  )

  process_source-Kept :
      (i j : ℕ) (r : Run) → (j == id) ≡ false → Kept r → KeptFlow (process_source env msg i j r)
  unfolding process_source
  process_source-Kept i j r ne k =
      after_attempts-Kept j (begin_source env msg i j r)
        (attempt_source env j (max_chunks_per_invocation - r.chunks_processed)) ne
        (begin_source-Kept i j r ne k)

  -- An open source is another one.
  other :
      (j : ℕ) (t : List Source) (status : ExtractionStatus)
      → source id t ≡ some row
      → get_source_extraction_status j t ≡ some status
      → is_settled status ≡ false
      → (j == id) ≡ false
  unfolding get_source_extraction_status
  other j t status h e closed = elim (Bool-cases (j == id)) [
    | inr ne ↦ ne
    | inl same ↦
        let here = subst (λ k. status_of (source k t) ≡ some status) ((==_iff j id).0 same) e in
        let is = subst (λ o. status_of o ≡ some status) h here in
        ground (arith, is, settled, closed)
  ]

  gated-Kept :
      (i j : ℕ) (r : Run) (o : Option ExtractionStatus)
      → get_source_extraction_status j r.world.sources ≡ o
      → Kept r
      → KeptFlow (gated env msg i j r o)
  gated-Kept i j r (some pending) e k =
      process_source-Kept i j r (other j r.world.sources pending k.0 e refl) k
  gated-Kept i j r (some processing) e k =
      process_source-Kept i j r (other j r.world.sources processing k.0 e refl) k
  gated-Kept i j r (some failed) e k = k
  gated-Kept i j r (some completed) e k = k
  gated-Kept i j r none e k = k

  unless_stopped-Kept :
      (i j : ℕ) (rest : List ℕ) (r : Run) (o : Option StopReason)
      → Kept r
      → KeptFlow (unless_stopped env msg i j rest r o)
  unless_stopped-Kept i j rest r (some reason) k = stop_run-Kept (j ∷ rest) r k
  unless_stopped-Kept i j rest r none k =
      elim (Bool-cases (leb max_chunks_per_invocation r.chunks_processed)) [
        | inl e ↦ rw e k
        | inr e ↦ rw e (gated-Kept i j r (get_source_extraction_status j r.world.sources) refl k)
      ]

  visit_source-Kept :
      (i j : ℕ) (rest : List ℕ) (r : Run) → Kept r → KeptFlow (visit_source env msg i j rest r)
  unfolding visit_source
  visit_source-Kept i j rest r k =
      unless_stopped-Kept i j rest (interfered env i r)
        (should_stop env msg i (interfered env i r).world.jobs) k

  abbrev KeptWalk : Walked → Type 0
  KeptWalk (left w chunks) = source id w.sources ≡ some row
  KeptWalk (ended r) = Kept r

  walk-Kept : (i : ℕ) (ids : List ℕ) (r : Run) → Kept r → KeptWalk (walk env msg i ids r)
  unfolding walk
  walk-Kept i [] r k = k
  walk-Kept i (j ∷ rest) r k =
      go (visit_source env msg i j rest r) (visit_source-Kept i j rest r k)
        (λ r'. walk-Kept (suc i) rest r')
    where
      go :
          (flow : Flow)
          → KeptFlow flow
          → ((r' : Run) → Kept r' → KeptWalk (walk env msg (suc i) rest r'))
          → KeptWalk (elim flow [
            | leaves w chunks ↦ left w chunks
            | breaks r' ↦ ended r'
            | continues r' ↦ walk env msg (suc i) rest r'
          ])
      go (leaves w chunks) h onward = h
      go (breaks r') h onward = h
      go (continues r') h onward = onward r' h

  conclude-Kept : (r : Run) → Kept r → source id (conclude env msg r).0.sources ≡ some row
  unfolding conclude reset roll_up bill_if_any
  conclude-Kept r k =
      let billed = bill_unless-Kept (bills_nothing r) r k in
      let P = λ (o : World × (IngestionOutcome × ℕ)). source id o.0.sources ≡ some row in
      either P (is_empty r.transient_failed_ids) (either P r.budget_hit billed billed) k.0

  after_claim-Kept :
      (w : World) (claim : ClaimResult)
      → source id w.sources ≡ some row
      → source id (after_claim env msg w claim).0.sources ≡ some row
  unfolding contains
  after_claim-Kept w claimed h =
      go (walk env msg 0 msg.source_ids (start w))
        (walk-Kept 0 msg.source_ids (start w) (h, refl, refl))
    where
      go : (end : Walked) → KeptWalk end → source id (settled_walk env msg end).0.sources ≡ some row
      go (left w chunks) h = h
      go (ended r) k = conclude-Kept r k
  after_claim-Kept w terminal h = h
  after_claim-Kept w not_found h = h
  after_claim-Kept w in_flight h = h

-- A source that is `completed` or `failed` before a run of any job is the same row after it, its
-- billing marks included, whatever the run's attempts give and the other workers do to the job.
pub process_ingestion_run-settled :
    (lease : ℕ) (env : Environment) (msg : IngestionJobMessage) (w : World) (id : ℕ) (row : Source)
    → source id w.sources ≡ some row
    → is_settled row.extraction_status ≡ true
    → source id (process_ingestion_run lease env msg w).0.sources ≡ some row
unfolding process_ingestion_run
process_ingestion_run-settled lease env msg w id row h settled =
    let claim = claim_job msg.job_id lease env.now w.jobs in
    after_claim-Kept env msg id row settled (record w { jobs = claim.1 }) claim.0 h
