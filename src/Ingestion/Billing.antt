-- ===== src/Ingestion/Billing.antt =====
-- The books of a run, and of a sequence of runs: the daily tokens and the recorded completions.
use hono_crosmos.Base.{
  ℕ, ◌+◌, ◌-◌, suc, ◌≡◌, refl, subst, sym, ap, ◌∙◌, String, Bool, true, false, either, Option, none,
  some, List, [], ◌∷◌, arith, if◌then◌else◌, leb, ltb,
}
use hono_crosmos.Visibility.Graph.{contains}
use hono_crosmos.Base.Tables.{select_where, update_where}
use hono_crosmos.Jobs.Consumer.{ClaimResult, claimed, terminal, not_found, in_flight, claim_job}
use hono_crosmos.Delivery.Consumer.{IngestionJobMessage, IngestionOutcome, retry_transient}
use hono_crosmos.Ingestion.Sources.{
  pending, processing, completed, failed, Source, TenantScope, ExtractionStatus, targets,
  status_set, failed_row, cancelled_source, unprocessed, mark_sources_status, mark_sources_failed,
  mark_unprocessed_sources_cancelled, get_source_extraction_status,
}
use hono_crosmos.Ingestion.Usage.{
  Usage, UsageInput, is_empty, source_ids_of, completes, fails, completion_recorded,
  failure_recorded, mark_recorded, record_ingestion_usage,
}
use hono_crosmos.Ingestion.Accounts.{
  if_recorded, total_tokens, billed_tokens, NoRepeat, billed_tokens-update_where, ids-update_where,
  record_ingestion_usage-total_tokens,
}
use hono_crosmos.Ingestion.Run.{
  IngestResult, Attempt, returned, interrupted, raised, Environment, World, Run, StopReason,
  completed_ids, input_tokens, bill, stop_run, begin_source, attempt_source, finish_source,
  fail_source, after_attempts, process_source, gated, interfered, unless_stopped, visit_source,
  should_stop, scope_of, cancel_reason, Flow, leaves, breaks, continues, max_chunks_per_invocation,
}
use hono_crosmos.Ingestion.Process.{
  Walked, left, ended, walk, bills_nothing, bill_if_any, reset, roll_up, conclude, start,
  settled_walk, after_claim, process_ingestion_run,
}

record_ingestion_usage-ids :
    (memories : List ℕ → ℕ) (scope : TenantScope) (date : String) (input : UsageInput)
    (usage : Usage) (t : List Source)
    → source_ids_of (record_ingestion_usage memories scope date input (usage, t)).1
      ≡ source_ids_of t
unfolding record_ingestion_usage
record_ingestion_usage-ids memories scope date input usage t =
    let completed = select_where (completes scope input.completed_source_ids) t in
    let failed = select_where (fails scope input.failed_source_ids) t in
    let first =
      ids-update_where (λ s. contains s.id (source_ids_of completed)) completion_recorded t
        (λ s. refl) in
    let second =
      ids-update_where (λ s. contains s.id (source_ids_of failed)) failure_recorded
        (mark_recorded completion_recorded completed t) (λ s. refl) in
    ground (arith, first, second)

no_results :
    (results : List IngestResult)
    → is_empty (completed_ids results) ≡ true
    → input_tokens results ≡ 0
no_results [] h = refl
no_results (r ∷ results) h = ground arith

module _ (env : Environment) (msg : IngestionJobMessage) (u : Usage) (t : List Source)
    (d : NoRepeat (source_ids_of t)) where
  -- Nothing is billed yet.
  abbrev Steady : World → Type 0
  Steady w =
      (w.usage ≡ u)
      × (billed_tokens w.sources ≡ billed_tokens t)
      × (source_ids_of w.sources ≡ source_ids_of t)

  -- The days count more by what is recorded more.
  abbrev pub Balanced : World → Type 0
  Balanced w =
      (total_tokens w.usage.daily + billed_tokens t
        ≡ total_tokens u.daily + billed_tokens w.sources)
      × (source_ids_of w.sources ≡ source_ids_of t)

  abbrev SteadyFlow : Flow → Type 0
  SteadyFlow (leaves w chunks) = Balanced w
  SteadyFlow (breaks r) = Steady r.world
  SteadyFlow (continues r) = Steady r.world

  Steady-Balanced : (r : Run) → Steady r.world → Balanced r.world
  Steady-Balanced r (e, b, i) = (rw e (omega arith), i)

  bill-Balanced : (r : Run) → Steady r.world → Balanced (bill env msg r)
  unfolding bill
  bill-Balanced r (e, b, i) = either Balanced env.usage_fails (Steady-Balanced r (e, b, i)) (
      (
        omega (
          arith,
          record_ingestion_usage-total_tokens env.memories_of (scope_of msg) env.date input
              r.world.usage r.world.sources (subst NoRepeat (sym i) d) (no_results r.results),
          ap (λ (v : Usage). total_tokens v.daily) e,
          b,
        ),
        record_ingestion_usage-ids env.memories_of (scope_of msg) env.date input r.world.usage
              r.world.sources
            ∙ i,
      ))
    where
      input : UsageInput
      input = record {
        tokens = input_tokens r.results;
        completed_source_ids = completed_ids r.results;
        failed_source_ids = r.newly_failed_source_ids;
      }

  bill_unless-Balanced :
      (b : Bool) (r : Run) → Steady r.world → Balanced (if b then r.world else bill env msg r)
  bill_unless-Balanced b r s = either Balanced b (Steady-Balanced r s) (bill-Balanced r s)

  -- An update that keeps ids, tokens and records of completion.
  update-Balanced :
      (p : Source → Bool) (f : Source → Source) (w : World)
      → ((s : Source) → if_recorded (f s) ≡ if_recorded s)
      → ((s : Source) → (f s).id ≡ s.id)
      → Balanced w
      → Balanced (record w { sources = update_where p f w.sources })
  update-Balanced p f w same keeps (e, i) = (
    omega (arith, billed_tokens-update_where p f w.sources same, e),
    ids-update_where p f w.sources keeps ∙ i,
  )

  update-Steady :
      (p : Source → Bool) (f : Source → Source) (w w' : World)
      → ((s : Source) → if_recorded (f s) ≡ if_recorded s)
      → ((s : Source) → (f s).id ≡ s.id)
      → w'.usage ≡ w.usage
      → w'.sources ≡ update_where p f w.sources
      → Steady w
      → Steady w'
  update-Steady p f w w' same keeps usage sources (e, b, i) = (
    usage ∙ e,
    ap billed_tokens sources ∙ billed_tokens-update_where p f w.sources same ∙ b,
    ap source_ids_of sources ∙ ids-update_where p f w.sources keeps ∙ i,
  )

  stop_run-Balanced :
      (remaining : List ℕ) (r : Run) → Steady r.world → Balanced (stop_run env msg remaining r)
  unfolding stop_run mark_unprocessed_sources_cancelled
  stop_run-Balanced remaining r s =
      let billed = bill_unless-Balanced (is_empty r.results) r s in
      either Balanced env.cancel_mark_fails billed (
        update-Balanced (unprocessed (scope_of msg) remaining)
          (cancelled_source cancel_reason env.now)
          (if is_empty r.results then r.world else bill env msg r) (λ s. refl) (λ s. refl) billed)

  begin_source-Steady :
      (i j : ℕ) (r : Run) → Steady r.world → Steady (begin_source env msg i j r).world
  unfolding begin_source mark_sources_status
  begin_source-Steady i j r s =
      update-Steady (targets (scope_of msg) (j ∷ [])) (status_set processing env.now) r.world
        (begin_source env msg i j r).world (λ s. refl) (λ s. refl) refl refl s

  after_attempts-Steady :
      (j : ℕ) (r : Run) (a : Attempt) → Steady r.world → SteadyFlow (after_attempts env msg j r a)
  unfolding finish_source fail_source mark_sources_status mark_sources_failed
  after_attempts-Steady j r (returned result) s =
      either SteadyFlow (ltb 0 result.remaining_chunk_count) s (
        update-Steady (targets (scope_of msg) (j ∷ [])) (status_set completed env.now) r.world
          (record r.world {
            sources =
                update_where (targets (scope_of msg) (j ∷ [])) (status_set completed env.now)
                  r.world.sources;
          })
          (λ s. refl) (λ s. refl) refl refl s)
  after_attempts-Steady j r interrupted s = s
  after_attempts-Steady j r (raised true message) s = s
  after_attempts-Steady j r (raised false message) s =
      update-Steady (targets (scope_of msg) (j ∷ [])) (failed_row message env.now) r.world
        (fail_source env msg j false message r).world (λ s. refl) (λ s. refl) refl refl s

  gated-Steady :
      (i j : ℕ) (r : Run) (o : Option ExtractionStatus)
      → Steady r.world
      → SteadyFlow (gated env msg i j r o)
  unfolding process_source
  gated-Steady i j r (some pending) s =
      after_attempts-Steady j (begin_source env msg i j r)
        (attempt_source env j (max_chunks_per_invocation - r.chunks_processed))
        (begin_source-Steady i j r s)
  gated-Steady i j r (some processing) s =
      after_attempts-Steady j (begin_source env msg i j r)
        (attempt_source env j (max_chunks_per_invocation - r.chunks_processed))
        (begin_source-Steady i j r s)
  gated-Steady i j r (some failed) s = s
  gated-Steady i j r (some completed) s = s
  gated-Steady i j r none s = s

  unless_stopped-Steady :
      (i j : ℕ) (rest : List ℕ) (r : Run) (o : Option StopReason)
      → Steady r.world
      → SteadyFlow (unless_stopped env msg i j rest r o)
  unless_stopped-Steady i j rest r (some reason) s = stop_run-Balanced (j ∷ rest) r s
  unless_stopped-Steady i j rest r none s =
      either SteadyFlow (leb max_chunks_per_invocation r.chunks_processed) s
        (gated-Steady i j r (get_source_extraction_status j r.world.sources) s)

  visit_source-Steady :
      (i j : ℕ) (rest : List ℕ) (r : Run)
      → Steady r.world
      → SteadyFlow (visit_source env msg i j rest r)
  unfolding visit_source
  visit_source-Steady i j rest r s =
      unless_stopped-Steady i j rest (interfered env i r)
        (should_stop env msg i (interfered env i r).world.jobs) s

  abbrev SteadyWalk : Walked → Type 0
  SteadyWalk (left w chunks) = Balanced w
  SteadyWalk (ended r) = Steady r.world

  walk-Steady :
      (i : ℕ) (ids : List ℕ) (r : Run) → Steady r.world → SteadyWalk (walk env msg i ids r)
  unfolding walk
  walk-Steady i [] r s = s
  walk-Steady i (j ∷ rest) r s =
      go (visit_source env msg i j rest r) (visit_source-Steady i j rest r s)
        (λ r'. walk-Steady (suc i) rest r')
    where
      go :
          (flow : Flow)
          → SteadyFlow flow
          → ((r' : Run) → Steady r'.world → SteadyWalk (walk env msg (suc i) rest r'))
          → SteadyWalk (elim flow [
            | leaves w chunks ↦ left w chunks
            | breaks r' ↦ ended r'
            | continues r' ↦ walk env msg (suc i) rest r'
          ])
      go (leaves w chunks) h onward = h
      go (breaks r') h onward = h
      go (continues r') h onward = onward r' h

  -- A run that is to be retried for a degraded dependency has billed nothing.
  abbrev Settlement : World × (IngestionOutcome × ℕ) → Type 0
  Settlement (w, (outcome, chunks)) = Balanced w × (outcome ≡ retry_transient → w.usage ≡ u)

  conclude-Settlement : (r : Run) → Steady r.world → Settlement (conclude env msg r)
  unfolding conclude reset roll_up bill_if_any
  conclude-Settlement r s =
      let billed = bill_unless-Balanced (bills_nothing r) r s in
      either Settlement (is_empty r.transient_failed_ids)
        (either Settlement r.budget_hit (billed, λ e. ground (arith, e))
          (billed, λ e. ground (arith, e)))
        (Steady-Balanced r s, λ e. s.0)

  settled_walk-Settlement : (end : Walked) → SteadyWalk end → Settlement (settled_walk env msg end)
  settled_walk-Settlement (left w chunks) b = (b, λ e. ground (arith, e))
  settled_walk-Settlement (ended r) s = conclude-Settlement r s

  after_claim-Settlement :
      (w : World) (claim : ClaimResult) → Steady w → Settlement (after_claim env msg w claim)
  after_claim-Settlement w claimed s =
      settled_walk-Settlement (walk env msg 0 msg.source_ids (start w))
        (walk-Steady 0 msg.source_ids (start w) s)
  after_claim-Settlement w terminal s = (Steady-Balanced (start w) s, λ e. ground (arith, e))
  after_claim-Settlement w not_found s = (Steady-Balanced (start w) s, λ e. ground (arith, e))
  after_claim-Settlement w in_flight s = (Steady-Balanced (start w) s, λ e. ground (arith, e))

module _ (lease : ℕ) (env : Environment) (msg : IngestionJobMessage) (w : World)
    (d : NoRepeat (source_ids_of w.sources)) where
  pub process_ingestion_run-Settlement :
      Settlement env msg w.usage w.sources d (process_ingestion_run lease env msg w)
  unfolding process_ingestion_run
  process_ingestion_run-Settlement =
      let claim = claim_job msg.job_id lease env.now w.jobs in
      after_claim-Settlement env msg w.usage w.sources d (record w { jobs = claim.1 }) claim.0
        (refl, refl, refl)
