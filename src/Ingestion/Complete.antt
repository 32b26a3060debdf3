-- ===== src/Ingestion/Complete.antt =====
-- What a run that is over has done to the sources of its job.
use hono_crosmos.Base.{
  ℕ, suc, ◌-◌, ◌==◌, ==_iff, ◌≡◌, ◌⊎◌, refl, subst, sym, ap, inl, inr, ◌∙◌, true, false, either,
  either_by, Option, none, some, List, [], ◌∷◌, arith, Bool-cases, if◌then◌else◌, ltb, leb,
}
use hono_crosmos.Base.Tables.{update_where}
use hono_crosmos.Visibility.Graph.{contains}
use hono_crosmos.Jobs.Consumer.{ClaimResult, claimed, terminal, not_found, in_flight, claim_job}
use hono_crosmos.Delivery.Consumer.{IngestionJobMessage, IngestionOutcome, processed}
use hono_crosmos.Ingestion.Sources.{
  Source, ExtractionStatus, pending, processing, completed, failed, source, scope_sources, targets,
  status_of, status_set, failed_row, mark_sources_status, mark_sources_failed,
  get_source_extraction_status,
}
use hono_crosmos.Ingestion.Usage.{is_empty}
use hono_crosmos.Ingestion.Presence.{
  Has, Within, Finished, update-Has, other-Has, bill_unless-Has, stop_run-Finished,
  stop_run-remaining,
}
use hono_crosmos.Ingestion.Run.{
  Attempt, returned, interrupted, raised, Environment, World, Run, StopReason, bill, stop_run,
  begin_source, attempt_source, finish_source, fail_source, after_attempts, process_source, gated,
  interfered, unless_stopped, visit_source, should_stop, scope_of, Flow, leaves, breaks, continues,
  max_chunks_per_invocation,
}
use hono_crosmos.Ingestion.Process.{
  Walked, left, ended, walk, bills_nothing, bill_if_any, roll_up, conclude, start, settled_walk,
  after_claim, process_ingestion_run,
}

-- The attempts at a source end with the interruption of a heartbeat, or with a retryable error.
abbrev pub IsUnfinished : Attempt → Type 0
IsUnfinished (returned r) = ⊥
IsUnfinished interrupted = Unit
IsUnfinished (raised true message) = Unit
IsUnfinished (raised false message) = ⊥

module _ (env : Environment) (msg : IngestionJobMessage) (id : ℕ)
    (works : env.cancel_mark_fails ≡ false) where
  abbrev Here : World → Type 0
  Here w = Has (Within (scope_of msg)) id w.sources

  -- The source is `completed` or `failed`, or its attempts did not finish in this run.
  abbrev pub IsOver : World → Type 0
  IsOver w =
      Has (Finished (scope_of msg)) id w.sources
      ⊎ ((budget : ℕ) × IsUnfinished (attempt_source env id budget))

  abbrev Covered : List ℕ → World → Type 0
  Covered ids w = Here w × ((contains id ids ≡ true) ⊎ IsOver w)

  abbrev CoveredFlow : List ℕ → Flow → Type 0
  CoveredFlow ids (leaves w chunks) = IsOver w
  CoveredFlow ids (breaks r) = r.budget_hit ≡ true
  CoveredFlow ids (continues r) = Covered ids r.world

  map-IsOver :
      (w w' : World)
      → (Has (Finished (scope_of msg)) id w.sources → Has (Finished (scope_of msg)) id w'.sources)
      → IsOver w
      → IsOver w'
  map-IsOver w w' f (inl h) = inl (f h)
  map-IsOver w w' f (inr u) = inr u

  -- A statement on another source.
  other-Covered :
      (j : ℕ) (ids : List ℕ) (f : Source → Source) (w w' : World)
      → ((s : Source) → (f s).id ≡ s.id)
      → (j == id) ≡ false
      → w'.sources ≡ update_where (targets (scope_of msg) (j ∷ [])) f w.sources
      → Covered ids w
      → Covered ids w'
  other-Covered j ids f w w' keeps ne e (h, ended_so) = (
    subst (Has (Within (scope_of msg)) id) (sym e)
        (other-Has (Within (scope_of msg)) (scope_of msg) id j f w.sources keeps ne h),
    elim ended_so [
      | inl named ↦ inl named
      | inr o ↦ inr (
          map-IsOver w w'
            (λ k.
              subst (Has (Finished (scope_of msg)) id) (sym e)
                (other-Has (Finished (scope_of msg)) (scope_of msg) id j f w.sources keeps ne k))
            o)
    ],
  )

  -- A statement on the source itself that settles it.
  self-Has :
      (Q : Source → Type 0) (f : Source → Source) (t : List Source)
      → ((s : Source) → (f s).id ≡ s.id)
      → ((s : Source) → Within (scope_of msg) s → Q (f s))
      → Has (Within (scope_of msg)) id t
      → Has Q id (update_where (targets (scope_of msg) (id ∷ [])) f t)
  unfolding contains
  self-Has Q f t keeps h =
      update-Has (Within (scope_of msg)) Q id (targets (scope_of msg) (id ∷ [])) f t keeps
        (λ s e q. subst (λ b. Q (if b then f s else s)) (sym (hit s e q)) (h s q))
    where
      hit :
          (s : Source)
          → s.id ≡ id
          → Within (scope_of msg) s
          → targets (scope_of msg) (id ∷ []) s ≡ true
      hit s e q = rw (q, e) (ground (arith, ==_iff id id))

  after_attempts-self :
      (ids : List ℕ) (r : Run) (budget : ℕ) (a : Attempt)
      → attempt_source env id budget ≡ a
      → Here r.world
      → CoveredFlow ids (after_attempts env msg id r a)
  unfolding finish_source fail_source mark_sources_status mark_sources_failed
  after_attempts-self ids r budget (returned result) e h =
      either (CoveredFlow ids) (ltb 0 result.remaining_chunk_count) refl (
        self-Has (Within (scope_of msg)) (status_set completed env.now) r.world.sources (λ s. refl)
            (λ s q. q) h,
        inr (
            inl (
              self-Has (Finished (scope_of msg)) (status_set completed env.now) r.world.sources
                (λ s. refl) (λ s q. (q, refl)) h)),
      )
  after_attempts-self ids r budget interrupted e h =
      (h, inr (inr (budget, subst IsUnfinished (sym e) tt)))
  after_attempts-self ids r budget (raised true message) e h =
      (h, inr (inr (budget, subst IsUnfinished (sym e) tt)))
  after_attempts-self ids r budget (raised false message) e h = (
    self-Has (Within (scope_of msg)) (failed_row message env.now) r.world.sources (λ s. refl)
        (λ s q. q) h,
    inr (
        inl (
          self-Has (Finished (scope_of msg)) (failed_row message env.now) r.world.sources
            (λ s. refl) (λ s q. (q, refl)) h)),
  )

  after_attempts-other :
      (ids : List ℕ) (j : ℕ) (r : Run) (a : Attempt)
      → (j == id) ≡ false
      → Covered ids r.world
      → CoveredFlow ids (after_attempts env msg j r a)
  unfolding finish_source fail_source mark_sources_status mark_sources_failed
  after_attempts-other ids j r (returned result) ne c =
      either (CoveredFlow ids) (ltb 0 result.remaining_chunk_count) refl (
        other-Covered j ids (status_set completed env.now) r.world
          (record r.world {
            sources =
                update_where (targets (scope_of msg) (j ∷ [])) (status_set completed env.now)
                  r.world.sources;
          })
          (λ s. refl) ne refl c)
  after_attempts-other ids j r interrupted ne c = c
  after_attempts-other ids j r (raised true message) ne c = c
  after_attempts-other ids j r (raised false message) ne c =
      other-Covered j ids (failed_row message env.now) r.world
        (fail_source env msg j false message r).world (λ s. refl) ne refl c

  process_source-self :
      (ids : List ℕ) (i j : ℕ) (r : Run)
      → j ≡ id
      → Here r.world
      → CoveredFlow ids (process_source env msg i j r)
  unfolding process_source begin_source mark_sources_status
  process_source-self ids i j r e h =
      subst (λ k. CoveredFlow ids (process_source env msg i k r)) (sym e)
        (after_attempts-self ids (begin_source env msg i id r)
          (max_chunks_per_invocation - r.chunks_processed)
          (attempt_source env id (max_chunks_per_invocation - r.chunks_processed)) refl
          (self-Has (Within (scope_of msg)) (status_set processing env.now) r.world.sources
            (λ s. refl) (λ s q. q) h))

  process_source-other :
      (ids : List ℕ) (i j : ℕ) (r : Run)
      → (j == id) ≡ false
      → Covered ids r.world
      → CoveredFlow ids (process_source env msg i j r)
  unfolding process_source begin_source mark_sources_status
  process_source-other ids i j r ne c =
      after_attempts-other ids j (begin_source env msg i j r)
        (attempt_source env j (max_chunks_per_invocation - r.chunks_processed)) ne
        (other-Covered j ids (status_set processing env.now) r.world
          (begin_source env msg i j r).world (λ s. refl) ne refl c)

  found :
      (j : ℕ) (t : List Source) (o : Option ExtractionStatus)
      → j ≡ id
      → get_source_extraction_status j t ≡ o
      → Has (Within (scope_of msg)) id t
      → (row : Source) × (source id t ≡ some row)
        × (some row.extraction_status ≡ o)
        × Within (scope_of msg) row
  unfolding get_source_extraction_status
  found j t o same e (row, here, q) =
      (row, here, sym (ap status_of here) ∙ subst (λ k. status_of (source k t) ≡ o) same e, q)

  gated-self :
      (ids : List ℕ) (i j : ℕ) (r : Run) (o : Option ExtractionStatus)
      → j ≡ id
      → get_source_extraction_status j r.world.sources ≡ o
      → Here r.world
      → CoveredFlow ids (gated env msg i j r o)
  gated-self ids i j r (some pending) same e h = process_source-self ids i j r same h
  gated-self ids i j r (some processing) same e h = process_source-self ids i j r same h
  gated-self ids i j r (some failed) same e h =
      let (row, here, is, q) = found j r.world.sources (some failed) same e h in
      (h, inr (inl (row, here, (q, ground (arith, is)))))
  gated-self ids i j r (some completed) same e h =
      let (row, here, is, q) = found j r.world.sources (some completed) same e h in
      (h, inr (inl (row, here, (q, ground (arith, is)))))
  gated-self ids i j r none same e h =
      let (row, here, is, q) = found j r.world.sources none same e h in absurd (ground (arith, is))

  gated-other :
      (ids : List ℕ) (i j : ℕ) (r : Run) (o : Option ExtractionStatus)
      → (j == id) ≡ false
      → Covered ids r.world
      → CoveredFlow ids (gated env msg i j r o)
  gated-other ids i j r (some pending) ne c = process_source-other ids i j r ne c
  gated-other ids i j r (some processing) ne c = process_source-other ids i j r ne c
  gated-other ids i j r (some failed) ne c = c
  gated-other ids i j r (some completed) ne c = c
  gated-other ids i j r none ne c = c

  narrow :
      (j : ℕ) (ids : List ℕ) (w : World) → (j == id) ≡ false → Covered (j ∷ ids) w → Covered ids w
  unfolding contains
  narrow j ids w ne (h, inl named) = (h, inl (ground (arith, named, ne)))
  narrow j ids w ne (h, inr ended_so) = (h, inr ended_so)

  stopped :
      (remaining : List ℕ) (r : Run)
      → Covered remaining r.world
      → IsOver (stop_run env msg remaining r)
  stopped remaining r (h, inl named) = inl (stop_run-remaining env msg id remaining r works named h)
  stopped remaining r (h, inr ended_so) =
      map-IsOver r.world (stop_run env msg remaining r) (stop_run-Finished env msg id remaining r)
        ended_so

  gate :
      (i j : ℕ) (rest : List ℕ) (r : Run)
      → Covered (j ∷ rest) r.world
      → CoveredFlow rest (gated env msg i j r (get_source_extraction_status j r.world.sources))
  gate i j rest r c = elim (Bool-cases (j == id)) [
    | inl same ↦
        gated-self rest i j r (get_source_extraction_status j r.world.sources)
          ((==_iff j id).0 same) refl c.0
    | inr ne ↦
        gated-other rest i j r (get_source_extraction_status j r.world.sources) ne
          (narrow j rest r.world ne c)
  ]

  unless_stopped-Covered :
      (i j : ℕ) (rest : List ℕ) (r : Run) (o : Option StopReason)
      → Covered (j ∷ rest) r.world
      → CoveredFlow rest (unless_stopped env msg i j rest r o)
  unless_stopped-Covered i j rest r (some reason) c = stopped (j ∷ rest) r c
  unless_stopped-Covered i j rest r none c =
      either (CoveredFlow rest) (leb max_chunks_per_invocation r.chunks_processed) refl
        (gate i j rest r c)

  visit_source-Covered :
      (i j : ℕ) (rest : List ℕ) (r : Run)
      → Covered (j ∷ rest) r.world
      → CoveredFlow rest (visit_source env msg i j rest r)
  unfolding visit_source
  visit_source-Covered i j rest r c =
      unless_stopped-Covered i j rest (interfered env i r)
        (should_stop env msg i (interfered env i r).world.jobs) c

  abbrev CoveredWalk : Walked → Type 0
  CoveredWalk (left w chunks) = IsOver w
  CoveredWalk (ended r) = (r.budget_hit ≡ true) ⊎ IsOver r.world

  walk-Covered :
      (i : ℕ) (ids : List ℕ) (r : Run) → Covered ids r.world → CoveredWalk (walk env msg i ids r)
  unfolding walk contains
  walk-Covered i [] r (h, inl named) = absurd (ground (arith, named))
  walk-Covered i [] r (h, inr ended_so) = inr ended_so
  walk-Covered i (j ∷ rest) r c =
      go (visit_source env msg i j rest r) (visit_source-Covered i j rest r c)
        (λ r'. walk-Covered (suc i) rest r')
    where
      go :
          (flow : Flow)
          → CoveredFlow rest flow
          → ((r' : Run) → Covered rest r'.world → CoveredWalk (walk env msg (suc i) rest r'))
          → CoveredWalk (elim flow [
            | leaves w chunks ↦ left w chunks
            | breaks r' ↦ ended r'
            | continues r' ↦ walk env msg (suc i) rest r'
          ])
      go (leaves w chunks) h onward = h
      go (breaks r') h onward = inl h
      go (continues r') h onward = onward r' h

  abbrev Concluded : World × (IngestionOutcome × ℕ) → Type 0
  Concluded (w, (outcome, chunks)) = outcome ≡ processed → IsOver w

  conclude-Concluded : (end : Walked) → CoveredWalk end → Concluded (settled_walk env msg end)
  unfolding conclude roll_up bill_if_any
  conclude-Concluded (left w chunks) ended_so = λ e. ended_so
  conclude-Concluded (ended r) ended_so =
      either Concluded (is_empty r.transient_failed_ids)
        (either_by Concluded r.budget_hit (λ hit e. ground (arith, e)) (λ missed e. rolled missed))
        (λ e. ground (arith, e))
    where
      billed : IsOver r.world → IsOver (if bills_nothing r then r.world else bill env msg r)
      billed = map-IsOver r.world (if bills_nothing r then r.world else bill env msg r) (
          bill_unless-Has (Finished (scope_of msg)) (λ s q. q) (λ s q. q) env msg id
            (bills_nothing r) r)

      rolled : r.budget_hit ≡ false → IsOver (if bills_nothing r then r.world else bill env msg r)
      rolled missed = elim ended_so [ inl hit ↦ ground (arith, hit, missed) | inr o ↦ billed o ]

-- When a run of a job that it claimed says `processed`, each source of the message that is there, in
-- the scope of the message, is `completed` or `failed`, unless its attempts ended with an
-- interruption or a retryable error. The write of the stop path is taken to succeed.
pub process_ingestion_run-processed :
    (lease : ℕ) (env : Environment) (msg : IngestionJobMessage) (w : World) (id : ℕ) (row : Source)
    → env.cancel_mark_fails ≡ false
    → contains id msg.source_ids ≡ true
    → source id w.sources ≡ some row
    → scope_sources (scope_of msg) row ≡ true
    → (process_ingestion_run lease env msg w).1.0 ≡ processed
    → Has (Finished (scope_of msg)) id (process_ingestion_run lease env msg w).0.sources
      ⊎ ((budget : ℕ) × IsUnfinished (attempt_source env id budget))
unfolding process_ingestion_run
process_ingestion_run-processed lease env msg w id row works named here within outcome =
    let claim = claim_job msg.job_id lease env.now w.jobs in go claim.0 outcome
  where
    claimed_world : World
    claimed_world = record w { jobs = (claim_job msg.job_id lease env.now w.jobs).1 }

    go :
        (claim : ClaimResult)
        → (after_claim env msg claimed_world claim).1.0 ≡ processed
        → IsOver env msg id works (after_claim env msg claimed_world claim).0
    go claimed e =
        conclude-Concluded env msg id works (walk env msg 0 msg.source_ids (start claimed_world))
          (walk-Covered env msg id works 0 msg.source_ids (start claimed_world)
            ((row, here, within), inl named))
          e
    go terminal e = absurd (ground (arith, e))
    go not_found e = absurd (ground (arith, e))
    go in_flight e = absurd (ground (arith, e))
