-- ===== src/Ingestion/Presence.antt =====
-- What the row of one source goes through while a run works on other sources, or bills.
use hono_crosmos.Base.{
  ℕ, ◌==◌, ◌≡◌, refl, subst, sym, ◌∙◌, String, Bool, true, false, ◌&&◌, either, some, List, [], ◌∷◌,
  arith, Bool-cases, if◌then◌else◌,
}
use hono_crosmos.Base.Tables.{select_where, update_where, first_where-update_where}
use hono_crosmos.Visibility.Graph.{contains}
use hono_crosmos.Delivery.Consumer.{IngestionJobMessage}
use hono_crosmos.Ingestion.Sources.{
  Source, TenantScope, ExtractionStatus, is_open, is_settled, has_source_id, source, scope_sources,
  targets, unprocessed, cancelled_source, mark_unprocessed_sources_cancelled,
}
use hono_crosmos.Ingestion.Usage.{
  Usage, UsageInput, is_empty, source_ids_of, accounted_tokens, completes, fails,
  completion_recorded, failure_recorded, mark_recorded, record_ingestion_usage,
}
use hono_crosmos.Ingestion.Rows.{source-id}
use hono_crosmos.Ingestion.Run.{
  Environment, World, Run, bill, stop_run, scope_of, cancel_reason, completed_ids, input_tokens,
}

-- The row of `id` is there, and `Q` holds of it.
abbrev pub Has : (Source → Type 0) → ℕ → List Source → Type 0
Has Q id t = (row : Source) × (source id t ≡ some row) × Q row

pub update-Has :
    (P Q : Source → Type 0) (id : ℕ) (p : Source → Bool) (f : Source → Source) (t : List Source)
    → ((s : Source) → (f s).id ≡ s.id)
    → ((s : Source) → s.id ≡ id → P s → Q (if p s then f s else s))
    → Has P id t
    → Has Q id (update_where p f t)
update-Has P Q id p f t keeps h (row, here, q) = (
  if p row then f row else row,
  first_where-update_where (has_source_id id) p f t (λ s. ground (arith, keeps s, Bool-cases (p s)))
      ∙ rw here refl,
  h row (source-id id t row here) q,
)

-- A statement on the row of another source.
pub other-Has :
    (Q : Source → Type 0) (scope : TenantScope) (id j : ℕ) (f : Source → Source) (t : List Source)
    → ((s : Source) → (f s).id ≡ s.id)
    → (j == id) ≡ false
    → Has Q id t
    → Has Q id (update_where (targets scope (j ∷ [])) f t)
unfolding contains
other-Has Q scope id j f t keeps ne h =
    update-Has Q Q id (targets scope (j ∷ [])) f t keeps
      (λ s e q. subst (λ b. Q (if b then f s else s)) (sym (missed s e)) q) h
  where
    missed : (s : Source) → s.id ≡ id → targets scope (j ∷ []) s ≡ false
    missed s e = rw (e, ne) (ground arith)

module _ (Q : Source → Type 0) (completion : (s : Source) → Q s → Q (completion_recorded s))
    (failure : (s : Source) → Q s → Q (failure_recorded s)) where
  pub record_ingestion_usage-Has :
      (memories : List ℕ → ℕ) (scope : TenantScope) (date : String) (input : UsageInput)
      (usage : Usage) (t : List Source) (id : ℕ)
      → Has Q id t
      → Has Q id (record_ingestion_usage memories scope date input (usage, t)).1
  unfolding record_ingestion_usage
  record_ingestion_usage-Has memories scope date input usage t id h =
      let completed = select_where (completes scope input.completed_source_ids) t in
      let failed = select_where (fails scope input.failed_source_ids) t in
      let first =
        update-Has Q Q id (λ s. contains s.id (source_ids_of completed)) completion_recorded t
          (λ s. refl)
          (λ s e q. either Q (contains s.id (source_ids_of completed)) (completion s q) q) h in
      let second =
        update-Has Q Q id (λ s. contains s.id (source_ids_of failed)) failure_recorded
          (mark_recorded completion_recorded completed t) (λ s. refl)
          (λ s e q. either Q (contains s.id (source_ids_of failed)) (failure s q) q) first in
      either (λ (o : Usage × List Source). Has Q id o.1)
        (accounted_tokens input completed == 0 && (is_empty completed && is_empty failed)) h second

  pub bill_unless-Has :
      (env : Environment) (msg : IngestionJobMessage) (id : ℕ) (b : Bool) (r : Run)
      → Has Q id r.world.sources
      → Has Q id (if b then r.world else bill env msg r).sources
  unfolding bill
  bill_unless-Has env msg id b r h =
      let P = λ (w : World). Has Q id w.sources in
      either P b h (
        either P env.usage_fails h (
          record_ingestion_usage-Has env.memories_of (scope_of msg) env.date
            (record {
              tokens = input_tokens r.results;
              completed_source_ids = completed_ids r.results;
              failed_source_ids = r.newly_failed_source_ids;
            })
            r.world.usage r.world.sources id h))

-- The row is in the scope of the message.
abbrev pub Within : TenantScope → Source → Type 0
Within scope s = scope_sources scope s ≡ true

-- The row is in the scope, and `completed` or `failed`.
abbrev pub Finished : TenantScope → Source → Type 0
Finished scope s = (scope_sources scope s ≡ true) × (is_settled s.extraction_status ≡ true)

module _ (env : Environment) (msg : IngestionJobMessage) (id : ℕ) where
  pub stop_run-Finished :
      (remaining : List ℕ) (r : Run)
      → Has (Finished (scope_of msg)) id r.world.sources
      → Has (Finished (scope_of msg)) id (stop_run env msg remaining r).sources
  unfolding stop_run mark_unprocessed_sources_cancelled
  stop_run-Finished remaining r h =
      let P = λ (w : World). Has (Finished (scope_of msg)) id w.sources in
      let w = if is_empty r.results then r.world else bill env msg r in
      let billed =
        bill_unless-Has (Finished (scope_of msg)) (λ s q. q) (λ s q. q) env msg id
          (is_empty r.results) r h in
      either P env.cancel_mark_fails billed (
        update-Has (Finished (scope_of msg)) (Finished (scope_of msg)) id
          (unprocessed (scope_of msg) remaining) (cancelled_source cancel_reason env.now) w.sources
          (λ s. refl)
          (λ s e q.
            either (Finished (scope_of msg)) (unprocessed (scope_of msg) remaining s) (q.0, refl) q)
          billed)

  -- The stop path settles each source that it names, unless its write fails.
  pub stop_run-remaining :
      (remaining : List ℕ) (r : Run)
      → env.cancel_mark_fails ≡ false
      → contains id remaining ≡ true
      → Has (Within (scope_of msg)) id r.world.sources
      → Has (Finished (scope_of msg)) id (stop_run env msg remaining r).sources
  unfolding stop_run mark_unprocessed_sources_cancelled
  stop_run-remaining remaining r works named h =
      let w = if is_empty r.results then r.world else bill env msg r in
      let billed =
        bill_unless-Has (Within (scope_of msg)) (λ s q. q) (λ s q. q) env msg id
          (is_empty r.results) r h in
      let marked =
        update-Has (Within (scope_of msg)) (Finished (scope_of msg)) id
          (unprocessed (scope_of msg) remaining) (cancelled_source cancel_reason env.now) w.sources
          (λ s. refl) (λ s e q. settles s e q) billed in
      subst
        (λ b.
          Has (Finished (scope_of msg)) id
            (if b then w else record w {
              sources =
                  update_where (unprocessed (scope_of msg) remaining)
                    (cancelled_source cancel_reason env.now) w.sources;
            }).sources)
        (sym works) marked
    where
      settled : (status : ExtractionStatus) → is_open status ≡ false → is_settled status ≡ true
      settled status h = ground arith

      go :
          (s : Source) (b : Bool)
          → Within (scope_of msg) s
          → is_open s.extraction_status ≡ b
          → Finished (scope_of msg) (if b then cancelled_source cancel_reason env.now s else s)
      go s true q e = (q, refl)
      go s false q e = (q, settled s.extraction_status e)

      hit :
          (s : Source)
          → s.id ≡ id
          → Within (scope_of msg) s
          → targets (scope_of msg) remaining s ≡ true
      hit s e q = rw (q, e) named

      settles :
          (s : Source)
          → s.id ≡ id
          → Within (scope_of msg) s
          → Finished (scope_of msg) (
              if unprocessed (scope_of msg) remaining s
              then cancelled_source cancel_reason env.now s
              else s)
      settles s e q =
          subst
            (λ b. Finished (scope_of msg) (
              if b && is_open s.extraction_status
              then cancelled_source cancel_reason env.now s
              else s))
            (sym (hit s e q)) (go s (is_open s.extraction_status) q refl)
