-- ===== src/Ingestion/Rows.antt =====
-- Rows of the source table that the statements of a run leave alone.
use hono_crosmos.Base.{
  ℕ, ◌==◌, ==_iff, ◌≡◌, refl, inl, inr, ◌∙◌, String, Bool, true, false, some, List, [], ◌∷◌, arith,
  Bool-cases,
}
use hono_crosmos.Base.Tables.{select_where, update_where, first_where, first_where-update_where}
use hono_crosmos.Visibility.Graph.{contains}
use hono_crosmos.Ingestion.Sources.{
  Source, TenantScope, ExtractionStatus, is_settled, is_open, has_source_id, source, targets,
  mark_sources_status, mark_sources_failed, mark_unprocessed_sources_cancelled, status_set,
  failed_row, cancelled_source, unprocessed,
}
use hono_crosmos.Ingestion.Usage.{
  Usage, UsageInput, completes, fails, source_ids_of, mark_recorded, record_ingestion_usage,
  completion_recorded, failure_recorded,
}

pub source-id : (id : ℕ) (t : List Source) (row : Source) → source id t ≡ some row → row.id ≡ id
unfolding first_where
source-id id [] row h = ground arith
source-id id (s ∷ t) row h = ground (arith, source-id id t row, (==_iff s.id id).0)

-- An update that keeps the ids changes no row that its test refuses.
pub source-update_where :
    (id : ℕ) (p : Source → Bool) (f : Source → Source) (t : List Source) (row : Source)
    → ((s : Source) → (f s).id ≡ s.id)
    → source id t ≡ some row
    → p row ≡ false
    → source id (update_where p f t) ≡ some row
source-update_where id p f t row keeps h refused =
    first_where-update_where (has_source_id id) p f t
      (λ s. ground (arith, keeps s, Bool-cases (p s)))
    ∙ rw (h, refused) refl

contains-select :
    (p : Source → Bool) (ids : List ℕ) (t : List Source) (id : ℕ)
    → ((s : Source) → p s ≡ true → contains s.id ids ≡ true)
    → contains id ids ≡ false
    → contains id (source_ids_of (select_where p t)) ≡ false
unfolding select_where contains
contains-select p ids [] id within h = refl
contains-select p ids (s ∷ t) id within h = elim (Bool-cases (p s)) [
  | inl e ↦
      rw e (ground (arith, contains-select p ids t id within h, within s e, (==_iff s.id id).0))
  | inr e ↦ rw e (contains-select p ids t id within h)
]

mark_recorded-source :
    (flag : Source → Source) (p : Source → Bool) (ids : List ℕ) (rows t : List Source) (id : ℕ)
    (row : Source)
    → ((s : Source) → (flag s).id ≡ s.id)
    → ((s : Source) → p s ≡ true → contains s.id ids ≡ true)
    → source id t ≡ some row
    → contains id ids ≡ false
    → source id (mark_recorded flag (select_where p rows) t) ≡ some row
mark_recorded-source flag p ids rows t id row keeps within h absent =
    source-update_where id (λ s. contains s.id (source_ids_of (select_where p rows))) flag t row
      keeps h (rw (source-id id t row h) (contains-select p ids rows id within absent))

-- The usage record touches only rows that it names.
pub record_ingestion_usage-source :
    (memories : List ℕ → ℕ) (scope : TenantScope) (date : String) (input : UsageInput)
    (usage : Usage) (t : List Source) (id : ℕ) (row : Source)
    → source id t ≡ some row
    → contains id input.completed_source_ids ≡ false
    → contains id input.failed_source_ids ≡ false
    → source id (record_ingestion_usage memories scope date input (usage, t)).1 ≡ some row
unfolding record_ingestion_usage
record_ingestion_usage-source memories scope date input usage t id row h c f =
    let marked =
      mark_recorded-source completion_recorded (completes scope input.completed_source_ids)
        input.completed_source_ids t t id row (λ s. refl) (λ s e. ground (arith, e)) h c in
    let again =
      mark_recorded-source failure_recorded (fails scope input.failed_source_ids)
        input.failed_source_ids t
        (mark_recorded completion_recorded
          (select_where (completes scope input.completed_source_ids) t) t)
        id row (λ s. refl) (λ s e. ground (arith, e)) marked f in
    ground (arith, again, h)

module _ (scope : TenantScope) (id : ℕ) (row : Source) (t : List Source) (now : ℕ) where
  pub mark_sources_status-source :
      (j : ℕ) (status : ExtractionStatus)
      → source id t ≡ some row
      → (j == id) ≡ false
      → source id (mark_sources_status scope (j ∷ []) status now t) ≡ some row
  unfolding mark_sources_status contains
  mark_sources_status-source j status h ne =
      source-update_where id (targets scope (j ∷ [])) (status_set status now) t row (λ s. refl) h
        (rw (source-id id t row h, ne) (ground arith))

  pub mark_sources_failed-source :
      (j : ℕ) (message : String)
      → source id t ≡ some row
      → (j == id) ≡ false
      → source id (mark_sources_failed scope (j ∷ []) message now t) ≡ some row
  unfolding mark_sources_failed contains
  mark_sources_failed-source j message h ne =
      source-update_where id (targets scope (j ∷ [])) (failed_row message now) t row (λ s. refl) h
        (rw (source-id id t row h, ne) (ground arith))

  pub mark_unprocessed-source :
      (ids : List ℕ) (reason : String)
      → source id t ≡ some row
      → is_settled row.extraction_status ≡ true
      → source id (mark_unprocessed_sources_cancelled scope ids reason now t) ≡ some row
  unfolding mark_unprocessed_sources_cancelled
  mark_unprocessed-source ids reason h settled =
      source-update_where id (unprocessed scope ids) (cancelled_source reason now) t row (λ s. refl)
        h (ground (arith, closed row.extraction_status settled))
    where
      closed : (status : ExtractionStatus) → is_settled status ≡ true → is_open status ≡ false
      closed status h = ground arith
