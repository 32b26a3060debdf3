-- ===== src/Ingestion/Sources.antt =====
-- apps/ingestion/src/source-status.ts and the row of packages/db/src/schema/sources.ts, as far as a
-- run of a job reads or writes it. Of `meta` the four keys that are written there are modelled; an
-- absent `meta` has none of them.
use hono_crosmos.Base.{ℕ, ◌==◌, String, Bool, true, false, ◌&&◌, Option, none, some, List}
use hono_crosmos.Base.Tables.{first_where, update_where}
use hono_crosmos.Visibility.Graph.{contains}

pub data ExtractionStatus : Type 0 where
  pending processing completed failed : ExtractionStatus

pub record SourceMeta : Type 0 where
  pub error_message : Option String
  pub cancelled : Bool
  pub analytics_completion_recorded : Bool
  pub analytics_failure_recorded : Bool

pub record Source : Type 0 where
  pub id : ℕ
  pub org_id : ℕ
  pub space_id : ℕ
  pub extraction_status : ExtractionStatus
  pub content_type : String
  pub token_count : ℕ
  pub meta : SourceMeta
  pub updated_at : ℕ

pub record TenantScope : Type 0 where
  pub org_id : ℕ
  pub space_id : ℕ
  pub user_id : ℕ

-- `completed` and `failed` are the end of a source.
abbrev pub is_settled : ExtractionStatus → Bool
is_settled pending = false
is_settled processing = false
is_settled completed = true
is_settled failed = true

abbrev pub is_open : ExtractionStatus → Bool
is_open pending = true
is_open processing = true
is_open completed = false
is_open failed = false

abbrev pub is_completed : ExtractionStatus → Bool
is_completed completed = true
is_completed _ = false

abbrev pub is_failed : ExtractionStatus → Bool
is_failed failed = true
is_failed _ = false

abbrev pub scope_sources : TenantScope → Source → Bool
scope_sources scope s = s.org_id == scope.org_id && s.space_id == scope.space_id

abbrev pub has_source_id : ℕ → Source → Bool
has_source_id id s = s.id == id

abbrev pub source : ℕ → List Source → Option Source
source id t = first_where (has_source_id id) t

abbrev pub status_of : Option Source → Option ExtractionStatus
status_of none = none
status_of (some s) = some s.extraction_status

-- By the id alone, in no scope.
unfoldable pub get_source_extraction_status : ℕ → List Source → Option ExtractionStatus
get_source_extraction_status id t = status_of (source id t)

-- An early return on an empty list is left out: it names no row.
abbrev pub targets : TenantScope → List ℕ → Source → Bool
targets scope ids s = scope_sources scope s && contains s.id ids

abbrev pub status_set : ExtractionStatus → ℕ → Source → Source
status_set status now s = record s { extraction_status = status; updated_at = now }

unfoldable pub mark_sources_status :
    TenantScope → List ℕ → ExtractionStatus → ℕ → List Source → List Source
mark_sources_status scope ids status now t =
    update_where (targets scope ids) (status_set status now) t

abbrev pub failed_row : String → ℕ → Source → Source
failed_row message now s = record s {
  extraction_status = failed;
  updated_at = now;
  meta = record s.meta { error_message = some message };
}

unfoldable pub mark_sources_failed : TenantScope → List ℕ → String → ℕ → List Source → List Source
mark_sources_failed scope ids message now t =
    update_where (targets scope ids) (failed_row message now) t

abbrev pub unprocessed : TenantScope → List ℕ → Source → Bool
unprocessed scope ids s = targets scope ids s && is_open s.extraction_status

abbrev pub cancelled_source : String → ℕ → Source → Source
cancelled_source reason now s = record s {
  extraction_status = failed;
  updated_at = now;
  meta = record s.meta { error_message = some reason; cancelled = true };
}

unfoldable pub mark_unprocessed_sources_cancelled :
    TenantScope → List ℕ → String → ℕ → List Source → List Source
mark_unprocessed_sources_cancelled scope ids reason now t =
    update_where (unprocessed scope ids) (cancelled_source reason now) t
