-- ===== src/Jobs/Row.antt =====
-- packages/types/src/index.ts and packages/db/src/schema/ingestion-jobs.ts: the status of a job and
-- the row that both workers write. Times are milliseconds; the two clocks (the database's `now()`
-- and a worker's `Date`) are one.
use hono_crosmos.Base.{
  ℕ, String, ◌===◌, string_eq, Bool, true, false, ◌||◌, Option, none, some, List,
}
use hono_crosmos.Base.Dict.{Dict}
use hono_crosmos.Base.Tables.{first_where}

pub data IngestionJobStatus : Type 0 where
  pending processing completed partial failed cancelled : IngestionJobStatus

pub record IngestionJobResult : Type 0 where
  pub source_ids : List ℕ
  pub failed_source_ids : List ℕ
  pub memory_count : ℕ
  pub entity_count : ℕ
  pub edge_count : ℕ
  pub tokens_used : ℕ
  pub source_errors : Option (Dict String String)
  pub error_message : Option String

pub record Job : Type 0 where
  pub id : String
  pub org_id : ℕ
  pub space_id : ℕ
  pub user_id : ℕ
  pub status : IngestionJobStatus
  pub source_ids : List ℕ
  pub result : Option IngestionJobResult
  pub error_message : Option String
  pub current_stage : Option String
  pub created_at : ℕ
  pub started_at : Option ℕ
  pub completed_at : Option ℕ

pub record UpdateStatusOptions : Type 0 where
  pub result : Option IngestionJobResult
  pub error : Option String
  pub stage : Option String

-- `TERMINAL_STATUSES`.
abbrev pub is_terminal : IngestionJobStatus → Bool
is_terminal completed = true
is_terminal partial = true
is_terminal failed = true
is_terminal cancelled = true
is_terminal _ = false

abbrev pub is_processing : IngestionJobStatus → Bool
is_processing processing = true
is_processing _ = false

abbrev pub is_pending : IngestionJobStatus → Bool
is_pending pending = true
is_pending _ = false

-- `ACTIVE_STATUSES`.
abbrev pub is_in_flight : IngestionJobStatus → Bool
is_in_flight s = is_pending s || is_processing s

abbrev pub has_id : String → Job → Bool
has_id id j = j.id === id

abbrev pub job : String → List Job → Option Job
job id t = first_where (has_id id) t

-- `if (value !== undefined) column = value`.
abbrev pub set_if {ℓ} : {A : Type ℓ} → Option A → Option A → Option A
set_if none old = old
set_if (some v) old = some v
