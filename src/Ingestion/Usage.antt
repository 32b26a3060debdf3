-- ===== src/Ingestion/Usage.antt =====
-- packages/db/src/usage-rollup.ts: the daily counters. Each table has at most one row for a key, so
-- an insert that conflicts updates the first row with the key. The count of distinct memories of
-- some sources is an argument, since the chunk tables are no part of this model.
use hono_crosmos.Base.{
  ℕ, ◌+◌, String, ◌===◌, string_eq, Bool, true, false, not, ◌&&◌, List, [], ◌∷◌, map, ◌==◌,
  if◌then◌else◌, length,
}
use hono_crosmos.Base.Tables.{select_where, update_where}
use hono_crosmos.Visibility.Graph.{contains}
use hono_crosmos.Ingestion.Sources.{Source, TenantScope, is_completed, is_failed, targets}

pub record DailyUsage : Type 0 where
  pub org_id : ℕ
  pub user_id : ℕ
  pub space_id : ℕ
  pub date : String
  pub tokens_ingested : ℕ
  pub sources_ingested : ℕ
  pub sources_failed : ℕ
  pub memories_created : ℕ
  pub search_queries : ℕ

pub record ContentTypeUsage : Type 0 where
  pub scope : TenantScope
  pub date : String
  pub content_type : String
  pub count : ℕ

pub record Usage : Type 0 where
  pub daily : List DailyUsage
  pub content_types : List ContentTypeUsage

abbrev pub is_day : TenantScope → String → DailyUsage → Bool
is_day scope date u =
    (u.org_id == scope.org_id && u.user_id == scope.user_id)
    && (u.space_id == scope.space_id && u.date === date)

-- `insert … on conflict do update`.
abbrev pub upsert {ℓ} : {A : Type ℓ} → (A → Bool) → (A → A) → A → List A → List A
upsert conflicts change new [] = new ∷ []
upsert conflicts change new (x ∷ xs) =
    let rest = upsert conflicts change new xs in if conflicts x then change x ∷ xs else x ∷ rest

abbrev pub new_day : TenantScope → String → DailyUsage
new_day scope date = record {
  org_id = scope.org_id;
  user_id = scope.user_id;
  space_id = scope.space_id;
  date = date;
  tokens_ingested = 0;
  sources_ingested = 0;
  sources_failed = 0;
  memories_created = 0;
  search_queries = 0;
}

abbrev pub add_ingestion : ℕ → ℕ → ℕ → ℕ → DailyUsage → DailyUsage
add_ingestion tokens ingested failed memories u = record u {
  tokens_ingested = u.tokens_ingested + tokens;
  sources_ingested = u.sources_ingested + ingested;
  sources_failed = u.sources_failed + failed;
  memories_created = u.memories_created + memories;
}

abbrev pub add_queries : ℕ → DailyUsage → DailyUsage
add_queries queries u = record u { search_queries = u.search_queries + queries }

unfoldable pub record_search_usage : TenantScope → String → ℕ → List DailyUsage → List DailyUsage
record_search_usage scope date queries days =
    if queries == 0
    then days
    else upsert (is_day scope date) (add_queries queries) (add_queries queries (new_day scope date))
        days

abbrev pub is_type : TenantScope → String → String → ContentTypeUsage → Bool
is_type scope date content_type u =
    (u.scope.org_id == scope.org_id && u.scope.user_id == scope.user_id)
    && (u.scope.space_id == scope.space_id && (u.date === date && u.content_type === content_type))

abbrev pub add_count : ContentTypeUsage → ContentTypeUsage
add_count u = record u { count = u.count + 1 }

-- One upsert for each source; the code adds up the sources of a type first.
abbrev pub count_types :
    TenantScope → String → List Source → List ContentTypeUsage → List ContentTypeUsage
count_types scope date [] types = types
count_types scope date (s ∷ completed) types = count_types scope date completed (
    upsert (is_type scope date s.content_type) add_count
      (record { scope = scope; date = date; content_type = s.content_type; count = 1 }) types)

-- The repeated ids that the code takes out of its lists name no row twice.
abbrev pub completes : TenantScope → List ℕ → Source → Bool
completes scope ids s =
    targets scope ids s
    && (is_completed s.extraction_status && not s.meta.analytics_completion_recorded)

abbrev pub fails : TenantScope → List ℕ → Source → Bool
fails scope ids s =
    targets scope ids s && (is_failed s.extraction_status && not s.meta.analytics_failure_recorded)

abbrev pub completion_recorded : Source → Source
completion_recorded s = record s { meta = record s.meta { analytics_completion_recorded = true } }

abbrev pub failure_recorded : Source → Source
failure_recorded s = record s { meta = record s.meta { analytics_failure_recorded = true } }

abbrev pub source_ids_of : List Source → List ℕ
source_ids_of t = map (λ (s : Source). s.id) t

abbrev pub token_sum : List Source → ℕ
token_sum [] = 0
token_sum (s ∷ t) = s.token_count + token_sum t

abbrev pub is_empty {ℓ} : {A : Type ℓ} → List A → Bool
is_empty [] = true
is_empty (x ∷ xs) = false

pub record UsageInput : Type 0 where
  pub tokens : ℕ
  pub completed_source_ids : List ℕ
  pub failed_source_ids : List ℕ

abbrev pub accounted_tokens : UsageInput → List Source → ℕ
accounted_tokens input (s ∷ completed) = token_sum (s ∷ completed)
accounted_tokens input [] =
    if is_empty input.completed_source_ids && is_empty input.failed_source_ids
    then input.tokens
    else 0

-- `where id in (…)`, which sets one flag.
abbrev pub mark_recorded : (Source → Source) → List Source → List Source → List Source
mark_recorded flag rows t = update_where (λ s. contains s.id (source_ids_of rows)) flag t

unfoldable pub record_ingestion_usage :
    (List ℕ → ℕ) → TenantScope → String → UsageInput → Usage × List Source → Usage × List Source
record_ingestion_usage memories scope date input (usage, t) =
    let completed = select_where (completes scope input.completed_source_ids) t in
    let failed = select_where (fails scope input.failed_source_ids) t in
    let tokens = accounted_tokens input completed in
    let add =
      add_ingestion tokens (length completed) (length failed)
        (if is_empty completed then 0 else memories (source_ids_of completed)) in
    if tokens == 0 && (is_empty completed && is_empty failed) then (usage, t) else (
      record {
        daily = upsert (is_day scope date) add (add (new_day scope date)) usage.daily;
        content_types = count_types scope date completed usage.content_types;
      },
      mark_recorded failure_recorded failed (mark_recorded completion_recorded completed t),
    )
