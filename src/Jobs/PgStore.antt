-- ===== src/Jobs/PgStore.antt =====
-- apps/api/src/integrations/job-store/pg.ts: the API worker's side of the jobs table.
use hono_crosmos.Base.{
  ℕ, ◌+◌, ◌*◌, String, string_eq, ◌==◌, Bool, true, false, not, ◌&&◌, ◌||◌, Option, none, some,
  List, [], ◌∷◌, ◌++◌, ltb, if◌then◌else◌,
}
use hono_crosmos.Base.Int.{ℤ, pos, ltb_ℤ}
use hono_crosmos.Base.Tables.{count_where, update_where}
use hono_crosmos.Jobs.Row.{
  IngestionJobStatus, pending, failed, cancelled, Job, UpdateStatusOptions, is_processing,
  is_pending, is_in_flight, has_id, job,
}
use hono_crosmos.Jobs.Consumer.{status_row}

-- `time > now() - stale minutes`; an unknown time is not.
abbrev pub after_cutoff : ℕ → ℕ → ℕ → Bool
after_cutoff stale now time = ltb now (time + stale * 60_000)

abbrev pub before_cutoff : ℕ → ℕ → ℕ → Bool
before_cutoff stale now time = ltb (time + stale * 60_000) now

abbrev pub if_known : (ℕ → Bool) → Option ℕ → Bool
if_known p none = false
if_known p (some time) = p time

abbrev pub active_within_window : ℕ → ℕ → Job → Bool
active_within_window stale now j =
    (is_pending j.status && after_cutoff stale now j.created_at)
    || (is_processing j.status && if_known (after_cutoff stale now) j.started_at)

pub record NewJob : Type 0 where
  pub job_id : String
  pub org_id : ℕ
  pub space_id : ℕ
  pub user_id : ℕ
  pub source_ids : List ℕ

abbrev pub new_row : NewJob → ℕ → Job
new_row input now = record {
  id = input.job_id;
  org_id = input.org_id;
  space_id = input.space_id;
  user_id = input.user_id;
  status = pending;
  source_ids = input.source_ids;
  result = none;
  error_message = none;
  current_stage = none;
  created_at = now;
  started_at = none;
  completed_at = none;
}

-- A second row under one primary key is an error that writes nothing, `none`.
unfoldable pub create : NewJob → ℕ → List Job → Option (List Job)
create input now t = elim (job input.job_id t) [
  | none ↦ some (t ++ new_row input now ∷ [])
  | some _ ↦ none
]

unfoldable pub count_active : ℕ → ℕ → ℕ → List Job → ℕ
count_active stale user now t =
    count_where (λ j. j.user_id == user && active_within_window stale now j) t

abbrev pub inserted : Option (List Job) → Option (Bool × List Job)
inserted none = none
inserted (some t) = some (true, t)

-- The guarded insert: whether it took place, and the table after it.
unfoldable pub create_with_active_cap : ℕ → NewJob → ℤ → ℕ → List Job → Option (Bool × List Job)
create_with_active_cap stale input max_active now t =
    if ltb_ℤ max_active (pos 0)
    then inserted (create input now t)
    else if ltb_ℤ (pos (count_active stale input.user_id now t)) max_active
    then inserted (create input now t)
    else some (false, t)

abbrev differs : Option ℕ → ℕ → Bool
differs none value = false
differs (some wanted) value = not (value == wanted)

-- `get`: a row of another user or another org is as good as missing.
unfoldable pub get_job : String → Option ℕ → Option ℕ → List Job → Option Job
get_job id user org t = elim (job id t) [
  | none ↦ none
  | some row ↦
      if differs user row.user_id then none else if differs org row.org_id then none else some row
]

-- The API's own `updateStatus`, which has no guard on the old status.
unfoldable pub update_status :
    String → IngestionJobStatus → UpdateStatusOptions → ℕ → List Job → List Job
update_status id status opts now t = update_where (has_id id) (status_row status opts now) t

abbrev is_cancelled_job : Option Job → Bool
is_cancelled_job none = false
is_cancelled_job (some j) = elim j.status [ cancelled ↦ true | _ ↦ false ]

unfoldable pub is_cancelled : String → List Job → Bool
is_cancelled id t = is_cancelled_job (job id t)

abbrev pub cancelled_row : String → ℕ → Job → Job
cancelled_row reason now j = record j {
  status = cancelled;
  completed_at = some now;
  error_message = some reason;
  current_stage = none;
}

unfoldable pub cancel_where : (Job → Bool) → String → ℕ → List Job → ℕ × List Job
cancel_where hit reason now t = (count_where hit t, update_where hit (cancelled_row reason now) t)

unfoldable pub cancel_jobs_for_space : ℕ → ℕ → List Job → ℕ × List Job
unfolding cancel_where
cancel_jobs_for_space space now t =
    cancel_where (λ j. j.space_id == space && is_in_flight j.status) "Job cancelled: space deleted"
      now t

unfoldable pub cancel_jobs_for_org : ℕ → ℕ → List Job → ℕ × List Job
unfolding cancel_where
cancel_jobs_for_org org now t =
    cancel_where (λ j. j.org_id == org && is_in_flight j.status)
      "Job cancelled: organization deleted" now t

unfoldable pub count_active_ingestion_jobs : ℕ → ℕ → List Job → ℕ
count_active_ingestion_jobs stale now t = count_where (active_within_window stale now) t

abbrev pub is_stale : ℕ → ℕ → Job → Bool
is_stale stale now j =
    (is_processing j.status && if_known (before_cutoff stale now) j.started_at)
    || (is_pending j.status && before_cutoff stale now j.created_at)

abbrev pub reaped_row : ℕ → Job → Job
reaped_row now j = record j {
  status = failed;
  completed_at = some now;
  current_stage = none;
  error_message = some "Reaped: no progress within staleness window (orphaned worker)";
}

unfoldable pub reap_stale_ingestion_jobs : ℕ → ℕ → List Job → ℕ × List Job
reap_stale_ingestion_jobs stale now t =
    (count_where (is_stale stale now) t, update_where (is_stale stale now) (reaped_row now) t)
