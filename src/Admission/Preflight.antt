-- ===== src/Admission/Preflight.antt =====
-- apps/api/src/features/sources/gates.ts: the gates before an ingestion, over any rate limiter, with
-- `enforcePlanRateLimit` of apps/api/src/integrations/rate-limit/index.ts.
use hono_crosmos.Base.{
  ℕ, ◌==◌, String, ◌===◌, string_eq, Bool, not, ◌&&◌, Option, none, some, List, leb, if◌then◌else◌,
}
use hono_crosmos.Base.Dict as Dict
use hono_crosmos.Base.Int.{ℤ}
use hono_crosmos.Base.Result.{Result, ok, thrown, Done, done}
use hono_crosmos.Base.Tables.{first_where}
use hono_crosmos.RateLimit.Port.{RateLimitCheck, Verdict, allowed, rate_limit_error}
use hono_crosmos.Jobs.Row.{Job}
use hono_crosmos.Jobs.PgStore.{count_active, count_active_ingestion_jobs}
use hono_crosmos.Admission.Entitlements.{Entitlements, limit_of}
use hono_crosmos.Admission.Quota.{
  Organization, DailyUsage, monthly_tokens_ingested, QuotaError, organization_not_found,
  quota_exceeded, get_entitlements, check_quota,
}

-- What a limiter offers: a check at a time in milliseconds, which may change its store.
pub record RateLimiter (S : Type 0) : Type 0 where
  pub check : RateLimitCheck → ℕ → S → Verdict × S

pub record OperationalLimits : Type 0 where
  pub max_pending_jobs_per_user : ℕ
  pub max_queue_depth : ℕ
  pub stale_job_minutes : ℕ

pub record MemorySpace : Type 0 where
  pub uuid : String
  pub org_id : ℕ
  pub is_deleted : Bool

pub record Tables : Type 0 where
  pub organizations : List Organization
  pub usage : List DailyUsage
  pub jobs : List Job
  pub spaces : List MemorySpace
  pub month_start : ℕ

pub record PreflightInput : Type 0 where
  pub org_id : ℕ
  pub user_id : ℕ
  pub space_uuid : String
  pub incoming_tokens : ℕ
  pub skip_plan_rate_limit : Bool

pub data PreflightError : Type 0 where
  no_organization : PreflightError
  rate_limited : (scope : String) (limit : ℤ) (count : ℕ) → PreflightError
  queue_full : PreflightError
  too_many_pending : ℕ → PreflightError
  space_not_found : PreflightError
  over_quota : (key : String) (limit : ℤ) (used : ℕ) → PreflightError

unfoldable pub get_space_by_uuid : String → List MemorySpace → Option MemorySpace
get_space_by_uuid uuid spaces = first_where (λ s. not s.is_deleted && s.uuid === uuid) spaces

abbrev pub quota_response : Result QuotaError Done → MemorySpace → Result PreflightError MemorySpace
quota_response (ok u) space = ok space
quota_response (thrown organization_not_found) space = thrown no_organization
quota_response (thrown (quota_exceeded key limit used)) space = thrown (over_quota key limit used)

-- Gates 4 and 5: the space, which must be the org's, and the monthly quota.
unfoldable pub space_gates :
    PreflightInput → ℕ → Tables → Option MemorySpace → Result PreflightError MemorySpace
space_gates input now db none = thrown space_not_found
space_gates input now db (some space) =
    if not (space.org_id == input.org_id)
    then thrown space_not_found
    else quota_response
        (check_quota input.org_id monthly_tokens_ingested input.incoming_tokens now db.month_start
          db.organizations db.usage)
        space

-- Gates 2 and 3: the jobs in flight, of all and of the user.
unfoldable pub job_gates :
    OperationalLimits → PreflightInput → ℕ → Tables → Result PreflightError MemorySpace
job_gates limits input now db =
    let stale = limits.stale_job_minutes in
    let active_jobs = count_active stale input.user_id now db.jobs in
    if leb limits.max_queue_depth (count_active_ingestion_jobs stale now db.jobs)
    then thrown queue_full
    else if leb limits.max_pending_jobs_per_user active_jobs
    then thrown (too_many_pending active_jobs)
    else space_gates input now db (get_space_by_uuid input.space_uuid db.spaces)

abbrev pub verdict_response : Verdict → Result PreflightError Done
verdict_response allowed = ok done
verdict_response (rate_limit_error scope limit count) = thrown (rate_limited scope limit count)

unfoldable pub plan_check : Entitlements → ℕ → RateLimitCheck
plan_check entitlements org = record {
  org_id = org;
  rpm_limit = limit_of (Dict.get "rate_limit_rpm" entitlements);
  daily_limit = limit_of (Dict.get "rate_limit_per_day" entitlements);
  namespace = none;
}

abbrev pub after_gate :
    Result PreflightError Done
    → Result PreflightError MemorySpace
    → Result PreflightError MemorySpace
after_gate (ok u) later = later
after_gate (thrown error) later = thrown error

module _ {S : Type 0} (limiter : RateLimiter S) where
  unfoldable pub enforce_plan_rate_limit :
      ℕ → ℕ → List Organization → S → Result PreflightError Done × S
  enforce_plan_rate_limit org now organizations s = elim (get_entitlements org now organizations) [
    | thrown error ↦ (thrown no_organization, s)
    | ok entitlements ↦
        let (verdict, s') = limiter.check (plan_check entitlements org) now s in
        (verdict_response verdict, s')
  ]

  unfoldable pub rate_gate : PreflightInput → ℕ → Tables → S → Result PreflightError Done × S
  rate_gate input now db s =
      if input.skip_plan_rate_limit
      then (ok done, s)
      else enforce_plan_rate_limit input.org_id now db.organizations s

  unfoldable pub preflight :
      OperationalLimits → PreflightInput → ℕ → Tables → S → Result PreflightError MemorySpace × S
  preflight limits input now db s =
      let (gate, s') = rate_gate input now db s in
      (after_gate gate (job_gates limits input now db), s')
