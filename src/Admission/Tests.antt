-- ===== src/Admission/Tests.antt =====
-- The gates at a concrete request, over the Durable Object limiter.
use hono_crosmos.Base.{◌+◌, String, ◌≡◌, ◌↔◌, refl, string_eq, false, some, List, [], ◌∷◌}
use hono_crosmos.Base.Dict as Dict
use hono_crosmos.Base.Dict.{IsDistinct}
use hono_crosmos.Base.Int.{pos}
use hono_crosmos.Base.Result.{ok, done}
use hono_crosmos.Base.Tables.{first_where}
use hono_crosmos.RateLimit.OrgDo.{Namespace, answered, check_do}
use hono_crosmos.Admission.Entitlements.{
  number, OrganizationEntitlementSource, plan_defaults, resolve_entitlements, or_free, or_nothing,
  limit_of,
}
use hono_crosmos.Admission.Resolve.{IsInForce, or_else, get-resolve_entitlements}
use hono_crosmos.Admission.Quota.{Organization, DailyUsage, monthly_tokens_ingested, check_quota}
use hono_crosmos.Admission.Preflight.{
  RateLimiter, OperationalLimits, MemorySpace, Tables, PreflightInput, preflight,
}
use hono_crosmos.Admission.Gates.{
  HasRoom, entitled, used_in_month, check_quota_iff, IsCharged, Admits, preflight_iff,
}

abbrev source : OrganizationEntitlementSource
source = record {
  plan = "free";
  granted_plan = some "pro";
  granted_plan_expires_at = some 9000;
  entitlements = some (("monthly_tokens_ingested", number (pos 100)) ∷ []);
}

abbrev organization : Organization
organization = record { id = 1; source = source }

abbrev usage : List DailyUsage
usage = record { org_id = 1; date = 20; tokens_ingested = 60; search_queries = 3 } ∷ []

get-resolve_entitlements_example :
    (plan : String) × IsInForce source 5000 plan
    × ((key : String)
        → Dict.get key (resolve_entitlements source 5000)
          ≡ or_else
              (Dict.get key (or_nothing source.entitlements))
              (Dict.get key (or_free (Dict.get plan plan_defaults))))
unfolding Dict.get
get-resolve_entitlements_example = get-resolve_entitlements source 5000 (refl, tt)

check_quota_iff_example :
    (plan : String) × IsInForce source 5000 plan
    × ((check_quota 1 monthly_tokens_ingested 40 5000 1 (organization ∷ []) usage ≡ ok done)
        ↔ HasRoom
            (limit_of (entitled source plan "monthly_tokens_ingested"))
            (used_in_month 1 monthly_tokens_ingested 1 usage + 40))
unfolding first_where Dict.get
check_quota_iff_example =
    check_quota_iff 1 monthly_tokens_ingested 40 5000 1 (organization ∷ []) usage organization refl
      (refl, tt)

abbrev limiter : RateLimiter Namespace
limiter = record { check = λ input now s. check_do answered input now s }

abbrev limits : OperationalLimits
limits = record { max_pending_jobs_per_user = 2; max_queue_depth = 10; stale_job_minutes = 5 }

abbrev space : MemorySpace
space = record { uuid = "space"; org_id = 1; is_deleted = false }

abbrev tables : Tables
tables = record {
  organizations = organization ∷ [];
  usage = usage;
  jobs = [];
  spaces = space ∷ [];
  month_start = 1;
}

abbrev request : PreflightInput
request = record {
  org_id = 1;
  user_id = 3;
  space_uuid = "space";
  incoming_tokens = 40;
  skip_plan_rate_limit = false;
}

preflight_iff_example :
    (((preflight limiter limits request 5000 tables []).0 ≡ ok space)
      ↔ Admits limiter limits request 5000 tables [] space)
    × IsCharged limiter request 5000 tables [] (preflight limiter limits request 5000 tables []).1
preflight_iff_example = preflight_iff limiter limits request 5000 tables [] space
