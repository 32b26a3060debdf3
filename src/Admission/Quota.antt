-- ===== src/Admission/Quota.antt =====
-- apps/api/src/features/orgs/entitlements.ts: the monthly quota. The start of the month comes from
-- the database's clock and is an argument; dates are days.
use hono_crosmos.Base.{
  ℕ, ◌+◌, ◌==◌, String, string_eq, ◌&&◌, none, some, List, [], ◌∷◌, leb, if◌then◌else◌,
}
use hono_crosmos.Base.Dict as Dict
use hono_crosmos.Base.Int.{ℤ, pos, negsuc, ltb_ℤ, leb_ℤ, eqb_ℤ}
use hono_crosmos.Base.Result.{Result, ok, thrown, Done, done}
use hono_crosmos.Base.Tables.{first_where}
use hono_crosmos.Admission.Entitlements.{
  Entitlements, OrganizationEntitlementSource, resolve_entitlements, limit_of,
}

pub record Organization : Type 0 where
  pub id : ℕ
  pub source : OrganizationEntitlementSource

pub record DailyUsage : Type 0 where
  pub org_id : ℕ
  pub date : ℕ
  pub tokens_ingested : ℕ
  pub search_queries : ℕ

pub data QuotaKey : Type 0 where
  monthly_tokens_ingested : QuotaKey
  monthly_search_queries : QuotaKey

abbrev pub key_name : QuotaKey → String
key_name monthly_tokens_ingested = "monthly_tokens_ingested"
key_name monthly_search_queries = "monthly_search_queries"

abbrev pub column : QuotaKey → DailyUsage → ℕ
column monthly_tokens_ingested row = row.tokens_ingested
column monthly_search_queries row = row.search_queries

pub data QuotaError : Type 0 where
  organization_not_found : QuotaError
  quota_exceeded : (key : String) (limit : ℤ) (used : ℕ) → QuotaError

unfoldable pub get_entitlements : ℕ → ℕ → List Organization → Result QuotaError Entitlements
get_entitlements org now organizations = elim (first_where (λ o. o.id == org) organizations) [
  | none ↦ thrown organization_not_found
  | some o ↦ ok (resolve_entitlements o.source now)
]

-- The sum over the rows of an org from the start of the month on, 0 when there are none.
unfoldable pub get_monthly_usage : ℕ → QuotaKey → ℕ → List DailyUsage → ℕ
get_monthly_usage org key month_start [] = 0
get_monthly_usage org key month_start (row ∷ rows) =
    let rest = get_monthly_usage org key month_start rows in
    if row.org_id == org && leb month_start row.date then column key row + rest else rest

unfoldable pub within : QuotaKey → ℕ → ℤ → ℕ → Result QuotaError Done
within key increment limit used =
    if eqb_ℤ limit (negsuc 0)
    then ok done
    else if ltb_ℤ limit (pos (used + increment))
    then thrown (quota_exceeded (key_name key) limit used)
    else ok done

unfoldable pub check_quota :
    ℕ → QuotaKey → ℕ → ℕ → ℕ → List Organization → List DailyUsage → Result QuotaError Done
check_quota org key increment now month_start organizations usage =
    elim (get_entitlements org now organizations) [
      | thrown error ↦ thrown error
      | ok entitlements ↦
          within key increment (limit_of (Dict.get (key_name key) entitlements))
            (get_monthly_usage org key month_start usage)
    ]

-- The count quota of `checkCountQuota`, for any name.
unfoldable pub check_count_quota : ℕ → String → ℕ → ℕ → List Organization → Result QuotaError Done
check_count_quota org key current_count now organizations =
    elim (get_entitlements org now organizations) [
      | thrown error ↦ thrown error
      | ok entitlements ↦
          let limit = limit_of (Dict.get key entitlements) in
          if eqb_ℤ limit (negsuc 0)
          then ok done
          else if leb_ℤ limit (pos current_count)
          then thrown (quota_exceeded key limit current_count)
          else ok done
    ]
