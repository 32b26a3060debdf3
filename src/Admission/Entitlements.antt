-- ===== src/Admission/Entitlements.antt =====
-- packages/runtime/src/entitlements.ts. A record of entitlements is a map from names to values; a
-- number is an integer, and -1 means no limit. The overrides of an org are none when its column
-- holds no object. Names that every JavaScript object has are not looked up as plans.
use hono_crosmos.Base.{
  ℕ, String, ◌===◌, string_eq, Bool, true, false, Option, none, some, [], ◌∷◌, ◌++◌, ltb,
  if◌then◌else◌,
}
use hono_crosmos.Base.Dict as Dict
use hono_crosmos.Base.Dict.{Dict}
use hono_crosmos.Base.Int.{ℤ, pos, negsuc}

pub data EntitlementValue : Type 0 where
  number : ℤ → EntitlementValue
  boolean : Bool → EntitlementValue
  text : String → EntitlementValue

abbrev pub Entitlements : Type 0
Entitlements = Dict String EntitlementValue

-- Times are milliseconds.
pub record OrganizationEntitlementSource : Type 0 where
  pub plan : String
  pub granted_plan : Option String
  pub granted_plan_expires_at : Option ℕ
  pub entitlements : Option Entitlements

abbrev common_features : Entitlements
common_features =
    ("graph_retrieval", boolean true)
    ∷ ("cross_encoder_reranking", boolean true)
    ∷ ("custom_embeddings", boolean true)
    ∷ ("audit_log", boolean true)
    ∷ ("sso", boolean true)
    ∷ ("lazy_rerank", boolean false)
    ∷ ("prompt_caching", boolean true)
    ∷ ("max_graph_depth", number (pos 3))
    ∷ ("retention_days", number (negsuc 0))
    ∷ ("max_members", number (negsuc 0))
    ∷ ("max_memory_spaces", number (negsuc 0))
    ∷ ("max_sources_per_space", number (negsuc 0))
    ∷ ("api_keys_per_user", number (negsuc 0))
    ∷ ("zeroentropy_rerank_candidates", number (pos 15))
    ∷ []

-- The common features with the six limits of a plan.
abbrev plan_of : ℤ → ℤ → ℤ → ℤ → ℤ → ℤ → Entitlements
plan_of tokens queries rpm per_day mgmt_rpm mgmt_per_day =
    common_features
    ++ (("monthly_tokens_ingested", number tokens)
        ∷ ("monthly_search_queries", number queries)
        ∷ ("rate_limit_rpm", number rpm)
        ∷ ("rate_limit_per_day", number per_day)
        ∷ ("mgmt_rate_limit_rpm", number mgmt_rpm)
        ∷ ("mgmt_rate_limit_per_day", number mgmt_per_day)
        ∷ [])

abbrev pub free : Entitlements
free = plan_of (pos 500_000) (pos 5_000) (pos 10) (pos 1_000) (pos 300) (pos 30_000)

abbrev pub plan_defaults : Dict String Entitlements
plan_defaults =
    ("free", free)
    ∷ (
      "developer",
      plan_of (pos 3_000_000) (pos 30_000) (pos 60) (pos 10_000) (pos 1_200) (pos 150_000),
    )
    ∷ (
      "pro",
      plan_of (pos 40_000_000) (pos 200_000) (pos 300) (pos 50_000) (pos 3_000) (pos 500_000),
    )
    ∷ ("enterprise", plan_of (negsuc 0) (negsuc 0) (negsuc 0) (negsuc 0) (negsuc 0) (negsuc 0))
    ∷ []

abbrev expiring : String → ℕ → ℕ → Option String
expiring plan expires now = if ltb now expires then some plan else none

-- An empty name counts as no granted plan.
abbrev granted : String → Option ℕ → ℕ → Option String
granted plan none now = none
granted plan (some expires) now = if plan === "" then none else expiring plan expires now

unfoldable pub active_granted_plan : OrganizationEntitlementSource → ℕ → Option String
active_granted_plan org now = elim org.granted_plan [
  | none ↦ none
  | some plan ↦ granted plan org.granted_plan_expires_at now
]

abbrev pub or_plan : Option String → String → String
or_plan none plan = plan
or_plan (some granted_plan) plan = granted_plan

abbrev pub or_free : Option Entitlements → Entitlements
or_free none = free
or_free (some e) = e

-- `{ ...base, ...overrides }`.
unfoldable pub over : Entitlements → Entitlements → Entitlements
over base [] = base
over base ((key, value) ∷ overrides) = over (Dict.set key value base) overrides

abbrev pub or_nothing : Option Entitlements → Entitlements
or_nothing none = []
or_nothing (some overrides) = overrides

unfoldable pub resolve_entitlements : OrganizationEntitlementSource → ℕ → Entitlements
resolve_entitlements org now =
    let base_plan = or_plan (active_granted_plan org now) org.plan in
    over (or_free (Dict.get base_plan plan_defaults)) (or_nothing org.entitlements)

-- `typeof raw === 'number' ? raw : -1`.
abbrev pub limit_of : Option EntitlementValue → ℤ
limit_of none = negsuc 0
limit_of (some (number n)) = n
limit_of (some (boolean b)) = negsuc 0
limit_of (some (text s)) = negsuc 0
