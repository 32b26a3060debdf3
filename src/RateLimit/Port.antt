-- ===== src/RateLimit/Port.antt =====
-- apps/api/src/integrations/rate-limit/port.ts: the request and the answer of an org limiter. A
-- limit of -1 switches its window off.
use hono_crosmos.Base.{ℕ, String, ◌===◌, string_eq, Bool, not, Option, if◌then◌else◌}
use hono_crosmos.Base.Int.{ℤ, negsuc, eqb_ℤ}

pub record RateLimitCheck : Type 0 where
  pub org_id : ℕ
  pub rpm_limit : ℤ
  pub daily_limit : ℤ
  pub namespace : Option String

pub data Verdict : Type 0 where
  allowed : Verdict
  rate_limit_error : (scope : String) (limit : ℤ) (count : ℕ) → Verdict

abbrev pub retry_after_seconds : String → ℕ
retry_after_seconds scope = if scope === "rpm" then 60 else 3600

abbrev pub is_capped : ℤ → Bool
is_capped limit = not (eqb_ℤ limit (negsuc 0))
