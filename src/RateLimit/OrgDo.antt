-- ===== src/RateLimit/OrgDo.antt =====
-- apps/api/src/integrations/rate-limit/do.ts. The Durable Object namespace is a map from instance
-- names to instances; an instance that was never reached is new.
use Prim.Native.String.{◌++◌ as append}
use hono_crosmos.Base.{
  ℕ, String, ◌===◌, string_eq, Bool, true, false, Option, none, some, List, [], ◌∷◌, ◌++◌,
  if◌then◌else◌,
}
use hono_crosmos.Base.Int.{ℤ}
use hono_crosmos.Base.Dict.{Dict, get, set}
use hono_crosmos.Base.Decimal.{to_string}
use hono_crosmos.RateLimit.LimiterDo.{
  Limiter, Window, LimitBody, Ticked, Response, all_ticked, new_limiter, limit, or_else,
}
use hono_crosmos.RateLimit.Port.{RateLimitCheck, Verdict, allowed, rate_limit_error, is_capped}

abbrev pub Namespace : Type 0
Namespace = Dict String Limiter

-- The fate of the one round trip, which the network decides.
pub data Wire : Type 0 where
  answered request_lost answer_lost : Wire

abbrev named : String → ℕ → String
named ns org_id =
    if ns === ""
    then append "rl:" (to_string org_id)
    else append "rl:" (append ns (append ":" (to_string org_id)))

-- An empty namespace is falsy, as a missing one.
unfoldable pub key_for : ℕ → Option String → String
key_for org_id none = append "rl:" (to_string org_id)
key_for org_id (some ns) = named ns org_id

abbrev window : Bool → String → ℤ → ℕ → List Window
window false scope limit seconds = []
window true scope limit seconds =
    record { scope = scope; limit = limit; window_seconds = seconds } ∷ []

unfoldable pub windows_of : RateLimitCheck → List Window
windows_of input =
    window (is_capped input.rpm_limit) "rpm" input.rpm_limit 60
    ++ window (is_capped input.daily_limit) "day" input.daily_limit 86_400

abbrev pub find_scope : String → List (String × Ticked) → Option Ticked
find_scope scope [] = none
find_scope scope ((j, r) ∷ rs) = if j === scope then some r else find_scope scope rs

-- The loop that throws on the first window whose result is a refusal.
abbrev pub verdict_on : Window → Option Ticked → Verdict → Verdict
verdict_on w none later = later
verdict_on w (some r) later = if r.success then later else rate_limit_error w.scope w.limit r.count

abbrev pub enforce : List Window → List (String × Ticked) → Verdict
enforce [] rs = allowed
enforce (w ∷ ws) rs = verdict_on w (find_scope w.scope rs) (enforce ws rs)

abbrev pub results : Response → List (String × Ticked)
results (all_ticked _ rs) = rs
results _ = []

unfoldable pub send : Wire → List Window → String → ℕ → Namespace → Verdict × Namespace
send request_lost ws key now objects = (allowed, objects)
send wire ws key now objects =
    let body : LimitBody = record { limit = none; window_seconds = none; windows = some ws } in
    let (response, instance') = limit body now (or_else (get key objects) new_limiter) in
    (
      elim wire [ answered ↦ enforce ws (results response) | _ ↦ allowed ],
      set key instance' objects,
    )

unfoldable pub check_windows : List Window → Wire → String → ℕ → Namespace → Verdict × Namespace
unfolding send
check_windows [] wire key now objects = (allowed, objects)
check_windows (w ∷ ws) wire key now objects = send wire (w ∷ ws) key now objects

-- `DoRateLimiter.check`; `now` is the instance's clock in milliseconds.
unfoldable pub check_do : Wire → RateLimitCheck → ℕ → Namespace → Verdict × Namespace
unfolding check_windows windows_of
check_do wire input now objects =
    check_windows (windows_of input) wire (key_for input.org_id input.namespace) now objects
