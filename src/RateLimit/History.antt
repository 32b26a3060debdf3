-- ===== src/RateLimit/History.antt =====
-- do.ts against kv.ts: the checks of one org under one namespace, one after another, with evictions
-- of the Durable Object, whose state is in memory only.
use hono_crosmos.Base.{ℕ, ◌≤◌, ◌≡◌, String, string_eq, Option, none, List, [], ◌∷◌}
use hono_crosmos.Base.Int.{ℤ}
use hono_crosmos.Base.Dict.{get, set}
use hono_crosmos.RateLimit.LimiterDo.{Limiter, new_limiter, or_else}
use hono_crosmos.RateLimit.Port.{RateLimitCheck, Verdict}
use hono_crosmos.RateLimit.OrgDo.{Namespace, answered, key_for, check_do}
use hono_crosmos.RateLimit.OrgKv.{KvNamespace, check_and_write}

-- A check with the limits of the moment and the clock in milliseconds, or the loss of the org's
-- Durable Object instance from memory.
pub data Event : Type 0 where
  checked : (rpm daily : ℤ) (now : ℕ) → Event
  evicted : Event

module _ (org : ℕ) (ns : Option String) where
  abbrev pub check_of : ℤ → ℤ → RateLimitCheck
  check_of rpm daily = record { org_id = org; rpm_limit = rpm; daily_limit = daily; namespace = ns }

  -- The Durable Object limiter over a history: an eviction leaves a new instance.
  pub run_do : List Event → Namespace → List Verdict
  run_do [] objects = []
  run_do (checked rpm daily now ∷ h) objects =
      let (verdict, objects') = check_do answered (check_of rpm daily) now objects in
      verdict ∷ run_do h objects'
  run_do (evicted ∷ h) objects = run_do h (set (key_for org ns) new_limiter objects)

  -- The KV limiter, whose counters are cleared where the other's instance is evicted.
  pub run_kv : (kv : KvNamespace) → kv.Store → List Event → kv.Store → List Verdict
  run_kv kv blank [] s = []
  run_kv kv blank (checked rpm daily now ∷ h) s =
      let (verdict, s') = check_and_write kv (check_of rpm daily) now s in
      verdict ∷ run_kv kv blank h s'
  run_kv kv blank (evicted ∷ h) s = run_kv kv blank h blank

-- Time does not run back.
abbrev pub IsLater : ℕ → List Event → Type 0
IsLater last [] = Unit
IsLater last (checked rpm daily now ∷ h) = (last ≤ now) × IsLater now h
IsLater last (evicted ∷ h) = IsLater last h

-- No counter is in the store.
abbrev pub IsBlank : (kv : KvNamespace) → kv.Store → Type 0
IsBlank kv s = (t : ℕ) (key : String) → kv.read s t key ≡ none

abbrev instance_of : ℕ → Option String → Namespace → Limiter
instance_of org ns objects = or_else (get (key_for org ns) objects) new_limiter
