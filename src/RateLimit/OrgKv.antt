-- ===== src/RateLimit/OrgKv.antt =====
-- apps/api/src/integrations/rate-limit/kv.ts. The KV namespace is a parameter: a store with reads
-- and writes, of which a write leaves the other keys alone. Counters are stored as numbers: that
-- `Number(String(n))` is `n` is left to the language.
use Prim.Native.String.{◌++◌ as append}
use hono_crosmos.Base.{
  ℕ, ◌+◌, ◌*◌, ◌/◌, ◌<◌, ◌≡◌, ◌≢◌, String, ◌===◌, string_eq, Bool, true, false, Option, none, some,
  List, [], ◌∷◌, ◌++◌, if◌then◌else◌,
}
use hono_crosmos.Base.Int.{ℤ, pos, leb_ℤ}
use hono_crosmos.Base.Decimal.{to_string}
use hono_crosmos.RateLimit.Port.{RateLimitCheck, Verdict, allowed, rate_limit_error, is_capped}

pub record KvNamespace : Type 1 where
  pub Store : Type 0
  -- The value of a key at an instant in milliseconds.
  pub read : Store → ℕ → String → Option ℕ
  -- A write at an instant, with its `expirationTtl` in seconds.
  pub put : ℕ → String → ℕ → ℕ → Store → Store
  pub read-put_ne :
      (s : Store) (now later ttl value : ℕ) (key other : String)
      → key ≢ other
      → read (put now key value ttl s) later other ≡ read s later other

-- That a write is read from its instant on until it expires. Cloudflare does not promise this of reads
-- at another location, nor within the time that a location may cache an earlier read; it is a
-- hypothesis where it is used.
pub record IsImmediate (kv : KvNamespace) : Type 0 where
  pub read-put_self :
      (s : kv.Store) (now later ttl value : ℕ) (key : String)
      → later < now + ttl * 1000
      → kv.read (kv.put now key value ttl s) later key ≡ some value

abbrev base_prefix : String → String → String
base_prefix ns base =
    if ns === ""
    then append "rl:" (append base ":")
    else append "rl:" (append ns (append ":" (append base ":")))

unfoldable pub window_prefix : String → Option String → String
window_prefix base none = append "rl:" (append base ":")
window_prefix base (some ns) = base_prefix ns base

pub record KvWindow : Type 0 where
  pub key : String
  pub limit : ℤ
  pub scope : String
  pub ttl_seconds : ℕ

unfoldable pub kv_key : String → RateLimitCheck → ℕ → String
kv_key base input bucket =
    append (window_prefix base input.namespace)
      (append (to_string input.org_id) (append ":" (to_string bucket)))

abbrev kv_window : Bool → String → RateLimitCheck → ℤ → ℕ → ℕ → List KvWindow
kv_window false scope input limit bucket ttl = []
kv_window true scope input limit bucket ttl =
    record { key = kv_key scope input bucket; limit = limit; scope = scope; ttl_seconds = ttl } ∷ []

-- `now` in seconds.
unfoldable pub kv_windows : RateLimitCheck → ℕ → List KvWindow
kv_windows input now =
    kv_window (is_capped input.rpm_limit) "rpm" input input.rpm_limit (now / 60) 120
    ++ kv_window (is_capped input.daily_limit) "day" input input.daily_limit (now / 86_400) 172_800

abbrev pub count_of : Option ℕ → ℕ
count_of none = 0
count_of (some n) = n

-- `exceeded` keeps the first window over its limit.
abbrev pub first_exceeded : KvWindow → ℕ → Verdict → Verdict
first_exceeded w next later =
    if leb_ℤ (pos next) w.limit then later else rate_limit_error w.scope w.limit next

module _ (kv : KvNamespace) where
  open kv use {Store, read, put}

  -- All reads are made before any write.
  unfoldable pub currents : List KvWindow → ℕ → Store → List (KvWindow × ℕ)
  currents [] now s = []
  currents (w ∷ ws) now s = (w, count_of (read s now w.key) + 1) ∷ currents ws now s

  unfoldable pub exceeded : List (KvWindow × ℕ) → Verdict
  exceeded [] = allowed
  exceeded ((w, next) ∷ ws) = first_exceeded w next (exceeded ws)

  -- The writes, in order, at the instant at which they land. A write that fails is logged only.
  unfoldable pub write_all : List (KvWindow × ℕ) → ℕ → Store → Store
  write_all [] now s = s
  write_all ((w, next) ∷ ws) now s = write_all ws now (put now w.key next w.ttl_seconds s)

  -- `KvRateLimiter.check`: the verdict and the writes that it schedules. If a read fails the request
  -- is allowed and nothing is written.
  unfoldable pub check_kv : Bool → RateLimitCheck → ℕ → Store → Verdict × List (KvWindow × ℕ)
  unfolding currents exceeded
  check_kv reads_fail input now s =
      let nexts = currents (kv_windows input (now / 1000)) now s in
      if reads_fail then (allowed, []) else (exceeded nexts, nexts)

  -- A check whose writes are awaited, as they are where no scheduler was given.
  unfoldable pub check_and_write : RateLimitCheck → ℕ → Store → Verdict × Store
  check_and_write input now s =
      let (verdict, writes) = check_kv false input now s in (verdict, write_all writes now s)
