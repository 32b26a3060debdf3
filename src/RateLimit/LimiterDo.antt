-- ===== src/RateLimit/LimiterDo.antt =====
-- apps/api/src/integrations/rate-limit/limiter-do.ts. One instance of the Durable Object: its two
-- maps are the state, the clock and the random token are arguments of each request. Times and
-- window lengths are natural numbers, a window length is positive in every caller.
use hono_crosmos.Base.{
  ℕ, ◌+◌, ◌*◌, ◌/◌, String, ◌===◌, string_eq, ◌==◌, Bool, true, false, ◌&&◌, Option, none, some,
  List, [], ◌∷◌, ltb, leb, if◌then◌else◌, length,
}
use hono_crosmos.Base.Int.{ℤ, pos, leb_ℤ}
use hono_crosmos.Base.Dict.{Dict, get, set, delete, has, retain}

pub record Counter : Type 0 where
  pub bucket : ℕ
  pub count : ℕ

pub record Limiter : Type 0 where
  pub counters : Dict String Counter
  pub slots : Dict String ℕ

abbrev pub new_limiter : Limiter
new_limiter = record { counters = []; slots = [] }

pub record Ticked : Type 0 where
  pub success : Bool
  pub count : ℕ

pub record Window : Type 0 where
  pub scope : String
  pub limit : ℤ
  pub window_seconds : ℕ

pub record LimitBody : Type 0 where
  pub limit : Option ℤ
  pub window_seconds : Option ℕ
  pub windows : Option (List Window)

pub record AcquireBody : Type 0 where
  pub limit : ℕ
  pub ttl_seconds : ℕ
  pub lease_key : Option String

-- The JSON that a handler reads, at the type that it reads it: `release` alone catches a body
-- that is no JSON, `none`.
pub record Request : Type 0 where
  pub path : String
  pub limit_body : LimitBody
  pub acquire_body : AcquireBody
  pub release_body : Option (Option String)

pub data Response : Type 0 where
  ticked : Ticked → Response
  all_ticked : Bool → List (String × Ticked) → Response
  granted : (token : String) (reused : Bool) → Response
  refused : Response
  released : Bool → Response

abbrev pub or_else {ℓ} : {A : Type ℓ} → Option A → A → A
or_else none d = d
or_else (some a) d = a

-- The count after one more request of a window.
abbrev pub next_count : Option Counter → ℕ → ℕ
next_count none bucket = 1
next_count (some c) bucket = if c.bucket == bucket then c.count + 1 else 1

unfoldable pub tick : String → ℤ → ℕ → ℕ → Limiter → Ticked × Limiter
tick name limit window_seconds now s =
    let bucket = now / window_seconds in
    let count = next_count (get name s.counters) bucket in
    (
      record { success = leb_ℤ (pos count) limit; count = count },
      record s { counters = set name (record { bucket = bucket; count = count }) s.counters },
    )

-- `body.windows.map`, in order over the one state.
unfoldable pub tick_all : List Window → ℕ → Limiter → List (String × Ticked) × Limiter
tick_all [] now s = ([], s)
tick_all (w ∷ ws) now s =
    let (r, s') = tick w.scope w.limit w.window_seconds now s in
    let (rs, s'') = tick_all ws now s' in ((w.scope, r) ∷ rs, s'')

abbrev pub every_success : List (String × Ticked) → Bool
every_success [] = true
every_success ((_, r) ∷ rs) = r.success && every_success rs

limit_windows : Option (List Window) → LimitBody → ℕ → Limiter → Response × Limiter
limit_windows none body now s =
    let (r, s') =
      tick "default" (or_else body.limit (pos 0)) (or_else body.window_seconds 60) now s in
    (ticked r, s')
limit_windows (some ws) body now s =
    let (rs, s') = tick_all ws now s in (all_ticked (every_success rs) rs, s')

-- `now_ms` is `Date.now()`.
unfoldable pub limit : LimitBody → ℕ → Limiter → Response × Limiter
unfolding limit_windows
limit body now_ms s = limit_windows body.windows body (now_ms / 1000) s

unfoldable pub purge : ℕ → Limiter → Limiter
purge now s = record s { slots = retain (λ exp. ltb now exp) s.slots }

-- The part of `acquire` after the lease key was looked up among the live slots.
unfoldable pub acquire_new : AcquireBody → ℕ → String → Limiter → Response × Limiter
acquire_new body expiry uuid s =
    let token = or_else body.lease_key uuid in
    if leb body.limit (length s.slots)
    then (refused, s)
    else (granted token false, record s { slots = set token expiry s.slots })

unfoldable pub acquire_live :
    Option String → AcquireBody → ℕ → String → Limiter → Response × Limiter
unfolding acquire_new
acquire_live none body expiry uuid s = acquire_new body expiry uuid s
acquire_live (some key) body expiry uuid s =
    if has key s.slots
    then (granted key true, record s { slots = set key expiry s.slots })
    else acquire_new body expiry uuid s

-- `uuid` is what `crypto.randomUUID()` would give.
unfoldable pub acquire : AcquireBody → ℕ → String → Limiter → Response × Limiter
unfolding acquire_live purge
acquire body now uuid s =
    acquire_live body.lease_key body (now + body.ttl_seconds * 1000) uuid (purge now s)

-- The loop for the soonest expiry: `none` is `undefined` with `Infinity`.
unfoldable pub oldest_slot : Dict String ℕ → Option (String × ℕ) → Option (String × ℕ)
oldest_slot [] best = best
oldest_slot ((key, exp) ∷ m) none = oldest_slot m (some (key, exp))
oldest_slot ((key, exp) ∷ m) (some (k, e)) =
    oldest_slot m (if ltb exp e then some (key, exp) else some (k, e))

unfoldable pub release_oldest : Option (String × ℕ) → Limiter → Response × Limiter
release_oldest none s = (released false, s)
release_oldest (some (key, _)) s = (released true, record s { slots = delete key s.slots })

unfoldable pub release_token : Option String → Limiter → Response × Limiter
unfolding release_oldest oldest_slot
release_token (some token) s =
    (released (has token s.slots), record s { slots = delete token s.slots })
release_token none s = release_oldest (oldest_slot s.slots none) s

unfoldable pub release : Option (Option String) → ℕ → Limiter → Response × Limiter
unfolding release_token purge
release body now s = release_token (or_else body none) (purge now s)

unfoldable pub fetch : Request → ℕ → String → Limiter → Response × Limiter
unfolding limit acquire release
fetch request now uuid s =
    if request.path === "/acquire"
    then acquire request.acquire_body now uuid s
    else if request.path === "/release"
    then release request.release_body now s
    else limit request.limit_body now s

-- What one instance makes of the requests that reach it, in the order in which it takes them.
unfoldable pub serve : List (Request × ℕ × String) → Limiter → Limiter
serve [] s = s
serve ((request, now, uuid) ∷ rest) s = serve rest (fetch request now uuid s).1
