-- ===== src/RateLimit/Tests.antt =====
-- The limiters at concrete requests.
use hono_crosmos.Base.{
  ℕ, ◌+◌, ◌*◌, ◌<◌, ◌≡◌, ◌≢◌, refl, ◌⊎◌, ◌↔◌, String, ◌===◌, string_eq, beq_false, true, false,
  Option, none, some, List, [], ◌∷◌, arith, ltb, min, if◌then◌else◌, length,
}
use text.Mathlib.TextEquality.{eq_iff}
use hono_crosmos.Base.Int.{pos, negsuc, pos_part}
use hono_crosmos.Base.Dict.{get, set, delete, has, retain}
use hono_crosmos.RateLimit.LimiterDo.{
  Limiter, Window, Request, AcquireBody, granted, refused, released, new_limiter, acquire, release,
  serve,
}
use hono_crosmos.RateLimit.Lease.{
  live, is_granted, resumes, slots_after, acquire-granted, acquire-slots, release-token, IsWithin,
  serve-IsWithin,
}
use hono_crosmos.RateLimit.Window.{InWindow, tick_each, admitted, asked, tick_each-admitted}
use hono_crosmos.RateLimit.OrgKv.{KvNamespace}
use hono_crosmos.RateLimit.History.{Event, checked, evicted}

abbrev busy : Limiter
busy = record { counters = []; slots = ("a", 9000) ∷ ("b", 20000) ∷ [] }

abbrev ask : Option String → AcquireBody
ask key = record { limit = 2; ttl_seconds = 30; lease_key = key }

acquire_tests :
    ((acquire (ask none) 5000 "c" busy).0 ≡ refused)
    × ((acquire (ask none) 9000 "c" busy).0 ≡ granted "c" false)
    × ((acquire (ask (some "b")) 5000 "c" busy).0 ≡ granted "b" true)
    × ((release (some none) 5000 busy).1.slots ≡ ("b", 20000) ∷ [])
unfolding acquire release get set retain delete
acquire_tests = (refl, refl, refl, refl)

acquire-granted_example :
    (is_granted (acquire (ask (some "b")) 5000 "c" busy).0 ≡ true)
    ↔ ((resumes (ask (some "b")) 5000 busy ≡ true) ⊎ (length (live 5000 busy) < 2))
acquire-granted_example = acquire-granted (ask (some "b")) 5000 "c" busy

acquire-slots_example :
    (acquire (ask none) 9000 "c" busy).1.slots
    ≡ slots_after (acquire (ask none) 9000 "c" busy).0 39000 (live 9000 busy)
acquire-slots_example = acquire-slots (ask none) 9000 "c" busy

release-token_example :
    ((release (some (some "a")) 5000 busy).0 ≡ released (has "a" (live 5000 busy)))
    × (get "b" (release (some (some "a")) 5000 busy).1.slots
        ≡ (if ◌===◌ {A = String} "a" "b" then none else get "b" (live 5000 busy)))
unfolding get
release-token_example = release-token "a" "b" 5000 busy (refl, (refl, tt))

abbrev to : String → AcquireBody → Request
to path body = record {
  path = path;
  limit_body = record { limit = some (pos 3); window_seconds = none; windows = none };
  acquire_body = body;
  release_body = some (some "a");
}

abbrev traffic : List (Request × ℕ × String)
traffic =
    (to "/acquire" (ask none), 5000, "c")
    ∷ (to "/release" (ask none), 6000, "d")
    ∷ (to "/acquire" (ask none), 7000, "e")
    ∷ (to "/limit" (ask none), 7001, "f")
    ∷ []

serve-IsWithin_example : IsWithin 2 (serve traffic busy)
unfolding get
serve-IsWithin_example =
    serve-IsWithin 2 traffic busy (omega arith)
      (record { distinct = (refl, (refl, tt)); capped = omega arith })

abbrev rpm : Window
rpm = record { scope = "rpm"; limit = pos 2; window_seconds = 60 }

abbrev day : Window
day = record { scope = "day"; limit = pos 9; window_seconds = 86_400 }

abbrev minute : List (Window × ℕ)
minute = (rpm, 61) ∷ (day, 61) ∷ (rpm, 62) ∷ (day, 62) ∷ (rpm, 100) ∷ []

day-ne-rpm : ◌≢◌ {A = String} "day" "rpm"
day-ne-rpm = ground (arith, eq_iff "day" "rpm")

minute-InWindow : InWindow "rpm" (pos 2) 60 1 minute
minute-InWindow = (
  λ e. (refl, refl, refl),
  (
    λ e. absurd (day-ne-rpm e),
    (λ e. (refl, refl, refl), (λ e. absurd (day-ne-rpm e), (λ e. (refl, refl, refl), tt))),
  ),
)

tick_each-admitted_example :
    admitted "rpm" (tick_each minute new_limiter).0 ≡ min (pos_part (pos 2)) (asked "rpm" minute)
unfolding get
tick_each-admitted_example =
    tick_each-admitted "rpm" (pos 2) 60 1 minute new_limiter minute-InWindow refl

-- A store that forgets a key when its time to live is over.
abbrev put_in : (String → ℕ → Option ℕ) → ℕ → String → ℕ → ℕ → String → ℕ → Option ℕ
put_in s now key value ttl j t =
    if key === j then (if ltb t (now + ttl * 1000) then some value else none) else s j t

put_in_ne :
    (s : String → ℕ → Option ℕ) (now later ttl value : ℕ) (key other : String)
    → key ≢ other
    → put_in s now key value ttl other later ≡ s other later
put_in_ne s now later ttl value key other ne = rw (beq_false {a = key} {b = other} ne)

abbrev memory_kv : KvNamespace
memory_kv = record {
  Store = String → ℕ → Option ℕ;
  read = λ s t key. s key t;
  put = λ now key value ttl s. put_in s now key value ttl;
  read-put_ne = put_in_ne;
}

abbrev events : List Event
events =
    checked (pos 1) (negsuc 0) 60_000
    ∷ checked (pos 1) (pos 5) 61_000
    ∷ evicted
    ∷ checked (pos 1) (pos 5) 62_000
    ∷ checked (negsuc 0) (pos 1) 121_000
    ∷ []
