-- ===== src/RateLimit/Window.antt =====
-- The rate-limit role of limiter-do.ts: what a fixed window lets through.
use hono_crosmos.Base.{
  ℕ, suc, ◌+◌, ◌/◌, ◌<◌, ◌≡◌, refl, String, ◌===◌, string_eq, eq_of_beq, beq_refl, Bool, false,
  Option, none, some, List, [], ◌∷◌, if◌then◌else◌, ◌==◌, min, arith, Bool-cases, inl, inr,
}
use hono_crosmos.Base.Int.{ℤ, pos, pos_part, leb_ℤ}
use hono_crosmos.Base.Dict.{get, get-set, get-set_self}
use hono_crosmos.RateLimit.LimiterDo.{Limiter, Counter, Ticked, Window, tick, next_count}

-- What a counter has spent of a given window: nothing, if it was last touched in another.
abbrev pub spent : ℕ → Option Counter → ℕ
spent bucket none = 0
spent bucket (some c) = if c.bucket == bucket then c.count else 0

-- A request counts in the window of its own scope and instant and in no other scope's.
pub spent-tick :
    (name j : String) (limit : ℤ) (window_seconds now : ℕ) (s : Limiter)
    → spent (now / window_seconds) (get j (tick name limit window_seconds now s).1.counters) ≡ (
        if name === j
        then suc (spent (now / window_seconds) (get j s.counters))
        else spent (now / window_seconds) (get j s.counters))
unfolding tick
spent-tick name j limit window_seconds now s = ground (
  arith,
  get-set name j
      (record {
        bucket = now / window_seconds;
        count = next_count (get name s.counters) (now / window_seconds);
      })
      s.counters,
  eq_of_beq {a = name} {b = j},
  Bool-cases (name === j),
)

pub get-tick_ne :
    (name j : String) (limit : ℤ) (window_seconds now : ℕ) (s : Limiter)
    → (name === j) ≡ false
    → get j (tick name limit window_seconds now s).1.counters ≡ get j s.counters
unfolding tick
get-tick_ne name j limit window_seconds now s ne = ground (
  arith,
  get-set name j
      (record {
        bucket = now / window_seconds;
        count = next_count (get name s.counters) (now / window_seconds);
      })
      s.counters,
)

pub tick-success :
    (name : String) (limit : ℤ) (window_seconds now : ℕ) (s : Limiter)
    → (tick name limit window_seconds now s).0.success
      ≡ leb_ℤ (pos (suc (spent (now / window_seconds) (get name s.counters)))) limit
unfolding tick
tick-success name limit window_seconds now s = ground arith

pub tick-count :
    (name : String) (limit : ℤ) (window_seconds now : ℕ) (s : Limiter)
    → (tick name limit window_seconds now s).0.count
      ≡ suc (spent (now / window_seconds) (get name s.counters))
unfolding tick
tick-count name limit window_seconds now s = ground arith

-- A history of increments of windows of one instance, each at its instant in seconds.
pub tick_each : List (Window × ℕ) → Limiter → List (String × Ticked) × Limiter
tick_each [] s = ([], s)
tick_each ((w, now) ∷ h) s =
    let (r, s') = tick w.scope w.limit w.window_seconds now s in
    let (rs, s'') = tick_each h s' in ((w.scope, r) ∷ rs, s'')

-- The results of a scope that let the request through.
pub admitted : String → List (String × Ticked) → ℕ
admitted name [] = 0
admitted name ((j, r) ∷ rs) =
    let rest = admitted name rs in
    if j === name then (if r.success then suc rest else rest) else rest

pub asked : String → List (Window × ℕ) → ℕ
asked name [] = 0
asked name ((w, now) ∷ h) = let rest = asked name h in if w.scope === name then suc rest else rest

-- The requests of one scope all have one limit and fall into one window.
abbrev pub InWindow : String → ℤ → ℕ → ℕ → List (Window × ℕ) → Type 0
InWindow name limit window_seconds bucket [] = Unit
InWindow name limit window_seconds bucket ((w, now) ∷ h) =
    (w.scope ≡ name
      → (w.limit ≡ limit) × (w.window_seconds ≡ window_seconds) × (now / w.window_seconds ≡ bucket))
    × InWindow name limit window_seconds bucket h

pub get-tick_self :
    (name : String) (limit : ℤ) (window_seconds now : ℕ) (s : Limiter)
    → get name (tick name limit window_seconds now s).1.counters
      ≡ some (record {
        bucket = now / window_seconds;
        count = suc (spent (now / window_seconds) (get name s.counters));
      })
unfolding tick
get-tick_self name limit window_seconds now s = ground (
  arith,
  get-set_self name
      (record {
        bucket = now / window_seconds;
        count = next_count (get name s.counters) (now / window_seconds);
      })
      s.counters,
)

-- A counter of an earlier window has spent nothing of a later one.
pub spent-past :
    (bucket : ℕ) (o : Option Counter)
    → ((c : Counter) → o ≡ some c → c.bucket < bucket)
    → spent bucket o ≡ 0
spent-past bucket none h = refl
spent-past bucket (some c) h = ground (arith, h c refl)

pub spent-tick_self :
    (name : String) (limit : ℤ) (window_seconds now : ℕ) (s : Limiter)
    → spent (now / window_seconds) (get name (tick name limit window_seconds now s).1.counters)
      ≡ suc (spent (now / window_seconds) (get name s.counters))
spent-tick_self name limit window_seconds now s =
    rw (spent-tick name name limit window_seconds now s, beq_refl name)

-- One request that counts: it is let through exactly while the limit is not reached.
admitted_hit :
    (limit : ℤ) (bucket : ℕ) (success : Bool) (before after rest more : ℕ)
    → success ≡ leb_ℤ (pos (suc before)) limit
    → after ≡ suc before
    → rest + min (pos_part limit) after ≡ min (pos_part limit) (after + more)
    → (if success then suc rest else rest) + min (pos_part limit) before
      ≡ min (pos_part limit) (before + suc more)
admitted_hit limit bucket success before after rest more p q r = ground arith

admitted_from :
    (name : String) (limit : ℤ) (window_seconds bucket : ℕ) (h : List (Window × ℕ)) (s : Limiter)
    → InWindow name limit window_seconds bucket h
    → admitted name (tick_each h s).0 + min (pos_part limit) (spent bucket (get name s.counters))
      ≡ min (pos_part limit) (spent bucket (get name s.counters) + asked name h)
unfolding admitted asked tick_each
admitted_from name limit window_seconds bucket [] s i = omega arith
admitted_from name limit window_seconds bucket ((w, now) ∷ h) s (here, i) =
    elim (Bool-cases (w.scope === name)) [
      | inl hit ↦
          let (same_limit, same_length, same_bucket) =
            here (eq_of_beq {a = w.scope} {b = name} hit) in
          rw hit (
            admitted_hit limit bucket _ (spent bucket (get name s.counters)) _ _ (asked name h)
              (rw (← same_bucket, ← eq_of_beq {a = w.scope} {b = name} hit, ← same_limit)
                (tick-success w.scope w.limit w.window_seconds now s))
              (rw (← same_bucket, ← eq_of_beq {a = w.scope} {b = name} hit)
                (spent-tick_self w.scope w.limit w.window_seconds now s))
              (admitted_from name limit window_seconds bucket h _ i))
      | inr miss ↦ rw miss (
          rw (get-tick_ne w.scope name w.limit w.window_seconds now s miss) at (
            admitted_from name limit window_seconds bucket h
              (tick w.scope w.limit w.window_seconds now s).1 i))
    ]

-- A window lets through exactly as many requests of its scope as its limit allows, the first ones,
-- however the requests of other scopes stand between them.
pub tick_each-admitted :
    (name : String) (limit : ℤ) (window_seconds bucket : ℕ) (h : List (Window × ℕ)) (s : Limiter)
    → InWindow name limit window_seconds bucket h
    → spent bucket (get name s.counters) ≡ 0
    → admitted name (tick_each h s).0 ≡ min (pos_part limit) (asked name h)
tick_each-admitted name limit window_seconds bucket h s i fresh =
    omega (arith, admitted_from name limit window_seconds bucket h s i)
