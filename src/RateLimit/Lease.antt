-- ===== src/RateLimit/Lease.antt =====
-- The concurrency role of limiter-do.ts: what `/acquire` and `/release` do to the leases.
use hono_crosmos.Base.{
  ℕ, ◌+◌, ◌*◌, ◌≤◌, ◌<◌, ◌≡◌, refl, ◌⊎◌, inl, inr, ◌↔◌, String, ◌===◌, string_eq, eq_of_beq, Bool,
  true, false, Option, none, some, List, [], ◌∷◌, ltb, leb, if◌then◌else◌, length, arith,
  Bool-cases, Option-cases,
}
use hono_crosmos.Base.Dict.{
  Dict, get, set, delete, has, retain, keep_if, get-retain, get-delete_ne, get-delete_self,
  length-set, length-delete, length-retain-le, IsDistinct, set-IsDistinct, delete-IsDistinct,
  retain-IsDistinct,
}
use hono_crosmos.RateLimit.LimiterDo.{
  Limiter, Window, LimitBody, AcquireBody, acquire_new, acquire_live, release_oldest, release_token,
  oldest_slot, tick, Request, Response, granted, released, acquire, release, limit, tick_all, fetch,
  serve, purge, or_else,
}

-- The leases of a moment: those whose expiry is still to come.
abbrev pub live : ℕ → Limiter → Dict String ℕ
live now s = retain (λ exp. ltb now exp) s.slots

abbrev pub is_granted : Response → Bool
is_granted (granted _ _) = true
is_granted _ = false

-- The lease that a request asks to take up again is among the live ones.
abbrev pub resumes : AcquireBody → ℕ → Limiter → Bool
resumes body now s = elim body.lease_key [ none ↦ false | some key ↦ has key (live now s) ]

-- An acquire is granted exactly if it resumes a live lease or fewer than `limit` leases are live.
pub acquire-granted :
    (body : AcquireBody) (now : ℕ) (uuid : String) (s : Limiter)
    → (is_granted (acquire body now uuid s).0 ≡ true)
      ↔ ((resumes body now s ≡ true) ⊎ (length (live now s) < body.limit))
unfolding acquire
acquire-granted body now uuid s = ground arith

abbrev pub slots_after : Response → ℕ → Dict String ℕ → Dict String ℕ
slots_after (granted token _) expiry m = set token expiry m
slots_after _ expiry m = m

-- Besides dropping the expired leases an acquire writes one expiry, under the token that it
-- answers, and a refused one writes none.
pub acquire-slots :
    (body : AcquireBody) (now : ℕ) (uuid : String) (s : Limiter)
    → (acquire body now uuid s).1.slots
      ≡ slots_after (acquire body now uuid s).0 (now + body.ttl_seconds * 1000) (live now s)
unfolding acquire
acquire-slots body now uuid s = ground arith

-- A release by token says whether that lease was live, and removes it and no other live lease.
pub release-token :
    (token j : String) (now : ℕ) (s : Limiter)
    → IsDistinct s.slots
    → ((release (some (some token)) now s).0 ≡ released (has token (live now s)))
      × (get j (release (some (some token)) now s).1.slots
          ≡ (if token === j then none else get j (live now s)))
unfolding release
release-token token j now s d = (
  refl,
  ground (
    arith,
    eq_of_beq {a = token} {b = j},
    Bool-cases (token === j),
    get-delete_ne token j (live now s),
    get-delete_self token (live now s) (retain-IsDistinct _ s.slots d),
  ),
)

-- Reading a lease of the live part: it is there, unless its time has passed.
pub get-live :
    (j : String) (now : ℕ) (s : Limiter)
    → IsDistinct s.slots
    → get j (live now s) ≡ keep_if (λ exp. ltb now exp) (get j s.slots)
get-live j now s d = get-retain _ j s.slots d

-- The invariant of one instance whose acquires all ask for at most `most` slots.
pub record IsWithin (most : ℕ) (s : Limiter) : Type 0 where
  pub distinct : IsDistinct s.slots
  pub capped : length s.slots ≤ most

live-IsWithin : (most now : ℕ) (s : Limiter) → IsWithin most s → IsWithin most (purge now s)
unfolding purge
live-IsWithin most now s w = record {
  distinct = retain-IsDistinct _ s.slots w.distinct;
  capped = omega (arith, length-retain-le (λ exp. ltb now exp) s.slots, w.capped);
}

set-IsWithin :
    (most : ℕ) (token : String) (expiry : ℕ) (s : Limiter)
    → IsWithin most s
    → (has token s.slots ≡ true) ⊎ (length s.slots < most)
    → IsWithin most (record s { slots = set token expiry s.slots })
set-IsWithin most token expiry s w room = record {
  distinct = set-IsDistinct token expiry s.slots w.distinct;
  capped = ground (arith, w.capped, length-set token expiry s.slots);
}

delete-IsWithin :
    (most : ℕ) (token : String) (s : Limiter)
    → IsWithin most s
    → IsWithin most (record s { slots = delete token s.slots })
delete-IsWithin most token s w = record {
  distinct = delete-IsDistinct token s.slots w.distinct;
  capped = ground (arith, w.capped, length-delete token s.slots);
}

acquire_new-IsWithin :
    (most : ℕ) (body : AcquireBody) (expiry : ℕ) (uuid : String) (s : Limiter)
    → body.limit ≤ most
    → IsWithin most s
    → IsWithin most (acquire_new body expiry uuid s).1
unfolding acquire_new
acquire_new-IsWithin most body expiry uuid s small w =
    elim (Bool-cases (leb body.limit (length s.slots))) [
      | inl full ↦ rw full w
      | inr room ↦ rw room (
          set-IsWithin most (or_else body.lease_key uuid) expiry s w
            (inr (ground (arith, room, small))))
    ]

acquire_live-IsWithin :
    (most : ℕ) (key : Option String) (body : AcquireBody) (expiry : ℕ) (uuid : String) (s : Limiter)
    → body.limit ≤ most
    → IsWithin most s
    → IsWithin most (acquire_live key body expiry uuid s).1
unfolding acquire_live
acquire_live-IsWithin most none body expiry uuid s small w =
    acquire_new-IsWithin most body expiry uuid s small w
acquire_live-IsWithin most (some key) body expiry uuid s small w =
    elim (Bool-cases (has key s.slots)) [
      | inl held ↦ rw held (set-IsWithin most key expiry s w (inl held))
      | inr gone ↦ rw gone (acquire_new-IsWithin most body expiry uuid s small w)
    ]

pub acquire-IsWithin :
    (most : ℕ) (body : AcquireBody) (now : ℕ) (uuid : String) (s : Limiter)
    → body.limit ≤ most
    → IsWithin most s
    → IsWithin most (acquire body now uuid s).1
unfolding acquire
acquire-IsWithin most body now uuid s small w =
    acquire_live-IsWithin most body.lease_key body _ uuid (purge now s) small
      (live-IsWithin most now s w)

release_oldest-IsWithin :
    (most : ℕ) (best : Option (String × ℕ)) (s : Limiter)
    → IsWithin most s
    → IsWithin most (release_oldest best s).1
unfolding release_oldest
release_oldest-IsWithin most none s w = w
release_oldest-IsWithin most (some (key, exp)) s w = delete-IsWithin most key s w

release_token-IsWithin :
    (most : ℕ) (token : Option String) (s : Limiter)
    → IsWithin most s
    → IsWithin most (release_token token s).1
unfolding release_token
release_token-IsWithin most none s w = release_oldest-IsWithin most (oldest_slot s.slots none) s w
release_token-IsWithin most (some token) s w = delete-IsWithin most token s w

pub release-IsWithin :
    (most : ℕ) (body : Option (Option String)) (now : ℕ) (s : Limiter)
    → IsWithin most s
    → IsWithin most (release body now s).1
unfolding release
release-IsWithin most body now s w =
    release_token-IsWithin most (or_else body none) (purge now s) (live-IsWithin most now s w)

-- The rate-limit role leaves the leases alone.
tick_all-slots : (ws : List Window) (now : ℕ) (s : Limiter) → (tick_all ws now s).1.slots ≡ s.slots
unfolding tick_all tick
tick_all-slots [] now s = refl
tick_all-slots (w ∷ ws) now s =
    tick_all-slots ws now (tick w.scope w.limit w.window_seconds now s).1

limit-slots : (body : LimitBody) (now : ℕ) (s : Limiter) → (limit body now s).1.slots ≡ s.slots
unfolding limit tick
limit-slots body now s = elim (Option-cases body.windows) [
  | inl e ↦ rw (e, limit)
  | inr (ws, e) ↦ rw (e, limit) (tick_all-slots ws _ s)
]

limit-IsWithin :
    (most : ℕ) (body : LimitBody) (now : ℕ) (s : Limiter)
    → IsWithin most s
    → IsWithin most (limit body now s).1
limit-IsWithin most body now s w = record {
  distinct = rw (limit-slots body now s) w.distinct;
  capped = rw (limit-slots body now s) w.capped;
}

fetch-IsWithin :
    (most : ℕ) (request : Request) (now : ℕ) (uuid : String) (s : Limiter)
    → request.acquire_body.limit ≤ most
    → IsWithin most s
    → IsWithin most (fetch request now uuid s).1
unfolding fetch
fetch-IsWithin most request now uuid s small w = elim (Bool-cases (request.path === "/acquire")) [
  | inl e ↦ rw e (acquire-IsWithin most request.acquire_body now uuid s small w)
  | inr e ↦ elim (Bool-cases (request.path === "/release")) [
    | inl e' ↦ rw (e, e') (release-IsWithin most request.release_body now s w)
    | inr e' ↦ rw (e, e') (limit-IsWithin most request.limit_body now s w)
  ]
]

-- Every acquire in the history asks for at most `most` slots.
abbrev pub AsksAtMost : ℕ → List (Request × ℕ × String) → Type 0
AsksAtMost most [] = Unit
AsksAtMost most ((request, now, uuid) ∷ rest) =
    (request.acquire_body.limit ≤ most) × AsksAtMost most rest

-- However requests of all three kinds follow one another, at any times and with any tokens, an
-- instance never holds more leases than the largest limit asked for, nor two under one token.
pub serve-IsWithin :
    (most : ℕ) (requests : List (Request × ℕ × String)) (s : Limiter)
    → AsksAtMost most requests
    → IsWithin most s
    → IsWithin most (serve requests s)
unfolding serve
serve-IsWithin most [] s asks w = w
serve-IsWithin most ((request, now, uuid) ∷ rest) s (small, asks) w =
    serve-IsWithin most rest (fetch request now uuid s).1 asks
      (fetch-IsWithin most request now uuid s small w)
