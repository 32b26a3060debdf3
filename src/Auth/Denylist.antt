-- ===== src/Auth/Denylist.antt =====
-- The denylist keeps a revoked access token for as long as it could be used.
use text.Mathlib.TextLemmas.{append_cancel_left}
use hono_crosmos.Base.{
  ◌⊎◌, subst, beq_false, ne_of_beq, either, eq_of_beq, ℕ, ◌+◌, ◌*◌, ◌≡◌, ◌≤◌, ◌<◌, refl, sym, ap,
  ◌∙◌, inl, inr, String, string_eq, ◌===◌, Bool, true, false, Option, none, some, List, [], ◌∷◌,
  leb, ltb, arith, Bool-cases,
}
use hono_crosmos.Base.Tables.{All}
use hono_crosmos.Base.Dict.{get, get-set, get-set_self, get-delete_ne}
use hono_crosmos.Auth.Cache.{
  MemoryEntry, is_expired, read_entry, get_json, put_json, CacheStore, memory_cache,
}
use hono_crosmos.Auth.Tokens.{
  revocation_key, denylist_ttl, revoke_access_token, is_access_token_revoked,
}

-- What a store promises of flags that are set for `least` seconds or more: they are read until their
-- time is up, whatever else is read or written, and a write for less time takes none away.
pub record Keeps (store : CacheStore) (least : ℕ) : Type 1 where
  pub Holds : store.State → String → ℕ → Type 0
  pub put_self :
      (s : store.State) (key : String) (ttl now : ℕ)
      → least ≤ ttl
      → Holds (store.put_flag key true ttl now s) key (now + ttl * 1000)
  pub put_short :
      (s : store.State) (key : String) (ttl now until : ℕ)
      → ttl < least
      → Holds s key until
      → Holds (store.put_flag key true ttl now s) key until
  pub put_ne :
      (s : store.State) (key other : String) (ttl now until : ℕ)
      → (key === other) ≡ false
      → Holds s other until
      → Holds (store.put_flag key true ttl now s) other until
  pub get_any :
      (s : store.State) (key other : String) (now until : ℕ)
      → now < until
      → Holds s other until
      → Holds (store.get_flag key now s).1 other until
  pub get_self :
      (s : store.State) (key : String) (now until : ℕ)
      → now < until
      → Holds s key until
      → (store.get_flag key now s).0 ≡ some true

read_other :
    (key k : String) (now : ℕ) (entries : memory_cache.State)
    → (key === k) ≡ false
    → get k (get_json key now entries).1 ≡ get k entries
unfolding get_json
read_other key k now entries ne = go (get key entries)
  where
    go : (o : Option (MemoryEntry Bool)) → get k (read_entry key now entries o).1 ≡ get k entries
    go none = refl
    go (some entry) =
        either (λ (r : Option Bool × memory_cache.State). get k r.1 ≡ get k entries)
          (is_expired now entry) (get-delete_ne key k entries ne) refl

abbrev flag : ℕ → MemoryEntry Bool
flag until = record { value = true; expires_at_ms = some until }

read_self :
    (key : String) (now until : ℕ) (entries : memory_cache.State)
    → get key entries ≡ some (flag until)
    → now < until
    → get_json key now entries ≡ (some true, entries)
unfolding get_json
read_self key now until entries h early =
    let live : leb until now ≡ false = ground arith in rw (h, live) refl

-- The cache of the process keeps any flag.
pub memory_cache-Keeps : Keeps memory_cache 0
unfolding put_json
memory_cache-Keeps = record {
  Holds = λ s key until. get key s ≡ some (flag until);
  put_self = λ s key ttl now h. get-set_self key (flag (now + ttl * 1000)) s;
  put_short = λ s key ttl now until h. absurd (omega arith);
  put_ne =
      λ s key other ttl now until ne h. get-set key other (flag (now + ttl * 1000)) s ∙ rw ne h;
  get_any = λ s key other now until early h. elim (Bool-cases (key === other)) [
    | inr ne ↦ read_other key other now s ne ∙ h
    | inl same ↦
        ap (λ (r : Option Bool × memory_cache.State). get other r.1)
          (read_self key now until s
            (subst (λ k. get k s ≡ some (flag until)) (sym (eq_of_beq same)) h) early)
        ∙ h
  ];
  get_self = λ s key now until early h.
      ap (λ (r : Option Bool × memory_cache.State). r.0) (read_self key now until s h early);
}

-- What happens to the cache: revocations, and checks of the middleware.
pub data CacheCall : Type 0 where
  revokes : (jti : String) (expires_at now : ℕ) → CacheCall
  checks : (jti : String) (now : ℕ) → CacheCall

-- The call comes while the token is valid, and revokes it, if at all, with the expiry that it has.
abbrev pub IsEarlier : String → ℕ → CacheCall → Type 0
IsEarlier jti expires_at (revokes other at now) = ((other === jti) ≡ false) ⊎ (at ≡ expires_at)
IsEarlier jti expires_at (checks other now) = now < expires_at

ttl-enough : (expires_at now : ℕ) → expires_at ≤ now + denylist_ttl expires_at now * 1000
ttl-enough expires_at now = omega arith

apart :
    (other jti : String)
    → (other === jti) ≡ false
    → (revocation_key other === revocation_key jti) ≡ false
apart other jti ne =
    beq_false (λ e. ne_of_beq {a = other} {b = jti} ne (append_cancel_left "revjwt:" _ _ e))

module _ (store : CacheStore) where
  abbrev pub after_call : CacheCall → store.State → store.State
  after_call (revokes jti expires_at now) s = revoke_access_token store jti expires_at now s
  after_call (checks jti now) s = (is_access_token_revoked store jti now s).1

  abbrev pub after_calls : List CacheCall → store.State → store.State
  after_calls [] s = s
  after_calls (call ∷ calls) s = after_calls calls (after_call call s)

module _ (store : CacheStore) (least : ℕ) (keeps : Keeps store least) (jti : String)
    (expires_at : ℕ) where
  -- The flag of the token is set until `expires_at` at least.
  abbrev IsDenied : store.State → Type 0
  IsDenied s = (until : ℕ) × (keeps.Holds s (revocation_key jti) until) × (expires_at ≤ until)

  revoke-IsDenied :
      (now : ℕ) (s : store.State)
      → least ≤ denylist_ttl expires_at now
      → IsDenied (revoke_access_token store jti expires_at now s)
  unfolding revoke_access_token
  revoke-IsDenied now s long = (
    now + denylist_ttl expires_at now * 1000,
    keeps.put_self s (revocation_key jti) (denylist_ttl expires_at now) now long,
    ttl-enough expires_at now,
  )

  -- A repeated revocation sets the flag again, or is for too short a time to change it.
  again-IsDenied :
      (now : ℕ) (s : store.State)
      → IsDenied s
      → IsDenied (revoke_access_token store jti expires_at now s)
  unfolding revoke_access_token
  again-IsDenied now s (until, h, le) =
      elim (Bool-cases (ltb (denylist_ttl expires_at now) least)) [
        | inl short ↦ (
          until,
          keeps.put_short s (revocation_key jti) (denylist_ttl expires_at now) now until
              (ground (arith, short)) h,
          le,
        )
        | inr long ↦ revoke-IsDenied now s (ground (arith, long))
      ]

  call-IsDenied :
      (call : CacheCall) (s : store.State)
      → IsEarlier jti expires_at call
      → IsDenied s
      → IsDenied (after_call store call s)
  unfolding revoke_access_token is_access_token_revoked
  call-IsDenied (revokes other at now) s early d = elim (Bool-cases (other === jti)) [
    | inr ne ↦
        let (until, h, le) = d in
        (
          until,
          keeps.put_ne s (revocation_key other) (revocation_key jti) (denylist_ttl at now) now until
              (apart other jti ne) h,
          le,
        )
    | inl same ↦ elim early [
      | inl ne ↦ absurd (ground (arith, same, ne))
      | inr same_at ↦
          subst (λ o. IsDenied (revoke_access_token store o at now s)) (sym (eq_of_beq same))
            (subst (λ a. IsDenied (revoke_access_token store jti a now s)) (sym same_at)
              (again-IsDenied now s d))
    ]
  ]
  call-IsDenied (checks other now) s early (until, h, le) = (
    until,
    keeps.get_any s (revocation_key other) (revocation_key jti) now until (omega arith) h,
    le,
  )

  calls-IsDenied :
      (calls : List CacheCall) (s : store.State)
      → All (IsEarlier jti expires_at) calls
      → IsDenied s
      → IsDenied (after_calls store calls s)
  calls-IsDenied [] s early d = d
  calls-IsDenied (call ∷ calls) s (here, early) d =
      calls-IsDenied calls (after_call store call s) early (call-IsDenied call s here d)

  denied :
      (now : ℕ) (s : store.State)
      → now < expires_at
      → IsDenied s
      → (is_access_token_revoked store jti now s).0 ≡ true
  unfolding is_access_token_revoked
  denied now s early (until, h, le) =
      rw (keeps.get_self s (revocation_key jti) now until (omega arith) h) refl

  -- Over a store that keeps a flag that is set for `least` seconds or more: once an access token is
  -- revoked, for so long, every check of it before its expiry says so, whatever revocations of other
  -- tokens, repeated revocations of it and checks come between, as long as the checks are made
  -- before its expiry.
  pub is_access_token_revoked-revoke :
      (now later : ℕ) (s : store.State) (between : List CacheCall)
      → least ≤ denylist_ttl expires_at now
      → All (IsEarlier jti expires_at) between
      → later < expires_at
      → (is_access_token_revoked store jti later
          (after_calls store between (revoke_access_token store jti expires_at now s))).0
        ≡ true
  is_access_token_revoked-revoke now later s between long early valid =
      denied later (after_calls store between (revoke_access_token store jti expires_at now s))
        valid
        (calls-IsDenied between (revoke_access_token store jti expires_at now s) early
          (revoke-IsDenied now s long))
