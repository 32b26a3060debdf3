-- ===== src/Auth/Tokens.antt =====
-- apps/api/src/features/auth: refresh-tokens.ts, access-revocation.ts over the cache of the process,
-- and the handlers of /refresh and /logout in routes.ts. Decoding and signing a token, and the reads
-- of users and memberships, are arguments; a request goes on only in one order of its awaits, and
-- each database statement is one step.
use Prim.Native.String.{◌++◌ as concat_strings}
use hono_crosmos.Base.{
  ℕ, ◌+◌, ◌-◌, ◌/◌, max, String, string_eq, ◌===◌, Bool, true, false, not, Option, none, some, List,
  [], ◌∷◌, ◌++◌, if◌then◌else◌,
}
use hono_crosmos.Base.Result.{Result, ok, thrown}
use hono_crosmos.Base.Tables.{first_where}
use hono_crosmos.Auth.Cache.{CacheStore, memory_cache}

pub record RevokedRefreshToken : Type 0 where
  pub jti : String
  pub user_id : ℕ
  pub expires_at : ℕ

abbrev pub has_jti : String → RevokedRefreshToken → Bool
has_jti jti row = row.jti === jti

abbrev pub found {ℓ} : {A : Type ℓ} → Option A → Bool
found none = false
found (some a) = true

unfoldable pub is_refresh_token_revoked : String → List RevokedRefreshToken → Bool
is_refresh_token_revoked jti t = found (first_where (has_jti jti) t)

-- `insert … on conflict do nothing … returning`: whether a row was inserted.
abbrev pub insert_revoked :
    RevokedRefreshToken → List RevokedRefreshToken → Bool × List RevokedRefreshToken
insert_revoked row t =
    if found (first_where (has_jti row.jti) t) then (false, t) else (true, t ++ row ∷ [])

unfoldable pub revoke_refresh_token :
    RevokedRefreshToken → List RevokedRefreshToken → List RevokedRefreshToken
revoke_refresh_token input t = (insert_revoked input t).1

unfoldable pub revoke_refresh_token_if_active :
    RevokedRefreshToken → List RevokedRefreshToken → Bool × List RevokedRefreshToken
revoke_refresh_token_if_active input t = insert_revoked input t

abbrev pub revocation_key : String → String
revocation_key jti = concat_strings "revjwt:" jti

abbrev pub Cache : Type 0
Cache = memory_cache.State

-- `Math.max(5, Math.ceil((expiresAt - now) / 1000))`.
abbrev pub denylist_ttl : ℕ → ℕ → ℕ
denylist_ttl expires_at now = max 5 ((expires_at - now + 999) / 1000)

unfoldable pub revoke_access_token :
    (store : CacheStore) → String → ℕ → ℕ → store.State → store.State
revoke_access_token store jti expires_at now entries =
    store.put_flag (revocation_key jti) true (denylist_ttl expires_at now) now entries

abbrev is_revoked_entry : Option Bool → Bool
is_revoked_entry none = false
is_revoked_entry (some revoked) = revoked

unfoldable pub is_access_token_revoked :
    (store : CacheStore) → String → ℕ → store.State → Bool × store.State
is_access_token_revoked store jti now entries =
    let read = store.get_flag (revocation_key jti) now entries in (is_revoked_entry read.0, read.1)

pub record RefreshClaims : Type 0 where
  pub user_id : ℕ
  pub jti : String
  pub expires_at : ℕ

pub record AccessClaims : Type 0 where
  pub jti : Option String
  pub expires_at : ℕ

pub record User : Type 0 where
  pub id : ℕ
  pub uuid : String
  pub email : String
  pub name : String
  pub is_active : Bool

pub record Membership : Type 0 where
  pub org_id : ℕ
  pub org_uuid : String

pub record TokenPair : Type 0 where
  pub access_token : String
  pub refresh_token : String

pub record TokenResponse : Type 0 where
  pub user_id : String
  pub email : String
  pub name : String
  pub pair : TokenPair
  pub active_org_id : Option String

-- The answer 401, with its message.
pub data AuthError : Type 0 where
  unauthorized : (message : String) → AuthError

-- The reads of a request, and the token service: an invalid token is its message.
pub record Services : Type 0 where
  pub decode_refresh : String → Result String RefreshClaims
  pub decode_access : String → Result String AccessClaims
  pub get_user : ℕ → Option User
  pub resolve_org : String → Option ℕ
  pub get_membership : ℕ → ℕ → Option Membership
  pub earliest_membership : ℕ → Option Membership
  pub create_pair : ℕ → Option ℕ → TokenPair

pub record Session : Type 0 where
  pub revoked : List RevokedRefreshToken
  pub entries : Cache

pub record RefreshRequest : Type 0 where
  pub refresh_token : String
  pub active_org_id : Option String

-- The membership that was asked for, or else the earliest.
abbrev pub requested_membership : Services → Option String → ℕ → Option Membership
requested_membership s none user = none
requested_membership s (some uuid) user =
    if uuid === ""
    then none
    else elim (s.resolve_org uuid) [ none ↦ none | some org ↦ s.get_membership org user ]

abbrev pub choose_membership : Services → Option String → ℕ → Option Membership
choose_membership s org user = elim (requested_membership s org user) [
  | none ↦ s.earliest_membership user
  | some m ↦ some m
]

abbrev org_of : Option Membership → Option ℕ
org_of none = none
org_of (some m) = some m.org_id

abbrev org_uuid_of : Option Membership → Option String
org_uuid_of none = none
org_uuid_of (some m) = some m.org_uuid

abbrev pub token_response : Services → Option String → User → TokenResponse
token_response s org user =
    let membership = choose_membership s org user.id in
    record {
      user_id = user.uuid;
      email = user.email;
      name = user.name;
      pair = s.create_pair user.id (org_of membership);
      active_org_id = org_uuid_of membership;
    }

abbrev pub row_of : RefreshClaims → RevokedRefreshToken
row_of claims = record {
  jti = claims.jti;
  user_id = claims.user_id;
  expires_at = claims.expires_at;
}

abbrev pub rotate :
    Services
    → Option String
    → RefreshClaims
    → User
    → Session
    → Result AuthError TokenResponse × Session
rotate s org claims user db =
    let rotated = revoke_refresh_token_if_active (row_of claims) db.revoked in
    if not rotated.0
    then (
      thrown (unauthorized "Refresh token revoked"),
      record { revoked = rotated.1; entries = db.entries },
    )
    else (ok (token_response s org user), record { revoked = rotated.1; entries = db.entries })

abbrev pub refresh_for :
    Services
    → Option String
    → RefreshClaims
    → Option User
    → Session
    → Result AuthError TokenResponse × Session
refresh_for s org claims none db = (thrown (unauthorized "User not found"), db)
refresh_for s org claims (some user) db =
    if not user.is_active
    then (thrown (unauthorized "User account inactive"), db)
    else rotate s org claims user db

abbrev pub refresh_decoded :
    Services
    → Option String
    → Result String RefreshClaims
    → Session
    → Result AuthError TokenResponse × Session
refresh_decoded s org (thrown message) db = (thrown (unauthorized message), db)
refresh_decoded s org (ok claims) db = refresh_for s org claims (s.get_user claims.user_id) db

unfoldable pub refresh :
    Services → RefreshRequest → Session → Result AuthError TokenResponse × Session
refresh s request db =
    refresh_decoded s request.active_org_id (s.decode_refresh request.refresh_token) db

abbrev pub revoke_decoded : Result String RefreshClaims → Session → Session
revoke_decoded (thrown message) db = db
revoke_decoded (ok claims) db = record {
  revoked = revoke_refresh_token (row_of claims) db.revoked;
  entries = db.entries;
}

abbrev pub deny_jti : Option String → ℕ → ℕ → Session → Session
deny_jti none expires_at now db = db
deny_jti (some jti) expires_at now db = if jti === "" then db else record {
  revoked = db.revoked;
  entries = revoke_access_token memory_cache jti expires_at now db.entries;
}

abbrev pub deny_decoded : Result String AccessClaims → ℕ → Session → Session
deny_decoded (thrown message) now db = db
deny_decoded (ok access) now db = deny_jti access.jti access.expires_at now db

-- The access token of the `Authorization` header, if it is a bearer header.
abbrev pub deny_bearer : Services → Option String → ℕ → Session → Session
deny_bearer s none now db = db
deny_bearer s (some token) now db = deny_decoded (s.decode_access token) now db

unfoldable pub logout : Services → String → Option String → ℕ → Session → Session
logout s refresh_token bearer now db =
    deny_bearer s bearer now (revoke_decoded (s.decode_refresh refresh_token) db)
