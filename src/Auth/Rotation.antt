-- ===== src/Auth/Rotation.antt =====
-- A refresh token is good for one rotation.
use hono_crosmos.Base.{
  ℕ, ◌+◌, ◌≡◌, ◌≤◌, refl, ap, inl, inr, String, string_eq, ◌===◌, eq_of_beq, subst, ◌||◌, Bool,
  true, false, not, Option, none, some, List, [], ◌∷◌, ◌++◌, if◌then◌else◌, either, either_by,
  arith, Bool-cases,
}
use hono_crosmos.Base.Result.{Result, ok, thrown}
use hono_crosmos.Base.Tables.{first_where}
use hono_crosmos.Auth.Tokens.{
  RevokedRefreshToken, has_jti, found, is_refresh_token_revoked, insert_revoked,
  revoke_refresh_token, revoke_refresh_token_if_active, RefreshClaims, AccessClaims, User,
  TokenResponse, AuthError, Services, Session, RefreshRequest, row_of, rotate, refresh_for,
  refresh_decoded, refresh, revoke_decoded, deny_jti, deny_decoded, deny_bearer, logout,
}

-- A request of either handler, with what it reads.
pub data Call : Type 0 where
  refreshes : Services → RefreshRequest → Call
  logs_out : (s : Services) (refresh_token : String) (bearer : Option String) (now : ℕ) → Call

abbrev pub after : Call → Session → Session
after (refreshes s request) db = (refresh s request db).1
after (logs_out s token bearer now) db = logout s token bearer now db

abbrev pub is_ok {ℓ κ} : {E : Type κ} {A : Type ℓ} → Result E A → Bool
is_ok (ok a) = true
is_ok (thrown e) = false

abbrev pub has_claim : String → Result String RefreshClaims → Bool
has_claim jti (thrown e) = false
has_claim jti (ok claims) = claims.jti === jti

-- Whether the call gives a new pair for the refresh token `jti`.
abbrev pub rotates : String → Call → Session → ℕ
rotates jti (refreshes s request) db =
    if is_ok (refresh s request db).0
    then (if has_claim jti (s.decode_refresh request.refresh_token) then 1 else 0)
    else 0
rotates jti (logs_out s token bearer now) db = 0

abbrev pub rotations : String → List Call → Session → ℕ
rotations jti [] db = 0
rotations jti (call ∷ calls) db = rotates jti call db + rotations jti calls (after call db)

-- 1 while the token is active, 0 once it is revoked.
abbrev pub uses_left : String → Session → ℕ
uses_left jti db = if is_refresh_token_revoked jti db.revoked then 0 else 1

found-append :
    (jti : String) (t : List RevokedRefreshToken) (row : RevokedRefreshToken)
    → found (first_where (has_jti jti) (t ++ row ∷ []))
      ≡ (found (first_where (has_jti jti) t) || row.jti === jti)
unfolding first_where
found-append jti [] row = ground (arith, Bool-cases (row.jti === jti))
found-append jti (x ∷ t) row = ground (arith, found-append jti t row, Bool-cases (x.jti === jti))

abbrev left : String → List RevokedRefreshToken → ℕ
left jti t = if found (first_where (has_jti jti) t) then 0 else 1

abbrev if_inserted : String → RevokedRefreshToken → Bool × List RevokedRefreshToken → ℕ
if_inserted jti row o = if o.0 then (if row.jti === jti then 1 else 0) else 0

-- An insert that succeeds uses up the token of its row, and none gives a token back.
insert_revoked-left :
    (jti : String) (row : RevokedRefreshToken) (t : List RevokedRefreshToken)
    → if_inserted jti row (insert_revoked row t) + left jti (insert_revoked row t).1 ≤ left jti t
insert_revoked-left jti row t =
    either_by
      (λ (o : Bool × List RevokedRefreshToken). if_inserted jti row o + left jti o.1 ≤ left jti t)
      (found (first_where (has_jti row.jti) t)) (λ e. omega arith)
      (λ fresh. elim (Bool-cases (row.jti === jti)) [
        | inl same ↦
            let absent =
              subst (λ j. found (first_where (has_jti j) t) ≡ false) (eq_of_beq same) fresh in
            rw (found-append jti t row, same, absent) (omega arith)
        | inr ne ↦
            rw (found-append jti t row, ne)
              (ground (arith, Bool-cases (found (first_where (has_jti jti) t))))
      ])

module _ (jti : String) where
  abbrev if_rotated : Result String RefreshClaims → Result AuthError TokenResponse × Session → ℕ
  if_rotated decoded o = if is_ok o.0 then (if has_claim jti decoded then 1 else 0) else 0

  rotate-left :
      (s : Services) (org : Option String) (claims : RefreshClaims) (user : User) (db : Session)
      → if_rotated (ok claims) (rotate s org claims user db)
          + left jti (rotate s org claims user db).1.revoked
        ≤ left jti db.revoked
  unfolding revoke_refresh_token_if_active
  rotate-left s org claims user db =
      let ins = insert_revoked (row_of claims) db.revoked in
      let used = insert_revoked-left jti (row_of claims) db.revoked in
      either_by
        (λ (o : Result AuthError TokenResponse × Session).
          if_rotated (ok claims) o + left jti o.1.revoked ≤ left jti db.revoked)
        (not ins.0) (λ e. omega (arith, used)) (λ e. ground (arith, used, e, Bool-cases ins.0))

  refresh_for-left :
      (s : Services) (org : Option String) (claims : RefreshClaims) (user : Option User)
      (db : Session)
      → if_rotated (ok claims) (refresh_for s org claims user db)
          + left jti (refresh_for s org claims user db).1.revoked
        ≤ left jti db.revoked
  refresh_for-left s org claims none db = omega arith
  refresh_for-left s org claims (some user) db =
      either
        (λ (o : Result AuthError TokenResponse × Session).
          if_rotated (ok claims) o + left jti o.1.revoked ≤ left jti db.revoked)
        (not user.is_active) (omega arith) (rotate-left s org claims user db)

  refresh_decoded-left :
      (s : Services) (org : Option String) (decoded : Result String RefreshClaims) (db : Session)
      → if_rotated decoded (refresh_decoded s org decoded db)
          + left jti (refresh_decoded s org decoded db).1.revoked
        ≤ left jti db.revoked
  refresh_decoded-left s org (thrown message) db = omega arith
  refresh_decoded-left s org (ok claims) db =
      refresh_for-left s org claims (s.get_user claims.user_id) db

  revoke_decoded-left :
      (decoded : Result String RefreshClaims) (db : Session)
      → left jti (revoke_decoded decoded db).revoked ≤ left jti db.revoked
  unfolding revoke_refresh_token
  revoke_decoded-left (thrown message) db = omega arith
  revoke_decoded-left (ok claims) db =
      omega (arith, insert_revoked-left jti (row_of claims) db.revoked)

  deny_bearer-revoked :
      (s : Services) (bearer : Option String) (now : ℕ) (db : Session)
      → (deny_bearer s bearer now db).revoked ≡ db.revoked
  deny_bearer-revoked s none now db = refl
  deny_bearer-revoked s (some token) now db = go (s.decode_access token)
    where
      denied : (jti : Option String) (at : ℕ) → (deny_jti jti at now db).revoked ≡ db.revoked
      denied none at = refl
      denied (some jti) at = either (λ (o : Session). o.revoked ≡ db.revoked) (jti === "") refl refl

      go : (o : Result String AccessClaims) → (deny_decoded o now db).revoked ≡ db.revoked
      go (thrown message) = refl
      go (ok access) = denied access.jti access.expires_at

  call-left :
      (call : Call) (db : Session)
      → rotates jti call db + left jti (after call db).revoked ≤ left jti db.revoked
  unfolding refresh logout
  call-left (refreshes s request) db =
      refresh_decoded-left s request.active_org_id (s.decode_refresh request.refresh_token) db
  call-left (logs_out s token bearer now) db =
      let revoked = revoke_decoded (s.decode_refresh token) db in
      omega (
        arith,
        revoke_decoded-left (s.decode_refresh token) db,
        ap (left jti) (deny_bearer-revoked s bearer now revoked),
      )

  rotations-left : (calls : List Call) (db : Session) → rotations jti calls db ≤ left jti db.revoked
  rotations-left [] db = omega arith
  rotations-left (call ∷ calls) db =
      omega (arith, call-left call db, rotations-left calls (after call db))

-- Over any sequence of refreshes and logouts, whatever each of them reads, a refresh token gives at
-- most one new pair, and none once it is revoked.
pub rotations-le :
    (jti : String) (calls : List Call) (db : Session) → rotations jti calls db ≤ uses_left jti db
unfolding is_refresh_token_revoked
rotations-le jti calls db = rotations-left jti calls db
