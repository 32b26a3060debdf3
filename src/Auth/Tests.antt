-- ===== src/Auth/Tests.antt =====
-- Sessions of one user.
use hono_crosmos.Base.{◌≡◌, ◌≤◌, refl, inl, string_eq, true, none, some, List, [], ◌∷◌, arith}
use hono_crosmos.Base.Result.{ok, thrown}
use hono_crosmos.Base.Tables.{first_where}
use hono_crosmos.Auth.Tokens.{
  Services, Session, revoke_access_token, is_access_token_revoked, refresh, logout,
  revoke_refresh_token, revoke_refresh_token_if_active,
}
use hono_crosmos.Auth.Cache.{memory_cache}
use hono_crosmos.Auth.Rotation.{Call, refreshes, logs_out, rotations, uses_left, rotations-le}
use hono_crosmos.Auth.Denylist.{
  revokes, checks, after_calls, memory_cache-Keeps, is_access_token_revoked-revoke,
}

abbrev services : Services
services = record {
  decode_refresh = λ token. ok (record { user_id = 3; jti = token; expires_at = 9000 });
  decode_access = λ token. thrown "Invalid token";
  get_user = λ id.
      some (record {
        id = id;
        uuid = "u-3";
        email = "ada@example.com";
        name = "Ada";
        is_active = true;
      });
  resolve_org = λ uuid. none;
  get_membership = λ org user. none;
  earliest_membership = λ user. none;
  create_pair = λ user org. record { access_token = "a"; refresh_token = "r" };
}

abbrev no_session : Session
no_session = record { revoked = []; entries = [] }

abbrev calls : List Call
calls =
    refreshes services (record { refresh_token = "j1"; active_org_id = none })
    ∷ refreshes services (record { refresh_token = "j1"; active_org_id = none })
    ∷ logs_out services "j2" none 100
    ∷ refreshes services (record { refresh_token = "j2"; active_org_id = none })
    ∷ []

rotations_of_j1 : rotations "j1" calls no_session ≡ 1
unfolding refresh logout revoke_refresh_token_if_active revoke_refresh_token first_where
rotations_of_j1 = refl

rotations_of_j2 : rotations "j2" calls no_session ≡ 0
unfolding refresh logout revoke_refresh_token_if_active revoke_refresh_token first_where
rotations_of_j2 = refl

rotations-le_example : rotations "j1" calls no_session ≤ uses_left "j1" no_session
rotations-le_example = rotations-le "j1" calls no_session

is_access_token_revoked-revoke_example :
    (is_access_token_revoked memory_cache "j" 8999 (
      after_calls memory_cache
        (checks "j" 500 ∷ revokes "k" 700 600 ∷ checks "k" 650 ∷ [])
        (revoke_access_token memory_cache "j" 9000 100 []))).0
    ≡ true
is_access_token_revoked-revoke_example =
    is_access_token_revoked-revoke memory_cache 0 memory_cache-Keeps "j" 9000 100 8999 []
      (checks "j" 500 ∷ revokes "k" 700 600 ∷ checks "k" 650 ∷ []) (omega arith)
      (omega arith, (inl refl, (omega arith, tt))) (omega arith)
