-- ===== src/Auth/Tests.antt =====
-- Runs of src/services/auth.service.ts and its guards on a small database.
use booking_availability_pla.Shared.{◌≡◌, ◌+◌, refl, String, true, some, [], ◌∷◌, find_first}
use booking_availability_pla.Errors.{Failure, app, unauthorized_error}
use booking_availability_pla.Model.{admin, viewer, RefreshToken}
use booking_availability_pla.Service.{World, ok, err}
use booking_availability_pla.Fixtures.{crypto_of, world, db, alice, session, stored_token}
use booking_availability_pla.Auth.Tokens.{Crypto, AuthEnv, AccessTokenPayload, claims}
use booking_availability_pla.Auth.Sessions.{
  logout, SessionDraw, AuthTokens, Stored, has_hash, family_by_id, include_owner, refuse_reuse,
  check_refresh, check_login, rotate, refresh_access_token,
}
use booking_availability_pla.Auth.Guards.{
  AuthenticatedUser, check_account, auth_middleware, require_role,
}
use booking_availability_pla.Auth.Rotation.{live_tokens, refresh-live_tokens}
use booking_availability_pla.Auth.Reuse.{
  IsRevoked, IsReplacement, refresh_once, refresh_access_token-IsRevoked,
}
use booking_availability_pla.Auth.Access.{
  IsAccount, IsBearer, check_login_uniform, auth_middleware_sound,
}
use booking_availability_pla.Auth.Logout.{logout-live_tokens}
use booking_availability_pla.Auth.Twice.{rotate-twice}

abbrev payload : AccessTokenPayload
payload = record { sub = 10; tenant_id = 1; role = viewer; email = "alice@acme.test" }

abbrev crypto : Crypto
crypto = crypto_of viewer

abbrev env : AuthEnv
env = record { jwt_access_expires_in_seconds = 900; jwt_refresh_expires_in_seconds = 2592000 }

abbrev first_draw : SessionDraw
first_draw = record { now = 5000; refresh_token = "t1"; family_id = 61; token_id = 71 }

abbrev second_draw : SessionDraw
second_draw = record { now = 5001; refresh_token = "t2"; family_id = 62; token_id = 72 }

abbrev tokens : AuthTokens
tokens = record { access_token = "jwt"; refresh_token = "t1"; expires_in = 900 }

abbrev refreshed_world : World
refreshed_world = (refresh_access_token crypto env first_draw "t0" world).1

refreshed : refresh_access_token crypto env first_draw "t0" world ≡ (ok tokens, refreshed_world)
unfolding refresh_access_token check_refresh include_owner refuse_reuse rotate
refreshed = refl

refresh_once_example :
    (s : Stored crypto env) × (v : World) × (find_first (has_hash crypto env "t0") world.db.tokens
      ≡ some s.token)
    × (find_first (family_by_id s.token.family_id) world.db.families ≡ some s.family)
    × (refresh_access_token crypto env second_draw "t0" refreshed_world
        ≡ (err (app (unauthorized_error "Refresh token reuse detected")), v))
    × IsRevoked crypto env s.token.family_id refreshed_world v
    × IsReplacement crypto env first_draw s.token.family_id v
refresh_once_example =
    refresh_once crypto env first_draw second_draw "t0" world refreshed_world tokens refreshed

refresh-live_tokens_example :
    live_tokens crypto env 60 refreshed_world.db.tokens ≡ live_tokens crypto env 60 world.db.tokens
refresh-live_tokens_example =
    refresh-live_tokens crypto env first_draw "t0" world refreshed_world tokens 60 (tt, tt)
      refreshed

-- The token was replaced before.
abbrev used_token : RefreshToken
used_token = record stored_token { revoked = true }

abbrev used_world : World
used_world = record world { db = record db { tokens = used_token ∷ [] } }

refresh_access_token-IsRevoked_example :
    (v : World) × (refresh_access_token crypto env second_draw "t0" used_world
      ≡ (err (app (unauthorized_error "Refresh token reuse detected")), v))
    × IsRevoked crypto env 60 used_world v
refresh_access_token-IsRevoked_example =
    refresh_access_token-IsRevoked crypto env second_draw "t0" used_world used_token session alice
      refl refl refl refl refl refl

rotate-twice_example :
    (v : World) × (v' : World) × (rotate crypto env first_draw stored_token world ≡ (ok tt, v))
    × (rotate crypto env second_draw stored_token v ≡ (ok tt, v'))
    × (live_tokens crypto env 60 v'.db.tokens ≡ live_tokens crypto env 60 world.db.tokens + 1)
rotate-twice_example =
    rotate-twice crypto env first_draw stored_token world (tt, tt) refl refl second_draw refl refl

wrong_password :
    check_login crypto env "acme" "alice@acme.test" "guess" world
    ≡ (err (app (unauthorized_error "Invalid credentials")), world)
unfolding check_login
wrong_password = refl

check_login_uniform_example :
    (◌≡◌ {A = Failure}
      (app (unauthorized_error "Invalid credentials"))
      (app (unauthorized_error "Invalid credentials")))
    × (world ≡ world)
check_login_uniform_example =
    check_login_uniform crypto env world "acme" "alice@acme.test" "guess"
      (app (unauthorized_error "Invalid credentials")) world wrong_password

abbrev alice_user : AuthenticatedUser
alice_user = record { id = 10; tenant_id = 1; email = "alice@acme.test"; role = viewer }

let_in : auth_middleware crypto 5000 (some "Bearer jwt") world ≡ (ok alice_user, world)
unfolding auth_middleware check_account
let_in = refl

auth_middleware_sound_example :
    (token : String) × (p : AccessTokenPayload) × IsBearer crypto (some "Bearer jwt") token
    × (crypto.verify 5000 token
        ≡ claims (some p.sub) (some p.tenant_id) (some p.role) (some p.email))
    × IsAccount world p alice_user
auth_middleware_sound_example =
    auth_middleware_sound crypto 5000 (some "Bearer jwt") world world alice_user let_in

viewer_passes : require_role (admin ∷ viewer ∷ []) (some alice_user) world ≡ (ok tt, world)
unfolding require_role
viewer_passes = refl

abbrev logged_out_world : World
logged_out_world = (logout crypto env 5000 "t0" world).1

logs_out : logout crypto env 5000 "t0" world ≡ (ok tt, logged_out_world)
unfolding logout include_owner
logs_out = refl

logout-live_tokens_example : live_tokens crypto env 60 logged_out_world.db.tokens ≡ 0
logout-live_tokens_example =
    logout-live_tokens crypto env 5000 "t0" stored_token world logged_out_world refl logs_out
