-- ===== src/Auth/Guards.antt =====
-- src/middleware/auth_middleware.ts and src/middleware/require-role.ts: a call of `next` with an error
-- is a throw, and the request's user is the result.
use booking_availability_pla.Shared.{
  ℕ, String, Bool, false, not, ◌||◌, Option, none, some, List, [], ◌∷◌, ◌==◌, same_text, find_first,
  starts_with, if◌then◌else◌,
}
use Prim.Native.String.{slice, len}
use booking_availability_pla.Errors.{unauthorized_error, forbidden_error}
use booking_availability_pla.Model.{User, UserRole, same_role}
use booking_availability_pla.Service.{Action, ◌>>=◌, ◌>>◌, gets, or_throw, throw, throw_if, pure}
use booking_availability_pla.Auth.Tokens.{Crypto, verify_access_token, AccessTokenPayload}

pub record AuthenticatedUser : Type 0 where
  pub id : ℕ
  pub tenant_id : ℕ
  pub email : String
  pub role : UserRole

abbrev pub given_token : String → Action String
given_token token = do
  throw_if (same_text token "") (unauthorized_error "Missing access token")
  pure token

-- `header?.startsWith("Bearer ")`, and `header.slice("Bearer ".length).trim()`.
abbrev pub bearer_token : Crypto → Option String → Action String
bearer_token crypto none = throw (unauthorized_error "Missing or invalid authorization header")
bearer_token crypto (some header) =
    if starts_with header "Bearer "
    then given_token (crypto.trim (slice header 7 (len header)))
    else throw (unauthorized_error "Missing or invalid authorization header")

-- The account behind a verified token, as the database has it now.
unfoldable pub check_account : AccessTokenPayload → Action AuthenticatedUser
check_account payload = do
  u ← gets (λ db. find_first (λ (u : User). u.id == payload.sub) db.users)
  user ← or_throw u (unauthorized_error "User not found or inactive")
  throw_if (not user.is_active) (unauthorized_error "User not found or inactive")
  throw_if (not (user.tenant_id == payload.tenant_id) || not (same_role user.role payload.role))
      (unauthorized_error "Token no longer valid")
  pure (record { id = user.id; tenant_id = user.tenant_id; email = user.email; role = user.role })

unfoldable pub auth_middleware : Crypto → ℕ → Option String → Action AuthenticatedUser
auth_middleware crypto now header = do
  token ← bearer_token crypto header
  payload ← verify_access_token crypto now token
  check_account payload

abbrev pub includes_role : List UserRole → UserRole → Bool
includes_role [] r = false
includes_role (x ∷ xs) r = same_role x r || includes_role xs r

unfoldable pub require_role : List UserRole → Option AuthenticatedUser → Action (Unit {0})
require_role allowed none = throw (forbidden_error "Insufficient permissions")
require_role allowed (some user) =
    throw_if (not (includes_role allowed user.role)) (forbidden_error "Insufficient permissions")
