-- ===== src/Auth/Tokens.antt =====
-- src/auth/tokens.ts and src/auth/types.ts. Hashing, the signature of an access token, the password
-- check, `toLowerCase` and `trim` belong to libraries or to the language: they are a parameter. A `now` is a
-- number of milliseconds.
use booking_availability_pla.Shared.{
  ℕ, ◌+◌, ◌*◌, String, Bool, Option, some, same_text, if◌then◌else◌,
}
use booking_availability_pla.Errors.{unauthorized_error}
use booking_availability_pla.Model.{User, UserRole}
use booking_availability_pla.Service.{Action, throw, pure}

pub record AccessTokenPayload : Type 0 where
  pub sub : ℕ
  pub tenant_id : ℕ
  pub role : UserRole
  pub email : String

-- What `jwt.verify` gives: it throws, or finds a text, or an object that may lack a field. An empty
-- identifier or role, which the code refuses too, is a missing one.
pub data Decoded : Type 0 where
  invalid : Decoded
  plain : String → Decoded
  claims : Option ℕ → Option ℕ → Option UserRole → Option String → Decoded

pub record Crypto : Type 0 where
  pub hash_token : String → String
  pub compare_password : String → String → Bool
  pub to_lower_case : String → String
  pub trim : String → String
  pub sign : (now : ℕ) → AccessTokenPayload → String
  pub verify : (now : ℕ) → String → Decoded

pub record AuthEnv : Type 0 where
  pub jwt_access_expires_in_seconds : ℕ
  pub jwt_refresh_expires_in_seconds : ℕ

abbrev pub refresh_token_expires_at : AuthEnv → ℕ → ℕ
refresh_token_expires_at env now = now + env.jwt_refresh_expires_in_seconds * 1000

abbrev pub sign_access_token : Crypto → ℕ → User → String
sign_access_token crypto now user =
    crypto.sign now
      (record { sub = user.id; tenant_id = user.tenant_id; role = user.role; email = user.email })

abbrev pub check_payload : Decoded → Action AccessTokenPayload
check_payload invalid = throw (unauthorized_error "Invalid or expired access token")
check_payload (plain s) = throw (unauthorized_error "Invalid access token")
check_payload (claims (some sub) (some tenant_id) (some role) (some email)) =
    if same_text email ""
    then throw (unauthorized_error "Invalid access token")
    else pure (record { sub = sub; tenant_id = tenant_id; role = role; email = email })
check_payload (claims _ _ _ _) = throw (unauthorized_error "Invalid access token")

abbrev pub verify_access_token : Crypto → ℕ → String → Action AccessTokenPayload
verify_access_token crypto now token = check_payload (crypto.verify now token)
