-- ===== src/Auth/Sessions.antt =====
-- src/services/auth.service.ts. What the clock, the database and `randomBytes` draw is an argument.
use booking_availability_pla.Shared.{
  ℕ, String, Bool, true, false, not, ◌&&◌, Option, none, some, [], ◌∷◌, ◌++◌, leb, ◌==◌, same_text,
  find_first, update_where,
}
use booking_availability_pla.Errors.{bad_request_error, unauthorized_error}
use booking_availability_pla.Model.{
  Db, Tenant, User, UserRole, RefreshToken, RefreshTokenFamily, login_event, logout_event,
  user_entity, json_null,
}
use booking_availability_pla.Service.{
  Action, ◌>>=◌, ◌>>◌, gets, modify, or_throw, throw, throw_if, fault_if, pure, transaction,
}
use booking_availability_pla.Audit.{AuditContext, with_audited_transaction}
use booking_availability_pla.Booking.Views.{or_fault}
use booking_availability_pla.Auth.Tokens.{
  Crypto, AuthEnv, refresh_token_expires_at, sign_access_token,
}

pub record PublicUser : Type 0 where
  pub id : ℕ
  pub tenant_id : ℕ
  pub email : String
  pub role : UserRole

abbrev pub to_public_user : User → PublicUser
to_public_user u = record { id = u.id; tenant_id = u.tenant_id; email = u.email; role = u.role }

pub record AuthTokens : Type 0 where
  pub access_token : String
  pub refresh_token : String
  pub expires_in : ℕ

-- What a call draws: the time, a refresh token, and identifiers for new rows.
pub record SessionDraw : Type 0 where
  pub now : ℕ
  pub refresh_token : String
  pub family_id : ℕ
  pub token_id : ℕ

abbrev pub is_some : {A : Type 0} → Option A → Bool
is_some none = false
is_some (some a) = true

abbrev pub token_by_id : ℕ → RefreshToken → Bool
token_by_id id t = t.id == id

abbrev pub family_by_id : ℕ → RefreshTokenFamily → Bool
family_by_id id f = f.id == id

-- `tx.refreshToken.create`: the primary key is the database's to check.
abbrev pub create_token : RefreshToken → Action (Unit {0})
create_token t = do
  taken ← gets (λ db. find_first (token_by_id t.id) db.tokens)
  fault_if (is_some taken) "Unique constraint failed"
  modify (λ db. record db { tokens = db.tokens ++ t ∷ [] })

abbrev pub create_family : RefreshTokenFamily → Action (Unit {0})
create_family f = do
  taken ← gets (λ db. find_first (family_by_id f.id) db.families)
  fault_if (is_some taken) "Unique constraint failed"
  modify (λ db. record db { families = db.families ++ f ∷ [] })

-- `revoked: true` on a family and on all its tokens.
abbrev pub of_family : ℕ → RefreshToken → Bool
of_family id t = t.family_id == id

abbrev pub revoke_token : RefreshToken → RefreshToken
revoke_token t = record t { revoked = true }

abbrev pub revoke_family : ℕ → Db → Db
revoke_family id db = record db {
  families = update_where (family_by_id id) (λ f. record f { revoked = true }) db.families;
  tokens = update_where (of_family id) revoke_token db.tokens;
}

module _ (crypto : Crypto) (env : AuthEnv) where
  open crypto use {hash_token, compare_password, to_lower_case}

  abbrev pub new_token : SessionDraw → ℕ → RefreshToken
  new_token draw family_id = record {
    id = draw.token_id;
    family_id = family_id;
    token_hash = hash_token draw.refresh_token;
    revoked = false;
    replaced_by_id = none;
    expires_at = refresh_token_expires_at env draw.now;
  }

  unfoldable pub create_refresh_session : SessionDraw → ℕ → Action String
  create_refresh_session draw user_id = do
    create_family (record { id = draw.family_id; user_id = user_id; revoked = false })
    create_token (new_token draw draw.family_id)
    pure draw.refresh_token

  abbrev pub login_audit : User → AuditContext
  login_audit user = record {
    event_type = login_event;
    tenant_id = some user.tenant_id;
    actor_user_id = some user.id;
    entity_type = user_entity;
    entity_id = some user.id;
    metadata = json_null;
  }

  -- The lookups and the password check of `login`.
  unfoldable pub check_login : String → String → String → Action User
  check_login tenant_slug email password = do
    t ← gets (λ db. find_first (λ (t : Tenant). same_text t.slug tenant_slug) db.tenants)
    tenant ← or_throw t (unauthorized_error "Invalid credentials")
    u ← gets (λ db.
        find_first
          (λ (u : User). u.tenant_id == tenant.id && same_text u.email (to_lower_case email))
          db.users)
    user ← or_throw u (unauthorized_error "Invalid credentials")
    throw_if (not user.is_active) (unauthorized_error "Invalid credentials")
    throw_if (not (compare_password password user.password_hash))
        (unauthorized_error "Invalid credentials")
    pure user

  unfoldable pub login : SessionDraw → String → String → String → Action (AuthTokens × PublicUser)
  login draw tenant_slug email password = do
    user ← check_login tenant_slug email password
    refresh_token ←
        with_audited_transaction draw.now (create_refresh_session draw user.id)
          (λ _. login_audit user)
    pure (
      record {
        access_token = sign_access_token crypto draw.now user;
        refresh_token = refresh_token;
        expires_in = env.jwt_access_expires_in_seconds;
      },
      to_public_user user,
    )

  -- A stored token with its family and the family's user (`include`).
  pub record Stored : Type 0 where
    pub token : RefreshToken
    pub family : RefreshTokenFamily
    pub user : User

  unfoldable pub include_owner : RefreshToken → Action Stored
  include_owner token = do
    f ← gets (λ db. find_first (family_by_id token.family_id) db.families)
    family ← or_fault f
    u ← gets (λ db. find_first (λ (u : User). u.id == family.user_id) db.users)
    user ← or_fault u
    pure (record { token = token; family = family; user = user })

  abbrev pub has_hash : String → RefreshToken → Bool
  has_hash refresh_token t = same_text t.token_hash (hash_token refresh_token)

  -- Reuse of a token that was replaced: the family is revoked, and the call throws.
  unfoldable pub refuse_reuse : RefreshTokenFamily → Action (Unit {0})
  refuse_reuse family = do
    transaction (modify (revoke_family family.id))
    throw (unauthorized_error "Refresh token reuse detected")

  abbrev pub refuse_if_revoked : RefreshToken → RefreshTokenFamily → Action (Unit {0})
  refuse_if_revoked token family = elim token.revoked [
    | true ↦ refuse_reuse family
    | false ↦ pure tt
  ]

  -- The transaction that replaces a token, as the caller read it.
  unfoldable pub rotate : SessionDraw → RefreshToken → Action (Unit {0})
  rotate draw stored = transaction (do
    create_token (new_token draw stored.family_id)
    modify (λ db. record db {
      tokens =
          update_where (token_by_id stored.id)
            (λ t. record t { revoked = true; replaced_by_id = some draw.token_id }) db.tokens;
    }))

  -- The checks of `refreshAccessToken`, before its transaction.
  unfoldable pub check_refresh : ℕ → String → Action Stored
  check_refresh now refresh_token = do
    throw_if (same_text refresh_token "") (bad_request_error "Refresh token is required" none)
    found ← gets (λ db. find_first (has_hash refresh_token) db.tokens)
    token ← or_throw found (unauthorized_error "Invalid refresh token")
    stored ← include_owner token
    throw_if stored.family.revoked (unauthorized_error "Session revoked")
    refuse_if_revoked stored.token stored.family
    throw_if (leb stored.token.expires_at now) (unauthorized_error "Refresh token expired")
    throw_if (not stored.user.is_active) (unauthorized_error "Account disabled")
    pure stored

  unfoldable pub refresh_access_token : SessionDraw → String → Action AuthTokens
  refresh_access_token draw refresh_token = do
    stored ← check_refresh draw.now refresh_token
    rotate draw stored.token
    pure (record {
      access_token = sign_access_token crypto draw.now stored.user;
      refresh_token = draw.refresh_token;
      expires_in = env.jwt_access_expires_in_seconds;
    })

  abbrev pub logout_audit : User → AuditContext
  logout_audit user = record {
    event_type = logout_event;
    tenant_id = some user.tenant_id;
    actor_user_id = some user.id;
    entity_type = user_entity;
    entity_id = some user.id;
    metadata = json_null;
  }

  abbrev pub logout_found : ℕ → Option RefreshToken → Action (Unit {0})
  logout_found now none = pure tt
  logout_found now (some token) = do
    stored ← include_owner token
    with_audited_transaction now (modify (revoke_family token.family_id))
        (λ _. logout_audit stored.user)

  unfoldable pub logout : ℕ → String → Action (Unit {0})
  logout now refresh_token = do
    throw_if (same_text refresh_token "") (bad_request_error "Refresh token is required" none)
    found ← gets (λ db. find_first (has_hash refresh_token) db.tokens)
    logout_found now found

  unfoldable pub get_current_user : ℕ → Action PublicUser
  get_current_user user_id = do
    u ← gets (λ db. find_first (λ (u : User). u.id == user_id) db.users)
    user ← or_throw u (unauthorized_error "User not found or inactive")
    throw_if (not user.is_active) (unauthorized_error "User not found or inactive")
    pure (to_public_user user)
