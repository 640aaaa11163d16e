-- ===== src/Auth/Access.antt =====
-- Who gets past the login and the guards of src/services/auth.service.ts and src/middleware.
use booking_availability_pla.Shared.{
  ℕ, ◌≡◌, inl, inr, refl, subst, ◌∙◌, Bool-cases, String, true, Option, none, some, List, [], ◌∷◌,
  arith, ◌==◌, find_first, false, same_text, starts_with,
}
use Prim.Native.String.{slice, len}
use mathlib.Core.List.{Mem, mem-cons_self, mem-cons_of_mem}
use booking_availability_pla.Errors.{Failure, app, unauthorized_error}
use booking_availability_pla.Model.{User, UserRole, same_role}
use booking_availability_pla.Service.{World, ok, err, follow-eq-ok}
use booking_availability_pla.Auth.Tokens.{
  Crypto, AuthEnv, AccessTokenPayload, Decoded, invalid, plain, claims, check_payload,
}
use booking_availability_pla.Auth.Sessions.{check_login}
use booking_availability_pla.Auth.Guards.{
  AuthenticatedUser, check_account, auth_middleware, bearer_token, includes_role, require_role,
}

same_role-eq : (r s : UserRole) → same_role r s ≡ true → r ≡ s
same_role-eq r s h = ground arith

-- What a request's user is known to be.
pub record IsAccount (w : World) (payload : AccessTokenPayload) (u : AuthenticatedUser)
    : Type 0 where
  pub user : User
  pub found : find_first (λ (x : User). x.id == payload.sub) w.db.users ≡ some user
  pub active : user.is_active ≡ true
  pub same_tenant : user.tenant_id ≡ payload.tenant_id
  pub same_rights : user.role ≡ payload.role
  pub is_user :
      u ≡ record { id = user.id; tenant_id = user.tenant_id; email = user.email; role = user.role }

check_account_sound :
    (payload : AccessTokenPayload) (w w' : World) (u : AuthenticatedUser) (o : Option User)
    → find_first (λ (x : User). x.id == payload.sub) w.db.users ≡ o
    → check_account payload w ≡ (ok u, w')
    → IsAccount w payload u
unfolding check_account
check_account_sound payload w w' u none e h = absurd (ground arith)
check_account_sound payload w w' u (some user) e h = record {
  user = user;
  found = e;
  active = ground arith;
  same_tenant = ground arith;
  same_rights = same_role-eq user.role payload.role (ground arith);
  is_user = ground arith;
}

module _ (crypto : Crypto) (env : AuthEnv) (w : World) where
  -- A login that is refused changes nothing, and its answer is one and the same for an unknown tenant,
  -- an unknown address, an inactive account and a wrong password.
  pub check_login_uniform :
      (slug email password : String) (e : Failure) (w' : World)
      → check_login crypto env slug email password w ≡ (err e, w')
      → (e ≡ app (unauthorized_error "Invalid credentials")) × (w' ≡ w)
  unfolding check_login
  check_login_uniform slug email password e w' h = ground arith

bearer_token_state :
    (crypto : Crypto) (w : World) (header : Option String) (token : String) (w' : World)
    → bearer_token crypto header w ≡ (ok token, w')
    → w' ≡ w
bearer_token_state crypto w none token w' h = absurd (ground arith)
bearer_token_state crypto w (some header) token w' h = ground arith

check_payload_sound :
    (d : Decoded) (w w' : World) (p : AccessTokenPayload)
    → check_payload d w ≡ (ok p, w')
    → (d ≡ claims (some p.sub) (some p.tenant_id) (some p.role) (some p.email)) × (w' ≡ w)
check_payload_sound invalid w w' p h = absurd (ground arith)
check_payload_sound (plain s) w w' p h = absurd (ground arith)
check_payload_sound (claims (some sub) (some t) (some r) (some e)) w w' p h = ground arith
check_payload_sound (claims _ _ _ _) w w' p h = absurd (ground arith)

-- The token that an `Authorization` header carries: its text after `Bearer `, trimmed, which is not empty.
pub record IsBearer (crypto : Crypto) (header : Option String) (token : String) : Type 0 where
  pub value : String
  pub is_value : header ≡ some value
  pub is_bearer : starts_with value "Bearer " ≡ true
  pub is_token : token ≡ crypto.trim (slice value 7 (len value))
  pub is_present : same_text token "" ≡ false

bearer_token_sound :
    (crypto : Crypto) (w w' : World) (header : Option String) (token : String)
    → bearer_token crypto header w ≡ (ok token, w')
    → IsBearer crypto header token
bearer_token_sound crypto w w' none token h = absurd (ground arith)
bearer_token_sound crypto w w' (some value) token h = record {
  value = value;
  is_value = refl;
  is_bearer = ground arith;
  is_token = ground arith;
  is_present = ground arith;
}

-- Whoever passes the guard has sent a token in the header, as its text after `Bearer `, that verifies, for
-- an account that exists now, is active, and still has the tenant and the role that the token names; the
-- request runs as that account.
pub auth_middleware_sound :
    (crypto : Crypto) (now : ℕ) (header : Option String) (w w' : World) (u : AuthenticatedUser)
    → auth_middleware crypto now header w ≡ (ok u, w')
    → (token : String) × (p : AccessTokenPayload) × IsBearer crypto header token
      × (crypto.verify now token
          ≡ claims (some p.sub) (some p.tenant_id) (some p.role) (some p.email))
      × IsAccount w p u
unfolding auth_middleware
auth_middleware_sound crypto now header w w' u h =
    let (token, v, bearer, rest) = follow-eq-ok _ (bearer_token crypto header w) u w' h in
    let (p, v', verified, last) =
      follow-eq-ok check_account (check_payload (crypto.verify now token) v) u w' rest in
    let (decoded, same) = check_payload_sound (crypto.verify now token) v v' p verified in
    (
      token,
      p,
      bearer_token_sound crypto w v header token bearer,
      decoded,
      check_account_sound p w w' u _ refl (
          subst (λ x. check_account p x ≡ (ok u, w'))
            (same ∙ bearer_token_state crypto w header token v bearer) last),
    )

includes_role-Mem :
    (allowed : List UserRole) (r : UserRole) → includes_role allowed r ≡ true → Mem r allowed
includes_role-Mem [] r h = cc
includes_role-Mem (x ∷ xs) r h = elim (Bool-cases (same_role x r)) [
  | inl t ↦ rw (same_role-eq x r t) mem-cons_self
  | inr f ↦ mem-cons_of_mem x (includes_role-Mem xs r (rw f at h))
]

-- `requireRole` lets through only a user whose role is in its list.
pub require_role_sound :
    (allowed : List UserRole) (user : Option AuthenticatedUser) (w w' : World)
    → require_role allowed user w ≡ (ok tt, w')
    → (u : AuthenticatedUser) × (user ≡ some u) × Mem u.role allowed
unfolding require_role
require_role_sound allowed none w w' h = absurd (ground arith)
require_role_sound allowed (some u) w w' h =
    (u, refl, includes_role-Mem allowed u.role (ground arith))
