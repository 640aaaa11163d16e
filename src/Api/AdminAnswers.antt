-- ===== src/Api/AdminAnswers.antt =====
-- `GET /admin/bookings` from end to end: the two guards, the validation, the service and the answer.
use booking_availability_pla.Shared.{
  ℕ, ◌≡◌, refl, ap, sym, subst, ◌∙◌, String, Option, none, some, List, [], ◌∷◌, map, arith, All,
  some-injective,
}
use mathlib.Core.List.{Mem}
use booking_availability_pla.Model.{Booking, UserRole, admin, travel_manager}
use booking_availability_pla.Dates.{Calendar}
use booking_availability_pla.Service.{World, Result, ok, follow-eq-ok, ok-injective}
use booking_availability_pla.Auth.Tokens.{Crypto, AccessTokenPayload, claims}
use booking_availability_pla.Auth.Guards.{AuthenticatedUser, auth_middleware, require_role}
use booking_availability_pla.Auth.Access.{
  IsAccount, IsBearer, auth_middleware_sound, require_role_sound,
}
use booking_availability_pla.Listing.Bookings.{
  AdminBookingListQuery, AdminBookingListResult, IsListed, to_admin_booking_list_item, booking_rows,
  booking_rows_sound, list_tenant_bookings,
}
use booking_availability_pla.Api.Validation.{
  Parsed, parsed, zod_error, thrown, Request, validate_parts, validate_request,
}
use booking_availability_pla.Api.Routes.{validated, query_schema, with_role}
use booking_availability_pla.Api.Answers.{auth_middleware_reads, answered_same}
use booking_availability_pla.Api.AdminRoutes.{list_bookings_action}

require_role_reads :
    (roles : List UserRole) (u : AuthenticatedUser) (w : World)
    → (require_role roles (some u) w).1 ≡ w
unfolding require_role
require_role_reads roles u w = ground arith

with_role_sound :
    (crypto : Crypto) (roles : List UserRole) (now : ℕ) (header : Option String) (w v : World)
    (u : AuthenticatedUser)
    → with_role crypto roles now header w ≡ (ok u, v)
    → (auth_middleware crypto now header w ≡ (ok u, w)) × Mem u.role roles × (v ≡ w)
with_role_sound crypto roles now header w v u e =
    let (u1, v1, passed, more) = follow-eq-ok _ (auth_middleware crypto now header w) u v e in
    let (t, v2, allowed, last) = follow-eq-ok _ (require_role roles (some u1) v1) u v more in
    let (same, state) = final_same u1 u v2 v last in
    let (x, is, role) = require_role_sound roles (some u1) v1 v2 allowed in
    let first : v1 ≡ w =
      ap (λ (o : Result AuthenticatedUser × World). o.1) (sym passed)
      ∙ auth_middleware_reads crypto now header w in
    let second : v2 ≡ v1 =
      ap (λ (o : Result (Unit {0}) × World). o.1) (sym allowed) ∙ require_role_reads roles u1 v1 in
    (
      passed ∙ (λ i. (ok (sym same i), first i)),
      subst (λ (z : AuthenticatedUser). Mem z.role roles) (sym (some-injective u1 x is) ∙ sym same)
          role,
      state ∙ second ∙ first,
    )
  where
    final_same :
        (x y : AuthenticatedUser) (a b : World)
        → ◌≡◌ {A = Result AuthenticatedUser × World} (ok x, a) (ok y, b)
        → (y ≡ x) × (b ≡ a)
    final_same x y a b e = ok-injective x y a b e

query_checked :
    {V : Type 0} (schema : V → Parsed V) (req checked : Request V) (w w' : World) (o : Parsed V)
    → schema req.query ≡ o
    → validate_request (query_schema schema) req w ≡ (ok checked, w')
    → (p : V) × (schema req.query ≡ parsed p) × (checked.validated_query ≡ some p) × (w' ≡ w)
unfolding validate_request validate_parts
query_checked {V} schema req checked w w' (parsed p) e h = (
  p,
  e,
  ap (λ (r : Request V). r.validated_query) (answered_same _ checked w w' (rw e at h)),
  (ok-injective _ checked w w' (rw e at h)).1,
)
query_checked schema req checked w w' (zod_error issues) e h = cc (rw e at h)
query_checked schema req checked w w' (thrown s) e h = cc (rw e at h)

validated_same :
    {V : Type 0} (o : Option V) (p q : V) (w w' : World)
    → o ≡ some p
    → validated o w ≡ (ok q, w')
    → (q ≡ p) × (w' ≡ w)
validated_same none p q w w' e h = cc
validated_same (some v) p q w w' e h =
    let (same, state) = ok-injective v q w w' h in (same ∙ some-injective v p e, state)

listed :
    (calendar : Calendar) (tenant : ℕ) (query : AdminBookingListQuery)
    (result : AdminBookingListResult) (w w' : World)
    → list_tenant_bookings calendar tenant query w ≡ (ok result, w')
    → (result.items ≡ map to_admin_booking_list_item (booking_rows calendar w.db tenant query))
      × (w' ≡ w)
unfolding list_tenant_bookings
listed calendar tenant query result w w' h =
    let (same, state) = ok-injective _ result w w' h in
    (ap (λ (r : AdminBookingListResult). r.items) same, state)

-- A list of bookings goes to a request whose header carries, after `Bearer `, a token that verifies, whose account is an administrator's or a travel
-- manager's: it shows bookings of the account's tenant alone, each of which meets every filter of the parsed
-- query, and the request changes nothing.
pub list_bookings_action_sound :
    {V : Type 0} (crypto : Crypto) (calendar : Calendar) (schema : V → Parsed V)
    (as_query : V → AdminBookingListQuery) (now : ℕ) (header : Option String) (req : Request V)
    (w w' : World) (result : AdminBookingListResult)
    → list_bookings_action crypto calendar schema as_query now header req w ≡ (ok result, w')
    → (u : AuthenticatedUser) × (token : String) × (payload : AccessTokenPayload) × (p : V)
      × (rows : List Booking) × IsBearer crypto header token
      × (crypto.verify now token
          ≡ claims
              (some payload.sub)
              (some payload.tenant_id)
              (some payload.role)
              (some payload.email))
      × IsAccount w payload u
      × Mem u.role (admin ∷ travel_manager ∷ [])
      × (schema req.query ≡ parsed p)
      × All (IsListed calendar w.db u.tenant_id (as_query p)) rows
      × (result.items ≡ map to_admin_booking_list_item rows)
      × (w' ≡ w)
unfolding list_bookings_action
list_bookings_action_sound crypto calendar schema as_query now header req w w' result e =
    let (u, v1, guarded, rest) =
      follow-eq-ok _ (with_role crypto (admin ∷ travel_manager ∷ []) now header w) result w' e in
    let (checked, v2, valid, more) =
      follow-eq-ok _ (validate_request (query_schema schema) req v1) result w' rest in
    let (q, v3, given, last) =
      follow-eq-ok _ (validated checked.validated_query v2) result w' more in
    let (passed, role, s1) = with_role_sound crypto _ now header w v1 u guarded in
    let (p, body, stored, s2) =
      query_checked schema req checked v1 v2 (schema req.query) refl valid in
    let (same, s3) = validated_same checked.validated_query p q v2 v3 stored given in
    let (token, payload, carried, verified, account) =
      auth_middleware_sound crypto now header w w u passed in
    let (items, s4) = listed calendar u.tenant_id (as_query q) result v3 w' last in
    let state : v3 ≡ w = s3 ∙ s2 ∙ s1 in
    (
      u,
      token,
      payload,
      p,
      booking_rows calendar w.db u.tenant_id (as_query p),
      carried,
      verified,
      account,
      role,
      body,
      booking_rows_sound calendar w.db u.tenant_id (as_query p),
      items ∙ (λ i.
          map to_admin_booking_list_item
            (booking_rows calendar (state i).db u.tenant_id (as_query (same i)))),
      s4 ∙ state,
    )
