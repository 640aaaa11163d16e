-- ===== src/Api/Answers.antt =====
-- `POST /bookings` from end to end: the guard, the validation, the service and the answer.
use booking_availability_pla.Shared.{
  ℕ, ◌<◌, ◌≡◌, refl, ap, String, Option, none, some, arith, ◌⊎◌, inl, inr,
}
use booking_availability_pla.Errors.{Failure}
use booking_availability_pla.Service.{World, Result, ok, err, ok-injective}
use booking_availability_pla.Pricing.Numbers.{Numeric}
use booking_availability_pla.Booking.Views.{BookingSummary}
use booking_availability_pla.Booking.Reserve.{Draw, CreateBookingBody, create_reservation}
use booking_availability_pla.Booking.Checks.{follow_reader}
use booking_availability_pla.Booking.Atomic.{IsReservation, create_reservation_atomic}
use booking_availability_pla.Booking.Effects.{IsReserved, create_reservation-IsReserved}
use booking_availability_pla.Auth.Tokens.{
  Crypto, AccessTokenPayload, Decoded, invalid, plain, claims, check_payload,
}
use booking_availability_pla.Auth.Guards.{
  AuthenticatedUser, auth_middleware, bearer_token, check_account,
}
use booking_availability_pla.Auth.Access.{IsAccount, IsBearer, auth_middleware_sound}
use booking_availability_pla.Api.Responses.{Response, send_success, send_error, respond}
use booking_availability_pla.Api.Validation.{
  Parsed, parsed, zod_error, thrown, Request, validate_parts, validate_request,
}
use booking_availability_pla.Api.Routes.{created_status, body_schema}
use booking_availability_pla.Api.BookingRoutes.{create_booking_action, post_booking}

bearer_token_reads :
    (crypto : Crypto) (header : Option String) (w : World) → (bearer_token crypto header w).1 ≡ w
bearer_token_reads crypto none w = refl
bearer_token_reads crypto (some header) w = ground arith

check_payload_reads : (d : Decoded) (w : World) → (check_payload d w).1 ≡ w
check_payload_reads invalid w = refl
check_payload_reads (plain s) w = refl
check_payload_reads (claims (some sub) (some t) (some r) (some e)) w = ground arith
check_payload_reads (claims _ _ _ _) w = refl

check_account_reads : (p : AccessTokenPayload) (w : World) → (check_account p w).1 ≡ w
unfolding check_account
check_account_reads p w = ground arith

pub auth_middleware_reads :
    (crypto : Crypto) (now : ℕ) (header : Option String) (w : World)
    → (auth_middleware crypto now header w).1 ≡ w
unfolding auth_middleware check_account
auth_middleware_reads crypto now header w =
    follow_reader (λ out. out.1 ≡ w) _ (bearer_token crypto header w) w
      (bearer_token_reads crypto header w) (λ e. refl)
      (λ token e.
        follow_reader (λ out. out.1 ≡ w) check_account (check_payload (crypto.verify now token) w) w
          (check_payload_reads (crypto.verify now token) w) (λ e. refl)
          (λ p e. check_account_reads p w))

module _ {V : Type 0} where
  pub answered_same :
      (x y : Request V) (w w' : World)
      → ◌≡◌ {A = Result (Request V) × World} (ok x, w) (ok y, w')
      → y ≡ x
  answered_same x y w w' e = (ok-injective x y w w' e).0

  -- A body that has been validated was parsed, and is what the schema made of it.
  body_checked :
      (schema : V → Parsed V) (req checked : Request V) (w w' : World) (o : Parsed V)
      → schema req.body ≡ o
      → validate_request (body_schema schema) req w ≡ (ok checked, w')
      → (p : V) × (schema req.body ≡ parsed p) × (checked.validated_body ≡ some p)
  unfolding validate_request validate_parts
  body_checked schema req checked w w' (parsed p) e h =
      (p, e, ap (λ (r : Request V). r.validated_body) (answered_same _ checked w w' (rw e at h)))
  body_checked schema req checked w w' (zod_error issues) e h = cc (rw e at h)
  body_checked schema req checked w w' (thrown s) e h = cc (rw e at h)

  body_reads :
      (schema : V → Parsed V) (req : Request V) (w : World) (o : Parsed V)
      → schema req.body ≡ o
      → (validate_request (body_schema schema) req w).1 ≡ w
  unfolding validate_request validate_parts
  body_reads schema req w (parsed p) e = rw e refl
  body_reads schema req w (zod_error issues) e = rw e refl
  body_reads schema req w (thrown s) e = rw e refl

  -- What a request is answered with: a reservation for the account behind its token, of what its body says, or
  -- an error with nothing changed.
  abbrev pub IsAnswer :
      Crypto
      → Numeric
      → (V → Parsed V)
      → (V → CreateBookingBody)
      → Draw
      → Option String
      → Request V
      → World
      → Response BookingSummary × World
      → Type 0
  IsAnswer crypto num schema as_body draw header req w (r, w') =
      ((s : BookingSummary) × (u : AuthenticatedUser) × (token : String)
        × (payload : AccessTokenPayload) × (p : V) × IsBearer crypto header token
        × (crypto.verify draw.now token
            ≡ claims (some payload.sub) (some payload.tenant_id) (some payload.role)
                (some payload.email))
        × IsAccount w payload u
        × (schema req.body ≡ parsed p)
        × IsReserved w num draw u.tenant_id u.id (as_body p) s w'
        × IsReservation w num draw u.tenant_id u.id (as_body p) s w'
        × (r ≡ send_success 201 s))
      ⊎ ((e : Failure) × (r ≡ send_error e) × (w' ≡ w))

  module _ (crypto : Crypto) (num : Numeric) (schema : V → Parsed V)
      (as_body : V → CreateBookingBody) (draw : Draw) (header : Option String) (req : Request V)
      (w : World) where
    abbrev Answered : Result BookingSummary × World → Type 0
    Answered out = IsAnswer crypto num schema as_body draw header req w (respond created_status out)

    refused : (e : Failure) → Answered (err e, w)
    refused e = inr (e, refl, refl)

    service_answers :
        (u : AuthenticatedUser) (p : V) (w' : World)
        → 0 < (as_body p).party_size
        → auth_middleware crypto draw.now header w ≡ (ok u, w')
        → schema req.body ≡ parsed p
        → (out : Result BookingSummary × World)
        → create_reservation num draw u.tenant_id u.id (as_body p) w ≡ out
        → Answered out
    service_answers u p w' size passed body (ok s, after) e =
        let (token, payload, carried, verified, account) =
          auth_middleware_sound crypto draw.now header w w' u passed in
        let done =
          create_reservation-IsReserved w u.tenant_id num draw u.id (as_body p) s after size e in
        inl (s, u, token, payload, p, carried, verified, account, body, done.0, done.1, refl)
    service_answers u p w' size passed body (err f, after) e =
        inr (
          f,
          refl,
          create_reservation_atomic w num draw u.tenant_id u.id (as_body p) f after size e,
        )

    -- A request for a booking is answered with status 201 and the booking's summary after it has added a
    -- booking with status reserved and taken its seats, for the account behind the token that the header
    -- carries after `Bearer ` and that verifies, for the slot and the party of the parsed body; and with
    -- an error in every other case, with the database and the queue as they were. The schema lets no party
    -- below one through.
    pub post_booking_sound :
        ((v p : V) → schema v ≡ parsed p → 0 < (as_body p).party_size)
        → IsAnswer crypto num schema as_body draw header req w
            (post_booking crypto num schema as_body draw header req w)
    unfolding post_booking create_booking_action
    post_booking_sound party =
        follow_reader Answered _ (auth_middleware crypto draw.now header w) w
          (auth_middleware_reads crypto draw.now header w) refused
          (λ u passed.
            follow_reader Answered _ (validate_request (body_schema schema) req w) w
              (body_reads schema req w (schema req.body) refl) refused
              (λ checked valid.
                let (p, body, stored) =
                  body_checked schema req checked w w (schema req.body) refl valid in
                rw stored (
                  service_answers u p w (party req.body p body) passed body
                    (create_reservation num draw u.tenant_id u.id (as_body p) w) refl)))
