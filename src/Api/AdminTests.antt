-- ===== src/Api/AdminTests.antt =====
-- A list of bookings for an administrator, on a small database.
use booking_availability_pla.Shared.{ℕ, ◌≡◌, refl, String, some, none, List, [], ◌∷◌, map, All}
use mathlib.Core.List.{Mem}
use booking_availability_pla.Model.{Booking, admin, travel_manager}
use booking_availability_pla.Service.{World, ok}
use booking_availability_pla.Fixtures.{crypto_of, db, alice}
use booking_availability_pla.Dates.{Calendar}
use booking_availability_pla.Auth.Tokens.{Crypto, AccessTokenPayload, claims}
use booking_availability_pla.Auth.Guards.{
  AuthenticatedUser, auth_middleware, check_account, require_role,
}
use booking_availability_pla.Auth.Access.{IsAccount, IsBearer}
use booking_availability_pla.Listing.Pages.{pagination}
use booking_availability_pla.Listing.Bookings.{
  AdminBookingListQuery, AdminBookingListResult, IsListed, by_created_at, desc, booking_rows,
  to_admin_booking_list_item, list_tenant_bookings,
}
use booking_availability_pla.Api.Validation.{
  Parsed, parsed, Request, validate_parts, validate_request,
}
use booking_availability_pla.Api.AdminRoutes.{list_bookings_action}
use booking_availability_pla.Api.AdminAnswers.{list_bookings_action_sound}

abbrev crypto : Crypto
crypto = crypto_of admin

abbrev calendar : Calendar
calendar = record { parse_utc_date = λ s. 0 }

abbrev world : World
world = record { db = record db { users = record alice { role = admin } ∷ [] }; queued = [] }

-- A query is the size of its pages.
abbrev schema : ℕ → Parsed ℕ
schema n = parsed n

abbrev as_query : ℕ → AdminBookingListQuery
as_query n = record {
  status = none;
  user_id = none;
  experience_id = none;
  reference = none;
  created_from = none;
  created_to = none;
  slot_from = none;
  slot_to = none;
  sort_by = by_created_at;
  sort_order = desc;
  page = 1;
  page_size = n;
}

abbrev request : Request ℕ
request = record {
  body = 0;
  query = 20;
  params = 0;
  validated_body = none;
  validated_query = none;
  validated_params = none;
}

abbrev shown : AdminBookingListResult
shown = record {
  items = map to_admin_booking_list_item (booking_rows calendar world.db 1 (as_query 20));
  page = pagination 1 20 2;
}

bookings_shown :
    list_bookings_action crypto calendar schema as_query 2000 (some "Bearer jwt") request world
    ≡ (ok shown, world)
unfolding list_bookings_action auth_middleware check_account require_role validate_request
    validate_parts list_tenant_bookings booking_rows
bookings_shown = refl

list_bookings_action_sound_example :
    (u : AuthenticatedUser) × (token : String) × (payload : AccessTokenPayload) × (p : ℕ)
    × (rows : List Booking) × IsBearer crypto (some "Bearer jwt") token
    × (crypto.verify 2000 token
        ≡ claims
            (some payload.sub)
            (some payload.tenant_id)
            (some payload.role)
            (some payload.email))
    × IsAccount world payload u
    × Mem u.role (admin ∷ travel_manager ∷ [])
    × (schema request.query ≡ parsed p)
    × All (IsListed calendar world.db u.tenant_id (as_query p)) rows
    × (shown.items ≡ map to_admin_booking_list_item rows)
    × (world ≡ world)
list_bookings_action_sound_example =
    list_bookings_action_sound crypto calendar schema as_query 2000 (some "Bearer jwt") request
      world world shown bookings_shown
