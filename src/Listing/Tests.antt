-- ===== src/Listing/Tests.antt =====
-- Pages of src/services/admin-booking.service.ts and src/services/audit-log.service.ts.
use booking_availability_pla.Shared.{ℕ, List, ◌≡◌, arith, none, some, [], ◌∷◌, All, length}
use booking_availability_pla.Model.{confirmed}
use booking_availability_pla.Fixtures.{db}
use booking_availability_pla.Dates.{Calendar}
use booking_availability_pla.Listing.Pages.{first_pages, total_pages, first_pages-all}
use booking_availability_pla.Listing.Bookings.{
  AdminBookingListQuery, by_created_at, desc, booking_rows, IsListed, booking_rows_sound,
}
use booking_availability_pla.Listing.AuditLogs.{AuditLogListQuery}

abbrev calendar : Calendar
calendar = record { parse_utc_date = λ s. 0 }

abbrev confirmed_only : AdminBookingListQuery
confirmed_only = record {
  status = some confirmed;
  user_id = none;
  experience_id = none;
  reference = none;
  created_from = none;
  created_to = some "1970-01-01";
  slot_from = none;
  slot_to = none;
  sort_by = by_created_at;
  sort_order = desc;
  page = 1;
  page_size = 20;
}

abbrev every_log : AuditLogListQuery
every_log = record {
  event_type = none;
  entity_type = some "User";
  entity_id = none;
  actor_user_id = some 10;
  from = none;
  to = none;
  sort_order = desc;
  page = 1;
  page_size = 20;
}

abbrev five : List ℕ
five = 1 ∷ 2 ∷ 3 ∷ 4 ∷ 5 ∷ []

first_pages-all_example : first_pages (total_pages (length five) 2) 2 five ≡ five
first_pages-all_example = first_pages-all 2 five (omega arith)

booking_rows_sound_example :
    All (IsListed calendar db 1 confirmed_only) (booking_rows calendar db 1 confirmed_only)
booking_rows_sound_example = booking_rows_sound calendar db 1 confirmed_only
