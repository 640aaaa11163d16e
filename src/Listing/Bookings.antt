-- ===== src/Listing/Bookings.antt =====
-- src/services/admin-booking.service.ts
use booking_availability_pla.Shared.{
  ℕ, ℤ, pos, negsuc, ◌≡◌, String, Bool, true, false, ◌&&◌, Option, none, some, List, map, arith,
  leb, ltb, ◌==◌, same_text, matches?, find_first, keep, length, All,
}
use booking_availability_pla.Model.{
  Db, Booking, AvailabilitySlot, BookingStatus, reserved, confirmed, cancelled, expired,
  same_status,
}
use booking_availability_pla.Service.{Action, ◌>>=◌, gets, pure}
use booking_availability_pla.Dates.{Calendar, end_date_exclusive}
use booking_availability_pla.Listing.Pages.{
  PaginationMeta, pagination, select_page, All-select_page,
}

pub data BookingSort : Type 0 where
  by_created_at by_status by_total_price by_slot_starts_at : BookingSort

pub data SortOrder : Type 0 where
  asc desc : SortOrder

pub record AdminBookingListQuery : Type 0 where
  pub status : Option BookingStatus
  pub user_id : Option ℕ
  pub experience_id : Option ℕ
  pub reference : Option String
  pub created_from : Option String
  pub created_to : Option String
  pub slot_from : Option String
  pub slot_to : Option String
  pub sort_by : BookingSort
  pub sort_order : SortOrder
  pub page : ℕ
  pub page_size : ℕ

-- The order of the enumeration in PostgreSQL is that of its declaration.
abbrev pub status_rank : BookingStatus → ℕ
status_rank reserved = 0
status_rank confirmed = 1
status_rank cancelled = 2
status_rank expired = 3

abbrev pub leb_ℤ : ℤ → ℤ → Bool
leb_ℤ (pos a) (pos b) = leb a b
leb_ℤ (pos a) (negsuc b) = false
leb_ℤ (negsuc a) (pos b) = true
leb_ℤ (negsuc a) (negsuc b) = leb b a

abbrev pub directed : {A : Type 0} → SortOrder → (A → A → Bool) → A → A → Bool
directed asc le a b = le a b
directed desc le a b = le b a

module _ (calendar : Calendar) (db : Db) where
  -- The start of a booking's slot, through the relation `slot`.
  abbrev pub slot_start : Booking → Option ℕ
  slot_start b = elim (find_first (λ (s : AvailabilitySlot). s.id == b.slot_id) db.slots) [
    | none ↦ none
    | some s ↦ some s.starts_at
  ]

  abbrev pub start_or_zero : Option ℕ → ℕ
  start_or_zero none = 0
  start_or_zero (some t) = t

  -- `buildBookingOrderBy`
  abbrev pub booking_le : BookingSort → Booking → Booking → Bool
  booking_le by_created_at a b = leb a.created_at b.created_at
  booking_le by_status a b = leb (status_rank a.status) (status_rank b.status)
  booking_le by_total_price a b = leb_ℤ a.total_price b.total_price
  booking_le by_slot_starts_at a b =
      leb (start_or_zero (slot_start a)) (start_or_zero (slot_start b))

  -- `{ gte: parseUtcDate(from), lt: endDateExclusive(to) }`, each if it is given.
  abbrev pub in_dates : Option String → Option String → ℕ → Bool
  in_dates from to t =
      matches? (λ d. leb (calendar.parse_utc_date d) t) from
      && matches? (λ d. ltb t (end_date_exclusive calendar d)) to

  abbrev pub slot_in_dates : Option String → Option String → Option ℕ → Bool
  slot_in_dates none none start = true
  slot_in_dates from to none = false
  slot_in_dates from to (some t) = in_dates from to t

  -- `where`
  abbrev pub booking_where : ℕ → AdminBookingListQuery → Booking → Bool
  booking_where tenant_id query b =
      b.tenant_id == tenant_id
      && matches? (λ s. same_status b.status s) query.status
      && matches? (λ u. b.user_id == u) query.user_id
      && matches? (λ e. b.experience_id == e) query.experience_id
      && matches? (λ r. same_text b.reference r) query.reference
      && in_dates query.created_from query.created_to b.created_at
      && slot_in_dates query.slot_from query.slot_to (slot_start b)

  unfoldable pub booking_rows : ℕ → AdminBookingListQuery → List Booking
  booking_rows tenant_id query =
      select_page (booking_where tenant_id query)
        (directed query.sort_order (booking_le query.sort_by)) query.page query.page_size
        db.bookings

  -- A booking of the tenant that meets each filter of a query.
  abbrev pub IsListed : ℕ → AdminBookingListQuery → Booking → Type 0
  IsListed tenant query b =
      (b.tenant_id ≡ tenant)
      × (matches? (λ s. same_status b.status s) query.status ≡ true)
      × (matches? (λ u. b.user_id == u) query.user_id ≡ true)
      × (matches? (λ e. b.experience_id == e) query.experience_id ≡ true)
      × (matches? (λ r. same_text b.reference r) query.reference ≡ true)
      × (in_dates query.created_from query.created_to b.created_at ≡ true)
      × (slot_in_dates query.slot_from query.slot_to (slot_start b) ≡ true)

  -- Every booking of a list belongs to the tenant that asked, and meets each filter of the query.
  pub booking_rows_sound :
      (tenant : ℕ) (query : AdminBookingListQuery)
      → All (IsListed tenant query) (booking_rows tenant query)
  unfolding booking_rows
  booking_rows_sound tenant query =
      All-select_page _ (booking_where tenant query) _ query.page query.page_size db.bookings
        (λ b h. ground arith)

pub record AdminBookingListItem : Type 0 where
  pub booking_ref : String
  pub status : BookingStatus
  pub party_size : ℕ
  pub total_price : ℤ
  pub reserved_until : Option ℕ
  pub created_at : ℕ
  pub user_id : ℕ
  pub experience_id : ℕ
  pub slot_id : ℕ

-- The relations' other columns (address, title, dates) are read off the rows that the identifiers
-- name.
abbrev pub to_admin_booking_list_item : Booking → AdminBookingListItem
to_admin_booking_list_item b = record {
  booking_ref = b.reference;
  status = b.status;
  party_size = b.party_size;
  total_price = b.total_price;
  reserved_until = b.reserved_until;
  created_at = b.created_at;
  user_id = b.user_id;
  experience_id = b.experience_id;
  slot_id = b.slot_id;
}

pub record AdminBookingListResult : Type 0 where
  pub items : List AdminBookingListItem
  pub page : PaginationMeta

unfoldable pub list_tenant_bookings :
    Calendar → ℕ → AdminBookingListQuery → Action AdminBookingListResult
unfolding booking_rows
list_tenant_bookings calendar tenant_id query = do
  total_items ← gets (λ db. length (keep (booking_where calendar db tenant_id query) db.bookings))
  rows ← gets (λ db. booking_rows calendar db tenant_id query)
  pure (record {
    items = map to_admin_booking_list_item rows;
    page = pagination query.page query.page_size total_items;
  })
