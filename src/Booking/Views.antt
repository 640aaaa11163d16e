-- ===== src/Booking/Views.antt =====
-- Lookups and results of src/services/booking.service.ts: `findOwnedBooking`, `toBookingSummary`
-- and `getBookingDetail`. A date is kept as a number where the code prints it in ISO form, and an
-- amount as its cents.
use booking_availability_pla.Shared.{
  ◌≡◌, arith, ℕ, ℤ, String, Bool, ◌&&◌, Option, none, some, List, map, ◌==◌, same_text, find_first,
  update_where, keep, sort_by,
}
use booking_availability_pla.Errors.{not_found_error}
use booking_availability_pla.Model.{
  Db, Booking, BookingStatus, BookingStatusHistory, Experience, AvailabilitySlot,
}
use booking_availability_pla.Service.{World, ok, Action, Result, ◌>>=◌, gets, or_throw, fault, pure}

pub record BookingSummary : Type 0 where
  pub booking_ref : String
  pub status : BookingStatus
  pub party_size : ℕ
  pub total_price : ℤ
  pub reserved_until : Option ℕ

unfoldable pub to_booking_summary : Booking → BookingSummary
to_booking_summary b = record {
  booking_ref = b.reference;
  status = b.status;
  party_size = b.party_size;
  total_price = b.total_price;
  reserved_until = b.reserved_until;
}

-- `where: { tenantId, userId, reference }`
abbrev pub is_owned : ℕ → ℕ → String → Booking → Bool
is_owned tenant_id user_id reference b =
    b.tenant_id == tenant_id && b.user_id == user_id && same_text b.reference reference

abbrev pub by_id : ℕ → Booking → Bool
by_id id b = b.id == id

abbrev pub find_owned_booking : ℕ → ℕ → String → Action Booking
find_owned_booking tenant_id user_id reference = do
  found ← gets (λ db. find_first (is_owned tenant_id user_id reference) db.bookings)
  or_throw found (not_found_error "Booking not found")

-- `tx.booking.update({ where: { id }, data })`: the changed row, or an error where there is none.
abbrev pub update_found : ℕ → (Booking → Booking) → Option Booking → Action Booking
update_found id change none w = fault "Record to update not found" w
update_found id change (some b) w = (
  Result.ok (change b),
  record w { db = record w.db { bookings = update_where (by_id id) change w.db.bookings } },
)

unfoldable pub update_booking : ℕ → (Booking → Booking) → Action Booking
update_booking id change = do
  found ← gets (λ db. find_first (by_id id) db.bookings)
  update_found id change found

pub record BookingTimelineEntry : Type 0 where
  pub from_status : Option BookingStatus
  pub to_status : BookingStatus
  pub reason : Option String
  pub actor_user_id : Option ℕ
  pub at : ℕ

pub record BookingDetailResult : Type 0 where
  pub summary : BookingSummary
  pub experience_id : ℕ
  pub experience_title : String
  pub slot_id : ℕ
  pub starts_at : ℕ
  pub ends_at : ℕ
  pub timeline : List BookingTimelineEntry

abbrev pub to_timeline_entry : BookingStatusHistory → BookingTimelineEntry
to_timeline_entry entry = record {
  from_status = entry.from_status;
  to_status = entry.to_status;
  reason = entry.reason;
  actor_user_id = entry.actor_user_id;
  at = entry.created_at;
}

-- A foreign key that finds no row would be a fault of the database.
abbrev pub or_fault : {A : Type 0} → Option A → Action A
or_fault none = fault "Inconsistent column data"
or_fault (some a) = pure a

abbrev pub timeline_of : ℕ → Db → List BookingTimelineEntry
timeline_of booking_id db =
    map to_timeline_entry
      (sort_by (λ h. h.created_at) (keep (λ h. h.booking_id == booking_id) db.history))

unfoldable pub get_booking_detail : ℕ → ℕ → String → Action BookingDetailResult
unfolding to_booking_summary
get_booking_detail tenant_id user_id reference = do
  booking ← find_owned_booking tenant_id user_id reference
  e ← gets (λ db. find_first (λ (x : Experience). x.id == booking.experience_id) db.experiences)
  experience ← or_fault e
  s ← gets (λ db. find_first (λ (x : AvailabilitySlot). x.id == booking.slot_id) db.slots)
  slot ← or_fault s
  timeline ← gets (timeline_of booking.id)
  pure (record {
    summary = to_booking_summary booking;
    experience_id = experience.id;
    experience_title = experience.title;
    slot_id = slot.id;
    starts_at = slot.starts_at;
    ends_at = slot.ends_at;
    timeline = timeline;
  })

pub or_fault-eq-ok :
    {A : Type 0} (o : Option A) (a : A) (w v : World)
    → or_fault o w ≡ (ok a, v)
    → (o ≡ some a) × (v ≡ w)
or_fault-eq-ok none a w v e = absurd (ground arith)
or_fault-eq-ok (some b) a w v e = ground arith
