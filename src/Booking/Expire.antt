-- ===== src/Booking/Expire.antt =====
-- `expireReservation` and `expireStaleReservations` of src/services/booking.service.ts.
use booking_availability_pla.Shared.{
  ℕ, ◌+◌, neg_ℕ, String, Bool, true, false, ◌&&◌, none, some, List, [], ◌∷◌, map, ◌==◌,
  if◌then◌else◌, find_first, count_where, update_where, keep, take, sort_by,
}
use booking_availability_pla.Errors.{conflict_error}
use booking_availability_pla.Model.{
  json_object, text, status_text, Booking, AvailabilitySlot, reserved, expired, booking_expired,
  booking_entity, expired_event, same_status,
}
use booking_availability_pla.Service.{
  Action, Result, ok, err, ◌>>=◌, ◌>>◌, gets, modify, or_throw, pure, enqueue, transaction,
  booking_webhook, availability_invalidation,
}
use booking_availability_pla.Audit.{AuditContext, log_audit}
use booking_availability_pla.Booking.Slots.{adjust_slot_reserved, append_status_history}
use booking_availability_pla.Booking.Confirm.{is_overdue}

-- The columns that `select` reads of a stale booking.
pub record StaleBooking : Type 0 where
  pub id : ℕ
  pub tenant_id : ℕ
  pub slot_id : ℕ
  pub party_size : ℕ
  pub reference : String

abbrev pub set_expired : Booking → Booking
set_expired b = record b { status = expired; reserved_until = none }

-- `status: RESERVED, reservedUntil: { lt: new Date() }`
abbrev pub is_stale : ℕ → Booking → Bool
is_stale now b = same_status b.status reserved && is_overdue now b.reserved_until

abbrev pub claims : ℕ → ℕ → Booking → Bool
claims now id b = b.id == id && is_stale now b

-- `updateMany` on the one booking, if it is still stale; gives `claimed.count`.
abbrev pub claim : ℕ → ℕ → Action ℕ
claim now id = do
  count ← gets (λ db. count_where (claims now id) db.bookings)
  modify (λ db. record db { bookings = update_where (claims now id) set_expired db.bookings })
  pure count

abbrev pub expired_audit : StaleBooking → AuditContext
expired_audit b = record {
  event_type = booking_expired;
  tenant_id = some b.tenant_id;
  actor_user_id = none;
  entity_type = booking_entity;
  entity_id = some b.id;
  metadata =
      json_object
        (("booking_ref", text b.reference) ∷ ("previousStatus", text (status_text reserved)) ∷ []);
}

-- What follows a successful claim.
unfoldable pub release_claimed : ℕ → StaleBooking → Action Bool
release_claimed now b = do
  found ← gets (λ db.
      find_first (λ (s : AvailabilitySlot). s.id == b.slot_id && s.tenant_id == b.tenant_id)
        db.slots)
  slot ← or_throw found (conflict_error "Slot not found while expiring reservation")
  adjust_slot_reserved b.slot_id b.tenant_id (neg_ℕ b.party_size) slot.version
  append_status_history now b.id (some reserved) expired none (some "Reservation hold expired")
  log_audit now (expired_audit b)
  enqueue (booking_webhook b.tenant_id expired_event b.id)
  enqueue (availability_invalidation b.tenant_id)
  pure true

unfoldable pub expire_reservation : ℕ → StaleBooking → Action Bool
expire_reservation now b =
    transaction
      (do count ← claim now b.id; if count == 0 then pure false else release_claimed now b)

abbrev pub expiry_batch_size : ℕ
expiry_batch_size = 50

abbrev pub until_key : Booking → ℕ
until_key b = elim b.reserved_until [ none ↦ 0 | some t ↦ t ]

abbrev pub to_stale : Booking → StaleBooking
to_stale b = record {
  id = b.id;
  tenant_id = b.tenant_id;
  slot_id = b.slot_id;
  party_size = b.party_size;
  reference = b.reference;
}

-- The first rows by `reservedUntil`; a stale booking has one, so `until_key` orders them.
unfoldable pub stale_batch : ℕ → List Booking → List StaleBooking
stale_batch now bookings =
    map to_stale (take expiry_batch_size (sort_by until_key (keep (is_stale now) bookings)))

-- `try { … } catch { }` round one booking: the count grows if it did expire.
abbrev pub tally : ℕ → Result Bool → ℕ
tally n (ok true) = n + 1
tally n (ok false) = n
tally n (err e) = n

unfoldable pub expire_each : ℕ → List StaleBooking → ℕ → Action ℕ
expire_each now [] n w = (ok n, w)
expire_each now (b ∷ bs) n w =
    let (r, w') = expire_reservation now b w in expire_each now bs (tally n r) w'

unfoldable pub expire_stale_reservations : ℕ → Action ℕ
unfolding stale_batch expire_each
expire_stale_reservations now = do
  stale ← gets (λ db. stale_batch now db.bookings)
  expire_each now stale 0
