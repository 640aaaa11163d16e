-- ===== src/Booking/Outcomes.antt =====
-- What the transactions of src/services/booking.service.ts do on every branch, as equations: the
-- state that a call leaves is written out.
use booking_availability_pla.Shared.{
  ℕ, ◌<◌, ◌≡◌, String, Bool, ◌||◌, Option, none, some, [], ◌∷◌, ◌++◌, find_first, update_where,
  same_text,
}
use booking_availability_pla.Errors.{conflict_error, app, other}
use booking_availability_pla.Model.{
  Booking, BookingStatus, BookingStatusHistory, AvailabilitySlot, reserved, confirmed, cancelled,
  reserved_event, confirmed_event, cancelled_event,
}
use booking_availability_pla.Pricing.Preview.{PricingPreview}
use booking_availability_pla.Service.{World, ok, err, booking_webhook, availability_invalidation}
use booking_availability_pla.Audit.{audit_row}
use booking_availability_pla.Booking.Slots.{
  can_reserve, can_release, take_seats, free_seats, append_status_history,
}
use booking_availability_pla.Booking.Views.{to_booking_summary, by_id}
use booking_availability_pla.Booking.Reserve.{
  Draw, CreateBookingBody, new_booking, reserve_seats, create_booking, reserved_audit,
  commit_reservation,
}
use booking_availability_pla.Booking.Confirm.{
  set_confirmed, write_confirmed, confirmed_audit, commit_confirm,
}
use booking_availability_pla.Booking.Cancel.{
  set_cancelled, write_cancelled, cancelled_audit, commit_cancel,
}
use booking_availability_pla.Booking.Adjusting.{
  take-none, take-some, free-none, free-some, update_booking-some, update_booking-none,
}

abbrev pub history_row :
    ℕ → ℕ → Option BookingStatus → BookingStatus → Option ℕ → Option String → BookingStatusHistory
history_row now id from to actor reason = record {
  booking_id = id;
  from_status = from;
  to_status = to;
  actor_user_id = actor;
  reason = reason;
  created_at = now;
}

-- A booking in the table has the primary key or the reference of a new one.
abbrev pub clashes : ℕ → String → Booking → Bool
clashes id reference x = by_id id x || same_text x.reference reference

module _ (draw : Draw) (tenant user : ℕ) (body : CreateBookingBody) (slot : AvailabilitySlot)
    (preview : PricingPreview) (w : World) where
  abbrev reserved_booking : Booking
  reserved_booking = new_booking draw tenant user body slot preview

  abbrev takes : AvailabilitySlot → Bool
  takes = can_reserve slot.id tenant body.party_size slot.version

  -- The state after a reservation.
  abbrev pub reserved_world : World
  reserved_world = record {
    db = record w.db {
      slots = update_where takes (take_seats body.party_size) w.db.slots;
      bookings = w.db.bookings ++ reserved_booking ∷ [];
      history =
          w.db.history ++ history_row draw.now draw.booking_id none reserved (some user) none ∷ [];
      audit_logs =
          w.db.audit_logs ++ audit_row draw.now (reserved_audit tenant user reserved_booking) ∷ [];
    };
    queued =
        (w.queued ++ booking_webhook tenant reserved_event draw.booking_id ∷ [])
        ++ availability_invalidation tenant ∷ [];
  }

  -- A slot that changed hands or filled up since it was read: refused, and nothing is written.
  pub commit_reservation-refused :
      0 < body.party_size
      → find_first takes w.db.slots ≡ none
      → commit_reservation draw tenant user body slot preview w
        ≡ (err (app (conflict_error "Slot no longer available")), w)
  unfolding commit_reservation reserve_seats
  commit_reservation-refused h e = rw (take-none slot.id tenant body.party_size slot.version w h e)

  -- An identifier or a reference that is taken: the seats go back with the transaction.
  pub commit_reservation-clash :
      (s : AvailabilitySlot) (b : Booking)
      → 0 < body.party_size
      → find_first takes w.db.slots ≡ some s
      → find_first (clashes draw.booking_id draw.reference) w.db.bookings ≡ some b
      → commit_reservation draw tenant user body slot preview w
        ≡ (err (other "Unique constraint failed"), w)
  unfolding commit_reservation reserve_seats create_booking
  commit_reservation-clash s b h e c =
      rw (take-some slot.id tenant body.party_size slot.version w s h e) (rw c)

  pub commit_reservation-done :
      (s : AvailabilitySlot)
      → 0 < body.party_size
      → find_first takes w.db.slots ≡ some s
      → find_first (clashes draw.booking_id draw.reference) w.db.bookings ≡ none
      → commit_reservation draw tenant user body slot preview w
        ≡ (ok (to_booking_summary reserved_booking), reserved_world)
  unfolding commit_reservation reserve_seats create_booking append_status_history
  commit_reservation-done s h e c =
      rw (take-some slot.id tenant body.party_size slot.version w s h e) (rw c)

module _ (now tenant user : ℕ) (booking : Booking) (w : World) where
  -- The state after a confirmation.
  abbrev pub confirmed_world : World
  confirmed_world = record {
    db = record w.db {
      bookings = update_where (by_id booking.id) set_confirmed w.db.bookings;
      history =
          w.db.history
          ++ history_row now booking.id (some booking.status) confirmed (some user) none ∷ [];
      audit_logs = w.db.audit_logs ++ audit_row now (confirmed_audit tenant user booking) ∷ [];
    };
    queued = w.queued ++ booking_webhook tenant confirmed_event booking.id ∷ [];
  }

  pub commit_confirm-done :
      (b : Booking)
      → find_first (by_id booking.id) w.db.bookings ≡ some b
      → b.id ≡ booking.id
      → commit_confirm now tenant user booking w
        ≡ (ok (to_booking_summary (set_confirmed b)), confirmed_world)
  unfolding commit_confirm write_confirmed append_status_history
  commit_confirm-done b e same = rw (update_booking-some booking.id set_confirmed w b e) (rw same)

  pub commit_confirm-missing :
      find_first (by_id booking.id) w.db.bookings ≡ none
      → commit_confirm now tenant user booking w ≡ (err (other "Record to update not found"), w)
  unfolding commit_confirm write_confirmed
  commit_confirm-missing e = rw (update_booking-none booking.id set_confirmed w e)

module _ (now tenant user : ℕ) (reason : String) (booking : Booking) (version : ℕ) (w : World) where
  abbrev releases : AvailabilitySlot → Bool
  releases = can_release booking.slot_id tenant booking.party_size version

  abbrev released_world : World
  released_world = record w {
    db = record w.db { slots = update_where releases (free_seats booking.party_size) w.db.slots };
  }

  -- The state after a cancellation.
  abbrev pub cancelled_world : World
  cancelled_world = record {
    db = record w.db {
      slots = update_where releases (free_seats booking.party_size) w.db.slots;
      bookings = update_where (by_id booking.id) set_cancelled w.db.bookings;
      history =
          w.db.history
          ++ history_row now booking.id (some booking.status) cancelled (some user) (some reason)
            ∷ [];
      audit_logs =
          w.db.audit_logs ++ audit_row now (cancelled_audit tenant user reason booking) ∷ [];
    };
    queued =
        (w.queued ++ booking_webhook tenant cancelled_event booking.id ∷ [])
        ++ availability_invalidation tenant ∷ [];
  }

  -- A slot that changed since it was read: refused, and nothing is written.
  pub commit_cancel-refused :
      find_first releases w.db.slots ≡ none
      → commit_cancel now tenant user reason booking version w
        ≡ (err (app (conflict_error "Failed to release slot reservation")), w)
  unfolding commit_cancel write_cancelled
  commit_cancel-refused e = rw (free-none booking.slot_id tenant booking.party_size version w e)

  pub commit_cancel-missing :
      (s : AvailabilitySlot)
      → find_first releases w.db.slots ≡ some s
      → find_first (by_id booking.id) w.db.bookings ≡ none
      → commit_cancel now tenant user reason booking version w
        ≡ (err (other "Record to update not found"), w)
  unfolding commit_cancel write_cancelled
  commit_cancel-missing s e m =
      rw (free-some booking.slot_id tenant booking.party_size version w s e)
        (rw (update_booking-none booking.id set_cancelled released_world m))

  pub commit_cancel-done :
      (s : AvailabilitySlot) (b : Booking)
      → find_first releases w.db.slots ≡ some s
      → find_first (by_id booking.id) w.db.bookings ≡ some b
      → b.id ≡ booking.id
      → commit_cancel now tenant user reason booking version w
        ≡ (ok (to_booking_summary (set_cancelled b)), cancelled_world)
  unfolding commit_cancel write_cancelled append_status_history
  commit_cancel-done s b e m same =
      rw (free-some booking.slot_id tenant booking.party_size version w s e)
        (rw (update_booking-some booking.id set_cancelled released_world b m) (rw same))
