-- ===== src/Booking/Races.antt =====
-- Requests to src/services/booking.service.ts that come between each other: each reads and checks first, and
-- its transaction commits later, on the state of then. Transactions run one at a time.
use booking_availability_pla.Shared.{ℕ, ◌+◌, ◌<◌, ◌≡◌, ltb, String, false, List, ◌∷◌, ◌++◌}
use booking_availability_pla.Model.{Booking, AvailabilitySlot}
use booking_availability_pla.Pricing.Numbers.{Numeric}
use booking_availability_pla.Pricing.Preview.{PricingPreview}
use booking_availability_pla.Service.{World, ok}
use booking_availability_pla.Booking.Reserve.{
  Draw, CreateBookingBody, SlotDetail, find_slot, commit_reservation,
}
use booking_availability_pla.Booking.Confirm.{check_confirm, commit_confirm}
use booking_availability_pla.Booking.Cancel.{check_cancel, commit_cancel}
use booking_availability_pla.Booking.Expire.{StaleBooking, stale_batch, expire_reservation}
use booking_availability_pla.Booking.Atomic.{preview_of}

-- A request that has read and checked, with what it has read.
pub data Pending : Type 0 where
  reserving :
      Draw → (tenant user : ℕ) → CreateBookingBody → AvailabilitySlot → PricingPreview → Pending
  confirming : (now tenant user : ℕ) → Booking → Pending
  cancelling : (now tenant user : ℕ) (reason : String) → Booking → (version : ℕ) → Pending
  expiring : (now : ℕ) → StaleBooking → Pending

-- What its transaction leaves, whether it returns or throws.
abbrev pub commit : Pending → World → World
commit (reserving draw tenant user body slot preview) w =
    (commit_reservation draw tenant user body slot preview w).1
commit (confirming now tenant user b) w = (commit_confirm now tenant user b w).1
commit (cancelling now tenant user reason b version) w =
    (commit_cancel now tenant user reason b version w).1
commit (expiring now b) w = (expire_reservation now b w).1

-- The first half of a request, in a state: what the second half will work with.
pub data Reads (num : Numeric) (w : World) : Pending → Type 0 where
  reads_slot :
      (draw : Draw) (tenant user : ℕ) (body : CreateBookingBody) (d : SlotDetail)
      → 0 < body.party_size
      → find_slot tenant body.slot_id w ≡ (ok d, w)
      → ltb d.slot.capacity (d.slot.reserved_seats + body.party_size) ≡ false
      → Reads num w (reserving draw tenant user body d.slot (preview_of w num draw body d))
  reads_reserved :
      (now tenant user : ℕ) (reference : String) (b : Booking)
      → check_confirm now tenant user reference w ≡ (ok b, w)
      → Reads num w (confirming now tenant user b)
  reads_active :
      (now tenant user : ℕ) (reference reason : String) (b : Booking) (version : ℕ)
      → check_cancel tenant user reference w ≡ (ok (b, version), w)
      → Reads num w (cancelling now tenant user reason b version)
  reads_stale :
      (now : ℕ) (before after : List StaleBooking) (b : StaleBooking)
      → stale_batch now w.db.bookings ≡ before ++ b ∷ after
      → Reads num w (expiring now b)

pub record System : Type 0 where
  pub world : World
  pub pending : List Pending

-- A step: a request reads, or one that has read commits, where its state lets it.
pub data Step (num : Numeric) (Lets : World → Pending → Type 0) : System → System → Type 0 where
  read :
      (w : World) (ps : List Pending) (p : Pending)
      → Reads num w p
      → Step num Lets (record { world = w; pending = ps }) (record { world = w; pending = p ∷ ps })
  commits :
      (w : World) (before after : List Pending) (p : Pending)
      → Lets w p
      → Step num Lets
          (record { world = w; pending = before ++ p ∷ after })
          (record { world = commit p w; pending = before ++ after })

-- A sequence of steps.
pub data Run (num : Numeric) (Lets : World → Pending → Type 0) : System → System → Type 0 where
  stop : (s : System) → Run num Lets s s
  then : (s t u : System) → Run num Lets s t → Step num Lets t u → Run num Lets s u
