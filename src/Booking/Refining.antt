-- ===== src/Booking/Refining.antt =====
-- The transactions of src/services/booking.service.ts, in any order, against the state machine of
-- src/services/booking-state.ts.
use booking_availability_pla.Shared.{
  ℕ, ◌<◌, ◌≡◌, refl, sym, String, true, some, [], arith, find_first, find_first_sound,
  find_first-key, find_first-Absent, Absent-of_none, All-find_first, Option-cases, inl, inr,
}
use booking_availability_pla.Model.{
  Booking, BookingStatus, reserved, confirmed, cancelled, expired, AvailabilitySlot,
}
use booking_availability_pla.Pricing.Numbers.{Numeric}
use booking_availability_pla.Pricing.Preview.{PricingPreview}
use booking_availability_pla.Service.{World}
use booking_availability_pla.Booking.State.{allowed_transitions, includes_status}
use booking_availability_pla.Booking.Slots.{can_reserve, can_release}
use booking_availability_pla.Booking.Views.{by_id}
use booking_availability_pla.Booking.Reserve.{
  Draw, CreateBookingBody, commit_reservation, new_booking,
}
use booking_availability_pla.Booking.Confirm.{set_confirmed, commit_confirm}
use booking_availability_pla.Booking.Cancel.{set_cancelled, commit_cancel}
use booking_availability_pla.Booking.Expire.{StaleBooking, set_expired, claims, expire_reservation}
use booking_availability_pla.Booking.Seats.{booking_key, is_active}
use booking_availability_pla.Booking.Outcomes.{
  clashes, commit_reservation-refused, commit_reservation-clash, commit_reservation-done,
  commit_confirm-done, commit_cancel-refused, commit_cancel-done,
}
use booking_availability_pla.Booking.Expiring.{
  its_slot, frees, expire_reservation-unclaimed, expire_reservation-slotless,
  expire_reservation-refused, expire_reservation-done,
}
use booking_availability_pla.Booking.Accounting.{InAccounts, claims-key}
use booking_availability_pla.Booking.Tracking.{IsTracked, IsBehind}
use booking_availability_pla.Booking.Races.{
  Pending, reserving, confirming, cancelling, expiring, commit, System, Step, read, commits, Run,
  stop, then,
}
use booking_availability_pla.Booking.Interleaving.{IsHeld, Knows, Inv, All-middle, Run-Inv}
use booking_availability_pla.Booking.Lifecycle.{
  statuses, Evolves, stays, update-Evolves, append-Evolves,
}

-- A confirmation may commit while its booking is still reserved; every other request may commit at any time.
abbrev pub IsReserved : World → Pending → Type 0
IsReserved w (confirming now tenant user b) =
    (x : Booking) × (find_first (by_id b.id) w.db.bookings ≡ some x) × (x.status ≡ reserved)
IsReserved w _ = Unit

-- The abstract states before and after.
abbrev pub Refines : World → World → Type 0
Refines w w' = Evolves (statuses w.db.bookings) (statuses w'.db.bookings)

Refines-refl : (w : World) → Refines w w
Refines-refl w = stays (λ id. refl)

clashes-key :
    (id : ℕ) (reference : String) (x : Booking) → booking_key x ≡ id → clashes id reference x ≡ true
clashes-key id reference x h = ground arith

by_id-key : (id : ℕ) (x : Booking) → by_id id x ≡ true → booking_key x ≡ id
by_id-key id x h = ground arith

cancel_allowed :
    (status : BookingStatus)
    → is_active status ≡ true
    → includes_status (allowed_transitions status) cancelled ≡ true
cancel_allowed reserved h = refl
cancel_allowed confirmed h = refl
cancel_allowed cancelled h = cc
cancel_allowed expired h = cc

claims-by_id : (now id : ℕ) (x : Booking) → claims now id x ≡ true → by_id id x ≡ true
claims-by_id now id x h = ground arith

claims-reserved : (now id : ℕ) (x : Booking) → claims now id x ≡ true → x.status ≡ reserved
claims-reserved now id x h = ground arith

module _ (base : ℕ → ℕ) (w : World) (v : InAccounts base w) where
  reservation-Refines :
      (draw : Draw) (tenant user : ℕ) (body : CreateBookingBody) (slot : AvailabilitySlot)
      (preview : PricingPreview)
      → 0 < body.party_size
      → Refines w (commit_reservation draw tenant user body slot preview w).1
  reservation-Refines draw tenant user body slot preview h =
      elim (Option-cases
        (find_first (can_reserve slot.id tenant body.party_size slot.version) w.db.slots)) [
          | inl e ↦
              rw (commit_reservation-refused draw tenant user body slot preview w h e)
                (Refines-refl w)
          | inr (s, e) ↦
              elim (Option-cases
                (find_first (clashes draw.booking_id draw.reference) w.db.bookings)) [
                  | inr (b, c) ↦
                      rw (commit_reservation-clash draw tenant user body slot preview w s b h e c)
                        (Refines-refl w)
                  | inl c ↦
                      rw (commit_reservation-done draw tenant user body slot preview w s h e c) (
                        append-Evolves w.db.bookings
                          (new_booking draw tenant user body slot preview)
                          (find_first-Absent booking_key draw.booking_id (by_id draw.booking_id)
                            (by_id-key draw.booking_id) w.db.bookings
                            (Absent-of_none booking_key draw.booking_id _ w.db.bookings
                              (clashes-key draw.booking_id draw.reference) c))
                          refl)
                ]
        ]

  confirm-Refines :
      (now tenant user : ℕ) (booking x : Booking)
      → find_first (by_id booking.id) w.db.bookings ≡ some x
      → x.status ≡ reserved
      → Refines w (commit_confirm now tenant user booking w).1
  confirm-Refines now tenant user booking x found held =
      let hit = find_first_sound _ w.db.bookings x found in
      rw (commit_confirm-done now tenant user booking w x found (by_id-key booking.id x hit)) (
        update-Evolves booking.id (by_id booking.id) set_confirmed w.db.bookings x (λ y h. h)
          (λ y. refl) found hit (rw held refl))

  cancel-Refines :
      (now tenant user : ℕ) (reason : String) (b : Booking) (version : ℕ)
      → IsTracked b.id b.slot_id b.party_size version w.db.slots w.db.bookings
      → Refines w (commit_cancel now tenant user reason b version w).1
  cancel-Refines now tenant user reason b version (x, found, here, many, behind) =
      elim (Option-cases
        (find_first (can_release b.slot_id tenant b.party_size version) w.db.slots)) [
          | inl r ↦ rw (commit_cancel-refused now tenant user reason b version w r) (Refines-refl w)
          | inr (s, r) ↦
              let test = find_first_sound _ w.db.slots s r in
              let (past, active) =
                All-find_first (IsBehind b.slot_id version x.status) _ w.db.slots s behind r
                  (ground arith) in
              let hit = find_first_sound _ w.db.bookings x found in
              rw
                (commit_cancel-done now tenant user reason b version w s x r found
                  (by_id-key b.id x hit))
                (update-Evolves b.id (by_id b.id) set_cancelled w.db.bookings x (λ y h. h)
                  (λ y. refl) found hit (cancel_allowed x.status (active (ground arith))))
        ]

  expire-Refines : (now : ℕ) (b : StaleBooking) → Refines w (expire_reservation now b w).1
  expire-Refines now b = elim (Option-cases (find_first (claims now b.id) w.db.bookings)) [
    | inl e ↦ rw (expire_reservation-unclaimed now b w e) (Refines-refl w)
    | inr (x, e) ↦ elim (Option-cases (find_first (its_slot now b w) w.db.slots)) [
      | inl r ↦ rw (expire_reservation-slotless now b w x e r) (Refines-refl w)
      | inr (s, r) ↦ elim (Option-cases (find_first (frees now b w s.version) w.db.slots)) [
        | inl t ↦ rw (expire_reservation-refused now b w x e s r t) (Refines-refl w)
        | inr (s', t) ↦
            let hit = find_first_sound _ w.db.bookings x e in
            let row = find_first-key booking_key _ w.db.bookings x v.unique_bookings e in
            rw (expire_reservation-done now b w x e s s' r t) (
              update-Evolves b.id (claims now b.id) set_expired w.db.bookings x
                (claims-by_id now b.id) (λ y. refl) (rw (sym (claims-key now b.id x hit)) row) hit
                (rw (claims-reserved now b.id x hit) refl))
      ]
    ]
  ]

  commit-Refines : (p : Pending) → Knows w p → IsReserved w p → Refines w (commit p w)
  commit-Refines (reserving draw tenant user body slot preview) h held =
      reservation-Refines draw tenant user body slot preview h
  commit-Refines (confirming now tenant user b) h (x, found, status) =
      confirm-Refines now tenant user b x found status
  commit-Refines (cancelling now tenant user reason b version) h held =
      cancel-Refines now tenant user reason b version h
  commit-Refines (expiring now b) h held = expire-Refines now b

IsReserved-IsHeld : (w : World) (p : Pending) → IsReserved w p → IsHeld w p
IsReserved-IsHeld w (reserving draw tenant user body slot preview) h = tt
IsReserved-IsHeld w (confirming now tenant user b) (x, found, status) = (x, found, rw status refl)
IsReserved-IsHeld w (cancelling now tenant user reason b version) h = tt
IsReserved-IsHeld w (expiring now b) h = tt

Step-IsHeld : (num : Numeric) (s t : System) → Step num IsReserved s t → Step num IsHeld s t
Step-IsHeld num _ _ (read w ps p r) = read w ps p r
Step-IsHeld num _ _ (commits w before after p h) =
    commits w before after p (IsReserved-IsHeld w p h)

Run-IsHeld : (num : Numeric) (s t : System) → Run num IsReserved s t → Run num IsHeld s t
Run-IsHeld num _ _ (stop s) = stop s
Run-IsHeld num _ _ (then s t u run step) =
    then s t u (Run-IsHeld num s t run) (Step-IsHeld num t u step)

Step-Refines :
    (base : ℕ → ℕ) (num : Numeric) (s t : System)
    → Inv base s
    → Step num IsReserved s t
    → Refines s.world t.world
Step-Refines base num _ _ inv (read w ps p r) = Refines-refl w
Step-Refines base num _ _ inv (commits w before after p h) =
    commit-Refines base w inv.accounts p (All-middle (Knows w) before after p inv.known).0 h

-- The bookings refine the table of transitions: after any sequence of requests that read and commit in any
-- order, reservations being of at least one seat, from seat accounts in order and no request under way, the
-- next step adds one booking, reserved, moves one booking along the table, or leaves every status as it is,
-- where every confirmation commits while its booking is still reserved.
pub Run-Refines :
    (base : ℕ → ℕ) (num : Numeric) (w : World) (s t : System)
    → InAccounts base w
    → Run num IsReserved (record { world = w; pending = [] }) s
    → Step num IsReserved s t
    → Refines s.world t.world
Run-Refines base num w s t v run step =
    Step-Refines base num s t
      (Run-Inv base num _ s (Run-IsHeld num _ s run) (record { accounts = v; known = tt })) step
