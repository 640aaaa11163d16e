-- ===== src/Booking/Handlers.antt =====
-- The seat accounts under the whole handlers of src/services/booking.service.ts, each run on its own.
use booking_availability_pla.Shared.{
  ℕ, ◌+◌, ◌<◌, ◌≡◌, ◌≢◌, refl, sym, String, List, [], ◌∷◌, arith, find_first, update_where, ltb,
  Option-cases, Bool-cases, inl, inr, ◌⊎◌, find_first_sound, find_first-key, Unique, All,
  All-of_Absent, All-update, All-map_weaken, All-keep, All-pair, All-map, All-sort_with, All-take,
  All-find_first, keep, sort_by,
}
use booking_availability_pla.Model.{Booking}
use booking_availability_pla.Pricing.Numbers.{Numeric}
use booking_availability_pla.Service.{World}
use booking_availability_pla.Booking.Reserve.{
  Draw, CreateBookingBody, find_slot, create_reservation,
}
use booking_availability_pla.Booking.Confirm.{check_confirm, commit_confirm, confirm_reservation}
use booking_availability_pla.Booking.Cancel.{check_cancel, cancel_reservation}
use booking_availability_pla.Booking.Expire.{
  StaleBooking, set_expired, claims, is_stale, to_stale, stale_batch, until_key, expiry_batch_size,
  tally, expire_reservation, expire_each, expire_stale_reservations,
}
use booking_availability_pla.Booking.Seats.{booking_key}
use booking_availability_pla.Booking.Expiring.{
  its_slot, frees, expire_reservation-unclaimed, expire_reservation-slotless,
  expire_reservation-refused, expire_reservation-done,
}
use booking_availability_pla.Booking.Checks.{
  follow_reader, find_slot_reads, check_confirm_reads, check_cancel_reads, check_confirm_sound,
  check_cancel_sound,
}
use booking_availability_pla.Booking.Accounting.{
  InAccounts, KeepsAccounts, commit_reservation-Accounts, commit_confirm-Accounts,
  commit_cancel-Accounts, expire_reservation-Accounts, claims-key,
}

module _ (base : ℕ → ℕ) (w : World) (v : InAccounts base w) where
  -- A reservation of at least one seat, from a state whose seat accounts are in order, leaves them in
  -- order, whether it returns or throws: no slot is booked beyond its capacity, and each slot counts
  -- exactly the seats that its bookings hold, besides a fixed base.
  pub create_reservation-Accounts :
      (num : Numeric) (draw : Draw) (tenant user : ℕ) (body : CreateBookingBody)
      → 0 < body.party_size
      → KeepsAccounts base (create_reservation num draw tenant user body w)
  unfolding create_reservation
  create_reservation-Accounts num draw tenant user body h =
      follow_reader (KeepsAccounts base) _ (find_slot tenant body.slot_id w) w
        (find_slot_reads w tenant body.slot_id) (λ e. v)
        λ detail e.
          elim (Bool-cases
            (ltb detail.slot.capacity (detail.slot.reserved_seats + body.party_size))) [
              | inl full ↦ rw full v
              | inr room ↦
                  rw room
                    (commit_reservation-Accounts base w v draw tenant user body detail.slot _ h)
            ]

  -- A confirmation, run on its own from a state whose seat accounts are in order, leaves them in order,
  -- whether it returns or throws.
  pub confirm_reservation-Accounts :
      (now tenant user : ℕ) (reference : String)
      → KeepsAccounts base (confirm_reservation now tenant user reference w)
  unfolding confirm_reservation
  confirm_reservation-Accounts now tenant user reference =
      follow_reader (KeepsAccounts base) (commit_confirm now tenant user)
        (check_confirm now tenant user reference w) w
        (check_confirm_reads w now tenant user reference) (λ e. v)
        λ b e.
          let (found, status, _) = check_confirm_sound w now tenant user reference b e in
          commit_confirm-Accounts base w v now tenant user b b
            (find_first-key booking_key _ w.db.bookings b v.unique_bookings found) (ground arith)

  -- A cancellation, run on its own from a state whose seat accounts are in order, leaves them in order,
  -- whether it returns or throws.
  pub cancel_reservation-Accounts :
      (now tenant user : ℕ) (reference reason : String)
      → KeepsAccounts base (cancel_reservation now tenant user reference reason w)
  unfolding cancel_reservation
  cancel_reservation-Accounts now tenant user reference reason =
      follow_reader (KeepsAccounts base) _ (check_cancel tenant user reference w) w
        (check_cancel_reads w tenant user reference) (λ e. v)
        λ checked e.
          let (found, active) = check_cancel_sound w tenant user reference checked.0 checked.1 e in
          commit_cancel-Accounts base w v now tenant user reason checked.0 checked.1 checked.0
            (find_first-key booking_key _ w.db.bookings checked.0 v.unique_bookings found) active
            refl refl

-- The rows with a stale booking's identifier have the slot and the size that were read.
abbrev SameSeats : StaleBooking → Booking → Type 0
SameSeats b x = x.id ≡ b.id → (x.slot_id ≡ b.slot_id) × (x.party_size ≡ b.party_size)

abbrev IsFaithful : List Booking → StaleBooking → Type 0
IsFaithful bookings b = All (SameSeats b) bookings

IsFaithful-cons :
    (x : Booking) (xs : List Booking) (b : Booking)
    → b.id ≢ x.id
    → IsFaithful xs (to_stale b)
    → IsFaithful (x ∷ xs) (to_stale b)
IsFaithful-cons x xs b differ h = ((λ e. absurd (differ (sym e))), h)

All-IsFaithful :
    (bookings : List Booking)
    → Unique booking_key bookings
    → All (λ b. IsFaithful bookings (to_stale b)) bookings
All-IsFaithful [] u = tt
All-IsFaithful (x ∷ xs) u = (
  (
    (λ e. (refl, refl)),
    All-map_weaken _ (λ y differ e. absurd (differ e)) xs (All-of_Absent booking_key x.id xs u.0),
  ),
  All-map_weaken _ (λ y h. IsFaithful-cons x xs y h.0 h.1) xs
      (All-pair _ _ xs (All-of_Absent booking_key x.id xs u.0) (All-IsFaithful xs u.1)),
)

stale_batch-IsFaithful :
    (now : ℕ) (bookings : List Booking)
    → Unique booking_key bookings
    → All (IsFaithful bookings) (stale_batch now bookings)
unfolding stale_batch
stale_batch-IsFaithful now bookings u = All-map (IsFaithful bookings) to_stale _ (
    All-take _ expiry_batch_size (sort_by until_key (keep (is_stale now) bookings)) (
      All-sort_with _ _ (keep (is_stale now) bookings)
        (All-keep _ (is_stale now) bookings (All-IsFaithful bookings u))))

module _ (now : ℕ) (b : StaleBooking) (w : World) where
  -- An expiry leaves the bookings alone or marks the one that it claims.
  expire_reservation-bookings :
      let after = (expire_reservation now b w).1.db.bookings in
      (after ≡ w.db.bookings) ⊎ (after ≡ update_where (claims now b.id) set_expired w.db.bookings)
  expire_reservation-bookings = elim (Option-cases (find_first (claims now b.id) w.db.bookings)) [
    | inl e ↦ rw (expire_reservation-unclaimed now b w e) (inl refl)
    | inr (x, e) ↦ elim (Option-cases (find_first (its_slot now b w) w.db.slots)) [
      | inl r ↦ rw (expire_reservation-slotless now b w x e r) (inl refl)
      | inr (s, r) ↦ elim (Option-cases (find_first (frees now b w s.version) w.db.slots)) [
        | inl t ↦ rw (expire_reservation-refused now b w x e s r t) (inl refl)
        | inr (s', t) ↦ rw (expire_reservation-done now b w x e s s' r t) (inr refl)
      ]
    ]
  ]

  expire_reservation-IsFaithful :
      (c : StaleBooking)
      → IsFaithful w.db.bookings c
      → IsFaithful (expire_reservation now b w).1.db.bookings c
  expire_reservation-IsFaithful c h = elim expire_reservation-bookings [
    | inl same ↦ rw same h
    | inr changed ↦ rw changed (All-update _ set_expired w.db.bookings (λ x k. (k, k)) h)
  ]

module _ (base : ℕ → ℕ) (now : ℕ) where
  expire_each-Accounts :
      (bs : List StaleBooking) (n : ℕ) (w : World)
      → InAccounts base w
      → All (IsFaithful w.db.bookings) bs
      → KeepsAccounts base (expire_each now bs n w)
  unfolding expire_each
  expire_each-Accounts [] n w v h = v
  expire_each-Accounts (b ∷ bs) n w v h =
      expire_each-Accounts bs (tally n (expire_reservation now b w).0)
        (expire_reservation now b w).1
        (expire_reservation-Accounts base w v now b (λ x e.
          All-find_first (SameSeats b) _ w.db.bookings x h.0 e
            (claims-key now b.id x (find_first_sound _ w.db.bookings x e))))
        (All-map_weaken _ (expire_reservation-IsFaithful now b w) bs h.1)

  -- A run of the expiry, from a state whose seat accounts are in order, leaves them in order, though it
  -- may expire some of its batch and fail on others.
  pub expire_stale_reservations-Accounts :
      (w : World) → InAccounts base w → KeepsAccounts base (expire_stale_reservations now w)
  unfolding expire_stale_reservations
  expire_stale_reservations-Accounts w v =
      expire_each-Accounts (stale_batch now w.db.bookings) 0 w v
        (stale_batch-IsFaithful now w.db.bookings v.unique_bookings)
