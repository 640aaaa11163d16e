-- ===== src/Booking/Checks.antt =====
-- What the services have established when they come to their transaction, and that they have written
-- nothing by then: the first halves of the handlers of src/services/booking.service.ts.
use booking_availability_pla.Shared.{
  ℕ, ◌≡◌, String, true, false, some, arith, find_first, subst, sym, Bool, ◌==◌, Option-cases, inl,
  inr,
}
use booking_availability_pla.Errors.{Failure, AppError}
use booking_availability_pla.Model.{Booking, AvailabilitySlot, reserved, cancelled}
use booking_availability_pla.Service.{World, Result, ok, err, Action, follow, throw_if, pure}
use booking_availability_pla.Booking.State.{assert_transition, is_cancellable}
use booking_availability_pla.Booking.Views.{is_owned}
use booking_availability_pla.Booking.Reserve.{find_slot}
use booking_availability_pla.Booking.Confirm.{is_overdue, check_confirm}
use booking_availability_pla.Booking.Cancel.{check_cancel}
use booking_availability_pla.Booking.Seats.{is_active}

-- A call that only reads, and what follows it.
pub follow_reader :
    {A B : Type 0} (P : Result B × World → Type 0) (f : A → Action B) (out : Result A × World)
    (w : World)
    → out.1 ≡ w
    → ((e : Failure) → P (err e, w))
    → ((a : A) → out ≡ (ok a, w) → P (f a w))
    → P (follow f out)
follow_reader P f (ok a, w') w same refused done =
    subst (λ v. P (f a v)) (sym same) (done a (λ i. (ok a, same i)))
follow_reader P f (err e, w') w same refused done = subst (λ v. P (err e, v)) (sym same) (refused e)

module _ (w : World) where
  pub find_slot_reads : (tenant slot : ℕ) → (find_slot tenant slot w).1 ≡ w
  unfolding find_slot
  find_slot_reads tenant slot = ground arith

  pub check_confirm_reads :
      (now tenant user : ℕ) (reference : String) → (check_confirm now tenant user reference w).1 ≡ w
  unfolding check_confirm assert_transition
  check_confirm_reads now tenant user reference = ground arith

  pub check_cancel_reads :
      (tenant user : ℕ) (reference : String) → (check_cancel tenant user reference w).1 ≡ w
  unfolding check_cancel assert_transition is_cancellable
  check_cancel_reads tenant user reference = ground arith

  -- A confirmation goes through the checks only for the caller's own booking, still reserved and
  -- not overdue.
  pub check_confirm_sound :
      (now tenant user : ℕ) (reference : String) (b : Booking)
      → check_confirm now tenant user reference w ≡ (ok b, w)
      → (find_first (is_owned tenant user reference) w.db.bookings ≡ some b)
        × (b.status ≡ reserved)
        × (is_overdue now b.reserved_until ≡ false)
  unfolding check_confirm assert_transition
  check_confirm_sound now tenant user reference b e = ground arith

  pub check_cancel_sound :
      (tenant user : ℕ) (reference : String) (b : Booking) (version : ℕ)
      → check_cancel tenant user reference w ≡ (ok (b, version), w)
      → (find_first (is_owned tenant user reference) w.db.bookings ≡ some b)
        × (is_active b.status ≡ true)
  unfolding check_cancel assert_transition is_cancellable
  check_cancel_sound tenant user reference b version e = ground arith

  version_read :
      (x : Booking) (s : AvailabilitySlot) (c : Bool) (error : AppError) (b : Booking) (version : ℕ)
      → follow {B = Booking × ℕ}
          (λ _ v. follow (λ _. pure (x, s.version)) (assert_transition (some x.status) cancelled v))
          (throw_if c error w)
        ≡ (ok (b, version), w)
      → (b ≡ x) × (s.version ≡ version)
  unfolding assert_transition
  version_read x s c error b version e = ground arith

  -- The version that a cancellation goes on with is that of the booking's slot.
  pub check_cancel-version :
      (tenant user : ℕ) (reference : String) (b : Booking) (version : ℕ)
      → check_cancel tenant user reference w ≡ (ok (b, version), w)
      → (s : AvailabilitySlot) × (find_first
            (λ (x : AvailabilitySlot). x.id == b.slot_id)
            w.db.slots
          ≡ some s)
        × (s.version ≡ version)
  unfolding check_cancel
  check_cancel-version tenant user reference b version e =
      elim (Option-cases (find_first (is_owned tenant user reference) w.db.bookings)) [
        | inl none_owned ↦ cc (rw none_owned at e)
        | inr (x, owned) ↦
            elim (Option-cases
              (find_first (λ (y : AvailabilitySlot). y.id == x.slot_id) w.db.slots)) [
                | inl missing ↦ cc (rw missing at (rw owned at e))
                | inr (s, here) ↦
                    let (same, at_version) =
                      version_read x s _ _ b version (rw here at (rw owned at e)) in
                    (
                      s,
                      subst
                          (λ (z : Booking).
                            find_first (λ (y : AvailabilitySlot). y.id == z.slot_id) w.db.slots
                            ≡ some s)
                          (sym same) here,
                      at_version,
                    )
              ]
      ]
