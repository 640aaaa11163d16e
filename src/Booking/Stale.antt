-- ===== src/Booking/Stale.antt =====
-- Counting the stale bookings of src/services/booking.service.ts: what the mark on one of them does.
use booking_availability_pla.Shared.{
  ℕ, ◌+◌, ◌≤◌, ◌≡◌, ◌≢◌, refl, Bool, true, false, ◌&&◌, Option, none, some, List, [], ◌∷◌, arith,
  ◌==◌, if◌then◌else◌, find_first, find_first_sound, find_first-update_other, update_where,
  count_where, sum_by, sum_by-update, Unique, keep, length, Bool-cases, inl, inr,
}
use booking_availability_pla.Model.{Booking}
use booking_availability_pla.Service.{World}
use booking_availability_pla.Booking.Confirm.{is_overdue}
use booking_availability_pla.Booking.Expire.{StaleBooking, set_expired, claims, is_stale}
use booking_availability_pla.Booking.Seats.{booking_key}
use booking_availability_pla.Booking.Accounting.{claims-key}

-- The number of bookings whose hold has run out at a time.
abbrev pub stale_count : ℕ → World → ℕ
stale_count now w = count_where (is_stale now) w.db.bookings

abbrev pub stale_key : StaleBooking → ℕ
stale_key b = b.id

abbrev weight : ℕ → Booking → ℕ
weight now b = if is_stale now b then 1 else 0

count_where-sum_by :
    (now : ℕ) (xs : List Booking) → count_where (is_stale now) xs ≡ sum_by (weight now) xs
count_where-sum_by now [] = refl
count_where-sum_by now (x ∷ xs) = let rest = count_where-sum_by now xs in omega arith

pub length-keep :
    (now : ℕ) (xs : List Booking) → length (keep (is_stale now) xs) ≡ count_where (is_stale now) xs
length-keep now [] = refl
length-keep now (x ∷ xs) = let rest = length-keep now xs in ground arith

overdue_later :
    (now later : ℕ) (at : Option ℕ)
    → now ≤ later
    → is_overdue now at ≡ true
    → is_overdue later at ≡ true
overdue_later now later none h o = cc
overdue_later now later (some t) h o = ground arith

and_weaken : (a b c : Bool) → (b ≡ true → c ≡ true) → a && b ≡ true → a && c ≡ true
and_weaken true b c f h = f h
and_weaken false b c f h = h

pub is_stale_later :
    (now later : ℕ) (x : Booking) → now ≤ later → is_stale now x ≡ true → is_stale later x ≡ true
is_stale_later now later x h stale =
    and_weaken _ _ _ (overdue_later now later x.reserved_until h) stale

claims-weight :
    (now later id : ℕ) (x : Booking) → now ≤ later → claims now id x ≡ true → weight later x ≡ 1
claims-weight now later id x h k = rw (is_stale_later now later x h (ground arith)) refl

-- A booking that is marked is one stale booking less, then and later.
pub marked_count :
    (now later id : ℕ) (xs : List Booking) (x : Booking)
    → now ≤ later
    → Unique booking_key xs
    → find_first (claims now id) xs ≡ some x
    → count_where (is_stale later) (update_where (claims now id) set_expired xs) + 1
      ≡ count_where (is_stale later) xs
marked_count now later id xs x h unique found =
    let moved =
      sum_by-update booking_key id (claims now id) (claims-key now id) (weight later) set_expired xs
        x unique found in
    let before = count_where-sum_by later xs in
    let after = count_where-sum_by later (update_where (claims now id) set_expired xs) in
    let one = claims-weight now later id x h (find_first_sound _ xs x found) in omega arith

pub marked_fewer :
    (u : ℕ) (p : Booking → Bool) (xs : List Booking)
    → count_where (is_stale u) (update_where p set_expired xs) ≤ count_where (is_stale u) xs
marked_fewer u p [] = omega arith
marked_fewer u p (x ∷ xs) =
    let rest = marked_fewer u p xs in
    elim (Bool-cases (p x)) [ inl t ↦ rw t (omega arith) | inr f ↦ rw f (omega arith) ]

pub claims-id : (now id : ℕ) (y : Booking) → claims now id y ≡ true → (y.id == id) ≡ true
claims-id now id y h = ground arith

claims_other :
    (now id id' : ℕ) (y : Booking) → id' ≢ id → claims now id' y ≡ true → claims now id y ≡ false
claims_other now id id' y differ h = ground (arith, differ)

claims_marked : (now id id' : ℕ) (y : Booking) → claims now id (set_expired y) ≡ false
claims_marked now id id' y = ground arith

-- The mark on one booking does not hide another.
pub find_first-marked :
    (now id id' : ℕ) (xs : List Booking)
    → id' ≢ id
    → find_first (claims now id) (update_where (claims now id') set_expired xs)
      ≡ find_first (claims now id) xs
find_first-marked now id id' xs differ =
    find_first-update_other (claims now id) (claims now id') set_expired xs
      (λ y h. claims_other now id id' y differ h) (λ y h. claims_marked now id id' y)

-- What is stale is stale later.
pub earlier_fewer :
    (now later : ℕ) (xs : List Booking)
    → now ≤ later
    → count_where (is_stale now) xs ≤ count_where (is_stale later) xs
earlier_fewer now later [] h = omega arith
earlier_fewer now later (x ∷ xs) h =
    let rest = earlier_fewer now later xs h in
    elim (Bool-cases (is_stale now x)) [
      | inl t ↦ rw (t, is_stale_later now later x h t) (omega arith)
      | inr f ↦ rw f (omega arith)
    ]
