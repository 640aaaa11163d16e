-- ===== src/Booking/Lifecycle.antt =====
-- The state machine of src/services/booking-state.ts as the abstract view of the bookings, and the
-- transactions of src/services/booking.service.ts against it.
use booking_availability_pla.Shared.{
  ℕ, ◌≡◌, ◌≢◌, refl, ap, ◌∙◌, Bool, true, false, Option, none, some, List, [], ◌∷◌, ◌++◌, arith,
  ◌==◌, ==_iff, find_first, find_first-update, find_first-update_other, update_where, Bool-cases,
  inl, inr,
}
use booking_availability_pla.Model.{Booking, BookingStatus, reserved, same_status}
use booking_availability_pla.Booking.State.{allowed_transitions, includes_status}
use booking_availability_pla.Booking.Views.{by_id}

-- The abstract view: which booking is in which state.
abbrev status_of : Option Booking → Option BookingStatus
status_of none = none
status_of (some b) = some b.status

abbrev pub statuses : List Booking → ℕ → Option BookingStatus
statuses bookings id = status_of (find_first (by_id id) bookings)

-- A booking begins as reserved and goes on by the table of transitions.
abbrev pub is_allowed : Option BookingStatus → Option BookingStatus → Bool
is_allowed none (some to) = same_status to reserved
is_allowed (some from) (some to) = includes_status (allowed_transitions from) to
is_allowed _ none = false

-- One booking makes one transition, or none does.
pub data Evolves (a b : ℕ → Option BookingStatus) : Type 0 where
  stays : ((id : ℕ) → b id ≡ a id) → Evolves a b
  moves :
      (id : ℕ)
      → is_allowed (a id) (b id) ≡ true
      → ((other : ℕ) → other ≢ id → b other ≡ a other)
      → Evolves a b

by_id_other : (id other : ℕ) (x : Booking) → other ≢ id → by_id id x ≡ true → by_id other x ≡ false
by_id_other id other x differ h = ground (arith, differ)

find_first-append_other :
    (p : Booking → Bool) (xs : List Booking) (b : Booking)
    → p b ≡ false
    → find_first p (xs ++ b ∷ []) ≡ find_first p xs
find_first-append_other p [] b h = rw h refl
find_first-append_other p (x ∷ xs) b h = let rest = find_first-append_other p xs b h in ground arith

find_first-append_new :
    (p : Booking → Bool) (xs : List Booking) (b : Booking)
    → find_first p xs ≡ none
    → p b ≡ true
    → find_first p (xs ++ b ∷ []) ≡ some b
find_first-append_new p [] b e h = rw h refl
find_first-append_new p (x ∷ xs) b e h = elim (Bool-cases (p x)) [
  | inl t ↦ cc (rw t at e)
  | inr f ↦ rw f (find_first-append_new p xs b (rw f at e) h)
]

-- A change of the one row of a booking.
pub update-Evolves :
    (id : ℕ) (p : Booking → Bool) (f : Booking → Booking) (bookings : List Booking) (x : Booking)
    → ((y : Booking) → p y ≡ true → by_id id y ≡ true)
    → ((y : Booking) → (f y).id ≡ y.id)
    → find_first (by_id id) bookings ≡ some x
    → p x ≡ true
    → includes_status (allowed_transitions x.status) (f x).status ≡ true
    → Evolves (statuses bookings) (statuses (update_where p f bookings))
update-Evolves id p f bookings x fixes same found hit allowed =
    let moved =
      find_first-update (by_id id) p f bookings x (λ y. ap (λ n. n == id) (same y)) found in
    let here : find_first (by_id id) (update_where p f bookings) ≡ some (f x) = rw hit at moved in
    moves id (rw (found, here) allowed) (λ other differ. ap status_of (
      find_first-update_other (by_id other) p f bookings
        (λ y h. by_id_other id other y differ (fixes y h))
        (λ y h. by_id_other id other (f y) differ (ap (λ n. n == id) (same y) ∙ fixes y h))))

-- A new row.
pub append-Evolves :
    (bookings : List Booking) (b : Booking)
    → find_first (by_id b.id) bookings ≡ none
    → b.status ≡ reserved
    → Evolves (statuses bookings) (statuses (bookings ++ b ∷ []))
append-Evolves bookings b fresh new =
    let own = (==_iff b.id b.id).1 refl in
    moves b.id (rw (fresh, find_first-append_new (by_id b.id) bookings b fresh own) (rw new refl))
      (λ other differ.
        ap status_of
          (find_first-append_other (by_id other) bookings b (by_id_other b.id other b differ own)))
