-- ===== src/Booking/Tracking.antt =====
-- What a request of src/services/booking.service.ts that has read a booking can rely on when its transaction
-- comes: the booking's slot and size, and, while the slot's version is the one it read, that the booking
-- still holds its seats.
use booking_availability_pla.Shared.{
  ℕ, ◌+◌, ◌≤◌, ◌≡◌, ◌≢◌, refl, sym, ap, subst, ◌∙◌, Bool, true, some, List, [], ◌∷◌, ◌++◌, arith,
  ◌==◌, if◌then◌else◌, find_first, find_first-append, find_first-update, update_where, Unique,
  Unique-find_first, All, All-map_weaken, All-update-Unique, some-injective, Bool-cases, inl, inr,
}
use booking_availability_pla.Model.{Booking, BookingStatus, AvailabilitySlot}
use booking_availability_pla.Booking.Views.{by_id}
use booking_availability_pla.Booking.Seats.{slot_key, is_active}

-- The row of a booking, with its slot and its size.
abbrev pub HasSeats : ℕ → ℕ → ℕ → List Booking → Type 0
HasSeats id slot size bookings =
    (x : Booking) × (find_first (by_id id) bookings ≡ some x)
    × (x.slot_id ≡ slot)
    × (x.party_size ≡ size)

-- A slot has not gone back behind a version, and a booking of it is active while it has not moved on.
abbrev pub IsBehind : ℕ → ℕ → BookingStatus → AvailabilitySlot → Type 0
IsBehind slot version status s =
    s.id ≡ slot → (version ≤ s.version) × (s.version ≡ version → is_active status ≡ true)

abbrev pub IsTracked : ℕ → ℕ → ℕ → ℕ → List AvailabilitySlot → List Booking → Type 0
IsTracked id slot size version slots bookings =
    (x : Booking) × (find_first (by_id id) bookings ≡ some x)
    × (x.slot_id ≡ slot)
    × (x.party_size ≡ size)
    × All (IsBehind slot version x.status) slots

-- What it is when it is read: the version is that of the slot.
pub IsTracked-read :
    (b : Booking) (s : AvailabilitySlot) (slots : List AvailabilitySlot) (bookings : List Booking)
    → Unique slot_key slots
    → find_first (by_id b.id) bookings ≡ some b
    → find_first (λ (x : AvailabilitySlot). x.id == b.slot_id) slots ≡ some s
    → is_active b.status ≡ true
    → IsTracked b.id b.slot_id b.party_size s.version slots bookings
IsTracked-read b s slots bookings unique found here active = (
  b,
  found,
  refl,
  refl,
  All-map_weaken _ (λ y own same. behind y own same) slots
      (Unique-find_first slot_key slots unique),
)
  where
    behind :
        (y : AvailabilitySlot)
        → find_first (λ (x : AvailabilitySlot). x.id == y.id) slots ≡ some y
        → y.id ≡ b.slot_id
        → (s.version ≤ y.version) × (y.version ≡ s.version → is_active b.status ≡ true)
    behind y own same =
        let eq : y ≡ s = some-injective y s (sym own ∙ rw same here) in
        (
          subst (λ (z : AvailabilitySlot). s.version ≤ z.version) (sym eq) (omega arith),
          λ e. active,
        )

-- A booking's row under a change of rows that leaves id, slot and size alone.
pub HasSeats-update :
    (id slot size : ℕ) (p : Booking → Bool) (f : Booking → Booking) (bookings : List Booking)
    → ((x : Booking) → (f x).id ≡ x.id)
    → ((x : Booking) → (f x).slot_id ≡ x.slot_id)
    → ((x : Booking) → (f x).party_size ≡ x.party_size)
    → HasSeats id slot size bookings
    → HasSeats id slot size (update_where p f bookings)
HasSeats-update id slot size p f bookings same_id same_slot same_size (x, found, here, many) = (
  if p x then f x else x,
  find_first-update (by_id id) p f bookings x (λ y. ap (λ k. k == id) (same_id y)) found,
  (elim (Bool-cases (p x)) [ inl t ↦ rw t (same_slot x ∙ here) | inr u ↦ rw u here ]),
  elim (Bool-cases (p x)) [ inl t ↦ rw t (same_size x ∙ many) | inr u ↦ rw u many ],
)

pub HasSeats-append :
    (id slot size : ℕ) (bookings : List Booking) (b : Booking)
    → HasSeats id slot size bookings
    → HasSeats id slot size (bookings ++ b ∷ [])
HasSeats-append id slot size bookings b (x, found, here, many) =
    (x, find_first-append (by_id id) bookings (b ∷ []) x found, here, many)

-- A change of the one row of a slot that counts its version up: a booking of that slot need no longer be
-- active, a booking of another slot is as active as before.
module _ (k : ℕ) (q : AvailabilitySlot → Bool) (g : AvailabilitySlot → AvailabilitySlot)
    (fixes : (s : AvailabilitySlot) → q s ≡ true → slot_key s ≡ k)
    (same_id : (s : AvailabilitySlot) → (g s).id ≡ s.id)
    (counts : (s : AvailabilitySlot) → (g s).version ≡ s.version + 1)
    (slots : List AvailabilitySlot) (s : AvailabilitySlot) (unique : Unique slot_key slots)
    (found : find_first q slots ≡ some s) where
  bumped :
      (slot version : ℕ) (status status' : BookingStatus)
      → IsBehind slot version status s
      → IsBehind slot version status' (g s)
  bumped slot version status status' h same =
      let (past, _) = h (sym (same_id s) ∙ same) in
      let up = counts s in (omega arith, λ e. absurd (omega arith))

  untouched :
      (slot version : ℕ) (status status' : BookingStatus) (y : AvailabilitySlot)
      → (slot ≢ k → is_active status ≡ true → is_active status' ≡ true)
      → slot_key y ≢ k
      → IsBehind slot version status y
      → IsBehind slot version status' y
  untouched slot version status status' y keeps differ h same =
      ((h same).0, λ e. keeps (λ at. differ (same ∙ at)) ((h same).1 e))

  pub All-IsBehind_moved :
      (slot version : ℕ) (status status' : BookingStatus)
      → (slot ≢ k → is_active status ≡ true → is_active status' ≡ true)
      → All (IsBehind slot version status) slots
      → All (IsBehind slot version status') (update_where q g slots)
  All-IsBehind_moved slot version status status' keeps h =
      All-update-Unique slot_key k q fixes g slots s unique found
        (bumped slot version status status')
        (λ y differ. untouched slot version status status' y keeps differ) h

  pub IsTracked-taken :
      (id slot size version : ℕ) (bookings : List Booking) (b : Booking)
      → IsTracked id slot size version slots bookings
      → IsTracked id slot size version (update_where q g slots) (bookings ++ b ∷ [])
  IsTracked-taken id slot size version bookings b (x, row, here, many, behind) = (
    x,
    find_first-append (by_id id) bookings (b ∷ []) x row,
    here,
    many,
    All-IsBehind_moved slot version x.status x.status (λ other h. h) behind,
  )

  -- The rows that give up their seats are of the slot that gets them back.
  pub IsTracked-freed :
      (id slot size version : ℕ) (bookings : List Booking) (p : Booking → Bool)
      (f : Booking → Booking)
      → ((x : Booking) → (f x).id ≡ x.id)
      → ((x : Booking) → (f x).slot_id ≡ x.slot_id)
      → ((x : Booking) → (f x).party_size ≡ x.party_size)
      → ((x : Booking) → find_first (by_id id) bookings ≡ some x → p x ≡ true → x.slot_id ≡ k)
      → IsTracked id slot size version slots bookings
      → IsTracked id slot size version (update_where q g slots) (update_where p f bookings)
  IsTracked-freed id slot size version bookings p f id_kept slot_kept size_kept gives
        (x, row, here, many, behind) =
      let moved =
        find_first-update (by_id id) p f bookings x (λ y. ap (λ n. n == id) (id_kept y)) row in
      elim (Bool-cases (p x)) [
        | inl t ↦ (
          f x,
          rw t at moved,
          slot_kept x ∙ here,
          size_kept x ∙ many,
          All-IsBehind_moved slot version x.status (f x).status
              (λ other h. absurd (other (sym here ∙ gives x row t))) behind,
        )
        | inr u ↦ (
          x,
          rw u at moved,
          here,
          many,
          All-IsBehind_moved slot version x.status x.status (λ other h. h) behind,
        )
      ]

-- A change that leaves the slots alone, after which the rows that it touches are active.
pub IsTracked-kept :
    (id slot size version : ℕ) (slots : List AvailabilitySlot) (bookings : List Booking)
    (p : Booking → Bool) (f : Booking → Booking)
    → ((x : Booking) → (f x).id ≡ x.id)
    → ((x : Booking) → (f x).slot_id ≡ x.slot_id)
    → ((x : Booking) → (f x).party_size ≡ x.party_size)
    → ((x : Booking) → is_active (f x).status ≡ true)
    → IsTracked id slot size version slots bookings
    → IsTracked id slot size version slots (update_where p f bookings)
IsTracked-kept id slot size version slots bookings p f id_kept slot_kept size_kept lives
      (x, row, here, many, behind) =
    let moved =
      find_first-update (by_id id) p f bookings x (λ y. ap (λ n. n == id) (id_kept y)) row in
    elim (Bool-cases (p x)) [
      | inl t ↦ (
        f x,
        rw t at moved,
        slot_kept x ∙ here,
        size_kept x ∙ many,
        All-map_weaken _ (λ s h same. ((h same).0, λ e. lives x)) slots behind,
      )
      | inr u ↦ (x, rw u at moved, here, many, behind)
    ]
