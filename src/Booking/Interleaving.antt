-- ===== src/Booking/Interleaving.antt =====
-- The seat accounts under requests to src/services/booking.service.ts that come between each other.
use booking_availability_pla.Shared.{
  ℕ, String, some-injective, ◌<◌, ◌≡◌, sym, subst, ◌∙◌, true, some, List, [], ◌∷◌, ◌++◌, arith,
  find_first, find_first_sound, find_first-key, All, All-find_first, All-map_weaken, Option-cases,
  inl, inr,
}
use booking_availability_pla.Model.{Booking}
use booking_availability_pla.Pricing.Numbers.{Numeric}
use booking_availability_pla.Service.{World}
use booking_availability_pla.Booking.Slots.{can_release}
use booking_availability_pla.Booking.Views.{by_id}
use booking_availability_pla.Booking.Cancel.{commit_cancel}
use booking_availability_pla.Booking.Expire.{StaleBooking}
use booking_availability_pla.Booking.Seats.{booking_key, is_active}
use booking_availability_pla.Booking.Outcomes.{commit_cancel-refused}
use booking_availability_pla.Booking.Checks.{check_cancel_sound, check_cancel-version}
use booking_availability_pla.Booking.Accounting.{
  InAccounts, commit_reservation-Accounts, commit_confirm-Accounts, commit_cancel-Accounts,
  expire_reservation-Accounts, claims-key,
}
use booking_availability_pla.Booking.Progress.{IsClaimed}
use booking_availability_pla.Booking.Draining.{stale_batch-IsClaimed}
use booking_availability_pla.Booking.Tracking.{HasSeats, IsTracked, IsBehind, IsTracked-read}
use booking_availability_pla.Booking.Keeping.{
  Keeps, commit_reservation-Keeps, commit_confirm-Keeps, commit_cancel-Keeps,
  expire_reservation-Keeps,
}
use booking_availability_pla.Booking.Races.{
  Pending, reserving, confirming, cancelling, expiring, commit, Reads, reads_slot, reads_reserved,
  reads_active, reads_stale, System, Step, read, commits, Run, stop, then,
}

-- A confirmation may commit while its booking still holds its seats; every other request may commit at any
-- time. The code does not see to it: `update` looks for the identifier alone.
abbrev pub IsHeld : World → Pending → Type 0
IsHeld w (confirming now tenant user b) =
    (x : Booking) × (find_first (by_id b.id) w.db.bookings ≡ some x) × (is_active x.status ≡ true)
IsHeld w _ = Unit

-- What a request knows of the state in which its transaction will run.
abbrev pub Knows : World → Pending → Type 0
Knows w (reserving draw tenant user body slot preview) = 0 < body.party_size
Knows w (confirming now tenant user b) = Unit
Knows w (cancelling now tenant user reason b version) =
    IsTracked b.id b.slot_id b.party_size version w.db.slots w.db.bookings
Knows w (expiring now b) = HasSeats b.id b.slot_id b.party_size w.db.bookings

pub record Inv (base : ℕ → ℕ) (s : System) : Type 0 where
  pub accounts : InAccounts base s.world
  pub known : All (Knows s.world) s.pending

pub All-middle :
    {A : Type 0} (P : A → Type 0) (before after : List A) (x : A)
    → All P (before ++ x ∷ after)
    → P x × All P (before ++ after)
All-middle P [] after x h = h
All-middle P (y ∷ before) after x h =
    let (here, rest) = All-middle P before after x h.1 in (here, (h.0, rest))

-- What is known stays known, whichever request commits.
Knows-Keeps : (w w' : World) (p : Pending) → Keeps w w' → Knows w p → Knows w' p
Knows-Keeps w w' (reserving draw tenant user body slot preview) k h = h
Knows-Keeps w w' (confirming now tenant user b) k h = tt
Knows-Keeps w w' (cancelling now tenant user reason b version) k h =
    k.tracked b.id b.slot_id b.party_size version h
Knows-Keeps w w' (expiring now b) k h = k.seats_kept b.id b.slot_id b.party_size h

module _ (base : ℕ → ℕ) (w : World) (v : InAccounts base w) where
  commit-Keeps : (p : Pending) → Knows w p → Keeps w (commit p w)
  commit-Keeps (reserving draw tenant user body slot preview) h =
      commit_reservation-Keeps w v.unique_slots draw tenant user body slot preview h
  commit-Keeps (confirming now tenant user b) h =
      commit_confirm-Keeps w v.unique_slots now tenant user b
  commit-Keeps (cancelling now tenant user reason b version) (x, found, here, many, behind) =
      commit_cancel-Keeps w v.unique_slots now tenant user reason b version (x, found, here, many)
  commit-Keeps (expiring now b) h = expire_reservation-Keeps w v.unique_slots now b h

  -- The version that a cancellation has read is the slot's only while its booking holds its seats.
  cancel_tracked :
      (now tenant user : ℕ) (reason : String) (b : Booking) (version : ℕ)
      → IsTracked b.id b.slot_id b.party_size version w.db.slots w.db.bookings
      → InAccounts base (commit_cancel now tenant user reason b version w).1
  cancel_tracked now tenant user reason b version (x, found, here, many, behind) =
      elim (Option-cases
        (find_first (can_release b.slot_id tenant b.party_size version) w.db.slots)) [
          | inl r ↦ rw (commit_cancel-refused now tenant user reason b version w r) v
          | inr (s, r) ↦
              let test = find_first_sound _ w.db.slots s r in
              let (past, active) =
                All-find_first (IsBehind b.slot_id version x.status) _ w.db.slots s behind r
                  (ground arith) in
              commit_cancel-Accounts base w v now tenant user reason b version x found
                (active (ground arith)) here many
        ]

  commit-Accounts : (p : Pending) → Knows w p → IsHeld w p → InAccounts base (commit p w)
  commit-Accounts (reserving draw tenant user body slot preview) h held =
      commit_reservation-Accounts base w v draw tenant user body slot preview h
  commit-Accounts (confirming now tenant user b) h (x, found, active) =
      commit_confirm-Accounts base w v now tenant user b x found active
  commit-Accounts (cancelling now tenant user reason b version) h held =
      cancel_tracked now tenant user reason b version h
  commit-Accounts (expiring now b) (y, found, here, many) held =
      expire_reservation-Accounts base w v now b (λ x e.
        let same = claims-key now b.id x (find_first_sound _ w.db.bookings x e) in
        let row = find_first-key booking_key _ w.db.bookings x v.unique_bookings e in
        let eq : y ≡ x = some-injective y x (sym found ∙ rw (sym same) row) in
        subst (λ (z : Booking). (z.slot_id ≡ b.slot_id) × (z.party_size ≡ b.party_size)) eq
          (here, many))

  claimed_seats :
      (now : ℕ) (b : StaleBooking)
      → IsClaimed now w b
      → HasSeats b.id b.slot_id b.party_size w.db.bookings
  claimed_seats now b (x, found, slot, tenant, size) =
      let same = claims-key now b.id x (find_first_sound _ w.db.bookings x found) in
      let row = find_first-key booking_key _ w.db.bookings x v.unique_bookings found in
      (x, rw (sym same) row, slot, size)

  Reads-Knows : (num : Numeric) (p : Pending) → Reads num w p → Knows w p
  Reads-Knows num p (reads_slot draw tenant user body d size found room) = size
  Reads-Knows num p (reads_reserved now tenant user reference b e) = tt
  Reads-Knows num p (reads_active now tenant user reference reason b version e) =
      let (owned, active) = check_cancel_sound w tenant user reference b version e in
      let (s, here, at) = check_cancel-version w tenant user reference b version e in
      subst (λ n. IsTracked b.id b.slot_id b.party_size n w.db.slots w.db.bookings) at
        (IsTracked-read b s w.db.slots w.db.bookings v.unique_slots
          (find_first-key booking_key _ w.db.bookings b v.unique_bookings owned) here active)
  Reads-Knows num p (reads_stale now before after b e) =
      claimed_seats now b
        (All-middle (IsClaimed now w) before after b
          (subst (All (IsClaimed now w)) e (stale_batch-IsClaimed now base w v.unique_bookings))).0

Step-Inv :
    (base : ℕ → ℕ) (num : Numeric) (s t : System) → Step num IsHeld s t → Inv base s → Inv base t
Step-Inv base num _ _ (read w ps p r) inv = record {
  accounts = inv.accounts;
  known = (Reads-Knows base w inv.accounts num p r, inv.known);
}
Step-Inv base num _ _ (commits w before after p held) inv =
    let (mine, others) = All-middle (Knows w) before after p inv.known in
    record {
      accounts = commit-Accounts base w inv.accounts p mine held;
      known =
          All-map_weaken _ (λ q h. Knows-Keeps w _ q (commit-Keeps base w inv.accounts p mine) h)
            (before ++ after) others;
    }

pub Run-Inv :
    (base : ℕ → ℕ) (num : Numeric) (s t : System) → Run num IsHeld s t → Inv base s → Inv base t
Run-Inv base num _ _ (stop s) inv = inv
Run-Inv base num _ _ (then s t u run step) inv =
    Step-Inv base num t u step (Run-Inv base num s t run inv)

-- Requests that read and commit in any order, reservations being of at least one seat, leave the seat
-- accounts in order, if they were in order when no request was under way and every confirmation commits
-- while its booking still holds its seats: no slot is booked beyond its capacity, and each slot counts
-- exactly the seats that its bookings hold, besides a fixed base.
pub Run-Accounts :
    (base : ℕ → ℕ) (num : Numeric) (w : World) (t : System)
    → InAccounts base w
    → Run num IsHeld (record { world = w; pending = [] }) t
    → InAccounts base t.world
Run-Accounts base num w t v run =
    (Run-Inv base num _ t run (record { accounts = v; known = tt })).accounts
