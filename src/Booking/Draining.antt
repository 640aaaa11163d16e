-- ===== src/Booking/Draining.antt =====
-- The runs of the expiry worker, src/workers/booking-expiry.worker.ts over src/services/booking.service.ts:
-- how many stale bookings one run expires, and how many runs leave none.
use booking_availability_pla.Shared.{
  ℕ, suc, min, ◌+◌, ◌-◌, ◌≤◌, ◌≡◌, ◌≢◌, refl, sym, ap, ◌∙◌, true, some, List, [], ◌∷◌, arith, ◌==◌,
  ==_iff, find_first, find_first-stronger, update_where, count_where, Unique, Unique-keep,
  Unique-take, Unique-sort_with, Unique-map, Unique-find_first, Absent, All, All-map, All-take,
  All-keep, All-pair, All-sort_with, All-map_weaken, keep, keep_sound, length, length-take,
  length-map, length-sort_with, sort_by,
}
use booking_availability_pla.Model.{Booking}
use booking_availability_pla.Service.{World, Result, ok}
use booking_availability_pla.Booking.Expire.{
  StaleBooking, set_expired, claims, is_stale, to_stale, stale_batch, until_key, expiry_batch_size,
  expire_each, expire_stale_reservations,
}
use booking_availability_pla.Booking.Seats.{booking_key}
use booking_availability_pla.Booking.Progress.{IsSound, IsClaimed, expire_reservation-marks}
use booking_availability_pla.Booking.Stale.{
  stale_count, stale_key, length-keep, marked_count, marked_fewer, claims-id, find_first-marked,
}

same_tally : (w : World) (m n : ℕ) → m ≡ n → ◌≡◌ {A = Result ℕ × World} (ok m, w) (ok n, w)
same_tally w m n e = ap (λ k. (ok k, w)) e

counted : (a b n c : ℕ) → a + n ≡ b → b + 1 ≡ c → a + suc n ≡ c
counted a b n c h k = omega arith

no_more_than : {a b c d : ℕ} → a ≤ b → b ≡ c → c ≤ d → a ≤ d
no_more_than h e k = omega arith

module _ (now : ℕ) where
  IsClaimed-marked :
      (b c : StaleBooking) (w w' : World)
      → b.id ≢ c.id
      → w'.db.bookings ≡ update_where (claims now b.id) set_expired w.db.bookings
      → IsClaimed now w c
      → IsClaimed now w' c
  IsClaimed-marked b c w w' differ marked (x, found, slot, tenant, size) = (
    x,
    rw (marked) (find_first-marked now c.id b.id w.db.bookings differ ∙ found),
    slot,
    tenant,
    size,
  )

  All-marked :
      (b : StaleBooking) (bs : List StaleBooking) (w w' : World)
      → Absent stale_key b.id bs
      → w'.db.bookings ≡ update_where (claims now b.id) set_expired w.db.bookings
      → All (IsClaimed now w) bs
      → All (IsClaimed now w') bs
  All-marked b [] w w' absent marked h = tt
  All-marked b (c ∷ bs) w w' absent marked h = (
    IsClaimed-marked b c w w' (λ e. absent.0 (sym e)) marked h.0,
    All-marked b bs w w' absent.1 marked h.1,
  )

  module _ (base : ℕ → ℕ) where
    -- What a run of the loop leaves, when each of the bookings it was given is still stale.
    expire_each-IsSound :
        (later early : ℕ)
        → now ≤ later
        → (bs : List StaleBooking) (n : ℕ) (w : World) → Unique stale_key bs
        → All (IsClaimed now w) bs
        → IsSound base w
        → (w' : World) × (expire_each now bs n w ≡ (ok (n + length bs), w'))
          × (stale_count later w' + length bs ≡ stale_count later w)
          × (stale_count early w' ≤ stale_count early w)
          × IsSound base w'
    unfolding expire_each
    expire_each-IsSound later early h [] n w unique claimed v =
        (w, same_tally w n (n + 0) (omega arith), omega arith, omega arith, v)
    expire_each-IsSound later early h (b ∷ bs) n w unique claimed v =
        let (v1, done, marked, sound) = expire_reservation-marks base now b w v claimed.0 in
        let (v2, rest, fewer, no_more, sound') =
          expire_each-IsSound later early h bs (n + 1) v1 unique.1
            (All-marked b bs w v1 unique.0 marked claimed.1) sound in
        let one =
          marked_count now later b.id w.db.bookings claimed.0.0 h v.accounts.unique_bookings
            claimed.0.1 in
        (
          v2,
          rw done (rest ∙ same_tally v2 (n + 1 + length bs) (n + suc (length bs)) (omega arith)),
          counted (stale_count later v2) (stale_count later v1) (length bs) _ fewer
              (ap (λ xs. count_where (is_stale later) xs + 1) marked ∙ one),
          no_more_than no_more (ap (count_where (is_stale early)) marked)
              (marked_fewer early (claims now b.id) w.db.bookings),
          sound',
        )

    -- The bookings of a batch are different, and each is still stale when the batch is read.
    stale_batch-Unique :
        (xs : List Booking) → Unique booking_key xs → Unique stale_key (stale_batch now xs)
    unfolding stale_batch
    stale_batch-Unique xs unique = Unique-map stale_key to_stale _ (
        Unique-take booking_key expiry_batch_size _
          (Unique-sort_with booking_key _ _ (Unique-keep booking_key (is_stale now) xs unique)))

    to_stale-IsClaimed :
        (w : World) (x : Booking)
        → find_first (λ (y : Booking). y.id == x.id) w.db.bookings ≡ some x
        → is_stale now x ≡ true
        → IsClaimed now w (to_stale x)
    to_stale-IsClaimed w x here stale = (
      x,
      find_first-stronger (claims now x.id) (λ (y : Booking). y.id == x.id) w.db.bookings x
          (λ y h. claims-id now x.id y h) (rw ((==_iff x.id x.id).1 refl) stale) here,
      refl,
      refl,
      refl,
    )

    pub stale_batch-IsClaimed :
        (w : World)
        → Unique booking_key w.db.bookings
        → All (IsClaimed now w) (stale_batch now w.db.bookings)
    unfolding stale_batch
    stale_batch-IsClaimed w unique =
        let xs = keep (is_stale now) w.db.bookings in
        All-map (IsClaimed now w) to_stale _ (
          All-take _ expiry_batch_size (sort_by until_key xs) (
            All-sort_with _ _ xs (
              All-map_weaken _ (λ x h. to_stale-IsClaimed w x h.0 h.1) xs
                (All-pair _ _ xs
                  (All-keep _ (is_stale now) w.db.bookings
                    (Unique-find_first booking_key w.db.bookings unique))
                  (keep_sound (is_stale now) w.db.bookings)))))

    length-stale_batch :
        (w : World)
        → length (stale_batch now w.db.bookings) ≡ min expiry_batch_size (stale_count now w)
    unfolding stale_batch
    length-stale_batch w =
        let xs = keep (is_stale now) w.db.bookings in
        length-map to_stale _
        ∙ length-take expiry_batch_size (sort_by until_key xs)
        ∙ ap (min expiry_batch_size) (length-sort_with _ xs ∙ length-keep now w.db.bookings)

    pub run_count :
        (later early : ℕ) (w : World)
        → now ≤ later
        → IsSound base w
        → (w' : World) × (expire_stale_reservations now w ≡ (ok (min 50 (stale_count now w)), w'))
          × (stale_count later w' + min 50 (stale_count now w) ≡ stale_count later w)
          × (stale_count early w' ≤ stale_count early w)
          × IsSound base w'
    unfolding expire_stale_reservations
    run_count later early w h v =
        let batch = stale_batch now w.db.bookings in
        let size = length-stale_batch w in
        let (w', done, fewer, no_more, sound) =
          expire_each-IsSound later early h batch 0 w
            (stale_batch-Unique w.db.bookings v.accounts.unique_bookings)
            (stale_batch-IsClaimed w v.accounts.unique_bookings) v in
        (
          w',
          done ∙ same_tally w' (0 + length batch) (min 50 (stale_count now w)) (omega arith),
          omega arith,
          no_more,
          sound,
        )

    -- From a state whose seat accounts are in order and where every booking has its slot, a run of the
    -- expiry expires every booking whose hold has run out, or fifty if there are more: it returns their
    -- number, and so many fewer are left, in a state of the same kind.
    pub expire_stale_reservations-count :
        (w : World)
        → IsSound base w
        → (w' : World) × (expire_stale_reservations now w ≡ (ok (min 50 (stale_count now w)), w'))
          × (stale_count now w' ≡ stale_count now w - 50)
          × IsSound base w'
    expire_stale_reservations-count w v =
        let (w', done, fewer, no_more, sound) = run_count now now w (omega arith) v in
        (w', done, omega arith, sound)
