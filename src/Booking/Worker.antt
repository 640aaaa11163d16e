-- ===== src/Booking/Worker.antt =====
-- The job of src/workers/booking-expiry.worker.ts and its schedule in src/queues/booking-expiry.queue.ts.
-- What a run logs is left out. The queue, which is a library's, calls the job at some sequence of times.
use booking_availability_pla.Shared.{
  ℕ, ◌+◌, ◌*◌, ◌≤◌, ◌<◌, ◌≡◌, refl, ap, min, String, List, [], ◌∷◌, arith, All, length, same_text,
  if◌then◌else◌, ◌⊎◌, inl, inr, Bool-cases, leb,
}
use booking_availability_pla.Service.{World, Action, Result, ok, ◌>>◌, pure}
use booking_availability_pla.Booking.Expire.{expire_stale_reservations}
use booking_availability_pla.Booking.Progress.{IsSound}
use booking_availability_pla.Booking.Draining.{run_count}
use booking_availability_pla.Booking.Stale.{stale_count, earlier_fewer}

abbrev pub booking_expiry_job_name : String
booking_expiry_job_name = "expire-stale"

-- The worker's handler of a job of the queue.
unfoldable pub run_job : String → ℕ → Action (Unit {0})
run_job name now =
    if same_text name booking_expiry_job_name
    then (do expire_stale_reservations now; pure tt)
    else pure tt

-- The jobs of the scheduler, by the times at which they run.
unfoldable pub poll : List ℕ → World → World
poll [] w = w
poll (now ∷ times) w = poll times (run_job booking_expiry_job_name now w).1

few_or_many : (n : ℕ) → (n ≤ 50) ⊎ (50 < n)
few_or_many n = elim (Bool-cases (leb n 50)) [
  | inl t ↦ inl (ground arith)
  | inr f ↦ inr (ground arith)
]

module _ (base : ℕ → ℕ) where
  job_count :
      (now later early : ℕ) (w : World)
      → now ≤ later
      → IsSound base w
      → (w' : World) × (run_job booking_expiry_job_name now w ≡ (ok tt, w'))
        × (stale_count later w' + min 50 (stale_count now w) ≡ stale_count later w)
        × (stale_count early w' ≤ stale_count early w)
        × IsSound base w'
  unfolding run_job
  job_count now later early w h v =
      let (w', done, fewer, no_more, sound) = run_count now base later early w h v in
      (w', rw done refl, fewer, no_more, sound)

  poll_on :
      (t : ℕ) (times : List ℕ) (w w' : World)
      → run_job booking_expiry_job_name t w ≡ (ok tt, w')
      → poll (t ∷ times) w ≡ poll times w'
  unfolding poll
  poll_on t times w w' done = ap (λ (out : Result (Unit {0}) × World). poll times out.1) done

  -- Later jobs bring back no stale booking.
  poll_no_more :
      (early : ℕ) (times : List ℕ) (w : World)
      → IsSound base w
      → stale_count early (poll times w) ≤ stale_count early w
  unfolding poll
  poll_no_more early [] w v = omega arith
  poll_no_more early (t ∷ times) w v =
      let (w', done, fewer, no_more, sound) = job_count t t early w (omega arith) v in
      let rest = poll_no_more early times w' sound in rw (poll_on t times w w' done) (omega arith)

  -- A job that finds fifty stale bookings at most leaves none for the jobs behind it.
  poll-rest :
      (now t : ℕ) (times : List ℕ) (w : World)
      → now ≤ t
      → stale_count t w ≤ 50
      → IsSound base w
      → stale_count now (poll (t ∷ times) w) ≡ 0
  poll-rest now t times w h few v =
      let (w', done, fewer, no_more, sound) = job_count t t now w (omega arith) v in
      let most = earlier_fewer now t w'.db.bookings h in
      let rest = poll_no_more now times w' sound in rw (poll_on t times w w' done) (omega arith)

  -- Where every booking has its slot and seat accounts are in order, a sequence of jobs at times between
  -- `now` and `later` leaves no booking whose hold had run out at `now`, if there are not more than fifty
  -- bookings for each job whose hold has run out at `later`.
  pub poll-drained :
      (now later : ℕ) (times : List ℕ) (w : World)
      → now ≤ later
      → All (λ t. (now ≤ t) × (t ≤ later)) times
      → stale_count later w ≤ 50 * length times
      → IsSound base w
      → stale_count now (poll times w) ≡ 0
  unfolding poll
  poll-drained now later [] w h within enough v =
      let most = earlier_fewer now later w.db.bookings h in omega arith
  poll-drained now later (t ∷ times) w h within enough v = elim (few_or_many (stale_count t w)) [
    | inl few ↦ poll-rest now t times w within.0.0 few v
    | inr many ↦
        let (w', done, fewer, no_more, sound) = job_count t later t w within.0.1 v in
        rw (poll_on t times w w' done)
          (poll-drained now later times w' h within.1 (omega arith) sound)
  ]
