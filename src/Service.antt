-- ===== src/Service.antt =====
-- The state that the services share and the shape of a service call: the database, and the work
-- that a call leaves to run by itself (`enqueueBookingWebhook`, `enqueueAvailabilityInvalidation`).
-- A call returns or throws; `transaction` is `prisma.$transaction`, which takes back every write to
-- the database when its body throws. What was enqueued stays enqueued.
use booking_availability_pla.Shared.{
  ℕ, ◌≡◌, refl, arith, Bool, true, false, Option, none, some, List, ◌∷◌, [], ◌++◌, String,
}
use booking_availability_pla.Errors.{AppError, Failure, app, other}
use booking_availability_pla.Model.{Db, WebhookEventType}

pub data Effect : Type 0 where
  booking_webhook : (tenant_id : ℕ) → WebhookEventType → (booking_id : ℕ) → Effect
  availability_invalidation : (tenant_id : ℕ) → Effect

pub record World : Type 0 where
  pub db : Db
  pub queued : List Effect

pub data Result (A : Type 0) : Type 0 where
  ok : A → Result A
  err : Failure → Result A

abbrev pub Action : Type 0 → Type 0
Action A = World → Result A × World

module _ {A : Type 0} where
  abbrev pub pure : A → Action A
  pure a w = (ok a, w)

  -- `throw`, of an `AppError` and of anything else.
  abbrev pub throw : AppError → Action A
  throw e w = (err (app e), w)

  abbrev pub fault : String → Action A
  fault e w = (err (other e), w)

  abbrev pub gets : (Db → A) → Action A
  gets f w = (ok (f w.db), w)

  abbrev pub or_throw : Option A → AppError → Action A
  or_throw none e = throw e
  or_throw (some a) _ = pure a

-- How a sequence of calls goes on from the outcome of its first.
abbrev pub follow : {A B : Type 0} → (A → Action B) → Result A × World → Result B × World
follow f (ok a, w) = f a w
follow f (err e, w) = (err e, w)

infixl 5 ◌>>=◌ ◌>>◌
abbrev pub ◌>>=◌ : {A B : Type 0} → Action A → (A → Action B) → Action B
◌>>=◌ m f w = follow f (m w)

abbrev pub ◌>>◌ : {A B : Type 0} → Action A → Action B → Action B
m >> k = m >>= λ _. k

abbrev pub throw_if : Bool → AppError → Action (Unit {0})
throw_if true e = throw e
throw_if false e = pure tt

abbrev pub fault_if : Bool → String → Action (Unit {0})
fault_if true e = fault e
fault_if false e = pure tt

abbrev pub modify : (Db → Db) → Action (Unit {0})
modify f w = (ok tt, record w { db = f w.db })

abbrev pub enqueue : Effect → Action (Unit {0})
enqueue e w = (ok tt, record w { queued = w.queued ++ e ∷ [] })

-- `prisma.$transaction`: the database as it was, if the body has thrown.
abbrev pub settle : {A : Type 0} → Db → Result A × World → Result A × World
settle db (ok a, w) = (ok a, w)
settle db (err e, w) = (err e, record w { db = db })

abbrev pub transaction : {A : Type 0} → Action A → Action A
transaction m w = settle w.db (m w)

-- A sequence that returns has gone through its first call.
pub follow-eq-ok :
    {A B : Type 0} (f : A → Action B) (out : Result A × World) (b : B) (w' : World)
    → follow f out ≡ (ok b, w')
    → (a : A) × (w : World) × (out ≡ (ok a, w)) × (f a w ≡ (ok b, w'))
follow-eq-ok f (ok a, w) b w' e = (a, w, refl, e)
follow-eq-ok f (err x, w) b w' e = ground arith

-- What a call that returns has returned.
pub ok-injective :
    {A : Type 0} (x y : A) (w w' : World)
    → ◌≡◌ {A = Result A × World} (ok x, w) (ok y, w')
    → (y ≡ x) × (w' ≡ w)
ok-injective x y w w' e = ground arith

pub or_throw-eq-ok :
    {A : Type 0} (o : Option A) (x : AppError) (a : A) (w v : World)
    → or_throw o x w ≡ (ok a, v)
    → (o ≡ some a) × (v ≡ w)
or_throw-eq-ok none x a w v e = absurd (ground arith)
or_throw-eq-ok (some b) x a w v e = ground arith
