-- ===== src/Lib.antt =====
-- Booking Availability Platform: a service with tenants, whose users reserve seats in the slots of
-- experiences. The library models its services over a database of lists of rows.
--
-- Parts and files, with paths from the repository's root:
--   Model/Enums, Model/Rows   the tables of prisma/schema.prisma and the enumerations of
--                             src/constants; `Db` is the database.
--   Errors                    src/errors.
--   Service                   the shape of a call: a state goes in, a result or an error comes out with
--                             the state after it; `transaction` is prisma.$transaction; `queued` holds
--                             what enqueueBookingWebhook and enqueueAvailabilityInvalidation were given.
--   Audit                     src/lib/audit.ts.
--   Booking                   src/services/booking.service.ts and booking-state.ts. State is the
--                             transition table, Slots is adjustSlotReserved, Views the lookups and
--                             results, Reserve, Confirm, Cancel and Expire the handlers. Each handler
--                             is split in the part that reads and checks and the part that commits
--                             (check_cancel, commit_cancel), since other requests may come between.
--                             Seats has the seat accounts, Adjusting, Outcomes and Expiring the equations
--                             of the transactions; Worker is the job of
--                             src/workers/booking-expiry.worker.ts with its schedule; Checks, Accounting,
--                             Handlers, Atomic, Accepts, Effects, Updates, Versions, Lost, Progress,
--                             Stale and Draining what follows for each. Races has requests as steps that read and commit in
--                             any order; Tracking, Keeping, Interleaving, Lifecycle and Refining what
--                             follows for any sequence of them.
--                             Tenants has what a call leaves of other tenants' rows.
--   Pricing                   src/services/pricing.service.ts and the config schemas of
--                             src/schemas/responses/pricing.responses.ts. Numbers is the arithmetic
--                             of doubles, as a parameter with named laws.
--   Auth                      src/services/auth.service.ts, src/auth and the guards of src/middleware;
--                             Rotation, Reuse, Logout, Twice and Access what follows for them.
--   Webhooks                  src/services/webhook.service.ts, webhook-delivery.service.ts,
--                             booking-webhook.service.ts and src/lib/webhook-signature.ts; Sending and
--                             Laws what follows.
--   Listing, Dates            src/services/admin-booking.service.ts, audit-log.service.ts and the
--                             last day of a range in src/utils/utils.ts.
--   Cache                     src/lib/availability-cache.ts; the loop over SCAN is over the replies that
--                             Redis gives, and ends at the first whose cursor is 0.
--   Search                    src/services/experience.service.ts: Query the filters, Rows the grouped
--                             query, Prices the loop for the least price, Experiences searchExperiences,
--                             Detail getExperienceDetail; Ids, Lowest, Starts, Sound, Quotes and Fresh what
--                             follows for them, with Booking and Cache.
--   Api                       src/http, src/routes, src/middleware/validate-request.ts and the conditions of
--                             src/schemas/requests: Responses, Validation, Schemas, the routes by the
--                             file they stand in, Health for src/app.ts and src/lib/database.ts, Logs the
--                             levels of src/lib/logger.ts; Answers and AdminAnswers what follows.
--   Config                    src/config/env.ts.
--   Shared                    lists, tables, signed numbers, Boolean tests. Fixtures and the modules
--                             named Tests hold sample data and runs.
--
-- How the parts meet: a booking handler prices its party by Pricing, writes by Service's transactions
-- with an entry of Audit, and queues work that Webhooks carries out; Cache is emptied for a booking's
-- tenant, and Search reads through it. Api puts Auth's guards and the validation before each service.
--
-- Conventions: an identifier is a number, an amount of money is a number of cents, a time a number of
-- milliseconds. What the clock, the database and random generators draw is an argument; a request reads
-- the clock once. The first row that fits stands for findFirst and findUnique; a failing unique key is an
-- error that is not an AppError. No function needs fuel: all recursion is on lists.
--
-- Not modelled: Express itself, the start and the stop of the process, the services' calls of the logger,
-- clients of the database and of Redis, the queue under the worker (it is the sequence of the runs that it
-- makes), the seed. Numbers of the database are unbounded, so the overflow of int4 and Decimal(12,2) is left
-- out; rows that tie in an ORDER BY keep their order; the identifier of a new webhook is taken to be new. Shapes
-- of requests (zod), hashing, signing, HMAC, JSON, fetch, doubles, the reading and printing of dates and
-- numbers are parameters.

pub mod Shared
pub mod Errors
pub mod Model
pub mod Service
pub mod Pricing
pub mod Audit
pub mod Booking
pub mod Auth
pub mod Webhooks
pub mod Dates
pub mod Cache
pub mod Listing
pub mod Search
pub mod Api
pub mod Config
pub mod Fixtures
