-- ===== src/Api/ExperienceRoutes.antt =====
-- src/routes/experiences.routes.ts; the services read the cache, which is the state beside the database.
use booking_availability_pla.Shared.{ℕ, String, Bool, Option, none, some}
use booking_availability_pla.Service.{World, Result, ok, err, Action, ◌>>=◌, pure}
use booking_availability_pla.Auth.Tokens.{Crypto}
use booking_availability_pla.Auth.Guards.{auth_middleware}
use booking_availability_pla.Dates.{Calendar}
use booking_availability_pla.Pricing.Numbers.{Numeric}
use booking_availability_pla.Cache.Store.{Store}
use booking_availability_pla.Search.Query.{Collation, ExperienceSearchQuery, ExperienceDetailQuery}
use booking_availability_pla.Search.Experiences.{ExperienceSearchResult, search_experiences}
use booking_availability_pla.Search.Detail.{ExperienceDetailResult, get_experience_detail}
use booking_availability_pla.Api.Responses.{Response, send_error, respond}
use booking_availability_pla.Api.Validation.{Parsed, Request, validate_request}
use booking_availability_pla.Api.Routes.{validated, ok_status, query_schema}

-- A service that reads the cache, behind its guards.
abbrev pub beside :
    {Q A : Type 0}
    → (Q → World → Store → (Result A × World) × Store)
    → Result Q × World
    → Store
    → (Response A × World) × Store
beside service (err e, w) store = ((send_error e, w), store)
beside service (ok q, w) store =
    let (out, after) = service q w store in (respond ok_status out, after)

module _ {V : Type 0} (crypto : Crypto) where
  unfoldable pub search_checked :
      (V → Parsed V)
      → (V → ExperienceSearchQuery)
      → ℕ
      → Option String
      → Request V
      → Action (ℕ × ExperienceSearchQuery)
  search_checked schema as_query now header req = do
    user ← auth_middleware crypto now header
    checked ← validate_request (query_schema schema) req
    query ← validated checked.validated_query
    pure (user.tenant_id, as_query query)

  unfoldable pub detail_checked :
      (V → Parsed V)
      → (V → Parsed V)
      → (V → ℕ)
      → (V → ExperienceDetailQuery)
      → ℕ
      → Option String
      → Request V
      → Action (ℕ × ℕ × ExperienceDetailQuery)
  detail_checked params_of query_of as_id as_query now header req = do
    user ← auth_middleware crypto now header
    checked ←
        validate_request (record { body = none; query = some query_of; params = some params_of })
          req
    params ← validated checked.validated_params
    query ← validated checked.validated_query
    pure (user.tenant_id, as_id params, as_query query)

module _ (num : Numeric) (calendar : Calendar) (ttl_seconds : ℕ) (stored : Bool) where
  module _ (collation : Collation) (query_hash : ExperienceSearchQuery → String)
      (parse : String → ExperienceSearchResult) (stringify : ExperienceSearchResult → String) where
    abbrev pub search_service :
        ℕ
        → ℕ × ExperienceSearchQuery
        → World
        → Store
        → (Result ExperienceSearchResult × World) × Store
    search_service now (tenant_id, query) w store =
        let (result, after) =
          search_experiences num calendar collation now w.db tenant_id query query_hash parse
            stringify ttl_seconds stored store in
        ((ok result, w), after)

    -- What follows the guards of `GET /experiences`.
    abbrev pub get_experiences :
        ℕ
        → Result (ℕ × ExperienceSearchQuery) × World
        → Store
        → (Response ExperienceSearchResult × World) × Store
    get_experiences now checked store = beside (search_service now) checked store

  module _ (query_hash : ExperienceDetailQuery → String) (parse : String → ExperienceDetailResult)
      (stringify : ExperienceDetailResult → String) where
    abbrev pub detail_service :
        ℕ
        → ℕ × ℕ × ExperienceDetailQuery
        → World
        → Store
        → (Result ExperienceDetailResult × World) × Store
    detail_service now (tenant_id, id, query) w store =
        get_experience_detail num calendar now tenant_id id query query_hash parse stringify
          ttl_seconds stored w store

    -- What follows the guards of `GET /experiences/:id`.
    abbrev pub get_experience :
        ℕ
        → Result (ℕ × ℕ × ExperienceDetailQuery) × World
        → Store
        → (Response ExperienceDetailResult × World) × Store
    get_experience now checked store = beside (detail_service now) checked store
