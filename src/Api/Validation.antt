-- ===== src/Api/Validation.antt =====
-- `validateRequest` of src/middleware/validate-request.ts. The schemas are zod's: they are parameters.
use booking_availability_pla.Shared.{String, ◌<>◌, Option, none, some, List, [], ◌∷◌, map}
use booking_availability_pla.Errors.{bad_request_error}
use booking_availability_pla.Service.{Action, ◌>>=◌, pure, throw, fault}

pub data RequestPart : Type 0 where
  body_part query_part params_part : RequestPart

pub record Issue : Type 0 where
  pub path : List String
  pub message : String

-- What a schema makes of a value: `parse` returns, throws a `ZodError`, or throws something else.
pub data Parsed (V : Type 0) : Type 0 where
  parsed : V → Parsed V
  zod_error : List Issue → Parsed V
  thrown : String → Parsed V

abbrev pub invalid_request_message : RequestPart → String
invalid_request_message body_part = "Invalid request body"
invalid_request_message query_part = "Invalid query parameters"
invalid_request_message params_part = "Invalid route parameters"

-- `issue.path.join(".")`
abbrev pub join_path : List String → String
join_path [] = ""
join_path (x ∷ []) = x
join_path (x ∷ y ∷ ys) = x <> "." <> join_path (y ∷ ys)

abbrev pub format_zod_issues : List Issue → List (String × String)
format_zod_issues issues = map (λ (i : Issue). (join_path i.path, i.message)) issues

module _ (V : Type 0) where
  -- A request, `body` with `{}` for one that is missing, and what has been validated of it.
  pub record Request : Type 0 where
    pub body : V
    pub query : V
    pub params : V
    pub validated_body : Option V
    pub validated_query : Option V
    pub validated_params : Option V

  pub record RequestSchemas : Type 0 where
    pub body : Option (V → Parsed V)
    pub query : Option (V → Parsed V)
    pub params : Option (V → Parsed V)

  abbrev pub Part : Type 0
  Part = RequestPart × (V → Parsed V) × V

module _ {V : Type 0} where
  abbrev pub push_part : RequestPart → Option (V → Parsed V) → V → List (Part V) → List (Part V)
  push_part part none value parts = parts
  push_part part (some schema) value parts = (part, schema, value) ∷ parts

  -- `parts`, in the order body, query, params.
  abbrev pub parts_of : RequestSchemas V → Request V → List (Part V)
  parts_of schemas req = push_part body_part schemas.body req.body (
      push_part query_part schemas.query req.query
        (push_part params_part schemas.params req.params []))

  abbrev pub store_parsed : RequestPart → V → Request V → Request V
  store_parsed body_part v req = record req { body = v; validated_body = some v }
  store_parsed query_part v req = record req { validated_query = some v }
  store_parsed params_part v req = record req { validated_params = some v }

  -- What the loop does with one part that its schema has looked at.
  abbrev pub take_parsed : RequestPart → Parsed V → Request V → Action (Request V)
  take_parsed part (parsed v) req = pure (store_parsed part v req)
  take_parsed part (zod_error issues) req =
      throw (bad_request_error (invalid_request_message part) (some (format_zod_issues issues)))
  take_parsed part (thrown s) req = fault s

  -- The loop: the first part that does not parse ends it with an error.
  unfoldable pub validate_parts : List (Part V) → Request V → Action (Request V)
  validate_parts [] req = pure req
  validate_parts ((part, schema, value) ∷ parts) req = do
    stored ← take_parsed part (schema value) req
    validate_parts parts stored

  unfoldable pub validate_request : RequestSchemas V → Request V → Action (Request V)
  validate_request schemas req = validate_parts (parts_of schemas req) req
