-- ===== src/Api/Schemas.antt =====
-- The conditions that src/schemas/requests add to the shapes of requests: ranges of numbers, defaults, and the
-- `refine` calls on two fields. Shapes and the coercion of texts are zod's. The order of two dates is that of
-- JavaScript's texts, a parameter.
use booking_availability_pla.Shared.{
  ℕ, ◌^◌, String, Bool, true, ◌&&◌, Option, none, some, List, [], ◌∷◌, ◌++◌, leb, same_text,
  if◌then◌else◌,
}
use booking_availability_pla.Model.{Decimal}
use booking_availability_pla.Booking.Reserve.{CreateBookingBody}
use booking_availability_pla.Listing.Bookings.{AdminBookingListQuery, leb_ℤ}
use booking_availability_pla.Listing.AuditLogs.{AuditLogListQuery}
use booking_availability_pla.Search.Query.{ExperienceSearchQuery, ExperienceDetailQuery, scale}
use booking_availability_pla.Api.Validation.{Issue, Parsed, parsed, zod_error}

-- `emptyToUndefined`, of a field that is a text or missing.
abbrev pub empty_to_undefined : Option String → Option String
empty_to_undefined none = none
empty_to_undefined (some value) = if same_text value "" then none else some value

-- `emptyToUndefined(value) ?? fallback`
abbrev pub with_fallback : Option String → String → String
with_fallback value fallback = elim (empty_to_undefined value) [ none ↦ fallback | some v ↦ v ]

-- `.min(a).max(b)`
abbrev pub in_range : ℕ → ℕ → ℕ → Bool
in_range least greatest n = leb least n && leb n greatest

abbrev pub page_in_range : ℕ → ℕ → Bool
page_in_range page page_size = leb 1 page && in_range 1 100 page_size

abbrev pub create_booking_in_range : CreateBookingBody → Bool
create_booking_in_range body = leb 1 body.party_size

abbrev pub refinement : Bool → String → String → List Issue
refinement holds message field =
    if holds then [] else record { path = field ∷ []; message = message } ∷ []

-- A condition on two fields, which holds if one is missing.
abbrev pub in_order : {A : Type 0} → (A → A → Bool) → Option A → Option A → Bool
in_order le none b = true
in_order le (some a) none = true
in_order le (some a) (some b) = le a b

abbrev pub decimal_le : Decimal → Decimal → Bool
decimal_le a b = leb_ℤ (scale a.digits (10 ^ b.places)) (scale b.digits (10 ^ a.places))

-- What a schema makes of fields that have their shapes.
abbrev pub refined : {A : Type 0} → A → List Issue → Parsed A
refined a [] = parsed a
refined a (issue ∷ issues) = zod_error (issue ∷ issues)

module _ (text_le : String → String → Bool) where
  unfoldable pub refine_search : ExperienceSearchQuery → Parsed ExperienceSearchQuery
  refine_search query = refined query (
      refinement (text_le query.start_date query.end_date) "end_date must be on or after start_date"
        "end_date"
      ++ refinement (in_order decimal_le query.min_price query.max_price)
          "max_price must be greater than or equal to min_price" "max_price")

  abbrev pub refine_detail : ExperienceDetailQuery → Parsed ExperienceDetailQuery
  refine_detail query = refined query (
      refinement (in_order text_le query.start_date query.end_date)
        "end_date must be on or after start_date" "end_date")

  unfoldable pub refine_admin_bookings : AdminBookingListQuery → Parsed AdminBookingListQuery
  refine_admin_bookings query = refined query (
      refinement (in_order text_le query.created_from query.created_to)
        "created_to must be on or after created_from" "created_to"
      ++ refinement (in_order text_le query.slot_from query.slot_to)
          "slot_to must be on or after slot_from" "slot_to")

  abbrev pub refine_audit_logs : AuditLogListQuery → Parsed AuditLogListQuery
  refine_audit_logs query =
      refined query
        (refinement (in_order text_le query.from query.to) "to must be on or after from" "to")
