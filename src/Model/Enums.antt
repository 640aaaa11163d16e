-- ===== src/Model/Enums.antt =====
-- The enumerations of prisma/schema.prisma, and those of src/constants.
use booking_availability_pla.Shared.{Bool, true, false, String}

pub data UserRole : Type 0 where
  admin travel_manager viewer : UserRole

pub data BookingStatus : Type 0 where
  reserved confirmed cancelled expired : BookingStatus

pub data AuditEventType : Type 0 where
  login_event logout_event : AuditEventType
  booking_reserved booking_confirmed booking_cancelled booking_expired : AuditEventType
  webhook_created webhook_updated webhook_deleted : AuditEventType
  pricing_rule_created pricing_rule_updated : AuditEventType
  user_created user_updated : AuditEventType

pub data PricingRuleType : Type 0 where
  group_size advance_booking seasonal : PricingRuleType

-- src/constants/entity-types.ts
pub data AuditEntityType : Type 0 where
  tenant_entity user_entity supplier_entity experience_entity : AuditEntityType
  availability_slot_entity pricing_rule_entity booking_entity : AuditEntityType
  tenant_webhook_entity : AuditEntityType

-- src/constants/webhook-events.ts
pub data WebhookEventType : Type 0 where
  test_event reserved_event confirmed_event cancelled_event expired_event : WebhookEventType

abbrev pub status_text : BookingStatus → String
status_text reserved = "RESERVED"
status_text confirmed = "CONFIRMED"
status_text cancelled = "CANCELLED"
status_text expired = "EXPIRED"

abbrev pub webhook_event_text : WebhookEventType → String
webhook_event_text test_event = "webhook.test"
webhook_event_text reserved_event = "booking.reserved"
webhook_event_text confirmed_event = "booking.confirmed"
webhook_event_text cancelled_event = "booking.cancelled"
webhook_event_text expired_event = "booking.expired"

-- `===` on roles and on statuses.
abbrev pub same_role : UserRole → UserRole → Bool
same_role admin admin = true
same_role travel_manager travel_manager = true
same_role viewer viewer = true
same_role _ _ = false

abbrev pub same_status : BookingStatus → BookingStatus → Bool
same_status reserved reserved = true
same_status confirmed confirmed = true
same_status cancelled cancelled = true
same_status expired expired = true
same_status _ _ = false
