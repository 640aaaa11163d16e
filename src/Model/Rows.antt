-- ===== src/Model/Rows.antt =====
-- The tables of prisma/schema.prisma, one record for a row of each.
use booking_availability_pla.Shared.{ℕ, Bool, String, Option, List, ℤ}
use booking_availability_pla.Model.Enums.{
  UserRole, BookingStatus, AuditEventType, PricingRuleType, AuditEntityType,
}

pub record Tenant : Type 0 where
  pub id : ℕ
  pub slug : String

pub record User : Type 0 where
  pub id : ℕ
  pub tenant_id : ℕ
  pub email : String
  pub password_hash : String
  pub role : UserRole
  pub is_active : Bool

pub record RefreshTokenFamily : Type 0 where
  pub id : ℕ
  pub user_id : ℕ
  pub revoked : Bool

pub record RefreshToken : Type 0 where
  pub id : ℕ
  pub family_id : ℕ
  pub token_hash : String
  pub revoked : Bool
  pub replaced_by_id : Option ℕ
  pub expires_at : ℕ

pub record Supplier : Type 0 where
  pub id : ℕ
  pub tenant_id : ℕ
  pub name : String
  pub email : Option String

-- A number in a JSON column, `digits / 10 ^ places`.
pub record Decimal : Type 0 where
  pub digits : ℤ
  pub places : ℕ

-- The JSON object in `PricingRule.config`: the fields that the schemas look at, if they are there
-- with a number (a text, a list of numbers).
pub record RuleConfig : Type 0 where
  pub min_party_size : Option Decimal
  pub days_in_advance : Option Decimal
  pub discount_percent : Option Decimal
  pub season : Option String
  pub months : Option (List Decimal)
  pub surcharge_percent : Option Decimal

pub record PricingRule : Type 0 where
  pub id : ℕ
  pub supplier_id : ℕ
  pub rule_type : PricingRuleType
  pub config : RuleConfig
  pub active : Bool

pub record Experience : Type 0 where
  pub id : ℕ
  pub tenant_id : ℕ
  pub supplier_id : ℕ
  pub title : String
  pub destination : String
  pub description : Option String
  pub base_price : ℤ
  pub capacity : ℕ
  pub active : Bool

pub record AvailabilitySlot : Type 0 where
  pub id : ℕ
  pub tenant_id : ℕ
  pub experience_id : ℕ
  pub starts_at : ℕ
  pub ends_at : ℕ
  pub capacity : ℕ
  pub reserved_seats : ℕ
  pub version : ℕ

pub record Booking : Type 0 where
  pub id : ℕ
  pub reference : String
  pub tenant_id : ℕ
  pub user_id : ℕ
  pub experience_id : ℕ
  pub slot_id : ℕ
  pub party_size : ℕ
  pub total_price : ℤ
  pub status : BookingStatus
  pub reserved_until : Option ℕ
  pub created_at : ℕ

pub record BookingStatusHistory : Type 0 where
  pub booking_id : ℕ
  pub from_status : Option BookingStatus
  pub to_status : BookingStatus
  pub actor_user_id : Option ℕ
  pub reason : Option String
  pub created_at : ℕ

pub record TenantWebhook : Type 0 where
  pub id : ℕ
  pub tenant_id : ℕ
  pub url : String
  pub secret : String
  pub active : Bool
  pub created_at : ℕ

-- A value in the JSON object of an audit entry, and what the column may hold.
pub data JsonLeaf : Type 0 where
  text : String → JsonLeaf
  number : ℕ → JsonLeaf
  uuid : ℕ → JsonLeaf

pub data Metadata : Type 0 where
  json_null : Metadata
  json_leaf : JsonLeaf → Metadata
  json_array : List JsonLeaf → Metadata
  json_object : List (String × JsonLeaf) → Metadata

pub record AuditLog : Type 0 where
  pub tenant_id : Option ℕ
  pub actor_user_id : Option ℕ
  pub event_type : AuditEventType
  pub entity_type : AuditEntityType
  pub entity_id : Option ℕ
  pub metadata : Metadata
  pub created_at : ℕ

-- The database: one list of rows for each table.
pub record Db : Type 0 where
  pub tenants : List Tenant
  pub users : List User
  pub families : List RefreshTokenFamily
  pub tokens : List RefreshToken
  pub suppliers : List Supplier
  pub rules : List PricingRule
  pub experiences : List Experience
  pub slots : List AvailabilitySlot
  pub bookings : List Booking
  pub history : List BookingStatusHistory
  pub webhooks : List TenantWebhook
  pub audit_logs : List AuditLog
